-- ===== src/Device/Types.antt =====
-- The data of server/deviceRuntime/manager.js and server/deviceRuntime/provider.js. A session id
-- QASE-DR-nnnn is its number. A provider is an argument of the manager: what its methods answer, or
-- that they throw, is a function of the model.
use qase.Common.{
  ℕ, ◌+◌, ◌%◌, String, Bool, true, false, Option, none, some, List, [], ◌∷◌, eqb, if◌then◌else◌,
  get_or, or_else, Dict,
}

-- EXECUTION_LEVELS
pub data Level : Type 0 where
  simulated virtual_device real_device : Level

-- AVAILABILITY
pub data Availability : Type 0 where
  available preparing running busy offline error unavailable : Availability

pub record Environment : Type 0 where
  pub env_id : Option String
  pub device : Option String
  pub platform : Option String
  pub browser_code : Option String

-- `named` is any other text that a provider reports.
pub data SessionStatus : Type 0 where
  created queued running failed done cancelled : SessionStatus
  named : String → SessionStatus

pub record Session : Type 0 where
  pub id : ℕ
  pub environment : Environment
  pub level : Level
  pub provider_id : String
  pub status : SessionStatus
  pub queue : Option ℕ
  pub linked_run_id : Option String
  pub linked_test_case_id : Option String
  pub created_at : String
  pub started_at : Option String
  pub ended_at : Option String
  pub reason : Option String
  pub attestation : Option String

-- What `create_session` answers.
pub data Creation : Type 0 where
  creates : Option String → Creation
  declines : Option String → Creation
  create_throws : String → Creation

-- What `start_session` answers: `started.status`, which may be missing, or an exception.
pub data Start : Type 0 where
  starts : Option SessionStatus → Start
  start_throws : String → Start

pub record Provider : Type 0 where
  pub id : String
  pub supported_levels : List Level
  pub queueable : Bool
  -- `attestPhysicalDevice(environment).physical`, where the provider has the method.
  pub attests : Option (Environment → Bool)
  pub create_session : Environment → Creation
  pub start_session : Session → Start

pub record Device : Type 0 where
  pub env_id : String
  pub status : Availability
  pub current_session_id : Option ℕ
  pub last_tested_at : Option String
  pub last_result : Option String
  pub maximum_level : Option Level
  pub unavailable_reason : Option String

-- A JavaScript `Map` from session ids, in insertion order.
abbrev pub Sessions : Type 0
Sessions = List (ℕ × Session)

unfoldable pub get_session : ℕ → Sessions → Option Session
get_session k [] = none
get_session k ((j, s) ∷ m) = if eqb j k then some s else get_session k m

unfoldable pub set_session : ℕ → Session → Sessions → Sessions
set_session k s [] = (k, s) ∷ []
set_session k s ((j, t) ∷ m) = if eqb j k then (j, s) ∷ m else (j, t) ∷ set_session k s m

pub record Manager : Type 0 where
  pub session_counter : ℕ
  pub devices : Dict Device
  pub sessions : Sessions
  pub queues : Dict (List ℕ)

-- `sessionCounter = (sessionCounter + 1) % 10000`
abbrev pub next_session_id : ℕ → ℕ
next_session_id n = (n + 1) % 10000

-- `environment?.envId ?? environment?.device ?? 'default'`
abbrev pub device_key : Environment → String
device_key e = get_or (or_else e.env_id e.device) "default"

abbrev pub is_busy : Availability → Bool
is_busy busy = true
is_busy _ = false
