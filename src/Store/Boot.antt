-- ===== src/Store/Boot.antt =====
-- `loadSessions` of server/store.js: what the sessions on disk are after a restart. The states of the SQA and founder
-- modes and the way each is brought up to date, the devices that exist and the names that the credential vault knows
-- are arguments.
pub mod Settled
use qase.Common.{
  ℕ, String, Bool, true, false, not, Option, none, some, List, [], ◌∷◌, ◌==◌, ◌&&◌, ◌||◌,
  if◌then◌else◌, contains, map, get_or, filter,
}
use qase.Store.Findings.{Finding, normalize_finding_status}
use qase.Store.Timing.{Timing}

pub record Activity : Type 0 where
  pub id : String
  pub status : String

-- A session of the file, whose fields may be missing or of another type: `none` stands for both.
pub record Stored {ℓ κ} (S : Type ℓ) (F : Type κ) : Type (ℓ ⊔ κ) where
  pub id : String
  pub mode : Option String
  pub sqa : Option S
  pub founder : Option F
  pub device : Option String
  pub landscape : Bool
  pub owner : Option String
  pub status : String
  pub pending_question : Bool
  pub interrupted_from_run : Bool
  pub activities : List Activity
  pub secret_names : List String
  -- `none` also where the number is negative
  pub auto_resume_count : Option ℕ
  -- the roles of its messages
  pub messages : List String
  pub findings : List Finding
  pub timing : Timing

-- The host: the normal forms of the two states, the devices and the default ones.
pub record Host {ℓ κ} (S : Type ℓ) (F : Type κ) : Type (ℓ ⊔ κ) where
  pub normalize_sqa : S → S
  pub normalize_founder : F → F
  pub is_device : String → Bool
  pub default_device : String
  pub default_owner : String
  pub secret_names : String → List String

abbrev pub mode_of : Option String → String
mode_of none = "qa"
mode_of (some m) = if (m == "sqa") || (m == "founder") then m else "qa"

abbrev on_some {ℓ} : {A : Type ℓ} → (A → A) → Option A → Option A
on_some f none = none
on_some f (some a) = some (f a)

abbrev device_of : (String → Bool) → String → Option String → String
device_of is_device d none = d
device_of is_device d (some x) = if is_device x then x else d

-- A tool that was running when the process died has failed.
abbrev pub fail_running : Activity → Activity
fail_running a = if a.status == "running" then record a { status = "failed" } else a

-- Whether nothing more is to be done for a run that stands at a status.
abbrev pub is_settled : String → Bool
is_settled s = contains s ("done" ∷ "error" ∷ "idle" ∷ [])

module _ {ℓ κ} {S : Type ℓ} {F : Type κ} where
  -- The state of the other modes is deleted.
  pub load_mode : Host S F → Stored S F → Stored S F
  load_mode h s =
      let m = mode_of s.mode in
      record s {
        mode = some m;
        sqa = if m == "sqa" then on_some h.normalize_sqa s.sqa else none;
        founder = if m == "founder" then on_some h.normalize_founder s.founder else none;
        device = some (device_of h.is_device h.default_device s.device);
        owner = some (get_or s.owner h.default_owner);
      }

  -- A run that was running is interrupted; one that waits for an answer keeps waiting.
  pub load_status : Stored S F → Stored S F
  load_status s =
      if s.status == "running"
      then record s {
        interrupted_from_run = true;
        status = "interrupted";
        pending_question = false;
        activities = map fail_running s.activities;
      }
      else if s.status == "awaiting_input"
      then record s { interrupted_from_run = false; activities = map fail_running s.activities }
      else s

  -- The names of its secrets, its counter, its messages and its findings.
  pub load_rest : Host S F → ℕ → Stored S F → Stored S F
  load_rest h now s = record s {
    secret_names = if is_settled s.status then [] else h.secret_names s.id;
    auto_resume_count = some (get_or s.auto_resume_count 0);
    messages = filter (λ m. not (m == "thinking")) s.messages;
    findings = map (normalize_finding_status now) s.findings;
  }

  -- The loop's body.
  pub load_session : Host S F → ℕ → Stored S F → Stored S F
  unfolding load_mode load_status load_rest
  load_session h now s = load_rest h now (load_status (load_mode h s))

  -- The sessions whose credentials the load clears from the vault.
  pub cleared : List (Stored S F) → List String
  unfolding load_status
  cleared [] = []
  cleared (s ∷ ss) =
      let rest = cleared ss in if is_settled (load_status s).status then s.id ∷ rest else rest
