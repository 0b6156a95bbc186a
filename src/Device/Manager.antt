-- ===== src/Device/Manager.antt =====
-- `requestSession`, `completeSession` and `cancelSession` of server/deviceRuntime/manager.js. Each is
-- a function on the manager's state that runs to its end: two calls do not interleave at an `await`.
pub mod Steps
pub mod Handover
pub mod Release
use qase.Common.{
  ℕ, suc, ◌+◌, String, Bool, true, false, Option, none, some, List, [], ◌∷◌, ◌++◌, eqb, ◌&&◌, ◌==◌,
  if◌then◌else◌, get_or, is_some, Dict, get, set, length, filter,
}
use qase.Device.Types.{
  Level, simulated, virtual_device, real_device, Availability, available, busy, Environment,
  SessionStatus, created, queued, running, failed, done, cancelled, Session, Creation, creates,
  declines, create_throws, Start, starts, start_throws, Provider, Device, Manager, get_session,
  set_session, next_session_id, device_key, is_busy,
}
use qase.Device.Level.{provider_for_level, maximum_level_for}

-- `currentSessionId === sessionId`
abbrev pub is_current : ℕ → Option ℕ → Bool
is_current k none = false
is_current k (some j) = eqb j k

-- `queueFor(key)`, as a list.
abbrev pub queue_of : String → Manager → List ℕ
queue_of key m = get_or (get key m.queues) []

-- Where a session stands in the queues, `entries.findIndex(...) + 1`.
index_of : ℕ → ℕ → List ℕ → Option ℕ
index_of k n [] = none
index_of k n (x ∷ xs) = if eqb x k then some n else index_of k (n + 1) xs

pub queue_position : ℕ → Dict (List ℕ) → Option ℕ
unfolding index_of
queue_position k [] = none
queue_position k ((_, xs) ∷ rest) = elim (index_of k 1 xs) [
  | some n ↦ some n
  | none ↦ queue_position k rest
]

-- `queue.splice(index, 1)` at the first entry of the session.
pub leave_queue : ℕ → List ℕ → List ℕ
leave_queue k [] = []
leave_queue k (x ∷ xs) = if eqb x k then xs else x ∷ leave_queue k xs

pub data Completion : Type 0 where
  unknown_session : Completion
  released : Option ℕ → Completion
  release_throws : String → Completion

pub data Cancellation : Type 0 where
  no_session : Cancellation
  was_queued : Cancellation
  was_running : Completion → Cancellation
  already : SessionStatus → Cancellation

pub data Reply : Type 0 where
  not_available : Level → List Level → Option Level → Reply
  busy_device : Option ℕ → Reply
  queued_at : ℕ → Option ℕ → Reply
  declined : Option String → Reply
  started : ℕ → Reply
  start_failed : ℕ → Completion → Reply
  create_failed : String → Reply

find_provider : String → List Provider → Option Provider
find_provider k [] = none
find_provider k (p ∷ ps) = if p.id == k then some p else find_provider k ps

-- A write to the shared entry of a device.
abbrev pub put_device : String → Device → Manager → Manager
put_device key d m = record m { devices = set key d m.devices }

abbrev pub put_session : ℕ → Session → Manager → Manager
put_session k s m = record m { sessions = set_session k s m.sessions }

abbrev pub put_queue : String → List ℕ → Manager → Manager
put_queue key q m = record m { queues = set key q m.queues }

-- `started.status ?? fallback`
abbrev pub start_outcome : SessionStatus → Start → Session → Session
start_outcome fallback (starts status) s = record s { status = get_or status fallback }
start_outcome fallback (start_throws x) s = s

abbrev pub thrown : Start → Completion → Completion
thrown (starts status) c = c
thrown (start_throws x) c = release_throws x

abbrev pub is_cancelled : SessionStatus → Bool
is_cancelled cancelled = true
is_cancelled _ = false

-- `result === 'failed'`
abbrev pub final_status : Option String → SessionStatus
final_status none = done
final_status (some r) = if r == "failed" then failed else done

abbrev pub count_session : Manager → Manager
count_session m = record m { session_counter = next_session_id m.session_counter }

module _ (providers : List Provider) (now : String) where
  -- `deviceState(environment)`: the entry, made where it is missing.
  new_device : Environment → Device
  new_device e = record {
    env_id = get_or e.env_id (device_key e);
    status = available;
    current_session_id = none;
    last_tested_at = none;
    last_result = none;
    maximum_level = maximum_level_for providers e;
    unavailable_reason = none;
  }

  pub device_state : Environment → Manager → Device
  unfolding new_device
  device_state e m = get_or (get (device_key e) m.devices) (new_device e)

  -- The device of a session that starts, where the device has an entry.
  occupy : String → ℕ → Manager → Manager
  occupy key k m = elim (get key m.devices) [
    | none ↦ m
    | some d ↦ put_device key (record d { status = busy; current_session_id = some k }) m
  ]

  -- The start of the session that was next in the queue.
  pub start_next : String → ℕ → Session → Manager → Manager × Completion
  start_next key k s m =
      let s' : Session = record s { status = running; started_at = some now; queue = some 0 } in
      let m' = occupy key s.id (put_session k s' m) in
      elim (find_provider s.provider_id providers) [
        | none ↦ (m', released (some s.id))
        | some p ↦
            let outcome = p.start_session s' in
            (
              put_session k (start_outcome running outcome s') m',
              thrown outcome (released (some s.id)),
            )
      ]

  -- The loop of `completeSession`: entries of unknown and cancelled sessions are dropped, and the
  -- first other one is started.
  pub advance_queue : String → List ℕ → Manager → Manager × Completion
  advance_queue key [] m = (put_queue key [] m, released none)
  advance_queue key (k ∷ rest) m =
      let further = advance_queue key rest m in
      elim (get_session k m.sessions) [
        | none ↦ further
        | some s ↦
            if is_cancelled s.status then further else start_next key k s (put_queue key rest m)
      ]

  -- The device is released by the session that holds it, and by no other.
  release_device : String → ℕ → Option String → Manager → Manager
  release_device key k result m = elim (get key m.devices) [
    | none ↦ m
    | some d ↦
        if is_current k d.current_session_id
        then put_device key
            (record d {
              status = available;
              current_session_id = none;
              last_tested_at = some now;
              last_result = some (get_or result "done");
            })
            m
        else m
  ]

  pub complete_session : ℕ → Option String → Manager → Manager × Completion
  unfolding start_next advance_queue occupy release_device
  complete_session k result m = elim (get_session k m.sessions) [
    | none ↦ (m, unknown_session)
    | some s ↦
        let key = device_key s.environment in
        let s' : Session = record s { status = final_status result; ended_at = some now } in
        advance_queue key (queue_of key m) (release_device key k result (put_session k s' m))
  ]

  stop : ℕ → Session → Manager → Manager × Cancellation
  stop k s m =
      let s' : Session = record s { status = cancelled; ended_at = some now } in
      let (m', c) = complete_session k (some "cancelled") (put_session k s' m) in
      (m', was_running c)

  cancel_found : SessionStatus → ℕ → Session → Manager → Manager × Cancellation
  unfolding stop
  cancel_found queued k s m =
      let key = device_key s.environment in
      (
        put_session k (record s { status = cancelled })
            (put_queue key (leave_queue k (queue_of key m)) m),
        was_queued,
      )
  cancel_found running k s m = stop k s m
  cancel_found created k s m = stop k s m
  cancel_found status k s m = (m, already status)

  pub cancel_session : ℕ → Manager → Manager × Cancellation
  unfolding cancel_found
  cancel_session k m = elim (get_session k m.sessions) [
    | none ↦ (m, no_session)
    | some s ↦ cancel_found s.status k s m
  ]

  new_session :
      Manager
      → Environment
      → Level
      → Provider
      → Option String
      → Option String
      → SessionStatus
      → Session
  new_session m e l p run test_case status = record {
    id = next_session_id m.session_counter;
    environment = e;
    level = l;
    provider_id = p.id;
    status = status;
    queue = none;
    linked_run_id = run;
    linked_test_case_id = test_case;
    created_at = now;
    started_at = none;
    ended_at = none;
    reason = none;
    attestation = none;
  }

  -- A session that waits for a busy device. What `create_session` answers is not read.
  join_queue : String → Session → Manager → Manager × Reply
  join_queue key s m =
      let q = queue_of key m in
      let s' : Session = record s { queue = some (length q + 1) } in
      let m' = put_queue key (q ++ s.id ∷ []) (put_session s.id s' (count_session m)) in
      (m', queued_at s.id (queue_position s.id m'.queues))

  -- A session that takes a free device and starts; a start that throws gives the device back.
  start_session : Provider → String → Device → Session → Manager → Manager × Reply
  start_session p key d s m =
      let m' =
        put_device key (record d { status = busy; current_session_id = some s.id })
          (put_session s.id s (count_session m)) in
      elim (p.start_session s) [
        | starts status ↦ (
          put_session s.id (record s { status = get_or status running; started_at = some now }) m',
          started s.id,
        )
        | start_throws x ↦
            let s' : Session = record s { status = failed; reason = some x; ended_at = some now } in
            let (m'', c) = complete_session s.id (some "failed") (put_session s.id s' m') in
            (m'', start_failed s.id c)
      ]

  enqueue_created : Creation → String → Session → Manager → Manager × Reply
  unfolding join_queue
  enqueue_created (create_throws x) key s m = (m, create_failed x)
  enqueue_created _ key s m = join_queue key s m

  claim_created : Creation → Provider → String → Device → Session → Manager → Manager × Reply
  unfolding start_session
  claim_created (create_throws x) p key d s m = (m, create_failed x)
  claim_created (declines reason) p key d s m = (m, declined reason)
  claim_created (creates attestation) p key d s m =
      start_session p key d (record s { attestation = attestation }) m

  -- `requestSession` at a level that a provider supports.
  request_at :
      Provider
      → Environment
      → Level
      → Option String
      → Option String
      → Bool
      → Manager
      → Manager × Reply
  unfolding new_session enqueue_created claim_created
  request_at p e l run test_case allow_queue m =
      let key = device_key e in
      let d = device_state e m in
      let m' = put_device key d m in
      if is_busy d.status
      then if allow_queue && p.queueable
        then enqueue_created (p.create_session e) key (new_session m' e l p run test_case queued) m'
        else (m', busy_device d.current_session_id)
      else claim_created (p.create_session e) p key d (new_session m' e l p run test_case created)
          m'

  -- The levels that are offered where no provider supports the one asked for.
  choices : List Level
  choices =
      filter (λ l. is_some (provider_for_level providers l))
        (real_device ∷ virtual_device ∷ simulated ∷ [])

  pub request_session :
      Environment → Option Level → Option String → Option String → Bool → Manager → Manager × Reply
  unfolding request_at choices
  request_session e requested run test_case allow_queue m =
      let l = get_or requested simulated in
      elim (provider_for_level providers l) [
        | none ↦ (m, not_available l choices (maximum_level_for providers e))
        | some p ↦ request_at p e l run test_case allow_queue m
      ]
