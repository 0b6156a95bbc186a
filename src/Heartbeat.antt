-- ===== src/Heartbeat.antt =====
-- The heartbeat of server/cellHeartbeat.js: `runOnce`, the bounded back-off of `delay`, and `ready` of
-- `getState`. What the requests come to is an argument; times are milliseconds.
pub mod Backoff
use qase.Common.{
  ℕ, zero, suc, ◌+◌, ◌-◌, ◌*◌, ◌^◌, min, Bool, true, false, Option, none, some, ◌&&◌, ◌||◌, not,
  ltb, leb, eqb, if◌then◌else◌,
}

pub record State : Type 0 where
  pub running : Bool
  pub stopping : Bool
  pub last_attempt_at : ℕ
  pub last_success_at : ℕ
  pub consecutive_failures : ℕ
  pub registered : Bool

-- How a request ends; a failure has the status of the response, where there was one.
pub data Outcome : Type 0 where
  succeeds : Outcome
  fails : Option ℕ → Outcome

-- What the calls of one attempt come to: the registration, then the metrics (fetched and parsed),
-- then the heartbeat; and the times at which it starts and succeeds.
pub record Attempt : Type 0 where
  pub registration : Outcome
  pub metrics : Outcome
  pub heartbeat : Outcome
  pub begun_at : ℕ
  pub finished_at : ℕ

-- `error?.status === 404`
abbrev pub is_gone : Option ℕ → Bool
is_gone none = false
is_gone (some s) = eqb s 404

-- The `catch` block and the `finally` block after it.
pub give_up : Option ℕ → State → State × Bool
give_up status s = (
  record s {
    running = false;
    consecutive_failures = s.consecutive_failures + 1;
    registered = if is_gone status then false else s.registered;
  },
  false,
)

pub succeed : ℕ → State → State × Bool
succeed now s =
    (record s { running = false; last_success_at = now; consecutive_failures = 0 }, true)

pub post_heartbeat : Outcome → Attempt → State → State × Bool
post_heartbeat (fails status) a s = give_up status s
post_heartbeat succeeds a s = succeed a.finished_at s

pub fetch_metrics : Outcome → Attempt → State → State × Bool
fetch_metrics (fails status) a s = give_up status s
fetch_metrics succeeds a s = post_heartbeat a.heartbeat a s

pub register_cell : Outcome → Attempt → State → State × Bool
register_cell (fails status) a s = give_up status s
register_cell succeeds a s = fetch_metrics a.metrics a (record s { registered = true })

-- `runOnce({ register })`
pub run_once : Bool → Attempt → State → State × Bool
run_once register a s =
    if s.running || s.stopping
    then (s, false)
    else let begun = record s { running = true; last_attempt_at = a.begun_at } in
      if register || not s.registered
      then register_cell a.registration a begun
      else fetch_metrics a.metrics a begun

-- `backoff` of `delay`, before the jitter.
pub backoff : ℕ → State → ℕ
backoff interval s = min (interval * 2 ^ min s.consecutive_failures 4) 300000

-- `ready` of `getState`
pub is_ready : ℕ → ℕ → State → Bool
is_ready interval now s =
    not s.stopping && ltb 0 s.last_success_at && leb (now - s.last_success_at) (interval * 3)
