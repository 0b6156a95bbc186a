-- ===== src/Heartbeat/Backoff.antt =====
-- What an attempt and the back-off of server/cellHeartbeat.js come to.
use qase.Common.{
  ℕ, zero, suc, ◌+◌, ◌*◌, ◌^◌, ◌≤◌, min, Bool, true, false, Option, ◌≡◌, refl, arith, ◌||◌, not,
  Bool-cases, inl, inr,
}
use qase.Heartbeat.{
  State, Outcome, succeeds, fails, Attempt, give_up, succeed, post_heartbeat, fetch_metrics,
  register_cell, run_once, backoff,
}

-- How an attempt from `s` may end: it succeeds, registered and with no failure counted, or it counts
-- one more failure. In both cases it is over.
pub data Ended (now : ℕ) (s : State) : State × Bool → Type 0 where
  beats :
      (s' : State)
      → s'.running ≡ false
      → s'.stopping ≡ s.stopping
      → s'.consecutive_failures ≡ 0
      → s'.last_success_at ≡ now
      → s'.registered ≡ true
      → Ended now s (s', true)
  misses :
      (s' : State)
      → s'.running ≡ false
      → s'.stopping ≡ s.stopping
      → s'.consecutive_failures ≡ s.consecutive_failures + 1
      → s'.last_success_at ≡ s.last_success_at
      → Ended now s (s', false)

give_up-Ended :
    (now : ℕ) (status : Option ℕ) (s s₀ : State)
    → s.stopping ≡ s₀.stopping
    → s.consecutive_failures ≡ s₀.consecutive_failures
    → s.last_success_at ≡ s₀.last_success_at
    → Ended now s₀ (give_up status s)
unfolding give_up
give_up-Ended now status s s₀ a b c = misses _ refl a (rw b) c

fetch-Ended :
    (o : Outcome) (a : Attempt) (s s₀ : State)
    → s.registered ≡ true
    → s.stopping ≡ s₀.stopping
    → s.consecutive_failures ≡ s₀.consecutive_failures
    → s.last_success_at ≡ s₀.last_success_at
    → Ended a.finished_at s₀ (fetch_metrics o a s)
unfolding fetch_metrics
fetch-Ended (fails status) a s s₀ r p q t = give_up-Ended a.finished_at status s s₀ p q t
fetch-Ended succeeds a s s₀ r p q t = posted a.heartbeat
  where
    posted : (o : Outcome) → Ended a.finished_at s₀ (post_heartbeat o a s)
    posted (fails status) = unfold post_heartbeat in give_up-Ended a.finished_at status s s₀ p q t
    posted succeeds = unfold post_heartbeat succeed in beats _ refl p refl refl r

register-Ended :
    (o : Outcome) (a : Attempt) (s s₀ : State)
    → s.stopping ≡ s₀.stopping
    → s.consecutive_failures ≡ s₀.consecutive_failures
    → s.last_success_at ≡ s₀.last_success_at
    → Ended a.finished_at s₀ (register_cell o a s)
unfolding register_cell
register-Ended (fails status) a s s₀ p q t = give_up-Ended a.finished_at status s s₀ p q t
register-Ended succeeds a s s₀ p q t =
    fetch-Ended a.metrics a (record s { registered = true }) s₀ refl p q t

-- An attempt of a heartbeat that neither runs nor stops either succeeds, and then the cell is
-- registered and no failure is counted, or counts one more failure and keeps the time of the last
-- success; in both cases it is no longer running.
pub run_once-Ended :
    (register : Bool) (a : Attempt) (s : State)
    → s.running ≡ false
    → s.stopping ≡ false
    → Ended a.finished_at s (run_once register a s)
unfolding run_once
run_once-Ended register a s h k =
    let idle : (s.running || s.stopping) ≡ false = ground arith in
    let begun : State = record s { running = true; last_attempt_at = a.begun_at } in
    elim (Bool-cases (register || not s.registered)) [
      | inl e ↦ rw (idle, e) (register-Ended a.registration a begun s refl refl refl)
      | inr e ↦ rw (idle, e) (fetch-Ended a.metrics a begun s (ground arith) refl refl refl)
    ]

power_bounds : (i m : ℕ) → m ≤ 4 → (i ≤ i * 2 ^ m) × (i * 2 ^ m ≤ 16 * i)
power_bounds i zero h = (omega arith, omega arith)
power_bounds i (suc zero) h = (omega arith, omega arith)
power_bounds i (suc (suc zero)) h = (omega arith, omega arith)
power_bounds i (suc (suc (suc zero))) h = (omega arith, omega arith)
power_bounds i (suc (suc (suc (suc zero)))) h = (omega arith, omega arith)
power_bounds i (suc (suc (suc (suc (suc m))))) h = omega arith

-- The back-off is at least the interval, where that is within the bound, and never more than sixteen
-- intervals or five minutes.
pub backoff-bounds :
    (interval : ℕ) (s : State)
    → interval ≤ 300000
    → (interval ≤ backoff interval s)
      × (backoff interval s ≤ 16 * interval)
      × (backoff interval s ≤ 300000)
unfolding backoff
backoff-bounds interval s h =
    let (least, most) = power_bounds interval (min s.consecutive_failures 4) (omega arith) in
    omega (arith, least, most)
