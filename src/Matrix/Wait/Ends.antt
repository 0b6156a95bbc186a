-- ===== src/Matrix/Wait/Ends.antt =====
-- How the wait of server/matrixOrchestrator.js for a session ends.
use qase.Common.{
  ℕ, zero, suc, ◌+◌, ◌-◌, ◌*◌, ◌/◌, ◌≤◌, ◌<◌, ◌≡◌, arith, String, true, false, Option, none, some,
  ltb, max, Bool-cases, Option-cases, inl, inr,
}
use qase.Matrix.Wait.{
  poll_interval_ms, configured_parallelism, Watched, Outcome, settled, disappeared, timed_out,
  ends_wait, polled, poll_from, wait_for_session,
}

-- Before a poll the session was there and went on, and the deadline had not passed.
abbrev pub GoesOn : Watched → ℕ → ℕ → Type 0
GoesOn w deadline k =
    (s : String) × (w.status k ≡ some s)
    × (ends_wait s ≡ false)
    × (ltb deadline (w.clock k) ≡ false)

-- An outcome is right: the poll that it names saw what it says.
abbrev pub IsRight : Watched → ℕ → Outcome → Type 0
IsRight w deadline (settled k s) = (w.status k ≡ some s) × (ends_wait s ≡ true)
IsRight w deadline (disappeared k) = w.status k ≡ none
IsRight w deadline (timed_out k) =
    (s : String) × (w.status k ≡ some s) × (ends_wait s ≡ false) × (deadline < w.clock k)

-- The wait ends at a poll, and what it reports is what that poll saw.
abbrev pub EndsRight : Watched → ℕ → Option Outcome → Type 0
EndsRight w deadline none = ⊥
EndsRight w deadline (some o) = IsRight w deadline o

-- One poll: either the wait ends there, and rightly, or it goes on.
poll-ends :
    (w : Watched) (deadline k : ℕ) (rest : Option Outcome)
    → (ltb deadline (w.clock k) ≡ false → EndsRight w deadline rest)
    → EndsRight w deadline (polled k (w.status k) (ltb deadline (w.clock k)) rest)
poll-ends w deadline k rest r = elim (Option-cases (w.status k)) [
  | inl e ↦ rw e e
  | inr (s, e) ↦ elim (Bool-cases (ends_wait s)) [
    | inl f ↦ rw (e, f) (e, f)
    | inr f ↦ elim (Bool-cases (ltb deadline (w.clock k))) [
      | inl g ↦ rw (e, f, g) (s, e, f, ground arith)
      | inr g ↦ rw (e, f, g) (r g)
    ]
  ]
]

poll_from-ends :
    (w : Watched) (deadline k fuel : ℕ)
    → ((j : ℕ) → w.clock j + poll_interval_ms ≤ w.clock (suc j))
    → deadline + 1 ≤ w.clock k + fuel * poll_interval_ms
    → EndsRight w deadline (poll_from w deadline k (suc fuel))
unfolding poll_from
poll_from-ends w deadline k zero tick h = poll-ends w deadline k _ (λ g. absurd (ground (arith, h)))
poll_from-ends w deadline k (suc fuel) tick h =
    poll-ends w deadline k _
      (λ g. poll_from-ends w deadline (suc k) fuel tick (omega (arith, h, tick k)))

-- The wait for a session ends, where two polls are at least 2 seconds apart, and rightly: with the session where a poll
-- finds it done, failed, interrupted or waiting for an answer, with its disappearance where a poll does not find it,
-- and with the time-out where a poll finds it at another status after the deadline.
pub wait_for_session-ends :
    (w : Watched) (called max_ms : ℕ)
    → ((j : ℕ) → w.clock j + poll_interval_ms ≤ w.clock (suc j))
    → called ≤ w.clock 0
    → EndsRight w (called + max_ms) (wait_for_session w called max_ms)
unfolding wait_for_session
wait_for_session-ends w called max_ms tick h =
    poll_from-ends w (called + max_ms) 0 (max_ms / poll_interval_ms + 1) tick (omega (arith, h))

-- A run has at least one worker and at most 8, never more than it is configured to have, and beyond the first one leaves
-- two cores free and 600 MB for each, besides the 1536 MB of the server.
pub configured_parallelism-bounds :
    (raw : ℕ) (cores total_mb : ℕ)
    → let n = configured_parallelism (some raw) cores total_mb in
      (1 ≤ n)
      × (n ≤ 8)
      × (n ≤ max 1 raw)
      × (n ≤ max 1 (cores - 2))
      × (n * 600 ≤ max 600 (total_mb - 1536))
unfolding configured_parallelism
configured_parallelism-bounds raw cores total_mb =
    (omega arith, omega arith, omega arith, omega arith, omega arith)
