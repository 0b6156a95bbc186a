-- ===== src/Matrix/Wait.antt =====
-- `waitForSession` of server/matrixOrchestrator.js and the limits beside it. What the store answers at a poll and what
-- the clock shows there are functions of the number of the poll; times are in milliseconds.
pub mod Ends
use qase.Common.{
  ℕ, zero, suc, ◌+◌, ◌-◌, ◌*◌, ◌/◌, String, Bool, true, false, Option, none, some, List, [], ◌∷◌,
  ltb, max, min, contains, if◌then◌else◌,
}

-- POLL_INTERVAL_MS
abbrev pub poll_interval_ms : ℕ
poll_interval_ms = 2000

-- MAX_ITEM_MS, of the whole part of QASE_MATRIX_ITEM_TIMEOUT_S, where it is finite; a negative number counts as 0.
pub max_item_ms : Option ℕ → ℕ
max_item_ms none = 1200 * 1000
max_item_ms (some raw) = min 3600 (max 60 raw) * 1000

-- `configuredParallelism`, of the whole part of QASE_MATRIX_PARALLEL, where it is finite, the cores and the memory in
-- megabytes; without the warning
unfoldable pub configured_parallelism : Option ℕ → ℕ → ℕ → ℕ
configured_parallelism raw cores total_mb =
    let configured = max 1 (elim raw [ none ↦ 2 | some n ↦ n ]) in
    min (min configured (max 1 (cores - 2))) (min (max 1 (min 8 ((total_mb - 1536) / 600))) 8)

pub record Watched : Type 0 where
  pub clock : ℕ → ℕ
  -- the status of the session at a poll, if it is there
  pub status : ℕ → Option String

pub data Outcome : Type 0 where
  -- the session as it stood at a poll
  settled : ℕ → String → Outcome
  disappeared : ℕ → Outcome
  -- the agent was stopped and the item timed out at a poll
  timed_out : ℕ → Outcome

-- The statuses that end the wait.
abbrev pub ends_wait : String → Bool
ends_wait s = contains s ("done" ∷ "error" ∷ "interrupted" ∷ "awaiting_input" ∷ [])

abbrev pub polled : ℕ → Option String → Bool → Option Outcome → Option Outcome
polled k none late rest = some (disappeared k)
polled k (some s) late rest =
    if ends_wait s then some (settled k s) else if late then some (timed_out k) else rest

-- The loop from a poll on, with fuel: `none` where the fuel does not suffice.
unfoldable pub poll_from : Watched → ℕ → ℕ → ℕ → Option Outcome
poll_from w deadline k zero = none
poll_from w deadline k (suc fuel) =
    let rest = poll_from w deadline (suc k) fuel in
    polled k (w.status k) (ltb deadline (w.clock k)) rest

-- How many polls suffice.
abbrev pub polls : ℕ → ℕ
polls max_ms = suc (max_ms / poll_interval_ms + 1)

-- `waitForSession`, with the time at which it is called
unfoldable pub wait_for_session : Watched → ℕ → ℕ → Option Outcome
wait_for_session w called max_ms = poll_from w (called + max_ms) 0 (polls max_ms)
