-- ===== src/Batch/Tracker.antt =====
-- `createBatchTracker` of public/bulkProgress.js: the batch it follows and whether its timer is set. What the
-- elements of the page show is not modelled. A poll is the step at which the answer of the server arrives; `none`
-- stands for a request that fails.
use qase.Common.{
  ℕ, String, Bool, true, false, not, Option, none, some, List, [], ◌∷◌, ◌&&◌, leb, ltb, eqb,
  if◌then◌else◌, length, Dict,
}
use qase.Batch.{Session, Batch, Progress, aggregate_batch}

pub record Tracker : Type 0 where
  pub current : Option Batch
  pub polling : Bool

pub start_polling : Tracker → Tracker
start_polling t = record t { polling = true }

pub stop_polling : Tracker → Tracker
stop_polling t = record t { polling = false }

-- `agg.pending === 0 && agg.running === 0`
abbrev pub is_finished : Progress → Bool
is_finished p = eqb p.counts.pending 0 && eqb p.counts.running 0

-- `paint`: nothing without a block on the page, nor for a batch of at most one session.
unfoldable pub paint :
    (String → String) → (ℕ → ℕ → ℕ) → Bool → Batch → Dict Session → Tracker → Tracker
unfolding stop_polling
paint lower round has_block b m t =
    if not has_block
    then t
    else if leb (length b.session_ids) 1
    then t
    else if is_finished (aggregate_batch lower round b m)
    then stop_polling t
    else t

abbrev paint_current :
    (String → String) → (ℕ → ℕ → ℕ) → Bool → Option Batch → Dict Session → Tracker → Tracker
paint_current lower round has_block none m t = t
paint_current lower round has_block (some b) m t = paint lower round has_block b m t

-- `poll`
unfoldable pub poll :
    (String → String) → (ℕ → ℕ → ℕ) → Bool → Option (Dict Session) → Tracker → Tracker
poll lower round has_block none t = t
poll lower round has_block (some m) t = paint_current lower round has_block t.current m t

-- `track`, up to its first request.
unfoldable pub track : Batch → Tracker → Tracker
unfolding start_polling
track b t =
    let t' : Tracker = record t { current = some b } in
    if ltb 1 (length b.session_ids) then start_polling t' else t'

-- The answers of the requests, one after another.
unfoldable pub polls :
    (String → String) → (ℕ → ℕ → ℕ) → Bool → List (Option (Dict Session)) → Tracker → Tracker
polls lower round has_block [] t = t
polls lower round has_block (a ∷ answers) t =
    polls lower round has_block answers (poll lower round has_block a t)
