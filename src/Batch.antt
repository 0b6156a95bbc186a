-- ===== src/Batch.antt =====
-- public/bulkProgress.js: a bulk run is a batch of sessions, and its progress is read off the sessions
-- that the server lists. Lower case and the rounding of a percentage are arguments; the page's elements
-- and the browser's storage are not modelled.
pub mod Totals
pub mod Tracker
pub mod Polling
use qase.Common.{
  ℕ, zero, suc, ◌+◌, ◌-◌, String, Bool, true, false, Option, none, some, List, [], ◌∷◌, ◌++◌, ◌==◌,
  ◌&&◌, ◌||◌, not, ltb, eqb, if◌then◌else◌, contains, length, map, filter, Dict, get, get_or,
  or_else,
}

-- A session as the server lists it.
pub record Session : Type 0 where
  pub id : String
  pub status : Option String
  pub report_verdict : Option String
  pub verdict : Option String
  -- The number of its findings, where they are an array.
  pub findings : Option ℕ
  pub finding_count : Option ℕ
  pub title : Option String
  pub device : Option String
  pub environment_id : Option String
  pub execution_level : Option String

pub record Batch : Type 0 where
  pub label : String
  pub session_ids : List String
  pub titles : Dict String

pub record Counts : Type 0 where
  pub passed : ℕ
  pub failed : ℕ
  pub running : ℕ
  pub pending : ℕ

abbrev pub no_counts : Counts
no_counts = record { passed = 0; failed = 0; running = 0; pending = 0 }

abbrev pub running_statuses : List String
running_statuses = "running" ∷ "queued" ∷ "starting" ∷ "awaiting_input" ∷ "resuming" ∷ []

-- `String(session.status ?? '').toLowerCase()`
abbrev pub status_of : (String → String) → Session → String
status_of lower s = lower (get_or s.status "")

pub add_passed : Counts → Counts
add_passed c = record c { passed = c.passed + 1 }

pub add_failed : Counts → Counts
add_failed c = record c { failed = c.failed + 1 }

pub add_running : Counts → Counts
add_running c = record c { running = c.running + 1 }

pub add_pending : Counts → Counts
add_pending c = record c { pending = c.pending + 1 }

-- The findings decide where there is no verdict.
abbrev pub has_findings : Session → Bool
has_findings s = ltb 0 (get_or s.findings (get_or s.finding_count 0))

pub add_done : Session → Counts → Counts
unfolding add_passed add_failed
add_done s c =
    let verdict = get_or (or_else s.report_verdict s.verdict) "" in
    if verdict == "pass"
    then add_passed c
    else if verdict == "fail"
    then add_failed c
    else if has_findings s
    then add_failed c
    else add_passed c

-- One turn of the loop of `aggregateBatch`.
pub add_session : (String → String) → Option Session → Counts → Counts
unfolding add_running add_failed add_pending add_done
add_session lower none c = add_pending c
add_session lower (some s) c =
    let status = status_of lower s in
    if contains status running_statuses
    then add_running c
    else if status == "done"
    then add_done s c
    else if (status == "failed") || (status == "interrupted")
    then add_failed c
    else add_pending c

pub add_all : (String → String) → Dict Session → List String → Counts → Counts
add_all lower m [] c = c
add_all lower m (id ∷ ids) c = add_all lower m ids (add_session lower (get id m) c)

pub record Progress : Type 0 where
  pub total : ℕ
  pub counts : Counts
  pub completed : ℕ
  pub percent : ℕ

-- `aggregateBatch`; `round` is `Math.round((a / b) * 100)`.
pub aggregate_batch : (String → String) → (ℕ → ℕ → ℕ) → Batch → Dict Session → Progress
aggregate_batch lower round b m =
    let c = add_all lower m b.session_ids no_counts in
    let total = length b.session_ids in
    let completed = c.passed + c.failed in
    record {
      total = total;
      counts = c;
      completed = completed;
      percent = if ltb 0 total then round completed total else 0;
    }

pub data State : Type 0 where
  failed passed running pending : State

-- `agg.failed ? 'Failed' : agg.passed ? 'Passed' : agg.running ? 'Running' : 'Pending'`
pub state_of : Counts → State
state_of c =
    if ltb 0 c.failed
    then State.failed
    else if ltb 0 c.passed
    then State.passed
    else if ltb 0 c.running
    then State.running
    else State.pending

pub record Row : Type 0 where
  pub id : String
  pub title : String
  pub state : State
  pub env : String
  pub execution_level : Option String

abbrev field : (Session → Option String) → Option Session → Option String
field f none = none
field f (some s) = f s

pub batch_row : (String → String) → Batch → Dict Session → String → Row
unfolding add_session
batch_row lower b m id =
    let s = get id m in
    record {
      id = id;
      title = get_or (or_else (get id b.titles) (field (λ x. x.title) s)) id;
      state = state_of (add_session lower s no_counts);
      env = get_or (or_else (field (λ x. x.device) s) (field (λ x. x.environment_id) s)) "";
      execution_level = field (λ x. x.execution_level) s;
    }

-- `batchRows`
pub batch_rows : (String → String) → Batch → Dict Session → List Row
batch_rows lower b m = map (batch_row lower b m) b.session_ids

-- `.map((id) => sessionsById.get(id)).filter(Boolean)`
unfoldable pub known : Dict Session → List String → List Session
known m [] = []
known m (id ∷ ids) = elim (get id m) [ none ↦ known m ids | some s ↦ s ∷ known m ids ]

unfoldable pub find_session : (Session → Bool) → List Session → Option Session
find_session p [] = none
find_session p (s ∷ ss) = if p s then some s else find_session p ss

unfoldable pub last_session : List Session → Option Session
last_session [] = none
last_session (s ∷ ss) = some (get_or (last_session ss) s)

abbrev pub is_executing : (String → String) → Session → Bool
is_executing lower s = contains (status_of lower s) ("running" ∷ "starting" ∷ "awaiting_input" ∷ [])

abbrev pub is_open : (String → String) → Session → Bool
is_open lower s =
    not (contains (status_of lower s) ("done" ∷ "error" ∷ "interrupted" ∷ "cancelled" ∷ []))

-- `activeBatchRunId`, before the session's id is taken.
pub active_session : (String → String) → List Session → Option Session
active_session lower ss =
    or_else (find_session (is_executing lower) ss)
      (or_else (last_session (filter (is_open lower) ss)) (last_session ss))

abbrev id_of : Option Session → Option String
id_of none = none
id_of (some s) = some s.id

-- `activeBatchRunId`
pub active_batch_run_id : (String → String) → Batch → Dict Session → Option String
unfolding active_session
active_batch_run_id lower b m = id_of (active_session lower (known m b.session_ids))

-- `batches.slice(-5)`
pub last_five {ℓ} : {A : Type ℓ} → List A → List A
last_five [] = []
last_five (x ∷ xs) = if ltb 5 (length (x ∷ xs)) then last_five xs else x ∷ xs

-- `recordBatch`, and what `saveBatches` keeps.
pub record_batch : Batch → List Batch → List Batch
unfolding last_five
record_batch b bs = last_five (bs ++ b ∷ [])
