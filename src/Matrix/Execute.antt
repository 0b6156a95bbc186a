-- ===== src/Matrix/Execute.antt =====
-- `executeRun` and `statusCounts` of server/matrixOrchestrator.js. The drain of the queued items is
-- an argument: any function on the run, which stands for what the workers and `cancel` wrote.
pub mod Settle
use qase.Common.{
  ℕ, suc, ◌+◌, String, Bool, true, false, Option, none, some, List, [], ◌∷◌, ltb, eqb, ◌||◌, ◌&&◌,
  not, if◌then◌else◌, get_or,
}
use qase.Common.Result.{Result, ok, err, ◌>>=◌}
use qase.Matrix.Item.{Item, Run, RunStatus, Patch, Status, Error, no_change, update_item}
use qase.Matrix.Bulk.{patch_each}
use qase.Matrix.Lifecycle.{is_pending, is_run_running}

-- The place of a status in the vocabulary, to compare two.
abbrev code : Status → ℕ
code Status.pending = 0
code Status.queued = 1
code Status.running = 2
code Status.passed = 3
code Status.failed = 4
code Status.not_run = 5
code Status.unavailable = 6
code Status.not_supported = 7
code Status.blocked = 8
code Status.error = 9
code Status.cancelled = 10

-- An object with a count for each status.
abbrev pub Counts : Type 0
Counts = Status → ℕ

-- `counts[status] += 1`
abbrev pub bump : Counts → Status → Counts
bump c s t = if eqb (code s) (code t) then c t + 1 else c t

unfoldable pub count_loop : Counts → List Item → Counts
count_loop c [] = c
count_loop c (i ∷ is) = count_loop (bump c i.status) is

unfoldable pub status_counts : List Item → Counts
unfolding count_loop
status_counts = count_loop (λ s. 0)

pub data Event : Type 0 where
  done : Counts → Event
  done_cancelled : Counts → Event
  done_errored : Counts → Event

abbrev is_run_cancelled : RunStatus → Bool
is_run_cancelled RunStatus.cancelled = true
is_run_cancelled _ = false

-- The end of `executeRun`: `flagged` is `cancelledRuns.has(matrixRunId)`, and `message` the text of
-- the error for a number of unfinished items.
unfoldable pub settle : Bool → String → (ℕ → String) → Run → Run × Event
settle flagged now message r =
    let counts = status_counts r.items in
    let unfinished = counts Status.queued + counts Status.pending + counts Status.running in
    if flagged || is_run_cancelled r.status
    then (r, done_cancelled counts)
    else if ltb 0 unfinished
    then (
      record r {
        status = RunStatus.error;
        finished_at = some now;
        error = some (message unfinished);
      },
      done_errored counts,
    )
    else (record r { status = RunStatus.done; finished_at = some now }, done counts)

pub data Failure : Type 0 where
  already_running : Failure
  refused_write : Error → Failure

abbrev or_fail : Result Error Run → Result Failure Run
or_fail (ok r) = ok r
or_fail (err e) = err (refused_write e)

-- PENDING items become QUEUED.
unfoldable pub schedule : Run → Result Error Run
schedule r = patch_each is_pending (record no_change { status = some Status.queued }) r.items r

-- `executeRun` of a run that exists, after the sweep of stale runs.
unfoldable pub execute_run :
    (resumed flagged : Bool)
    → String
    → (ℕ → String)
    → (Run → Run)
    → Run
    → Result Failure (Run × Event)
execute_run resumed flagged now message drain r =
    if is_run_running r.status && not resumed
    then err already_running
    else or_fail (
        schedule
          (record r { status = RunStatus.running; started_at = some (get_or r.started_at now) }))
      >>= λ scheduled. ok (settle flagged now message (drain scheduled))
