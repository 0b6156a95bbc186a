-- ===== src/Matrix/Lifecycle.antt =====
-- Operations on one matrix run of the store: `cancel` of server/matrixService.js, and `retryItem`
-- and the body of the loop of `resumeRecovery` of server/matrixOrchestrator.js.
pub mod Cancel
pub mod Retry
pub mod Recovery
use qase.Common.{
  ℕ, suc, ◌+◌, String, Bool, true, false, Option, none, some, List, [], ◌∷◌, ltb, leb, eqb, ◌&&◌,
  ◌||◌, not, if◌then◌else◌, get_or, filter, is_some,
}
use qase.Common.Result.{Result, ok, err, ◌>>=◌}
use qase.Matrix.Item.{
  Item, Run, RunStatus, Patch, Status, Error, no_change, apply, find_item, replace_item,
  update_item,
}
use qase.Matrix.Bulk.{patch_each}

abbrev pub is_pending : Item → Bool
is_pending i = elim i.status [ Status.pending ↦ true | _ ↦ false ]

abbrev pub is_queued : Item → Bool
is_queued i = elim i.status [ Status.queued ↦ true | _ ↦ false ]

abbrev pub is_running : Item → Bool
is_running i = elim i.status [ Status.running ↦ true | _ ↦ false ]

-- `item.status === 'QUEUED' || item.status === 'PENDING'`
abbrev pub is_waiting : Item → Bool
is_waiting i = is_queued i || is_pending i

-- `cancel(id, { reason })` of the service.
-- Its loop, with the items left and the run and count so far.
pub cancel_loop : Patch → List Item → Run × ℕ → Run × ℕ
cancel_loop p [] acc = acc
cancel_loop p (i ∷ is) (r, n) =
    cancel_loop p is
      (if is_waiting i then (record r { items = replace_item i.id p r.items }, n + 1) else (r, n))

pub cancel : String → String → Run → Run × ℕ
cancel reason now r =
    let p : Patch = record no_change {
      status = some Status.cancelled;
      reason = some (some reason);
      finished_at = some (some now);
    } in
    let (r', n) = cancel_loop p r.items (r, 0) in
    (
      record r' {
        status = RunStatus.cancelled;
        cancel_reason = some reason;
        finished_at = some now;
      },
      n,
    )

-- MAX_ITEM_RETRIES
abbrev pub max_item_retries : ℕ
max_item_retries = 2

pub data Refusal : Type 0 where
  no_such_item : Refusal
  not_retryable : Status → Refusal
  retry_limit : Refusal
  refused_write : Error → Refusal

-- `['FAILED', 'ERROR', 'BLOCKED', 'CANCELLED'].includes(item.status)`
abbrev pub is_retryable : Status → Bool
is_retryable Status.failed = true
is_retryable Status.error = true
is_retryable Status.blocked = true
is_retryable Status.cancelled = true
is_retryable _ = false

abbrev pub retry_patch : ℕ → Patch
retry_patch n = record no_change {
  status = some Status.queued;
  reason = some none;
  error = some none;
  session_id = some none;
  verdict = some none;
  findings = some [];
  artifact_refs = some [];
  started_at = some none;
  finished_at = some none;
  duration_ms = some none;
  retry_count = some (n + 1);
}

abbrev pub is_run_running : RunStatus → Bool
is_run_running RunStatus.running = true
is_run_running _ = false

write_retry : Bool → Run → String → Item → Result Refusal (Run × Bool)
write_retry live r k i = elim (update_item r k (retry_patch i.retry_count)) [
  | ok r' ↦ ok (r', not live && not (is_run_running r.status))
  | err e ↦ err (refused_write e)
]

-- `retryItem`: the run after it, and whether execution is started again.
unfoldable pub retry_item : Bool → Run → String → Result Refusal (Run × Bool)
unfolding write_retry
retry_item live r k = elim (find_item k r.items) [
  | none ↦ err no_such_item
  | some i ↦
      if not (is_retryable i.status)
      then err (not_retryable i.status)
      else if leb max_item_retries i.retry_count
      then err retry_limit
      else write_retry live r k i
]

abbrev pub interrupted_patch : String → Patch
interrupted_patch now = record no_change {
  status = some Status.error;
  error = some (some "Interrupted — the server restarted before this profile finished.");
  finished_at = some (some now);
  duration_ms = some none;
}

abbrev pub reschedule_patch : Patch
reschedule_patch = record no_change { status = some Status.pending }

-- What the scan did to one run: the run after it, and whether a drain is started.
pub record Recovered : Type 0 where
  pub run : Run
  pub resumed : Bool

abbrev is_empty {ℓ} : {A : Type ℓ} → List A → Bool
is_empty [] = true
is_empty (x ∷ xs) = false

-- The last step of the scan: stranded items are scheduled again and the run is set running.
resume_stranded : List Item → Run → Result Error Recovered
resume_stranded items r =
    if is_empty (filter is_queued items)
    then ok (record { run = r; resumed = false })
    else patch_each is_queued reschedule_patch items r >>= λ r'.
        ok (record { run = record r' { status = RunStatus.running; error = none }; resumed = true })

-- The body of the loop of `resumeRecovery`. `live` is `running.has(run.id)`.
unfoldable pub recover_run : Bool → String → Run → Result Error Recovered
unfolding resume_stranded
recover_run live now r =
    if live
    then ok (record { run = r; resumed = false })
    else if is_empty (filter is_running r.items)
        && is_empty (filter is_queued r.items)
        && not (is_run_running r.status)
    then ok (record { run = r; resumed = false })
    else patch_each is_running (interrupted_patch now) r.items
        (if is_run_running r.status then record r { status = RunStatus.error } else r)
      >>= λ r'. resume_stranded r.items r'
