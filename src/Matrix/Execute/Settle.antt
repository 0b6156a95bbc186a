-- ===== src/Matrix/Execute/Settle.antt =====
-- When `executeRun` of server/matrixOrchestrator.js may call a run done.
use qase.Common.{
  ℕ, ◌+◌, String, Bool, true, false, some, List, [], ◌∷◌, ◌≡◌, ◌≢◌, ◌↔◌, arith, length, count, ◌⊎◌,
  inl, inr, ap, Bool-cases, ◌&&◌, not, get_or,
}
use qase.Common.Result.{ok, Result-cases, ok_inj}
use qase.Matrix.Item.{Item, Run, RunStatus, Status}
use qase.Matrix.Bulk.{patch_each-status}
use qase.Matrix.Lifecycle.{is_run_running}
use qase.Matrix.Execute.{
  Counts, bump, status_counts, count_loop, settle, execute_run, schedule, Event,
}

abbrev pub is_unfinished : Item → Bool
is_unfinished i = elim i.status [
  | Status.pending ↦ true
  | Status.queued ↦ true
  | Status.running ↦ true
  | _ ↦ false
]

abbrev pub total : Counts → ℕ
total c =
    c Status.pending
    + c Status.queued
    + c Status.running
    + c Status.passed
    + c Status.failed
    + c Status.not_run
    + c Status.unavailable
    + c Status.not_supported
    + c Status.blocked
    + c Status.error
    + c Status.cancelled

total-bump : (c : Counts) (s : Status) → total (bump c s) ≡ total c + 1
total-bump c Status.pending = omega arith
total-bump c _ = omega arith

total-count_loop : (c : Counts) (is : List Item) → total (count_loop c is) ≡ total c + length is
unfolding count_loop
total-count_loop c [] = omega arith
total-count_loop c (x ∷ xs) =
    omega (arith, total-count_loop (bump c x.status) xs, total-bump c x.status)

-- The counts of a run add up to its items: no item is dropped or counted twice.
pub total-status_counts : (is : List Item) → total (status_counts is) ≡ length is
unfolding status_counts
total-status_counts is = omega (arith, total-count_loop (λ s. 0) is)

abbrev waiting : Counts → ℕ
waiting c = c Status.queued + c Status.pending + c Status.running

waiting-count_loop :
    (c : Counts) (is : List Item) → waiting (count_loop c is) ≡ waiting c + count is_unfinished is
unfolding count_loop count
waiting-count_loop c [] = omega arith
waiting-count_loop c (x ∷ xs) = ground (arith, waiting-count_loop (bump c x.status) xs)

pub waiting-status_counts : (is : List Item) → waiting (status_counts is) ≡ count is_unfinished is
unfolding status_counts
waiting-status_counts is = omega (arith, waiting-count_loop (λ s. 0) is)

-- A run that was not done becomes done exactly if it was not cancelled and every item of it has
-- reached a terminal status.
pub settle_done_iff :
    (flagged : Bool) (now : String) (message : ℕ → String) (r : Run)
    → r.status ≢ RunStatus.done
    → (((settle flagged now message r).0.status ≡ RunStatus.done) ↔ (
        (flagged ≡ false) × (r.status ≢ RunStatus.cancelled) × (count is_unfinished r.items ≡ 0)))
unfolding settle
settle_done_iff flagged now message r h = (
  (λ e. ground (arith, waiting-status_counts r.items)),
  (λ e. ground (arith, waiting-status_counts r.items)),
)

-- What is written to the store while a run drains may cancel the run, and leaves its status alone
-- otherwise.
abbrev pub DrainKeepsStatus : (Run → Run) → Type 0
DrainKeepsStatus drain =
    (q : Run) → ((drain q).status ≡ q.status) ⊎ ((drain q).status ≡ RunStatus.cancelled)

items-settle :
    (flagged : Bool) (now : String) (message : ℕ → String) (r : Run)
    → (settle flagged now message r).0.items ≡ r.items
unfolding settle
items-settle flagged now message r = ground arith

settle_done :
    (flagged : Bool) (now : String) (message : ℕ → String) (r : Run)
    → (r.status ≡ RunStatus.running) ⊎ (r.status ≡ RunStatus.cancelled)
    → (settle flagged now message r).0.status ≡ RunStatus.done
    → (flagged ≡ false) × (count is_unfinished (settle flagged now message r).0.items ≡ 0)
settle_done flagged now message r c h =
    let facts = (settle_done_iff flagged now message r (ground arith)).0 h in
    rw (items-settle flagged now message r) (facts.0, facts.2)

schedule-status : (r : Run) {q : Run} → schedule r ≡ ok q → q.status ≡ r.status
unfolding schedule
schedule-status r h = patch_each-status _ _ r.items r h

-- Whatever the workers do, an execution that ends with the run done was not cancelled and left no
-- item pending, queued or running.
pub execute_run_done :
    (resumed flagged : Bool) (now : String) (message : ℕ → String) (drain : Run → Run) (r : Run)
    {r' : Run} {e : Event}
    → DrainKeepsStatus drain
    → execute_run resumed flagged now message drain r ≡ ok (r', e)
    → r'.status ≡ RunStatus.done
    → (flagged ≡ false) × (count is_unfinished r'.items ≡ 0)
unfolding execute_run
execute_run_done resumed flagged now message drain r {r'} d h s =
    let begun : Run = record r {
      status = RunStatus.running;
      started_at = some (get_or r.started_at now);
    } in
    elim (Bool-cases (is_run_running r.status && not resumed)) [
      | inl b ↦ cc (rw b at h)
      | inr b ↦ elim (Result-cases (schedule begun)) [
        | inr (x, w) ↦ cc (rw (b, w) at h)
        | inl (q, w) ↦
            let same : (settle flagged now message (drain q)).0 ≡ r' =
              ap (λ t. t.0) (ok_inj (rw (b, w) at h)) in
            let kept = schedule-status begun w in
            rw (← same)
              (settle_done flagged now message (drain q) (ground (arith, d q, kept)) (rw same s))
      ]
    ]
