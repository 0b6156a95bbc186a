-- ===== src/Examples/Batches.antt =====
-- Batches: the progress of public/bulkProgress.js and the parent runs of server/matrixService.js.
use qase.Common.{
  inl, inr, arith, ◌+◌, String, true, false, none, some, [], ◌∷◌, ◌≡◌, refl, Dict, get, contains,
}
use qase.Common.Result.{ok, err}
use qase.Batch.{Session, Batch, aggregate_batch, State}
use qase.Batch.Tracker.{Tracker, track, polls}
use qase.Batch.Totals.{rows_in, aggregate_batch-rows}
use qase.Batch.Polling.{left_never_stops}
use qase.Pipeline.{
  Kind, Run, Request, begin_batch, begin_in, find_batch, plans, stamp, finish_batch, create_batch,
  not_created,
}
use qase.Pipeline.Retry.{create_batch_twice, finish_batch_races}

abbrev session : String → String → Session
session id status = record {
  id = id;
  status = some status;
  report_verdict = none;
  verdict = none;
  findings = none;
  finding_count = some 0;
  title = none;
  device = none;
  environment_id = none;
  execution_level = none;
}

abbrev listed : Dict Session
listed = ("a", session "a" "done") ∷ ("b", session "b" "error") ∷ []

abbrev bulk : Batch
bulk = record { label = "Bulk run"; session_ids = "a" ∷ "b" ∷ "c" ∷ []; titles = [] }

aggregate_batch-rows_example :
    let p = aggregate_batch (λ s. s) (λ a b. a) bulk listed in
    (p.counts.passed ≡ rows_in (λ s. s) bulk listed State.passed)
    × (p.counts.failed ≡ rows_in (λ s. s) bulk listed State.failed)
    × (p.counts.running ≡ rows_in (λ s. s) bulk listed State.running)
    × (p.counts.pending ≡ rows_in (λ s. s) bulk listed State.pending)
    × (p.completed + p.counts.running + p.counts.pending ≡ p.total)
aggregate_batch-rows_example = aggregate_batch-rows (λ s. s) (λ a b. a) bulk listed

has_b : contains "b" bulk.session_ids ≡ true
unfolding contains
has_b = refl

get-b : get "b" listed ≡ some (session "b" "error")
unfolding get
get-b = refl

abbrev idle : Tracker
idle = record { current = none; polling = false }

left_never_stops_example :
    polls (λ s. s) (λ a b. a) true (some listed ∷ none ∷ some listed ∷ []) (track bulk idle)
    ≡ record { current = some bulk; polling = true }
left_never_stops_example =
    let left = inr (session "b" "error", get-b, inl refl) in
    left_never_stops (λ s. s) (λ a b. a) true bulk idle "b" (some listed ∷ none ∷ some listed ∷ [])
      (omega arith) has_b (left, (tt, (left, tt)))

abbrev parent : Run
parent = record {
  id = "p";
  kind = Kind.parent;
  title = "QA run";
  status = "pending";
  items = [];
  batch_ids = "x" ∷ [];
  parent_id = "";
  batch_key = "";
  batch_index = 0;
  owner = none;
  started_at = none;
  finished_at = none;
}

abbrev made : String → Run
made id = record parent { id = id; kind = Kind.plain; batch_ids = [] }

abbrev runs : Dict Run
runs =
    ("p", parent)
    ∷ ("x", record (made "x") { kind = Kind.batch; batch_key = "k0"; status = "done" })
    ∷ []

abbrev request : Request
request = record { parent_id = "p"; batch_key = "k1"; batch_index = none }

begun : begin_batch request runs ≡ plans parent 1
unfolding begin_batch begin_in find_batch get
begun = refl

y_unused : get "y" runs ≡ none
unfolding get
y_unused = refl

z_unused : get "z" runs ≡ none
unfolding get
z_unused = refl

create_batch_twice_example :
    let done = create_batch request (ok (made "y")) runs in
    (done.0 ≡ ok (stamp request 1 (made "y"), true))
    × (create_batch request (err not_created) done.1
        ≡ (ok (stamp request 1 (made "y"), false), done.1))
create_batch_twice_example =
    create_batch_twice request (made "y") runs parent 1 (err not_created) begun y_unused

finish_batch_races_example :
    let first = finish_batch request (begin_batch request runs) (ok (made "y")) runs in
    let second = finish_batch request (begin_batch request runs) (ok (made "z")) first.1 in
    (first.0 ≡ ok (stamp request 1 (made "y"), true))
    × (second.0 ≡ ok (stamp request 1 (made "z"), true))
    × (get "y" second.1 ≡ some (stamp request 1 (made "y")))
    × (get "z" second.1 ≡ some (stamp request 1 (made "z")))
    × (get "p" second.1 ≡ some (record parent { batch_ids = "x" ∷ "z" ∷ [] }))
finish_batch_races_example =
    finish_batch_races request (made "y") (made "z") runs parent 1 begun y_unused z_unused refl
