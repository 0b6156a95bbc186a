-- ===== src/Examples/Runs.antt =====
-- A run of four items for server/matrixService.js and server/matrixOrchestrator.js.
use qase.Common.{
  ℕ, String, false, none, some, List, [], ◌∷◌, ◌≡◌, inl, refl, map, any, count, All, if◌then◌else◌,
}
use qase.Common.Result.{ok}
use qase.Matrix.Item.{
  Item, Run, RunStatus, Status, Patch, no_change, apply, find_item, replace_item, update_item,
  guard_patch,
}
use qase.Matrix.Honest.{IsHonest, update_item-IsHonest}
use qase.Matrix.Bulk.{patch_each, Unique}
use qase.Matrix.Lifecycle.{retry_patch, recover_run, is_queued, is_run_running}
use qase.Matrix.Lifecycle.Recovery.{recovered_item, recover_run_lem}
use qase.Matrix.Execute.{settle, execute_run, status_counts, schedule, count_loop}
use qase.Matrix.Execute.Settle.{is_unfinished, execute_run_done}

abbrev pub item : String → Status → Item
item k s = record {
  id = k;
  status = s;
  reason = none;
  error = none;
  session_id = some "session";
  verdict = none;
  findings = [];
  artifact_refs = [];
  started_at = none;
  finished_at = none;
  duration_ms = none;
  retry_count = 0;
  auto_answers = 0;
  auto_answer_evidence = [];
}

abbrev run_of : RunStatus → List Item → Run
run_of s is = record {
  id = "run";
  status = s;
  items = is;
  started_at = none;
  finished_at = none;
  error = none;
  cancel_reason = none;
}

abbrev mixed : Run
mixed = run_of RunStatus.running (
    item "a" Status.failed
    ∷ item "b" Status.queued
    ∷ item "c" Status.running
    ∷ item "d" Status.pending
    ∷ [])

abbrev pass_patch : Patch
pass_patch = record no_change { status = some Status.passed }

abbrev passed_c : Run
passed_c = record mixed { items = replace_item "c" pass_patch mixed.items }

update_item-IsHonest_example : All IsHonest passed_c.items
unfolding update_item guard_patch find_item replace_item apply
update_item-IsHonest_example =
    update_item-IsHonest mixed "c" pass_patch {r' = passed_c} refl (inl refl)
      ((λ e. refl), ((λ e. refl), ((λ e. refl), ((λ e. refl), tt))))

Unique-mixed : Unique mixed.items
Unique-mixed = ((refl, (refl, (refl, tt))), ((refl, (refl, tt)), ((refl, tt), (tt, tt))))

abbrev retried : Run
retried = record mixed { items = replace_item "a" (retry_patch 0) mixed.items }

recover_run_lem_example :
    (r' : Run) × (recover_run false "now" mixed
      ≡ ok (record { run = r'; resumed = any is_queued mixed.items }))
    × (r'.items ≡ map (recovered_item "now") mixed.items)
    × (r'.status ≡ (
        if any is_queued mixed.items
        then RunStatus.running
        else if is_run_running mixed.status
        then RunStatus.error
        else mixed.status))
recover_run_lem_example = recover_run_lem "now" mixed Unique-mixed

abbrev unfinished : ℕ → String
unfinished n = "configuration(s) never reached a terminal state"

-- Workers that pass every item.
abbrev pass_all : Run → Run
pass_all r = record r { items = map (λ i. apply pass_patch i) r.items }

abbrev ended : Run
ended =
    (settle false "now" unfinished (
      pass_all (record (run_of RunStatus.running (item "a" Status.queued ∷ [])) {
        started_at = some "now";
      }))).0

execute_run_done_example : (false ≡ false) × (count is_unfinished ended.items ≡ 0)
unfolding execute_run settle status_counts count_loop schedule patch_each update_item guard_patch
    find_item replace_item apply
execute_run_done_example =
    execute_run_done false false "now" unfinished pass_all
      (run_of RunStatus.pending (item "a" Status.pending ∷ [])) {r' = ended} (λ q. inl refl) refl
      refl
