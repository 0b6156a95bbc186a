-- ===== src/Examples/Assessments.antt =====
-- An assessment of two controls for server/sqaAssessment.js.
use qase.Common.{
  String, true, none, some, List, [], ◌∷◌, ◌≡◌, ◌≤◌, ◌==◌, refl, any, count, All, filter, map,
  if◌then◌else◌,
}
use qase.Sqa.Types.{
  Severity, Status, pass, fail, blocked, Mode, Control, Evidence, Observation, ControlResult,
}
use qase.Sqa.Scope.{Scope}
use qase.Sqa.Observation.{Texts}
use qase.Sqa.Assessment.{evaluate, result_of, meets, find_observation, decide, evidence_coverage}
use qase.Sqa.Assessment.Verdict.{is_decisive_failure, is_inconclusive, evaluate_verdict}
use qase.Sqa.Assessment.Passing.{Observed, result_of_pass}

abbrev control : String → Control
control k = record {
  id = k;
  severity = Severity.critical;
  mandatory = true;
  profiles = "core" ∷ [];
  mode = Mode.always;
  attributes = [];
  requirements = record { id = "run"; kind = "test_result"; minimum = 1 } ∷ [];
  sources = [];
}

abbrev controls : List Control
controls = control "SQA-A-001" ∷ control "SQA-A-002" ∷ []

abbrev test_run : Evidence
test_run = record {
  kind = "test_result";
  reference = "run-1";
  summary = none;
  digest = none;
  collected_at = none;
}

abbrev observed : String → Status → Observation
observed k s = record {
  control_id = k;
  status = s;
  rationale = some "seen";
  evidence = test_run ∷ [];
}

abbrev observations : List Observation
observations = observed "SQA-A-001" pass ∷ observed "SQA-A-002" fail ∷ []

abbrev texts : Texts
texts = record {
  trim = λ s. s;
  size = λ s. 1;
  is_digest = λ s. true;
  is_timestamp = λ s. true;
  is_evidence_type = λ s. true;
}

evaluate_verdict_example :
    let a = evaluate [] controls observations in
    a.verdict ≡ (
      if any is_decisive_failure a.results
      then fail
      else if any is_inconclusive a.results
      then blocked
      else pass)
evaluate_verdict_example = evaluate_verdict [] controls observations

result_of_pass_example :
    Observed pass
      (λ es.
        All (λ q. q.minimum ≤ count (λ e. e.kind == q.kind) es) (control "SQA-A-001").requirements)
      observations
      (control "SQA-A-001")
unfolding result_of find_observation decide evidence_coverage meets filter count
result_of_pass_example = result_of_pass observations (control "SQA-A-001") refl

abbrev results : List ControlResult
results = map (λ c. result_of observations c) controls

abbrev scope : Scope
scope = record { profiles = "core" ∷ []; attributes = []; applicable = controls; excluded = [] }
