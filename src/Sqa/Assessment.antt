-- ===== src/Sqa/Assessment.antt =====
-- `evidenceCoverage` and `evaluateSqaAssessment` of server/sqaAssessment.js on the controls that
-- apply and the observations that were accepted.
pub mod Verdict
pub mod Passing
use qase.Common.{
  ℕ, ◌+◌, String, Bool, true, false, Option, none, some, List, [], ◌∷◌, ◌++◌, ◌==◌, ◌&&◌, ◌||◌, eqb,
  leb, ltb, count, filter, length, map, any, if◌then◌else◌, get_or,
}
use qase.Sqa.Types.{
  Severity, Status, pass, fail, blocked, not_assessed, Requirement, Control, Evidence, Observation,
  Coverage, Note, lacks_required, lacks_artifact, lacks_matching, ControlResult, is_pass, is_fail,
  is_blocked, is_critical,
}
use qase.Sqa.Gates.{
  Counts, counts_for, gate_status, Risk, calculate_risk, TechnicalVerdict, technical_verdict,
}

-- `actual >= requirement.minimum`
unfoldable pub meets : List Evidence → Requirement → Bool
meets es q = leb q.minimum (count (λ e. e.kind == q.kind) es)

unfoldable pub evidence_coverage : Control → List Evidence → Coverage
evidence_coverage c es = record {
  required = length c.requirements;
  satisfied = count (λ q. meets es q) c.requirements;
  missing = map (λ q. q.id) (filter (λ q. if meets es q then false else true) c.requirements);
}

abbrev pub is_empty {ℓ} : {A : Type ℓ} → List A → Bool
is_empty [] = true
is_empty (x ∷ xs) = false

-- The status and the note of a control, from what is claimed and the evidence there is.
unfoldable pub decide : Status → List Evidence → Coverage → Status × List Note
decide pass es v =
    if is_empty v.missing then (pass, []) else (blocked, lacks_required v.missing ∷ [])
decide fail es v =
    if eqb v.satisfied 0
    then (blocked, (if is_empty es then lacks_artifact else lacks_matching) ∷ [])
    else (fail, [])
decide status es v = (status, [])

-- `observations.get(control.id)`
unfoldable pub find_observation : String → List Observation → Option Observation
find_observation k [] = none
find_observation k (o ∷ os) = if o.control_id == k then some o else find_observation k os

abbrev pub unobserved : String → Observation
unobserved k = record { control_id = k; status = not_assessed; rationale = none; evidence = [] }

unfoldable pub result_of : List Observation → Control → ControlResult
result_of os c =
    let o = get_or (find_observation c.id os) (unobserved c.id) in
    let v = evidence_coverage c o.evidence in
    let (status, notes) = decide o.status o.evidence v in
    record {
      control_id = c.id;
      severity = c.severity;
      mandatory = c.mandatory;
      status = status;
      claimed_status = o.status;
      rationale = o.rationale;
      notes = notes;
      evidence = o.evidence;
      coverage = v;
      sources = c.sources;
    }

-- The statuses of the four gates.
pub record Gates : Type 0 where
  pub mandatory_controls : Status
  pub critical_risk : Status
  pub evidence_completeness : Status
  pub conclusive_coverage : Status

pub gates_of : List ControlResult → Gates
gates_of rs =
    let counts = counts_for rs in
    record {
      mandatory_controls = gate_status (filter (λ r. r.mandatory) rs);
      critical_risk = gate_status (filter (λ r. is_critical r.severity) rs);
      evidence_completeness =
          if ltb 0 (length (filter (λ r. is_pass r.claimed_status && is_blocked r.status) rs))
          then blocked
          else pass;
      conclusive_coverage =
          if eqb (counts.passed + counts.failed) (length rs) then pass else blocked;
    }

pub verdict_of : Gates → Status
verdict_of g =
    if is_fail g.mandatory_controls || is_fail g.critical_risk
    then fail
    else if is_blocked g.mandatory_controls
        || is_blocked g.critical_risk
        || is_blocked g.evidence_completeness
        || is_blocked g.conclusive_coverage
    then blocked
    else pass

unfoldable pub sum_of : (ControlResult → ℕ) → List ControlResult → ℕ
sum_of f [] = 0
sum_of f (r ∷ rs) = f r + sum_of f rs

pub record Assessment : Type 0 where
  pub verdict : Status
  pub counts : Counts
  pub required_evidence : ℕ
  pub satisfied_evidence : ℕ
  pub technical : TechnicalVerdict
  pub risk : Risk
  pub gates : Gates
  pub results : List ControlResult

-- `evaluateSqaAssessment`, without the digest and the texts of the report.
pub evaluate : List String → List Control → List Observation → Assessment
evaluate technical_ids controls os =
    let rs = map (λ c. result_of os c) controls in
    record {
      verdict = verdict_of (gates_of rs);
      counts = counts_for rs;
      required_evidence = sum_of (λ r. r.coverage.required) rs;
      satisfied_evidence = sum_of (λ r. r.coverage.satisfied) rs;
      technical = technical_verdict technical_ids rs;
      risk = calculate_risk rs;
      gates = gates_of rs;
      results = rs;
    }
