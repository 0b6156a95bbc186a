-- ===== src/Sqa/Gates.antt =====
-- `countsFor`, `gateStatus`, `calculateRisk` and `summarizeTechnicalChecks` of
-- server/sqaAssessment.js. A percentage is kept as the two numbers it is made of, before the
-- rounding to two digits; the weights 0.65 and 0.35 are hundredths.
pub mod Residual
use qase.Common.{
  ℕ, ◌+◌, ◌*◌, String, Bool, true, false, List, [], ◌∷◌, ◌&&◌, ◌||◌, not, any, count, filter,
  length, contains, if◌then◌else◌, ltb,
}
use qase.Sqa.Types.{
  Severity, Status, pass, fail, blocked, not_assessed, ControlResult, is_pass, is_fail, is_blocked,
  is_not_assessed, is_open, is_critical, is_high, is_medium,
}

pub record Counts : Type 0 where
  pub passed : ℕ
  pub failed : ℕ
  pub blocked : ℕ
  pub not_assessed : ℕ

unfoldable pub counts_for : List ControlResult → Counts
counts_for rs = record {
  passed = count (λ r. is_pass r.status) rs;
  failed = count (λ r. is_fail r.status) rs;
  blocked = count (λ r. is_blocked r.status) rs;
  not_assessed = count (λ r. is_not_assessed r.status) rs;
}

unfoldable pub gate_status : List ControlResult → Status
gate_status rs =
    if any (λ r. is_fail r.status) rs
    then fail
    else if any (λ r. is_open r.status) rs
    then blocked
    else pass

-- SEVERITY_WEIGHT
abbrev pub weight : Severity → ℕ
weight Severity.critical = 8
weight Severity.high = 5
weight Severity.medium = 3
weight Severity.low = 1

-- STATUS_RISK_FACTOR, in hundredths
abbrev pub risk_factor : Status → ℕ
risk_factor pass = 0
risk_factor fail = 100
risk_factor blocked = 65
risk_factor not_assessed = 35

pub data RiskLevel : Type 0 where
  none low medium high critical : RiskLevel

-- `results.reduce(...)` for the maximum and for the residual risk.
unfoldable pub maximum_risk : List ControlResult → ℕ
maximum_risk [] = 0
maximum_risk (r ∷ rs) = weight r.severity + maximum_risk rs

unfoldable pub residual_risk : List ControlResult → ℕ
residual_risk [] = 0
residual_risk (r ∷ rs) = weight r.severity * risk_factor r.status + residual_risk rs

-- The level, by the worst severity that is failed or unresolved.
unfoldable pub risk_level : List ControlResult → RiskLevel
risk_level rs =
    if any (λ r. is_critical r.severity && is_fail r.status) rs
    then RiskLevel.critical
    else if any
        (λ r.
          (is_high r.severity && is_fail r.status) || (is_critical r.severity && is_open r.status))
        rs
    then RiskLevel.high
    else if any
        (λ r.
          (is_medium r.severity && is_fail r.status) || (is_high r.severity && is_open r.status))
        rs
    then RiskLevel.medium
    else if any (λ r. not (is_pass r.status)) rs
    then RiskLevel.low
    else RiskLevel.none

-- `calculateRisk`: the score is `residual / maximum`.
pub record Risk : Type 0 where
  pub residual : ℕ
  pub maximum : ℕ
  pub level : RiskLevel

unfoldable pub calculate_risk : List ControlResult → Risk
calculate_risk rs = record {
  residual = residual_risk rs;
  maximum = maximum_risk rs;
  level = risk_level rs;
}

pub data TechnicalVerdict : Type 0 where
  not_applicable : TechnicalVerdict
  concluded : Status → TechnicalVerdict

-- `summarizeTechnicalChecks`: the verdict on the controls whose ids are technical.
unfoldable pub technical_verdict : List String → List ControlResult → TechnicalVerdict
technical_verdict ids rs =
    let technical = filter (λ r. contains r.control_id ids) rs in
    let counts = counts_for technical in
    if ltb 0 (length technical)
    then if ltb 0 counts.failed
      then concluded fail
      else if ltb 0 counts.blocked || ltb 0 counts.not_assessed
      then concluded blocked
      else concluded pass
    else not_applicable
