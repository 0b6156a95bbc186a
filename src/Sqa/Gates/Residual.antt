-- ===== src/Sqa/Gates/Residual.antt =====
-- The residual risk of an assessment in server/sqaAssessment.js.
use qase.Common.{
  suc, ◌*◌, ◌≤◌, true, false, List, [], ◌∷◌, ◌≡◌, ◌↔◌, refl, arith, any, count, length, Bool-cases,
  inl, inr, any_sub, count-le-length, ◌&&◌, ◌||◌, not,
}
use qase.Sqa.Types.{
  Severity, Status, ControlResult, is_pass, is_fail, is_open, is_critical, is_high, is_medium,
}
use qase.Sqa.Gates.{weight, risk_factor, maximum_risk, residual_risk, RiskLevel, risk_level}

-- The share of one control is at most its weight, and nothing exactly if it passes.
share_le : (s : Severity) (t : Status) → weight s * risk_factor t ≤ 100 * weight s
share_le s t = ground arith

share_zero : (s : Severity) (t : Status) → (weight s * risk_factor t ≡ 0) ↔ (is_pass t ≡ true)
share_zero s t = ground arith

residual_le : (rs : List ControlResult) → residual_risk rs ≤ 100 * maximum_risk rs
unfolding residual_risk maximum_risk
residual_le [] = omega arith
residual_le (r ∷ rs) = omega (arith, share_le r.severity r.status, residual_le rs)

residual_zero :
    (rs : List ControlResult)
    → (residual_risk rs ≡ 0) ↔ (any (λ r. not (is_pass r.status)) rs ≡ false)
unfolding residual_risk any
residual_zero [] = ((λ h. refl), (λ h. refl))
residual_zero (r ∷ rs) = elim (Bool-cases (is_pass r.status)) [
  | inl e ↦
      let none : weight r.severity * risk_factor r.status ≡ 0 =
        (share_zero r.severity r.status).1 e in
      rw e ((λ h. (residual_zero rs).0 (omega arith)), (λ h. omega (arith, (residual_zero rs).1 h)))
  | inr e ↦ rw e (
    (λ h.
        let none : weight r.severity * risk_factor r.status ≡ 0 = omega arith in
        cc ((share_zero r.severity r.status).0 none)),
    (λ h. cc),
  )
]

passed_all :
    (rs : List ControlResult)
    → (any (λ r. not (is_pass r.status)) rs ≡ false)
      ↔ (count (λ r. is_pass r.status) rs ≡ length rs)
unfolding any count
passed_all [] = ((λ h. refl), (λ h. refl))
passed_all (r ∷ rs) = elim (Bool-cases (is_pass r.status)) [
  | inl e ↦ rw e ((λ h. omega (arith, (passed_all rs).0 h)), (λ h. (passed_all rs).1 (omega arith)))
  | inr e ↦ rw e (
    (λ h. cc),
    (λ h.
        let far : suc (length rs) ≤ length rs =
          omega (arith, count-le-length (λ r. is_pass r.status) rs) in
        ground arith),
  )
]

risk_level_none :
    (rs : List ControlResult)
    → (risk_level rs ≡ RiskLevel.none) ↔ (any (λ r. not (is_pass r.status)) rs ≡ false)
unfolding risk_level
risk_level_none rs = ((λ h. ground arith), level_of)
  where
    level_of : any (λ r. not (is_pass r.status)) rs ≡ false → risk_level rs ≡ RiskLevel.none
    level_of h = rw (
      any_sub (λ r. is_critical r.severity && is_fail r.status) _ rs (λ r e. ground arith) h,
      any_sub
          (λ r.
            (is_high r.severity && is_fail r.status)
            || (is_critical r.severity && is_open r.status))
          _ rs (λ r e. ground arith) h,
      any_sub
          (λ r.
            (is_medium r.severity && is_fail r.status) || (is_high r.severity && is_open r.status))
          _ rs (λ r e. ground arith) h,
      h,
    )

-- The residual risk is at most the maximum, so that the score is at most a hundred percent, and it
-- is zero exactly if the level is none, which is exactly if every control passes.
pub risk_lem :
    (rs : List ControlResult)
    → (residual_risk rs ≤ 100 * maximum_risk rs)
      × ((residual_risk rs ≡ 0) ↔ (risk_level rs ≡ RiskLevel.none))
      × ((risk_level rs ≡ RiskLevel.none) ↔ (count (λ r. is_pass r.status) rs ≡ length rs))
risk_lem rs = (
  residual_le rs,
  (
    (λ h. (risk_level_none rs).1 ((residual_zero rs).0 h)),
    (λ h. (residual_zero rs).1 ((risk_level_none rs).0 h)),
  ),
  (
    (λ h. (passed_all rs).0 ((risk_level_none rs).0 h)),
    (λ h. (risk_level_none rs).1 ((passed_all rs).1 h)),
  ),
)
