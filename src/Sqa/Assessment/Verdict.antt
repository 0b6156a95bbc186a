-- ===== src/Sqa/Assessment/Verdict.antt =====
-- When an assessment of server/sqaAssessment.js passes or fails.
use qase.Common.{
  ◌+◌, String, Bool, true, false, List, [], ◌∷◌, ◌≡◌, refl, arith, any, count, filter, length, map,
  eqb, ltb, any_sub, any-count, ◌&&◌, ◌||◌, if◌then◌else◌, not, ◌∙◌,
}
use qase.Sqa.Types.{
  pass, fail, blocked, Control, Observation, ControlResult, is_pass, is_fail, is_blocked, is_open,
  is_critical,
}
use qase.Sqa.Gates.{counts_for, gate_status}
use qase.Sqa.Assessment.{gates_of, verdict_of, evaluate, result_of}

-- The control is mandatory or critical, and fails.
abbrev pub is_decisive_failure : ControlResult → Bool
is_decisive_failure r = is_fail r.status && (r.mandatory || is_critical r.severity)

abbrev pub is_inconclusive : ControlResult → Bool
is_inconclusive r = is_open r.status

any-filter :
    (p q : ControlResult → Bool) (rs : List ControlResult)
    → any p (filter q rs) ≡ any (λ r. q r && p r) rs
unfolding any filter
any-filter p q [] = refl
any-filter p q (r ∷ rs) = ground (arith, any-filter p q rs)

-- The decisive failures, seen through the two gates.
any_decisive :
    (rs : List ControlResult)
    → (any (λ r. is_fail r.status) (filter (λ r. r.mandatory) rs)
        || any (λ r. is_fail r.status) (filter (λ r. is_critical r.severity) rs))
      ≡ any is_decisive_failure rs
unfolding any filter
any_decisive [] = refl
any_decisive (r ∷ rs) = ground (arith, any_decisive rs)

ltb-length-filter :
    (p : ControlResult → Bool) (rs : List ControlResult) → ltb 0 (length (filter p rs)) ≡ any p rs
unfolding any filter
ltb-length-filter p [] = refl
ltb-length-filter p (r ∷ rs) = ground (arith, ltb-length-filter p rs)

count_conclusive :
    (rs : List ControlResult)
    → count (λ r. is_pass r.status) rs + count (λ r. is_fail r.status) rs + count is_inconclusive rs
      ≡ length rs
unfolding count
count_conclusive [] = refl
count_conclusive (r ∷ rs) = ground (arith, count_conclusive rs)

conclusive_lem :
    (rs : List ControlResult)
    → eqb (count (λ r. is_pass r.status) rs + count (λ r. is_fail r.status) rs) (length rs)
      ≡ not (any is_inconclusive rs)
conclusive_lem rs = ground (arith, count_conclusive rs, any-count is_inconclusive rs)

-- The tests of the gates: a fail and an open result among the mandatory and the critical controls.
verdict_of_tests :
    (mf mo cf co ev o : Bool)
    → (o ≡ false → mo ≡ false)
    → (o ≡ false → co ≡ false)
    → (o ≡ false → ev ≡ false)
    → verdict_of (record {
      mandatory_controls = if mf then fail else if mo then blocked else pass;
      critical_risk = if cf then fail else if co then blocked else pass;
      evidence_completeness = if ev then blocked else pass;
      conclusive_coverage = if not o then pass else blocked;
    })
      ≡ (if mf || cf then fail else if o then blocked else pass)
unfolding verdict_of
verdict_of_tests mf mo cf co ev true a b c = ground arith
verdict_of_tests mf mo cf co ev false a b c = rw (a refl, b refl, c refl) (ground arith)

-- What the four gates come to.
gates_lem :
    (rs : List ControlResult)
    → verdict_of (gates_of rs) ≡ (
        if any is_decisive_failure rs
        then fail
        else if any is_inconclusive rs
        then blocked
        else pass)
unfolding gates_of gate_status counts_for
gates_lem rs =
    rw
      (
        conclusive_lem rs,
        ltb-length-filter (λ r. is_pass r.claimed_status && is_blocked r.status) rs,
        ← any_decisive rs,
      )
      (verdict_of_tests _ _ _ _ _ (any is_inconclusive rs)
        (λ h.
          any-filter (λ r. is_open r.status) (λ r. r.mandatory) rs
          ∙ any_sub _ is_inconclusive rs (λ r e. ground arith) h)
        (λ h.
          any-filter (λ r. is_open r.status) (λ r. is_critical r.severity) rs
          ∙ any_sub _ is_inconclusive rs (λ r e. ground arith) h)
        (λ h. any_sub _ is_inconclusive rs (λ r e. ground arith) h))

-- An assessment fails exactly if a mandatory or critical control fails; otherwise it is blocked
-- exactly if some applicable control has no conclusive result, and otherwise it passes.
pub evaluate_verdict :
    (technical_ids : List String) (controls : List Control) (os : List Observation)
    → let a = evaluate technical_ids controls os in
      a.verdict ≡ (
        if any is_decisive_failure a.results
        then fail
        else if any is_inconclusive a.results
        then blocked
        else pass)
unfolding evaluate
evaluate_verdict technical_ids controls os = gates_lem (map (λ c. result_of os c) controls)
