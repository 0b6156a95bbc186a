-- ===== src/Sqa/Assessment/Passing.antt =====
-- What stands behind the result of one control in server/sqaAssessment.js.
use qase.Common.{
  ◌≤◌, true, false, some, List, [], ◌∷◌, ◌≡◌, refl, any, count, filter, map, eqb, if◌then◌else◌,
  Bool-cases, Option-cases, inl, inr, All, leb→le, ◌==◌,
}
use qase.Sqa.Types.{
  Status, pass, fail, blocked, not_assessed, Requirement, Control, Evidence, Observation, Coverage,
}
use qase.Sqa.Assessment.{meets, evidence_coverage, is_empty, decide, find_observation, result_of}

-- The control was observed with the status, and `P` holds of the evidence.
abbrev pub Observed : Status → (List Evidence → Type 0) → List Observation → Control → Type 0
Observed s P os c =
    (o : Observation) × (find_observation c.id os ≡ some o) × (o.status ≡ s) × P o.evidence

decide_pass :
    (s : Status) (es : List Evidence) (v : Coverage)
    → (decide s es v).0 ≡ pass
    → (s ≡ pass) × (is_empty v.missing ≡ true)
unfolding decide
decide_pass pass es v h = elim (Bool-cases (is_empty v.missing)) [
  | inl e ↦ (refl, e)
  | inr e ↦ cc (rw e at h)
]
decide_pass fail es v h = elim (Bool-cases (eqb v.satisfied 0)) [
  | inl e ↦ cc (rw e at h)
  | inr e ↦ cc (rw e at h)
]
decide_pass blocked es v h = cc
decide_pass not_assessed es v h = cc

decide-fail :
    (s : Status) (es : List Evidence) (v : Coverage)
    → (decide s es v).0 ≡ fail
    → (s ≡ fail) × (eqb v.satisfied 0 ≡ false)
unfolding decide
decide-fail pass es v h = elim (Bool-cases (is_empty v.missing)) [
  | inl e ↦ cc (rw e at h)
  | inr e ↦ cc (rw e at h)
]
decide-fail fail es v h = elim (Bool-cases (eqb v.satisfied 0)) [
  | inl e ↦ cc (rw e at h)
  | inr e ↦ (refl, e)
]
decide-fail blocked es v h = cc
decide-fail not_assessed es v h = cc

nothing_missing :
    (es : List Evidence) (qs : List Requirement)
    → is_empty (map (λ q. q.id) (filter (λ q. if meets es q then false else true) qs)) ≡ true
    → All (λ q. q.minimum ≤ count (λ e. e.kind == q.kind) es) qs
unfolding filter meets
nothing_missing es [] h = tt
nothing_missing es (q ∷ qs) h = elim (Bool-cases (meets es q)) [
  | inl e ↦ (leb→le _ _ e, nothing_missing es qs (rw e at h))
  | inr e ↦ cc (rw e at h)
]

some_met :
    (es : List Evidence) (qs : List Requirement)
    → eqb (count (λ q. meets es q) qs) 0 ≡ false
    → any (λ q. meets es q) qs ≡ true
unfolding count any
some_met es [] h = cc
some_met es (q ∷ qs) h = elim (Bool-cases (meets es q)) [
  | inl e ↦ rw e
  | inr e ↦ rw e (some_met es qs (rw e at h))
]

-- A control passes only if it was observed, the observation claims a pass, and every requirement
-- of the control is met by at least its minimum of items of evidence of its type.
pub result_of_pass :
    (os : List Observation) (c : Control)
    → (result_of os c).status ≡ pass
    → Observed pass
        (λ es. All (λ q. q.minimum ≤ count (λ e. e.kind == q.kind) es) c.requirements)
        os
        c
unfolding result_of evidence_coverage decide
result_of_pass os c h = elim (Option-cases (find_observation c.id os)) [
  | inl e ↦ cc (rw e at h)
  | inr (o, e) ↦
      let w = decide_pass o.status o.evidence (evidence_coverage c o.evidence) (rw e at h) in
      (o, e, w.0, nothing_missing o.evidence c.requirements w.1)
]

-- A control fails only if it was observed, the observation claims a failure, and some requirement of
-- the control is met.
pub result_of-fail :
    (os : List Observation) (c : Control)
    → (result_of os c).status ≡ fail
    → Observed fail (λ es. any (λ q. meets es q) c.requirements ≡ true) os c
unfolding result_of evidence_coverage decide
result_of-fail os c h = elim (Option-cases (find_observation c.id os)) [
  | inl e ↦ cc (rw e at h)
  | inr (o, e) ↦
      let w = decide-fail o.status o.evidence (evidence_coverage c o.evidence) (rw e at h) in
      (o, e, w.0, some_met o.evidence c.requirements w.1)
]
