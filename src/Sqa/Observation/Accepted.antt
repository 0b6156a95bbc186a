-- ===== src/Sqa/Observation/Accepted.antt =====
-- The observations that server/sqaAssessment.js accepts.
use qase.Common.{
  String, true, false, List, [], ◌∷◌, ◌≡◌, contains, map, Bool-cases, inl, inr, All, ◌==◌, length,
  subst,
}
use qase.Common.Result.{ok, Result-cases, ok_inj}
use qase.Sqa.Types.{Control, Observation}
use qase.Sqa.Observation.{
  Texts, too_many_observations, normalize_all, check_length, check_scope, validate_observations,
}

-- No two observations are of one control.
abbrev pub Distinct : List Observation → Type 0
Distinct [] = Unit
Distinct (o ∷ os) = All (λ p. (o.control_id == p.control_id) ≡ false) os × Distinct os

drop_seen :
    (k : String) (seen : List String) (os : List Observation)
    → All (λ p. contains p.control_id (k ∷ seen) ≡ false) os
    → All (λ p. (k == p.control_id) ≡ false) os × All (λ p. contains p.control_id seen ≡ false) os
unfolding contains
drop_seen k seen [] h = (tt, tt)
drop_seen k seen (o ∷ os) h =
    let rest = drop_seen k seen os h.1 in
    elim (Bool-cases (k == o.control_id)) [
      | inl e ↦ cc (rw e at h.0)
      | inr e ↦ ((e, rest.0), (rw e at h.0, rest.1))
    ]

module _ (t : Texts) where
  check_scope_ok :
      (ids seen : List String) (os : List Observation)
      → check_scope t ids seen os ≡ ok tt
      → All (λ o. contains o.control_id ids ≡ true) os
        × All (λ o. contains o.control_id seen ≡ false) os
        × Distinct os
  unfolding check_scope
  check_scope_ok ids seen [] h = (tt, tt, tt)
  check_scope_ok ids seen (o ∷ os) h = elim (Bool-cases (contains o.control_id ids)) [
    | inr e ↦ cc (rw e at h)
    | inl e ↦ elim (Bool-cases (contains o.control_id seen)) [
      | inl f ↦ cc (rw (e, f) at h)
      | inr f ↦
          let (a, b, c) = check_scope_ok ids (o.control_id ∷ seen) os (rw (e, f) at h) in
          let (fresh, old) = drop_seen o.control_id seen os b in ((e, a), (f, old), (fresh, c))
    ]
  ]

  -- Observations that are accepted are each of a control in the scope, and no two of them are of
  -- one control.
  pub validate_observations_ok :
      (controls : List Control) (os : List Observation) {os' : List Observation}
      → validate_observations t controls os ≡ ok os'
      → All (λ o. contains o.control_id (map (λ c. c.id) controls) ≡ true) os' × Distinct os'
  unfolding validate_observations
  validate_observations_ok controls os h =
      let ids = map (λ c. c.id) controls in
      elim (Result-cases (check_length t 1000 (length os) too_many_observations)) [
        | inr (x, e) ↦ cc (rw e at h)
        | inl (_, e) ↦ elim (Result-cases (normalize_all t os)) [
          | inr (x, f) ↦ cc (rw (e, f) at h)
          | inl (ns, f) ↦ elim (Result-cases (check_scope t ids [] ns)) [
            | inr (x, g) ↦ cc (rw (e, f, g) at h)
            | inl (_, g) ↦
                let facts = check_scope_ok ids [] ns g in
                subst (λ l. All (λ o. contains o.control_id ids ≡ true) l × Distinct l)
                  (ok_inj (rw (e, f, g) at h)) (facts.0, facts.2)
          ]
        ]
      ]
