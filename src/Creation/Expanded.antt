-- ===== src/Creation/Expanded.antt =====
-- server/matrixService.js: the items of a launch by profiles and browsers.
use qase.Common.{
  String, true, false, not, Option, none, some, List, [], ◌∷◌, ◌++◌, ◌||◌, ◌≡◌, refl, arith, All,
  contains, inl, inr, Option-cases, Bool-cases, subst,
}
use qase.Common.Result.{Result, ok, err, Result-cases, ok_inj}
use qase.Matrix.Item.{Status}
use qase.Support.{Support, is_executable}
use qase.Creation.{
  Env, Request, Spec, Reason, Error, Resolver, by_env_id, target_of, offered, spec_for, Progress,
  seen_pair, add_target, add_browsers, browsers_of, add_profiles, items_of, expand_matrix_items,
}

module _ (resolve : Resolver) (selected deselected : List String) where
  -- An item is pending only for a browser that was selected, was not deselected and can be executed; one
  -- that is not run was not selected or was deselected; and there is no other status but not supported.
  abbrev pub IsJust : String → Status → Type 0
  IsJust code Status.pending =
      (contains code selected ≡ true)
      × (contains code deselected ≡ false)
      × ((s : Support) × (resolve code ≡ some s) × (is_executable s ≡ true))
  IsJust code Status.not_run = (not (contains code selected) || contains code deselected) ≡ true
  IsJust code Status.not_supported = Unit
  IsJust code _ = ⊥

  abbrev pub IsJustified : Spec → Type 0
  IsJustified x = IsJust x.browser_code x.status

  spec_for-IsJustified :
      (s : Support) (target : Env) (code : String)
      → resolve code ≡ some s
      → IsJustified (spec_for selected deselected s target code)
  unfolding spec_for
  spec_for-IsJustified s target code r = elim (Bool-cases (is_executable s)) [
    | inr e ↦ rw e tt
    | inl e ↦ elim (Bool-cases (not (contains code selected) || contains code deselected)) [
      | inl f ↦ rw (e, f) f
      | inr f ↦ rw (e, f) (ground arith, ground arith, (s, r, e))
    ]
  ]

  add-All :
      (xs : List Spec) (x : Spec)
      → All IsJustified xs
      → IsJustified x
      → All IsJustified (xs ++ x ∷ [])
  add-All [] x a j = (j, tt)
  add-All (y ∷ ys) x a j = (a.0, add-All ys x a.1 j)

  add_target-IsJustified :
      (s : Support) (e : Env) (code : String) (o : Option Env) (p : Progress)
      → resolve code ≡ some s
      → All IsJustified p.0
      → All IsJustified (add_target selected deselected s e code o p).0
  unfolding add_target
  add_target-IsJustified s e code none (items, seen) r a =
      add-All items (offered Reason.not_offered Status.not_supported e code) a tt
  add_target-IsJustified s e code (some target) (items, seen) r a =
      elim (Bool-cases (seen_pair e.env_id code seen)) [
        | inl f ↦ rw f a
        | inr f ↦ rw f (
            add-All items (spec_for selected deselected s target code) a
              (spec_for-IsJustified s target code r))
      ]

  add_browsers-IsJustified :
      (envs : List Env) (e : Env) (codes : List String) (p q : Progress)
      → All IsJustified p.0
      → add_browsers resolve selected deselected envs e codes p ≡ ok q
      → All IsJustified q.0
  unfolding add_browsers
  add_browsers-IsJustified envs e [] p q a h = subst (λ x. All IsJustified x.0) (ok_inj h) a
  add_browsers-IsJustified envs e (code ∷ codes) p q a h = elim (Option-cases (resolve code)) [
    | inl f ↦ absurd (cc (rw f at h))
    | inr (s, f) ↦
        let o = target_of envs e code in
        add_browsers-IsJustified envs e codes (add_target selected deselected s e code o p) q
          (add_target-IsJustified s e code o p f a) (rw f at h)
  ]

  add_profiles-IsJustified :
      (envs : List Env) (rs : List Request) (p q : Progress)
      → All IsJustified p.0
      → add_profiles resolve selected deselected envs rs p ≡ ok q
      → All IsJustified q.0
  unfolding add_profiles
  add_profiles-IsJustified envs [] p q a h = subst (λ x. All IsJustified x.0) (ok_inj h) a
  add_profiles-IsJustified envs (r ∷ rs) p q a h = elim (Option-cases (by_env_id r.env_id envs)) [
    | inl f ↦ absurd (cc (rw f at h))
    | inr (e, f) ↦
        elim (Result-cases
          (add_browsers resolve selected deselected envs e (browsers_of selected deselected r) p)) [
            | inr (x, g) ↦ absurd (cc (rw (f, g) at h))
            | inl (p', g) ↦
                add_profiles-IsJustified envs rs p' q
                  (add_browsers-IsJustified envs e (browsers_of selected deselected r) p p' a g)
                  (rw (f, g) at h)
          ]
  ]

items_of-ok :
    (r : Result Error Progress) (xs : List Spec)
    → items_of r ≡ ok xs
    → (q : Progress) × (r ≡ ok q) × (q.0 ≡ xs)
items_of-ok (ok q) xs h = (q, refl, ok_inj h)
items_of-ok (err x) xs h = absurd cc

-- Each item that the expansion of profiles and browsers makes is justified: it is pending only for a
-- browser that was selected, was not deselected and can be executed; it is not run only for one that
-- was not selected or was deselected; otherwise it is not supported.
pub expand_matrix_items-IsJustified :
    (resolve : Resolver) (envs : List Env) (rs : List Request) (selected deselected : List String)
    (xs : List Spec)
    → expand_matrix_items resolve envs rs selected deselected ≡ ok xs
    → All (IsJustified resolve selected deselected) xs
unfolding expand_matrix_items
expand_matrix_items-IsJustified resolve envs [] selected deselected xs h = absurd cc
expand_matrix_items-IsJustified resolve envs (r ∷ rs) [] deselected xs h = absurd cc
expand_matrix_items-IsJustified resolve envs (r ∷ rs) (c ∷ cs) deselected xs h =
    let q = items_of-ok (add_profiles resolve (c ∷ cs) deselected envs (r ∷ rs) ([], [])) xs h in
    subst (All (IsJustified resolve (c ∷ cs) deselected)) q.2
      (add_profiles-IsJustified resolve (c ∷ cs) deselected envs (r ∷ rs) ([], []) q.0 tt q.1)
