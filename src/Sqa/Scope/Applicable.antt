-- ===== src/Sqa/Scope/Applicable.antt =====
-- Which controls are in the scope that server/sqaCatalog.js resolves.
use qase.Common.{
  String, true, Option, List, [], ◌∷◌, ◌++◌, ◌≡◌, refl, arith, contains, if◌then◌else◌, not, get_or,
  ◌&&◌, filter, map, Bool-cases, inl, inr, All, subst, ap,
}
use qase.Common.Result.{ok, Result-cases, ok_inj}
use qase.Sqa.Types.{Control}
use qase.Sqa.Scope.{
  Unknown, unknown_profile, unknown_attribute, select, applies, has_profile, split_controls, Scope,
  resolve_scope,
}

split_controls_lem :
    (ps as' : List String) (cs : List Control)
    → split_controls ps as' cs ≡ (
      filter (λ c. has_profile ps c && applies as' c) cs,
      map (λ c. c.id) (filter (λ c. has_profile ps c && not (applies as' c)) cs),
    )
unfolding split_controls filter
split_controls_lem ps as' [] = refl
split_controls_lem ps as' (c ∷ cs) = ground (arith, split_controls_lem ps as' cs)

All-append :
    (known : List String) (xs : List String) (v : String)
    → All (λ x. contains x known ≡ true) xs
    → contains v known ≡ true
    → All (λ x. contains x known ≡ true) (xs ++ v ∷ [])
All-append known [] v a h = (h, tt)
All-append known (x ∷ xs) v a h = (a.0, All-append known xs v a.1 h)

select-known :
    (refuse : String → Unknown) (known unique vs : List String) {chosen : List String}
    → All (λ x. contains x known ≡ true) unique
    → select refuse known unique vs ≡ ok chosen
    → All (λ x. contains x known ≡ true) chosen
unfolding select
select-known refuse known unique [] a h = subst (All (λ x. contains x known ≡ true)) (ok_inj h) a
select-known refuse known unique (v ∷ vs) a h = elim (Bool-cases (contains v known)) [
  | inr e ↦ cc (rw e at h)
  | inl e ↦ elim (Bool-cases (contains v unique)) [
    | inl f ↦ select-known refuse known unique vs a (rw (e, f) at h)
    | inr f ↦
        select-known refuse known (unique ++ v ∷ []) vs (All-append known unique v a e)
          (rw (e, f) at h)
  ]
]

-- The scope that the two selections come to.
has_core :
    (chosen : List String)
    → contains "core" (if contains "core" chosen then chosen else "core" ∷ chosen) ≡ true
unfolding contains
has_core chosen = elim (Bool-cases (contains "core" chosen)) [ inl e ↦ rw e e | inr e ↦ rw e ]

abbrev IsScope : List String → List Control → Scope → Type 0
IsScope known controls s =
    (contains "core" s.profiles ≡ true)
    × All (λ a. contains a known ≡ true) s.attributes
    × (s.applicable ≡ filter (λ c. has_profile s.profiles c && applies s.attributes c) controls)
    × (s.excluded
        ≡ map (λ c. c.id)
            (filter (λ c. has_profile s.profiles c && not (applies s.attributes c)) controls))

-- A scope that is resolved has the core profile and only attributes of the catalog; it keeps, in
-- their order, exactly the controls of a selected profile that apply to the attributes, and lists
-- as excluded exactly the controls of a selected profile that do not.
pub resolve_scope_ok :
    (known_profiles known_attributes : List String) (controls : List Control)
    (profiles attributes : Option (List String)) {s : Scope}
    → resolve_scope known_profiles known_attributes controls profiles attributes ≡ ok s
    → (contains "core" s.profiles ≡ true)
      × All (λ a. contains a known_attributes ≡ true) s.attributes
      × (s.applicable ≡ filter (λ c. has_profile s.profiles c && applies s.attributes c) controls)
      × (s.excluded
          ≡ map
              (λ c. c.id)
              (filter (λ c. has_profile s.profiles c && not (applies s.attributes c)) controls))
unfolding resolve_scope
resolve_scope_ok known_profiles known_attributes controls profiles attributes h =
    elim (Result-cases (select unknown_profile known_profiles [] (get_or profiles ("core" ∷ [])))) [
      | inr (x, e) ↦ cc (rw e at h)
      | inl (chosen, e) ↦
          elim (Result-cases
            (select unknown_attribute known_attributes [] (get_or attributes []))) [
              | inr (x, f) ↦ cc (rw (e, f) at h)
              | inl (attrs, f) ↦
                  let ps = if contains "core" chosen then chosen else "core" ∷ chosen in
                  subst (IsScope known_attributes controls) (ok_inj (rw (e, f) at h)) (
                    has_core chosen,
                    select-known unknown_attribute known_attributes [] _ tt f,
                    ap (λ x. x.0) (split_controls_lem ps attrs controls),
                    ap (λ x. x.1) (split_controls_lem ps attrs controls),
                  )
            ]
    ]
