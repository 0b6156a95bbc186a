-- ===== src/Creation/Pinned.antt =====
-- server/matrixService.js: the items of a launch that names its configurations.
use qase.Common.{
  String, true, Option, none, some, List, [], ◌∷◌, ◌==◌, ◌≡◌, refl, if◌then◌else◌, map, All,
  is_some, inl, inr, Option-cases, Bool-cases, subst, sym, ◌∙◌, some_inj, eq_iff,
}
use qase.Common.Result.{ok, Result-cases, ok_inj}
use qase.Matrix.Item.{Status}
use qase.Support.{Support, is_executable}
use qase.Creation.{
  Env, Spec, Resolver, by_env_id, distinct, pin_env, pin, pin_all, pin_configurations,
}

status_for : Option Support → Status
status_for none = Status.not_supported
status_for (some s) = if is_executable s then Status.pending else Status.not_supported

-- What the item of a configuration says: blocked if the catalog has no record of it, else pending
-- exactly if its browser can be executed.
pub status_in : Resolver → Option Env → Status
unfolding status_for
status_in resolve none = Status.blocked
status_in resolve (some e) = status_for (resolve e.browser_code)

by_env_id-env_id :
    (k : String) (envs : List Env) (e : Env) → by_env_id k envs ≡ some e → e.env_id ≡ k
unfolding by_env_id
by_env_id-env_id k [] e h = absurd cc
by_env_id-env_id k (x ∷ xs) e h = elim (Option-cases (by_env_id k xs)) [
  | inr (y, f) ↦ by_env_id-env_id k xs e (f ∙ rw f at h)
  | inl f ↦ elim (Bool-cases (x.env_id == k)) [
    | inl g ↦ subst (λ y. y.env_id ≡ k) (some_inj (rw (f, g) at h)) ((eq_iff x.env_id k).0 g)
    | inr g ↦ absurd (cc (rw (f, g) at h))
  ]
]

-- What is said of one item.
abbrev IsPinned : Resolver → String → Option Env → Spec → Type 0
IsPinned resolve id o x = (x.env_id ≡ id) × (x.status ≡ status_in resolve o)

pin_env_lem :
    (e : Env) (o : Option Support) (x : Spec)
    → pin_env e o ≡ ok x
    → (x.env_id ≡ e.env_id) × (x.status ≡ status_for o)
unfolding pin_env status_for
pin_env_lem e none x h = absurd cc
pin_env_lem e (some s) x h = elim (Bool-cases (is_executable s)) [
  | inl f ↦ rw (sym (ok_inj (rw f at h)), f) (refl, refl)
  | inr f ↦ rw (sym (ok_inj (rw f at h)), f) (refl, refl)
]

pin_lem :
    (resolve : Resolver) (id : String) (o : Option Env) (x : Spec)
    → ((e : Env) → o ≡ some e → e.env_id ≡ id)
    → pin resolve id o ≡ ok x
    → IsPinned resolve id o x
unfolding pin status_in
pin_lem resolve id none x k h = rw (sym (ok_inj h)) (refl, refl)
pin_lem resolve id (some e) x k h =
    let p = pin_env_lem e (resolve e.browser_code) x h in (p.0 ∙ k e refl, p.1)

pin_all_lem :
    (resolve : Resolver) (envs : List Env) (ids : List String) (xs : List Spec)
    → pin_all resolve envs ids ≡ ok xs
    → (map (λ x. x.env_id) xs ≡ ids)
      × (map (λ x. x.status) xs ≡ map (λ id. status_in resolve (by_env_id id envs)) ids)
unfolding pin_all
pin_all_lem resolve envs [] xs h = rw (sym (ok_inj h)) (refl, refl)
pin_all_lem resolve envs (id ∷ ids) xs h =
    elim (Result-cases (pin resolve id (by_env_id id envs))) [
      | inr (x, e) ↦ absurd (cc (rw e at h))
      | inl (y, e) ↦ elim (Result-cases (pin_all resolve envs ids)) [
        | inr (x, f) ↦ absurd (cc (rw (e, f) at h))
        | inl (ys, f) ↦
            let p = pin_lem resolve id (by_env_id id envs) y (by_env_id-env_id id envs) e in
            let q = pin_all_lem resolve envs ids ys f in
            rw (sym (ok_inj (rw (e, f) at h)), p.0, p.1, q.0, q.1) (refl, refl)
      ]
    ]

by_env_id-All :
    (P : Env → Type 0) (k : String) (envs : List Env) (e : Env)
    → All P envs
    → by_env_id k envs ≡ some e
    → P e
unfolding by_env_id
by_env_id-All P k [] e a h = absurd cc
by_env_id-All P k (x ∷ xs) e a h = elim (Option-cases (by_env_id k xs)) [
  | inr (y, f) ↦ by_env_id-All P k xs e a.1 (f ∙ rw f at h)
  | inl f ↦ elim (Bool-cases (x.env_id == k)) [
    | inl g ↦ subst P (some_inj (rw (f, g) at h)) a.0
    | inr g ↦ absurd (cc (rw (f, g) at h))
  ]
]

-- The browser of each record of the catalog can be looked up.
abbrev pub IsResolved : Resolver → Env → Type 0
IsResolved resolve e = is_some (resolve e.browser_code) ≡ true

pin_env_ok : (e : Env) (o : Option Support) → is_some o ≡ true → (x : Spec) × (pin_env e o ≡ ok x)
unfolding pin_env
pin_env_ok e none h = absurd cc
pin_env_ok e (some s) h = (_, refl)

pin_ok :
    (resolve : Resolver) (id : String) (o : Option Env)
    → ((e : Env) → o ≡ some e → IsResolved resolve e)
    → (x : Spec) × (pin resolve id o ≡ ok x)
unfolding pin
pin_ok resolve id none k = (_, refl)
pin_ok resolve id (some e) k = pin_env_ok e (resolve e.browser_code) (k e refl)

pin_all_ok :
    (resolve : Resolver) (envs : List Env) (ids : List String)
    → All (IsResolved resolve) envs
    → (xs : List Spec) × (pin_all resolve envs ids ≡ ok xs)
unfolding pin_all
pin_all_ok resolve envs [] a = ([], refl)
pin_all_ok resolve envs (id ∷ ids) a =
    let p =
      pin_ok resolve id (by_env_id id envs) (λ e. by_env_id-All (IsResolved resolve) id envs e a) in
    let q = pin_all_ok resolve envs ids a in (p.0 ∷ q.0, rw (p.1, q.1) refl)

-- Where the browser of each record of the catalog can be looked up, the launcher mode succeeds with
-- exactly one item for each distinct requested configuration, in the order of the request; it is
-- blocked if the catalog has no record of it, else pending or not supported as its browser can be
-- executed or not.
pub pin_configurations_complete :
    (resolve : Resolver) (envs : List Env) (ids : List String)
    → All (IsResolved resolve) envs
    → (xs : List Spec) × (pin_configurations resolve envs ids ≡ ok xs)
      × (map (λ x. x.env_id) xs ≡ distinct [] ids)
      × (map (λ x. x.status) xs
          ≡ map (λ id. status_in resolve (by_env_id id envs)) (distinct [] ids))
unfolding pin_configurations
pin_configurations_complete resolve envs ids a =
    let q = pin_all_ok resolve envs (distinct [] ids) a in
    let p = pin_all_lem resolve envs (distinct [] ids) q.0 q.1 in (q.0, q.1, p.0, p.1)
