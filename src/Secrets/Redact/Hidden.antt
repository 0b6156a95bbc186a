-- ===== src/Secrets/Redact/Hidden.antt =====
-- That no secret is left in what server/secrets.js redacts.
use qase.Common.{
  ℕ, zero, suc, ◌-◌, ◌≤◌, true, false, List, [], ◌∷◌, ◌++◌, leb, eqb, filter, length, Text,
  starts_with, includes, ◌≡◌, refl, sym, ap, ◌∙◌, arith, Bool-cases, inl, inr, All, ◌⊎◌,
}
use qase.Secrets.Redact.{
  bullet, mask, replace, scrub, scrub_string, Value, text, array, object, other, Items, no_items,
  item, Fields, no_fields, field, walk, walk_items, walk_fields, levels, redact_value,
}

-- A text without a bullet.
abbrev pub IsPlain : Text → Type 0
IsPlain t = All (λ c. eqb c bullet ≡ false) t

-- A plain text that is not empty.
abbrev pub IsSecret : Text → Type 0
IsSecret s = IsPlain s × (leb 1 (length s) ≡ true)

includes_past :
    (c : ℕ) (u r : Text) → IsPlain (c ∷ u) → includes (c ∷ u) (bullet ∷ r) ≡ includes (c ∷ u) r
unfolding includes starts_with
includes_past c u r (h, hs) = ground (arith, h)

includes-mask :
    (c : ℕ) (u r : Text) → IsPlain (c ∷ u) → includes (c ∷ u) (mask ++ r) ≡ includes (c ∷ u) r
includes-mask c u r h =
    let p : (t : Text) → includes (c ∷ u) (bullet ∷ t) ≡ includes (c ∷ u) t =
      λ t. includes_past c u t h in
    p _ ∙ p _ ∙ p _ ∙ p _ ∙ p _ ∙ p _ ∙ p _ ∙ p _

replace-cases :
    (s : Text) (x : ℕ) (t : Text)
    → ((starts_with s (x ∷ t) ≡ true) × (replace s 0 (x ∷ t) ≡ mask ++ replace s (length s - 1) t))
      ⊎ ((starts_with s (x ∷ t) ≡ false) × (replace s 0 (x ∷ t) ≡ x ∷ replace s 0 t))
unfolding replace
replace-cases s x t = elim (Bool-cases (starts_with s (x ∷ t))) [
  | inl e ↦ inl (e, rw e refl)
  | inr e ↦ inr (e, rw e refl)
]

-- A plain text that the masked text starts with is one that the text starts with.
replace-starts_with :
    (s u t : Text) → IsPlain u → starts_with u (replace s 0 t) ≡ true → starts_with u t ≡ true
unfolding starts_with replace
replace-starts_with s [] t p h = refl
replace-starts_with s (c ∷ u) [] p h = absurd cc
replace-starts_with s (c ∷ u) (x ∷ t) (p, ps) h = elim (replace-cases s x t) [
  | inl (e, f) ↦ absurd (ground (arith, rw f at h))
  | inr (e, f) ↦ ground (arith, rw f at h, replace-starts_with s u t ps)
]

-- A plain text that the masked text contains is one that the text contains.
replace-includes :
    (s : Text) (c : ℕ) (u : Text) (n : ℕ) (t : Text)
    → IsPlain (c ∷ u)
    → includes (c ∷ u) (replace s n t) ≡ true
    → includes (c ∷ u) t ≡ true
unfolding includes replace
replace-includes s c u n [] p h = h
replace-includes s c u (suc n) (x ∷ t) p h = ground (arith, replace-includes s c u n t p h)
replace-includes s c u zero (x ∷ t) p h = elim (replace-cases s x t) [
  | inl (e, f) ↦
      ground
        (arith, replace-includes s c u (length s - 1) t p (sym (includes-mask c u _ p) ∙ rw f at h))
  | inr (e, f) ↦ elim (Bool-cases (starts_with (c ∷ u) (x ∷ replace s 0 t))) [
    | inl g ↦
        rw (replace-starts_with s (c ∷ u) (x ∷ t) p (ap (λ z. starts_with (c ∷ u) z) f ∙ g)) refl
    | inr g ↦ ground (arith, replace-includes s c u 0 t p (rw (f, g) at h))
  ]
]

-- A masked text does not contain the secret.
replace-hides :
    (c : ℕ) (u : Text) (n : ℕ) (t : Text)
    → IsPlain (c ∷ u)
    → includes (c ∷ u) (replace (c ∷ u) n t) ≡ false
unfolding includes replace starts_with
replace-hides c u n [] p = refl
replace-hides c u (suc n) (x ∷ t) p = replace-hides c u n t p
replace-hides c u zero (x ∷ t) p = elim (replace-cases (c ∷ u) x t) [
  | inl (e, f) ↦ rw f (includes-mask c u _ p ∙ replace-hides c u (length (c ∷ u) - 1) t p)
  | inr (e, f) ↦ elim (Bool-cases (starts_with (c ∷ u) (x ∷ replace (c ∷ u) 0 t))) [
    | inl g ↦
        absurd (
          cc
            (replace-starts_with (c ∷ u) (c ∷ u) (x ∷ t) p (ap (λ z. starts_with (c ∷ u) z) f ∙ g)))
    | inr g ↦ rw f (rw g (replace-hides c u 0 t p))
  ]
]

scrub-hides : (s t : Text) → IsSecret s → includes s (scrub s t) ≡ false
scrub-hides [] t (p, l) = absurd cc
scrub-hides (c ∷ u) t (p, l) = elim (Bool-cases (includes (c ∷ u) t)) [
  | inl e ↦ rw e (replace-hides c u 0 t p)
  | inr e ↦ rw e e
]

scrub-keeps : (s u t : Text) → IsSecret u → includes u t ≡ false → includes u (scrub s t) ≡ false
scrub-keeps s [] t (p, l) h = absurd cc
scrub-keeps s (c ∷ u) t (p, l) h = elim (Bool-cases (includes s t)) [
  | inl e ↦ elim (Bool-cases (includes (c ∷ u) (replace s 0 t))) [
    | inl f ↦ absurd (cc (replace-includes s c u 0 t p f))
    | inr f ↦ rw e f
  ]
  | inr e ↦ rw e h
]

scrub_string-keeps :
    (ss : List Text) (u t : Text)
    → IsSecret u
    → includes u t ≡ false
    → includes u (scrub_string ss t) ≡ false
unfolding scrub_string
scrub_string-keeps [] u t p h = h
scrub_string-keeps (s ∷ ss) u t p h = scrub_string-keeps ss u (scrub s t) p (scrub-keeps s u t p h)

scrub_string-hides :
    (ss : List Text) (t : Text)
    → All IsSecret ss
    → All (λ s. includes s (scrub_string ss t) ≡ false) ss
unfolding scrub_string
scrub_string-hides [] t p = tt
scrub_string-hides (s ∷ ss) t (p, ps) = (
  scrub_string-keeps ss s (scrub s t) p (scrub-hides s t p),
  scrub_string-hides ss (scrub s t) ps,
)

-- No text of the value, down to so many levels, contains one of the secrets.
abbrev mutual
  pub IsHidden : List Text → ℕ → Value → Type 0
  IsHidden ss zero v = Unit
  IsHidden ss (suc n) (text t) = All (λ s. includes s t ≡ false) ss
  IsHidden ss (suc n) (array is) = IsHiddenItems ss n is
  IsHidden ss (suc n) (object fs) = IsHiddenFields ss n fs
  IsHidden ss (suc n) (other k) = Unit

  pub IsHiddenItems : List Text → ℕ → Items → Type 0
  IsHiddenItems ss n no_items = Unit
  IsHiddenItems ss n (item v is) = IsHidden ss n v × IsHiddenItems ss n is

  pub IsHiddenFields : List Text → ℕ → Fields → Type 0
  IsHiddenFields ss n no_fields = Unit
  IsHiddenFields ss n (field k v fs) = IsHidden ss n v × IsHiddenFields ss n fs

mutual
  unfolding walk walk_items walk_fields

  walk-IsHidden :
      (ss : List Text) (n : ℕ) (v : Value) → All IsSecret ss → IsHidden ss n (walk ss n v)
  walk-IsHidden ss zero v p = tt
  walk-IsHidden ss (suc n) (text t) p = scrub_string-hides ss t p
  walk-IsHidden ss (suc n) (array is) p = walk_items-IsHidden ss n is p
  walk-IsHidden ss (suc n) (object fs) p = walk_fields-IsHidden ss n fs p
  walk-IsHidden ss (suc n) (other k) p = tt

  walk_items-IsHidden :
      (ss : List Text) (n : ℕ) (is : Items)
      → All IsSecret ss
      → IsHiddenItems ss n (walk_items ss n is)
  walk_items-IsHidden ss n no_items p = tt
  walk_items-IsHidden ss n (item v is) p = (walk-IsHidden ss n v p, walk_items-IsHidden ss n is p)

  walk_fields-IsHidden :
      (ss : List Text) (n : ℕ) (fs : Fields)
      → All IsSecret ss
      → IsHiddenFields ss n (walk_fields ss n fs)
  walk_fields-IsHidden ss n no_fields p = tt
  walk_fields-IsHidden ss n (field k v fs) p =
      (walk-IsHidden ss n v p, walk_fields-IsHidden ss n fs p)

abbrev pub long_enough : List Text → List Text
long_enough secrets = filter (λ s. leb 3 (length s)) secrets

long_enough-IsSecret :
    (secrets : List Text) → All IsPlain secrets → All IsSecret (long_enough secrets)
unfolding filter
long_enough-IsSecret [] p = tt
long_enough-IsSecret (s ∷ ss) (p, ps) = elim (Bool-cases (leb 3 (length s))) [
  | inl e ↦ rw e ((p, ground arith), long_enough-IsSecret ss ps)
  | inr e ↦ rw e (long_enough-IsSecret ss ps)
]

-- Of a value that is redacted, no text down to depth 8 contains a stored secret of three code units or more, where no
-- secret has a bullet in it.
pub redact_value-IsHidden :
    (secrets : List Text) (v : Value)
    → All IsPlain secrets
    → IsHidden (long_enough secrets) levels (redact_value secrets v)
unfolding redact_value
redact_value-IsHidden secrets v p = walk-IsHidden _ levels v (long_enough-IsSecret secrets p)

-- A text in so many arrays, each the only item of the next.
abbrev pub nested : ℕ → Text → Value
nested zero t = text t
nested (suc n) t = array (item (nested n t) no_items)

nested-walk : (ss : List Text) (n k : ℕ) (t : Text) → n ≤ k → walk ss n (nested k t) ≡ nested k t
unfolding walk
nested-walk ss zero k t h = refl
nested-walk ss (suc n) zero t h = absurd (omega arith)
nested-walk ss (suc n) (suc k) t h =
    ap (λ v. array (item v no_items)) (nested-walk ss n k t (omega arith))

-- A text at depth 9 or below, in arrays, is handed on as it is, whatever secrets it contains.
pub redact_value-nested :
    (secrets : List Text) (n : ℕ) (t : Text)
    → levels ≤ n
    → redact_value secrets (nested n t) ≡ nested n t
unfolding redact_value
redact_value-nested secrets n t h = nested-walk _ levels n t h
