-- ===== src/Device/Level.antt =====
-- The level that the providers can honestly offer: `providerForLevel` and `maximumLevelFor` of
-- server/deviceRuntime/manager.js.
use qase.Common.{
  ℕ, ◌≤◌, ◌≡◌, refl, Bool, true, false, Option, none, some, List, [], ◌∷◌, arith, ltb, eqb, ◌&&◌,
  not, if◌then◌else◌, any, Bool-cases, ◌⊎◌, inl, inr, subst, sym,
}
use qase.Device.Types.{Level, simulated, virtual_device, real_device, Environment, Provider}

-- `order.indexOf(level)`
abbrev pub rank : Level → ℕ
rank simulated = 0
rank virtual_device = 1
rank real_device = 2

-- `capabilities.supportedLevels.includes(level)`
unfoldable pub supports : Level → List Level → Bool
supports l [] = false
supports l (k ∷ ks) = if eqb (rank k) (rank l) then true else supports l ks

unfoldable pub provider_for_level : List Provider → Level → Option Provider
provider_for_level [] l = none
provider_for_level (p ∷ ps) l =
    if supports l p.supported_levels then some p else provider_for_level ps l

-- A REAL_DEVICE level of a provider that does not attest this environment as physical is skipped.
abbrev pub skipped : Provider → Environment → Level → Bool
skipped p e real_device = elim p.attests [ none ↦ false | some attest ↦ not (attest e) ]
skipped p e _ = false

-- `!best || order.indexOf(level) > order.indexOf(best)`
abbrev improves : Option Level → Level → Bool
improves none l = true
improves (some b) l = ltb (rank b) (rank l)

-- One step of the inner loop.
abbrev pick : Provider → Environment → Option Level → Level → Option Level
pick p e best l = if skipped p e l then best else if improves best l then some l else best

best_of_levels : Provider → Environment → Option Level → List Level → Option Level
best_of_levels p e best [] = best
best_of_levels p e best (l ∷ ls) = best_of_levels p e (pick p e best l) ls

best_of_providers : Environment → Option Level → List Provider → Option Level
best_of_providers e best [] = best
best_of_providers e best (p ∷ ps) =
    best_of_providers e (best_of_levels p e best p.supported_levels) ps

pub maximum_level_for : List Provider → Environment → Option Level
maximum_level_for ps e = best_of_providers e none ps

-- The provider offers the level for the environment.
unfoldable pub offers : Environment → Level → Provider → Bool
offers e l p = supports l p.supported_levels && not (skipped p e l)

-- A level that was found so far, and all those seen, are no better than `best`.
abbrev Covers : Option Level → Level → Type 0
Covers best l = (b : Level) × (best ≡ some b) × (rank l ≤ rank b)

Covers-step :
    (p : Provider) (e : Environment) (best : Option Level) (k l : Level)
    → Covers best l
    → Covers (pick p e best k) l
Covers-step p e best k l (b, h, r) = elim (Bool-cases (skipped p e k)) [
  | inl s ↦ rw s (b, h, r)
  | inr s ↦ elim (Bool-cases (improves best k)) [
    | inl i ↦ rw (s, i) (k, refl, ground arith)
    | inr i ↦ rw (s, i) (b, h, r)
  ]
]

Covers-best_of_levels :
    (p : Provider) (e : Environment) (best : Option Level) (ls : List Level) (l : Level)
    → Covers best l
    → Covers (best_of_levels p e best ls) l
unfolding best_of_levels
Covers-best_of_levels p e best [] l h = h
Covers-best_of_levels p e best (k ∷ ks) l h =
    Covers-best_of_levels p e (pick p e best k) ks l (Covers-step p e best k l h)

Covers-seen :
    (p : Provider) (e : Environment) (best : Option Level) (l : Level)
    → skipped p e l ≡ false
    → Covers (pick p e best l) l
Covers-seen p e none l s = rw s (l, refl, omega arith)
Covers-seen p e (some b) l s = elim (Bool-cases (ltb (rank b) (rank l))) [
  | inl i ↦ rw (s, i) (l, refl, omega arith)
  | inr i ↦ rw (s, i) (b, refl, ground arith)
]

rank_inj : (k l : Level) → eqb (rank k) (rank l) ≡ true → k ≡ l
rank_inj k l h = ground arith

Covers-supported :
    (p : Provider) (e : Environment) (best : Option Level) (ls : List Level) (l : Level)
    → supports l ls ≡ true
    → skipped p e l ≡ false
    → Covers (best_of_levels p e best ls) l
unfolding best_of_levels supports
Covers-supported p e best [] l h s = cc
Covers-supported p e best (k ∷ ks) l h s = elim (Bool-cases (eqb (rank k) (rank l))) [
  | inl i ↦
      Covers-best_of_levels p e (pick p e best k) ks l
        (subst (λ m. Covers (pick p e best m) l) (sym (rank_inj k l i)) (Covers-seen p e best l s))
  | inr i ↦ Covers-supported p e (pick p e best k) ks l (rw i at h) s
]

Covers-best_of_providers :
    (e : Environment) (best : Option Level) (ps : List Provider) (l : Level)
    → Covers best l
    → Covers (best_of_providers e best ps) l
unfolding best_of_providers
Covers-best_of_providers e best [] l h = h
Covers-best_of_providers e best (p ∷ ps) l h =
    Covers-best_of_providers e (best_of_levels p e best p.supported_levels) ps l
      (Covers-best_of_levels p e best p.supported_levels l h)

Covers-offered :
    (e : Environment) (best : Option Level) (ps : List Provider) (l : Level)
    → any (offers e l) ps ≡ true
    → Covers (best_of_providers e best ps) l
unfolding best_of_providers any offers
Covers-offered e best [] l h = cc
Covers-offered e best (p ∷ ps) l h = elim (Bool-cases (offers e l p)) [
  | inl o ↦
      Covers-best_of_providers e (best_of_levels p e best p.supported_levels) ps l
        (Covers-supported p e best p.supported_levels l (ground arith) (ground arith))
  | inr o ↦ Covers-offered e (best_of_levels p e best p.supported_levels) ps l (rw o at h)
]

best_of_levels_sound :
    (p : Provider) (e : Environment) (best : Option Level) (ls : List Level) {b : Level}
    → best_of_levels p e best ls ≡ some b
    → (best ≡ some b) ⊎ ((supports b ls ≡ true) × (skipped p e b ≡ false))
unfolding best_of_levels supports
best_of_levels_sound p e best [] h = inl h
best_of_levels_sound p e best (k ∷ ks) {b} h =
    let ih = best_of_levels_sound p e (pick p e best k) ks h in ground (arith, ih)

best_of_providers_sound :
    (e : Environment) (best : Option Level) (ps : List Provider) {b : Level}
    → best_of_providers e best ps ≡ some b
    → (best ≡ some b) ⊎ (any (offers e b) ps ≡ true)
unfolding best_of_providers any offers
best_of_providers_sound e best [] h = inl h
best_of_providers_sound e best (p ∷ ps) {b} h =
    elim (best_of_providers_sound e (best_of_levels p e best p.supported_levels) ps h) [
      | inr found ↦ inr (ground (arith, found))
      | inl found ↦ elim (best_of_levels_sound p e best p.supported_levels found) [
        | inl old ↦ inl old
        | inr here ↦ inr (ground arith)
      ]
    ]

-- The level shown for an environment is one that a provider offers for it, and no provider offers a
-- better one; a REAL_DEVICE level counts only where the provider does not deny that the environment
-- is physical.
pub maximum_level_for_best :
    (ps : List Provider) (e : Environment) (l : Level)
    → any (offers e l) ps ≡ true
    → (b : Level) × (maximum_level_for ps e ≡ some b)
      × (any (offers e b) ps ≡ true)
      × (rank l ≤ rank b)
unfolding maximum_level_for
maximum_level_for_best ps e l h =
    let (b, found, r) = Covers-offered e none ps l h in
    elim (best_of_providers_sound e none ps found) [
      | inl impossible ↦ cc
      | inr offered ↦ (b, found, offered, r)
    ]
