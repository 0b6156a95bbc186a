-- ===== src/Common/Texts.antt =====
-- A JavaScript text as the list of its code units.
use Prim.Native.Nat.{ℕ, zero, suc, ◌≤◌}
use mathlib.Core.Bool.{Bool, true, false}
use mathlib.Core.List.{List, [], ◌∷◌}
use mathlib.Core.Path.{◌≡◌, refl, ap}
use native.Mathlib.Omega.{arith}
use qase.Common.Tests.{eqb, if◌then◌else◌}
use qase.Common.Lists.{length}

abbrev pub Text : Type 0
Text = List ℕ

-- `s.slice(0, n)`
unfoldable pub take {ℓ} : {A : Type ℓ} → ℕ → List A → List A
take zero xs = []
take (suc n) [] = []
take (suc n) (x ∷ xs) = x ∷ take n xs

pub length-take {ℓ} : {A : Type ℓ} (n : ℕ) (xs : List A) → length (take n xs) ≤ n
unfolding take
length-take zero xs = omega arith
length-take (suc n) [] = omega arith
length-take (suc n) (x ∷ xs) = omega (arith, length-take n xs)

pub take_short {ℓ} : {A : Type ℓ} (n : ℕ) (xs : List A) → length xs ≤ n → take n xs ≡ xs
unfolding take
take_short zero [] h = refl
take_short zero (x ∷ xs) h = absurd (omega arith)
take_short (suc n) [] h = refl
take_short (suc n) (x ∷ xs) h = ap (λ zs. x ∷ zs) (take_short n xs (omega arith))

-- `s.startsWith(t)`, the argument that is looked for first
unfoldable pub starts_with : Text → Text → Bool
starts_with [] s = true
starts_with (c ∷ cs) [] = false
starts_with (c ∷ cs) (x ∷ s) = if eqb c x then starts_with cs s else false

-- `s.includes(t)`, the argument that is looked for first
unfoldable pub includes : Text → Text → Bool
includes t [] = starts_with t []
includes t (x ∷ s) = if starts_with t (x ∷ s) then true else includes t s
