-- ===== src/Common/Maps.antt =====
-- A JavaScript `Map` or `Set` with string keys: an association list in insertion order.
use Prim.Native.Nat.{suc}
use Prim.Native.String.{String}
use mathlib.Core.Bool.{Bool, true, false}
use mathlib.Core.List.{List, [], ◌∷◌}
use mathlib.Core.Option.{Option, none, some}
use mathlib.Core.Path.{◌≡◌, refl}
use native.Mathlib.Omega.{arith}
use text.Mathlib.Text.{◌==◌}
use text.Mathlib.TextEquality.{eq_iff}
use qase.Common.Tests.{if◌then◌else◌}
use qase.Common.Lists.{length}

abbrev pub Dict {ℓ} : Type ℓ → Type ℓ
Dict V = List (String × V)

-- `set.has(k)`, `list.includes(k)`
unfoldable pub contains : String → List String → Bool
contains k [] = false
contains k (j ∷ js) = if j == k then true else contains k js

module _ {ℓ} {V : Type ℓ} where
  -- `m.get(k)`
  unfoldable pub get : String → Dict V → Option V
  get k [] = none
  get k ((j, v) ∷ m) = if j == k then some v else get k m

  -- `m.set(k, v)`: in place where the key exists, at the end where it does not.
  unfoldable pub set : String → V → Dict V → Dict V
  set k v [] = (k, v) ∷ []
  set k v ((j, w) ∷ m) = if j == k then (j, v) ∷ m else (j, w) ∷ set k v m

  pub get-set :
      (k j : String) (v : V) (m : Dict V) → get j (set k v m) ≡ (if k == j then some v else get j m)
  unfolding get set
  get-set k j v [] = refl
  get-set k j v ((i, w) ∷ m) = ground (arith, eq_iff k j, eq_iff i k, eq_iff i j, get-set k j v m)

  -- A write to a key that exists keeps the size; another grows it by one.
  pub length-set_present :
      (k : String) (v w : V) (m : Dict V) → get k m ≡ some w → length (set k v m) ≡ length m
  unfolding get set
  length-set_present k v w [] h = cc
  length-set_present k v w ((i, u) ∷ m) h = ground (arith, length-set_present k v w m)

  pub length-set_absent :
      (k : String) (v : V) (m : Dict V) → get k m ≡ none → length (set k v m) ≡ suc (length m)
  unfolding get set
  length-set_absent k v [] h = refl
  length-set_absent k v ((i, u) ∷ m) h = ground (arith, length-set_absent k v m)
