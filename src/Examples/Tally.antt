-- ===== src/Examples/Tally.antt =====
-- A way to write numbers that can be read back, for server/bugService.js: one character for each unit.
use Prim.Native.Nat.{ℕ, zero, suc}
use Prim.Native.Char.{nul}
use Prim.Native.String.{String, [], ◌∷◌}
use mathlib.Core.Path.{◌≡◌, refl, ap}
use mathlib.Core.Option.{Option, some}

pub tally : ℕ → String
tally zero = []
tally (suc n) = nul ∷ tally n

size_of : String → ℕ
size_of [] = 0
size_of (c ∷ s) = suc (size_of s)

pub read : String → Option ℕ
unfolding size_of
read s = some (size_of s)

size_of-tally : (n : ℕ) → size_of (tally n) ≡ n
unfolding size_of tally
size_of-tally zero = refl
size_of-tally (suc n) = ap suc (size_of-tally n)

pub read-tally : (n : ℕ) → read (tally n) ≡ some n
unfolding read
read-tally n = ap some (size_of-tally n)
