-- ===== src/Browser/Private.antt =====
-- The private and reserved blocks of server/browserPolicy.js, as address ranges.
use qase.Common.{
  ℕ, ◌+◌, ◌*◌, ◌-◌, ◌<◌, Bool, true, false, List, [], ◌∷◌, ◌&&◌, ◌||◌, ◌≡◌, arith, leb, eqb, any,
  if◌then◌else◌,
}
use qase.Browser.{v4, is_reserved_v4, is_private_or_reserved_address}

-- The number of an address.
abbrev pub number : ℕ → ℕ → ℕ → ℕ → ℕ
number a b c d = ((a * 256 + b) * 256 + c) * 256 + d

-- A block of a prefix: its first address and the number of its addresses.
pub is_in : ℕ → ℕ × ℕ → Bool
is_in n (base, size) = leb base n && leb n (base + size - 1)

-- The blocks, by their first three parts and the length of the prefix.
abbrev pub blocks : List (ℕ × ℕ)
blocks =
    (0, 16777216)
    ∷ (167772160, 16777216)
    ∷ (2130706432, 16777216)
    ∷ (1681915904, 4194304)
    ∷ (2851995648, 65536)
    ∷ (2886729728, 1048576)
    ∷ (3221225472, 256)
    ∷ (3221225984, 256)
    ∷ (3232235520, 65536)
    ∷ (3227017984, 256)
    ∷ (3323068416, 131072)
    ∷ (3325256704, 256)
    ∷ (3405803776, 256)
    ∷ (3758096384, 536870912)
    ∷ []

module _ (a b c d : ℕ) (p : a < 256) (q : b < 256) (r : c < 256) (s : d < 256) where
  block_0 : is_in (number a b c d) (0, 16777216) ≡ (eqb a 0)
  unfolding is_in
  block_0 = ground arith

  block_1 : is_in (number a b c d) (167772160, 16777216) ≡ (eqb a 10)
  unfolding is_in
  block_1 = ground arith

  block_2 : is_in (number a b c d) (2130706432, 16777216) ≡ (eqb a 127)
  unfolding is_in
  block_2 = ground arith

  block_3 : is_in (number a b c d) (1681915904, 4194304) ≡ (eqb a 100 && leb 64 b && leb b 127)
  unfolding is_in
  block_3 = ground arith

  block_4 : is_in (number a b c d) (2851995648, 65536) ≡ (eqb a 169 && eqb b 254)
  unfolding is_in
  block_4 = ground arith

  block_5 : is_in (number a b c d) (2886729728, 1048576) ≡ (eqb a 172 && leb 16 b && leb b 31)
  unfolding is_in
  block_5 = ground arith

  block_6 : is_in (number a b c d) (3221225472, 256) ≡ (eqb a 192 && eqb b 0 && eqb c 0)
  unfolding is_in
  block_6 = ground arith

  block_7 : is_in (number a b c d) (3221225984, 256) ≡ (eqb a 192 && eqb b 0 && eqb c 2)
  unfolding is_in
  block_7 = ground arith

  block_8 : is_in (number a b c d) (3232235520, 65536) ≡ (eqb a 192 && eqb b 168)
  unfolding is_in
  block_8 = ground arith

  block_9 : is_in (number a b c d) (3227017984, 256) ≡ (eqb a 192 && eqb b 88 && eqb c 99)
  unfolding is_in
  block_9 = ground arith

  block_10 : is_in (number a b c d) (3323068416, 131072) ≡ (eqb a 198 && (eqb b 18 || eqb b 19))
  unfolding is_in
  block_10 = ground arith

  block_11 : is_in (number a b c d) (3325256704, 256) ≡ (eqb a 198 && eqb b 51 && eqb c 100)
  unfolding is_in
  block_11 = ground arith

  block_12 : is_in (number a b c d) (3405803776, 256) ≡ (eqb a 203 && eqb b 0 && eqb c 113)
  unfolding is_in
  block_12 = ground arith

  block_13 : is_in (number a b c d) (3758096384, 536870912) ≡ (leb 224 a)
  unfolding is_in
  block_13 = ground arith

or_any :
    (x0 x1 x2 x3 x4 x5 x6 x7 x8 x9 x10 x11 x12 x13 : Bool)
    → (x0 || x1 || x2 || x3 || x4 || x5 || x6 || x7 || x8 || x9 || x10 || x11 || x12 || x13) ≡ (
        if x0
        then true
        else (if x1
            then true
            else (if x2
                then true
                else (if x3
                    then true
                    else (if x4
                        then true
                        else (if x5
                            then true
                            else (if x6
                                then true
                                else (if x7
                                    then true
                                    else (if x8
                                        then true
                                        else (if x9
                                            then true
                                            else (if x10
                                                then true
                                                else (if x11
                                                    then true
                                                    else (if x12
                                                        then true
                                                        else (if x13
                                                            then true
                                                            else false))))))))))))))
or_any x0 x1 x2 x3 x4 x5 x6 x7 x8 x9 x10 x11 x12 x13 = ground arith

-- The test of an IPv4 address agrees with the table of reserved blocks: an address of four bytes is refused
-- exactly if its number lies in one of fourteen blocks, each given by its first address and its size.
pub is_reserved_v4-blocks :
    (a b c d : ℕ)
    → a < 256
    → b < 256
    → c < 256
    → d < 256
    → is_private_or_reserved_address (v4 a b c d) ≡ any (is_in (number a b c d)) blocks
unfolding is_private_or_reserved_address is_reserved_v4 any
is_reserved_v4-blocks a b c d p q r s =
    rw
      (
        block_0 a b c d p q r s,
        block_1 a b c d p q r s,
        block_2 a b c d p q r s,
        block_3 a b c d p q r s,
        block_4 a b c d p q r s,
        block_5 a b c d p q r s,
        block_6 a b c d p q r s,
        block_7 a b c d p q r s,
        block_8 a b c d p q r s,
        block_9 a b c d p q r s,
        block_10 a b c d p q r s,
        block_11 a b c d p q r s,
        block_12 a b c d p q r s,
        block_13 a b c d p q r s,
      )
      (or_any (eqb a 0) (eqb a 10) (eqb a 127) (eqb a 100 && leb 64 b && leb b 127)
        (eqb a 169 && eqb b 254) (eqb a 172 && leb 16 b && leb b 31)
        (eqb a 192 && eqb b 0 && eqb c 0) (eqb a 192 && eqb b 0 && eqb c 2) (eqb a 192 && eqb b 168)
        (eqb a 192 && eqb b 88 && eqb c 99) (eqb a 198 && (eqb b 18 || eqb b 19))
        (eqb a 198 && eqb b 51 && eqb c 100) (eqb a 203 && eqb b 0 && eqb c 113) (leb 224 a))
