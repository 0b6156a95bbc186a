-- ===== src/Invites/Code.antt =====
-- `encodeCodeBody` of server/invites.js: bytes as base-32 digits, in 32-bit arithmetic. A byte is a
-- number below 256. `|` of a shifted value and a byte is their sum, since the low bits are zero.
use mathlib.Core.List.{append-nil}
use native.Mathlib.Nat.{zero-add, mul-div_cancel}
use native.Mathlib.Numerals.{unary_clauses}
use qase.Common.{
  ℕ, zero, suc, ◌+◌, ◌-◌, ◌*◌, ◌/◌, ◌%◌, ◌^◌, ◌<◌, List, [], ◌∷◌, ◌++◌, ◌≡◌, ◌∙◌, refl, arith,
  length, All,
}

abbrev pub word : ℕ
word = 2 ^ 32

-- The inner loop, with `bits` by its size: the digits it emits.
unfoldable pub emit : ℕ → ℕ → List ℕ
emit value (suc (suc (suc (suc (suc bits))))) = (value / 2 ^ bits % 32) ∷ emit value bits
emit value bits = []

-- The bits that the inner loop leaves.
unfoldable pub left_bits : ℕ → ℕ
left_bits (suc (suc (suc (suc (suc bits))))) = left_bits bits
left_bits bits = bits

-- The last digit, where bits are left.
unfoldable pub flush : ℕ → ℕ → List ℕ
flush value zero = []
flush value (suc bits) = (value * 2 ^ (5 - suc bits) % word % 32) ∷ []

-- The loop over the bytes: the indices into CODE_ALPHABET.
unfoldable pub encode : List ℕ → ℕ → ℕ → List ℕ
encode [] value bits = flush value bits
encode (byte ∷ bytes) value bits =
    let value' = (value * 256 % word + byte) % word in
    emit value' (bits + 8) ++ encode bytes value' (left_bits (bits + 8))

-- `encodeCodeBody`
unfoldable pub encode_code_body : List ℕ → List ℕ
encode_code_body bytes = encode bytes 0 0

-- The number that digits and bytes stand for, after a number that is there already.
abbrev pub digits_value : ℕ → List ℕ → ℕ
digits_value acc [] = acc
digits_value acc (d ∷ ds) = digits_value (acc * 32 + d) ds

abbrev pub bytes_value : ℕ → List ℕ → ℕ
bytes_value acc [] = acc
bytes_value acc (b ∷ bs) = bytes_value (acc * 256 + b) bs

-- The zero bits at the end of the last digit.
unfoldable pub padding : ℕ → List ℕ → ℕ
padding zero [] = 0
padding (suc bits) [] = 5 - suc bits
padding bits (b ∷ bs) = padding (left_bits (bits + 8)) bs

-- The last `n` bytes of a number, before others.
unfoldable pub last_bytes : ℕ → ℕ → List ℕ → List ℕ
last_bytes zero m rest = rest
last_bytes (suc n) m rest = last_bytes n (m / 256) ((m % 256) ∷ rest)

-- The zero bits at the end of a code of `n` bytes, after `bits` that were left over.
padding_of : ℕ → ℕ → ℕ
padding_of zero zero = 0
padding_of (suc bits) zero = 5 - suc bits
padding_of bits (suc n) = padding_of (left_bits (bits + 8)) n

-- A decoder of the digits of a code of `n` bytes.
pub decode : ℕ → List ℕ → List ℕ
unfolding padding_of
decode n ds = last_bytes n (digits_value 0 ds / 2 ^ padding_of 0 n) []

padding_of-length : (bits : ℕ) (bs : List ℕ) → padding_of bits (length bs) ≡ padding bits bs
unfolding padding_of padding
padding_of-length zero [] = refl
padding_of-length (suc bits) [] = refl
padding_of-length zero (b ∷ bs) = padding_of-length (left_bits 8) bs
padding_of-length (suc bits) (b ∷ bs) = padding_of-length (left_bits (suc bits + 8)) bs

last_bytes-bytes_value :
    (bs : List ℕ) (k acc : ℕ) (rest : List ℕ)
    → All (λ b. b < 256) bs
    → last_bytes (length bs + k) (bytes_value acc bs) rest ≡ last_bytes k acc (bs ++ rest)
last_bytes-bytes_value [] k acc rest h = rw (zero-add k)
last_bytes-bytes_value (b ∷ bs) k acc rest (small, h) =
    let same : suc (length bs) + k ≡ length bs + suc k = omega arith in
    let high : (acc * 256 + b) / 256 ≡ acc = omega arith in
    let low : (acc * 256 + b) % 256 ≡ b = omega arith in
    let step : last_bytes (suc k) (acc * 256 + b) (bs ++ rest) ≡ last_bytes k acc (b ∷ bs ++ rest) =
      unfold last_bytes in rw (high, low) in
    rw same (last_bytes-bytes_value bs (suc k) (acc * 256 + b) rest h ∙ step)

-- One byte moves from the number of the bytes to the number of the digits and the bits left over;
-- the 32-bit arithmetic loses nothing of it.
encode_step :
    (byte value acc bits : ℕ)
    → bits < 5
    → byte < 256
    → let value' = (value * 256 % word + byte) % word in
      ((left_bits (bits + 8)) < 5)
      × (digits_value acc (emit value' (bits + 8)) * 2 ^ left_bits (bits + 8)
            + value' % 2 ^ left_bits (bits + 8)
          ≡ (acc * 2 ^ bits + value % 2 ^ bits) * 256 + byte)
unfolding emit left_bits
encode_step byte value acc zero h k = (omega arith, omega arith)
encode_step byte value acc (suc zero) h k = (omega arith, omega arith)
encode_step byte value acc (suc (suc zero)) h k = (omega arith, omega arith)
encode_step byte value acc (suc (suc (suc zero))) h k = (omega arith, omega arith)
encode_step byte value acc (suc (suc (suc (suc zero)))) h k = (omega arith, omega arith)
encode_step byte value acc (suc (suc (suc (suc (suc bits))))) h k = absurd (omega arith)

digits_value-append :
    (acc : ℕ) (xs ys : List ℕ) → digits_value acc (xs ++ ys) ≡ digits_value (digits_value acc xs) ys
digits_value-append acc [] ys = refl
digits_value-append acc (x ∷ xs) ys = digits_value-append (acc * 32 + x) xs ys

flush_value :
    (value acc bits : ℕ)
    → bits < 5
    → digits_value acc (flush value bits)
      ≡ (acc * 2 ^ bits + value % 2 ^ bits) * 2 ^ padding bits []
unfolding flush padding
flush_value value acc zero h = omega arith
flush_value value acc (suc zero) h = omega arith
flush_value value acc (suc (suc zero)) h = omega arith
flush_value value acc (suc (suc (suc zero))) h = omega arith
flush_value value acc (suc (suc (suc (suc zero)))) h = omega arith
flush_value value acc (suc (suc (suc (suc (suc bits))))) h = absurd (omega arith)

padding-cons :
    (bits b : ℕ) (bs : List ℕ) → padding bits (b ∷ bs) ≡ padding (left_bits (bits + 8)) bs
unfolding padding
padding-cons zero b bs = refl
padding-cons (suc bits) b bs = refl

encode_value :
    (bs : List ℕ) (value acc bits : ℕ)
    → bits < 5
    → All (λ b. b < 256) bs
    → digits_value acc (encode bs value bits)
      ≡ bytes_value (acc * 2 ^ bits + value % 2 ^ bits) bs * 2 ^ padding bits bs
unfolding encode
encode_value [] value acc bits h a = flush_value value acc bits h
encode_value (b ∷ bs) value acc bits h (small, a) =
    let value' = (value * 256 % word + b) % word in
    let (less, same) = encode_step b value acc bits h small in
    let now = digits_value acc (emit value' (bits + 8)) in
    digits_value-append acc (emit value' (bits + 8)) (encode bs value' (left_bits (bits + 8)))
    ∙ encode_value bs value' now (left_bits (bits + 8)) less a
    ∙ rw (same, padding-cons bits b bs)

last_bytes_none : (m : ℕ) (rest : List ℕ) → last_bytes 0 m rest ≡ rest
unfolding last_bytes
last_bytes_none m rest = refl

two_pow_pos : (n : ℕ) → 0 < 2 ^ n
two_pow_pos zero = omega arith
two_pow_pos (suc n) = simp unary_clauses (omega (arith, two_pow_pos n))

-- The characters of a code, computed in 32-bit arithmetic, decode to the bytes that it was made of; the
-- decoder is told how many bytes there were.
pub decode-encode_code_body :
    (bytes : List ℕ)
    → All (λ b. b < 256) bytes
    → decode (length bytes) (encode_code_body bytes) ≡ bytes
unfolding decode encode_code_body
decode-encode_code_body bytes h =
    let start : length bytes + 0 ≡ length bytes = omega arith in
    let scaled : digits_value 0 (encode bytes 0 0) ≡ bytes_value 0 bytes * 2 ^ padding 0 bytes =
      encode_value bytes 0 0 0 (omega arith) h in
    let undone : digits_value 0 (encode bytes 0 0) / 2 ^ padding 0 bytes ≡ bytes_value 0 bytes =
      rw scaled (mul-div_cancel (bytes_value 0 bytes) (two_pow_pos (padding 0 bytes))) in
    rw (padding_of-length 0 bytes, undone)
      (rw (← start) (last_bytes-bytes_value bytes 0 0 [] h)
        ∙ last_bytes_none 0 (bytes ++ [])
        ∙ append-nil bytes)
