-- ===== src/Operations/InFlight.antt =====
-- The guard of server/operations.js on how many mutations are in flight.
use qase.Common.{
  ℕ, zero, suc, ◌+◌, ◌≤◌, String, Bool, true, false, some, List, [], ◌∷◌, ◌&&◌, not, leb, ◌≡◌, refl,
  arith, if◌then◌else◌, count, count-append, Bool-cases, Option-cases, inl, inr, some_inj, sym,
}
use qase.Operations.{
  Texts, Request, Live, State, observe, is_mutation, arrive, live_at, mark, finalize_call, finalize,
  Reach, fresh, arrived, ended,
}

-- A call that holds a place: an admitted mutation whose response has not ended.
abbrev pub is_held : Live → Bool
is_held x = x.mutation && not x.overloaded && not x.finished

abbrev pub IsCounted : ℕ → State → Type 0
IsCounted limit s =
    (s.in_flight ≡ count is_held s.live)
    × (s.in_flight ≤ limit)
    × (s.overloads ≡ count (λ x. x.overloaded) s.live)

abbrev one_if : Bool → ℕ
one_if true = 1
one_if false = 0

count_held :
    (m o f : Bool) (n : ℕ)
    → (if m && not o && not true then suc n else n) + one_if (m && not o && not f)
      ≡ (if m && not o && not f then suc n else n)
count_held m o f n = ground arith

-- The end of a call that is found gives back the place it held.
count-mark :
    (n : ℕ) (xs : List Live) (x : Live)
    → live_at n xs ≡ some x
    → count is_held (mark n xs) + one_if (is_held x) ≡ count is_held xs
unfolding live_at mark count
count-mark n [] x h = cc
count-mark zero (y ∷ xs) x h =
    let e : y ≡ x = some_inj h in
    rw (sym e) (count_held y.mutation y.overloaded y.finished (count is_held xs))
count-mark (suc n) (y ∷ xs) x h = ground (arith, count-mark n xs x h)

overloads-mark :
    (n : ℕ) (xs : List Live) → count (λ x. x.overloaded) (mark n xs) ≡ count (λ x. x.overloaded) xs
unfolding mark count
overloads-mark n [] = refl
overloads-mark zero (y ∷ xs) = refl
overloads-mark (suc n) (y ∷ xs) = ground (arith, overloads-mark n xs)

arrive-IsCounted :
    (t : Texts) (prefixes : List String) (limit now : ℕ) (r : Request) (s : State)
    → IsCounted limit s
    → IsCounted limit (arrive t prefixes limit now r s).1
unfolding arrive count
arrive-IsCounted t prefixes limit now r s h =
    let overloaded = is_mutation t prefixes r && leb limit s.in_flight in
    let x : Live = record {
      request = r;
      mutation = is_mutation t prefixes r;
      overloaded = overloaded;
      finished = false;
      started = now;
    } in
    ground (
      arith,
      count-append is_held s.live (x ∷ []),
      count-append (λ y. y.overloaded) s.live (x ∷ []),
      h,
    )

finalize_call-IsCounted :
    (t : Texts) (limit now status_code n : ℕ) (x : Live) (s : State)
    → live_at n s.live ≡ some x
    → IsCounted limit s
    → IsCounted limit (finalize_call t now status_code n (some x) s)
unfolding finalize_call observe
finalize_call-IsCounted t limit now status_code n x s e h =
    let k = count-mark n s.live x e in let o = overloads-mark n s.live in ground (arith, k, o, h)

finalize-IsCounted :
    (t : Texts) (limit now status_code n : ℕ) (s : State)
    → IsCounted limit s
    → IsCounted limit (finalize t now status_code n s)
unfolding finalize finalize_call
finalize-IsCounted t limit now status_code n s h = elim (Option-cases (live_at n s.live)) [
  | inl e ↦ rw e h
  | inr (x, e) ↦ rw e (finalize_call-IsCounted t limit now status_code n x s e h)
]

-- In every state of the server the mutations in flight are the admitted ones whose response has not
-- ended, they are at most the limit, and the overloads are the calls that were rejected.
pub Reach-IsCounted :
    (t : Texts) (prefixes : List String) (limit : ℕ) (s : State)
    → Reach t prefixes limit s
    → IsCounted limit s
unfolding count
Reach-IsCounted t prefixes limit s fresh = (refl, omega arith, refl)
Reach-IsCounted t prefixes limit _ (arrived {s = s} now r h) =
    arrive-IsCounted t prefixes limit now r s (Reach-IsCounted t prefixes limit s h)
Reach-IsCounted t prefixes limit _ (ended {s = s} now status_code n h) =
    finalize-IsCounted t limit now status_code n s (Reach-IsCounted t prefixes limit s h)

-- In every state of the server a request goes on exactly if it is no mutation or fewer than the limit
-- of mutations hold a place.
pub arrive-admits :
    (t : Texts) (prefixes : List String) (limit now : ℕ) (r : Request) (s : State)
    → Reach t prefixes limit s
    → (arrive t prefixes limit now r s).0
      ≡ not (is_mutation t prefixes r && leb limit (count is_held s.live))
unfolding arrive
arrive-admits t prefixes limit now r s h = rw ((Reach-IsCounted t prefixes limit s h).0) refl

live_at-mark :
    (n : ℕ) (xs : List Live) (x : Live)
    → live_at n xs ≡ some x
    → live_at n (mark n xs) ≡ some (record x { finished = true })
unfolding live_at mark
live_at-mark n [] x h = cc
live_at-mark zero (y ∷ xs) x h = rw (some_inj h) refl
live_at-mark (suc n) (y ∷ xs) x h = live_at-mark n xs x h

-- `close` after `finish`, or a second signal of either kind, changes nothing: the end of a call counts
-- once.
pub finalize_twice :
    (t : Texts) (now status_code n later code : ℕ) (s : State)
    → finalize t later code n (finalize t now status_code n s) ≡ finalize t now status_code n s
unfolding finalize finalize_call observe
finalize_twice t now status_code n later code s = elim (Option-cases (live_at n s.live)) [
  | inl e ↦ rw e (rw e refl)
  | inr (x, e) ↦ elim (Bool-cases x.finished) [
    | inl f ↦ rw (e, f) (rw (e, f) refl)
    | inr f ↦ rw (e, f) (rw (live_at-mark n s.live x e) refl)
  ]
]
