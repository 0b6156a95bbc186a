-- ===== src/Throttle/Limit.antt =====
-- The throttle of server/authThrottle.js lets exactly its limit of attempts through in a window.
use qase.Common.{
  ℕ, suc, ◌+◌, ◌-◌, ◌≤◌, ◌<◌, min, String, true, false, none, some, List, [], ◌∷◌, ◌≡◌, arith, leb,
  if◌then◌else◌, Dict, get, get-set, length, Option-cases, Bool-cases, inl, inr, length-set_present,
  All, ◌==◌, ◌∙◌, eq_iff, sym, some_inj, subst,
}
use qase.Throttle.{Window, max_keys, window_ms, sweep, attempt}
use qase.Throttle.Size.{Attempt, length-sweep, length-set}

leb-false : (a b : ℕ) → b < a → leb a b ≡ false
leb-false a b h = ground arith

get-sweep :
    (time : ℕ) (k : String) (ws : Dict Window) {w : Window}
    → get k ws ≡ some w
    → time < w.expires
    → get k (sweep time ws) ≡ some w
unfolding get sweep
get-sweep time k [] g h = cc
get-sweep time k ((j, v) ∷ ws) {w} g h = elim (Bool-cases (j == k)) [
  | inl e ↦
      let same : v ≡ w = some_inj (rw e at g) in
      rw (leb-false v.expires time (rw same h)) (rw e (rw same))
  | inr e ↦ elim (Bool-cases (leb v.expires time)) [
    | inl late ↦ rw late (get-sweep time k ws (rw e at g) h)
    | inr kept ↦ rw kept (rw e (get-sweep time k ws (rw e at g) h))
  ]
]

other_key :
    (j k : String) (ws : Dict Window) {w : Window}
    → get j ws ≡ none
    → get k ws ≡ some w
    → (j == k) ≡ false
other_key j k ws e g = elim (Bool-cases (j == k)) [
  | inl same ↦ cc (subst (λ i. get i ws ≡ none) ((eq_iff j k).0 same) e)
  | inr other ↦ other
]

-- How many attempts the trace makes with the key, and how many of them are allowed.
pub tries : String → List Attempt → ℕ
tries k [] = 0
tries k ((time, j, limit) ∷ rest) = if j == k then suc (tries k rest) else tries k rest

pub allowed : String → List Attempt → Dict Window → ℕ
allowed k [] ws = 0
allowed k ((time, j, limit) ∷ rest) ws =
    let (granted, ws') = attempt time j limit ws in
    let later = allowed k rest ws' in
    if j == k then (if granted then suc later else later) else later

-- The attempts come before the window ends, and those with the key have the limit.
abbrev pub InWindow : String → ℕ → ℕ → List Attempt → Type 0
InWindow k limit expires =
    All (λ (a : Attempt). (a.0 < expires) × ((a.1 == k) ≡ true → a.2 ≡ limit))

-- One attempt, where the table has room: the window of the key counts it, and another key leaves it.
attempt-get :
    (time limit : ℕ) (j k : String) (ws : Dict Window) {w : Window}
    → get k ws ≡ some w
    → time < w.expires
    → length ws < max_keys
    → get k (attempt time j limit ws).1
      ≡ some (if j == k then record w { count = w.count + 1 } else w)
unfolding attempt
attempt-get time limit j k ws {w} g h room = elim (Option-cases (get j (sweep time ws))) [
  | inl e ↦
      let other : (j == k) ≡ false = other_key j k (sweep time ws) e (get-sweep time k ws g h) in
      let small : leb max_keys (length (sweep time ws)) ≡ false =
        leb-false max_keys (length (sweep time ws)) (omega (arith, length-sweep time ws)) in
      rw (e, attempt, small, get-set, other, get-sweep time k ws g h)
  | inr (v, e) ↦ elim (Bool-cases (j == k)) [
    | inl same ↦
        let here : v ≡ w = some_inj (
          sym (subst (λ i. get i (sweep time ws) ≡ some v) ((eq_iff j k).0 same) e)
          ∙ get-sweep time k ws g h) in
        rw (e, attempt, get-set, same, here)
    | inr other ↦ rw (e, attempt, get-set, other, get-sweep time k ws g h)
  ]
]

attempt_granted :
    (time limit : ℕ) (k : String) (ws : Dict Window) {w : Window}
    → get k ws ≡ some w
    → time < w.expires
    → (attempt time k limit ws).0 ≡ leb (w.count + 1) limit
unfolding attempt
attempt_granted time limit k ws g h = rw (get-sweep time k ws g h, attempt)

granted_for :
    (time l limit : ℕ) (j k : String) (ws : Dict Window) {w : Window}
    → j ≡ k
    → l ≡ limit
    → get k ws ≡ some w
    → time < w.expires
    → (attempt time j l ws).0 ≡ leb (w.count + 1) limit
granted_for time l limit j k ws {w} same fits g h =
    subst (λ i. (attempt time i l ws).0 ≡ leb (w.count + 1) limit) (sym same)
      (subst (λ n. (attempt time k l ws).0 ≡ leb (w.count + 1) n) fits
        (attempt_granted time l k ws g h))

length-attempt-suc :
    (time limit : ℕ) (j : String) (ws : Dict Window)
    → length ws < max_keys
    → length (attempt time j limit ws).1 ≤ length ws + 1
unfolding attempt
length-attempt-suc time limit j ws room = elim (Option-cases (get j (sweep time ws))) [
  | inl e ↦
      let small : leb max_keys (length (sweep time ws)) ≡ false =
        leb-false max_keys (length (sweep time ws)) (omega (arith, length-sweep time ws)) in
      rw (e, attempt, small)
        (omega (
          arith,
          length-sweep time ws,
          length-set j (record { count = 1; expires = time + window_ms }) (sweep time ws),
        ))
  | inr (v, e) ↦
      rw (e, attempt)
        (omega (
          arith,
          length-sweep time ws,
          length-set_present j (record v { count = v.count + 1 }) v (sweep time ws) e,
        ))
]

-- From a window of the key that has counted `w.count` attempts, any trace of attempts before its
-- end, mixed with attempts for other keys that the table has room for, lets through exactly the
-- attempts that the limit has left.
pub allowed-eq-min :
    (k : String) (limit : ℕ) (calls : List Attempt) (ws : Dict Window) {w : Window}
    → get k ws ≡ some w
    → InWindow k limit w.expires calls
    → length ws + length calls ≤ max_keys
    → allowed k calls ws ≡ min (limit - w.count) (tries k calls)
unfolding allowed tries
allowed-eq-min k limit [] ws g h room = omega arith
allowed-eq-min k limit ((time, j, l) ∷ rest) ws {w} g h room =
    let after = attempt-get time l j k ws g h.0.0 (omega arith) in
    let longer = length-attempt-suc time l j ws (omega arith) in
    elim (Bool-cases (j == k)) [
      | inl same ↦
          let granted : (attempt time j l ws).0 ≡ leb (w.count + 1) limit =
            granted_for time l limit j k ws ((eq_iff j k).0 same) (h.0.1 same) g h.0.0 in
          let later =
            allowed-eq-min k limit rest (attempt time j l ws).1 (rw same at after) h.1
              (omega arith) in
          rw (same, granted) (ground (arith, later))
      | inr other ↦ rw other (
          allowed-eq-min k limit rest (attempt time j l ws).1 (rw other at after) h.1 (omega arith))
    ]
