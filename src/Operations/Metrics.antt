-- ===== src/Operations/Metrics.antt =====
-- The counters of server/operations.js: requests and their durations by method, route and status class.
use qase.Common.{
  ℕ, ◌+◌, ◌-◌, ◌/◌, ◌≤◌, String, true, false, Option, none, some, List, [], ◌∷◌, ◌==◌, ◌&&◌, not,
  leb, ◌≡◌, refl, arith, if◌then◌else◌, Bool-cases, inl, inr, eq_iff, get_or,
}
use qase.Operations.{
  Texts, Key, same_key, Durations, no_durations, find_key, put_key, fill, add_duration, Live, State,
  observe, arrive, request_route, live_at, mark, finalize_call, finalize, Reach, fresh, arrived,
  ended,
}

key_eq :
    {m m' r r' c c' : String}
    → m ≡ m'
    → r ≡ r'
    → c ≡ c'
    → ◌≡◌ {A = Key}
        (record { method = m; route = r; status_class = c })
        (record { method = m'; route = r'; status_class = c' })
key_eq e f g = cc

same_key-eq : (a b : Key) → same_key a b ≡ true → a ≡ b
unfolding same_key
same_key-eq a b h = elim (Bool-cases (a.method == b.method)) [
  | inr e ↦ absurd (cc (rw e at h))
  | inl e ↦ elim (Bool-cases (a.route == b.route)) [
    | inr f ↦ absurd (cc (rw (e, f) at h))
    | inl f ↦
        let g : (a.status_class == b.status_class) ≡ true = rw (e, f) at h in
        key_eq ((eq_iff a.method b.method).0 e) ((eq_iff a.route b.route).0 f)
          ((eq_iff a.status_class b.status_class).0 g)
  ]
]

same_key_refl : (a : Key) → same_key a a ≡ true
unfolding same_key
same_key_refl a =
    rw
      (
        (eq_iff a.method a.method).1 refl,
        (eq_iff a.route a.route).1 refl,
        (eq_iff a.status_class a.status_class).1 refl,
      )
      refl

module _ {ℓ} {V : Type ℓ} where
  find_key-put_key :
      (k j : Key) (v : V) (m : List (Key × V))
      → find_key j (put_key k v m) ≡ (if same_key k j then some v else find_key j m)
  unfolding find_key put_key
  find_key-put_key k j v [] = refl
  find_key-put_key k j v ((i, w) ∷ m) = elim (Bool-cases (same_key i k)) [
    | inl e ↦ rw (e, same_key-eq i k e) (ground arith)
    | inr e ↦ elim (Bool-cases (same_key i j)) [
      | inl f ↦
          let g : same_key k j ≡ false = elim (Bool-cases (same_key k j)) [
            | inr x ↦ x
            | inl x ↦
                let y : same_key i k ≡ true =
                  rw (same_key-eq i j f, same_key-eq k j x) (same_key_refl j) in
                absurd cc
          ] in
          rw (e, f, g) refl
      | inr f ↦ rw (e, f) (find_key-put_key k j v m)
    ]
  ]

-- A cumulative histogram: the bounds rise, the counts do not fall, and no count is above the total.
abbrev pub IsCumulative : ℕ → ℕ → ℕ → List (ℕ × ℕ) → Type 0
IsCumulative total bound n [] = n ≤ total
IsCumulative total bound n ((b, k) ∷ bs) = (bound ≤ b) × (n ≤ k) × IsCumulative total b k bs

fill-IsCumulative :
    (d total bound n : ℕ) (bs : List (ℕ × ℕ))
    → IsCumulative total bound n bs
    → IsCumulative (total + 1) bound (if leb d bound then n + 1 else n) (fill d bs)
unfolding fill
fill-IsCumulative d total bound n [] h = ground arith
fill-IsCumulative d total bound n ((b, k) ∷ bs) (p, q, h) =
    (p, ground arith, fill-IsCumulative d total b k bs h)

-- The durations under a key: as many as its requests, with a cumulative histogram.
abbrev pub count_of : Option Durations → ℕ
count_of none = 0
count_of (some d) = d.count

abbrev pub IsHistogram : Option Durations → Type 0
IsHistogram none = Unit
IsHistogram (some d) = IsCumulative d.count 0 0 d.buckets

abbrev pub IsConsistent : State → Type 0
IsConsistent s =
    (k : Key)
    → (get_or (find_key k s.requests) 0 ≡ count_of (find_key k s.durations))
      × IsHistogram (find_key k s.durations)

IsCumulative-from_zero :
    (total n : ℕ) (bs : List (ℕ × ℕ)) → IsCumulative total 0 n bs → IsCumulative total 0 0 bs
IsCumulative-from_zero total n [] h = omega arith
IsCumulative-from_zero total n ((b, k) ∷ bs) (p, q, h) = (p, omega arith, h)

no_durations-IsCumulative : IsCumulative 0 0 0 no_durations.buckets
no_durations-IsCumulative = ground arith

add_duration-IsCumulative :
    (d : ℕ) (r : Durations)
    → IsCumulative r.count 0 0 r.buckets
    → IsHistogram (some (add_duration d r))
unfolding add_duration
add_duration-IsCumulative d r h =
    IsCumulative-from_zero (r.count + 1) (if leb d 0 then 1 else 0) (fill d r.buckets)
      (fill-IsCumulative d r.count 0 0 r.buckets h)

add_duration-IsHistogram :
    (d : ℕ) (o : Option Durations)
    → IsHistogram o
    → IsHistogram (some (add_duration d (get_or o no_durations)))
add_duration-IsHistogram d none h =
    add_duration-IsCumulative d no_durations no_durations-IsCumulative
add_duration-IsHistogram d (some r) h = add_duration-IsCumulative d r h

add_duration-count_of :
    (d : ℕ) (o : Option Durations)
    → count_of (some (add_duration d (get_or o no_durations))) ≡ count_of o + 1
unfolding add_duration
add_duration-count_of d none = refl
add_duration-count_of d (some r) = refl

observe-IsConsistent :
    (t : Texts) (method route : String) (status_code elapsed : ℕ) (s : State)
    → IsConsistent s
    → IsConsistent (observe t method route status_code elapsed s)
unfolding observe
observe-IsConsistent t method route status_code elapsed s h j =
    let k : Key = record {
      method = method;
      route = route;
      status_class = t.class_name (status_code / 100);
    } in
    let d = get_or (find_key k s.durations) no_durations in
    let r = find_key-put_key k j (get_or (find_key k s.requests) 0 + 1) s.requests in
    let u = find_key-put_key k j (add_duration elapsed d) s.durations in
    elim (Bool-cases (same_key k j)) [
      | inl e ↦
          let n = add_duration-count_of elapsed (find_key k s.durations) in
          let p = (h k).0 in
          rw (r, u, e)
            (omega (arith, n, p), add_duration-IsHistogram elapsed (find_key k s.durations) (h k).1)
      | inr e ↦ rw (r, u, e) (h j)
    ]

finalize-IsConsistent :
    (t : Texts) (now status_code n : ℕ) (o : Option Live) (s : State)
    → IsConsistent s
    → IsConsistent (finalize_call t now status_code n o s)
unfolding finalize_call
finalize-IsConsistent t now status_code n none s h = h
finalize-IsConsistent t now status_code n (some x) s h = elim (Bool-cases x.finished) [
  | inl e ↦ rw e h
  | inr e ↦ rw e (
      observe-IsConsistent t x.request.method (request_route t x.request x.overloaded) status_code
        (now - x.started)
        (record s {
          in_flight = if x.mutation && not x.overloaded then s.in_flight - 1 else s.in_flight;
          live = mark n s.live;
        })
        h)
]

-- In every state of the server, under each method, route and status class: as many durations have been
-- taken as requests were counted, and they form a cumulative histogram, whose bounds rise, whose counts
-- do not fall and whose last count is at most the total.
pub Reach-IsConsistent :
    (t : Texts) (prefixes : List String) (limit : ℕ) (s : State)
    → Reach t prefixes limit s
    → IsConsistent s
unfolding find_key arrive finalize
Reach-IsConsistent t prefixes limit s fresh = λ k. (refl, tt)
Reach-IsConsistent t prefixes limit _ (arrived {s = s} now r h) =
    Reach-IsConsistent t prefixes limit s h
Reach-IsConsistent t prefixes limit _ (ended {s = s} now status_code n h) =
    finalize-IsConsistent t now status_code n (live_at n s.live) s
      (Reach-IsConsistent t prefixes limit s h)
