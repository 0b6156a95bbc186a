-- ===== src/Budget/Bound.antt =====
-- What the guards of server/sqaBrowserBudget.js and server/securityPayloadBudget.js bound, on the activity feed of
-- server/store.js, which drops its oldest entries.
use qase.Common.{
  ℕ, zero, suc, ◌+◌, ◌-◌, ◌≤◌, String, Bool, false, not, some, List, [], ◌∷◌, ◌++◌, ◌&&◌, All, ◌⊎◌,
  ◌≡◌, refl, arith, leb, count, count-append, length, length-append, map, max, inl, inr, Bool-cases,
  if◌then◌else◌,
}
use qase.Store.Feed.{
  feed_cap, drop, add_activity, add_activities, trim_feed_short, add_activities_past,
}
use qase.Budget.{Activity, named, count_activities, Reply, runs, exhausted, guard_run}

-- A call of a tool that has ended: it leaves an activity, whatever the guard answered.
abbrev pub ended : String → Activity
ended n = record { tool_name = some n; running = false }

abbrev is_run : Reply → ℕ
is_run runs = 1
is_run (exhausted used limit) = 0

-- How many calls of counted tools run, of a sequence in which each call ends before the next one begins.
pub executed : (String → Bool) → ℕ → List String → List Activity → ℕ
executed counts limit [] acts = 0
executed counts limit (n ∷ ns) acts =
    (if counts n then is_run (guard_run counts limit acts) else 0)
    + executed counts limit ns (add_activity (ended n) acts)

count_activities-ended :
    (counts : String → Bool) (n : String) (acts : List Activity)
    → suc (length acts) ≤ feed_cap
    → (length (add_activity (ended n) acts) ≡ suc (length acts))
      × (count_activities counts (add_activity (ended n) acts)
          ≡ (if counts n then 1 else 0) + count_activities counts acts)
unfolding count_activities count add_activity
count_activities-ended counts n acts h =
    let l = length-append acts (ended n ∷ []) in
    let a = count-append (λ x. named counts x.tool_name && not x.running) acts (ended n ∷ []) in
    let t = trim_feed_short (acts ++ ended n ∷ []) (omega (arith, l)) in
    (rw t (omega (arith, l)), rw t (ground (arith, a)))

guard_run-cases :
    (counts : String → Bool) (limit : ℕ) (acts : List Activity)
    → ((is_run (guard_run counts limit acts) ≡ 0) × (limit ≤ count_activities counts acts))
      ⊎ ((is_run (guard_run counts limit acts) ≡ 1) × (suc (count_activities counts acts) ≤ limit))
unfolding guard_run
guard_run-cases counts limit acts = elim (Bool-cases (leb limit (count_activities counts acts))) [
  | inl e ↦ inl (rw e refl, ground arith)
  | inr e ↦ inr (rw e refl, ground arith)
]

executed-bound :
    (counts : String → Bool) (limit : ℕ) (ns : List String) (acts : List Activity)
    → length acts + length ns ≤ feed_cap
    → executed counts limit ns acts + count_activities counts acts
      ≤ max limit (count_activities counts acts)
unfolding executed
executed-bound counts limit [] acts h = omega arith
executed-bound counts limit (n ∷ ns) acts h =
    let (l, c) = count_activities-ended counts n acts (omega (arith, h)) in
    let i = executed-bound counts limit ns (add_activity (ended n) acts) (omega (arith, h, l)) in
    elim (Bool-cases (counts n)) [
      | inl e ↦ elim (guard_run-cases counts limit acts) [
        | inl (r, b) ↦ rw e (omega (arith, r, b, i, rw e at c))
        | inr (r, b) ↦ rw e (omega (arith, r, b, i, rw e at c))
      ]
      | inr e ↦ rw e (omega (arith, i, rw e at c))
    ]

-- Of any sequence of at most 500 calls of tools, in a session that begins without activities and where each
-- call has ended before the next one begins, at most as many calls of counted tools run as the limit says.
pub executed_within :
    (counts : String → Bool) (limit : ℕ) (ns : List String)
    → length ns ≤ feed_cap
    → executed counts limit ns [] ≤ limit
unfolding count_activities count
executed_within counts limit ns h =
    let i = executed-bound counts limit ns [] (omega (arith, h)) in omega (arith, i)

count-none :
    (counts : String → Bool) (ns : List String)
    → All (λ t. counts t ≡ false) ns
    → count_activities counts (map ended ns) ≡ 0
unfolding count_activities count
count-none counts [] h = refl
count-none counts (x ∷ ns) (e, h) = rw e (count-none counts ns h)

count-drop_none :
    (counts : String → Bool) (n : ℕ) (ns : List String)
    → All (λ t. counts t ≡ false) ns
    → count_activities counts (drop n (map ended ns)) ≡ 0
unfolding count_activities count drop
count-drop_none counts n [] h = refl
count-drop_none counts zero (x ∷ ns) h = count-none counts (x ∷ ns) h
count-drop_none counts (suc n) (x ∷ ns) (e, h) = count-drop_none counts n ns h

length-map : (ns : List String) → length (map ended ns) ≡ length ns
length-map [] = refl
length-map (n ∷ ns) = omega (arith, length-map ns)

-- After 500 calls of tools that are not counted, the guard lets a counted tool run again, whatever the session has
-- run before: the entries that it counted have left the feed.
pub guard_run-forgets :
    (counts : String → Bool) (limit : ℕ) (ns : List String) (acts : List Activity)
    → length acts ≤ feed_cap
    → 1 ≤ limit
    → All (λ t. counts t ≡ false) ns
    → feed_cap ≤ length ns
    → guard_run counts limit (add_activities (map ended ns) acts) ≡ runs
unfolding guard_run
guard_run-forgets counts limit ns acts f h u l =
    let z = add_activities_past (map ended ns) acts f (omega (arith, length-map ns, l)) in
    let c = count-drop_none counts (length (map ended ns) - feed_cap) ns u in
    rw z (rw c (ground arith))
