-- ===== src/Batch/Totals.antt =====
-- The counts of a batch in public/bulkProgress.js, and the rows shown beside them.
use qase.Common.{
  ℕ, suc, ◌+◌, String, Bool, true, false, Option, none, some, List, [], ◌∷◌, ◌≡◌, refl, arith,
  length, map, count, Dict, get, Bool-cases, inl, inr,
}
use qase.Batch.{
  Session, Batch, Counts, no_counts, add_passed, add_failed, add_running, add_pending, add_done,
  add_session, add_all, aggregate_batch, State, state_of, batch_row, batch_rows,
}

abbrev sum : Counts → ℕ
sum c = c.passed + c.failed + c.running + c.pending

-- One more session in the state it is shown with.
bump : State → Counts → Counts
unfolding add_passed add_failed add_running add_pending
bump State.passed c = add_passed c
bump State.failed c = add_failed c
bump State.running c = add_running c
bump State.pending c = add_pending c

add_done-bump : (s : Session) (c : Counts) → add_done s c ≡ bump (state_of (add_done s no_counts)) c
unfolding add_done bump state_of add_passed add_failed
add_done-bump s c = ground arith

-- A session counts in the state of its row.
add_session-bump :
    (lower : String → String) (s : Option Session) (c : Counts)
    → add_session lower s c ≡ bump (state_of (add_session lower s no_counts)) c
unfolding add_session bump state_of add_running add_failed add_pending
add_session-bump lower none c = refl
add_session-bump lower (some s) c = ground (arith, add_done-bump s c)

abbrev pub is_state : State → State → Bool
is_state State.failed State.failed = true
is_state State.passed State.passed = true
is_state State.running State.running = true
is_state State.pending State.pending = true
is_state _ _ = false

-- How many rows are shown in a state.
abbrev pub rows_in : (String → String) → Batch → Dict Session → State → ℕ
rows_in lower b m st = count (λ r. is_state st r.state) (batch_rows lower b m)

-- The count of a state.
abbrev pub count_of : State → Counts → ℕ
count_of State.failed c = c.failed
count_of State.passed c = c.passed
count_of State.running c = c.running
count_of State.pending c = c.pending

abbrev one_if : Bool → ℕ
one_if true = 1
one_if false = 0

count_of-bump :
    (st su : State) (c : Counts) → count_of st (bump su c) ≡ count_of st c + one_if (is_state st su)
unfolding bump add_passed add_failed add_running add_pending
count_of-bump State.failed State.failed c = omega arith
count_of-bump State.failed State.passed c = omega arith
count_of-bump State.failed State.running c = omega arith
count_of-bump State.failed State.pending c = omega arith
count_of-bump State.passed State.failed c = omega arith
count_of-bump State.passed State.passed c = omega arith
count_of-bump State.passed State.running c = omega arith
count_of-bump State.passed State.pending c = omega arith
count_of-bump State.running State.failed c = omega arith
count_of-bump State.running State.passed c = omega arith
count_of-bump State.running State.running c = omega arith
count_of-bump State.running State.pending c = omega arith
count_of-bump State.pending State.failed c = omega arith
count_of-bump State.pending State.passed c = omega arith
count_of-bump State.pending State.running c = omega arith
count_of-bump State.pending State.pending c = omega arith

count_of-add_session :
    (lower : String → String) (s : Option Session) (st : State) (c : Counts)
    → count_of st (add_session lower s c)
      ≡ count_of st c + one_if (is_state st (state_of (add_session lower s no_counts)))
count_of-add_session lower s st c =
    rw (add_session-bump lower s c) (count_of-bump st (state_of (add_session lower s no_counts)) c)

count_of-add_all :
    (lower : String → String) (b : Batch) (m : Dict Session) (st : State) (ids : List String)
    (c : Counts)
    → count_of st (add_all lower m ids c)
      ≡ count_of st c + count (λ r. is_state st r.state) (map (batch_row lower b m) ids)
unfolding add_all batch_row count
count_of-add_all lower b m st [] c = omega arith
count_of-add_all lower b m st (id ∷ ids) c =
    let h = count_of-add_all lower b m st ids (add_session lower (get id m) c) in
    let k = count_of-add_session lower (get id m) st c in
    elim (Bool-cases (is_state st (state_of (add_session lower (get id m) no_counts)))) [
      | inl e ↦ rw e (omega (arith, h, rw e at k))
      | inr e ↦ rw e (omega (arith, h, rw e at k))
    ]

sum-bump : (st : State) (c : Counts) → sum (bump st c) ≡ suc (sum c)
unfolding bump add_passed add_failed add_running add_pending
sum-bump State.failed c = omega arith
sum-bump State.passed c = omega arith
sum-bump State.running c = omega arith
sum-bump State.pending c = omega arith

sum-add_all :
    (lower : String → String) (m : Dict Session) (ids : List String) (c : Counts)
    → sum (add_all lower m ids c) ≡ length ids + sum c
unfolding add_all
sum-add_all lower m [] c = omega arith
sum-add_all lower m (id ∷ ids) c =
    let s = get id m in
    let h = sum-add_all lower m ids (add_session lower s c) in
    let k : sum (add_session lower s c) ≡ suc (sum c) =
      rw (add_session-bump lower s c) (sum-bump (state_of (add_session lower s no_counts)) c) in
    omega (arith, h, k)

count_of-no_counts : (st : State) → count_of st no_counts ≡ 0
count_of-no_counts State.failed = refl
count_of-no_counts State.passed = refl
count_of-no_counts State.running = refl
count_of-no_counts State.pending = refl

-- The counts of a batch are the numbers of its rows in each state, and they add up to the number of
-- its sessions: no session is counted twice and none is left out.
pub aggregate_batch-rows :
    (lower : String → String) (round : ℕ → ℕ → ℕ) (b : Batch) (m : Dict Session)
    → let p = aggregate_batch lower round b m in
      (p.counts.passed ≡ rows_in lower b m State.passed)
      × (p.counts.failed ≡ rows_in lower b m State.failed)
      × (p.counts.running ≡ rows_in lower b m State.running)
      × (p.counts.pending ≡ rows_in lower b m State.pending)
      × (p.completed + p.counts.running + p.counts.pending ≡ p.total)
unfolding aggregate_batch batch_rows
aggregate_batch-rows lower round b m =
    let at : (st : State)
        → count_of st (add_all lower m b.session_ids no_counts) ≡ rows_in lower b m st =
      λ st.
        omega
          (arith, count_of-add_all lower b m st b.session_ids no_counts, count_of-no_counts st) in
    (
      at State.passed,
      at State.failed,
      at State.running,
      at State.pending,
      omega (arith, sum-add_all lower m b.session_ids no_counts),
    )
