-- ===== src/Batch/Polling.antt =====
-- When public/bulkProgress.js stops to ask for the sessions of a batch.
use qase.Common.{
  ℕ, suc, ◌≤◌, String, true, false, Option, none, some, List, [], ◌∷◌, ◌==◌, ◌⊎◌, ◌<◌, ◌≡◌, refl,
  arith, contains, Dict, get, Bool-cases, inl, inr, eq_iff, ap, ◌∙◌, Bool, leb, ltb, length, All,
}
use qase.Batch.{
  Session, Batch, Counts, no_counts, status_of, add_passed, add_failed, add_running, add_pending,
  add_done, add_session, add_all, aggregate_batch,
}
use qase.Batch.Tracker.{Tracker, is_finished, paint, poll, track, polls}

-- A session that is not listed, or listed under a status that the loop does not know.
abbrev pub IsLeft : (String → String) → Dict Session → String → Type 0
IsLeft lower m id =
    (get id m ≡ none)
    ⊎ ((s : Session) × (get id m ≡ some s)
        × ((status_of lower s ≡ "error") ⊎ (status_of lower s ≡ "cancelled")))

-- A request fails, or its answer leaves the session.
abbrev pub LeavesOut : (String → String) → String → Option (Dict Session) → Type 0
LeavesOut lower id none = Unit
LeavesOut lower id (some m) = IsLeft lower m id

add_done-pending : (s : Session) (c : Counts) → (add_done s c).pending ≡ c.pending
unfolding add_done add_passed add_failed
add_done-pending s c = ground arith

add_session-pending :
    (lower : String → String) (o : Option Session) (c : Counts)
    → c.pending ≤ (add_session lower o c).pending
unfolding add_session add_running add_failed add_pending
add_session-pending lower none c = omega arith
add_session-pending lower (some s) c = ground (arith, add_done-pending s c)

add_all-pending :
    (lower : String → String) (m : Dict Session) (ids : List String) (c : Counts)
    → c.pending ≤ (add_all lower m ids c).pending
unfolding add_all
add_all-pending lower m [] c = omega arith
add_all-pending lower m (id ∷ ids) c = omega (
  arith,
  add_session-pending lower (get id m) c,
  add_all-pending lower m ids (add_session lower (get id m) c),
)

left_is_pending :
    (lower : String → String) (m : Dict Session) (id : String) (c : Counts)
    → IsLeft lower m id
    → (add_session lower (get id m) c).pending ≡ suc c.pending
unfolding add_session add_pending contains
left_is_pending lower m id c (inl e) = rw e (omega arith)
left_is_pending lower m id c (inr (s, e, inl f)) = rw (e, f) (omega arith)
left_is_pending lower m id c (inr (s, e, inr f)) = rw (e, f) (omega arith)

pending_left :
    (lower : String → String) (m : Dict Session) (ids : List String) (id : String) (c : Counts)
    → contains id ids ≡ true
    → IsLeft lower m id
    → 0 < (add_all lower m ids c).pending
unfolding add_all contains
pending_left lower m [] id c h l = cc
pending_left lower m (j ∷ ids) id c h l = elim (Bool-cases (j == id)) [
  | inl d ↦
      let n = left_is_pending lower m id c l in
      let e = ap (λ i. (add_session lower (get i m) c).pending) ((eq_iff j id).0 d) in
      let k = add_all-pending lower m ids (add_session lower (get j m) c) in omega (arith, e, n, k)
  | inr d ↦ pending_left lower m ids id (add_session lower (get j m) c) (rw d at h) l
]

left_not_finished :
    (lower : String → String) (round : ℕ → ℕ → ℕ) (b : Batch) (m : Dict Session) (id : String)
    → contains id b.session_ids ≡ true
    → IsLeft lower m id
    → is_finished (aggregate_batch lower round b m) ≡ false
unfolding aggregate_batch
left_not_finished lower round b m id h l =
    let n = pending_left lower m b.session_ids id no_counts h l in ground (arith, n)

abbrev pub following : Batch → Tracker
following b = record { current = some b; polling = true }

poll_left :
    (lower : String → String) (round : ℕ → ℕ → ℕ) (has_block : Bool) (b : Batch) (id : String)
    (answer : Option (Dict Session))
    → contains id b.session_ids ≡ true
    → LeavesOut lower id answer
    → poll lower round has_block answer (following b) ≡ following b
unfolding poll paint
poll_left lower round has_block b id none h l = refl
poll_left lower round has_block b id (some m) h l =
    let n = left_not_finished lower round b m id h l in
    elim (Bool-cases has_block) [
      | inr e ↦ rw e refl
      | inl e ↦ elim (Bool-cases (leb (length b.session_ids) 1)) [
        | inl k ↦ rw (e, k) refl
        | inr k ↦ rw (e, k, n) refl
      ]
    ]

polls_left :
    (lower : String → String) (round : ℕ → ℕ → ℕ) (has_block : Bool) (b : Batch) (id : String)
    (answers : List (Option (Dict Session)))
    → contains id b.session_ids ≡ true
    → All (LeavesOut lower id) answers
    → polls lower round has_block answers (following b) ≡ following b
unfolding polls
polls_left lower round has_block b id [] h l = refl
polls_left lower round has_block b id (a ∷ answers) h (l, ls) =
    ap (polls lower round has_block answers) (poll_left lower round has_block b id a h l)
    ∙ polls_left lower round has_block b id answers h ls

-- A batch of two sessions or more is asked for without end where one of them is listed as `error` or `cancelled`, or
-- is not listed: the timer is set by `track`, whatever was followed before, and is still set after any number of
-- polls of which each fails or leaves that session so, whatever the other sessions do.
pub left_never_stops :
    (lower : String → String) (round : ℕ → ℕ → ℕ) (has_block : Bool) (b : Batch) (t : Tracker)
    (id : String) (answers : List (Option (Dict Session)))
    → 1 < length b.session_ids
    → contains id b.session_ids ≡ true
    → All (LeavesOut lower id) answers
    → polls lower round has_block answers (track b t) ≡ record { current = some b; polling = true }
unfolding track
left_never_stops lower round has_block b t id answers n h l =
    let k : ltb 1 (length b.session_ids) ≡ true = ground (arith, n) in
    rw k (polls_left lower round has_block b id answers h l)
