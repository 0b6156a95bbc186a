-- ===== src/Matrix/Drain/Admission.antt =====
-- The admission gate of server/matrixOrchestrator.js keeps its budget and serves in order.
use qase.Common.{ℕ, ◌+◌, ◌≤◌, ◌≡◌, refl, true, List, [], ◌∷◌, arith, length, ◌⊎◌, inl}
use qase.Matrix.Drain.{
  Gate, closed, acquire_slot, release_slot, leave, holds, asks, releases, Reach, here, next,
}

pub record IsSound (budget : ℕ) (g : Gate) : Type 0 where
  pub exact : g.slots_used ≡ length g.holders
  pub within : g.slots_used ≤ budget
  pub full : (g.wait_queue ≡ []) ⊎ (g.slots_used ≡ budget)

length-leave : (w : ℕ) (xs : List ℕ) → holds w xs ≡ true → length (leave w xs) + 1 ≡ length xs
unfolding leave
length-leave w [] h = cc
length-leave w (x ∷ xs) h = ground (arith, length-leave w xs)

pub acquire_slot-IsSound :
    (budget w : ℕ) (g : Gate) → IsSound budget g → IsSound budget (acquire_slot budget w g)
unfolding acquire_slot
acquire_slot-IsSound budget w g s = ground arith

pub release_slot-IsSound :
    (budget w : ℕ) (g : Gate)
    → holds w g.holders ≡ true
    → IsSound budget g
    → IsSound budget (release_slot w g)
unfolding release_slot
release_slot-IsSound budget w g h s = ground (arith, length-leave w g.holders h)

-- In every state that the workers of all runs can reach together: the counter is the number of
-- workers that hold a slot, it never passes the budget, and a worker waits only while every slot is
-- taken.
pub Reach-IsSound : {budget : ℕ} {g : Gate} → Reach budget closed g → IsSound budget g
Reach-IsSound here = record { exact = refl; within = omega arith; full = inl refl }
Reach-IsSound (next r (asks w h)) = acquire_slot-IsSound _ w h (Reach-IsSound r)
Reach-IsSound (next r (releases w h e)) = release_slot-IsSound _ w h e (Reach-IsSound r)

-- A release by a worker that holds a slot, while others wait, leaves no slot idle: the worker that
-- has waited longest gets it, the others keep their order, and the counter stays.
pub release_slot_hands_over :
    (w first : ℕ) (rest : List ℕ) (g : Gate)
    → holds w g.holders ≡ true
    → g.wait_queue ≡ first ∷ rest
    → let g' = release_slot w g in
      (holds first g'.holders ≡ true)
      × (g'.wait_queue ≡ rest)
      × (g'.slots_used ≡ g.slots_used)
      × (length g'.holders ≡ length g.holders)
unfolding release_slot
release_slot_hands_over w first rest g h e = ground (arith, length-leave w g.holders h)
