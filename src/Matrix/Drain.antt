-- ===== src/Matrix/Drain.antt =====
-- `drainQueued` of server/matrixOrchestrator.js: the claim of a queued item, and the admission gate
-- that all runs of the process share. A worker is known by a number. `holders` is not a variable of
-- the program: it records who was let in and has not released yet.
pub mod Claim
pub mod Admission
use qase.Common.{
  ℕ, suc, ◌+◌, ◌-◌, String, Bool, true, false, Option, none, some, List, [], ◌∷◌, ◌++◌, ltb, eqb,
  ◌&&◌, not, if◌then◌else◌, contains, ◌≡◌,
}
use qase.Matrix.Item.{Item}
use qase.Matrix.Lifecycle.{is_queued}

-- `items.find((item) => item.status === 'QUEUED' && !claimed.has(item.id))`
unfoldable pub find_claimable : List String → List Item → Option Item
find_claimable claimed [] = none
find_claimable claimed (i ∷ is) =
    if is_queued i && not (contains i.id claimed) then some i else find_claimable claimed is

-- `claim`: the item, and the ids that are claimed afterwards.
unfoldable pub claim : List String → List Item → Option Item × List String
claim claimed items = elim (find_claimable claimed items) [
  | none ↦ (none, claimed)
  | some i ↦ (some i, i.id ∷ claimed)
]

pub record Gate : Type 0 where
  pub slots_used : ℕ
  pub wait_queue : List ℕ
  pub holders : List ℕ

abbrev pub closed : Gate
closed = record { slots_used = 0; wait_queue = []; holders = [] }

-- `acquireSlot` by a worker, with the budget MAX_IN_FLIGHT.
unfoldable pub acquire_slot : ℕ → ℕ → Gate → Gate
acquire_slot budget w g =
    if ltb g.slots_used budget
    then record g { slots_used = g.slots_used + 1; holders = w ∷ g.holders }
    else record g { wait_queue = g.wait_queue ++ w ∷ [] }

-- The first occurrence of a worker is taken off a list.
unfoldable pub leave : ℕ → List ℕ → List ℕ
leave w [] = []
leave w (x ∷ xs) = if eqb x w then xs else x ∷ leave w xs

-- `releaseSlot` by a worker: the slot passes to the oldest waiter, if there is one.
unfoldable pub release_slot : ℕ → Gate → Gate
release_slot w g = elim g.wait_queue [
  | [] ↦ record g { slots_used = g.slots_used - 1; holders = leave w g.holders }
  | next ∷ rest ↦ record g { wait_queue = rest; holders = next ∷ leave w g.holders }
]

abbrev pub holds : ℕ → List ℕ → Bool
holds w [] = false
holds w (x ∷ xs) = if eqb x w then true else holds w xs

-- The gate in use: any worker may ask at any time, and one that holds a slot may release it.
pub data Step (budget : ℕ) : Gate → Gate → Type 0 where
  asks : (w : ℕ) (g : Gate) → Step budget g (acquire_slot budget w g)
  releases : (w : ℕ) (g : Gate) → holds w g.holders ≡ true → Step budget g (release_slot w g)

pub data Reach (budget : ℕ) (g : Gate) : Gate → Type 0 where
  here : Reach budget g g
  next : {h k : Gate} → Reach budget g h → Step budget h k → Reach budget g k
