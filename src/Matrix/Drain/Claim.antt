-- ===== src/Matrix/Drain/Claim.antt =====
-- The claim of a queued item in `drainQueued` of server/matrixOrchestrator.js.
use qase.Common.{
  String, true, false, Option, none, some, List, [], ◌∷◌, ◌≡◌, refl, arith, All, contains, ◌&&◌,
  not, Bool-cases, Option-cases, inl, inr, eq_iff, subst, some_inj, ap,
}
use qase.Matrix.Item.{Item}
use qase.Matrix.Lifecycle.{is_queued}
use qase.Matrix.Drain.{find_claimable, claim}

find_claimable_lem :
    (claimed : List String) (is : List Item) {i : Item}
    → find_claimable claimed is ≡ some i
    → (is_queued i ≡ true) × (contains i.id claimed ≡ false)
unfolding find_claimable
find_claimable_lem claimed [] h = cc
find_claimable_lem claimed (x ∷ xs) h =
    elim (Bool-cases (is_queued x && not (contains x.id claimed))) [
      | inl e ↦
          subst (λ i. (is_queued i ≡ true) × (contains i.id claimed ≡ false)) (some_inj (rw e at h))
            (ground arith, ground arith)
      | inr e ↦ find_claimable_lem claimed xs (rw e at h)
    ]

find_claimable-none :
    (claimed : List String) (is : List Item)
    → find_claimable claimed is ≡ none
    → All (λ (i : Item). (is_queued i && not (contains i.id claimed)) ≡ false) is
unfolding find_claimable
find_claimable-none claimed [] h = tt
find_claimable-none claimed (x ∷ xs) h =
    elim (Bool-cases (is_queued x && not (contains x.id claimed))) [
      | inl e ↦ cc (rw e at h)
      | inr e ↦ (e, find_claimable-none claimed xs (rw e at h))
    ]

-- What one claim may do: take a queued item that was not claimed before and note it, or find none.
pub data Claimed (claimed : List String) (is : List Item) : Option Item × List String → Type 0 where
  took :
      (i : Item)
      → is_queued i ≡ true
      → contains i.id claimed ≡ false
      → Claimed claimed is (some i, i.id ∷ claimed)
  nothing_left :
      All (λ (i : Item). (is_queued i && not (contains i.id claimed)) ≡ false) is
      → Claimed claimed is (none, claimed)

-- A claim takes a QUEUED item that this drain has not claimed before, and gives up only if the run
-- has no such item.
pub claim-Claimed : (claimed : List String) (is : List Item) → Claimed claimed is (claim claimed is)
unfolding claim
claim-Claimed claimed is = elim (Option-cases (find_claimable claimed is)) [
  | inl e ↦ rw (e, claim) (nothing_left (find_claimable-none claimed is e))
  | inr (i, e) ↦
      let facts = find_claimable_lem claimed is e in rw (e, claim) (took i facts.0 facts.1)
]

-- The ids that one drain claims, when it sees the items as they stand at each claim.
pub claim_each : List String → List (List Item) → List String
claim_each claimed [] = []
claim_each claimed (is ∷ rest) = elim (find_claimable claimed is) [
  | none ↦ claim_each claimed rest
  | some i ↦ i.id ∷ claim_each (i.id ∷ claimed) rest
]

-- An id that the drain has claimed is never claimed again by it, whatever is written to the items
-- in between: an item that is queued again by a retry waits for another drain.
pub claim_each_once :
    (k : String) (claimed : List String) (seen : List (List Item))
    → contains k claimed ≡ true
    → contains k (claim_each claimed seen) ≡ false
unfolding claim_each contains
claim_each_once k claimed [] h = refl
claim_each_once k claimed (is ∷ rest) h = elim (Option-cases (find_claimable claimed is)) [
  | inl e ↦ rw (e, claim_each) (claim_each_once k claimed rest h)
  | inr (i, e) ↦
      let fresh = (find_claimable_lem claimed is e).1 in
      let later = claim_each_once k (i.id ∷ claimed) rest (ground arith) in
      rw (e, claim_each) (ground (arith, eq_iff i.id k, fresh, later, ap (λ j. contains j claimed)))
]
