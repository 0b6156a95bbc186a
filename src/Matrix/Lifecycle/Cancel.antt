-- ===== src/Matrix/Lifecycle/Cancel.antt =====
-- `cancel` of server/matrixService.js.
use qase.Common.{
  ℕ, ◌+◌, String, some, List, [], ◌∷◌, ◌≡◌, refl, arith, ap, count, Bool-cases, ◌∙◌, inl, inr,
}
use qase.Matrix.Item.{Item, Run, RunStatus, Patch, Status, no_change, apply, replace_item}
use qase.Matrix.Bulk.{replace_each, patch_matching, Unique, replace_each-patch_matching}
use qase.Matrix.Lifecycle.{is_waiting, cancel, cancel_loop}

abbrev pub cancel_patch : String → String → Patch
cancel_patch reason now = record no_change {
  status = some Status.cancelled;
  reason = some (some reason);
  finished_at = some (some now);
}

cancel_loop-replace_each :
    (p : Patch) (is : List Item) (r : Run) (n : ℕ)
    → cancel_loop p is (r, n)
      ≡ (record r { items = replace_each is_waiting p is r.items }, n + count is_waiting is)
unfolding cancel_loop replace_each count
cancel_loop-replace_each p [] r n = ground arith
cancel_loop-replace_each p (x ∷ xs) r n = elim (Bool-cases (is_waiting x)) [
  | inl e ↦ rw e (
      cancel_loop-replace_each p xs (record r { items = replace_item x.id p r.items }) (n + 1)
      ∙ ap
          (λ m.
            (record r { items = replace_each is_waiting p xs (replace_item x.id p r.items) }, m))
          (omega arith))
  | inr e ↦ rw e (cancel_loop-replace_each p xs r n)
]

nothing_waiting :
    (reason now : String) (is : List Item)
    → count is_waiting (patch_matching is_waiting (cancel_patch reason now) is) ≡ 0
unfolding count patch_matching apply
nothing_waiting reason now [] = refl
nothing_waiting reason now (x ∷ xs) = elim (Bool-cases (is_waiting x)) [
  | inl e ↦ rw e (nothing_waiting reason now xs)
  | inr e ↦ rw e (rw e (nothing_waiting reason now xs))
]

-- Cancelling a run whose items have distinct ids cancels exactly its QUEUED and PENDING items and
-- counts them; every other item keeps its outcome, no item is left waiting, and the run is
-- cancelled with the reason.
pub cancel_lem :
    (reason now : String) (r : Run)
    → Unique r.items
    → let (r', n) = cancel reason now r in
      (r'.items ≡ patch_matching is_waiting (cancel_patch reason now) r.items)
      × (n ≡ count is_waiting r.items)
      × (count is_waiting r'.items ≡ 0)
      × (r'.status ≡ RunStatus.cancelled)
      × (r'.cancel_reason ≡ some reason)
unfolding cancel
cancel_lem reason now r u =
    rw
      (
        cancel_loop-replace_each (cancel_patch reason now) r.items r 0,
        replace_each-patch_matching is_waiting (cancel_patch reason now) r.items u,
      )
      (refl, omega arith, nothing_waiting reason now r.items, refl, refl)
