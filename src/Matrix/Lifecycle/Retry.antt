-- ===== src/Matrix/Lifecycle/Retry.antt =====
-- `retryItem` of server/matrixOrchestrator.js.
use qase.Common.{◌<◌, String, Bool, true, some, ◌≡◌, inl, inr, arith, Option-cases}
use qase.Common.Result.{ok}
use qase.Matrix.Item.{Item, Run, apply, find_item, replace_item, update_item, guard_patch}
use qase.Matrix.Bulk.{find_item-replace_item_self}
use qase.Matrix.Lifecycle.{retry_item, retry_patch, is_retryable, max_item_retries}

-- A retry that is accepted: the item had a retryable outcome and retries left; afterwards it is
-- queued with its outcome cleared and one retry fewer, and only that item was written.
pub retry_item_accepted :
    (live : Bool) (r : Run) (k : String) {r' : Run} {kick : Bool}
    → retry_item live r k ≡ ok (r', kick)
    → (i : Item) × (find_item k r.items ≡ some i)
      × (is_retryable i.status ≡ true)
      × (i.retry_count < max_item_retries)
      × (r'.items ≡ replace_item k (retry_patch i.retry_count) r.items)
      × (find_item k r'.items ≡ some (apply (retry_patch i.retry_count) i))
unfolding retry_item update_item guard_patch
retry_item_accepted live r k {r'} h = elim (Option-cases (find_item k r.items)) [
  | inl e ↦ ground (arith, e)
  | inr (i, e) ↦
      let e' : r'.items ≡ replace_item k (retry_patch i.retry_count) r.items = ground arith in
      let same = find_item-replace_item_self k (retry_patch i.retry_count) r.items e in
      (i, e, ground arith, ground arith, e', rw e' same)
]
