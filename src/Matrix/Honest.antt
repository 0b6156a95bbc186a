-- ===== src/Matrix/Honest.antt =====
-- server/matrixService.js `updateItem`: no executed outcome without an execution behind it.
use qase.Common.{
  String, true, false, Option, none, some, List, [], ◌∷◌, ◌≡◌, ◌==◌, ◌⊎◌, inl, inr, arith, All,
  Bool-cases, Option-cases, subst,
}
use qase.Common.Result.{ok}
use qase.Matrix.Item.{
  Item, Run, Patch, Status, is_executed, truthy, apply, find_item, replace_item, update_item,
  guard_patch,
}

-- A PASSED or FAILED item has the session that executed it.
abbrev pub IsHonest : Item → Type 0
IsHonest i = is_executed i.status ≡ true → truthy i.session_id ≡ true

-- The patch does not take the session away from an item that it leaves PASSED or FAILED.
abbrev pub KeepsSession : Patch → Type 0
KeepsSession p =
    (p.session_id ≡ none)
    ⊎ ((s : Option String) × (p.session_id ≡ some s) × (truthy s ≡ true))
    ⊎ ((s : Status) × (p.status ≡ some s) × (is_executed s ≡ false))

guard-IsHonest :
    (p : Patch) (i : Item)
    → guard_patch p i ≡ ok tt
    → KeepsSession p
    → IsHonest i
    → IsHonest (apply p i)
unfolding guard_patch apply
guard-IsHonest p i g k h = ground arith

replace-IsHonest :
    (k : String) (p : Patch) (is : List Item) {i : Item}
    → find_item k is ≡ some i
    → IsHonest (apply p i)
    → All IsHonest is
    → All IsHonest (replace_item k p is)
unfolding find_item replace_item
replace-IsHonest k p [] f a h = tt
replace-IsHonest k p (x ∷ xs) {i} f a h = elim (Bool-cases (x.id == k)) [
  | inl e ↦ rw e (subst (λ j. IsHonest (apply p j)) (ground arith) a, h.1)
  | inr e ↦ rw e (h.0, replace-IsHonest k p xs (rw e at f) a h.1)
]

find-IsHonest :
    (k : String) (is : List Item) {i : Item}
    → find_item k is ≡ some i
    → All IsHonest is
    → IsHonest i
unfolding find_item
find-IsHonest k [] f h = cc
find-IsHonest k (x ∷ xs) {i} f h = elim (Bool-cases (x.id == k)) [
  | inl e ↦ subst IsHonest {x = x} {y = i} (ground arith) h.0
  | inr e ↦ find-IsHonest k xs (rw e at f) h.1
]

-- A write that succeeds found its item and passed the guard.
pub update_item-eq-ok :
    (r : Run) (k : String) (p : Patch) {r' : Run}
    → update_item r k p ≡ ok r'
    → (i : Item) × (find_item k r.items ≡ some i)
      × (guard_patch p i ≡ ok tt)
      × (r'.items ≡ replace_item k p r.items)
unfolding update_item guard_patch
update_item-eq-ok r k p h = elim (Option-cases (find_item k r.items)) [
  | inl e ↦ ground (arith, e)
  | inr (i, e) ↦ (i, e, ground arith, ground arith)
]

-- The guarded write keeps every PASSED or FAILED item of the run tied to a session, whatever it
-- writes, if the patch does not itself remove the session of such an item.
pub update_item-IsHonest :
    (r : Run) (k : String) (p : Patch) {r' : Run}
    → update_item r k p ≡ ok r'
    → KeepsSession p
    → All IsHonest r.items
    → All IsHonest r'.items
update_item-IsHonest r k p h s a =
    let (i, found, passed, e) = update_item-eq-ok r k p h in
    rw e (
      replace-IsHonest k p r.items found
        (guard-IsHonest p i passed s (find-IsHonest k r.items found a)) a)
