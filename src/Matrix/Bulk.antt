-- ===== src/Matrix/Bulk.antt =====
-- The loops of server/matrixService.js and server/matrixOrchestrator.js that write one patch to
-- every item of a run that passes a test, item by item through `updateItem`.
use qase.Common.{
  String, Bool, true, false, none, some, List, [], ◌∷◌, ◌≡◌, refl, ◌==◌, arith, All, if◌then◌else◌,
  map, ◌∙◌, Option-cases, subst, sym, some_inj, eq_iff, Bool-cases, is_some, ◌⊎◌, inl, inr, ap, ◌∙◌,
  Option-cases, subst, sym, some_inj,
}
use text.Mathlib.TextPositions.{eq_refl}
use qase.Common.Result.{Result, ok, ◌>>=◌, Result-cases}
use qase.Matrix.Item.{
  Item, Run, Patch, Status, Error, is_executed, apply, find_item, replace_item, update_item,
  guard_patch,
}

-- `for (const item of snapshot) if (test(item)) await matrix.updateItem(run.id, item.id, patch)`
unfoldable pub patch_each : (Item → Bool) → Patch → List Item → Run → Result Error Run
patch_each test p [] r = ok r
patch_each test p (i ∷ is) r =
    if test i
    then update_item r i.id p >>= (λ r'. patch_each test p is r')
    else patch_each test p is r

-- What the loop means: every item that passes the test is patched.
unfoldable pub patch_matching : (Item → Bool) → Patch → List Item → List Item
patch_matching test p [] = []
patch_matching test p (i ∷ is) = (if test i then apply p i else i) ∷ patch_matching test p is

-- The same where the items were changed by `f` after the snapshot was taken.
unfoldable pub patch_after : (Item → Bool) → Patch → (Item → Item) → List Item → List Item
patch_after test p f [] = []
patch_after test p f (i ∷ is) = (if test i then apply p (f i) else f i) ∷ patch_after test p f is

-- No item of the list has the id.
abbrev pub Fresh : String → List Item → Type 0
Fresh k is = All (λ (j : Item). (k == j.id) ≡ false) is

abbrev pub Unique : List Item → Type 0
Unique [] = Unit
Unique (i ∷ is) = Fresh i.id is × Unique is

-- The patch does not claim an execution.
abbrev pub ClaimsNothing : Patch → Type 0
ClaimsNothing p = (p.status ≡ none) ⊎ ((s : Status) × (p.status ≡ some s) × (is_executed s ≡ false))

guard_patch_ok : (p : Patch) (i : Item) → ClaimsNothing p → guard_patch p i ≡ ok tt
unfolding guard_patch
guard_patch_ok p i h = ground arith

-- The loop on the items alone.
unfoldable pub replace_each : (Item → Bool) → Patch → List Item → List Item → List Item
replace_each test p [] js = js
replace_each test p (i ∷ is) js =
    let js' = (if test i then replace_item i.id p js else js) in replace_each test p is js'

-- An item with another id in front is left alone.
replace_each-cons :
    (test : Item → Bool) (p : Patch) (is : List Item) (j : Item) (js : List Item)
    → Fresh j.id is
    → replace_each test p is (j ∷ js) ≡ j ∷ replace_each test p is js
unfolding replace_each replace_item
replace_each-cons test p [] j js f = refl
replace_each-cons test p (x ∷ xs) j js f = elim (Bool-cases (test x)) [
  | inl e ↦ rw (e, f.0) (replace_each-cons test p xs j (replace_item x.id p js) f.1)
  | inr e ↦ rw e (replace_each-cons test p xs j js f.1)
]

pub id-apply : (p : Patch) (i : Item) → (apply p i).id ≡ i.id
unfolding apply
id-apply p i = refl

find_item_nil : (k : String) → find_item k [] ≡ none
unfolding find_item
find_item_nil k = refl

find_item_hit :
    (k : String) (x : Item) (xs : List Item) → (x.id == k) ≡ true → find_item k (x ∷ xs) ≡ some x
unfolding find_item
find_item_hit k x xs e = rw e

find_item_miss :
    (k : String) (x : Item) (xs : List Item)
    → (x.id == k) ≡ false
    → find_item k (x ∷ xs) ≡ find_item k xs
unfolding find_item
find_item_miss k x xs e = rw e

-- A written item is found again under its id.
pub find_item-replace_item_self :
    (k : String) (p : Patch) (is : List Item) {i : Item}
    → find_item k is ≡ some i
    → find_item k (replace_item k p is) ≡ some (apply p i)
unfolding replace_item
find_item-replace_item_self k p [] h = cc (h, find_item_nil k)
find_item-replace_item_self k p (x ∷ xs) {i} h = elim (Bool-cases (x.id == k)) [
  | inl e ↦ rw e (
      find_item_hit k (apply p x) xs (subst (λ j. (j == k) ≡ true) (sym (id-apply p x)) e)
      ∙ ap (λ j. some (apply p j)) (some_inj (sym (find_item_hit k x xs e) ∙ h)))
  | inr e ↦ rw e (
      find_item_miss k x (replace_item k p xs) e
      ∙ find_item-replace_item_self k p xs (sym (find_item_miss k x xs e) ∙ h))
]

Fresh-of_eq : {j k : String} → j ≡ k → (is : List Item) → Fresh k is → Fresh j is
Fresh-of_eq e is h = subst (λ i. Fresh i is) (sym e) h

pub replace_each-patch_after :
    (test : Item → Bool) (p : Patch) (f : Item → Item) (is : List Item)
    → ((i : Item) → (f i).id ≡ i.id)
    → Unique is
    → replace_each test p is (map f is) ≡ patch_after test p f is
unfolding replace_each replace_item patch_after
replace_each-patch_after test p f [] k u = refl
replace_each-patch_after test p f (x ∷ xs) k u = elim (Bool-cases (test x)) [
  | inl e ↦
      rw (e, (eq_iff (f x).id x.id).1 (k x))
        (replace_each-cons test p xs (apply p (f x)) (map f xs)
            (Fresh-of_eq (id-apply p (f x) ∙ k x) xs u.0)
          ∙ ap (λ l. apply p (f x) ∷ l) (replace_each-patch_after test p f xs k u.1))
  | inr e ↦ rw e (
      replace_each-cons test p xs (f x) (map f xs) (Fresh-of_eq (k x) xs u.0)
      ∙ ap (λ l. f x ∷ l) (replace_each-patch_after test p f xs k u.1))
]

-- Every item of the snapshot is still in the run.
abbrev Present : List Item → List Item → Type 0
Present is js = All (λ (i : Item). is_some (find_item i.id js) ≡ true) is

find_item-replace_item :
    (k j : String) (p : Patch) (js : List Item)
    → is_some (find_item k js) ≡ true
    → is_some (find_item k (replace_item j p js)) ≡ true
unfolding find_item replace_item apply
find_item-replace_item k j p [] h = cc
find_item-replace_item k j p (x ∷ xs) h = ground (arith, find_item-replace_item k j p xs)

Present-replace_item :
    (j : String) (p : Patch) (is js : List Item) → Present is js → Present is (replace_item j p js)
Present-replace_item j p [] js h = tt
Present-replace_item j p (x ∷ xs) js h =
    (find_item-replace_item x.id j p js h.0, Present-replace_item j p xs js h.1)

Present-cons : (is : List Item) (j : Item) (js : List Item) → Present is js → Present is (j ∷ js)
unfolding find_item
Present-cons [] j js h = tt
Present-cons (x ∷ xs) j js h = (ground arith, Present-cons xs j js h.1)

Present-after :
    (f : Item → Item) (is : List Item) → ((i : Item) → (f i).id ≡ i.id) → Present is (map f is)
unfolding find_item
Present-after f [] k = tt
Present-after f (x ∷ xs) k =
    (rw (k x, eq_refl x.id), Present-cons xs (f x) (map f xs) (Present-after f xs k))

update_item_ok :
    (r : Run) (k : String) (p : Patch)
    → ClaimsNothing p
    → is_some (find_item k r.items) ≡ true
    → update_item r k p ≡ ok (record r { items = replace_item k p r.items })
unfolding update_item
update_item_ok r k p c h = elim (Option-cases (find_item k r.items)) [
  | inl e ↦ cc
  | inr (i, e) ↦ ground (arith, e, guard_patch_ok p i c)
]

patch_each-replace_each :
    (test : Item → Bool) (p : Patch) (is : List Item) (r : Run)
    → ClaimsNothing p
    → Present is r.items
    → patch_each test p is r ≡ ok (record r { items = replace_each test p is r.items })
unfolding patch_each replace_each
patch_each-replace_each test p [] r c h = refl
patch_each-replace_each test p (x ∷ xs) r c h = elim (Bool-cases (test x)) [
  | inl e ↦
      rw (e, update_item_ok r x.id p c h.0)
        (patch_each-replace_each test p xs (record r { items = replace_item x.id p r.items }) c
          (Present-replace_item x.id p xs r.items h.1))
  | inr e ↦ rw e (patch_each-replace_each test p xs r c h.1)
]

update_item-status :
    (r : Run) (k : String) (p : Patch) {r' : Run} → update_item r k p ≡ ok r' → r'.status ≡ r.status
unfolding update_item guard_patch
update_item-status r k p h = elim (Option-cases (find_item k r.items)) [
  | inl e ↦ ground (arith, e)
  | inr (i, e) ↦ ground (arith, e)
]

-- The loops write items, never the status of the run.
pub patch_each-status :
    (test : Item → Bool) (p : Patch) (is : List Item) (r : Run) {r' : Run}
    → patch_each test p is r ≡ ok r'
    → r'.status ≡ r.status
unfolding patch_each
patch_each-status test p [] r h = ground arith
patch_each-status test p (x ∷ xs) r h = elim (Bool-cases (test x)) [
  | inl e ↦ elim (Result-cases (update_item r x.id p)) [
    | inl (q, w) ↦ patch_each-status test p xs q (rw (e, w) at h) ∙ update_item-status r x.id p w
    | inr (f, w) ↦ cc (rw (e, w) at h)
  ]
  | inr e ↦ patch_each-status test p xs r (rw e at h)
]

-- The loop over a snapshot of the items, after a change of the run that kept their ids.
pub patch_each-patch_after :
    (test : Item → Bool) (p : Patch) (f : Item → Item) (is : List Item) (r : Run)
    → ((i : Item) → (f i).id ≡ i.id)
    → ClaimsNothing p
    → Unique is
    → r.items ≡ map f is
    → patch_each test p is r ≡ ok (record r { items = patch_after test p f is })
patch_each-patch_after test p f is r k c u e =
    rw (patch_each-replace_each test p is r c (rw e (Present-after f is k)), e)
      (ap (λ l. ok (record r { items = l })) (replace_each-patch_after test p f is k u))

pub map_self : (is : List Item) → is ≡ map (λ i. i) is
map_self [] = refl
map_self (x ∷ xs) = ap (λ l. x ∷ l) (map_self xs)

patch_after_self :
    (test : Item → Bool) (p : Patch) (is : List Item)
    → patch_after test p (λ i. i) is ≡ patch_matching test p is
unfolding patch_after patch_matching
patch_after_self test p [] = refl
patch_after_self test p (x ∷ xs) =
    ap (λ l. (if test x then apply p x else x) ∷ l) (patch_after_self test p xs)

pub replace_each-patch_matching :
    (test : Item → Bool) (p : Patch) (is : List Item)
    → Unique is
    → replace_each test p is is ≡ patch_matching test p is
replace_each-patch_matching test p is u =
    ap (λ l. replace_each test p is l) (map_self is)
    ∙ (replace_each-patch_after test p (λ i. i) is (λ i. refl) u ∙ patch_after_self test p is)

-- On a run whose items have distinct ids the loop is never refused, and patches exactly the items
-- that pass the test.
pub patch_each-patch_matching :
    (test : Item → Bool) (p : Patch) (r : Run)
    → ClaimsNothing p
    → Unique r.items
    → patch_each test p r.items r ≡ ok (record r { items = patch_matching test p r.items })
patch_each-patch_matching test p r c u =
    patch_each-patch_after test p (λ i. i) r.items r (λ i. refl) c u (map_self r.items)
    ∙ ap (λ l. ok (record r { items = l })) (patch_after_self test p r.items)
