-- ===== src/Matrix/Coverage/Rows.antt =====
-- The rows of the coverage report of server/matrixCoverage.js.
use qase.Common.{
  ℕ, ◌+◌, String, Bool, false, Option, none, some, List, [], ◌∷◌, ◌≡◌, refl, arith, ◌==◌, ◌&&◌, ltb,
  count, any, if◌then◌else◌, Dict, get, get-set, Bool-cases, inl, inr, eq_iff, any-count, ap, sym,
  ◌∙◌,
}
use qase.Matrix.Item.{is_executed}
use qase.Matrix.Coverage.{
  Entry, Bucket, bucket_of, add_item, put_item, tally, category_of, category_row, browser_row,
  note_reason,
}

abbrev pub is_key : Option String → String → Bool
is_key none k = false
is_key (some j) k = j == k

-- The item has the key.
abbrev pub has_key : (Entry → Option String) → String → Entry → Bool
has_key key k e = is_key (key e) k

put_item_lem :
    (o : Option String) (note : Entry → Dict ℕ → Dict ℕ) (e : Entry) (k : String) (m : Dict Bucket)
    → ((bucket_of k (put_item o note e m)).total
        ≡ (bucket_of k m).total + (if is_key o k then 1 else 0))
      × ((bucket_of k (put_item o note e m)).executed
          ≡ (bucket_of k m).executed + (if is_key o k && is_executed e.status then 1 else 0))
unfolding put_item
put_item_lem none note e k m = (omega arith, omega arith)
put_item_lem (some j) note e k m = elim (Bool-cases (j == k)) [
  | inl same ↦
      rw (same, get-set j k (add_item note e (bucket_of j m)) m, same, (eq_iff j k).0 same)
        (omega arith, ground arith)
  | inr other ↦
      rw (other, get-set j k (add_item note e (bucket_of j m)) m, other) (omega arith, omega arith)
]

tally_lem :
    (key : Entry → Option String) (note : Entry → Dict ℕ → Dict ℕ) (k : String) (es : List Entry)
    (m : Dict Bucket)
    → ((bucket_of k (tally key note es m)).total ≡ (bucket_of k m).total + count (has_key key k) es)
      × ((bucket_of k (tally key note es m)).executed
          ≡ (bucket_of k m).executed + count (λ e. has_key key k e && is_executed e.status) es)
unfolding tally count
tally_lem key note k [] m = (omega arith, omega arith)
tally_lem key note k (e ∷ es) m =
    let (a, b) = put_item_lem (key e) note e k m in
    let (c, d) = tally_lem key note k es (put_item (key e) note e m) in
    (ground (arith, a, c), ground (arith, b, d))

empty_bucket : (k : String) → ((bucket_of k []).total ≡ 0) × ((bucket_of k []).executed ≡ 0)
unfolding get
empty_bucket k = (refl, refl)

-- A table that starts empty.
tally_all :
    (key : Entry → Option String) (note : Entry → Dict ℕ → Dict ℕ) (k : String) (es : List Entry)
    → ((bucket_of k (tally key note es [])).total ≡ count (has_key key k) es)
      × ((bucket_of k (tally key note es [])).executed
          ≡ count (λ e. has_key key k e && is_executed e.status) es)
tally_all key note k es =
    let (a, b) = tally_lem key note k es [] in
    let (c, d) = empty_bucket k in (omega (arith, a, c), omega (arith, b, d))

-- The row of a category counts the items of the category and those of them that were executed, and
-- calls the category covered exactly if at least one of them passed or failed.
pub category_row_lem :
    (es : List Entry) (k : String)
    → let row = category_row es k in
      (row.requested ≡ count (has_key category_of k) es)
      × (row.executed ≡ count (λ e. has_key category_of k e && is_executed e.status) es)
      × (row.covered ≡ any (λ e. has_key category_of k e && is_executed e.status) es)
unfolding category_row
category_row_lem es k =
    let (a, b) = tally_all category_of (λ e m. m) k es in
    (
      a,
      b,
      ap (λ n. ltb 0 n) b
          ∙ sym (any-count (λ e. has_key category_of k e && is_executed e.status) es),
    )

-- The row of a browser counts the items of the browser and those of them that were executed, and
-- calls the browser covered exactly if at least one of them passed or failed.
pub browser_row_lem :
    (es : List Entry) (k : String)
    → let row = browser_row es k in
      (row.requested ≡ count (λ e. e.browser_code == k) es)
      × (row.executed ≡ count (λ e. (e.browser_code == k) && is_executed e.status) es)
      × (row.covered ≡ any (λ e. (e.browser_code == k) && is_executed e.status) es)
unfolding browser_row
browser_row_lem es k =
    let (a, b) = tally_all (λ e. some e.browser_code) note_reason k es in
    (
      a,
      b,
      ap (λ n. ltb 0 n) b ∙ sym (any-count (λ e. (e.browser_code == k) && is_executed e.status) es),
    )
