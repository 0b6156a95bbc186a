-- ===== src/Matrix/Coverage/Browsers.antt =====
-- No browser of an item is missing from the coverage report of server/matrixCoverage.js.
use qase.Common.{
  ℕ, String, Bool, true, false, Option, none, some, List, [], ◌∷◌, ◌++◌, ◌≡◌, refl, arith, ◌==◌,
  ◌&&◌, ◌||◌, not, filter, any, map, contains, Dict, set, Bool-cases, inl, inr, eq_iff, ◌∙◌, subst,
}
use qase.Matrix.Coverage.{
  Entry, Bucket, put_item, tally, note_reason, by_browser, browser_row, browser_order, browsers,
  bucket_of, add_item,
}
use qase.Matrix.Coverage.Rows.{is_key, has_key}

abbrev keys : Dict Bucket → List String
keys m = map (λ x. x.0) m

keys-set :
    (j k : String) (b : Bucket) (m : Dict Bucket)
    → contains k (keys (set j b m)) ≡ ((j == k) || contains k (keys m))
unfolding set contains
keys-set j k b [] = ground arith
keys-set j k b ((i, c) ∷ m) = ground (arith, eq_iff i j, eq_iff j k, eq_iff i k, keys-set j k b m)

keys-put_item :
    (o : Option String) (note : Entry → Dict ℕ → Dict ℕ) (e : Entry) (k : String) (m : Dict Bucket)
    → contains k (keys (put_item o note e m)) ≡ (is_key o k || contains k (keys m))
unfolding put_item
keys-put_item none note e k m = refl
keys-put_item (some j) note e k m = keys-set j k (add_item note e (bucket_of j m)) m

keys-tally :
    (key : Entry → Option String) (note : Entry → Dict ℕ → Dict ℕ) (k : String) (es : List Entry)
    (m : Dict Bucket)
    → contains k (keys (tally key note es m)) ≡ (any (has_key key k) es || contains k (keys m))
unfolding tally any
keys-tally key note k [] m = refl
keys-tally key note k (e ∷ es) m =
    ground (
      arith,
      keys-tally key note k es (put_item (key e) note e m),
      keys-put_item (key e) note e k m,
    )

any-append :
    {A : Type 0} (p : A → Bool) (xs ys : List A) → any p (xs ++ ys) ≡ (any p xs || any p ys)
unfolding any
any-append p [] ys = refl
any-append p (x ∷ xs) ys = ground (arith, any-append p xs ys)

any_named :
    (es : List Entry) (k : String) (ks : List String)
    → any (λ r. r.name == k) (map (λ j. browser_row es j) ks) ≡ contains k ks
unfolding any contains browser_row
any_named es k [] = refl
any_named es k (j ∷ ks) = ground (arith, any_named es k ks)

contains-filter :
    (p : String → Bool) (k : String) (ks : List String)
    → contains k (filter p ks) ≡ (p k && contains k ks)
unfolding contains filter
contains-filter p k [] = ground arith
contains-filter p k (j ∷ ks) = elim (Bool-cases (p j)) [
  | inl t ↦ elim (Bool-cases (j == k)) [
    | inl e ↦
        let kept : p k ≡ true = subst (λ x. p x ≡ true) ((eq_iff j k).0 e) t in rw (t, e, kept)
    | inr e ↦ rw (t, e) (contains-filter p k ks)
  ]
  | inr t ↦ elim (Bool-cases (j == k)) [
    | inl e ↦
        let left_out : p k ≡ false = subst (λ x. p x ≡ false) ((eq_iff j k).0 e) t in
        rw (t, contains-filter p k ks, left_out)
    | inr e ↦ rw (t, e) (contains-filter p k ks)
  ]
]

named_all :
    (es : List Entry) (k : String) (order ks : List String)
    → any
        (λ r. r.name == k)
        (map (λ j. browser_row es j) order
          ++ map (λ j. browser_row es j) (filter (λ j. not (contains j order)) ks))
      ≡ (contains k order || contains k ks)
named_all es k order ks =
    rw
      (
        any-append (λ r. r.name == k) (map (λ j. browser_row es j) order)
            (map (λ j. browser_row es j) (filter (λ j. not (contains j order)) ks)),
        any_named es k order,
        any_named es k (filter (λ j. not (contains j order)) ks),
        contains-filter (λ j. not (contains j order)) k ks,
      )
      (absorbed (contains k order) (contains k ks))
  where
    absorbed : (a b : Bool) → (a || (not a && b)) ≡ (a || b)
    absorbed true b = refl
    absorbed false b = refl

right_true : (a b : Bool) → b ≡ true → (a || b) ≡ true
right_true true b h = refl
right_true false b h = h

-- Every browser that an item was planned for has a row in the report, also one outside the agreed
-- set.
pub browsers_complete :
    (es : List Entry) (k : String)
    → any (λ e. e.browser_code == k) es ≡ true
    → any (λ r. r.name == k) (browsers es) ≡ true
unfolding browsers contains
browsers_complete es k h =
    named_all es k browser_order (keys (by_browser es))
    ∙ right_true (contains k browser_order) (contains k (keys (by_browser es)))
        (keys-tally (λ e. some e.browser_code) note_reason k es [] ∙ rw h refl)
