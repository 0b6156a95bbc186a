-- ===== src/Pipeline/View.antt =====
-- server/matrixService.js: what is read of a parent run is made from its batches.
use qase.Common.{
  ℕ, ◌+◌, Bool, true, false, List, [], ◌∷◌, ◌==◌, ◌≡◌, refl, arith, length, count, count-append,
  length-append, contains, any, Dict, inl, inr, Bool-cases, sym, eq_iff, ◌∙◌,
}
use qase.Matrix.Item.{Item}
use qase.Pipeline.{
  Run, batches_of, insert_batch, sort_batches, items_of, is_over, every, is_done, parent_status,
  view_parent,
}

-- A number summed over batches.
abbrev pub total : (Run → ℕ) → List Run → ℕ
total f [] = 0
total f (r ∷ rs) = f r + total f rs

total-insert_batch :
    (f : Run → ℕ) (r : Run) (rs : List Run) → total f (insert_batch r rs) ≡ f r + total f rs
unfolding insert_batch
total-insert_batch f r [] = refl
total-insert_batch f r (x ∷ xs) = ground (arith, total-insert_batch f r xs)

total-sort_batches : (f : Run → ℕ) (rs : List Run) → total f (sort_batches rs) ≡ total f rs
unfolding sort_batches
total-sort_batches f [] = refl
total-sort_batches f (r ∷ rs) =
    omega (arith, total-insert_batch f r (sort_batches rs), total-sort_batches f rs)

count-items_of :
    (p : Item → Bool) (rs : List Run) → count p (items_of rs) ≡ total (λ r. count p r.items) rs
unfolding items_of count
count-items_of p [] = refl
count-items_of p (r ∷ rs) = omega (arith, count-append p r.items (items_of rs), count-items_of p rs)

length-items_of : (rs : List Run) → length (items_of rs) ≡ total (λ r. length r.items) rs
unfolding items_of
length-items_of [] = refl
length-items_of (r ∷ rs) = omega (arith, length-append r.items (items_of rs), length-items_of rs)

-- A test that all batches pass, in the order that is read as in the order of the list.
every-insert_batch :
    (p : Run → Bool) (r : Run) (rs : List Run) → every p (insert_batch r rs) ≡ every p (r ∷ rs)
unfolding every insert_batch
every-insert_batch p r [] = refl
every-insert_batch p r (x ∷ xs) = ground (arith, every-insert_batch p r xs)

every-sort_batches : (p : Run → Bool) (rs : List Run) → every p (sort_batches rs) ≡ every p rs
unfolding every sort_batches
every-sort_batches p [] = refl
every-sort_batches p (r ∷ rs) =
    every-insert_batch p r (sort_batches rs) ∙ rw (every-sort_batches p rs) refl

done_is_over : (rs : List Run) → every is_done rs ≡ true → every is_over rs ≡ true
unfolding every contains
done_is_over [] h = refl
done_is_over (r ∷ rs) h = elim (Bool-cases (r.status == "done")) [
  | inl e ↦
      let f : ("done" == r.status) ≡ true =
        (eq_iff "done" r.status).1 (sym ((eq_iff r.status "done").0 e)) in
      rw f (done_is_over rs (rw e at h))
  | inr e ↦ absurd (cc (rw e at h))
]

parent_status-done :
    (p : Run) (rs : List Run)
    → (p.status == "done") ≡ false
    → (parent_status p rs == "done") ≡ every is_done rs
unfolding parent_status
parent_status-done p rs h = elim (Bool-cases (every is_done rs)) [
  | inl d ↦ rw (done_is_over rs d, d) refl
  | inr d ↦ elim (Bool-cases (every is_over rs)) [
    | inl o ↦ rw (o, d) refl
    | inr o ↦ elim (Bool-cases (any (λ b. b.status == "running") rs)) [
      | inl a ↦ rw (o, d, a) refl
      | inr a ↦ rw (o, d, a) h
    ]
  ]
]

-- The view of a parent, for any test of its items, counts the items of its batches, each once; and where the
-- record itself is not marked done, it reads as done exactly if every batch that is there is done.
pub view_parent_lem :
    (m : Dict Run) (p : Run) (test : Item → Bool)
    → (p.status == "done") ≡ false
    → let v = view_parent m p in
      let batches = batches_of m p.batch_ids in
      (count test v.run.items ≡ total (λ r. count test r.items) batches)
      × (v.item_count ≡ total (λ r. length r.items) batches)
      × ((v.run.status == "done") ≡ every is_done batches)
unfolding view_parent parent_status
view_parent_lem m p test h =
    let rs = batches_of m p.batch_ids in
    (
      count-items_of test (sort_batches rs) ∙ total-sort_batches (λ r. count test r.items) rs,
      length-items_of (sort_batches rs) ∙ total-sort_batches (λ r. length r.items) rs,
      parent_status-done p (sort_batches rs) h ∙ every-sort_batches is_done rs,
    )
