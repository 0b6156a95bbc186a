-- ===== src/Pipeline/Retry.antt =====
-- server/matrixService.js: a batch that is posted again, after its answer or before it.
use qase.Common.{
  ℕ, String, true, false, Option, none, some, List, [], ◌∷◌, ◌++◌, ◌==◌, ◌≡◌, refl, length, Dict,
  get, set, get-set, get_or, or_else, inl, inr, Option-cases, Bool-cases, subst, sym, ap, ◌∙◌,
  eq_iff,
}
use qase.Common.Result.{Result, ok}
use qase.Pipeline.{
  Run, Error, keyed, find_batch, Request, Begun, exists, plans, is_parent, begin_in, begin_batch,
  stamp, link, finish_batch, create_batch,
}

-- What a plan says of the store that it was made from.
abbrev IsPlanned : Request → Dict Run → Run → Type 0
IsPlanned q m p =
    ((q.parent_id == "") ≡ false)
    × ((q.batch_key == "") ≡ false)
    × (get q.parent_id m ≡ some p)
    × (is_parent p.kind ≡ true)
    × (find_batch m q.batch_key p.batch_ids ≡ none)

planned : Run → Begun → Run
planned d (plans p index) = p
planned d _ = d

begin_batch-plans :
    (q : Request) (m : Dict Run) (p : Run) (index : ℕ)
    → begin_batch q m ≡ plans p index
    → IsPlanned q m p
unfolding begin_batch begin_in planned
begin_batch-plans q m p index h = elim (Bool-cases (q.parent_id == "")) [
  | inl a ↦ absurd (cc (rw a at h))
  | inr a ↦ elim (Bool-cases (q.batch_key == "")) [
    | inl b ↦ absurd (cc (rw (a, b) at h))
    | inr b ↦ elim (Option-cases (get q.parent_id m)) [
      | inl c ↦ absurd (cc (rw (a, b, c) at h))
      | inr (x, c) ↦ elim (Bool-cases (is_parent x.kind)) [
        | inr d ↦ absurd (cc (rw (a, b, c, d) at h))
        | inl d ↦ elim (Option-cases (find_batch m q.batch_key x.batch_ids)) [
          | inr (y, e) ↦ absurd (cc (rw (a, b, c, d, e) at h))
          | inl e ↦
              let g : plans x (get_or q.batch_index (length x.batch_ids)) ≡ plans p index =
                rw (a, b, c, d, e) at h in
              let i : x ≡ p = ap (planned p) g in
              (
                a,
                b,
                c ∙ ap some i,
                subst (λ z. is_parent z.kind ≡ true) i d,
                subst (λ z. find_batch m q.batch_key z.batch_ids ≡ none) i e,
              )
        ]
      ]
    ]
  ]
]

or_else-none {ℓ} : {A : Type ℓ} (a b : Option A) → or_else a b ≡ none → (a ≡ none) × (b ≡ none)
or_else-none none b h = (refl, h)
or_else-none (some x) b h = absurd cc

-- A batch that stands last in the list of its parent, and no batch with the key before it.
find_batch-last :
    (m n : Dict Run) (key id : String) (b : Run) (ids : List String)
    → find_batch m key ids ≡ none
    → ((j : String) → (j == id) ≡ false → keyed key (get j m) ≡ none → keyed key (get j n) ≡ none)
    → get id n ≡ some b
    → (b.batch_key == key) ≡ true
    → find_batch n key (ids ++ id ∷ []) ≡ some b
unfolding find_batch
find_batch-last m n key id b [] h k e f = rw (e, f) refl
find_batch-last m n key id b (j ∷ ids) h k e f = elim (Bool-cases (j == id)) [
  | inl g ↦ rw ((eq_iff j id).0 g, e, f) refl
  | inr g ↦
      let c = or_else-none (keyed key (get j m)) (find_batch m key ids) h in
      rw (k j g c.0) (find_batch-last m n key id b ids c.1 k e f)
]

-- The store after a run has been created and stamped.
abbrev stored : Request → ℕ → Run → Dict Run → Dict Run
stored q index r m = set r.id (stamp q index r) (set r.id r m)

get-stored :
    (q : Request) (index : ℕ) (r : Run) (m : Dict Run) (j : String)
    → (r.id == j) ≡ false
    → get j (stored q index r m) ≡ get j m
get-stored q index r m j h =
    let a = get-set r.id j (stamp q index r) (set r.id r m) in
    let b = get-set r.id j r m in rw (a, h, b, h) refl

get-stored_self :
    (q : Request) (index : ℕ) (r : Run) (m : Dict Run)
    → get r.id (stored q index r m) ≡ some (stamp q index r)
get-stored_self q index r m =
    rw (get-set r.id r.id (stamp q index r) (set r.id r m), (eq_iff r.id r.id).1 refl) refl

-- A new identifier is not the parent's.
fresh_lem :
    (m : Dict Run) (k j : String) {p : Run} → get k m ≡ none → get j m ≡ some p → (k == j) ≡ false
fresh_lem m k j h g = elim (Bool-cases (k == j)) [
  | inr e ↦ e
  | inl e ↦ let f : get j m ≡ none = subst (λ x. get x m ≡ none) ((eq_iff k j).0 e) h in absurd cc
]

-- The parent's record, with a batch more.
abbrev linked : Run → Run → Run
linked p r = record p { batch_ids = p.batch_ids ++ r.id ∷ [] }

-- What a planned batch leaves behind; the parent may have been linked to others since the plan.
finish_batch_lem :
    (q : Request) (r : Run) (m : Dict Run) (p x : Run) (index : ℕ)
    → get q.parent_id m ≡ some x
    → get r.id m ≡ none
    → finish_batch q (plans p index) (ok r) m ≡ (
      ok (stamp q index r, true),
      set q.parent_id
          (record x { batch_ids = p.batch_ids ++ r.id ∷ []; status = p.status })
          (stored q index r m),
    )
unfolding finish_batch link
finish_batch_lem q r m p x index h f =
    let e = get-stored q index r m q.parent_id (fresh_lem m r.id q.parent_id f h) in rw (e, h) refl

eq_swap : (a b : String) → (a == b) ≡ false → (b == a) ≡ false
eq_swap a b h = elim (Bool-cases (b == a)) [
  | inr e ↦ e
  | inl e ↦ let f : (a == b) ≡ true = (eq_iff a b).1 (sym ((eq_iff b a).0 e)) in absurd cc
]

keyed-linked :
    (key : String) (p r : Run) → keyed key (some p) ≡ none → keyed key (some (linked p r)) ≡ none
keyed-linked key p r h = elim (Bool-cases (p.batch_key == key)) [
  | inl e ↦ absurd (cc (rw e at h))
  | inr e ↦ rw e refl
]

-- The store after the parent has been linked to the new batch.
abbrev settled : Request → ℕ → Run → Run → Dict Run → Dict Run
settled q index p r m = set q.parent_id (linked p r) (stored q index r m)

get-settled :
    (q : Request) (index : ℕ) (p r : Run) (m : Dict Run)
    → get q.parent_id (settled q index p r m) ≡ some (linked p r)
get-settled q index p r m =
    rw
      (
        get-set q.parent_id q.parent_id (linked p r) (stored q index r m),
        (eq_iff q.parent_id q.parent_id).1 refl,
      )
      refl

get-settled_other :
    (q : Request) (index : ℕ) (p r : Run) (m : Dict Run) (j : String)
    → (j == q.parent_id) ≡ false
    → (r.id == j) ≡ false
    → get j (settled q index p r m) ≡ get j m
get-settled_other q index p r m j d e =
    rw (get-set q.parent_id j (linked p r) (stored q index r m), eq_swap j q.parent_id d)
      (get-stored q index r m j e)

get-settled_self :
    (q : Request) (index : ℕ) (p r : Run) (m : Dict Run)
    → (r.id == q.parent_id) ≡ false
    → get r.id (settled q index p r m) ≡ some (stamp q index r)
get-settled_self q index p r m d =
    rw (get-set q.parent_id r.id (linked p r) (stored q index r m), eq_swap r.id q.parent_id d)
      (get-stored_self q index r m)

keyed-settled :
    (q : Request) (index : ℕ) (p r : Run) (m : Dict Run) (j : String)
    → get q.parent_id m ≡ some p
    → (j == r.id) ≡ false
    → keyed q.batch_key (get j m) ≡ none
    → keyed q.batch_key (get j (settled q index p r m)) ≡ none
keyed-settled q index p r m j g d h =
    let c : (r.id == j) ≡ false = eq_swap j r.id d in
    let s = get-stored q index r m j c in
    let t = get-set q.parent_id j (linked p r) (stored q index r m) in
    elim (Bool-cases (q.parent_id == j)) [
      | inr e ↦ rw (t, e, s) h
      | inl e ↦
          let k : get j m ≡ some p = subst (λ x. get x m ≡ some p) ((eq_iff q.parent_id j).0 e) g in
          rw (t, e) (keyed-linked q.batch_key p r (rw k at h))
    ]

begin_again :
    (q : Request) (index : ℕ) (p r : Run) (m : Dict Run)
    → IsPlanned q m p
    → get r.id m ≡ none
    → begin_batch q (settled q index p r m) ≡ exists (stamp q index r)
unfolding begin_batch begin_in stamp
begin_again q index p r m i f =
    let d = fresh_lem m r.id q.parent_id f i.2 in
    let e = get-settled_self q index p r m d in
    let b =
      find_batch-last m (settled q index p r m) q.batch_key r.id (stamp q index r) p.batch_ids i.4
        (λ j. keyed-settled q index p r m j i.2) e ((eq_iff q.batch_key q.batch_key).1 refl) in
    rw (i.0, i.1, get-settled q index p r m, i.3, b) refl

create_batch_lem :
    (q : Request) (r : Run) (m : Dict Run) (p : Run) (index : ℕ)
    → begin_batch q m ≡ plans p index
    → get r.id m ≡ none
    → create_batch q (ok r) m ≡ (ok (stamp q index r, true), settled q index p r m)
unfolding create_batch
create_batch_lem q r m p index h f =
    rw h (finish_batch_lem q r m p p index (begin_batch-plans q m p index h).2 f)

create_batch_again :
    (q : Request) (index : ℕ) (p r : Run) (m : Dict Run) (again : Result Error Run)
    → IsPlanned q m p
    → get r.id m ≡ none
    → create_batch q again (settled q index p r m)
      ≡ (ok (stamp q index r, false), settled q index p r m)
unfolding create_batch finish_batch
create_batch_again q index p r m again i f = rw (begin_again q index p r m i f) refl

-- A batch that has been created, by a call that no other one disturbs and under a new identifier, is found
-- when it is posted again: whatever run `create` would make, the answer is the first batch, nothing is
-- created and the store is unchanged.
pub create_batch_twice :
    (q : Request) (r : Run) (m : Dict Run) (p : Run) (index : ℕ) (again : Result Error Run)
    → begin_batch q m ≡ plans p index
    → get r.id m ≡ none
    → let done = create_batch q (ok r) m in
      (done.0 ≡ ok (stamp q index r, true))
      × (create_batch q again done.1 ≡ (ok (stamp q index r, false), done.1))
create_batch_twice q r m p index again h f =
    let i = begin_batch-plans q m p index h in
    rw (create_batch_lem q r m p index h f) (refl, create_batch_again q index p r m again i f)

-- Two calls for the same batch that have both read the store before either writes both report a run that they have
-- created, of different identifiers here. Both runs are in the store afterwards, each with its own items and with the
-- key and the number of the batch, and the parent lists, besides what it listed before, the second alone.
pub finish_batch_races :
    (q : Request) (r s : Run) (m : Dict Run) (p : Run) (index : ℕ)
    → begin_batch q m ≡ plans p index
    → get r.id m ≡ none
    → get s.id m ≡ none
    → (r.id == s.id) ≡ false
    → let first = finish_batch q (begin_batch q m) (ok r) m in
      let second = finish_batch q (begin_batch q m) (ok s) first.1 in
      (first.0 ≡ ok (stamp q index r, true))
      × (second.0 ≡ ok (stamp q index s, true))
      × (get r.id second.1 ≡ some (stamp q index r))
      × (get s.id second.1 ≡ some (stamp q index s))
      × (get q.parent_id second.1 ≡ some (linked p s))
finish_batch_races q r s m p index h f g d =
    let i = (begin_batch-plans q m p index h).2 in
    let a = finish_batch_lem q r m p p index i f in
    let n = settled q index p r m in
    let k : get s.id n ≡ none =
      get-settled_other q index p r m s.id (fresh_lem m s.id q.parent_id g i) d ∙ g in
    let b = finish_batch_lem q s n p (linked p r) index (get-settled q index p r m) k in
    let x =
      get-settled_other q index p s n r.id (fresh_lem m r.id q.parent_id f i)
        (eq_swap r.id s.id d) in
    let c : get r.id n ≡ some (stamp q index r) =
      get-settled_self q index p r m (fresh_lem m r.id q.parent_id f i) in
    let e : get s.id (settled q index p s n) ≡ some (stamp q index s) =
      get-settled_self q index p s n (fresh_lem n s.id q.parent_id k (get-settled q index p r m)) in
    rw (h, a, b) (refl, refl, x ∙ c, e, get-settled q index p s n)
