-- ===== src/Store/Findings/Backlog/Rows.antt =====
-- The rows of the bug backlog of server/store.js: which they are and in which order.
use qase.Common.{
  ltb, eqb, leb, ◌||◌, ◌<◌, ◌&&◌, get_or, eq_iff, includes, ℕ, zero, suc, ◌≤◌, ◌↔◌, String, true,
  false, Option, none, some, List, [], ◌∷◌, ◌++◌, ◌⊎◌, inl, inr, ◌≡◌, refl, sym, ap, ◌∙◌, arith,
  length, All, Text, take, take_short, length-take, Bool-cases, subst,
}
use qase.Common.Result.{ok, ok_inj}
use qase.Store.Findings.{Finding, normalize_finding_status}
use qase.Store.Findings.Backlog.{
  rank, filed, Run, Query, Row, takes_finding, rows_of, takes_run, admits, owned, found, collect,
  comes_first, insert_row, sort_rows, bounded, fault_status, fault_severity,
  aggregate_session_findings,
}

-- A finding that is one of a run's, as it reads back.
abbrev pub Origin : ℕ → Finding → List Finding → Type 0
Origin now g [] = ⊥
Origin now g (f ∷ fs) = (g ≡ normalize_finding_status now f) ⊎ Origin now g fs

-- A filter that is given is met.
abbrev pub Meets : Option String → String → Type 0
Meets none v = Unit
Meets (some s) v = v ≡ s

-- An empty owner is no filter.
abbrev pub IsOwner : Option String → String → Type 0
IsOwner none v = Unit
IsOwner (some s) v = (s ≡ "") ⊎ (v ≡ s)

abbrev pub IsFound : (Text → Text) → Option Text → Finding → Type 0
IsFound lower none f = Unit
IsFound lower (some t) f = includes t (lower (f.title ++ 10 ∷ f.category ++ 10 ∷ f.url)) ≡ true

-- A finding, as it reads back, and its run meet the query.
abbrev pub IsMatch : (Text → Text) → Query → Run → Finding → Type 0
IsMatch lower q r f =
    IsOwner q.owner r.owner
    × (r.mode ≡ "qa")
    × Meets q.status (get_or f.status "")
    × Meets q.severity f.severity
    × Meets q.run_id r.id
    × IsFound lower q.needle f

-- A row that a query asks for: a finding that it takes, of a run that it takes.
abbrev pub IsAsked : (Text → Text) → ℕ → Query → List Run → Row → Type 0
IsAsked lower now q [] row = ⊥
IsAsked lower now q (r ∷ rs) row =
    ((row.run_id ≡ r.id) × Origin now row.finding r.findings × IsMatch lower q r row.finding)
    ⊎ IsAsked lower now q rs row

abbrev pub Has : Row → List Row → Type 0
Has row [] = ⊥
Has row (r ∷ rs) = (row ≡ r) ⊎ Has row rs

abbrev pub IsSorted : List Row → Type 0
IsSorted [] = Unit
IsSorted (r ∷ []) = Unit
IsSorted (r ∷ s ∷ rs) = (comes_first r s ≡ true) × IsSorted (s ∷ rs)

-- A row comes before another: of a severity that is earlier in the list, or of the same one and not filed before it.
abbrev pub Precedes : Row → Row → Type 0
Precedes a b = (rank a < rank b) ⊎ ((rank a ≡ rank b) × (filed b ≤ filed a))

abbrev pub IsOrdered : List Row → Type 0
IsOrdered [] = Unit
IsOrdered (r ∷ []) = Unit
IsOrdered (r ∷ s ∷ rs) = Precedes r s × IsOrdered (s ∷ rs)

compared : (m n p q : ℕ) → ltb m n || (eqb m n && leb q p) ≡ true → (m < n) ⊎ ((m ≡ n) × (q ≤ p))
compared m n p q h = ground arith

comes_first-Precedes : (a b : Row) → comes_first a b ≡ true → Precedes a b
unfolding comes_first
comes_first-Precedes a b h = compared (rank a) (rank b) (filed a) (filed b) h

IsSorted-IsOrdered : (rs : List Row) → IsSorted rs → IsOrdered rs
IsSorted-IsOrdered [] h = tt
IsSorted-IsOrdered (r ∷ []) h = tt
IsSorted-IsOrdered (r ∷ s ∷ rs) (h, hs) =
    (comes_first-Precedes r s h, IsSorted-IsOrdered (s ∷ rs) hs)

comes_first_total : (a b : Row) → comes_first a b ≡ false → comes_first b a ≡ true
unfolding comes_first
comes_first_total a b h = ground arith

insert_row-IsSorted : (r : Row) (rs : List Row) → IsSorted rs → IsSorted (insert_row r rs)
unfolding insert_row
insert_row-IsSorted r [] h = tt
insert_row-IsSorted r (x ∷ []) h = elim (Bool-cases (comes_first r x)) [
  | inl e ↦ rw e (e, tt)
  | inr e ↦ rw e (comes_first_total r x e, tt)
]
insert_row-IsSorted r (x ∷ y ∷ ys) (h, hs) = elim (Bool-cases (comes_first r x)) [
  | inl e ↦ rw e (e, (h, hs))
  | inr e ↦
      let i = insert_row-IsSorted r (y ∷ ys) hs in
      elim (Bool-cases (comes_first r y)) [
        | inl f ↦ rw (e, f) (comes_first_total r x e, rw f at i)
        | inr f ↦ rw (e, f) (h, rw f at i)
      ]
]

sort_rows-IsSorted : (rs : List Row) → IsSorted (sort_rows rs)
unfolding sort_rows
sort_rows-IsSorted [] = tt
sort_rows-IsSorted (r ∷ rs) = insert_row-IsSorted r _ (sort_rows-IsSorted rs)

take-IsSorted : (n : ℕ) (rs : List Row) → IsSorted rs → IsSorted (take n rs)
unfolding take
take-IsSorted zero rs h = tt
take-IsSorted (suc n) [] h = tt
take-IsSorted (suc zero) (r ∷ rs) h = tt
take-IsSorted (suc (suc n)) (r ∷ []) h = tt
take-IsSorted (suc (suc n)) (r ∷ s ∷ rs) (h, hs) = (h, take-IsSorted (suc n) (s ∷ rs) hs)

insert_row-Has : (row r : Row) (rs : List Row) → Has row (insert_row r rs) ↔ Has row (r ∷ rs)
unfolding insert_row
insert_row-Has row r [] = (λ h. h, λ h. h)
insert_row-Has row r (x ∷ xs) = elim (Bool-cases (comes_first r x)) [
  | inl e ↦ rw e (λ h. h, λ h. h)
  | inr e ↦ let i = insert_row-Has row r xs in rw e (ground arith)
]

sort_rows-Has : (row : Row) (rs : List Row) → Has row (sort_rows rs) ↔ Has row rs
unfolding sort_rows
sort_rows-Has row [] = (λ h. h, λ h. h)
sort_rows-Has row (r ∷ rs) =
    let i = insert_row-Has row r (sort_rows rs) in let j = sort_rows-Has row rs in ground arith

take-Has : (row : Row) (n : ℕ) (rs : List Row) → Has row (take n rs) → Has row rs
unfolding take
take-Has row zero rs h = absurd h
take-Has row (suc n) [] h = absurd h
take-Has row (suc n) (r ∷ rs) (inl e) = inl e
take-Has row (suc n) (r ∷ rs) (inr h) = inr (take-Has row n rs h)

append-Has : (row : Row) (rs ss : List Row) → Has row (rs ++ ss) ↔ (Has row rs ⊎ Has row ss)
append-Has row [] ss = ground arith
append-Has row (r ∷ rs) ss = let i = append-Has row rs ss in ground arith

row_ext :
    (row : Row) (i : String) (g : Finding)
    → row.run_id ≡ i
    → row.finding ≡ g
    → row ≡ record { run_id = i; finding = g }
row_ext row i g a b = cc

abbrev Taken : (Text → Text) → ℕ → Query → Run → Row → List Finding → Type 0
Taken lower now q r row fs =
    (row.run_id ≡ r.id)
    × Origin now row.finding fs
    × (takes_finding lower q r.id row.finding ≡ true)

elim_left {ℓ κ μ} : {A : Type ℓ} {B : Type κ} {C : Type μ} → (A → C) → (B → C) → A ⊎ B → C
elim_left f g (inl a) = f a
elim_left f g (inr b) = g b

rows_of-Has :
    (lower : Text → Text) (now : ℕ) (q : Query) (r : Run) (row : Row) (fs : List Finding)
    → Has row (rows_of lower now q r fs) ↔ Taken lower now q r row fs
unfolding rows_of
rows_of-Has lower now q r row [] = (λ h. absurd h, λ h. absurd h.1)
rows_of-Has lower now q r row (f ∷ fs) =
    let i = rows_of-Has lower now q r row fs in
    let g = normalize_finding_status now f in
    let k : Row = record { run_id = r.id; finding = g } in
    elim (Bool-cases (takes_finding lower q r.id g)) [
      | inl e ↦ rw e (
        elim_left
            (λ p. (
              ap (λ x. x.run_id) p,
              inl (ap (λ x. x.finding) p),
              subst (λ x. takes_finding lower q r.id x ≡ true) (sym (ap (λ x. x.finding) p)) e,
            ))
            (λ h. let (a, o, t) = i.0 h in (a, inr o, t)),
        λ (a, o, t). elim o [ inl b ↦ inl (row_ext row r.id g a b) | inr u ↦ inr (i.1 (a, u, t)) ],
      )
      | inr e ↦ rw e (
        λ h. let (a, o, t) = i.0 h in (a, inr o, t),
        λ (a, o, t). elim o [ inl b ↦ absurd (cc (rw b at t)) | inr u ↦ i.1 (a, u, t) ],
      )
    ]

admits-Meets : (o : Option String) (v : String) → (admits o v ≡ true) ↔ Meets o v
admits-Meets none v = ground arith
admits-Meets (some s) v = eq_iff v s

owned-IsOwner : (o : Option String) (v : String) → (owned o v ≡ true) ↔ IsOwner o v
owned-IsOwner none v = ground arith
owned-IsOwner (some s) v = let a = eq_iff s "" in let b = eq_iff v s in ground (arith, a, b)

found-IsFound :
    (lower : Text → Text) (o : Option Text) (f : Finding)
    → (found lower o f ≡ true) ↔ IsFound lower o f
found-IsFound lower none f = ground arith
found-IsFound lower (some t) f = (λ h. h, λ h. h)

-- The two tests of the code together are the match.
takes-IsMatch :
    (lower : Text → Text) (q : Query) (r : Run) (f : Finding)
    → (takes_run q r && takes_finding lower q r.id f ≡ true) ↔ IsMatch lower q r f
unfolding takes_run takes_finding
takes-IsMatch lower q r f =
    let a = owned-IsOwner q.owner r.owner in
    let b = eq_iff r.mode "qa" in
    let c = admits-Meets q.status (get_or f.status "") in
    let d = admits-Meets q.severity f.severity in
    let e = admits-Meets q.run_id r.id in
    let g = found-IsFound lower q.needle f in ground (arith, a, b, c, d, e, g)

collect-Has :
    (lower : Text → Text) (now : ℕ) (q : Query) (row : Row) (rs : List Run)
    → Has row (collect lower now q rs) ↔ IsAsked lower now q rs row
unfolding collect
collect-Has lower now q row [] = (λ h. h, λ h. h)
collect-Has lower now q row (r ∷ rs) =
    let i = collect-Has lower now q row rs in
    let j = rows_of-Has lower now q r row r.findings in
    let k = append-Has row (rows_of lower now q r r.findings) (collect lower now q rs) in
    let m = takes-IsMatch lower q r row.finding in
    elim (Bool-cases (takes_run q r)) [
      | inl e ↦ rw e (
        λ h. elim (k.0 h) [
          | inl u ↦ let (a, o, t) = j.0 u in inl (a, o, m.0 (ground (arith, e, t)))
          | inr u ↦ inr (i.0 u)
        ],
        λ h. elim h [
          | inl (a, o, t) ↦ k.1 (inl (j.1 (a, o, ground (arith, m.1 t))))
          | inr u ↦ k.1 (inr (i.1 u))
        ],
      )
      | inr e ↦ rw e (
        λ h. inr (i.0 h),
        λ h. elim h [ inl (a, o, t) ↦ absurd (ground (arith, e, m.1 t)) | inr u ↦ i.1 u ],
      )
    ]

All-of_Has {ℓ} : (P : Row → Type ℓ) (rs : List Row) → ((r : Row) → Has r rs → P r) → All P rs
All-of_Has P [] f = tt
All-of_Has P (r ∷ rs) f = (f r (inl refl), All-of_Has P rs (λ x h. f x (inr h)))

aggregate_ok :
    (lower : Text → Text) (now : ℕ) (q : Query) (rs : List Run) (out : List Row)
    → aggregate_session_findings lower now q rs ≡ ok out
    → take (bounded q.limit) (sort_rows (collect lower now q rs)) ≡ out
unfolding aggregate_session_findings
aggregate_ok lower now q rs out h = elim (Bool-cases (fault_status q.status)) [
  | inl e ↦ absurd (cc (rw e at h))
  | inr e ↦ elim (Bool-cases (fault_severity q.severity)) [
    | inl f ↦ absurd (cc (rw (e, f) at h))
    | inr f ↦ ok_inj (rw (e, f) at h)
  ]
]

bounded-max : (l : Option ℕ) → bounded l ≤ 500
unfolding bounded
bounded-max none = omega arith
bounded-max (some n) = omega arith

-- What `aggregateSessionFindings` returns is in the order of the list of severities, where one that is not listed comes
-- first, and of equal ones the newer first; it has at most 500 rows, and each of its rows is a finding of a run that the
-- query takes: of the owner, where one is given, in QA mode, and with the status, severity, run and text that are asked
-- for.
pub aggregate_session_findings-IsAsked :
    (lower : Text → Text) (now : ℕ) (q : Query) (rs : List Run) (out : List Row)
    → aggregate_session_findings lower now q rs ≡ ok out
    → IsOrdered out × (length out ≤ 500) × All (λ row. IsAsked lower now q rs row) out
aggregate_session_findings-IsAsked lower now q rs out h =
    let n = bounded q.limit in
    let rows = collect lower now q rs in
    subst (λ x. IsOrdered x × (length x ≤ 500) × All (λ row. IsAsked lower now q rs row) x)
      (aggregate_ok lower now q rs out h)
      (
        IsSorted-IsOrdered _ (take-IsSorted n _ (sort_rows-IsSorted rows)),
        omega (arith, length-take n (sort_rows rows), bounded-max q.limit),
        All-of_Has _ _ (λ row u.
            (collect-Has lower now q row rs).0 ((sort_rows-Has row rows).0 (take-Has row n _ u))),
      )

length-insert_row : (r : Row) (rs : List Row) → length (insert_row r rs) ≡ suc (length rs)
unfolding insert_row
length-insert_row r [] = refl
length-insert_row r (x ∷ xs) = elim (Bool-cases (comes_first r x)) [
  | inl e ↦ rw e refl
  | inr e ↦ rw e (omega (arith, length-insert_row r xs))
]

length-sort_rows : (rs : List Row) → length (sort_rows rs) ≡ length rs
unfolding sort_rows
length-sort_rows [] = refl
length-sort_rows (r ∷ rs) = omega (arith, length-insert_row r (sort_rows rs), length-sort_rows rs)

-- Where the findings that a query asks for are at most as many as its limit, a row is returned exactly when the query
-- asks for it.
pub aggregate_session_findings_complete :
    (lower : Text → Text) (now : ℕ) (q : Query) (rs : List Run) (out : List Row) (row : Row)
    → aggregate_session_findings lower now q rs ≡ ok out
    → length (collect lower now q rs) ≤ bounded q.limit
    → Has row out ↔ IsAsked lower now q rs row
aggregate_session_findings_complete lower now q rs out row h b =
    let rows = collect lower now q rs in
    let s = sort_rows-Has row rows in
    let c = collect-Has lower now q row rs in
    subst (λ x. Has row x ↔ IsAsked lower now q rs row)
      (sym (take_short (bounded q.limit) (sort_rows rows) (omega (arith, length-sort_rows rows, b)))
        ∙ aggregate_ok lower now q rs out h)
      (λ u. c.0 (s.0 u), λ u. s.1 (c.1 u))
