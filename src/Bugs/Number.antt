-- ===== src/Bugs/Number.antt =====
-- The numbers of bugs in server/bugService.js.
use qase.Common.{
  ℕ, suc, ◌+◌, ◌≤◌, String, none, some, [], ◌∷◌, ◌==◌, ◌≡◌, refl, arith, length, All, Dict, get,
  set, get-set, get_or, length-set_absent, inl, inr, Bool-cases, Option-cases, sym, ◌∙◌, eq_iff, ap,
}
use qase.Common.Result.{ok}
use qase.Bugs.{
  Texts, Input, Fields, Links, Bug, greatest, next_bug_number, normalize_bug_input, create,
}

-- Each bug stands under its number.
abbrev pub IsKeyed : Dict Bug → Type 0
IsKeyed m = All (λ e. e.0 ≡ e.1.bug_number) m

greatest-bound :
    (t : Texts) (k : String) (m : Dict Bug) (b : Bug)
    → IsKeyed m
    → get k m ≡ some b
    → get_or (t.number_of k) 0 ≤ greatest t m
unfolding greatest get
greatest-bound t k [] b a h = absurd cc
greatest-bound t k ((j, c) ∷ m) b (e, a) h = elim (Bool-cases (j == k)) [
  | inl g ↦
      let n : get_or (t.number_of c.bug_number) 0 ≡ get_or (t.number_of k) 0 =
        ap (λ x. get_or (t.number_of x) 0) (sym e ∙ (eq_iff j k).0 g) in
      omega (arith, n)
  | inr g ↦ omega (arith, greatest-bound t k m b a (rw g at h))
]

set-IsKeyed :
    (k : String) (b : Bug) (m : Dict Bug) → k ≡ b.bug_number → IsKeyed m → IsKeyed (set k b m)
unfolding set
set-IsKeyed k b [] e a = (e, tt)
set-IsKeyed k b ((j, c) ∷ m) e a = elim (Bool-cases (j == k)) [
  | inl g ↦ rw g ((eq_iff j k).0 g ∙ e, a.1)
  | inr g ↦ rw g (a.0, set-IsKeyed k b m e a.1)
]

next_bug_number_new :
    (t : Texts) (m : Dict Bug)
    → ((n : ℕ) → t.number_of (t.name_of n) ≡ some n)
    → IsKeyed m
    → get (next_bug_number t m) m ≡ none
unfolding next_bug_number
next_bug_number_new t m p a = elim (Option-cases (get (t.name_of (greatest t m + 1)) m)) [
  | inl e ↦ e
  | inr (b, e) ↦
      let g = greatest-bound t (t.name_of (greatest t m + 1)) m b a e in
      let n : get_or (t.number_of (t.name_of (greatest t m + 1))) 0 ≡ greatest t m + 1 =
        ap (λ o. get_or o 0) (p (greatest t m + 1)) in
      absurd (omega (arith, g, n))
]

-- Where a number can be read from its name, a bug that is created gets a number that no bug has: it stands
-- under that number, no record is overwritten, and every record stands under its own number again.
pub create_is_new :
    (t : Texts) (id : String) (i : Input) (l : Links) (m : Dict Bug) (f : Fields)
    → ((n : ℕ) → t.number_of (t.name_of n) ≡ some n)
    → IsKeyed m
    → normalize_bug_input t i ≡ ok f
    → let o = create t id i l m in
      (b : Bug) × (o.0 ≡ ok b)
      × (get b.bug_number m ≡ none)
      × (get b.bug_number o.1 ≡ some b)
      × (length o.1 ≡ suc (length m))
      × IsKeyed o.1
unfolding create
create_is_new t id i l m f p a h =
    let k = next_bug_number t m in
    let b : Bug = record { id = id; bug_number = k; fields = f; links = l } in
    let n = next_bug_number_new t m p a in
    let g : get k (set k b m) ≡ some b = rw (get-set k k b m, (eq_iff k k).1 refl) refl in
    rw h (b, refl, n, g, length-set_absent k b m n, set-IsKeyed k b m refl a)
