-- ===== src/Bugs/Normal.antt =====
-- The normal form of a bug in server/bugService.js.
use qase.Common.{
  String, true, Option, none, some, List, [], ◌∷◌, ◌==◌, ◌≡◌, refl, arith, contains, Dict, get, set,
  get_or, All, inl, inr, Bool-cases, Option-cases, subst, ap, ◌∙◌, eq_iff,
}
use qase.Common.Result.{ok, ok_inj}
use qase.Bugs.{
  Texts, Patch, title_of, severities, statuses, Input, Fields, text, trim_steps, fields_of, fault,
  unless, normalize_bug_input, Bug, merge, update,
}

-- A patch of nothing.
abbrev pub no_patch : Patch
no_patch = record {
  title = none;
  description = none;
  severity = none;
  status = none;
  category = none;
  expected = none;
  actual = none;
  steps = none;
}

-- What the code relies on of the language's texts: a trimmed text and the empty one have nothing to trim, and the words
-- for severities and statuses are in lower case.
abbrev pub IsPlain : Texts → Type 0
IsPlain t =
    ((s : String) → t.trim (t.trim s) ≡ t.trim s)
    × (t.trim "" ≡ "")
    × All (λ s. t.lower s ≡ s) severities
    × All (λ s. t.lower s ≡ s) statuses

contains-All {ℓ} :
    (P : String → Type ℓ) (s : String) (xs : List String) → All P xs → contains s xs ≡ true → P s
unfolding contains
contains-All P s [] a h = absurd cc
contains-All P s (x ∷ xs) a h = elim (Bool-cases (x == s)) [
  | inl e ↦ subst P ((eq_iff x s).0 e) a.0
  | inr e ↦ contains-All P s xs a.1 (rw e at h)
]

text_twice :
    (t : Texts) (o : Option String)
    → ((s : String) → t.trim (t.trim s) ≡ t.trim s)
    → text t (text t o) ≡ text t o
text_twice t none p = refl
text_twice t (some v) p = elim (Bool-cases (t.trim v == "")) [
  | inl e ↦ rw e refl
  | inr e ↦ rw e (rw (p v, e) refl)
]

title_twice :
    (t : Texts) (o : Option String)
    → ((s : String) → t.trim (t.trim s) ≡ t.trim s)
    → t.trim "" ≡ ""
    → t.trim (title_of t o) ≡ title_of t o
title_twice t none p e = e
title_twice t (some v) p e = p v

trim_steps_twice :
    (t : Texts) (xs : List String)
    → ((s : String) → t.trim (t.trim s) ≡ t.trim s)
    → trim_steps t (trim_steps t xs) ≡ trim_steps t xs
unfolding trim_steps
trim_steps_twice t [] p = refl
trim_steps_twice t (x ∷ xs) p = elim (Bool-cases (t.trim x == "")) [
  | inl e ↦ rw e (trim_steps_twice t xs p)
  | inr e ↦ rw e (rw (p x, e, trim_steps_twice t xs p) refl)
]

fault-severity :
    (t : Texts) (f : Fields)
    → fault t f ≡ none
    → (contains f.severity severities ≡ true) × (contains f.status statuses ≡ true)
unfolding fault
fault-severity t f h = ground arith

normalize-ok :
    (t : Texts) (i : Input) (f : Fields)
    → normalize_bug_input t i ≡ ok f
    → (fields_of t i ≡ f) × (fault t f ≡ none)
unfolding normalize_bug_input
normalize-ok t i f h = elim (Option-cases (fault t (fields_of t i))) [
  | inl e ↦ let g = ok_inj (rw e at h) in (g, subst (λ x. fault t x ≡ none) g e)
  | inr (x, e) ↦ absurd (cc (rw e at h))
]

-- The fields that are read back from a bug are normalized to themselves.
fields_of-merge :
    (t : Texts) (i : Input) (f : Fields)
    → IsPlain t
    → normalize_bug_input t i ≡ ok f
    → fields_of t (merge no_patch f) ≡ f
unfolding fields_of merge
fields_of-merge t i f p h =
    let n = normalize-ok t i f h in
    let c = fault-severity t f n.1 in
    let a = contains-All (λ s. t.lower s ≡ s) f.severity severities p.2 c.0 in
    let b = contains-All (λ s. t.lower s ≡ s) f.status statuses p.3 c.1 in
    let title : t.trim f.title ≡ f.title =
      subst (λ x. t.trim x.title ≡ x.title) n.0 (title_twice t i.title p.0 p.1) in
    let description : text t f.description ≡ f.description =
      subst (λ x. text t x.description ≡ x.description) n.0 (text_twice t i.description p.0) in
    let category : text t f.category ≡ f.category =
      subst (λ x. text t x.category ≡ x.category) n.0 (text_twice t i.category p.0) in
    let expected : text t f.expected ≡ f.expected =
      subst (λ x. text t x.expected ≡ x.expected) n.0 (text_twice t i.expected p.0) in
    let actual : text t f.actual ≡ f.actual =
      subst (λ x. text t x.actual ≡ x.actual) n.0 (text_twice t i.actual p.0) in
    let steps : trim_steps t f.steps ≡ f.steps =
      subst (λ x. trim_steps t x.steps ≡ x.steps) n.0
        (trim_steps_twice t (get_or i.steps []) p.0) in
    rw (a, b) (rw (title, description, category, expected, actual, steps) refl)

normalize-merge :
    (t : Texts) (i : Input) (f : Fields)
    → IsPlain t
    → normalize_bug_input t i ≡ ok f
    → normalize_bug_input t (merge no_patch f) ≡ ok f
unfolding normalize_bug_input
normalize-merge t i f p h =
    let n : unless (fault t f) f ≡ ok f = rw ((normalize-ok t i f h).1) refl in
    ap (λ x. unless (fault t x) x) (fields_of-merge t i f p h) ∙ n

-- An update that changes nothing is accepted, whatever was reported: the bug keeps the fields that were
-- stored, so that the normal form of a report is normal.
pub update_nothing :
    (t : Texts) (i : Input) (k : String) (b : Bug) (m : Dict Bug)
    → IsPlain t
    → get k m ≡ some b
    → normalize_bug_input t i ≡ ok b.fields
    → update t k no_patch m ≡ (ok (some b), set k b m)
unfolding update
update_nothing t i k b m p g h = rw (g, normalize-merge t i b.fields p h) refl
