-- ===== src/Secrets/Vault/Normal.antt =====
-- The entries of a vault of server/secrets.js in their normal form, and the maps that hold them.
use qase.Common.{
  ℕ, zero, suc, String, true, false, not, Option, none, some, [], ◌∷◌, ◌++◌, ◌==◌, ◌&&◌, ◌≡◌, refl,
  sym, ap, ◌∙◌, subst, arith, Text, take, if◌then◌else◌, Dict, get, set, get-set, All, Bool-cases,
  inl, inr, eq_iff, some_inj,
}
use qase.Secrets.Vault.{
  Entries, Secrets, fits, put_clean, add_entries, normalized_entries, set_all, entries_max, delete,
}

abbrev pub IsEntry : (String → String) → (String × Text) → Type 0
IsEntry clean (k, t) = (clean k ≡ k) × ((k == "") ≡ false) × (fits t ≡ true)

abbrev pub IsDistinct {ℓ} : {V : Type ℓ} → Dict V → Type ℓ
IsDistinct [] = Unit
IsDistinct ((k, _) ∷ m) = (get k m ≡ none) × IsDistinct m

-- The names of a vault are clean and distinct, and its values fit.
abbrev pub IsVault : (String → String) → Secrets → Type 0
IsVault clean v = All (IsEntry clean) v × IsDistinct v

-- A vault as the entries of a record.
abbrev pub entries_of : Secrets → Entries
entries_of [] = []
entries_of ((k, t) ∷ v) = (k, some t) ∷ entries_of v

set-IsDistinct : (k : String) (t : Text) (m : Secrets) → IsDistinct m → IsDistinct (set k t m)
unfolding get set
set-IsDistinct k t [] h = (refl, tt)
set-IsDistinct k t ((j, w) ∷ m) (h, hs) = elim (Bool-cases (j == k)) [
  | inl e ↦ rw e (h, hs)
  | inr e ↦ rw e (ground (arith, get-set k j t m, eq_iff j k, eq_iff k j), set-IsDistinct k t m hs)
]

set-All {ℓ} :
    (P : String × Text → Type ℓ) (k : String) (t : Text) (m : Secrets)
    → P (k, t)
    → All P m
    → All P (set k t m)
unfolding set
set-All P k t [] p h = (p, tt)
set-All P k t ((j, w) ∷ m) p (h, hs) = elim (Bool-cases (j == k)) [
  | inl e ↦ rw e (subst (λ i. P (i, t)) (sym ((eq_iff j k).0 e)) p, hs)
  | inr e ↦ rw e (h, set-All P k t m p hs)
]

set-IsVault :
    (clean : String → String) (k : String) (t : Text) (v : Secrets)
    → IsEntry clean (k, t)
    → IsVault clean v
    → IsVault clean (set k t v)
set-IsVault clean k t v p (a, d) = (set-All (IsEntry clean) k t v p a, set-IsDistinct k t v d)

put_clean-IsVault :
    (clean : String → String) (name : String) (o : Option Text) (v : Secrets)
    → clean (clean name) ≡ clean name
    → IsVault clean v
    → IsVault clean (put_clean (clean name) o v)
put_clean-IsVault clean name none v c h = h
put_clean-IsVault clean name (some t) v c h = elim (Bool-cases (fits t && not (clean name == ""))) [
  | inl e ↦ rw e (set-IsVault clean (clean name) t v (c, ground arith, ground arith) h)
  | inr e ↦ rw e h
]

add_entries-IsVault :
    (clean : String → String) (es : Entries) (v : Secrets)
    → ((s : String) → clean (clean s) ≡ clean s)
    → IsVault clean v
    → IsVault clean (add_entries clean es v)
unfolding add_entries
add_entries-IsVault clean [] v c h = h
add_entries-IsVault clean ((name, o) ∷ es) v c h =
    add_entries-IsVault clean es _ c (put_clean-IsVault clean name o v (c name) h)

pub normalized_entries-IsVault :
    (clean : String → String) (es : Entries)
    → ((s : String) → clean (clean s) ≡ clean s)
    → IsVault clean (normalized_entries clean es)
unfolding normalized_entries
normalized_entries-IsVault clean es c =
    add_entries-IsVault clean (take entries_max es) [] c (tt, tt)

pub set_all-IsVault :
    (clean : String → String) (es v : Secrets)
    → All (IsEntry clean) es
    → IsVault clean v
    → IsVault clean (set_all es v)
unfolding set_all
set_all-IsVault clean [] v p h = h
set_all-IsVault clean ((k, t) ∷ es) v (p, ps) h =
    set_all-IsVault clean es _ ps (set-IsVault clean k t v p h)

set_absent : (k : String) (t : Text) (m : Secrets) → get k m ≡ none → set k t m ≡ m ++ (k, t) ∷ []
unfolding get set
set_absent k t [] h = refl
set_absent k t ((j, w) ∷ m) h = elim (Bool-cases (j == k)) [
  | inl e ↦ absurd (cc (rw e at h))
  | inr e ↦ rw e (ap (λ z. (j, w) ∷ z) (set_absent k t m (rw e at h)))
]

append_one : (m v : Secrets) (e : String × Text) → (m ++ e ∷ []) ++ v ≡ m ++ e ∷ v
append_one [] v e = refl
append_one (x ∷ m) v e = ap (λ z. x ∷ z) (append_one m v e)

append_none : (m : Secrets) → m ++ [] ≡ m
append_none [] = refl
append_none (x ∷ m) = ap (λ z. x ∷ z) (append_none m)

-- The names of the second are not among the first's.
abbrev IsFresh : Secrets → Secrets → Type 0
IsFresh m v = All (λ e. get e.0 m ≡ none) v

IsFresh-set :
    (k : String) (t : Text) (m v : Secrets) → get k v ≡ none → IsFresh m v → IsFresh (set k t m) v
unfolding get
IsFresh-set k t m [] d f = tt
IsFresh-set k t m ((j, w) ∷ v) d (f, fs) = elim (Bool-cases (j == k)) [
  | inl e ↦ absurd (cc (rw e at d))
  | inr e ↦
      (ground (arith, get-set k j t m, eq_iff j k, eq_iff k j), IsFresh-set k t m v (rw e at d) fs)
]

put_entry :
    (clean : String → String) (k : String) (t : Text) (m : Secrets)
    → IsEntry clean (k, t)
    → put_clean (clean k) (some t) m ≡ set k t m
put_entry clean k t m (c, n, f) = rw (c, n, f) refl

-- Entries that are normal already are taken over as they are.
add_entries-entries_of :
    (clean : String → String) (v m : Secrets)
    → IsVault clean v
    → IsFresh m v
    → add_entries clean (entries_of v) m ≡ m ++ v
unfolding add_entries
add_entries-entries_of clean [] m h f = sym (append_none m)
add_entries-entries_of clean ((k, t) ∷ v) m ((p, ps), (d, ds)) (f, fs) =
    ap (λ z. add_entries clean (entries_of v) z) (put_entry clean k t m p)
    ∙ add_entries-entries_of clean v (set k t m) (ps, ds) (IsFresh-set k t m v d fs)
    ∙ ap (λ z. z ++ v) (set_absent k t m f)
    ∙ append_one m v (k, t)

get-take : (k : String) (n : ℕ) (v : Secrets) → get k v ≡ none → get k (take n v) ≡ none
unfolding get take
get-take k zero v h = refl
get-take k (suc n) [] h = refl
get-take k (suc n) ((j, w) ∷ v) h = elim (Bool-cases (j == k)) [
  | inl e ↦ absurd (cc (rw e at h))
  | inr e ↦ rw e (get-take k n v (rw e at h))
]

pub take-IsVault :
    (clean : String → String) (n : ℕ) (v : Secrets) → IsVault clean v → IsVault clean (take n v)
unfolding take
take-IsVault clean zero v h = (tt, tt)
take-IsVault clean (suc n) [] h = (tt, tt)
take-IsVault clean (suc n) ((k, t) ∷ v) ((p, ps), (d, ds)) =
    let (a, b) = take-IsVault clean n v (ps, ds) in ((p, a), (get-take k n v d, b))

take-entries_of : (n : ℕ) (v : Secrets) → take n (entries_of v) ≡ entries_of (take n v)
unfolding take
take-entries_of zero v = refl
take-entries_of (suc n) [] = refl
take-entries_of (suc n) ((k, t) ∷ v) = ap (λ z. (k, some t) ∷ z) (take-entries_of n v)

all-IsFresh : (v : Secrets) → IsFresh [] v
unfolding get
all-IsFresh [] = tt
all-IsFresh (e ∷ v) = (refl, all-IsFresh v)

pub normalized_entries-entries_of :
    (clean : String → String) (v : Secrets)
    → IsVault clean v
    → normalized_entries clean (entries_of v) ≡ take entries_max v
unfolding normalized_entries
normalized_entries-entries_of clean v h =
    ap (λ es. add_entries clean es []) (take-entries_of entries_max v)
    ∙ add_entries-entries_of clean (take entries_max v) [] (take-IsVault clean entries_max v h)
        (all-IsFresh _)

pub get-set_same {ℓ} : {V : Type ℓ} (k : String) (v : V) (m : Dict V) → get k (set k v m) ≡ some v
get-set_same k v m = rw ((eq_iff k k).1 refl) at (get-set k k v m)

pub get-All {ℓ κ} :
    {V : Type ℓ} (P : V → Type κ) (k : String) (v : V) (m : Dict V)
    → All (λ (e : String × V). P e.1) m
    → get k m ≡ some v
    → P v
unfolding get
get-All P k v [] a h = absurd cc
get-All P k v ((j, w) ∷ m) (p, ps) h = elim (Bool-cases (j == k)) [
  | inl e ↦ subst P (some_inj (rw e at h)) p
  | inr e ↦ get-All P k v m ps (rw e at h)
]

pub get-delete {ℓ} :
    {V : Type ℓ} (k j : String) (m : Dict V)
    → get j (delete k m) ≡ (if k == j then none else get j m)
unfolding get delete
get-delete k j [] = ground arith
get-delete k j ((i, w) ∷ m) = elim (Bool-cases (i == k)) [
  | inl e ↦ rw e (ground (arith, get-delete k j m, eq_iff i k, eq_iff k j, eq_iff i j))
  | inr e ↦ rw e (ground (arith, get-delete k j m, eq_iff i k, eq_iff k j, eq_iff i j))
]
