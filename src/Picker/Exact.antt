-- ===== src/Picker/Exact.antt =====
-- That public/matrixPickerModel.js encodes a set of configurations exactly.
use qase.Common.{
  String, Bool, true, false, not, List, [], ◌∷◌, ◌++◌, ◌==◌, ◌&&◌, ◌||◌, if◌then◌else◌, contains,
  map, filter, any, All, ◌≡◌, refl, sym, ap, ◌∙◌, arith, Bool-cases, inl, inr, eq_iff, ◌⊎◌, subst,
}
use qase.Picker.{
  Configuration, Selection, takes_cross, compute_explicit_selection, is_wanted,
  exact_matrix_selection, without, is_target, change_ids, change_matrix_pairs,
}

contains-append :
    (k : String) (xs ys : List String) → contains k (xs ++ ys) ≡ contains k xs || contains k ys
unfolding contains
contains-append k [] ys = ground arith
contains-append k (x ∷ xs) ys = ground (arith, contains-append k xs ys)

filter-cong {ℓ} :
    {A : Type ℓ} (p q : A → Bool) (xs : List A)
    → All (λ x. p x ≡ q x) xs
    → filter p xs ≡ filter q xs
unfolding filter
filter-cong p q [] h = refl
filter-cong p q (x ∷ xs) (h, hs) = rw h (elim (Bool-cases (q x)) [
  | inl e ↦ rw e (ap (λ z. x ∷ z) (filter-cong p q xs hs))
  | inr e ↦ rw e (filter-cong p q xs hs)
])

contains-cons : (k x : String) (xs : List String) → contains k (x ∷ xs) ≡ (x == k) || contains k xs
unfolding contains
contains-cons k x xs = ground arith

-- What a field of the rows that pass a test contains: that of each row that passes.
covers : (Configuration → String) → (Configuration → Bool) → List String → Configuration → Bool
covers f p ks c = p c && not (contains (f c) ks)

covers-cons :
    (f : Configuration → String) (p : Configuration → Bool) (k : String) (ks : List String)
    (cs : List Configuration)
    → All (λ c. covers f p ks c ≡ false) cs
    → All (λ c. covers f p (k ∷ ks) c ≡ false) cs
unfolding covers
covers-cons f p k ks [] h = tt
covers-cons f p k ks (c ∷ cs) (h, hs) =
    (ground (arith, h, contains-cons (f c) k ks), covers-cons f p k ks cs hs)

covers_head :
    (f : Configuration → String) (p : Configuration → Bool) (c : Configuration) (ks : List String)
    → covers f p (f c ∷ ks) c ≡ false
unfolding covers
covers_head f p c ks = ground (arith, contains-cons (f c) (f c) ks, (eq_iff (f c) (f c)).1 refl)

covers_not :
    (f : Configuration → String) (p : Configuration → Bool) (c : Configuration) (ks : List String)
    → p c ≡ false
    → covers f p ks c ≡ false
unfolding covers
covers_not f p c ks e = rw e refl

filter-cases :
    (p : Configuration → Bool) (c : Configuration) (cs : List Configuration)
    → ((p c ≡ true) × (filter p (c ∷ cs) ≡ c ∷ filter p cs))
      ⊎ ((p c ≡ false) × (filter p (c ∷ cs) ≡ filter p cs))
unfolding filter
filter-cases p c cs = elim (Bool-cases (p c)) [
  | inl e ↦ inl (e, rw e refl)
  | inr e ↦ inr (e, rw e refl)
]

passing-contains :
    (f : Configuration → String) (p : Configuration → Bool) (cs : List Configuration)
    → All (λ c. covers f p (map f (filter p cs)) c ≡ false) cs
passing-contains f p [] = tt
passing-contains f p (c ∷ cs) = elim (filter-cases p c cs) [
  | inl (e, g) ↦
      subst (λ zs. All (λ x. covers f p (map f zs) x ≡ false) (c ∷ cs)) (sym g)
        (
          covers_head f p c (map f (filter p cs)),
          covers-cons f p (f c) (map f (filter p cs)) cs (passing-contains f p cs),
        )
  | inr (e, g) ↦
      subst (λ zs. All (λ x. covers f p (map f zs) x ≡ false) (c ∷ cs)) (sym g)
        (covers_not f p c (map f (filter p cs)) e, passing-contains f p cs)
]

-- And nothing that no row that passes has.
failing-contains :
    (f : Configuration → String) (p : Configuration → Bool) (k : String) (cs : List Configuration)
    → ((c : Configuration) → f c ≡ k → p c ≡ false)
    → contains k (map f (filter p cs)) ≡ false
unfolding contains filter
failing-contains f p k [] h = refl
failing-contains f p k (c ∷ cs) h = elim (Bool-cases (p c)) [
  | inl e ↦ elim (Bool-cases (f c == k)) [
    | inl g ↦ absurd (cc (h c ((eq_iff (f c) k).0 g)))
    | inr g ↦ rw (e, g) (failing-contains f p k cs h)
  ]
  | inr e ↦ rw e (failing-contains f p k cs h)
]

-- The tests on one row, and what the lists that are tested contain.
encoded_tests :
    (sel wanted in_keys in_rows in_previous in_dropped : Bool)
    → (sel && wanted) && not in_keys ≡ false
    → (sel && wanted) && not in_rows ≡ false
    → (in_keys && (in_previous || in_rows) && not wanted) && not in_dropped ≡ false
    → (wanted ≡ true → in_dropped ≡ false)
    → sel && not in_dropped && in_keys && (in_previous || in_rows) ≡ sel && wanted
encoded_tests sel wanted in_keys in_rows in_previous in_dropped k b d n = ground (arith, n)

module _ (index : List Configuration) (ids : List String) (previous : Selection) where
  abbrev keys : List String
  keys = map (λ c. c.device_key) (filter (is_wanted ids) index)

  abbrev codes : List String
  codes = map (λ c. c.browser_code) (filter (is_wanted ids) index)

  abbrev dropped : Configuration → Bool
  dropped c =
      contains c.device_key keys
      && contains c.browser_code (previous.browser_families ++ codes)
      && not (contains c.env_id ids)

  abbrev dropped_ids : List String
  dropped_ids = map (λ c. c.env_id) (filter dropped index)

  not_dropped : (k : String) → contains k ids ≡ true → contains k dropped_ids ≡ false
  not_dropped k h =
      failing-contains (λ c. c.env_id) dropped k index
        (λ c e. ground (arith, ap (λ z. contains z ids) e ∙ h))

  encoded-All :
      (cs : List Configuration)
      → All (λ c. covers (λ x. x.device_key) (is_wanted ids) keys c ≡ false) cs
      → All (λ c. covers (λ x. x.browser_code) (is_wanted ids) codes c ≡ false) cs
      → All (λ c. covers (λ x. x.env_id) dropped dropped_ids c ≡ false) cs
      → All (λ c. takes_cross (exact_matrix_selection index ids previous) c ≡ is_wanted ids c) cs
  unfolding takes_cross exact_matrix_selection covers
  encoded-All [] k b d = tt
  encoded-All (c ∷ cs) (k, ks) (b, bs) (d, ds) = (
    rw (contains-append c.browser_code previous.browser_families codes) (
        encoded_tests c.selectable (contains c.env_id ids) (contains c.device_key keys)
          (contains c.browser_code codes) (contains c.browser_code previous.browser_families)
          (contains c.env_id dropped_ids) k b
          (rw (contains-append c.browser_code previous.browser_families codes) at d)
          (not_dropped c.env_id)),
    encoded-All cs ks bs ds,
  )

  -- The selection that encodes a set of ids selects the configurations of the catalog that are selectable and have one
  -- of them, and no others, whatever families were selected before.
  pub exact_matrix_selection_lem :
      compute_explicit_selection index (exact_matrix_selection index ids previous)
      ≡ map (λ c. c.env_id) (filter (is_wanted ids) index)
  unfolding compute_explicit_selection exact_matrix_selection
  exact_matrix_selection_lem = ap (map (λ c. c.env_id)) (
      filter-cong (takes_cross (exact_matrix_selection index ids previous)) (is_wanted ids) index (
        encoded-All index (passing-contains _ (is_wanted ids) index)
          (passing-contains _ (is_wanted ids) index) (passing-contains _ dropped index)))

-- A target has an id.
pub has_target : List (String × String) → String → List Configuration → Bool
has_target pairs id cs = any (λ c. is_target pairs c && (c.env_id == id)) cs

contains-without :
    (id e : String) (ids : List String)
    → contains id (without e ids) ≡ not (e == id) && contains id ids
unfolding contains filter
contains-without id e [] = ground arith
contains-without id e (i ∷ ids) = elim (Bool-cases (i == e)) [
  | inl g ↦
      rw g (ground (arith, contains-without id e ids, (eq_iff i e).0 g, eq_iff i id, eq_iff e id))
  | inr g ↦ rw g (
      rw (contains-cons id i (without e ids), contains-cons id i ids)
        (ground (arith, contains-without id e ids, eq_iff i e, eq_iff i id, eq_iff e id)))
]

changed_id :
    (t checked : Bool) (id e : String) (ids : List String)
    → contains id (if t then (if checked then e ∷ ids else without e ids) else ids)
      ≡ (if t && (e == id) then checked else contains id ids)
changed_id true true id e ids = contains-cons id e ids ∙ ground arith
changed_id true false id e ids = contains-without id e ids ∙ ground arith
changed_id false checked id e ids = refl

join_tests :
    (t a checked b : Bool)
    → (if a then checked else (if t then checked else b))
      ≡ (if (if t then true else a) then checked else b)
join_tests true true checked b = refl
join_tests true false checked b = refl
join_tests false true checked b = refl
join_tests false false checked b = refl

change_ids-contains :
    (pairs : List (String × String)) (checked : Bool) (id : String) (cs : List Configuration)
    (ids : List String)
    → contains id (change_ids pairs checked cs ids)
      ≡ (if has_target pairs id cs then checked else contains id ids)
unfolding change_ids has_target any
change_ids-contains pairs checked id [] ids = refl
change_ids-contains pairs checked id (c ∷ cs) ids =
    let t = is_target pairs c in
    change_ids-contains pairs checked id cs
      (if t then (if checked then c.env_id ∷ ids else without c.env_id ids) else ids)
    ∙ ap (λ z. if has_target pairs id cs then checked else z) (changed_id t checked id c.env_id ids)
    ∙ join_tests (t && (c.env_id == id)) (has_target pairs id cs) checked (contains id ids)

abbrev pub selected_after :
    (index : List Configuration) (s : Selection) (pairs : List (String × String)) (checked : Bool)
    → Configuration
    → Bool
selected_after index s pairs checked c =
    c.selectable
    && (if has_target pairs c.env_id index
        then checked
        else contains c.env_id (compute_explicit_selection index s))

All-refl :
    (p q : Configuration → Bool) (cs : List Configuration)
    → ((c : Configuration) → p c ≡ q c)
    → All (λ c. p c ≡ q c) cs
All-refl p q [] h = tt
All-refl p q (c ∷ cs) h = (h c, All-refl p q cs h)

-- A change of some pairs of a device and a browser changes these only: afterwards the configurations of the pairs are
-- selected or not, as was asked for, and every other selectable one of the catalog is selected as it was before.
pub change_matrix_pairs_lem :
    (index : List Configuration) (s : Selection) (pairs : List (String × String)) (checked : Bool)
    → compute_explicit_selection index (change_matrix_pairs index s pairs checked)
      ≡ map (λ c. c.env_id) (filter (selected_after index s pairs checked) index)
unfolding change_matrix_pairs
change_matrix_pairs_lem index s pairs checked =
    let ids = change_ids pairs checked index (compute_explicit_selection index s) in
    exact_matrix_selection_lem index ids s
    ∙ ap (map (λ c. c.env_id)) (
        filter-cong (is_wanted ids) (selected_after index s pairs checked) index (
          All-refl _ _ index (λ c.
            ap (λ z. c.selectable && z)
              (change_ids-contains pairs checked c.env_id index
                (compute_explicit_selection index s)))))
