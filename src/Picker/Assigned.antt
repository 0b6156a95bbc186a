-- ===== src/Picker/Assigned.antt =====
-- The counts and the default devices of public/qaConfigMatrix.js.
use qase.Common.{
  String, true, false, some, List, [], ◌∷◌, ◌≡◌, refl, arith, map, filter, any, length,
  length-filter, ◌∙◌, sym, ap, if◌then◌else◌, Bool-cases, inl, inr, eq_iff, some_inj, ◌&&◌, ◌==◌,
}
use qase.Picker.{
  Configuration, Selection, takes_cross, takes_per_browser, compute_explicit_selection,
  effective_selection_count, device_supports_family, default_device_key,
}

length-map {ℓ κ} :
    {A : Type ℓ} {B : Type κ} (f : A → B) (xs : List A) → length (map f xs) ≡ length xs
length-map f [] = refl
length-map f (x ∷ xs) = omega (arith, length-map f xs)

-- In the mode of all pairs, the count is that of the selection.
effective_selection_count-length :
    (cs : List Configuration) (s : Selection)
    → s.per_browser ≡ false
    → effective_selection_count cs s ≡ length (compute_explicit_selection cs s)
unfolding effective_selection_count compute_explicit_selection
effective_selection_count-length cs s h = sym (
    ap
      (λ b. length (
        map (λ (c : Configuration). c.env_id)
          (if b then filter (takes_per_browser s) cs else filter (takes_cross s) cs)))
      h
    ∙ length-map (λ c. c.env_id) (filter (takes_cross s) cs)
    ∙ length-filter (takes_cross s) cs)

-- The default device of a family supports it.
default_device_key_supports :
    (cs : List Configuration) (family key : String)
    → default_device_key cs family ≡ some key
    → device_supports_family cs family key ≡ true
unfolding default_device_key device_supports_family any
default_device_key_supports [] family key h = absurd cc
default_device_key_supports (c ∷ cs) family key h =
    elim (Bool-cases ((c.browser_code == family) && c.selectable)) [
      | inl e ↦ ground (arith, e, eq_iff c.device_key key, some_inj (rw e at h))
      | inr e ↦ ground (arith, default_device_key_supports cs family key (rw e at h))
    ]
