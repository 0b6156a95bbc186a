-- ===== src/Examples/Picks.antt =====
-- One cell of the matrix is ticked: public/matrixPickerModel.js.
use qase.Common.{String, true, false, List, [], ◌∷◌, ◌≡◌, map, filter}
use qase.Picker.{Configuration, Selection, compute_explicit_selection, change_matrix_pairs}
use qase.Picker.Exact.{selected_after, change_matrix_pairs_lem}

abbrev row : String → String → String → Configuration
row id device browser = record {
  env_id = id;
  device_key = device;
  browser_code = browser;
  selectable = true;
}

abbrev catalog : List Configuration
catalog =
    row "a" "pixel" "chrome"
    ∷ row "b" "pixel" "firefox"
    ∷ row "c" "imac" "chrome"
    ∷ row "d" "imac" "firefox"
    ∷ []

abbrev picked : Selection
picked = record {
  device_keys = "pixel" ∷ [];
  browser_families = "chrome" ∷ [];
  deselected = [];
  per_browser = false;
  assignments = [];
}

change_matrix_pairs_lem_example :
    compute_explicit_selection catalog
      (change_matrix_pairs catalog picked (("imac", "firefox") ∷ []) true)
    ≡ map
        (λ c. c.env_id)
        (filter (selected_after catalog picked (("imac", "firefox") ∷ []) true) catalog)
change_matrix_pairs_lem_example =
    change_matrix_pairs_lem catalog picked (("imac", "firefox") ∷ []) true
