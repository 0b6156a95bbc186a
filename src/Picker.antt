-- ===== src/Picker.antt =====
-- public/qaConfigMatrix.js and public/matrixPickerModel.js: which configurations of the catalog a launch selects. A
-- `Set` is a list whose members count, a configuration has the key of its device as a field, and the key of the active
-- family, which is only shown, is left out.
pub mod Exact
pub mod Assigned
use qase.Common.{
  ℕ, suc, String, Bool, true, false, not, Option, none, some, List, [], ◌∷◌, ◌++◌, ◌==◌, ◌&&◌, ◌||◌,
  if◌then◌else◌, contains, map, filter, count, any, Dict, get, set,
}

pub record Configuration : Type 0 where
  pub env_id : String
  -- `deviceKeyOf`
  pub device_key : String
  pub browser_code : String
  -- `isSelectable`
  pub selectable : Bool

pub record Selection : Type 0 where
  pub device_keys : List String
  pub browser_families : List String
  pub deselected : List String
  pub per_browser : Bool
  pub assignments : Dict String

-- `deviceAssignments[familyCode]` is a device.
abbrev pub is_device : String → Option String → Bool
is_device key none = false
is_device key (some d) = d == key

pub takes_per_browser : Selection → Configuration → Bool
takes_per_browser s c =
    c.selectable
    && not (contains c.env_id s.deselected)
    && contains c.browser_code s.browser_families
    && is_device c.device_key (get c.browser_code s.assignments)

unfoldable pub takes_cross : Selection → Configuration → Bool
takes_cross s c =
    c.selectable
    && not (contains c.env_id s.deselected)
    && contains c.device_key s.device_keys
    && contains c.browser_code s.browser_families

-- `computeExplicitSelection`, and `computePerBrowserSelection` in its mode
unfoldable pub compute_explicit_selection : List Configuration → Selection → List String
compute_explicit_selection cs s =
    map (λ c. c.env_id)
      (if s.per_browser then filter (takes_per_browser s) cs else filter (takes_cross s) cs)

-- `effectiveSelectionCount`
unfoldable pub effective_selection_count : List Configuration → Selection → ℕ
effective_selection_count cs s = count (takes_cross s) cs

abbrev pub is_wanted : List String → Configuration → Bool
is_wanted ids c = c.selectable && contains c.env_id ids

-- `exactMatrixSelection`
unfoldable pub exact_matrix_selection : List Configuration → List String → Selection → Selection
exact_matrix_selection index ids previous =
    let rows = filter (is_wanted ids) index in
    let keys = map (λ c. c.device_key) rows in
    let families = previous.browser_families ++ map (λ c. c.browser_code) rows in
    record {
      device_keys = keys;
      browser_families = families;
      deselected =
          map (λ c. c.env_id)
            (filter
              (λ c.
                contains c.device_key keys
                && contains c.browser_code families
                && not (contains c.env_id ids))
              index);
      per_browser = false;
      assignments = [];
    }

abbrev pub without : String → List String → List String
without id ids = filter (λ i. not (i == id)) ids

-- A device with a browser is one of the pairs.
unfoldable pub has_pair : List (String × String) → Configuration → Bool
has_pair [] c = false
has_pair ((d, b) ∷ ps) c =
    if (c.device_key == d) && (c.browser_code == b) then true else has_pair ps c

abbrev pub is_target : List (String × String) → Configuration → Bool
is_target pairs c = c.selectable && has_pair pairs c

-- The loop of `changeMatrixPairs` over the rows.
unfoldable pub change_ids :
    List (String × String) → Bool → List Configuration → List String → List String
change_ids pairs checked [] ids = ids
change_ids pairs checked (c ∷ cs) ids =
    change_ids pairs checked cs (
      if is_target pairs c then (if checked then c.env_id ∷ ids else without c.env_id ids) else ids)

unfoldable pub change_matrix_pairs :
    List Configuration → Selection → List (String × String) → Bool → Selection
change_matrix_pairs index s pairs checked =
    exact_matrix_selection index
      (change_ids pairs checked index (compute_explicit_selection index s)) s

-- `deviceSupportsFamily`
unfoldable pub device_supports_family : List Configuration → String → String → Bool
device_supports_family cs family key =
    any (λ c. (c.browser_code == family) && c.selectable && (c.device_key == key)) cs

-- `defaultDeviceKeyForFamily`
unfoldable pub default_device_key : List Configuration → String → Option String
default_device_key [] family = none
default_device_key (c ∷ cs) family =
    let rest = default_device_key cs family in
    if (c.browser_code == family) && c.selectable then some c.device_key else rest
