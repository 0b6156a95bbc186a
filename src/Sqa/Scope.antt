-- ===== src/Sqa/Scope.antt =====
-- `normalizeStringSelection` and `resolveSqaScope` of server/sqaCatalog.js, on a catalog that
-- `validateSqaCatalog` accepted.
pub mod Applicable
use qase.Common.{
  String, Bool, true, false, Option, none, some, List, [], ◌∷◌, ◌++◌, any, contains, if◌then◌else◌,
  not, ◌&&◌, get_or,
}
use qase.Common.Result.{Result, ok, err, ◌>>=◌}
use qase.Sqa.Types.{Mode, Control}

pub data Unknown : Type 0 where
  unknown_profile unknown_attribute : String → Unknown

-- The loop of `normalizeStringSelection`, with the values that are left and those kept so far.
unfoldable pub select :
    (String → Unknown) → List String → List String → List String → Result Unknown (List String)
select refuse allowed unique [] = ok unique
select refuse allowed unique (v ∷ vs) =
    let rest = select refuse allowed (if contains v unique then unique else unique ++ v ∷ []) vs in
    if contains v allowed then rest else err (refuse v)

-- `required.every(attribute => selectedAttributes.includes(attribute))`
unfoldable pub includes_all : List String → List String → Bool
includes_all selected [] = true
includes_all selected (a ∷ as') = if contains a selected then includes_all selected as' else false

-- Whether a control of one of the profiles applies to the attributes.
unfoldable pub applies : List String → Control → Bool
applies attributes c = elim c.mode [
  | Mode.always ↦ true
  | Mode.any_of ↦ any (λ a. contains a attributes) c.attributes
  | Mode.all_of ↦ includes_all attributes c.attributes
]

unfoldable pub has_profile : List String → Control → Bool
has_profile profiles c = any (λ p. contains p profiles) c.profiles

pub record Scope : Type 0 where
  pub profiles : List String
  pub attributes : List String
  pub applicable : List Control
  pub excluded : List String

-- The loop over the controls of the catalog.
unfoldable pub split_controls :
    List String → List String → List Control → List Control × List String
split_controls profiles attributes [] = ([], [])
split_controls profiles attributes (c ∷ cs) =
    let (inside, outside) = split_controls profiles attributes cs in
    if has_profile profiles c
    then if applies attributes c then (c ∷ inside, outside) else (inside, c.id ∷ outside)
    else (inside, outside)

-- `resolveSqaScope`: `known_profiles` and `known_attributes` are those of the catalog.
unfoldable pub resolve_scope :
    (known_profiles known_attributes : List String)
    → List Control
    → Option (List String)
    → Option (List String)
    → Result Unknown Scope
unfolding select
resolve_scope known_profiles known_attributes controls profiles attributes =
    select unknown_profile known_profiles [] (get_or profiles ("core" ∷ [])) >>= λ chosen.
    let selected = if contains "core" chosen then chosen else "core" ∷ chosen in
    select unknown_attribute known_attributes [] (get_or attributes []) >>= λ selected_attributes.
    let (inside, outside) = split_controls selected selected_attributes controls in
    ok (record {
      profiles = selected;
      attributes = selected_attributes;
      applicable = inside;
      excluded = outside;
    })
