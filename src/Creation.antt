-- ===== src/Creation.antt =====
-- server/matrixService.js, `create`: from what a launch asks for to the items of the run. The support of
-- a browser is resolved as in server/browserSupportResolution.js, by an argument here; so are the text
-- operations. A version stands for its number, and the texts of reasons are left to their kind.
pub mod Pinned
pub mod Expanded
use qase.Common.{
  ℕ, String, Bool, true, false, not, Option, none, some, List, [], ◌∷◌, ◌++◌, ◌==◌, ◌&&◌, ◌||◌,
  if◌then◌else◌, ltb, contains, filter, map, get_or, or_else,
}
use qase.Common.Result.{Result, ok, err, ◌>>=◌}
use qase.Matrix.Item.{Status}
use qase.Support.{Support, is_executable}

-- An environment of the catalog: a device with an operating system and a browser in a version.
pub record Env : Type 0 where
  pub env_id : String
  pub platform : String
  pub device : String
  pub os_version : String
  pub browser_code : String
  pub browser_version : ℕ

-- A requested profile, with browsers of its own where it names some.
pub record Request : Type 0 where
  pub env_id : String
  pub browsers : List String

pub data Reason : Type 0 where
  executable deselection not_offered not_supported vanished : Reason

pub record Spec : Type 0 where
  pub env_id : String
  pub env : Option Env
  pub browser_code : String
  pub status : Status
  pub reason : Reason

pub data Error : Type 0 where
  no_profile no_browser no_configuration no_target bad_target : Error
  unknown_environment : String → Error
  unresolved : Error
  no_test_case : Error

-- `resolveBrowserSupport`, for a code.
abbrev pub Resolver : Type 0
Resolver = String → Option Support

-- `new Map(environments.map((env) => [env.envId, env]))`: the last record of an id counts.
unfoldable pub by_env_id : String → List Env → Option Env
by_env_id k [] = none
by_env_id k (e ∷ es) = or_else (by_env_id k es) (if e.env_id == k then some e else none)

abbrev pub same_family : Env → Env → Bool
same_family a b =
    (a.platform == b.platform) && (a.device == b.device) && (a.os_version == b.os_version)

abbrev pub newer : Env → Option Env → Env
newer e none = e
newer e (some x) = if ltb e.browser_version x.browser_version then x else e

-- The head of the family's records of a browser, sorted by falling version.
unfoldable pub newest : List Env → Option Env
newest [] = none
newest (e ∷ es) = some (newer e (newest es))

-- `targets[0]`
unfoldable pub target_of : List Env → Env → String → Option Env
target_of envs e code = newest (filter (λ x. x.browser_code == code) (filter (same_family e) envs))

-- `[...new Set(xs)]`, after what has been seen.
unfoldable pub distinct : List String → List String → List String
distinct seen [] = []
distinct seen (x ∷ xs) =
    if contains x seen then distinct seen xs else x ∷ distinct (seen ++ x ∷ []) xs

abbrev pub offered : Reason → Status → Env → String → Spec
offered reason status e code = record {
  env_id = e.env_id;
  env = some e;
  browser_code = code;
  status = status;
  reason = reason;
}

-- The item for a browser that the family offers.
unfoldable pub spec_for : List String → List String → Support → Env → String → Spec
spec_for selected deselected s target code =
    if not (is_executable s)
    then offered Reason.not_supported Status.not_supported target code
    else if not (contains code selected) || contains code deselected
    then offered Reason.deselection Status.not_run target code
    else offered Reason.executable Status.pending target code

-- The items so far and the pairs of environment and browser that have been seen.
abbrev pub Progress : Type 0
Progress = List Spec × List (String × String)

unfoldable pub seen_pair : String → String → List (String × String) → Bool
seen_pair e c [] = false
seen_pair e c ((a, b) ∷ ps) = if (a == e) && (b == c) then true else seen_pair e c ps

unfoldable pub add_target :
    List String → List String → Support → Env → String → Option Env → Progress → Progress
unfolding spec_for
add_target selected deselected s e code none (items, seen) =
    (items ++ offered Reason.not_offered Status.not_supported e code ∷ [], seen)
add_target selected deselected s e code (some target) (items, seen) =
    if seen_pair e.env_id code seen
    then (items, seen)
    else (items ++ spec_for selected deselected s target code ∷ [], seen ++ (e.env_id, code) ∷ [])

-- A value or the exception for its lack.
abbrev pub found {ℓ} : {A : Type ℓ} → Error → Option A → Result Error A
found x none = err x
found x (some a) = ok a

-- The loop over the browsers of a profile.
unfoldable pub add_browsers :
    Resolver
    → List String
    → List String
    → List Env
    → Env
    → List String
    → Progress
    → Result Error Progress
unfolding add_target target_of
add_browsers resolve selected deselected envs e [] p = ok p
add_browsers resolve selected deselected envs e (code ∷ codes) p =
    found unresolved (resolve code) >>= λ s.
    add_browsers resolve selected deselected envs e codes
      (add_target selected deselected s e code (target_of envs e code) p)

-- The browsers of a profile: its own, else the run's.
abbrev pub browsers_of : List String → List String → Request → List String
browsers_of selected deselected r = elim r.browsers [
  | [] ↦ distinct [] (selected ++ deselected)
  | c ∷ cs ↦ c ∷ cs
]

-- The loop over the profiles.
unfoldable pub add_profiles :
    Resolver
    → List String
    → List String
    → List Env
    → List Request
    → Progress
    → Result Error Progress
unfolding add_browsers
add_profiles resolve selected deselected envs [] p = ok p
add_profiles resolve selected deselected envs (r ∷ rs) p =
    found (unknown_environment r.env_id) (by_env_id r.env_id envs)
    >>= (λ e. add_browsers resolve selected deselected envs e (browsers_of selected deselected r) p)
    >>= add_profiles resolve selected deselected envs rs

abbrev items_of : Result Error Progress → Result Error (List Spec)
items_of (ok p) = ok p.0
items_of (err x) = err x

-- `expandMatrixItems`
unfoldable pub expand_matrix_items :
    Resolver → List Env → List Request → List String → List String → Result Error (List Spec)
unfolding add_profiles
expand_matrix_items resolve envs [] selected deselected = err no_profile
expand_matrix_items resolve envs (r ∷ rs) [] deselected = err no_browser
expand_matrix_items resolve envs (r ∷ rs) (c ∷ cs) deselected =
    items_of (add_profiles resolve (c ∷ cs) deselected envs (r ∷ rs) ([], []))

pub pin_env : Env → Option Support → Result Error Spec
pin_env e none = err unresolved
pin_env e (some s) = ok (
    if is_executable s
    then offered Reason.executable Status.pending e e.browser_code
    else offered Reason.not_supported Status.not_supported e e.browser_code)

-- One pinned configuration.
pub pin : Resolver → String → Option Env → Result Error Spec
unfolding pin_env
pin resolve id none = ok (record {
  env_id = id;
  env = none;
  browser_code = "unknown";
  status = Status.blocked;
  reason = Reason.vanished;
})
pin resolve id (some e) = pin_env e (resolve e.browser_code)

-- The loop of the launcher mode over its distinct configurations.
pub pin_all : Resolver → List Env → List String → Result Error (List Spec)
unfolding pin
pin_all resolve envs [] = ok []
pin_all resolve envs (id ∷ ids) =
    pin resolve id (by_env_id id envs) >>= λ x. pin_all resolve envs ids >>= λ xs. ok (x ∷ xs)

pub pin_configurations : Resolver → List Env → List String → Result Error (List Spec)
unfolding pin_all
pin_configurations resolve envs ids = pin_all resolve envs (distinct [] ids)

-- A rule of DEFAULT_PROFILE_RULES.
pub record Rule : Type 0 where
  pub id : String
  pub platform : String
  pub device : String
  pub os_version : String

abbrev rule : String → String → String → String → Rule
rule id platform device os_version = record {
  id = id;
  platform = platform;
  device = device;
  os_version = os_version;
}

-- DEFAULT_PROFILE_RULES
abbrev pub default_profile_rules : List Rule
default_profile_rules =
    rule "iphone" "ios" "iPhone 17 Pro" "26.0"
    ∷ rule "android-phone" "android" "Pixel 9" "16"
    ∷ rule "ipad" "ipados" "iPad Pro 13 (M4)" "26.0"
    ∷ rule "android-tablet" "android" "Galaxy Tab S9" "15"
    ∷ rule "windows" "windows" "Windows Laptop" "11"
    ∷ rule "macos" "macos" "MacBook Air (M3)" "Tahoe"
    ∷ []

abbrev pub matches : Rule → Env → Bool
matches r e = (e.platform == r.platform) && (e.device == r.device) && (e.os_version == r.os_version)

-- `listEnvironments.find(…)`
unfoldable pub find_env : (Env → Bool) → List Env → Option Env
find_env p [] = none
find_env p (e ∷ es) = if p e then some e else find_env p es

abbrev resolved : Rule → Option Env → List (String × String) → List (String × String)
resolved r none rest = rest
resolved r (some e) rest = (r.id, e.env_id) ∷ rest

pub resolve_rules : List Rule → List Env → List (String × String)
resolve_rules [] envs = []
resolve_rules (r ∷ rs) envs = resolved r (find_env (matches r) envs) (resolve_rules rs envs)

-- `resolveDefaultProfiles`: pairs of a rule and an environment.
pub resolve_default_profiles : List Env → List (String × String)
unfolding resolve_rules
resolve_default_profiles envs = resolve_rules default_profile_rules envs

-- What `create` reads of its input, texts trimmed.
pub record Input : Type 0 where
  pub test_case_id : String
  pub target_url : String
  pub configuration_env_ids : Option (List String)
  pub selected_browsers : Option (List String)
  pub browsers : Option (List String)
  pub profiles : Option (List Request)

abbrev all_browsers : List String
all_browsers = "chrome" ∷ "edge" ∷ "firefox" ∷ "safari" ∷ "opera" ∷ "brave" ∷ "duckduckgo" ∷ []

abbrev deselected_of : List String → Option (List String) → List String
deselected_of selected none = []
deselected_of selected (some kept) = filter (λ code. not (contains code kept)) selected

abbrev plain_request : String → Request
plain_request id = record { env_id = id; browsers = [] }

abbrev profiles_of : List Env → Option (List Request) → List Request
profiles_of envs none = map (λ p. plain_request p.1) (resolve_default_profiles envs)
profiles_of envs (some rs) = rs

-- `input.configurationEnvIds.map(String).filter(Boolean)`
abbrev configurations_of : Option (List String) → Option (List String)
configurations_of none = none
configurations_of (some ids) = some (filter (λ id. not (id == "")) ids)

abbrev is_empty_selection : Option (List String) → Bool
is_empty_selection (some []) = true
is_empty_selection _ = false

-- The items, by the mode of the launch: pinned configurations or profiles and browsers.
pub specs_of : Resolver → List Env → Input → Option (List String) → Result Error (List Spec)
unfolding pin_configurations expand_matrix_items
specs_of resolve envs i none =
    let selected = get_or i.selected_browsers all_browsers in
    expand_matrix_items resolve envs (profiles_of envs i.profiles) selected
      (deselected_of selected i.browsers)
specs_of resolve envs i (some ids) = pin_configurations resolve envs ids

-- `create`, up to the items; `is_http` is the test of the address, `has_case` says whether the test case
-- is there.
pub create :
    (String → Bool) → (String → Bool) → Resolver → List Env → Input → Result Error (List Spec)
unfolding specs_of
create is_http has_case resolve envs i =
    let blank = i.test_case_id == "" in
    let ids = configurations_of i.configuration_env_ids in
    if blank && (i.target_url == "")
    then err no_target
    else if not (is_http i.target_url)
    then err bad_target
    else if is_empty_selection ids
    then err no_configuration
    else if not blank && not (has_case i.test_case_id)
    then err no_test_case
    else specs_of resolve envs i ids
