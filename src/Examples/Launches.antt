-- ===== src/Examples/Launches.antt =====
-- A launch over a small catalog: server/matrixService.js and server/browserSupportResolution.js.
use qase.Common.{
  String, false, none, some, List, [], ◌∷◌, ◌≡◌, ◌==◌, refl, contains, All, filter, if◌then◌else◌,
}
use qase.Common.Result.{ok, err}
use qase.Support.{supported, type_error, Texts, unknown_resolution, is_executable_browser}
use qase.Support.Resolution.{is_answered, executable_codes, is_executable_browser_lem}
use qase.Creation.{
  Env, Spec, Resolver, distinct, by_env_id, add_profiles, add_browsers, add_target, target_of,
  spec_for, newest, seen_pair, expand_matrix_items,
}
use qase.Creation.Expanded.{IsJustified, expand_matrix_items-IsJustified}

abbrev texts : Texts
texts = record { lower = λ s. s; says_failed = λ s. false }

is_executable_browser_lem_example : is_executable_browser texts none none "constructor" ≡ (
    if is_answered "constructor"
    then err type_error
    else ok (contains "constructor" executable_codes))
is_executable_browser_lem_example =
    is_executable_browser_lem texts none none "constructor"
      (refl, (refl, (refl, (refl, (refl, (refl, (refl, (refl, (refl, (refl, tt))))))))))

abbrev env : String → String → String → Env
env id platform browser = record {
  env_id = id;
  platform = platform;
  device = "Laptop";
  os_version = "11";
  browser_code = browser;
  browser_version = 120;
}

abbrev catalog : List Env
catalog =
    env "e1" "windows" "chrome"
    ∷ env "e2" "windows" "duckduckgo"
    ∷ env "e3" "windows" "firefox"
    ∷ []

-- What is resolved here of a browser.
abbrev resolver : Resolver
resolver code =
    if code == "duckduckgo"
    then some (unknown_resolution code)
    else some (record (unknown_resolution code) { status = supported })

expanded :
    (xs : List Spec) × (expand_matrix_items resolver catalog
        (record { env_id = "e1"; browsers = [] } ∷ [])
        ("chrome" ∷ "firefox" ∷ "duckduckgo" ∷ [])
        ("firefox" ∷ [])
      ≡ ok xs)
unfolding expand_matrix_items add_profiles add_browsers add_target target_of spec_for distinct
    by_env_id newest seen_pair filter contains
expanded = (_, refl)

expand_matrix_items-IsJustified_example :
    All
      (IsJustified resolver ("chrome" ∷ "firefox" ∷ "duckduckgo" ∷ []) ("firefox" ∷ []))
      expanded.0
expand_matrix_items-IsJustified_example =
    expand_matrix_items-IsJustified resolver catalog (record { env_id = "e1"; browsers = [] } ∷ [])
      ("chrome" ∷ "firefox" ∷ "duckduckgo" ∷ []) ("firefox" ∷ []) expanded.0 expanded.1
