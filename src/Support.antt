-- ===== src/Support.antt =====
-- server/browserSupportResolution.js: can a browser be executed on this host. A reason is kept as what it
-- is made from; the lower case of a text and the start of a reason are arguments, and so are the
-- entries of the registry of local browsers.
pub mod Resolution
use qase.Common.{
  String, Bool, true, false, not, Option, none, some, List, [], ◌∷◌, ◌==◌, ◌&&◌, if◌then◌else◌,
  contains, Dict, get, map, or_else,
}
use qase.Common.Result.{Result, ok, err}

-- BROWSER_SUPPORT_STATUS
pub data Status : Type 0 where
  supported engine_equivalent not_supported : Status

-- An entry of the registry.
pub record Brand : Type 0 where
  pub code : String
  pub label : String
  pub version : String
  pub executable_path : String
  pub status : String
  pub reason : Option String

pub data Reason : Type 0 where
  unknown_browser : String → Reason
  real_binary : String → String → Reason
  bundled : String → Reason

pub record Fallback : Type 0 where
  pub status : Status
  pub engine : Option String
  pub reason : Reason

pub record Support : Type 0 where
  pub status : Status
  pub engine : Option String
  pub reason : Reason
  pub provider : String
  pub engine_equivalent : Bool
  pub branded : Bool
  -- `launchVerified: false`, with the probe's note.
  pub probe_note : Option String
  pub executable_path : Option String
  pub detected_version : Option String

-- What an exception stands for here: the fallback of no record of the table.
pub data Error : Type 0 where
  type_error : Error

pub record Texts : Type 0 where
  pub lower : String → String
  -- `reason.startsWith('Binary present but failed')`
  pub says_failed : String → Bool

abbrev fallback : Status → Option String → String → Fallback
fallback status engine code = record { status = status; engine = engine; reason = bundled code }

-- BROWSER_RESOLUTIONS
abbrev pub resolutions : Dict Fallback
resolutions =
    ("chrome", fallback Status.supported (some "chromium") "chrome")
    ∷ ("brave", fallback Status.engine_equivalent (some "chromium") "brave")
    ∷ ("opera", fallback Status.engine_equivalent (some "chromium") "opera")
    ∷ ("edge", fallback Status.engine_equivalent (some "chromium") "edge")
    ∷ ("firefox", fallback Status.supported (some "firefox") "firefox")
    ∷ ("safari", fallback Status.engine_equivalent (some "webkit") "safari")
    ∷ ("duckduckgo", fallback Status.not_supported none "duckduckgo")
    ∷ []

-- The names that every object literal answers by its prototype, although they are no keys of its own.
abbrev pub object_prototype : List String
object_prototype =
    "constructor" ∷ "__proto__" ∷ "__defineGetter__" ∷ "__defineSetter__" ∷ "__lookupGetter__"
    ∷ "__lookupSetter__" ∷ "hasOwnProperty" ∷ "isPrototypeOf" ∷ "propertyIsEnumerable"
    ∷ "toLocaleString" ∷ "toString" ∷ "valueOf" ∷ []

-- What a name of a table is: a record of its own, what the prototype has, which has no field `fallback`, or `undefined`.
pub data Property : Type 0 where
  own : Fallback → Property
  inherited : Property
  undefined : Property

abbrev pub property_or : Bool → Option Fallback → Property
property_or by_prototype (some f) = own f
property_or true none = inherited
property_or false none = undefined

-- `BROWSER_RESOLUTIONS[name]`
unfoldable pub property : Dict Fallback → String → Property
property table name = property_or (contains name object_prototype) (get name table)

-- `brandedResolution`, with what its callers add.
pub branded_resolution : Brand → Support
branded_resolution b = record {
  status = Status.supported;
  engine = some "chromium";
  reason = real_binary b.label b.version;
  provider = "local-playwright";
  engine_equivalent = false;
  branded = true;
  probe_note = none;
  executable_path = some b.executable_path;
  detected_version = some b.version;
}

abbrev says : Texts → Option String → Bool
says t none = false
says t (some r) = t.says_failed r

-- `isExecutableLocalBrand`
pub is_executable_local_brand : Texts → Brand → Bool
unfolding says
is_executable_local_brand t b = (b.status == "present") && not (says t b.reason)

-- `brands.find((brand) => brand.code === code)`
unfoldable pub find_brand : String → List Brand → Option Brand
find_brand code [] = none
find_brand code (b ∷ bs) = if b.code == code then some b else find_brand code bs

abbrev is_equivalent : Status → Bool
is_equivalent Status.engine_equivalent = true
is_equivalent _ = false

-- The bundled engine.
pub bundled_resolution : Fallback → Support
bundled_resolution f = record {
  status = f.status;
  engine = f.engine;
  reason = f.reason;
  provider = "local-playwright";
  engine_equivalent = is_equivalent f.status;
  branded = false;
  probe_note = none;
  executable_path = none;
  detected_version = none;
}

abbrev pub unknown_resolution : String → Support
unknown_resolution code = record {
  status = Status.not_supported;
  engine = none;
  reason = unknown_browser code;
  provider = "none";
  engine_equivalent = false;
  branded = false;
  probe_note = none;
  executable_path = none;
  detected_version = none;
}

-- What the registry's entry, where there is one, makes of the bundled engine.
pub with_entry : Texts → Fallback → Option Brand → Support
unfolding branded_resolution is_executable_local_brand bundled_resolution
with_entry t f none = bundled_resolution f
with_entry t f (some b) =
    if is_executable_local_brand t b
    then branded_resolution b
    else if (b.status == "present") && says t b.reason
    then record (branded_resolution b) {
      probe_note = b.reason;
      executable_path = none;
      detected_version = none;
    }
    else bundled_resolution f

-- The test on `browser.fallback.status`.
unfoldable pub with_status : Texts → Fallback → Option Brand → Status → Support
with_status t f entry Status.not_supported = bundled_resolution f
with_status t f entry _ = with_entry t f entry

pub with_fallback : Texts → Fallback → Option Brand → Support
unfolding with_status
with_fallback t f entry = with_status t f entry f.status

-- What the property makes of the code: `browser.fallback.status` is read off any that is not `undefined`, and to read it
-- off a value without `fallback` is a TypeError.
unfoldable pub with_record : Texts → String → Property → Option Brand → Result Error Support
unfolding with_fallback
with_record t code undefined entry = ok (unknown_resolution code)
with_record t code inherited entry = err type_error
with_record t code (own f) entry = ok (with_fallback t f entry)

-- `entryFor`: the snapshot decides where there is one, else the registry, which may fail.
pub entry_for : Option (List Brand) → Option Brand → String → Option Brand
entry_for (some brands) probed code = find_brand code brands
entry_for none probed code = probed

-- `resolveBrowserSupport`; `probed` is what `localBrowserEntry` finds.
unfoldable pub resolve_browser_support :
    Texts → Option (List Brand) → Option Brand → String → Result Error Support
unfolding with_record entry_for
resolve_browser_support t snapshot probed code =
    with_record t code (property resolutions (t.lower code))
      (entry_for snapshot probed (t.lower code))

abbrev brands_entry : String → Option (List Brand) → Option Brand
brands_entry code none = none
brands_entry code (some brands) = find_brand code brands

-- `resolveBrowserSupportSync`; `cached` is the registry's last probe.
pub resolve_browser_support_sync :
    Texts → Option (List Brand) → Option (List Brand) → String → Result Error Support
unfolding with_record
resolve_browser_support_sync t snapshot cached code =
    with_record t code (property resolutions (t.lower code))
      (or_else (brands_entry (t.lower code) snapshot) (brands_entry (t.lower code) cached))

abbrev pub can_execute : Status → Bool
can_execute Status.not_supported = false
can_execute _ = true

abbrev pub is_executable : Support → Bool
is_executable s = can_execute s.status

abbrev pub status_can_execute : Result Error Support → Result Error Bool
status_can_execute (ok s) = ok (is_executable s)
status_can_execute (err e) = err e

-- `isExecutableBrowser`
unfoldable pub is_executable_browser :
    Texts → Option (List Brand) → Option Brand → String → Result Error Bool
is_executable_browser t snapshot probed code =
    status_can_execute (resolve_browser_support t snapshot probed code)
