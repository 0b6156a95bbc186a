-- ===== src/Support/Resolution.antt =====
-- What server/browserSupportResolution.js promises of a resolution.
use qase.Common.{
  String, Bool, true, false, Option, none, some, List, [], ◌∷◌, ◌==◌, ◌≡◌, All, eq_iff, some_inj,
  subst, sym, ap, ◌∙◌, ◌||◌, if◌then◌else◌, refl, arith, contains, Dict, get, inl, inr, Bool-cases,
  Option-cases,
}
use qase.Common.Result.{ok, err}
use qase.Support.{
  Status, type_error, Brand, Fallback, Texts, object_prototype, property, resolutions,
  branded_resolution, bundled_resolution, with_entry, with_status, with_fallback, with_record,
  entry_for, resolve_browser_support, can_execute, is_executable, is_executable_browser,
}

-- The browsers of the table that some engine of the host can run.
abbrev pub executable_codes : List String
executable_codes = "chrome" ∷ "brave" ∷ "opera" ∷ "edge" ∷ "firefox" ∷ "safari" ∷ []

-- What holds of each entry of a table holds of what is found in it.
get-All {ℓ} :
    {V : Type ℓ} (P : String → V → Type 0) (code : String) (m : Dict V) (v : V)
    → All (λ e. P e.0 e.1) m
    → get code m ≡ some v
    → P code v
unfolding get
get-All P code [] v a h = absurd cc
get-All P code ((k, w) ∷ m) v a h = elim (Bool-cases (k == code)) [
  | inl e ↦ subst (λ c. P c v) ((eq_iff k code).0 e) (subst (λ x. P k x) (some_inj (rw e at h)) a.0)
  | inr e ↦ get-All P code m v a.1 (rw e at h)
]

-- The table agrees with the list of codes, and no code of it is a name of the prototype.
abbrev IsListed : String → Fallback → Type 0
IsListed code f =
    (contains code object_prototype ≡ false)
    × (is_executable (bundled_resolution f) ≡ contains code executable_codes)

resolutions-IsListed : All (λ e. IsListed e.0 e.1) resolutions
unfolding contains bundled_resolution
resolutions-IsListed = (
  (refl, refl),
  (
    (refl, refl),
    ((refl, refl), ((refl, refl), ((refl, refl), ((refl, refl), ((refl, refl), tt))))),
  ),
)

none-not_executable :
    (code : String) → get code resolutions ≡ none → contains code executable_codes ≡ false
unfolding get contains
none-not_executable code h = ground arith

found-IsListed : (code : String) (f : Fallback) → get code resolutions ≡ some f → IsListed code f
found-IsListed code f h = get-All IsListed code resolutions f resolutions-IsListed h

with_entry-executable :
    (t : Texts) (f : Fallback) (entry : Option Brand)
    → is_executable (bundled_resolution f) ≡ true
    → is_executable (with_entry t f entry) ≡ true
unfolding with_entry branded_resolution
with_entry-executable t f none h = h
with_entry-executable t f (some b) h = ground arith

with_status-executable :
    (t : Texts) (f : Fallback) (entry : Option Brand) (status : Status)
    → f.status ≡ status
    → is_executable (with_status t f entry status) ≡ can_execute status
unfolding with_status with_entry bundled_resolution branded_resolution
with_status-executable t f entry Status.not_supported e = rw e refl
with_status-executable t f entry Status.supported e = with_entry-executable t f entry (rw e refl)
with_status-executable t f entry Status.engine_equivalent e =
    with_entry-executable t f entry (rw e refl)

with_fallback-executable :
    (t : Texts) (f : Fallback) (entry : Option Brand)
    → is_executable (with_fallback t f entry) ≡ is_executable (bundled_resolution f)
unfolding with_fallback bundled_resolution
with_fallback-executable t f entry = with_status-executable t f entry f.status refl

-- The names of the prototype that have a capital letter, which no text in lower case is.
abbrev pub with_capital : List String
with_capital =
    "__defineGetter__" ∷ "__defineSetter__" ∷ "__lookupGetter__" ∷ "__lookupSetter__"
    ∷ "hasOwnProperty" ∷ "isPrototypeOf" ∷ "propertyIsEnumerable" ∷ "toLocaleString" ∷ "toString"
    ∷ "valueOf" ∷ []

abbrev pub is_answered : String → Bool
is_answered name = (name == "constructor") || (name == "__proto__")

lower_answered :
    (name : String)
    → All (λ n. (n == name) ≡ false) with_capital
    → contains name object_prototype ≡ is_answered name
unfolding contains
lower_answered name (a, (b, (c, (d, (e, (f, (g, (h, (i, (j, tt)))))))))) =
    rw (a, b, c, d, e, f, g, h, i, j)
      (ground (
        arith,
        eq_iff "constructor" name,
        eq_iff name "constructor",
        eq_iff "__proto__" name,
        eq_iff name "__proto__",
      ))

-- `isExecutableBrowser` throws for a code that is `constructor` or `__proto__` in lower case, which the prototype of the
-- table answers; for any other code it answers, and with yes exactly for six codes, whatever the registry and the probes
-- say. The lower case of the code is assumed to be none of the prototype's names that have a capital letter.
pub is_executable_browser_lem :
    (t : Texts) (snapshot : Option (List Brand)) (probed : Option Brand) (code : String)
    → All (λ n. (n == t.lower code) ≡ false) with_capital
    → is_executable_browser t snapshot probed code ≡ (
        if is_answered (t.lower code)
        then err type_error
        else ok (contains (t.lower code) executable_codes))
unfolding is_executable_browser resolve_browser_support with_record property
is_executable_browser_lem t snapshot probed code c =
    let l = lower_answered (t.lower code) c in
    elim (Option-cases (get (t.lower code) resolutions)) [
      | inl e ↦ elim (Bool-cases (is_answered (t.lower code))) [
        | inl i ↦ rw (e, l, i) refl
        | inr i ↦ rw (e, l, i) (ap ok (sym (none-not_executable (t.lower code) e)))
      ]
      | inr (f, e) ↦
          let (a, b) = found-IsListed (t.lower code) f e in
          let x = with_fallback-executable t f (entry_for snapshot probed (t.lower code)) in
          rw (e, sym l ∙ a) (ap ok (x ∙ b))
    ]
