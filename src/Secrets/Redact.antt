-- ===== src/Secrets/Redact.antt =====
-- `redactValue` of server/secrets.js: every stored secret of at least three code units is masked in the texts of a value.
pub mod Hidden
use qase.Common.{
  ℕ, zero, suc, ◌-◌, Bool, true, false, List, [], ◌∷◌, ◌++◌, leb, filter, map, length, Text,
  starts_with, includes, if◌then◌else◌,
}

-- The code unit of a bullet and MASK, eight of them.
abbrev pub bullet : ℕ
bullet = 8226

abbrev pub mask : Text
mask = bullet ∷ bullet ∷ bullet ∷ bullet ∷ bullet ∷ bullet ∷ bullet ∷ bullet ∷ []

abbrev pub pick : Bool → Text → Text → Text
pick true a b = a
pick false a b = b

-- `text.split(secret).join(MASK)` after so many code units that belong to an occurrence which has been masked.
unfoldable pub replace : Text → ℕ → Text → Text
replace s n [] = []
replace s (suc n) (x ∷ t) = replace s n t
replace s zero (x ∷ t) =
    let after = replace s (length s - 1) t in
    let next = replace s zero t in pick (starts_with s (x ∷ t)) (mask ++ after) (x ∷ next)

abbrev pub scrub : Text → Text → Text
scrub s t = if includes s t then replace s 0 t else t

-- `scrubString`: one secret after the other
unfoldable pub scrub_string : List Text → Text → Text
scrub_string [] t = t
scrub_string (s ∷ ss) t = scrub_string ss (scrub s t)

-- A value: a text, an array, an object, or anything else.
mutual
  pub data Value : Type 0 where
    text : Text → Value
    array : Items → Value
    object : Fields → Value
    other : ℕ → Value

  pub data Items : Type 0 where
    no_items : Items
    item : Value → Items → Items

  pub data Fields : Type 0 where
    no_fields : Fields
    field : Text → Value → Fields → Fields

-- `walk`, of a value with so many levels left: none are left below depth 8.
mutual
  pub walk : List Text → ℕ → Value → Value
  walk ss zero v = v
  walk ss (suc n) (text t) = text (scrub_string ss t)
  walk ss (suc n) (array is) = array (walk_items ss n is)
  walk ss (suc n) (object fs) = object (walk_fields ss n fs)
  walk ss (suc n) (other k) = other k

  pub walk_items : List Text → ℕ → Items → Items
  walk_items ss n no_items = no_items
  walk_items ss n (item v is) = item (walk ss n v) (walk_items ss n is)

  pub walk_fields : List Text → ℕ → Fields → Fields
  walk_fields ss n no_fields = no_fields
  walk_fields ss n (field k v fs) = field k (walk ss n v) (walk_fields ss n fs)

abbrev pub levels : ℕ
levels = 9

-- `redactValue`, of the values that the vault holds
unfoldable pub redact_value : List Text → Value → Value
redact_value secrets v = walk (filter (λ s. leb 3 (length s)) secrets) levels v
