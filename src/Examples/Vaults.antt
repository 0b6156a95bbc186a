-- ===== src/Examples/Vaults.antt =====
-- A vault that is stored and read back, and a value that is redacted: server/secrets.js.
use qase.Common.{
  ℕ, String, Option, none, ◌==◌, if◌then◌else◌, length, true, some, [], ◌∷◌, ◌≡◌, refl, arith, Text,
  take, set, get,
}
use qase.Secrets.Redact.{Value, text, array, item, no_items, levels, redact_value}
use qase.Secrets.Redact.Hidden.{
  IsHidden, long_enough, redact_value-IsHidden, nested, redact_value-nested,
}
use qase.Secrets.Vault.{
  normalized_entries, object_order, add_entries, Entries, Crypto, entries_max, Vaults, load, store,
  restart,
}
use qase.Secrets.Vault.Normal.{entries_of}
use qase.Secrets.Vault.Restart.{store-restart}

abbrev secret : Text
secret = 97 ∷ 98 ∷ 99 ∷ []

abbrev leaking : Value
leaking = array (item (text (120 ∷ 97 ∷ 98 ∷ 99 ∷ 121 ∷ [])) no_items)

redact_value-IsHidden_example :
    IsHidden (long_enough (secret ∷ [])) levels (redact_value (secret ∷ []) leaking)
redact_value-IsHidden_example =
    redact_value-IsHidden (secret ∷ []) leaking ((refl, (refl, (refl, tt))), tt)

redact_value-nested_example : redact_value (secret ∷ []) (nested 9 secret) ≡ nested 9 secret
redact_value-nested_example = redact_value-nested (secret ∷ []) 9 secret (omega arith)

-- Records that are not sealed, names that are clean, one of which is a numeral.
abbrev numeral : String → Option ℕ
numeral s = if s == "1" then some 1 else none

abbrev plain : Crypto Entries
plain = record {
  clean = λ s. s;
  index = numeral;
  seal = λ id v. entries_of v;
  unseal = λ id b. some b;
}

abbrev empty : Vaults Entries
empty = record { memory = []; disk = [] }

abbrev given : Entries
given = ("PASSWORD", some secret) ∷ ("1", some secret) ∷ []

abbrev stored : Vaults Entries
stored = (store plain true "s" given empty).1

store-restart_example :
    ((load plain "s" (restart stored)).0
      ≡ take entries_max (object_order numeral (load plain "s" stored).0))
    × (get "1" (object_order numeral (load plain "s" stored).0) ≡ get "1" (load plain "s" stored).0)
    × (length (object_order numeral (load plain "s" stored).0) ≡ length (load plain "s" stored).0)
unfolding normalized_entries add_entries take set load store get
store-restart_example =
    store-restart plain "s" given empty ("PASSWORD", secret) (("1", secret) ∷ []) stored "1"
      (λ s. refl) (λ v h. refl) tt refl refl
