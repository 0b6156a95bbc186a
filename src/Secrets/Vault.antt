-- ===== src/Secrets/Vault.antt =====
-- The vault of server/secrets.js: the maps in memory and the sealed records on disk, of sessions whose ids pass
-- `assertSessionId`. The sealing of a record (JSON and AES-GCM under the vault's key and the session's id), the cleaning
-- of a name (`trim`, `toUpperCase`, the replacement of other characters and the cut at 100), the index that the language
-- reads some names of properties as and whether a write succeeds are arguments.
pub mod Normal
pub mod Order
pub mod Restart
use qase.Common.{
  ℕ, String, Bool, true, false, not, Option, none, some, List, [], ◌∷◌, ◌==◌, ◌&&◌, ◌||◌, leb, ltb,
  map, length, Text, take, if◌then◌else◌, Dict, get, set, is_some,
}

-- What a caller stores: names with a text, or with something else.
abbrev pub Entries : Type 0
Entries = Dict (Option Text)

abbrev pub Secrets : Type 0
Secrets = Dict Text

pub record Crypto {ℓ} (B : Type ℓ) : Type ℓ where
  pub clean : String → String
  -- the array index that a name of a property is, where it is one
  pub index : String → Option ℕ
  pub seal : String → Secrets → B
  -- `none` where the record does not open
  pub unseal : String → B → Option Entries

-- The length of a value that is stored: it is not empty, and not longer than this.
abbrev pub value_max : ℕ
value_max = 16384

abbrev pub entries_max : ℕ
entries_max = 50

abbrev pub fits : Text → Bool
fits t = leb 1 (length t) && leb (length t) value_max

abbrev pub put_clean : String → Option Text → Secrets → Secrets
put_clean key none result = result
put_clean key (some t) result = if fits t && not (key == "") then set key t result else result

unfoldable pub add_entries : (String → String) → Entries → Secrets → Secrets
add_entries clean [] result = result
add_entries clean ((name, value) ∷ es) result =
    add_entries clean es (put_clean (clean name) value result)

-- `normalizedEntries`
unfoldable pub normalized_entries : (String → String) → Entries → Secrets
normalized_entries clean es = add_entries clean (take entries_max es) []

-- `for (const [name, value] of supplied) vault.set(name, value)`
unfoldable pub set_all : Secrets → Secrets → Secrets
set_all [] vault = vault
set_all ((k, t) ∷ es) vault = set_all es (set k t vault)

-- An object has the properties that are indices first, in their order, and then the others as they were made.
abbrev pub index_precedes : Option ℕ → Option ℕ → Bool
index_precedes (some i) (some j) = leb i j
index_precedes (some i) none = true
index_precedes none (some j) = false
index_precedes none none = true

unfoldable pub insert : (String → Option ℕ) → String → Text → Secrets → Secrets
insert index k t [] = (k, t) ∷ []
insert index k t ((j, w) ∷ m) =
    let rest = insert index k t m in
    if index_precedes (index k) (index j) then (k, t) ∷ (j, w) ∷ m else (j, w) ∷ rest

-- `Object.fromEntries`, for entries of distinct names, in the order in which `JSON.stringify` writes the object.
unfoldable pub object_order : (String → Option ℕ) → Secrets → Secrets
object_order index [] = []
object_order index ((k, t) ∷ m) = insert index k t (object_order index m)

-- `m.delete(k)`
unfoldable pub delete {ℓ} : {V : Type ℓ} → String → Dict V → Dict V
delete k [] = []
delete k ((j, v) ∷ m) = let rest = delete k m in if j == k then rest else (j, v) ∷ rest

pub record Vaults {ℓ} (B : Type ℓ) : Type ℓ where
  pub memory : Dict Secrets
  pub disk : Dict B

module _ {ℓ} {B : Type ℓ} where
  abbrev opened : Crypto B → Option Entries → Secrets
  opened c none = []
  opened c (some es) = normalized_entries c.clean es

  abbrev decrypt : Crypto B → String → Option B → Secrets
  decrypt c id none = []
  decrypt c id (some b) = opened c (c.unseal id b)

  abbrev known : Crypto B → String → Vaults B → Option Secrets → Secrets × Vaults B
  known c id st (some v) = (v, st)
  known c id st none =
      let v = decrypt c id (get id st.disk) in (v, record st { memory = set id v st.memory })

  -- `load`: the vault of a session, which is in memory afterwards.
  unfoldable pub load : Crypto B → String → Vaults B → Secrets × Vaults B
  load c id st = known c id st (get id st.memory)

  -- `encrypt`: the entries are sealed as an object.
  abbrev sealed : Crypto B → String → Secrets → B
  sealed c id vault = c.seal id (object_order c.index vault)

  -- What `store` hands back: the names, or the failure of the write.
  abbrev stored :
      Crypto B → Bool → String → Secrets → Secrets → Vaults B → Option (List String) × Vaults B
  stored c writes id [] vault st = (some [], st)
  stored c writes id (e ∷ es) vault st =
      if writes
      then (
        some (map (λ (k, _). k) (e ∷ es)),
        record st { disk = set id (sealed c id vault) st.disk },
      )
      else (none, st)

  -- `store`: the vault in memory changes even where the write fails.
  unfoldable pub store :
      Crypto B → Bool → String → Entries → Vaults B → Option (List String) × Vaults B
  store c writes id entries st =
      let (v, st') = load c id st in
      let supplied = normalized_entries c.clean entries in
      let vault = set_all supplied v in
      stored c writes id supplied vault (record st' { memory = set id vault st'.memory })

  -- `clear`
  unfoldable pub clear : String → Vaults B → Bool × Vaults B
  clear id st = (
    is_some (get id st.memory) || is_some (get id st.disk),
    record { memory = delete id st.memory; disk = delete id st.disk },
  )

  -- `names`
  unfoldable pub names : Crypto B → String → Vaults B → List String
  names c id st = map (λ (k, _). k) (load c id st).0

  -- The vault of a new process has the disk only.
  unfoldable pub restart : Vaults B → Vaults B
  restart st = record st { memory = [] }
