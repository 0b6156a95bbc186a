-- ===== src/Secrets/Vault/Restart.antt =====
-- What a restart and a clearing leave of the vaults of server/secrets.js.
use qase.Common.{
  String, true, false, some, [], ◌∷◌, ◌==◌, ◌≡◌, refl, sym, ap, ◌∙◌, subst, map, Text, take, get,
  All, length, Option-cases, inl, inr, eq_iff,
}
use qase.Secrets.Vault.{
  Entries, Secrets, Crypto, object_order, normalized_entries, set_all, entries_max, Vaults, load,
  store, clear, names, restart,
}
use qase.Secrets.Vault.Normal.{
  IsEntry, IsVault, entries_of, normalized_entries-IsVault, set_all-IsVault,
  normalized_entries-entries_of, get-set_same, get-All, get-delete,
}
use qase.Secrets.Vault.Order.{length-object_order, get-object_order, object_order-IsVault}

module _ {ℓ} {B : Type ℓ} where
  -- The vaults in memory are well formed.
  abbrev pub IsVaults : Crypto B → Vaults B → Type 0
  IsVaults c st = All (λ (e : String × Secrets). IsVault c.clean e.1) st.memory

  decrypted : Crypto B → String → Vaults B → Secrets
  unfolding load
  decrypted c id st = (load c id (record st { memory = [] })).0

  decrypted-IsVault :
      (c : Crypto B) (id : String) (st : Vaults B)
      → ((s : String) → c.clean (c.clean s) ≡ c.clean s)
      → IsVault c.clean (decrypted c id st)
  unfolding decrypted load get
  decrypted-IsVault c id st h = elim (Option-cases (get id st.disk)) [
    | inl e ↦ rw e (tt, tt)
    | inr (b, e) ↦ elim (Option-cases (c.unseal id b)) [
      | inl f ↦ rw (e, f) (tt, tt)
      | inr (es, f) ↦ rw (e, f) (normalized_entries-IsVault c.clean es h)
    ]
  ]

  load-IsVault :
      (c : Crypto B) (id : String) (st : Vaults B)
      → ((s : String) → c.clean (c.clean s) ≡ c.clean s)
      → IsVaults c st
      → IsVault c.clean (load c id st).0
  unfolding load decrypted get
  load-IsVault c id st h i = elim (Option-cases (get id st.memory)) [
    | inl e ↦ rw e (decrypted-IsVault c id st h)
    | inr (v, e) ↦ rw e (get-All (IsVault c.clean) id v st.memory i e)
  ]

  store-vault :
      (c : Crypto B) (id : String) (entries : Entries) (st : Vaults B) (e : String × Text)
      (es : Secrets)
      → normalized_entries c.clean entries ≡ e ∷ es
      → let st' = (store c true id entries st).1 in
        let vault = set_all (e ∷ es) (load c id st).0 in
        (get id st'.memory ≡ some vault)
        × (get id st'.disk ≡ some (c.seal id (object_order c.index vault)))
  unfolding store
  store-vault c id entries st e es n = rw n (get-set_same _ _ _, get-set_same _ _ _)

  load-known :
      (c : Crypto B) (id : String) (st : Vaults B) (v : Secrets)
      → get id st.memory ≡ some v
      → (load c id st).0 ≡ v
  unfolding load
  load-known c id st v e = rw e refl

  load-restart :
      (c : Crypto B) (id : String) (st : Vaults B) (b : B) (es : Entries)
      → get id st.disk ≡ some b
      → c.unseal id b ≡ some es
      → (load c id (restart st)).0 ≡ normalized_entries c.clean es
  unfolding load restart get
  load-restart c id st b es e f = rw (e, f) refl

  -- What a vault is after a restart, beside the vault: its first 50 entries in the order of an object, and that the
  -- order loses none.
  abbrev pub IsReopened : Crypto B → String → Vaults B → String → Type 0
  IsReopened c id st k =
      let v = (load c id st).0 in
      let o = object_order c.index v in
      ((load c id (restart st)).0 ≡ take entries_max o)
      × (get k o ≡ get k v)
      × (length o ≡ length v)

  restart_vault :
      (c : Crypto B) (id : String) (st' : Vaults B) (v : Secrets) (k : String)
      → IsVault c.clean v
      → (load c id st').0 ≡ v
      → get id st'.disk ≡ some (c.seal id (object_order c.index v))
      → c.unseal id (c.seal id (object_order c.index v))
        ≡ some (entries_of (object_order c.index v))
      → IsReopened c id st' k
  restart_vault c id st' v k w e d u = rw e (
    load-restart c id st' (c.seal id (object_order c.index v)) (entries_of (object_order c.index v))
          d u
        ∙ normalized_entries-entries_of c.clean (object_order c.index v)
            (object_order-IsVault c.clean c.index v w),
    get-object_order c.index v k w.1,
    length-object_order c.index v,
  )

  -- A new process has of a vault that was just stored its first 50 secrets in the order of an object's properties,
  -- names that read as an index first; the vault in that order has the same secret at each name, and as many of them.
  -- The record of a vault is assumed to open to what was sealed, entries in that order, the cleaning of a clean name to change
  -- nothing, and at least one of the stored entries to be normal.
  pub store-restart :
      (c : Crypto B) (id : String) (entries : Entries) (st : Vaults B) (e : String × Text)
      (es : Secrets) (st' : Vaults B) (k : String)
      → ((s : String) → c.clean (c.clean s) ≡ c.clean s)
      → ((v : Secrets)
          → IsVault c.clean v
          → c.unseal id (c.seal id (object_order c.index v))
            ≡ some (entries_of (object_order c.index v)))
      → IsVaults c st
      → normalized_entries c.clean entries ≡ e ∷ es
      → (store c true id entries st).1 ≡ st'
      → ((load c id (restart st')).0 ≡ take entries_max (object_order c.index (load c id st').0))
        × (get k (object_order c.index (load c id st').0) ≡ get k (load c id st').0)
        × (length (object_order c.index (load c id st').0) ≡ length (load c id st').0)
  store-restart c id entries st e es st' k h u i n q =
      let (m, d) = store-vault c id entries st e es n in
      let w =
        set_all-IsVault c.clean (e ∷ es) (load c id st).0
          (subst (λ z. All (IsEntry c.clean) z) n (normalized_entries-IsVault c.clean entries h).0)
          (load-IsVault c id st h i) in
      let v = set_all (e ∷ es) (load c id st).0 in
      restart_vault c id st' v k w (load-known c id st' v (ap (λ z. get id z.memory) (sym q) ∙ m))
        (ap (λ z. get id z.disk) (sym q) ∙ d) (u v w)

  load_alike :
      (c : Crypto B) (id : String) (a b : Vaults B)
      → get id a.memory ≡ get id b.memory
      → get id a.disk ≡ get id b.disk
      → (load c id a).0 ≡ (load c id b).0
  unfolding load
  load_alike c id a b m d = elim (Option-cases (get id b.memory)) [
    | inl e ↦ rw (m ∙ e, e, d) refl
    | inr (v, e) ↦ rw (m ∙ e, e) refl
  ]

  -- After a clearing the session has no secret, in this process and in the next, and the vaults of the others are as
  -- they were.
  pub clear-names :
      (c : Crypto B) (id other : String) (st : Vaults B)
      → (id == other) ≡ false
      → (names c id (clear id st).1 ≡ [])
        × (names c id (restart (clear id st).1) ≡ [])
        × (names c other (clear id st).1 ≡ names c other st)
        × (names c other (restart (clear id st).1) ≡ names c other (restart st))
  unfolding names load clear restart get
  clear-names c id other st d =
      let s = get-delete id id st.memory in
      let t = get-delete id id st.disk in
      let u = get-delete id other st.memory in
      let v = get-delete id other st.disk in
      let r = (eq_iff id id).1 refl in
      (
        rw (rw r at s, rw r at t) refl,
        rw (rw r at t) refl,
        ap (map (λ (k, _). k)) (load_alike c other (clear id st).1 st (rw d at u) (rw d at v)),
        rw (rw d at v) refl,
      )
