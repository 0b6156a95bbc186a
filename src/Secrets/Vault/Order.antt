-- ===== src/Secrets/Vault/Order.antt =====
-- The order of the properties of an object, in which server/secrets.js seals the entries of a vault.
use qase.Common.{
  ℕ, suc, String, Option, none, some, [], ◌∷◌, ◌==◌, ◌≡◌, refl, ap, ◌∙◌, arith, Text, if◌then◌else◌,
  get, All, length, Bool-cases, inl, inr, eq_iff,
}
use qase.Secrets.Vault.{Secrets, index_precedes, insert, object_order}
use qase.Secrets.Vault.Normal.{IsEntry, IsDistinct, IsVault}

insert-All {ℓ} :
    (P : String × Text → Type ℓ) (index : String → Option ℕ) (k : String) (t : Text) (m : Secrets)
    → P (k, t)
    → All P m
    → All P (insert index k t m)
unfolding insert
insert-All P index k t [] p h = (p, tt)
insert-All P index k t ((j, w) ∷ m) p (h, hs) =
    elim (Bool-cases (index_precedes (index k) (index j))) [
      | inl e ↦ rw e (p, (h, hs))
      | inr e ↦ rw e (h, insert-All P index k t m p hs)
    ]

length-insert :
    (index : String → Option ℕ) (k : String) (t : Text) (m : Secrets)
    → length (insert index k t m) ≡ suc (length m)
unfolding insert
length-insert index k t [] = refl
length-insert index k t ((j, w) ∷ m) = elim (Bool-cases (index_precedes (index k) (index j))) [
  | inl e ↦ rw e refl
  | inr e ↦ rw e (ap suc (length-insert index k t m))
]

get-insert :
    (index : String → Option ℕ) (k : String) (t : Text) (m : Secrets) (i : String)
    → get k m ≡ none
    → get i (insert index k t m) ≡ (if k == i then some t else get i m)
unfolding insert get
get-insert index k t [] i h = refl
get-insert index k t ((j, w) ∷ m) i h = elim (Bool-cases (j == k)) [
  | inl d ↦ absurd (cc (rw d at h))
  | inr d ↦ elim (Bool-cases (index_precedes (index k) (index j))) [
    | inl e ↦ rw e refl
    | inr e ↦
        rw e
          (ground (arith, get-insert index k t m i (rw d at h), eq_iff j k, eq_iff k i, eq_iff j i))
  ]
]

insert-IsDistinct :
    (index : String → Option ℕ) (k : String) (t : Text) (m : Secrets)
    → get k m ≡ none
    → IsDistinct m
    → IsDistinct (insert index k t m)
unfolding insert get
insert-IsDistinct index k t [] h d = (refl, tt)
insert-IsDistinct index k t ((j, w) ∷ m) h (d, ds) = elim (Bool-cases (j == k)) [
  | inl n ↦ absurd (cc (rw n at h))
  | inr n ↦ elim (Bool-cases (index_precedes (index k) (index j))) [
    | inl e ↦ rw e (h, (d, ds))
    | inr e ↦ rw e (
      ground (arith, get-insert index k t m j (rw n at h), eq_iff j k, eq_iff k j),
      insert-IsDistinct index k t m (rw n at h) ds,
    )
  ]
]

pub length-object_order :
    (index : String → Option ℕ) (v : Secrets) → length (object_order index v) ≡ length v
unfolding object_order
length-object_order index [] = refl
length-object_order index ((k, t) ∷ v) =
    length-insert index k t (object_order index v) ∙ ap suc (length-object_order index v)

pub get-object_order :
    (index : String → Option ℕ) (v : Secrets) (i : String)
    → IsDistinct v
    → get i (object_order index v) ≡ get i v
unfolding object_order get
get-object_order index [] i d = refl
get-object_order index ((k, t) ∷ v) i (d, ds) =
    get-insert index k t (object_order index v) i (get-object_order index v k ds ∙ d)
    ∙ ap (λ z. if k == i then some t else z) (get-object_order index v i ds)

pub object_order-IsVault :
    (clean : String → String) (index : String → Option ℕ) (v : Secrets)
    → IsVault clean v
    → IsVault clean (object_order index v)
unfolding object_order
object_order-IsVault clean index [] h = h
object_order-IsVault clean index ((k, t) ∷ v) ((p, ps), (d, ds)) =
    let (a, b) = object_order-IsVault clean index v (ps, ds) in
    (
      insert-All (IsEntry clean) index k t (object_order index v) p a,
      insert-IsDistinct index k t (object_order index v) (get-object_order index v k ds ∙ d) b,
    )
