-- ===== src/Store/Feed.antt =====
-- server/store.js: the activity feed of a session, which keeps the newest entries.
use qase.Common.{
  ℕ, zero, suc, ◌+◌, ◌-◌, ◌≤◌, List, [], ◌∷◌, ◌++◌, ◌≡◌, refl, sym, ap, ◌∙◌, arith, length,
  length-append,
}

-- The cap of the feed.
abbrev pub feed_cap : ℕ
feed_cap = 500

module _ {ℓ} {A : Type ℓ} where
  -- `xs.splice(0, n)` leaves what follows the first n.
  unfoldable pub drop : ℕ → List A → List A
  drop n [] = []
  drop zero (x ∷ xs) = x ∷ xs
  drop (suc n) (x ∷ xs) = drop n xs

  unfoldable pub trim_feed : List A → List A
  trim_feed acts = drop (length acts - feed_cap) acts

  -- `addActivity`, of an entry that is complete
  unfoldable pub add_activity : A → List A → List A
  add_activity a acts = trim_feed (acts ++ a ∷ [])

  pub add_activities : List A → List A → List A
  add_activities [] acts = acts
  add_activities (a ∷ xs) acts = add_activities xs (add_activity a acts)

  pub drop_none : (xs : List A) → drop 0 xs ≡ xs
  unfolding drop
  drop_none [] = refl
  drop_none (x ∷ xs) = refl

  length-drop : (n : ℕ) (xs : List A) → length (drop n xs) ≡ length xs - n
  unfolding drop
  length-drop n [] = omega arith
  length-drop zero (x ∷ xs) = omega arith
  length-drop (suc n) (x ∷ xs) = omega (arith, length-drop n xs)

  drop-append : (n : ℕ) (xs ys : List A) → n ≤ length xs → drop n (xs ++ ys) ≡ drop n xs ++ ys
  unfolding drop
  drop-append zero [] ys h = drop_none ys
  drop-append (suc n) [] ys h = absurd (omega arith)
  drop-append zero (x ∷ xs) ys h = refl
  drop-append (suc n) (x ∷ xs) ys h = drop-append n xs ys (omega arith)

  drop-drop : (m n : ℕ) (xs : List A) → drop m (drop n xs) ≡ drop (n + m) xs
  unfolding drop
  drop-drop m n [] = refl
  drop-drop m zero (x ∷ xs) = ap (λ n. drop n (x ∷ xs)) (omega arith)
  drop-drop m (suc n) (x ∷ xs) =
      drop-drop m n xs ∙ ap (λ k. drop k (x ∷ xs)) {x = suc (n + m)} {y = suc n + m} (omega arith)

  pub length-trim_feed : (xs : List A) → length (trim_feed xs) ≤ feed_cap
  unfolding trim_feed
  length-trim_feed xs = omega (arith, length-drop (length xs - feed_cap) xs)

  -- A feed that fits is not trimmed.
  pub trim_feed_short : (xs : List A) → length xs ≤ feed_cap → trim_feed xs ≡ xs
  unfolding trim_feed
  trim_feed_short xs h = ap (λ n. drop n xs) (omega arith) ∙ drop_none xs

  -- Dropping more than a part drops the whole of it.
  drop_past : (n : ℕ) (xs ys : List A) → length xs ≤ n → drop n (xs ++ ys) ≡ drop (n - length xs) ys
  unfolding drop
  drop_past n [] ys h = ap (λ k. drop k ys) (omega arith)
  drop_past zero (x ∷ xs) ys h = absurd (omega arith)
  drop_past (suc n) (x ∷ xs) ys h =
      drop_past n xs ys (omega arith)
      ∙ ap (λ k. drop k ys) {x = n - length xs} {y = suc n - suc (length xs)} (omega arith)

  trim_feed-append : (xs ys : List A) → trim_feed (trim_feed xs ++ ys) ≡ trim_feed (xs ++ ys)
  unfolding trim_feed
  trim_feed-append xs ys =
      let k = length xs - feed_cap in
      let l = length-drop k xs in
      let a = length-append (drop k xs) ys in
      let b = length-append xs ys in
      let m = length (drop k xs ++ ys) - feed_cap in
      ap (λ zs. drop m zs) (sym (drop-append k xs ys (omega arith)))
      ∙ drop-drop m k (xs ++ ys)
      ∙ ap (λ n. drop n (xs ++ ys)) (omega (arith, l, a, b))

  append_assoc_one : (xs ys : List A) (y : A) → (xs ++ y ∷ []) ++ ys ≡ xs ++ y ∷ ys
  append_assoc_one [] ys y = refl
  append_assoc_one (x ∷ xs) ys y = ap (λ zs. x ∷ zs) (append_assoc_one xs ys y)

  append_none : (xs : List A) → xs ++ [] ≡ xs
  append_none [] = refl
  append_none (x ∷ xs) = ap (λ zs. x ∷ zs) (append_none xs)

  -- Adding one by one is trimming once, from the second entry on.
  add_activities-trim_feed :
      (new xs : List A) → trim_feed (add_activities new xs) ≡ trim_feed (xs ++ new)
  unfolding add_activities add_activity
  add_activities-trim_feed [] xs = ap trim_feed (sym (append_none xs))
  add_activities-trim_feed (a ∷ new) xs =
      add_activities-trim_feed new (trim_feed (xs ++ a ∷ []))
      ∙ trim_feed-append (xs ++ a ∷ []) new
      ∙ ap trim_feed (append_assoc_one xs new a)

  length-add_activities :
      (new xs : List A) → length xs ≤ feed_cap → length (add_activities new xs) ≤ feed_cap
  unfolding add_activities add_activity
  length-add_activities [] xs h = h
  length-add_activities (a ∷ new) xs h =
      length-add_activities new _ (length-trim_feed (xs ++ a ∷ []))

  -- A feed after enough entries holds the last of them only.
  pub add_activities_past :
      (new xs : List A)
      → length xs ≤ feed_cap
      → feed_cap ≤ length new
      → add_activities new xs ≡ drop (length new - feed_cap) new
  unfolding trim_feed
  add_activities_past new xs h l =
      let a = length-append xs new in
      sym (trim_feed_short (add_activities new xs) (length-add_activities new xs h))
      ∙ add_activities-trim_feed new xs
      ∙ drop_past _ xs new (omega (arith, a))
      ∙ ap (λ n. drop n new) (omega (arith, a))
