-- ===== src/TreeMap/Size.antt =====
-- How many entries an insertion or a removal leaves.
use rust_factory.Common.{
  ◌≡◌, refl, sym, ◌∙◌, List, Option, Bool, false, keep_if, ℕ, ◌≤◌, ◌+◌, none, some, [], ◌∷◌, Ord,
  length, arith, inl, inr, Option-cases,
}
use rust_factory.TreeMap.{Map, get, insert, remove, IsSorted}
use rust_factory.TreeMap.Laws.{
  Below-trans, get-Below, insert-lt, insert-eq, insert-gt, get_hit, get_miss,
}
use rust_factory.TreeMap.Nested.{Ordering-cases}

module _ {ℓ κ} {K : Type ℓ} {V : Type κ} ⦃o : Ord K⦄ where
  pub length-insert : (k : K) (v : V) (m : Map K V) → length (insert k v m) ≤ length m + 1
  unfolding insert
  length-insert k v [] = omega arith
  length-insert k v ((j, w) ∷ m) = ground (arith, length-insert k v m)

  pub length-remove : (k : K) (m : Map K V) → length (remove k m) ≤ length m
  unfolding remove
  length-remove k [] = omega arith
  length-remove k ((j, w) ∷ m) = ground (arith, length-remove k m)

  length_replaced :
      (k : K) (v u : V) (m : Map K V)
      → IsSorted m
      → get k m ≡ some u
      → length (insert k v m) ≡ length m
  length_replaced k v u [] s h = unfold get in cc h
  length_replaced k v u ((j, w) ∷ m) s h = elim (Ordering-cases (o.cmp k j)) [
    | inl less ↦ absurd (
        ground (
          arith,
          get_miss k j w w m (λ q. ground (arith, less)),
          get-Below k m (Below-trans k j m less s.0),
        ))
    | inr (inl hit) ↦ rw (insert-eq k j v w m hit) refl
    | inr (inr more) ↦ rw (insert-gt k j v w m more) (
        omega (
          arith,
          length_replaced k v u m s.1 (sym (get_miss k j w w m (λ q. ground (arith, more))) ∙ h),
        ))
  ]

  -- An insertion stays within a bound that leaves room for a new key.
  pub insert_within :
      (k : K) (v : V) (m : Map K V) (bound : ℕ)
      → IsSorted m
      → length m ≤ bound
      → (get k m ≡ none → length m + 1 ≤ bound)
      → length (insert k v m) ≤ bound
  insert_within k v m bound s within room = elim (Option-cases (get k m)) [
    | inl vacant ↦ omega (arith, length-insert k v m, room vacant)
    | inr (u, held) ↦ rw (length_replaced k v u m s held) within
  ]

module _ {ℓ κ} {K : Type ℓ} {V : Type κ} ⦃o : Ord K⦄ (p : K → Bool) where
  abbrev pub count_keys : Map K V → ℕ
  count_keys m = length (keep_if (λ entry. p entry.0) m)

  pub count_keys-insert :
      (k : K) (v : V) (m : Map K V) → count_keys (insert k v m) ≤ count_keys m + 1
  unfolding insert
  count_keys-insert k v [] = ground (arith)
  count_keys-insert k v ((j, w) ∷ m) = ground (arith, count_keys-insert k v m)

  pub count_keys_other :
      (k : K) (v : V) (m : Map K V) → p k ≡ false → count_keys (insert k v m) ≤ count_keys m
  unfolding insert
  count_keys_other k v [] h = ground (arith, h)
  count_keys_other k v ((j, w) ∷ m) h = ground (arith, h, count_keys_other k v m h)

-- The number of all elements of the lists that a map holds.
unfoldable pub weight {ℓ κ} : {K : Type ℓ} {A : Type κ} → Map K (List A) → ℕ
weight [] = 0
weight ((k, xs) ∷ m) = length xs + weight m

-- The list of an `entry` that may be vacant.
abbrev pub held_list {ℓ} : {A : Type ℓ} → Option (List A) → List A
held_list none = []
held_list (some xs) = xs

module _ {ℓ κ} {K : Type ℓ} {A : Type κ} ⦃o : Ord K⦄ where
  pub weight-insert :
      (k : K) (xs : List A) (m : Map K (List A))
      → IsSorted m
      → weight (insert k xs m) + length (held_list (get k m)) ≡ weight m + length xs
  unfolding weight
  weight-insert k xs [] s = unfold insert get in omega arith
  weight-insert k xs ((j, ys) ∷ m) s = elim (Ordering-cases (o.cmp k j)) [
    | inl less ↦
        rw
          (
            insert-lt k j xs ys m less,
            get_miss k j ys ys m (λ q. ground (arith, less)),
            get-Below k m (Below-trans k j m less s.0),
          )
          (omega arith)
    | inr (inl hit) ↦ rw (insert-eq k j xs ys m hit, get_hit k j ys ys m hit) (omega arith)
    | inr (inr more) ↦
        rw (insert-gt k j xs ys m more, get_miss k j ys ys m (λ q. ground (arith, more)))
          (omega (arith, weight-insert k xs m s.1))
  ]
