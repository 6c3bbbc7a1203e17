-- ===== src/TreeMap/Laws.antt =====
-- What a lookup finds after an insertion or a removal, and that both keep the order.
use rust_factory.Common.{
  ◌≡◌, ◌≢◌, refl, none, some, [], ◌∷◌, lt, eq, gt, Ord, same, same_refl, same-eq, false, Bool-cases,
  ap, ◌∙◌, inl, inr, arith, if◌then◌else◌,
}
use rust_factory.TreeMap.{Map, get, insert, remove, Below, IsSorted}

module _ {ℓ κ} {K : Type ℓ} {V : Type κ} ⦃o : Ord K⦄ where
  -- One step of an operation, by the comparison with the first key.
  module _ (k i : K) (v w : V) (m : Map K V) where
    pub insert-lt : o.cmp k i ≡ lt → insert k v ((i, w) ∷ m) ≡ (k, v) ∷ (i, w) ∷ m
    unfolding insert
    insert-lt h = ground (arith, h)

    pub insert-eq : o.cmp k i ≡ eq → insert k v ((i, w) ∷ m) ≡ (k, v) ∷ m
    unfolding insert
    insert-eq h = ground (arith, h)

    pub insert-gt : o.cmp k i ≡ gt → insert k v ((i, w) ∷ m) ≡ (i, w) ∷ insert k v m
    unfolding insert
    insert-gt h = ground (arith, h)

    pub get_hit : o.cmp k i ≡ eq → get k ((i, w) ∷ m) ≡ some w
    unfolding get
    get_hit h = ground (arith, h)

    pub get_miss : o.cmp k i ≢ eq → get k ((i, w) ∷ m) ≡ get k m
    unfolding get
    get_miss h = ground (arith, h)

    pub remove_hit : o.cmp k i ≡ eq → remove k ((i, w) ∷ m) ≡ remove k m
    unfolding remove
    remove_hit h = ground (arith, h)

    pub remove_miss : o.cmp k i ≢ eq → remove k ((i, w) ∷ m) ≡ (i, w) ∷ remove k m
    unfolding remove
    remove_miss h = ground (arith, h)

  pub get-insert :
      (k j : K) (v : V) (m : Map K V)
      → get j (insert k v m) ≡ (if same k j then some v else get j m)
  unfolding get insert
  get-insert k j v [] = ground (arith, o.cmp_flip k j)
  get-insert k j v ((i, w) ∷ m) =
      ground (
        arith,
        o.cmp_flip k j,
        o.eq_of_cmp k i,
        o.eq_of_cmp k j,
        o.cmp_flip k i,
        get-insert k j v m,
      )

  pub get-insert_same : (k : K) (v : V) (m : Map K V) → get k (insert k v m) ≡ some v
  get-insert_same k v m = ground (arith, get-insert k k v m, same_refl k)

  pub get-insert_other :
      (k j : K) (v : V) (m : Map K V) → same k j ≡ false → get j (insert k v m) ≡ get j m
  get-insert_other k j v m miss = rw (get-insert k j v m) (rw miss refl)

  pub get-insert_absent :
      (k j : K) (v w : V) (m : Map K V)
      → get k m ≡ none
      → get j m ≡ some w
      → get j (insert k v m) ≡ some w
  get-insert_absent k j v w m free h = elim (Bool-cases (same k j)) [
    | inl hit ↦ absurd (ground (arith, ap (λ i. get i m) (same-eq k j hit)))
    | inr miss ↦ get-insert_other k j v m miss ∙ h
  ]

  pub get-remove :
      (k j : K) (m : Map K V) → get j (remove k m) ≡ (if same k j then none else get j m)
  unfolding get remove
  get-remove k j [] = ground arith
  get-remove k j ((i, w) ∷ m) =
      ground
        (arith, o.eq_of_cmp k i, o.eq_of_cmp j i, o.cmp_flip k j, o.cmp_refl j, get-remove k j m)

  pub Below-trans : (j k : K) (m : Map K V) → o.cmp j k ≡ lt → Below k m → Below j m
  Below-trans j k [] h b = tt
  Below-trans j k ((i, w) ∷ m) h b = (o.cmp_trans j k i h b.0, Below-trans j k m h b.1)

  pub get-Below : (k : K) (m : Map K V) → Below k m → get k m ≡ none
  unfolding get
  get-Below k [] b = refl
  get-Below k ((i, w) ∷ m) b = ground (arith, get-Below k m b.1)

  pub get_first : (k : K) (v : V) (m : Map K V) → get k ((k, v) ∷ m) ≡ some v
  unfolding get
  get_first k v m = ground (arith, o.cmp_refl k)

  pub get_later :
      (k i : K) (v w : V) (m : Map K V) → Below i m → get k m ≡ some v → get k ((i, w) ∷ m) ≡ some v
  unfolding get
  get_later k i v w m b e = ground (arith, o.eq_of_cmp k i, get-Below i m b)

  Below-insert :
      (j k : K) (v : V) (m : Map K V) → o.cmp j k ≡ lt → Below j m → Below j (insert k v m)
  unfolding insert
  Below-insert j k v [] h b = (h, tt)
  Below-insert j k v ((i, w) ∷ m) h b = ground (arith, Below-insert j k v m h b.1)

  pub insert-IsSorted : (k : K) (v : V) (m : Map K V) → IsSorted m → IsSorted (insert k v m)
  unfolding insert
  insert-IsSorted k v [] s = (tt, tt)
  insert-IsSorted k v ((i, w) ∷ m) s = ground (
    arith,
    o.eq_of_cmp k i,
    o.cmp_flip k i,
    Below-trans k i m,
    Below-insert i k v m,
    insert-IsSorted k v m s.1,
  )

  Below-remove : (j k : K) (m : Map K V) → Below j m → Below j (remove k m)
  unfolding remove
  Below-remove j k [] b = tt
  Below-remove j k ((i, w) ∷ m) b = ground (arith, Below-remove j k m b.1)

  pub remove-IsSorted : (k : K) (m : Map K V) → IsSorted m → IsSorted (remove k m)
  unfolding remove
  remove-IsSorted k [] s = tt
  remove-IsSorted k ((i, w) ∷ m) s = ground (arith, Below-remove i k m s.0, remove-IsSorted k m s.1)

  pub remove_absent : (k : K) (m : Map K V) → Below k m → remove k m ≡ m
  unfolding remove
  remove_absent k [] b = refl
  remove_absent k ((i, w) ∷ m) b = ground (arith, remove_absent k m b.1)

  -- The head of a sorted map is the only entry with its key.
  pub remove-head : (k i : K) (w : V) (m : Map K V) → o.cmp k i ≡ eq → Below i m → remove k m ≡ m
  remove-head k i w m h b = remove_absent k m (subst_below (o.eq_of_cmp k i h))
    where
      subst_below : k ≡ i → Below k m
      subst_below p = ground arith

pub ruleset map_laws = (get-insert, get-remove)

module _ {ℓ κ} {K : Type ℓ} {V : Type κ} ⦃o : Ord K⦄ where
  pub insert-insert : (k : K) (v w : V) (m : Map K V) → insert k v (insert k w m) ≡ insert k v m
  unfolding insert
  insert-insert k v w [] = ground (arith, o.cmp_refl k)
  insert-insert k v w ((i, u) ∷ m) = ground (arith, o.cmp_refl k, insert-insert k v w m)

  pub remove_missing : (k : K) (m : Map K V) → get k m ≡ none → remove k m ≡ m
  unfolding get remove
  remove_missing k [] h = refl
  remove_missing k ((i, w) ∷ m) h = ground (arith, remove_missing k m)
