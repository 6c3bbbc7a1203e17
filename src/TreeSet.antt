-- ===== src/TreeSet.antt =====
-- `BTreeSet<K>`: its elements in ascending order.
use mathlib.Core.Path.{ap₂}
use rust_factory.Common.{
  ◌≡◌, refl, Bool, false, ◌||◌, List, [], ◌∷◌, lt, eq, gt, Ord, same, same_iff, arith,
}

module _ {ℓ} {K : Type ℓ} ⦃o : Ord K⦄ where
  unfoldable pub insert : K → List K → List K
  insert k [] = k ∷ []
  insert k (j ∷ m) = elim (o.cmp k j) [ lt ↦ k ∷ j ∷ m | eq ↦ k ∷ m | gt ↦ j ∷ insert k m ]

  -- `into_iter().collect::<BTreeSet<_>>()`
  unfoldable pub collect : List K → List K
  unfolding insert
  collect [] = []
  collect (k ∷ ks) = insert k (collect ks)

  abbrev pub contains : List K → K → Bool
  contains [] a = false
  contains (k ∷ ks) a = same a k || contains ks a

  abbrev pub Below : K → List K → Type ℓ
  Below k [] = Unit
  Below k (j ∷ m) = (o.cmp k j ≡ lt) × Below k m

  abbrev pub IsAscending : List K → Type ℓ
  IsAscending [] = Unit
  IsAscending (k ∷ m) = Below k m × IsAscending m

  Below-trans : (j k : K) (m : List K) → o.cmp j k ≡ lt → Below k m → Below j m
  Below-trans j k [] h b = tt
  Below-trans j k (i ∷ m) h b = (o.cmp_trans j k i h b.0, Below-trans j k m h b.1)

  Below-insert : (j k : K) (m : List K) → o.cmp j k ≡ lt → Below j m → Below j (insert k m)
  unfolding insert
  Below-insert j k [] h b = (h, tt)
  Below-insert j k (i ∷ m) h b = ground (arith, Below-insert j k m h b.1)

  insert-IsAscending : (k : K) (m : List K) → IsAscending m → IsAscending (insert k m)
  unfolding insert
  insert-IsAscending k [] s = (tt, tt)
  insert-IsAscending k (i ∷ m) s = ground (
    arith,
    o.eq_of_cmp k i,
    o.cmp_flip k i,
    Below-trans k i m,
    Below-insert i k m,
    insert-IsAscending k m s.1,
  )

  pub collect-IsAscending : (ks : List K) → IsAscending (collect ks)
  unfolding collect
  collect-IsAscending [] = tt
  collect-IsAscending (k ∷ ks) = insert-IsAscending k (collect ks) (collect-IsAscending ks)

  pub insert_again : (k : K) (m : List K) → insert k (k ∷ m) ≡ k ∷ m
  unfolding insert
  insert_again k m = ground (arith, o.cmp_refl k)

  pub insert_first : (k : K) (m : List K) → Below k m → insert k m ≡ k ∷ m
  unfolding insert
  insert_first k [] b = refl
  insert_first k (i ∷ m) b = ground arith

  -- An ascending list is its own set.
  pub collect_ascending : (ks : List K) → IsAscending ks → collect ks ≡ ks
  unfolding collect
  collect_ascending [] s = refl
  collect_ascending (k ∷ ks) s = ground (arith, insert_first k ks s.0, collect_ascending ks s.1)

  contains-insert : (k a : K) (m : List K) → contains (insert k m) a ≡ (same a k || contains m a)
  unfolding insert
  contains-insert k a [] = refl
  contains-insert k a (i ∷ m) = ground (arith, o.eq_of_cmp k i, contains-insert k a m)

  -- The set has the elements of the list.
  pub contains-collect : (ks : List K) (a : K) → contains (collect ks) a ≡ contains ks a
  unfolding collect
  contains-collect [] a = refl
  contains-collect (k ∷ ks) a =
      ground (arith, contains-insert k a (collect ks), contains-collect ks a)

  contains-Below : (k : K) (m : List K) → Below k m → contains m k ≡ false
  contains-Below k [] b = refl
  contains-Below k (i ∷ m) b = ground (arith, contains-Below k m b.1)

  same_tail :
      (k a : K) (ks js : List K)
      → Below k ks
      → Below k js
      → contains (k ∷ ks) a ≡ contains (k ∷ js) a
      → contains ks a ≡ contains js a
  same_tail k a ks js b c h =
      ground (arith, same_iff a k, contains-Below k ks b, contains-Below k js c)

  -- Two sets with the same elements are one.
  pub ascending_ext :
      (ks js : List K)
      → IsAscending ks
      → IsAscending js
      → ((a : K) → contains ks a ≡ contains js a)
      → ks ≡ js
  ascending_ext [] [] s t h = refl
  ascending_ext [] (j ∷ js) s t h = ground (arith, h j, o.cmp_refl j)
  ascending_ext (k ∷ ks) [] s t h = ground (arith, h k, o.cmp_refl k)
  ascending_ext (k ∷ ks) (j ∷ js) s t h =
      let heads : k ≡ j = ground (
        arith,
        h k,
        h j,
        o.cmp_refl k,
        o.cmp_refl j,
        o.cmp_flip k j,
        o.eq_of_cmp k j,
        contains-Below k js,
        contains-Below j ks,
        Below-trans k j js,
        Below-trans j k ks,
      ) in
      ap₂ ◌∷◌ heads (
        ascending_ext ks js s.1 t.1
          (λ a. same_tail k a ks js s.0 (rw heads t.0) (rw (heads) (rw heads at (h a)))))
