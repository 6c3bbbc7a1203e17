-- ===== src/Storage/Listing/Ranges.antt =====
-- A range of a sorted map, as a filter.
use rust_factory.Common.{
  ◌≡◌, ◌≢◌, refl, Bool, true, false, not, ◌&&◌, List, [], ◌∷◌, lt, Ord, before, keep_if, All, arith,
}
use rust_factory.TreeMap.{Map, Below, IsSorted, from_included, from_excluded}
use rust_factory.TreeMap.Every.{Every}

module _ {ℓ} {A : Type ℓ} where
  pub keep_if-All : (p : A → Bool) (xs : List A) → All (λ x. p x ≡ true) xs → keep_if p xs ≡ xs
  keep_if-All p [] h = refl
  keep_if-All p (x ∷ xs) h = ground (arith, keep_if-All p xs h.1)

  pub keep_if-none : (p : A → Bool) (xs : List A) → All (λ x. p x ≡ false) xs → keep_if p xs ≡ []
  keep_if-none p [] h = refl
  keep_if-none p (x ∷ xs) h = ground (arith, keep_if-none p xs h.1)

  pub keep_if-keep_if :
      (p q r : A → Bool) (xs : List A)
      → All (λ x. (p x && q x) ≡ r x) xs
      → keep_if p (keep_if q xs) ≡ keep_if r xs
  keep_if-keep_if p q r [] h = refl
  keep_if-keep_if p q r (x ∷ xs) h = ground (arith, keep_if-keep_if p q r xs h.1)

module _ {ℓ κ} {K : Type ℓ} {V : Type κ} ⦃o : Ord K⦄ where
  Below-All :
      (k j : K) (m : Map K V) → o.cmp k j ≡ lt → Below j m → All (λ x. before k x.0 ≡ true) m
  Below-All k j [] h b = tt
  Below-All k j ((i, w) ∷ m) h b = (ground (arith, o.cmp_trans k j i), Below-All k j m h b.1)

  pub from_excluded-keep_if :
      (k : K) (m : Map K V) → IsSorted m → from_excluded k m ≡ keep_if (λ x. before k x.0) m
  unfolding from_excluded
  from_excluded-keep_if k [] s = refl
  from_excluded-keep_if k ((i, w) ∷ m) s = ground (
    arith,
    o.cmp_flip k i,
    from_excluded-keep_if k m s.1,
    Below-All k i m,
    keep_if-All (λ x. before k x.0) m,
  )

  Below-All_from :
      (k j : K) (m : Map K V) → o.cmp j k ≢ lt → Below j m → All (λ x. not (before x.0 k) ≡ true) m
  Below-All_from k j [] h b = tt
  Below-All_from k j ((i, w) ∷ m) h b =
      (ground (arith, o.cmp_trans j i k), Below-All_from k j m h b.1)

  pub from_included-keep_if :
      (k : K) (m : Map K V) → IsSorted m → from_included k m ≡ keep_if (λ x. not (before x.0 k)) m
  unfolding from_included
  from_included-keep_if k [] s = refl
  from_included-keep_if k ((i, w) ∷ m) s = ground (
    arith,
    from_included-keep_if k m s.1,
    Below-All_from k i m,
    keep_if-All (λ x. not (before x.0 k)) m,
  )

  pub from_excluded-IsSorted : (k : K) (m : Map K V) → IsSorted m → IsSorted (from_excluded k m)
  unfolding from_excluded
  from_excluded-IsSorted k [] s = tt
  from_excluded-IsSorted k ((i, w) ∷ m) s = ground (arith, from_excluded-IsSorted k m s.1)

  pub from_included-IsSorted : (k : K) (m : Map K V) → IsSorted m → IsSorted (from_included k m)
  unfolding from_included
  from_included-IsSorted k [] s = tt
  from_included-IsSorted k ((i, w) ∷ m) s = ground (arith, from_included-IsSorted k m s.1)

module _ {ℓ κ μ} {K : Type ℓ} {V : Type κ} (P : K → V → Type μ) (p : K × V → Bool) where
  pub Every-keep_if : (m : Map K V) → Every P m → Every P (keep_if p m)
  Every-keep_if [] h = tt
  Every-keep_if ((k, v) ∷ m) h = ground (arith, Every-keep_if m h.1)

  pub Every-kept :
      (m : Map K V) → ((k : K) (v : V) → p (k, v) ≡ true → P k v) → Every P (keep_if p m)
  Every-kept [] f = tt
  Every-kept ((k, v) ∷ m) f = ground (arith, f k v, Every-kept m f)
