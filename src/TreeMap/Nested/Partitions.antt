-- ===== src/TreeMap/Nested/Partitions.antt =====
-- The entries below two keys, and the number of second keys, read off the flat map.
use rust_factory.Common.{
  ◌≡◌, refl, ap, ◌∙◌, Bool, ◌&&◌, List, [], ◌∷◌, Ord, pair_ord, length, arith, keep_if, same, map,
}
use rust_factory.TreeMap.{Map, get, IsSorted}
use rust_factory.TreeSet.{collect}
use rust_factory.TreeMap.Nested.{or_empty, tag, flatten}
use rust_factory.TreeMap.Nested.Scopes.{in_scope, keep_if-flatten, outer_keys-flatten}
use rust_factory.TreeMap.Nested.Deep.{
  deep, map_values, map_values-IsSorted, inner_flat, SortedWithin, FilledWithin, inner-IsSorted,
  inner-IsFilled,
}

keep_if_both {ℓ} :
    {A : Type ℓ} (p q : A → Bool) (xs : List A)
    → keep_if (λ x. p x && q x) xs ≡ keep_if q (keep_if p xs)
keep_if_both p q [] = refl
keep_if_both p q (x ∷ xs) = ground (arith, keep_if_both p q xs)

module _ {ℓ κ} {A : Type ℓ} {B : Type κ} where
  length-map : (f : A → B) (xs : List A) → length (map f xs) ≡ length xs
  length-map f [] = refl
  length-map f (x ∷ xs) = omega (arith, length-map f xs)

module _ {ℓ κ μ} {K : Type ℓ} {L : Type κ} {V : Type μ} where
  values-tag : (k : K) (y : Map L V) → map (λ entry. entry.1) (tag k y) ≡ map (λ entry. entry.1) y
  unfolding tag
  values-tag k [] = refl
  values-tag k (e ∷ y) = ap (◌∷◌ e.1) (values-tag k y)

module _ {ℓ κ μ ν} {K : Type ℓ} {L : Type κ} {N : Type μ} {V : Type ν} ⦃o : Ord K⦄ ⦃p : Ord L⦄
    ⦃q : Ord N⦄ where
  abbrev pub in_partition : K → L → (K × (L × N)) × V → Bool
  in_partition k l entry = same k entry.0.0 && same l entry.0.1.0

  abbrev pub partition : K → L → Map (K × (L × N)) V → List V
  partition k l m = map (λ entry. entry.1) (keep_if (in_partition k l) m)

  abbrev pub second_keys : K → Map (K × (L × N)) V → List L
  second_keys k m = collect (map (λ entry. entry.0.1.0) (keep_if (in_scope k) m))

  keep_if_tagged :
      (k : K) (l : L) (y : Map (L × N) V)
      → keep_if (λ entry. same l entry.0.1.0) (tag k y) ≡ tag k (keep_if (in_scope l) y)
  unfolding tag
  keep_if_tagged k l [] = refl
  keep_if_tagged k l (e ∷ y) = ground (arith, keep_if_tagged k l y)

  second-tag :
      (k : K) (y : Map (L × N) V)
      → map (λ entry. entry.0.1.0) (tag k y) ≡ map (λ entry. entry.0.0) y
  unfolding tag
  second-tag k [] = refl
  second-tag k (e ∷ y) = ap (◌∷◌ e.0.0) (second-tag k y)

  keep_if-deep :
      (k : K) (m : Map K (Map L (Map N V)))
      → IsSorted m
      → keep_if (in_scope k) (deep m) ≡ tag k (flatten (or_empty (get k m)))
  unfolding deep
  keep_if-deep k m s =
      keep_if-flatten k (map_values flatten m) (map_values-IsSorted flatten m s)
      ∙ ap (tag k) (inner_flat k m)

  pub partition-deep :
      (k : K) (l : L) (m : Map K (Map L (Map N V)))
      → IsSorted m
      → SortedWithin m
      → partition k l (deep m) ≡ map (λ entry. entry.1) (or_empty (get l (or_empty (get k m))))
  partition-deep k l m s w =
      ap (map (λ entry. entry.1)) (
        keep_if_both (in_scope k) (λ entry. same l entry.0.1.0) (deep m)
        ∙ ap (keep_if (λ entry. same l entry.0.1.0)) (keep_if-deep k m s)
        ∙ keep_if_tagged k l (flatten (or_empty (get k m)))
        ∙ ap (tag k) (keep_if-flatten l (or_empty (get k m)) (inner-IsSorted k m w)))
      ∙ values-tag k (tag l (or_empty (get l (or_empty (get k m)))))
      ∙ values-tag l (or_empty (get l (or_empty (get k m))))

  pub length-partition-deep :
      (k : K) (l : L) (m : Map K (Map L (Map N V)))
      → IsSorted m
      → SortedWithin m
      → length (partition k l (deep m)) ≡ length (or_empty (get l (or_empty (get k m))))
  length-partition-deep k l m s w =
      ap length (partition-deep k l m s w)
      ∙ length-map (λ entry. entry.1) (or_empty (get l (or_empty (get k m))))

  pub second_keys-deep :
      (k : K) (m : Map K (Map L (Map N V)))
      → IsSorted m
      → SortedWithin m
      → FilledWithin m
      → length (second_keys k (deep m)) ≡ length (or_empty (get k m))
  second_keys-deep k m s w f =
      ap (λ x. length (collect (map (λ entry. entry.0.1.0) x))) (keep_if-deep k m s)
      ∙ ap (λ x. length (collect x)) (second-tag k (flatten (or_empty (get k m))))
      ∙ ap length
          (outer_keys-flatten (or_empty (get k m)) (inner-IsSorted k m w) (inner-IsFilled k m f))
      ∙ length-map (λ entry. entry.0) (or_empty (get k m))
