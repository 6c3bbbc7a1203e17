-- ===== src/TreeMap/Nested/Deep.antt =====
-- Three levels of maps against one flat map.
use mathlib.Core.Option
use rust_factory.Common.{
  ◌≡◌, refl, sym, ap, ◌∙◌, Bool-cases, some, [], ◌∷◌, Ord, pair_ord, arith, inl, inr, Option-cases,
}
use rust_factory.TreeMap.{Map, get, insert, remove, Below, IsSorted}
use rust_factory.TreeMap.Every.{Every, Every-get}
use rust_factory.TreeMap.Nested.{
  or_empty, tag, flatten, flatten-insert, get-flatten, put_back, is_empty,
}
use rust_factory.TreeMap.Nested.Removal.{flatten-put_back, flatten-touch}
use rust_factory.TreeMap.Nested.Scopes.{IsFilled}

module _ {ℓ κ μ} {K : Type ℓ} {V : Type κ} {W : Type μ} (f : V → W) where
  unfoldable pub map_values : Map K V → Map K W
  map_values [] = []
  map_values ((k, v) ∷ m) = (k, f v) ∷ map_values m

module _ {ℓ κ μ} {K : Type ℓ} {V : Type κ} {W : Type μ} ⦃o : Ord K⦄ (f : V → W) where
  map_values-insert :
      (k : K) (v : V) (m : Map K V) → map_values f (insert k v m) ≡ insert k (f v) (map_values f m)
  unfolding map_values insert
  map_values-insert k v [] = refl
  map_values-insert k v ((j, w) ∷ m) = ground (arith, map_values-insert k v m)

  map_values-remove : (k : K) (m : Map K V) → map_values f (remove k m) ≡ remove k (map_values f m)
  unfolding map_values remove
  map_values-remove k [] = refl
  map_values-remove k ((j, w) ∷ m) = ground (arith, map_values-remove k m)

  get-map_values : (k : K) (m : Map K V) → get k (map_values f m) ≡ Option.map f (get k m)
  unfolding map_values get
  get-map_values k [] = refl
  get-map_values k ((j, w) ∷ m) = ground (arith, get-map_values k m)

  map_values-Below : (k : K) (m : Map K V) → Below k m → Below k (map_values f m)
  unfolding map_values
  map_values-Below k [] b = tt
  map_values-Below k ((j, w) ∷ m) b = (b.0, map_values-Below k m b.1)

  pub map_values-IsSorted : (m : Map K V) → IsSorted m → IsSorted (map_values f m)
  unfolding map_values
  map_values-IsSorted [] s = tt
  map_values-IsSorted ((k, v) ∷ m) s = (map_values-Below k m s.0, map_values-IsSorted m s.1)

module _ {ℓ κ μ} {K : Type ℓ} {L : Type κ} {V : Type μ} where
  is_empty-flatten : (x : Map K (Map L V)) → Every IsFilled x → is_empty (flatten x) ≡ is_empty x
  unfolding flatten tag
  is_empty-flatten [] f = refl
  is_empty-flatten ((l, []) ∷ x) f = absurd (f.0 refl)
  is_empty-flatten ((l, (n, v) ∷ y) ∷ x) f = refl

module _ {ℓ κ μ ν} {K : Type ℓ} {L : Type κ} {N : Type μ} {V : Type ν} ⦃o : Ord K⦄ ⦃p : Ord L⦄
    ⦃q : Ord N⦄ where
  unfoldable pub deep : Map K (Map L (Map N V)) → Map (K × (L × N)) V
  unfolding flatten map_values
  deep m = flatten (map_values flatten m)

  abbrev pub SortedWithin : Map K (Map L (Map N V)) → Type κ
  SortedWithin = Every (λ k x. IsSorted x)

  pub inner_flat :
      (k : K) (m : Map K (Map L (Map N V)))
      → or_empty (get k (map_values flatten m)) ≡ flatten (or_empty (get k m))
  inner_flat k m = elim (Option-cases (get k m)) [
    | inl e ↦ rw (get-map_values flatten k m, e) (unfold flatten in refl)
    | inr (x, e) ↦ rw (get-map_values flatten k m, e) refl
  ]

  pub inner-IsSorted :
      (k : K) (m : Map K (Map L (Map N V))) → SortedWithin m → IsSorted (or_empty (get k m))
  inner-IsSorted k m w = elim (Option-cases (get k m)) [
    | inl e ↦ rw e tt
    | inr (x, e) ↦ rw e (Every-get (λ k x. IsSorted x) k x m w e)
  ]

  pub deep-insert :
      (k : K) (l : L) (n : N) (v : V) (m : Map K (Map L (Map N V)))
      → IsSorted m
      → SortedWithin m
      → deep (
          insert k
            (insert l (insert n v (or_empty (get l (or_empty (get k m))))) (or_empty (get k m)))
            m)
        ≡ insert (k, (l, n)) v (deep m)
  unfolding deep
  deep-insert k l n v m s w =
      let x = or_empty (get k m) in
      rw
        (
          map_values-insert flatten k (insert l (insert n v (or_empty (get l x))) x) m,
          flatten-insert l n v x (inner-IsSorted k m w),
          sym (inner_flat k m),
        )
        (flatten-insert k (l, n) v (map_values flatten m) (map_values-IsSorted flatten m s))

  pub get-deep :
      (k : K) (l : L) (n : N) (m : Map K (Map L (Map N V)))
      → IsSorted m
      → SortedWithin m
      → get (k, (l, n)) (deep m) ≡ get n (or_empty (get l (or_empty (get k m))))
  unfolding deep
  get-deep k l n m s w =
      get-flatten k (l, n) (map_values flatten m) (map_values-IsSorted flatten m s)
      ∙ rw (inner_flat k m) (get-flatten l n (or_empty (get k m)) (inner-IsSorted k m w))

  -- No inner map of an inner map is empty.
  abbrev pub FilledWithin : Map K (Map L (Map N V)) → Type 0
  FilledWithin = Every (λ k x. Every IsFilled x)

  pub inner-IsFilled :
      (k : K) (m : Map K (Map L (Map N V))) → FilledWithin m → Every IsFilled (or_empty (get k m))
  inner-IsFilled k m w = elim (Option-cases (get k m)) [
    | inl e ↦ rw e tt
    | inr (x, e) ↦ rw e (Every-get (λ k x. Every IsFilled x) k x m w e)
  ]

  map_values-put_back :
      (k : K) (x : Map L (Map N V)) (m : Map K (Map L (Map N V)))
      → Every IsFilled x
      → map_values flatten (put_back k x m) ≡ put_back k (flatten x) (map_values flatten m)
  map_values-put_back k x m f = elim (Bool-cases (is_empty x)) [
    | inl e ↦ rw (is_empty-flatten x f, e) (map_values-remove flatten k m)
    | inr e ↦ rw (is_empty-flatten x f, e) (map_values-insert flatten k x m)
  ]

  pub deep-put_back :
      (k : K) (l : L) (n : N) (m : Map K (Map L (Map N V))) (x : Map L (Map N V)) (y : Map N V)
      → IsSorted m
      → SortedWithin m
      → get k m ≡ some x
      → get l x ≡ some y
      → Every IsFilled (put_back l (remove n y) x)
      → deep (put_back k (put_back l (remove n y) x) m) ≡ remove (k, (l, n)) (deep m)
  unfolding deep
  deep-put_back k l n m x y s w e h f =
      rw
        (
          map_values-put_back k (put_back l (remove n y) x) m f,
          flatten-put_back l n y x (Every-get (λ k x. IsSorted x) k x m w e) h,
        )
        (flatten-put_back k (l, n) (flatten x) (map_values flatten m)
          (map_values-IsSorted flatten m s)
          (get-map_values flatten k m ∙ ap (Option.map flatten) e))

  -- Making an entry that is read as empty anyway changes nothing.
  pub deep-touch :
      (k : K) (m : Map K (Map L (Map N V)))
      → IsSorted m
      → deep (insert k (or_empty (get k m)) m) ≡ deep m
  unfolding deep
  deep-touch k m s =
      rw (map_values-insert flatten k (or_empty (get k m)) m, sym (inner_flat k m))
        (flatten-touch k (map_values flatten m) (map_values-IsSorted flatten m s))
