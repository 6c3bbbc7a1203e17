-- ===== src/TreeMap/Total.antt =====
-- The sum of a weight over the entries of a map.
use rust_factory.Common.{ℕ, ◌+◌, ◌≤◌, ◌≡◌, Option, none, some, [], ◌∷◌, Ord, arith}
use rust_factory.TreeMap.{Map, get, insert, remove, IsSorted}
use rust_factory.TreeMap.Laws.{get-Below, Below-trans, remove-head}

module _ {ℓ κ} {K : Type ℓ} {V : Type κ} (weight : K → V → ℕ) where
  unfoldable pub total : Map K V → ℕ
  total [] = 0
  total ((k, v) ∷ m) = weight k v + total m

  -- The weight of what a lookup found.
  abbrev pub held : K → Option V → ℕ
  held k none = 0
  held k (some v) = weight k v

module _ {ℓ κ} {K : Type ℓ} {V : Type κ} ⦃o : Ord K⦄ (weight : K → V → ℕ) where
  pub total-insert :
      (k : K) (v : V) (m : Map K V)
      → IsSorted m
      → total weight (insert k v m) + held weight k (get k m) ≡ total weight m + weight k v
  unfolding total insert get
  total-insert k v [] s = omega arith
  total-insert k v ((i, w) ∷ m) s =
      ground (arith, o.eq_of_cmp k i, get-Below k m, Below-trans k i m, total-insert k v m s.1)

  pub total-remove :
      (k : K) (m : Map K V)
      → IsSorted m
      → total weight (remove k m) + held weight k (get k m) ≡ total weight m
  unfolding total remove get
  total-remove k [] s = omega arith
  total-remove k ((i, w) ∷ m) s =
      ground (arith, o.eq_of_cmp k i, remove-head k i w m, total-remove k m s.1)

  pub held-le-total : (k : K) (m : Map K V) → held weight k (get k m) ≤ total weight m
  unfolding total get
  held-le-total k [] = omega arith
  held-le-total k ((i, w) ∷ m) = ground (arith, o.eq_of_cmp k i, held-le-total k m)
