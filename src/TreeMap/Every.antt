-- ===== src/TreeMap/Every.antt =====
-- A predicate of every entry of a map.
use rust_factory.Common.{◌≡◌, some, [], ◌∷◌, Ord, arith}
use rust_factory.TreeMap.{Map, get, insert, remove}

module _ {ℓ κ μ} {K : Type ℓ} {V : Type κ} where
  abbrev pub Every : (K → V → Type μ) → Map K V → Type μ
  Every P [] = Unit
  Every P ((k, v) ∷ m) = P k v × Every P m

  pub Every-mono :
      (P Q : K → V → Type μ) (m : Map K V)
      → ((k : K) (v : V) → P k v → Q k v)
      → Every P m
      → Every Q m
  Every-mono P Q [] f h = tt
  Every-mono P Q ((k, v) ∷ m) f h = (f k v h.0, Every-mono P Q m f h.1)

module _ {ℓ κ μ} {K : Type ℓ} {V : Type κ} ⦃o : Ord K⦄ (P : K → V → Type μ) where
  pub Every-insert : (k : K) (v : V) (m : Map K V) → P k v → Every P m → Every P (insert k v m)
  unfolding insert
  Every-insert k v [] p h = (p, tt)
  Every-insert k v ((i, w) ∷ m) p h = ground (arith, Every-insert k v m p h.1)

  pub Every-remove : (k : K) (m : Map K V) → Every P m → Every P (remove k m)
  unfolding remove
  Every-remove k [] h = tt
  Every-remove k ((i, w) ∷ m) h = ground (arith, Every-remove k m h.1)

  pub Every-get : (k : K) (v : V) (m : Map K V) → Every P m → get k m ≡ some v → P k v
  unfolding get
  Every-get k v [] h e = cc
  Every-get k v ((i, w) ∷ m) h e = ground (arith, o.eq_of_cmp k i, Every-get k v m h.1)
