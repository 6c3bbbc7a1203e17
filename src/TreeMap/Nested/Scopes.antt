-- ===== src/TreeMap/Nested/Scopes.antt =====
-- The entries of one inner map, and the number of inner maps, read off the flat map.
use rust_factory.Common.{
  ◌≡◌, ◌≢◌, refl, sym, ap, ◌∙◌, Bool, List, [], ◌∷◌, ◌++◌, eq, Ord, pair_ord, length, arith, inl,
  inr, keep_if, same, map,
}
use rust_factory.TreeMap.{Map, get, Below, IsSorted}
use rust_factory.TreeMap.Laws.{get_hit, get_miss}
use rust_factory.TreeMap.Every.{Every}
use rust_factory.TreeSet
use rust_factory.TreeSet.{collect, insert, insert_first, insert_again}
use rust_factory.TreeMap.Nested.{or_empty, tag, flatten, Above, Ordering-cases, flatten-Above}

module _ {ℓ κ μ} {K : Type ℓ} {L : Type κ} {V : Type μ} where
  abbrev pub IsFilled : K → Map L V → Type 0
  IsFilled k inner = ¬ (length inner ≡ 0)

module _ {ℓ κ μ} {K : Type ℓ} {L : Type κ} {V : Type μ} ⦃o : Ord K⦄ ⦃p : Ord L⦄ where
  abbrev pub in_scope : K → (K × L) × V → Bool
  in_scope k entry = same k entry.0.0

  keep_if-Above : (k : K) (m : Map (K × L) V) → Above k m → keep_if (in_scope k) m ≡ []
  keep_if-Above k [] a = refl
  keep_if-Above k (((j, l), v) ∷ m) a = ground (arith, a.0, keep_if-Above k m a.1)

  keep_if-tag :
      (k : K) (inner : Map L V) (rest : Map (K × L) V)
      → keep_if (in_scope k) (tag k inner ++ rest) ≡ tag k inner ++ keep_if (in_scope k) rest
  unfolding tag
  keep_if-tag k [] rest = refl
  keep_if-tag k ((l, v) ∷ inner) rest = ground (arith, o.cmp_refl k, keep_if-tag k inner rest)

  keep_if_skip :
      (k j : K) (inner : Map L V) (rest : Map (K × L) V)
      → o.cmp k j ≢ eq
      → keep_if (in_scope k) (tag j inner ++ rest) ≡ keep_if (in_scope k) rest
  unfolding tag
  keep_if_skip k j [] rest h = refl
  keep_if_skip k j ((l, v) ∷ inner) rest h = ground (arith, keep_if_skip k j inner rest h)

  append_nil : (xs : Map (K × L) V) → xs ++ [] ≡ xs
  append_nil [] = refl
  append_nil (x ∷ xs) = ap (◌∷◌ x) (append_nil xs)

  -- The entries under `k` are those of its inner map.
  pub keep_if-flatten :
      (k : K) (m : Map K (Map L V))
      → IsSorted m
      → keep_if (in_scope k) (flatten m) ≡ tag k (or_empty (get k m))
  unfolding flatten
  keep_if-flatten k [] s = unfold get tag in refl
  keep_if-flatten k ((j, inner) ∷ m) s = elim (Ordering-cases (o.cmp k j)) [
    | inl less ↦
        let differ : o.cmp k j ≢ eq = λ q. ground (arith, less) in
        rw (get_miss k j inner inner m differ, keep_if_skip k j inner (flatten m) differ)
          (keep_if-flatten k m s.1)
    | inr (inl hit) ↦
        let e : k ≡ j = o.eq_of_cmp k j hit in
        let b : Below k m = rw e s.0 in
        rw
          (
            get_hit k j inner inner m hit,
            sym e,
            keep_if-tag k inner (flatten m),
            keep_if-Above k (flatten m) (flatten-Above k m b),
          )
          (append_nil (tag k inner))
    | inr (inr more) ↦
        let differ : o.cmp k j ≢ eq = λ q. ground (arith, more) in
        rw (get_miss k j inner inner m differ, keep_if_skip k j inner (flatten m) differ)
          (keep_if-flatten k m s.1)
  ]

  pub length-tag : (k : K) (inner : Map L V) → length (tag k inner) ≡ length inner
  unfolding tag
  length-tag k [] = refl
  length-tag k (x ∷ inner) = omega (arith, length-tag k inner)

  -- The outer keys, each once.
  abbrev pub outer_keys : Map (K × L) V → List K
  outer_keys m = collect (map (λ entry. entry.0.0) m)

  collect-tag :
      (k : K) (inner : Map L V) (rest : Map (K × L) V)
      → ¬ (length inner ≡ 0)
      → TreeSet.Below k (outer_keys rest)
      → outer_keys (tag k inner ++ rest) ≡ k ∷ outer_keys rest
  unfolding collect tag
  collect-tag k [] rest filled b = absurd (filled refl)
  collect-tag k (x ∷ []) rest filled b = insert_first k (outer_keys rest) b
  collect-tag k (x ∷ y ∷ inner) rest filled b =
      ap (insert k) (collect-tag k (y ∷ inner) rest (λ e. omega arith) b)
      ∙ insert_again k (outer_keys rest)

  keys-Below :
      (k : K) (m : Map K (Map L V)) → Below k m → TreeSet.Below k (map (λ entry. entry.0) m)
  keys-Below k [] b = tt
  keys-Below k ((j, inner) ∷ m) b = (b.0, keys-Below k m b.1)

  -- With no empty inner map, the outer keys of the entries are those of the map.
  pub outer_keys-flatten :
      (m : Map K (Map L V))
      → IsSorted m
      → Every IsFilled m
      → outer_keys (flatten m) ≡ map (λ entry. entry.0) m
  unfolding flatten collect
  outer_keys-flatten [] s f = refl
  outer_keys-flatten ((k, inner) ∷ m) s f =
      let rest = outer_keys-flatten m s.1 f.1 in
      collect-tag k inner (flatten m) f.0 (rw rest (keys-Below k m s.0)) ∙ ap (◌∷◌ k) rest
