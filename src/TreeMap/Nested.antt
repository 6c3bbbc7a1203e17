-- ===== src/TreeMap/Nested.antt =====
-- A map of maps against the flat map of its entries under pairs of keys.
pub mod Removal
pub mod Scopes
pub mod Deep
pub mod Partitions
use mathlib.Core.Option
use rust_factory.Common.{
  ◌≡◌, ◌≢◌, refl, sym, ap, ◌∙◌, Bool, true, false, Bool-cases, Option, none, some, List, [], ◌∷◌,
  ◌++◌, lt, eq, gt, lex, flip, Ord, same, same-eq, pair_ord, keep_if, length, ◌==◌, if◌then◌else◌,
  arith, inl, inr, Ordering, ◌⊎◌,
}
use rust_factory.TreeMap.{Map, get, insert, remove, Below, IsSorted}
use rust_factory.TreeMap.Laws.{
  Below-trans, get-Below, insert-lt, insert-eq, insert-gt, get_hit, get_miss, remove_hit,
  remove_miss,
}
use rust_factory.TreeMap.Every.{Every}

-- The value of an `entry` that may be vacant.
abbrev pub or_empty {ℓ κ} : {L : Type ℓ} {V : Type κ} → Option (Map L V) → Map L V
or_empty none = []
or_empty (some m) = m

abbrev pub is_empty {ℓ} : {A : Type ℓ} → List A → Bool
is_empty [] = true
is_empty (x ∷ xs) = false

pub Ordering-cases : (x : Ordering) → (x ≡ lt) ⊎ ((x ≡ eq) ⊎ (x ≡ gt))
Ordering-cases lt = inl refl
Ordering-cases eq = inr (inl refl)
Ordering-cases gt = inr (inr refl)

module _ {ℓ κ μ} {K : Type ℓ} {L : Type κ} {V : Type μ} where
  unfoldable pub tag : K → Map L V → Map (K × L) V
  tag k [] = []
  tag k ((l, v) ∷ inner) = ((k, l), v) ∷ tag k inner

  unfoldable pub flatten : Map K (Map L V) → Map (K × L) V
  unfolding tag
  flatten [] = []
  flatten ((k, inner) ∷ m) = tag k inner ++ flatten m

module _ {ℓ κ μ} {K : Type ℓ} {L : Type κ} {V : Type μ} ⦃o : Ord K⦄ ⦃p : Ord L⦄ where
  -- Every key of the flat map begins after `k`.
  abbrev pub Above : K → Map (K × L) V → Type ℓ
  Above k [] = Unit
  Above k (((j, l), v) ∷ m) = (o.cmp k j ≡ lt) × Above k m

  pub Above-tag :
      (k j : K) (inner : Map L V) (rest : Map (K × L) V)
      → o.cmp k j ≡ lt
      → Above k rest
      → Above k (tag j inner ++ rest)
  unfolding tag
  Above-tag k j [] rest h a = a
  Above-tag k j ((l, v) ∷ inner) rest h a = (h, Above-tag k j inner rest h a)

  pub flatten-Above : (k : K) (m : Map K (Map L V)) → Below k m → Above k (flatten m)
  unfolding flatten
  flatten-Above k [] b = tt
  flatten-Above k ((j, inner) ∷ m) b = Above-tag k j inner (flatten m) b.0 (flatten-Above k m b.1)

  insert-Above :
      (k : K) (l : L) (v : V) (m : Map (K × L) V) → Above k m → insert (k, l) v m ≡ ((k, l), v) ∷ m
  unfolding insert
  insert-Above k l v [] a = refl
  insert-Above k l v (((j, i), w) ∷ m) a = ground (arith, a.0)

  insert-tag :
      (k : K) (l : L) (v : V) (inner : Map L V) (rest : Map (K × L) V)
      → Above k rest
      → insert (k, l) v (tag k inner ++ rest) ≡ tag k (insert l v inner) ++ rest
  unfolding insert tag
  insert-tag k l v [] rest a = insert-Above k l v rest a
  insert-tag k l v ((i, w) ∷ inner) rest a =
      ground (arith, o.cmp_refl k, insert-tag k l v inner rest a)

  insert_skip :
      (k j : K) (l : L) (v : V) (inner : Map L V) (rest : Map (K × L) V)
      → o.cmp k j ≡ gt
      → insert (k, l) v (tag j inner ++ rest) ≡ tag j inner ++ insert (k, l) v rest
  unfolding insert tag
  insert_skip k j l v [] rest h = refl
  insert_skip k j l v ((i, w) ∷ inner) rest h = ground (arith, insert_skip k j l v inner rest h)

  pub flatten-insert :
      (k : K) (l : L) (v : V) (m : Map K (Map L V))
      → IsSorted m
      → flatten (insert k (insert l v (or_empty (get k m))) m) ≡ insert (k, l) v (flatten m)
  unfolding flatten
  flatten-insert k l v [] s = unfold insert get in refl
  flatten-insert k l v ((j, inner) ∷ m) s = elim (Ordering-cases (o.cmp k j)) [
    | inl less ↦
        rw
          (
            get_miss k j inner inner m (λ q. ground (arith, less)),
            get-Below k m (Below-trans k j m less s.0),
            insert-lt k j _ inner m less,
            insert-Above k l v (tag j inner ++ flatten m) (
                Above-tag k j inner (flatten m) less
                  (flatten-Above k m (Below-trans k j m less s.0))),
          )
          (unfold insert tag in refl)
    | inr (inl hit) ↦
        let e : k ≡ j = o.eq_of_cmp k j hit in
        let b : Below k m = rw e s.0 in
        rw
          (
            get_hit k j inner inner m hit,
            insert-eq k j _ inner m hit,
            sym e,
            insert-tag k l v inner (flatten m) (flatten-Above k m b),
          )
          refl
    | inr (inr more) ↦
        rw
          (
            get_miss k j inner inner m (λ q. ground (arith, more)),
            insert-gt k j _ inner m more,
            insert_skip k j l v inner (flatten m) more,
          )
          (ap (◌++◌ (tag j inner)) (flatten-insert k l v m s.1))
  ]

  get-Above : (k : K) (l : L) (m : Map (K × L) V) → Above k m → get (k, l) m ≡ none
  unfolding get
  get-Above k l [] a = refl
  get-Above k l (((j, i), w) ∷ m) a = ground (arith, get-Above k l m a.1)

  get-tag :
      (k : K) (l : L) (inner : Map L V) (rest : Map (K × L) V)
      → Above k rest
      → get (k, l) (tag k inner ++ rest) ≡ get l inner
  unfolding get tag
  get-tag k l [] rest a = get-Above k l rest a
  get-tag k l ((i, w) ∷ inner) rest a = ground (arith, o.cmp_refl k, get-tag k l inner rest a)

  get_skip :
      (k j : K) (l : L) (inner : Map L V) (rest : Map (K × L) V)
      → o.cmp k j ≢ eq
      → get (k, l) (tag j inner ++ rest) ≡ get (k, l) rest
  unfolding get tag
  get_skip k j l [] rest h = refl
  get_skip k j l ((i, w) ∷ inner) rest h = ground (arith, get_skip k j l inner rest h)

  remove-Above : (k : K) (l : L) (m : Map (K × L) V) → Above k m → remove (k, l) m ≡ m
  unfolding remove
  remove-Above k l [] a = refl
  remove-Above k l (((j, i), w) ∷ m) a = ground (arith, remove-Above k l m a.1)

  pub remove-tag :
      (k : K) (l : L) (inner : Map L V) (rest : Map (K × L) V)
      → Above k rest
      → remove (k, l) (tag k inner ++ rest) ≡ tag k (remove l inner) ++ rest
  unfolding remove tag
  remove-tag k l [] rest a = remove-Above k l rest a
  remove-tag k l ((i, w) ∷ inner) rest a = ground (arith, o.cmp_refl k, remove-tag k l inner rest a)

  pub remove_skip :
      (k j : K) (l : L) (inner : Map L V) (rest : Map (K × L) V)
      → o.cmp k j ≢ eq
      → remove (k, l) (tag j inner ++ rest) ≡ tag j inner ++ remove (k, l) rest
  unfolding remove tag
  remove_skip k j l [] rest h = refl
  remove_skip k j l ((i, w) ∷ inner) rest h = ground (arith, remove_skip k j l inner rest h)

  pub get-flatten :
      (k : K) (l : L) (m : Map K (Map L V))
      → IsSorted m
      → get (k, l) (flatten m) ≡ get l (or_empty (get k m))
  unfolding flatten
  get-flatten k l [] s = unfold get in refl
  get-flatten k l ((j, inner) ∷ m) s = elim (Ordering-cases (o.cmp k j)) [
    | inl less ↦
        let differ : o.cmp k j ≢ eq = λ q. ground (arith, less) in
        get_skip k j l inner (flatten m) differ
        ∙ get-flatten k l m s.1
        ∙ ap (λ x. get l (or_empty x)) (sym (get_miss k j inner inner m differ))
    | inr (inl hit) ↦
        let e : k ≡ j = o.eq_of_cmp k j hit in
        let b : Below k m = rw e s.0 in
        rw (get_hit k j inner inner m hit, sym e)
          (get-tag k l inner (flatten m) (flatten-Above k m b))
    | inr (inr more) ↦
        let differ : o.cmp k j ≢ eq = λ q. ground (arith, more) in
        get_skip k j l inner (flatten m) differ
        ∙ get-flatten k l m s.1
        ∙ ap (λ x. get l (or_empty x)) (sym (get_miss k j inner inner m differ))
  ]

  -- An inner map goes back into its place, or out if it has become empty.
  abbrev pub put_back : K → Map L V → Map K (Map L V) → Map K (Map L V)
  put_back k inner m = if is_empty inner then remove k m else insert k inner m
