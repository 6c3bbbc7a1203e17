-- ===== src/TreeMap/Nested/Removal.antt =====
-- Removal from a map of maps that drops an emptied inner map.
use rust_factory.Common.{
  ◌≡◌, ◌≢◌, refl, sym, ap, ◌∙◌, some, [], ◌∷◌, ◌++◌, eq, gt, Ord, pair_ord, arith, inl, inr,
}
use rust_factory.TreeMap.{Map, get, insert, remove, Below, IsSorted}
use rust_factory.TreeMap.Laws.{
  Below-trans, get-Below, insert-lt, insert-eq, insert-gt, get_hit, get_miss, remove_hit,
  remove_miss, remove_absent,
}
use rust_factory.TreeMap.Nested.{
  or_empty, tag, flatten, Ordering-cases, flatten-Above, remove-tag, remove_skip, put_back,
}

module _ {ℓ κ μ} {K : Type ℓ} {L : Type κ} {V : Type μ} ⦃o : Ord K⦄ ⦃p : Ord L⦄ where
  put_back_hit :
      (k j : K) (x inner : Map L V) (m : Map K (Map L V))
      → o.cmp k j ≡ eq
      → Below k m
      → flatten (put_back k x ((j, inner) ∷ m)) ≡ tag k x ++ flatten m
  unfolding flatten tag
  put_back_hit k j [] inner m h b = rw (remove_hit k j inner inner m h, remove_absent k m b) refl
  put_back_hit k j ((l, v) ∷ x) inner m h b = rw (insert-eq k j ((l, v) ∷ x) inner m h) refl

  put_back_later :
      (k j : K) (x inner : Map L V) (m : Map K (Map L V))
      → o.cmp k j ≡ gt
      → put_back k x ((j, inner) ∷ m) ≡ (j, inner) ∷ put_back k x m
  put_back_later k j [] inner m h = remove_miss k j inner inner m (λ q. ground (arith, h))
  put_back_later k j ((l, v) ∷ x) inner m h = insert-gt k j ((l, v) ∷ x) inner m h

  pub flatten-put_back :
      (k : K) (l : L) (held : Map L V) (m : Map K (Map L V))
      → IsSorted m
      → get k m ≡ some held
      → flatten (put_back k (remove l held) m) ≡ remove (k, l) (flatten m)
  unfolding flatten
  flatten-put_back k l held [] s h = unfold get in cc h
  flatten-put_back k l held ((j, inner) ∷ m) s h = elim (Ordering-cases (o.cmp k j)) [
    | inl less ↦ absurd (
        ground (
          arith,
          get_miss k j inner inner m (λ q. ground (arith, less)),
          get-Below k m (Below-trans k j m less s.0),
        ))
    | inr (inl hit) ↦
        let e : k ≡ j = o.eq_of_cmp k j hit in
        let b : Below k m = rw e s.0 in
        let same_inner : held ≡ inner = cc (h, get_hit k j inner inner m hit) in
        put_back_hit k j (remove l held) inner m hit b
        ∙ rw (same_inner, sym e) (sym (remove-tag k l inner (flatten m) (flatten-Above k m b)))
    | inr (inr more) ↦
        let differ : o.cmp k j ≢ eq = λ q. ground (arith, more) in
        rw
          (
            put_back_later k j (remove l held) inner m more,
            remove_skip k j l inner (flatten m) differ,
          )
          (ap (◌++◌ (tag j inner))
            (flatten-put_back k l held m s.1 (sym (get_miss k j inner inner m differ) ∙ h)))
  ]

  pub flatten-touch :
      (k : K) (m : Map K (Map L V))
      → IsSorted m
      → flatten (insert k (or_empty (get k m)) m) ≡ flatten m
  unfolding flatten tag
  flatten-touch k [] s = unfold insert get in refl
  flatten-touch k ((j, inner) ∷ m) s = elim (Ordering-cases (o.cmp k j)) [
    | inl less ↦
        rw
          (
            get_miss k j inner inner m (λ q. ground (arith, less)),
            get-Below k m (Below-trans k j m less s.0),
            insert-lt k j [] inner m less,
          )
          refl
    | inr (inl hit) ↦
        rw (get_hit k j inner inner m hit, insert-eq k j inner inner m hit, o.eq_of_cmp k j hit)
          refl
    | inr (inr more) ↦
        rw
          (
            get_miss k j inner inner m (λ q. ground (arith, more)),
            insert-gt k j (or_empty (get k m)) inner m more,
          )
          (ap (◌++◌ (tag j inner)) (flatten-touch k m s.1))
  ]
