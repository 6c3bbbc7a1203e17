-- ===== src/Evaluation/Store/Settled.antt =====
-- A result that was created stays, and later calls under its key are answered by it.
use rust_factory.Common.{
  ◌≡◌, refl, sym, ap, ◌∙◌, false, none, some, List, [], ◌∷◌, Bytes, ok, same, nat_ord, list_ord,
  pair_ord, inl, inr, if◌then◌else◌,
}
use rust_factory.TreeMap.{Map, get, insert}
use rust_factory.TreeMap.Laws.{get-insert_same, get-insert_absent}
use rust_factory.Evaluation.Model.{
  EvaluationResultV1, LogicalEvaluationKey, key_ord, created, existing, conflict,
}
use rust_factory.Evaluation.Canonical.{validate_result}
use rust_factory.Evaluation.Store.{InMemoryEvaluationStore, create_or_match}
use rust_factory.Evaluation.Store.History.{Call, step, after, step-cases, create_or_match-cases}

module _ (digest : Bytes → Bytes) where
  absent-differ :
      (k j : LogicalEvaluationKey) (m : Map LogicalEvaluationKey EvaluationResultV1)
      (x : EvaluationResultV1)
      → get k m ≡ none
      → get j m ≡ some x
      → (r : EvaluationResultV1) → get j (insert k r m) ≡ some x
  absent-differ k j m x g h r = get-insert_absent k j r x m g h

  step_kept :
      (c : Call) (s : InMemoryEvaluationStore) (key : LogicalEvaluationKey) (x : EvaluationResultV1)
      → get key s.state ≡ some x
      → get key (step digest c s).state ≡ some x
  step_kept c s key x h = elim (step-cases digest c s) [
    | inl e ↦ rw e h
    | inr (result, (v, (g, (f, e)))) ↦
        rw e (absent-differ result.logical_key key s.state x g h result)
  ]

  after_kept :
      (calls : List Call) (s : InMemoryEvaluationStore) (key : LogicalEvaluationKey)
      (x : EvaluationResultV1)
      → get key s.state ≡ some x
      → get key (after digest calls s).state ≡ some x
  unfolding after
  after_kept [] s key x h = h
  after_kept (c ∷ calls) s key x h =
      after_kept calls (step digest c s) key x (step_kept c s key x h)

  step_lock :
      (c : Call) (s : InMemoryEvaluationStore)
      → s.poisoned ≡ false
      → (step digest c s).poisoned ≡ false
  step_lock c s h = elim (step-cases digest c s) [
    | inl e ↦ rw e h
    | inr (result, (v, (g, (f, e)))) ↦ rw e h
  ]

  after_lock :
      (calls : List Call) (s : InMemoryEvaluationStore)
      → s.poisoned ≡ false
      → (after digest calls s).poisoned ≡ false
  unfolding after
  after_lock [] s h = h
  after_lock (c ∷ calls) s h = after_lock calls (step digest c s) (step_lock c s h)

  matched :
      (result x : EvaluationResultV1) (s : InMemoryEvaluationStore)
      → s.poisoned ≡ false
      → validate_result digest result ≡ ok tt
      → get result.logical_key s.state ≡ some x
      → create_or_match digest result s
        ≡ (ok (if same x.content_hash result.content_hash then existing x else conflict), s)
  unfolding create_or_match
  matched result x s p v g = rw (v, p, g) refl

  -- Once a store with a healthy lock has answered `created` for a result, then after any further
  -- calls a valid result under the same key is answered `existing`, with the first, if its content
  -- hash is the same, and `conflict` otherwise; either way the store stays as it is.
  pub created-settled :
      (first second : EvaluationResultV1) (s : InMemoryEvaluationStore) (calls : List Call)
      → s.poisoned ≡ false
      → (create_or_match digest first s).0 ≡ ok (created first)
      → second.logical_key ≡ first.logical_key
      → validate_result digest second ≡ ok tt
      → let later = after digest calls (create_or_match digest first s).1 in
        create_or_match digest second later ≡ (
          ok (if same first.content_hash second.content_hash then existing first else conflict),
          later,
        )
  created-settled first second s calls p h k v = elim (create_or_match-cases digest first s) [
    | inl (r, (e, never)) ↦ absurd (never first (ap (λ z. z.0) (sym e) ∙ h))
    | inr (_, (g, (f, e))) ↦
        let held : get first.logical_key (create_or_match digest first s).1.state ≡ some first =
          rw e (get-insert_same first.logical_key first s.state) in
        let open_lock : (create_or_match digest first s).1.poisoned ≡ false = rw e p in
        matched second first (after digest calls (create_or_match digest first s).1)
          (after_lock calls (create_or_match digest first s).1 open_lock) v
          (rw k (after_kept calls (create_or_match digest first s).1 first.logical_key first held))
  ]
