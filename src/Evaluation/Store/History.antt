-- ===== src/Evaluation/Store/History.antt =====
-- What any sequence of calls keeps of the store of crates/evaluation/src/memory.rs.
use rust_factory.Common.{
  ◌≡◌, ◌≢◌, refl, sym, ap, ℕ, ◌+◌, ◌≤◌, false, Bool-cases, ◌⊎◌, none, Option-cases, List, [], ◌∷◌,
  Bytes, length, Result, ok, err, Result-cases, same, same-eq, arith, nat_ord, list_ord, pair_ord,
  inl, inr, if◌then◌else◌,
}
use rust_factory.TreeMap.{get, insert, IsSorted}
use rust_factory.TreeMap.Laws.{insert-IsSorted}
use rust_factory.TreeMap.Every.{Every, Every-insert}
use rust_factory.TreeMap.Size.{length-insert, count_keys-insert, count_keys_other}
use rust_factory.Evaluation.Model.{
  EvaluationError, EvaluationResultV1, LogicalEvaluationKey, key_ord, CreateOrMatch, created,
  existing, conflict, max_results_per_tenant, max_results_global,
}
use rust_factory.Evaluation.Canonical.{validate_result}
use rust_factory.Evaluation.Store.{
  InMemoryEvaluationStore, with_capacities, tenant_count, is_full, create_or_match, get_result,
  list_results,
}

pub data Call : Type 0 where
  create_call : EvaluationResultV1 → Call
  get_call : Bytes → LogicalEvaluationKey → Call
  list_call : Bytes → Call

get_result_state :
    (t : Bytes) (key : LogicalEvaluationKey) (s : InMemoryEvaluationStore)
    → (get_result t key s).1 ≡ s
unfolding get_result
get_result_state t key s = ground (arith)

list_results_state : (t : Bytes) (s : InMemoryEvaluationStore) → (list_results t s).1 ≡ s
unfolding list_results
list_results_state t s = ground (arith)

module _ (digest : Bytes → Bytes) where
  unfoldable pub step : Call → InMemoryEvaluationStore → InMemoryEvaluationStore
  unfolding create_or_match get_result list_results
  step (create_call result) s = (create_or_match digest result s).1
  step (get_call t key) s = (get_result t key s).1
  step (list_call t) s = (list_results t s).1

  unfoldable pub after : List Call → InMemoryEvaluationStore → InMemoryEvaluationStore
  after [] s = s
  after (call ∷ calls) s = after calls (step call s)

  -- A stored result is valid and lies under its own key.
  abbrev pub IsPlaced : LogicalEvaluationKey → EvaluationResultV1 → Type 0
  IsPlaced key result = (result.logical_key ≡ key) × (validate_result digest result ≡ ok tt)

  abbrev pub IsValid : InMemoryEvaluationStore → Type 0
  IsValid s =
      IsSorted s.state
      × (Every IsPlaced s.state
          × ((length s.state ≤ s.max_global)
              × (((t : Bytes) → tenant_count t s.state ≤ s.max_per_tenant)
                  × ((s.max_per_tenant ≤ max_results_per_tenant)
                      × (s.max_global ≤ max_results_global)))))

  abbrev pub stored : EvaluationResultV1 → InMemoryEvaluationStore → InMemoryEvaluationStore
  stored result s = record s { state = insert result.logical_key result s.state }

  -- Either the store stays as it is, or a valid result is added under a free key with room left.
  pub create_or_match-cases :
      (result : EvaluationResultV1) (s : InMemoryEvaluationStore)
      → ((r : Result EvaluationError CreateOrMatch) × ((create_or_match digest result s ≡ (r, s))
            × ((x : EvaluationResultV1) → r ≢ ok (created x))))
        ⊎ ((validate_result digest result ≡ ok tt)
            × ((get result.logical_key s.state ≡ none)
                × ((is_full result s ≡ false)
                    × (create_or_match digest result s ≡ (ok (created result), stored result s)))))
  unfolding create_or_match
  create_or_match-cases result s = elim (Result-cases (validate_result digest result)) [
    | inr (e, v) ↦ inl (err e, (rw v refl, λ x q. cc q))
    | inl (tt, v) ↦ elim (Bool-cases s.poisoned) [
      | inl p ↦ inl (err EvaluationError.adapter_failure, (rw (v, p) refl, λ x q. cc q))
      | inr p ↦ elim (Option-cases (get result.logical_key s.state)) [
        | inr (held, g) ↦ inl (
          ok (if same held.content_hash result.content_hash then existing held else conflict),
          (rw (v, p, g) refl, λ x q. ground (arith, q)),
        )
        | inl g ↦ elim (Bool-cases (is_full result s)) [
          | inl f ↦ inl (err EvaluationError.limit_exceeded, (rw (v, p, g, f) refl, λ x q. cc q))
          | inr f ↦ inr (v, (g, (f, rw (v, p, g, f) refl)))
        ]
      ]
    ]
  ]

  room_left :
      (result : EvaluationResultV1) (s : InMemoryEvaluationStore)
      → is_full result s ≡ false
      → tenant_count result.logical_key.tenant_id s.state + 1 ≤ s.max_per_tenant
  room_left result s f = ground (arith, f)

  stored-IsValid :
      (result : EvaluationResultV1) (s : InMemoryEvaluationStore)
      → IsValid s
      → validate_result digest result ≡ ok tt
      → is_full result s ≡ false
      → IsValid (stored result s)
  stored-IsValid result s (sorted, (placed, (few, (fair, bounds)))) v f =
      let k = result.logical_key in
      (
        insert-IsSorted k result s.state sorted,
        (
          Every-insert IsPlaced k result s.state (refl, v) placed,
          (ground (arith, f, length-insert k result s.state), (λ t. fair_after t, bounds)),
        ),
      )
    where
      fair_after :
          (t : Bytes) → tenant_count t (insert result.logical_key result s.state) ≤ s.max_per_tenant
      fair_after t = elim (Bool-cases (same result.logical_key.tenant_id t)) [
        | inl own ↦
            let e : result.logical_key.tenant_id ≡ t = same-eq result.logical_key.tenant_id t own in
            rw (sym e) (
              omega (
                arith,
                room_left result s f,
                count_keys-insert (λ key. same key.tenant_id result.logical_key.tenant_id)
                    result.logical_key result s.state,
              ))
        | inr other ↦ omega (
          arith,
          fair t,
          count_keys_other (λ key. same key.tenant_id t) result.logical_key result s.state other,
        )
      ]

  pub step-cases :
      (c : Call) (s : InMemoryEvaluationStore)
      → (step c s ≡ s)
        ⊎ ((result : EvaluationResultV1) × ((validate_result digest result ≡ ok tt)
              × ((get result.logical_key s.state ≡ none)
                  × ((is_full result s ≡ false) × (step c s ≡ stored result s)))))
  unfolding step
  step-cases (create_call result) s = elim (create_or_match-cases result s) [
    | inl (r, (e, _)) ↦ inl (ap (λ z. z.1) e)
    | inr (v, (g, (f, e))) ↦ inr (result, (v, (g, (f, ap (λ z. z.1) e))))
  ]
  step-cases (get_call t key) s = inl (get_result_state t key s)
  step-cases (list_call t) s = inl (list_results_state t s)

  step-IsValid : (c : Call) (s : InMemoryEvaluationStore) → IsValid s → IsValid (step c s)
  step-IsValid c s valid = elim (step-cases c s) [
    | inl e ↦ rw e valid
    | inr (result, (v, (g, (f, e)))) ↦ rw e (stored-IsValid result s valid v f)
  ]

  after-IsValid :
      (calls : List Call) (s : InMemoryEvaluationStore) → IsValid s → IsValid (after calls s)
  unfolding after
  after-IsValid [] s valid = valid
  after-IsValid (c ∷ calls) s valid = after-IsValid calls (step c s) (step-IsValid c s valid)

  empty-IsValid :
      (per_tenant global : ℕ) (s : InMemoryEvaluationStore)
      → with_capacities per_tenant global ≡ ok s
      → IsValid s
  unfolding with_capacities
  empty-IsValid per_tenant global s h =
      let empty : s.state ≡ [] = ground (arith, h) in
      (
        rw empty tt,
        (
          rw empty tt,
          (
            rw empty (omega arith),
            ((λ t. rw empty (omega arith)), (ground (arith, h), ground (arith, h))),
          ),
        ),
      )

  -- After any calls on a store that `with_capacities` made, it holds no more results than its
  -- capacity, nor of any tenant more than the tenant's, both within the crate's ceilings; the
  -- results are in the order of their keys, and each lies under its own key and passes
  -- `validate_result`.
  pub with_capacities-IsValid :
      (per_tenant global : ℕ) (s : InMemoryEvaluationStore) (calls : List Call)
      → with_capacities per_tenant global ≡ ok s
      → IsValid (after calls s)
  with_capacities-IsValid per_tenant global s calls h =
      after-IsValid calls s (empty-IsValid per_tenant global s h)
