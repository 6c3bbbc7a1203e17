-- ===== src/Evaluation/Store.antt =====
-- `InMemoryEvaluationStore` of crates/evaluation/src/memory.rs; a poisoned mutex is a flag.
pub mod History
pub mod Settled
use rust_factory.Common.{
  ℕ, Bool, true, false, not, ◌&&◌, ◌||◌, Option, none, some, List, [], ◌∷◌, Bytes, length, map,
  keep_if, Result, ok, err, refuse, ◌==◌, leb, ltb, same, if◌then◌else◌, nat_ord, list_ord,
  pair_ord,
}
use rust_factory.Common.Exec.{Exec, pure, throw, lift, modify, ◌>>=◌, ◌>>◌}
use rust_factory.TreeMap.{Map, get, insert}
use rust_factory.Evaluation.Model.{
  EvaluationError, EvaluationResultV1, LogicalEvaluationKey, key_ord, CreateOrMatch, created,
  existing, conflict, max_results_per_tenant, max_results_global,
}
use rust_factory.Evaluation.Canonical.{validate_result}

pub record InMemoryEvaluationStore : Type 0 where
  pub state : Map LogicalEvaluationKey EvaluationResultV1
  pub max_per_tenant : ℕ
  pub max_global : ℕ
  pub poisoned : Bool

abbrev pub new : InMemoryEvaluationStore
new = record {
  state = [];
  max_per_tenant = max_results_per_tenant;
  max_global = max_results_global;
  poisoned = false;
}

unfoldable pub with_capacities : ℕ → ℕ → Result EvaluationError InMemoryEvaluationStore
with_capacities per_tenant global =
    if per_tenant == 0
      || global == 0
      || ltb max_results_per_tenant per_tenant
      || ltb max_results_global global
      || ltb global per_tenant
    then err EvaluationError.limit_exceeded
    else ok
        (record { state = []; max_per_tenant = per_tenant; max_global = global; poisoned = false })

abbrev pub Op : Type 0 → Type 0
Op A = Exec InMemoryEvaluationStore EvaluationError A

abbrev pub lock : Op InMemoryEvaluationStore
lock store =
    if store.poisoned then throw EvaluationError.adapter_failure store else pure store store

-- The results of one tenant, by their keys.
abbrev pub tenant_count : Bytes → Map LogicalEvaluationKey EvaluationResultV1 → ℕ
tenant_count tenant_id state = length (keep_if (λ entry. same entry.0.tenant_id tenant_id) state)

abbrev pub is_full : EvaluationResultV1 → InMemoryEvaluationStore → Bool
is_full result store =
    leb store.max_global (length store.state)
    || leb store.max_per_tenant (tenant_count result.logical_key.tenant_id store.state)

abbrev pub match_or_create :
    EvaluationResultV1 → InMemoryEvaluationStore → Option EvaluationResultV1 → Op CreateOrMatch
match_or_create result store none = do
  lift (refuse (is_full result store) EvaluationError.limit_exceeded)
  modify (λ s. record s { state = insert result.logical_key result s.state })
  pure (created result)
match_or_create result store (some held) =
    pure (if same held.content_hash result.content_hash then existing held else conflict)

-- `digest` is the SHA-256 of the `sha2` crate.
module _ (digest : Bytes → Bytes) where
  unfoldable pub create_or_match : EvaluationResultV1 → Op CreateOrMatch
  unfolding validate_result get insert
  create_or_match result = do
    lift (validate_result digest result)
    store ← lock
    match_or_create result store (get result.logical_key store.state)

unfoldable pub get_result : Bytes → LogicalEvaluationKey → Op (Option EvaluationResultV1)
unfolding get
get_result tenant_id key = elim (same key.tenant_id tenant_id) [
  | true ↦ do store ← lock; pure (get key store.state)
  | false ↦ pure none
]

unfoldable pub list_results : Bytes → Op (List EvaluationResultV1)
list_results tenant_id = do
  store ← lock
  pure (
      keep_if (λ result. same result.logical_key.tenant_id tenant_id)
        (map (λ entry. entry.1) store.state))
