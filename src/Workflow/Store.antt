-- ===== src/Workflow/Store.antt =====
-- `InMemoryWorkflowStore` of crates/workflow/src/memory.rs.
pub mod History
pub mod Finality
pub mod Starts
use rust_factory.Common.{
  ℕ, ◌+◌, ◌%◌, ◌^◌, Bool, true, false, not, ◌||◌, Option, none, some, List, [], ◌∷◌, ◌++◌, map,
  length, Result, ok_or, ltb, ◌==◌, if◌then◌else◌, same, keep_if, nat_ord, list_ord,
}
use rust_factory.Common.Exec.{Exec, pure, throw, lift, modify, ◌>>=◌, ◌>>◌}
use rust_factory.TreeMap.{Map, get, insert}
use rust_factory.Workflow.Model.{
  WorkflowError, max_evidence_bytes_limit, LogicalId, id_ord, Run, RunStatus, StartKey,
  StartIdentity, start_key_ord, identity_ord, CreateRun, Transition, TransitionResult, applied,
}
use rust_factory.Workflow.Transition.{place, is_some, transition_is_valid}

pub record State : Type 0 where
  pub runs : Map LogicalId Run
  pub identities : Map StartIdentity LogicalId
  pub keys : Map StartKey StartIdentity

pub record InMemoryWorkflowStore : Type 0 where
  pub state : State
  pub poisoned : Bool

abbrev pub empty_store : InMemoryWorkflowStore
empty_store = record { state = record { runs = []; identities = []; keys = [] }; poisoned = false }

abbrev pub Op : Type 0 → Type 0
Op A = Exec InMemoryWorkflowStore WorkflowError A

abbrev pub lock : Op State
lock store =
    if store.poisoned then throw WorkflowError.adapter_failure store else pure store.state store

abbrev pub write : (State → State) → Op (Unit {0})
write f = modify (λ store. record store { state = f store.state })

-- The run is not the pending first record of the identity.
unfoldable pub is_foreign : StartIdentity → Run → Bool
is_foreign identity run =
    not (same run.context.tenant_id identity.key.tenant_id)
    || not (same run.workflow_id identity.key.workflow_id)
    || not (same run.run_key identity.key.run_key)
    || not (same run.input_digest identity.input_digest)
    || not (place run.status == place RunStatus.pending)
    || not (run.revision == 0)
    || is_some run.terminal_reason
    || is_some run.attempt
    || not (length run.events == 0)
    || run.max_evidence_bytes == 0
    || ltb max_evidence_bytes_limit run.max_evidence_bytes

unfoldable pub create_new : StartIdentity → Run → Op CreateRun
unfolding is_foreign insert
create_new identity run =
    if is_foreign identity run then throw WorkflowError.invalid_request else do
      write (λ s. record s { keys = insert identity.key identity s.keys })
      write (λ s. record s { identities = insert identity run.id s.identities })
      write (λ s. record s { runs = insert run.id run s.runs })
      pure (CreateRun.created run)

-- `WorkflowStore::create_or_return`
unfoldable pub create_or_return : StartIdentity → Run → Op CreateRun
unfolding create_new get
create_or_return identity run = do
  state ← lock
  elim (get identity state.identities) [
    | some id ↦ do
      found ← lift (ok_or (get id state.runs) WorkflowError.adapter_failure)
      pure (CreateRun.existing found)
    | none ↦
        if is_some (get identity.key state.keys)
        then pure CreateRun.conflict
        else create_new identity run
  ]

abbrev pub of_tenant : LogicalId → Run → Bool
of_tenant tenant run = same run.context.tenant_id tenant

abbrev pub visible : LogicalId → Option Run → Option Run
visible tenant none = none
visible tenant (some run) = if of_tenant tenant run then some run else none

-- `WorkflowStore::get` and `WorkflowStore::list`
unfoldable pub get_run : LogicalId → LogicalId → Op (Option Run)
unfolding get
get_run tenant run_id = do state ← lock; pure (visible tenant (get run_id state.runs))

unfoldable pub list_runs : LogicalId → Op (List Run)
list_runs tenant = do
  state ← lock
  pure (keep_if (of_tenant tenant) (map (λ entry. entry.1) state.runs))

-- The four assignments and the `extend` of an applied transition.
abbrev pub apply : Transition → Run → Run
apply transition run = record run {
  status = transition.status;
  terminal_reason = transition.terminal_reason;
  attempt = transition.attempt;
  events = run.events ++ transition.events;
  revision = (run.revision + 1) % 2 ^ 64;
}

-- `WorkflowStore::transition`
unfoldable pub transition : LogicalId → LogicalId → ℕ → RunStatus → Transition → Op TransitionResult
unfolding transition_is_valid get insert
transition tenant run_id revision status change = do
  state ← lock
  elim (get run_id state.runs) [
    | none ↦ pure TransitionResult.not_found
    | some current ↦
        if not (of_tenant tenant current)
        then pure TransitionResult.not_found
        else if not (current.revision == revision)
            || not (transition_is_valid current status change)
        then pure TransitionResult.conflict
        else do
          write (λ s. record s { runs = insert run_id (apply change current) s.runs })
          pure (applied (apply change current))
  ]
