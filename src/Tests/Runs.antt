-- ===== src/Tests/Runs.antt =====
-- crates/workflow on the life of one run.
use rust_factory.Common.{
  true, ◌≡◌, refl, false, none, some, List, [], ◌∷◌, Bytes, codes, replicate, ok, arith, nat_ord,
  list_ord,
}
use rust_factory.TreeMap.{get}
use rust_factory.Workflow.Model.{
  LogicalId, id_ord, RunStatus, TerminalReason, AttemptStatus, Run, Attempt, StartIdentity,
  CreateRun, existing, Transition, v1,
}
use rust_factory.Workflow.Transition.{transition_is_valid}
use rust_factory.Workflow.Transition.Edges.{IsWellFormed}
use rust_factory.Workflow.Store.{empty_store, create_or_return, transition}
use rust_factory.Workflow.Store.History.{
  Call, creates, moves, run_calls, call, run_calls-IsWellFormed,
}
use rust_factory.Workflow.Store.Finality.{terminal_kept}
use rust_factory.Workflow.Store.Starts.{later, restart-existing, restart-conflict}
use rust_factory.Workflow.Evidence.{
  InvocationEvidence, EvidenceCollector, new_collector, emit_all, finish_success,
}
use rust_factory.Workflow.Evidence.Accepted.{finish_success-is_valid}
use rust_factory.Workflow.Evidence.Bounds.{IsBounded, collected-IsBounded}

abbrev id_of : Bytes → LogicalId
id_of text = record { text = text }

abbrev run_1 : Run
run_1 = record {
  id = id_of (codes "run");
  context = record {
    tenant_id = id_of (codes "tenant");
    principal_id = id_of (codes "principal");
    request_id = id_of (codes "request");
    correlation_id = id_of (codes "correlation");
  };
  workflow_id = id_of (codes "workflow");
  workflow_version = v1;
  run_key = codes "key";
  input_digest = codes "digest";
  max_evidence_bytes = 100;
  status = RunStatus.pending;
  revision = 0;
  terminal_reason = none;
  attempt = none;
  events = [];
}

abbrev identity_1 : StartIdentity
identity_1 = record {
  key = record {
    tenant_id = run_1.context.tenant_id;
    workflow_id = run_1.workflow_id;
    workflow_version = v1;
    run_key = run_1.run_key;
  };
  input_digest = run_1.input_digest;
}

abbrev attempt_1 : Attempt
attempt_1 = record {
  id = id_of (codes "attempt");
  agent_id = codes "agent";
  effective_capability_ceiling = record {
    allowed_tool_ids = [];
    memory_enabled = false;
    knowledge_enabled = false;
    sandbox_execution_allowed = false;
    communication_allowed = false;
  };
  policy_decision_digest = replicate 64 b'0';
  capability_scope_digest = none;
  status = AttemptStatus.running;
  result = none;
  error = none;
}

abbrev start : Transition
start = record {
  status = RunStatus.running;
  terminal_reason = none;
  attempt = some attempt_1;
  events = record { sequence = 1; kind = codes "started"; data_bytes = [] } ∷ [];
}

abbrev fail : Transition
fail = record {
  status = RunStatus.failed;
  terminal_reason = some TerminalReason.invocation_failed;
  attempt = some (record attempt_1 { status = AttemptStatus.failed; error = some (codes "e") });
  events = record { sequence = 2; kind = codes "invocation_failed"; data_bytes = codes "e" } ∷ [];
}

abbrev tenant : LogicalId
tenant = run_1.context.tenant_id

abbrev life : List Call
life =
    creates identity_1 run_1
    ∷ moves tenant run_1.id 0 RunStatus.pending start
    ∷ moves tenant run_1.id 1 RunStatus.running fail
    ∷ []

abbrev failed_run : Run
failed_run = record run_1 {
  status = RunStatus.failed;
  revision = 2;
  terminal_reason = some TerminalReason.invocation_failed;
  attempt = fail.attempt;
  events =
      record { sequence = 1; kind = codes "started"; data_bytes = [] }
      ∷ record { sequence = 2; kind = codes "invocation_failed"; data_bytes = codes "e" }
      ∷ [];
}

life_ends : get run_1.id (run_calls empty_store life).state.runs ≡ some failed_run
unfolding run_calls call create_or_return transition get
life_ends = refl

run_calls-IsWellFormed_example : IsWellFormed failed_run
run_calls-IsWellFormed_example = run_calls-IsWellFormed life run_1.id failed_run life_ends

abbrev too_late : List Call
too_late = moves tenant run_1.id 2 RunStatus.running start ∷ []

terminal_kept_example :
    get run_1.id (run_calls (run_calls empty_store life) too_late).state.runs ≡ some failed_run
terminal_kept_example =
    terminal_kept too_late (run_calls empty_store life) run_1.id failed_run tt refl life_ends

starts :
    (create_or_return identity_1 run_1 (run_calls empty_store [])).0 ≡ ok (CreateRun.created run_1)
unfolding run_calls create_or_return get
starts = refl

restart-existing_example :
    let store = later [] too_late identity_1 run_1 run_1 starts in
    (found : Run) × ((get run_1.id store.state.runs ≡ some found)
      × (create_or_return identity_1 failed_run store ≡ (ok (existing found), store)))
restart-existing_example = restart-existing [] too_late identity_1 run_1 run_1 starts failed_run

abbrev other_input : StartIdentity
other_input = record identity_1 { input_digest = codes "other" }

restart-conflict_example :
    create_or_return other_input run_1 (later [] too_late identity_1 run_1 run_1 starts)
    ≡ (ok CreateRun.conflict, later [] too_late identity_1 run_1 run_1 starts)
restart-conflict_example =
    restart-conflict [] too_late identity_1 run_1 run_1 starts other_input run_1 refl
      (λ p. ground arith)

abbrev output_item : InvocationEvidence
output_item = record { kind = codes "result"; data_bytes = codes "ok" }

abbrev fresh_collector : EvidenceCollector
fresh_collector = record {
  limit = 100;
  existing_events = 1;
  used_bytes = 7;
  events = [];
  output = none;
}

abbrev full_collector : EvidenceCollector
full_collector = record {
  limit = 100;
  existing_events = 1;
  used_bytes = 15;
  events = output_item ∷ [];
  output = some (codes "ok");
}

collected : new_collector 100 start.events ≡ ok fresh_collector
unfolding new_collector
collected = refl

emitted : emit_all fresh_collector (output_item ∷ []) ≡ ok full_collector
unfolding emit_all
emitted = refl

collected-IsBounded_example : IsBounded 100 1 7 full_collector
collected-IsBounded_example =
    collected-IsBounded 100 start.events (output_item ∷ []) fresh_collector full_collector collected
      emitted

abbrev beginning : List Call
beginning = creates identity_1 run_1 ∷ moves tenant run_1.id 0 RunStatus.pending start ∷ []

abbrev running_run : Run
running_run = record run_1 {
  status = RunStatus.running;
  revision = 1;
  attempt = some attempt_1;
  events = start.events;
}

begins : get run_1.id (run_calls empty_store beginning).state.runs ≡ some running_run
unfolding run_calls call create_or_return transition get
begins = refl

abbrev succeed : Transition
succeed = record {
  status = RunStatus.succeeded;
  terminal_reason = some TerminalReason.completed;
  attempt = some (record attempt_1 {
    status = AttemptStatus.succeeded;
    capability_scope_digest = some (codes "scope");
    result = some (codes "ok");
  });
  events = record { sequence = 2; kind = codes "result"; data_bytes = codes "ok" } ∷ [];
}

succeeds : finish_success running_run (codes "scope") full_collector ≡ ok succeed
unfolding finish_success
succeeds = refl

finish_success-is_valid_example : transition_is_valid running_run RunStatus.running succeed ≡ true
finish_success-is_valid_example =
    finish_success-is_valid running_run (output_item ∷ []) fresh_collector full_collector
      (codes "scope") succeed (run_calls-IsWellFormed beginning run_1.id running_run begins) refl
      (omega arith, tt) collected emitted succeeds
