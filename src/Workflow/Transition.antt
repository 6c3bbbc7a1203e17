-- ===== src/Workflow/Transition.antt =====
-- `transition_is_valid` of crates/workflow/src/lib.rs: which changes of a run a store may apply.
pub mod Edges
use rust_factory.Common.{
  ℕ, ◌+◌, ◌%◌, ◌^◌, Bool, true, false, not, ◌&&◌, ◌||◌, Option, none, some, List, [], ◌∷◌, ◌++◌,
  Bytes, length, all, get_last?, Result, ok, err, ok_or, map_err, ◌>>=◌, ◌>>◌, leb, ltb, ◌==◌,
  if◌then◌else◌, checked_add, usize_bits, same, nat_ord, list_ord, is_ascii_digit,
}
use rust_factory.Agent.{
  DefinitionError, EffectiveCapabilityCeilingV1, validate_effective_capability_ceiling,
}
use rust_factory.Workflow.Model.{
  WorkflowError, max_events, id_ord, RunStatus, is_terminal, TerminalReason, AttemptStatus,
  WorkflowEvent, Attempt, Run, Transition,
}

abbrev pub place : RunStatus → ℕ
place RunStatus.pending = 0
place RunStatus.running = 1
place RunStatus.succeeded = 2
place RunStatus.failed = 3
place RunStatus.cancelled = 4

abbrev pub is_running : AttemptStatus → Bool
is_running AttemptStatus.running = true
is_running _ = false

abbrev pub is_some : {A : Type 0} → Option A → Bool
is_some none = false
is_some (some _) = true

abbrev pub same_flag : Bool → Bool → Bool
same_flag true b = b
same_flag false b = not b

abbrev pub same_ceiling : EffectiveCapabilityCeilingV1 → EffectiveCapabilityCeilingV1 → Bool
same_ceiling a b =
    same a.allowed_tool_ids b.allowed_tool_ids
    && same_flag a.memory_enabled b.memory_enabled
    && same_flag a.knowledge_enabled b.knowledge_enabled
    && same_flag a.sandbox_execution_allowed b.sandbox_execution_allowed
    && same_flag a.communication_allowed b.communication_allowed

unfoldable pub same_attempt : Attempt → Attempt → Bool
same_attempt previous next =
    same previous.id next.id
    && same previous.agent_id next.agent_id
    && same_ceiling previous.effective_capability_ceiling next.effective_capability_ceiling
    && same previous.policy_decision_digest next.policy_decision_digest
    && is_running previous.status

-- `try_fold` over the kinds and the data.
unfoldable pub evidence_bytes : ℕ → List WorkflowEvent → Result WorkflowError ℕ
evidence_bytes total [] = ok total
evidence_bytes total (event ∷ events) = do
  with_kind ← ok_or (checked_add usize_bits total (length event.kind)) WorkflowError.limit_exceeded
  with_data ←
      ok_or (checked_add usize_bits with_kind (length event.data_bytes))
        WorkflowError.limit_exceeded
  evidence_bytes with_data events

abbrev is_ascii_hexdigit : ℕ → Bool
is_ascii_hexdigit c = is_ascii_digit c || leb b'a' c && leb c b'f' || leb b'A' c && leb c b'F'

unfoldable pub validate_invocation_policy :
    EffectiveCapabilityCeilingV1 → Bytes → Result WorkflowError (Unit {0})
unfolding validate_effective_capability_ceiling
validate_invocation_policy ceiling decision_digest = do
  map_err (λ _. WorkflowError.invalid_request) (validate_effective_capability_ceiling ceiling)
  if length decision_digest == 64 && all is_ascii_hexdigit decision_digest
      then ok tt
      else err WorkflowError.invalid_request

abbrev pub is_ok : {A : Type 0} → Result WorkflowError A → Bool
is_ok (ok _) = true
is_ok (err _) = false

-- A `u64` increment.
abbrev pub next_sequence : ℕ → ℕ
next_sequence n = (n + 1) % 2 ^ 64

unfoldable pub in_sequence : ℕ → List WorkflowEvent → Bool
in_sequence sequence [] = true
in_sequence sequence (event ∷ events) =
    event.sequence == sequence
    && not (length event.kind == 0)
    && in_sequence (next_sequence sequence) events

abbrev pub first_sequence : List WorkflowEvent → ℕ
first_sequence events = elim (get_last? events) [
  | none ↦ 1
  | some event ↦ next_sequence event.sequence
]

abbrev pub fits_evidence : ℕ → Result WorkflowError ℕ → Bool
fits_evidence limit (ok size) = leb size limit
fits_evidence limit (err _) = false

abbrev pub fits_events : Option ℕ → Bool
fits_events none = false
fits_events (some count) = leb count max_events

-- The closing `match`: the edges of the state machine.
unfoldable pub edge_is_valid :
    RunStatus → RunStatus → Option TerminalReason → Option Attempt → Option Attempt → Bool
unfolding same_attempt validate_invocation_policy
edge_is_valid RunStatus.pending RunStatus.running none none (some next) =
    is_ok (validate_invocation_policy next.effective_capability_ceiling next.policy_decision_digest)
    && is_running next.status
    && not (is_some next.capability_scope_digest)
    && not (is_some next.result)
    && not (is_some next.error)
edge_is_valid RunStatus.running RunStatus.succeeded (some TerminalReason.completed) (some previous)
      (some next) =
    same_attempt previous next
    && (elim next.status [ AttemptStatus.succeeded ↦ true | _ ↦ false ])
    && is_some next.result
    && not (is_some next.error)
edge_is_valid RunStatus.running RunStatus.failed (some TerminalReason.invocation_failed)
      (some previous) (some next) =
    same_attempt previous next
    && (elim next.status [ AttemptStatus.failed ↦ true | _ ↦ false ])
    && not (is_some next.result)
    && is_some next.error
edge_is_valid RunStatus.running RunStatus.cancelled (some TerminalReason.cancelled) (some previous)
      (some next) =
    same_attempt previous next
    && (elim next.status [ AttemptStatus.cancelled ↦ true | _ ↦ false ])
    && not (is_some next.result)
edge_is_valid _ _ _ _ _ = false

unfoldable pub transition_is_valid : Run → RunStatus → Transition → Bool
unfolding evidence_bytes in_sequence edge_is_valid
transition_is_valid run expected_status transition =
    let event_count = checked_add usize_bits (length run.events) (length transition.events) in
    let evidence_size = evidence_bytes 0 (run.events ++ transition.events) in
    if not (place run.status == place expected_status)
      || is_terminal run.status
      || length transition.events == 0
      || not (fits_events event_count)
      || not (fits_evidence run.max_evidence_bytes evidence_size)
    then false
    else if not (in_sequence (first_sequence run.events) transition.events)
    then false
    else edge_is_valid expected_status transition.status transition.terminal_reason run.attempt
        transition.attempt
