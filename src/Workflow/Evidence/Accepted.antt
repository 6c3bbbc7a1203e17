-- ===== src/Workflow/Evidence/Accepted.antt =====
-- `finish_success` of crates/workflow/src/lib.rs makes a transition that the store accepts.
use rust_factory.Common.{
  ℕ, suc, ◌+◌, ◌≤◌, ◌<◌, ◌≡◌, ◌^◌, refl, true, false, Bool, All, Bytes, Option, none, some, List,
  [], ◌∷◌, ◌++◌, length, ok, ok_or, arith, >>=-ok, nat_ord, list_ord, same_refl,
}
use rust_factory.Workflow.Model.{
  id_ord, WorkflowError, max_events, RunStatus, AttemptStatus, TerminalReason, WorkflowEvent,
  Attempt, Run, Transition,
}
use rust_factory.Workflow.Transition.{
  same_flag, same_attempt, evidence_bytes, in_sequence, first_sequence, edge_is_valid,
  transition_is_valid,
}
use rust_factory.Workflow.Transition.Edges.{Shape, IsWellFormed, events_size, first_sequence_next}
use rust_factory.Workflow.Evidence.{
  InvocationEvidence, EvidenceCollector, new_collector, emit, emit_all, number_events,
  finish_success,
}
use rust_factory.Workflow.Evidence.Bounds.{item_size, collected-IsBounded}

abbrev pub HasKind : InvocationEvidence → Type 0
HasKind item = 1 ≤ length item.kind

length-number_events :
    (items : List InvocationEvidence) (h i : ℕ) → length (number_events h i items) ≡ length items
unfolding number_events
length-number_events [] h i = refl
length-number_events (x ∷ xs) h i = omega (arith, length-number_events xs h (suc i))

events_size-number_events :
    (items : List InvocationEvidence) (h i : ℕ)
    → events_size (number_events h i items) ≡ item_size items
unfolding number_events
events_size-number_events [] h i = refl
events_size-number_events (x ∷ xs) h i = omega (arith, events_size-number_events xs h (suc i))

in_sequence-number_events :
    (items : List InvocationEvidence) (h i n : ℕ)
    → n ≡ h + i + 1
    → h + i + length items < 2 ^ 32
    → All HasKind items
    → in_sequence n (number_events h i items) ≡ true
unfolding number_events in_sequence
in_sequence-number_events [] h i n e fits k = refl
in_sequence-number_events (x ∷ xs) h i n e fits k = ground (
  arith,
  e,
  fits,
  k.0,
  in_sequence-number_events xs h (suc i) (n + 1) (omega (arith, e)) (omega (arith, fits)) k.1,
)

events_size-append :
    (xs ys : List WorkflowEvent) → events_size (xs ++ ys) ≡ events_size xs + events_size ys
events_size-append [] ys = omega arith
events_size-append (x ∷ xs) ys = omega (arith, events_size-append xs ys)

evidence_bytes_total :
    (xs : List WorkflowEvent) (n : ℕ)
    → n + events_size xs < 2 ^ 64
    → evidence_bytes n xs ≡ ok (n + events_size xs)
unfolding evidence_bytes
evidence_bytes_total [] n h = ground arith
evidence_bytes_total (x ∷ xs) n h =
    ground
      (arith, evidence_bytes_total xs (n + length x.kind + length x.data_bytes) (omega (arith, h)))

All-append :
    (xs ys : List InvocationEvidence) → All HasKind xs → All HasKind ys → All HasKind (xs ++ ys)
All-append [] ys h k = k
All-append (x ∷ xs) ys h k = (h.0, All-append xs ys h.1 k)

emit-events :
    (c out : EvidenceCollector) (item : InvocationEvidence)
    → emit c item ≡ ok out
    → out.events ≡ c.events ++ item ∷ []
unfolding emit
emit-events c out item h = ground arith

emit_all-All :
    (items : List InvocationEvidence) (c out : EvidenceCollector)
    → All HasKind c.events
    → All HasKind items
    → emit_all c items ≡ ok out
    → All HasKind out.events
unfolding emit_all
emit_all-All [] c out k ks h = let same_end : c ≡ out = cc h in rw (← same_end) k
emit_all-All (item ∷ items) c out k ks h =
    let (mid, rest, first) = >>=-ok (emit c item) (λ next. emit_all next items) h in
    emit_all-All items mid out
      (rw (emit-events c mid item first) (All-append c.events (item ∷ []) k (ks.0, tt))) ks.1 rest

same_flag_refl : (b : Bool) → same_flag b b ≡ true
same_flag_refl true = refl
same_flag_refl false = refl

-- What a running run holds.
status-Shape :
    (run : Run)
    → IsWellFormed run
    → run.status ≡ RunStatus.running
    → Shape RunStatus.running run.revision run.terminal_reason run.attempt run.events
status-Shape run w live = at_running run.events run.status w.shape live
  where
    at_running :
        {v : ℕ} {r : Option TerminalReason} {a : Option Attempt} (es : List WorkflowEvent)
        (status : RunStatus)
        → Shape status v r a es
        → status ≡ RunStatus.running
        → Shape RunStatus.running v r a es
    at_running es RunStatus.running shape p = shape
    at_running es RunStatus.pending shape p = absurd (ground arith)
    at_running es RunStatus.succeeded shape p = absurd (ground arith)
    at_running es RunStatus.failed shape p = absurd (ground arith)
    at_running es RunStatus.cancelled shape p = absurd (ground arith)

edge_succeeds :
    (a : Attempt) (digest output : Bytes)
    → a.status ≡ AttemptStatus.running
    → a.error ≡ none
    → edge_is_valid RunStatus.running RunStatus.succeeded (some TerminalReason.completed) (some a) (
        some (record a {
          status = AttemptStatus.succeeded;
          capability_scope_digest = some digest;
          result = some output;
        }))
      ≡ true
unfolding edge_is_valid same_attempt
edge_succeeds a digest output s e =
    let ceiling = a.effective_capability_ceiling in
    ground (
      arith,
      same_refl a.id,
      same_refl a.agent_id,
      same_refl ceiling.allowed_tool_ids,
      same_refl a.policy_decision_digest,
      same_flag_refl ceiling.memory_enabled,
      same_flag_refl ceiling.knowledge_enabled,
      same_flag_refl ceiling.sandbox_execution_allowed,
      same_flag_refl ceiling.communication_allowed,
    )

abbrev success_of : Run → Attempt → Bytes → Bytes → List InvocationEvidence → Transition
success_of run a digest output items = record {
  status = RunStatus.succeeded;
  terminal_reason = some TerminalReason.completed;
  attempt = some (record a {
    status = AttemptStatus.succeeded;
    capability_scope_digest = some digest;
    result = some output;
  });
  events = number_events (length run.events) 0 items;
}

-- A transition to success whose events fit is valid.
success_is_valid :
    (run : Run) (a : Attempt) (digest output : Bytes) (items : List InvocationEvidence)
    → IsWellFormed run
    → run.status ≡ RunStatus.running
    → run.attempt ≡ some a
    → a.status ≡ AttemptStatus.running
    → a.error ≡ none
    → 1 ≤ length items
    → length run.events + length items ≤ max_events
    → events_size run.events + item_size items ≤ run.max_evidence_bytes
    → All HasKind items
    → transition_is_valid run RunStatus.running (success_of run a digest output items) ≡ true
unfolding transition_is_valid
success_is_valid run a digest output items w live held s e some_item counted sized kinds =
    let events = number_events (length run.events) 0 items in
    ground (
      arith,
      w.bounded,
      length-number_events items (length run.events) 0,
      events_size-append run.events events,
      events_size-number_events items (length run.events) 0,
      evidence_bytes_total (run.events ++ events) 0,
      in_sequence-number_events items (length run.events) 0 (first_sequence run.events)
          (omega (arith, first_sequence_next run.events w.numbered w.counted))
          (omega (arith, counted)) kinds,
      edge_succeeds a digest output s e,
    )

-- A new collector is empty.
no_kinds :
    (limit : ℕ) (existing : List WorkflowEvent) (c : EvidenceCollector)
    → new_collector limit existing ≡ ok c
    → All HasKind c.events
unfolding new_collector
no_kinds limit existing c made =
    let (n, rest, got) = >>=-ok (evidence_bytes 0 existing) _ made in
    let none_yet : c.events ≡ [] = ground (arith, rest) in rw none_yet tt

-- For a well-formed running run, a collector made over its events and its limit, and items each
-- with a kind that `emit` accepts one after another: if `finish_success` answers a transition,
-- then `transition_is_valid` accepts it, so that the store applies it to this run.
pub finish_success-is_valid :
    (run : Run) (items : List InvocationEvidence) (c out : EvidenceCollector) (digest : Bytes)
    (change : Transition)
    → IsWellFormed run
    → run.status ≡ RunStatus.running
    → All HasKind items
    → new_collector run.max_evidence_bytes run.events ≡ ok c
    → emit_all c items ≡ ok out
    → finish_success run digest out ≡ ok change
    → transition_is_valid run RunStatus.running change ≡ true
unfolding finish_success
finish_success-is_valid run items c out digest change w live kinds made h finished =
    let b = collected-IsBounded run.max_evidence_bytes run.events items c out made h in
    let (v, r, a, held, s, none_yet, e) = status-Shape run w live in
    let (output, rest, produced) =
      >>=-ok (ok_or out.output WorkflowError.invalid_request) _ finished in
    let (a', end, got) = >>=-ok (ok_or run.attempt WorkflowError.conflict) _ rest in
    let same_change : success_of run a' digest output out.events ≡ change = cc end in
    rw (← same_change) (
      success_is_valid run a' digest output out.events w live (ground (arith, got))
        (ground (arith, got, held, s)) (ground (arith, got, held, e))
        (b.nonempty (ground (arith, produced))) b.counted (omega (arith, b.used, b.fits))
        (emit_all-All items c out (no_kinds run.max_evidence_bytes run.events c made) kinds h))
