-- ===== src/Workflow/Transition/Edges.antt =====
-- The shape of a run in each status, and that an accepted transition of crates/workflow/src/lib.rs
-- keeps it.
use rust_factory.Common.{
  ℕ, ◌+◌, ◌≤◌, ◌≡◌, ◌^◌, ◌%◌, refl, true, Option, none, some, List, [], ◌∷◌, ◌++◌, length,
  get_last?, ok, Result-cases, Option-cases, inl, inr, arith, nat_ord, list_ord, ◌==◌,
}
use rust_factory.Workflow.Model.{
  max_events, max_evidence_bytes_limit, RunStatus, TerminalReason, AttemptStatus, WorkflowEvent,
  Attempt, Run, Transition,
}
use rust_factory.Workflow.Transition.{
  place, is_some, fits_evidence, evidence_bytes, in_sequence, first_sequence, edge_is_valid,
  transition_is_valid,
}

-- The events carry the numbers from `n` on, and each has a kind.
abbrev pub Numbered : ℕ → List WorkflowEvent → Type 0
Numbered n [] = Unit
Numbered n (event ∷ events) =
    (event.sequence ≡ n) × (1 ≤ length event.kind) × Numbered (n + 1) events

abbrev pub events_size : List WorkflowEvent → ℕ
events_size [] = 0
events_size (event ∷ events) = length event.kind + length event.data_bytes + events_size events

abbrev pub Shape :
    RunStatus → ℕ → Option TerminalReason → Option Attempt → List WorkflowEvent → Type 0
Shape RunStatus.pending revision reason attempt events =
    (revision ≡ 0) × (reason ≡ none) × (attempt ≡ none) × (events ≡ [])
Shape RunStatus.running revision reason attempt events =
    (revision ≡ 1)
    × (reason ≡ none)
    × (a : Attempt) × (attempt ≡ some a)
    × (a.status ≡ AttemptStatus.running)
    × (a.result ≡ none)
    × (a.error ≡ none)
Shape RunStatus.succeeded revision reason attempt events =
    (revision ≡ 2)
    × (reason ≡ some TerminalReason.completed)
    × (a : Attempt) × (attempt ≡ some a)
    × (a.status ≡ AttemptStatus.succeeded)
    × (is_some a.result ≡ true)
    × (a.error ≡ none)
Shape RunStatus.failed revision reason attempt events =
    (revision ≡ 2)
    × (reason ≡ some TerminalReason.invocation_failed)
    × (a : Attempt) × (attempt ≡ some a)
    × (a.status ≡ AttemptStatus.failed)
    × (a.result ≡ none)
    × (is_some a.error ≡ true)
Shape RunStatus.cancelled revision reason attempt events =
    (revision ≡ 2)
    × (reason ≡ some TerminalReason.cancelled)
    × (a : Attempt) × (attempt ≡ some a)
    × (a.status ≡ AttemptStatus.cancelled)
    × (a.result ≡ none)

pub record IsWellFormed (run : Run) : Type 0 where
  pub counted : length run.events ≤ max_events
  pub numbered : Numbered 1 run.events
  pub sized : events_size run.events ≤ run.max_evidence_bytes
  pub bounded : run.max_evidence_bytes ≤ max_evidence_bytes_limit
  pub shape : Shape run.status run.revision run.terminal_reason run.attempt run.events

pub in_sequence-Numbered :
    (events : List WorkflowEvent) (n : ℕ)
    → n + length events ≤ 2 ^ 32
    → in_sequence n events ≡ true
    → Numbered n events
unfolding in_sequence
in_sequence-Numbered [] n fits h = tt
in_sequence-Numbered (e ∷ es) n fits h =
    (ground arith, ground arith, in_sequence-Numbered es (n + 1) (omega arith) (ground arith))

pub Numbered-append :
    (xs ys : List WorkflowEvent) (n k : ℕ)
    → k ≡ n + length xs
    → Numbered n xs
    → Numbered k ys
    → Numbered n (xs ++ ys)
Numbered-append [] ys n k e h g = let same_start : n ≡ k = omega (arith, e) in rw same_start g
Numbered-append (x ∷ xs) ys n k e (a, b, h) g =
    (a, b, Numbered-append xs ys (n + 1) k (omega (arith, e)) h g)

last_Numbered :
    (xs : List WorkflowEvent) (n : ℕ) (e : WorkflowEvent)
    → Numbered n xs
    → get_last? xs ≡ some e
    → e.sequence + 1 ≡ n + length xs
last_Numbered [] n e h k = cc
last_Numbered (x ∷ []) n e h k = ground arith
last_Numbered (x ∷ y ∷ xs) n e (a, b, h) k = omega (arith, last_Numbered (y ∷ xs) (n + 1) e h k)

pub evidence_bytes-ok :
    (xs : List WorkflowEvent) (n m : ℕ) → evidence_bytes n xs ≡ ok m → m ≡ n + events_size xs
unfolding evidence_bytes
evidence_bytes-ok [] n m h = ground arith
evidence_bytes-ok (x ∷ xs) n m h =
    ground (arith, evidence_bytes-ok xs (n + length x.kind + length x.data_bytes) m)

place-injective : (a b : RunStatus) → (place a == place b) ≡ true → a ≡ b
place-injective a b h = ground arith

fits_size :
    (events : List WorkflowEvent) (limit : ℕ)
    → fits_evidence limit (evidence_bytes 0 events) ≡ true
    → events_size events ≤ limit
fits_size events limit h = elim (Result-cases (evidence_bytes 0 events)) [
  | inl (m, e) ↦ ground (arith, evidence_bytes-ok events 0 m e)
  | inr (x, e) ↦ absurd (ground arith)
]

pub record Accepted (run : Run) (expected : RunStatus) (change : Transition) : Type 0 where
  pub status : run.status ≡ expected
  pub some_event : 1 ≤ length change.events
  pub counted : length run.events + length change.events ≤ max_events
  pub sized : events_size (run.events ++ change.events) ≤ run.max_evidence_bytes
  pub numbered : in_sequence (first_sequence run.events) change.events ≡ true
  pub edge :
      edge_is_valid run.status change.status change.terminal_reason run.attempt change.attempt
      ≡ true

pub transition_is_valid-Accepted :
    (run : Run) (expected : RunStatus) (change : Transition)
    → transition_is_valid run expected change ≡ true
    → Accepted run expected change
unfolding transition_is_valid
transition_is_valid-Accepted run expected change h =
    let e : run.status ≡ expected = place-injective run.status expected (ground arith) in
    record {
      status = e;
      some_event = ground arith;
      counted = ground arith;
      sized = fits_size (run.events ++ change.events) run.max_evidence_bytes (ground arith);
      numbered = ground arith;
      edge = rw e (ground arith);
    }

start-Shape :
    (revision : ℕ) (r r' : Option TerminalReason) (a a' : Option Attempt)
    (events more : List WorkflowEvent)
    → Shape RunStatus.pending revision r a events
    → edge_is_valid RunStatus.pending RunStatus.running r' a a' ≡ true
    → Shape RunStatus.running ((revision + 1) % 2 ^ 64) r' a' (events ++ more)
unfolding edge_is_valid
start-Shape revision r r' a a' events more s h = ground arith

success-Shape :
    (revision : ℕ) (r r' : Option TerminalReason) (a a' : Option Attempt)
    (events more : List WorkflowEvent)
    → Shape RunStatus.running revision r a events
    → edge_is_valid RunStatus.running RunStatus.succeeded r' a a' ≡ true
    → Shape RunStatus.succeeded ((revision + 1) % 2 ^ 64) r' a' (events ++ more)
unfolding edge_is_valid
success-Shape revision r r' a a' events more s h = ground arith

failure-Shape :
    (revision : ℕ) (r r' : Option TerminalReason) (a a' : Option Attempt)
    (events more : List WorkflowEvent)
    → Shape RunStatus.running revision r a events
    → edge_is_valid RunStatus.running RunStatus.failed r' a a' ≡ true
    → Shape RunStatus.failed ((revision + 1) % 2 ^ 64) r' a' (events ++ more)
unfolding edge_is_valid
failure-Shape revision r r' a a' events more s h = ground arith

cancel-Shape :
    (revision : ℕ) (r r' : Option TerminalReason) (a a' : Option Attempt)
    (events more : List WorkflowEvent)
    → Shape RunStatus.running revision r a events
    → edge_is_valid RunStatus.running RunStatus.cancelled r' a a' ≡ true
    → Shape RunStatus.cancelled ((revision + 1) % 2 ^ 64) r' a' (events ++ more)
unfolding edge_is_valid
cancel-Shape revision r r' a a' events more s h = ground arith

pub edge-Shape :
    (from to : RunStatus) (revision : ℕ) (r r' : Option TerminalReason) (a a' : Option Attempt)
    (events more : List WorkflowEvent)
    → Shape from revision r a events
    → edge_is_valid from to r' a a' ≡ true
    → Shape to ((revision + 1) % 2 ^ 64) r' a' (events ++ more)
unfolding edge_is_valid
edge-Shape RunStatus.pending RunStatus.running revision r r' a a' events more s h =
    start-Shape revision r r' a a' events more s h
edge-Shape RunStatus.running RunStatus.succeeded revision r r' a a' events more s h =
    success-Shape revision r r' a a' events more s h
edge-Shape RunStatus.running RunStatus.failed revision r r' a a' events more s h =
    failure-Shape revision r r' a a' events more s h
edge-Shape RunStatus.running RunStatus.cancelled revision r r' a a' events more s h =
    cancel-Shape revision r r' a a' events more s h
edge-Shape RunStatus.pending RunStatus.pending revision r r' a a' events more s h = cc
edge-Shape RunStatus.pending RunStatus.succeeded revision r r' a a' events more s h = cc
edge-Shape RunStatus.pending RunStatus.failed revision r r' a a' events more s h = cc
edge-Shape RunStatus.pending RunStatus.cancelled revision r r' a a' events more s h = cc
edge-Shape RunStatus.running RunStatus.pending revision r r' a a' events more s h = cc
edge-Shape RunStatus.running RunStatus.running revision r r' a a' events more s h = cc
edge-Shape RunStatus.succeeded to revision r r' a a' events more s h = cc
edge-Shape RunStatus.failed to revision r r' a a' events more s h = cc
edge-Shape RunStatus.cancelled to revision r r' a a' events more s h = cc

pub first_sequence_next :
    (events : List WorkflowEvent)
    → Numbered 1 events
    → length events ≤ max_events
    → first_sequence events ≡ 1 + length events
first_sequence_next [] h fits = refl
first_sequence_next (e ∷ es) h fits = elim (Option-cases (get_last? (e ∷ es))) [
  | inl none_last ↦ absurd (last_some e es none_last)
  | inr (x, p) ↦ ground (arith, last_Numbered (e ∷ es) 1 x h p)
]
  where
    last_some : (e : WorkflowEvent) (es : List WorkflowEvent) → ¬ (get_last? (e ∷ es) ≡ none)
    last_some e [] q = cc
    last_some e (f ∷ es) q = last_some f es q

-- The events after an accepted change are numbered without a gap.
pub events-Numbered :
    (run : Run) (expected : RunStatus) (change : Transition)
    → IsWellFormed run
    → Accepted run expected change
    → Numbered 1 (run.events ++ change.events)
events-Numbered run expected change w a =
    Numbered-append run.events change.events 1 (first_sequence run.events)
      (first_sequence_next run.events w.numbered w.counted) w.numbered
      (in_sequence-Numbered change.events (first_sequence run.events)
        (omega (arith, first_sequence_next run.events w.numbered w.counted, a.counted)) a.numbered)
