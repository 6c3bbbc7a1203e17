-- ===== src/Workflow/Store/History.antt =====
-- What every sequence of calls keeps in the store of crates/workflow/src/memory.rs.
use rust_factory.Common.{
  ℕ, ◌⊎◌, ◌≡◌, ◌≢◌, true, false, Bool-cases, ◌&&◌, ◌==◌, none, some, Option-cases, List, [], ◌∷◌,
  length-append, ok, arith, inl, inr, same-eq, nat_ord, list_ord,
}
use rust_factory.TreeMap.{get, insert}
use rust_factory.TreeMap.Every.{Every, Every-insert, Every-get}
use rust_factory.Workflow.Model.{
  LogicalId, id_ord, Run, RunStatus, StartIdentity, start_key_ord, identity_ord, CreateRun,
  Transition,
}
use rust_factory.Workflow.Transition.{transition_is_valid}
use rust_factory.Workflow.Transition.Edges.{
  IsWellFormed, transition_is_valid-Accepted, edge-Shape, events-Numbered,
}
use rust_factory.Workflow.Store.{
  InMemoryWorkflowStore, empty_store, of_tenant, is_foreign, create_new, create_or_return, apply,
  transition,
}

pub data Call : Type 0 where
  creates : StartIdentity → Run → Call
  moves : LogicalId → LogicalId → ℕ → RunStatus → Transition → Call

unfoldable pub call : Call → InMemoryWorkflowStore → InMemoryWorkflowStore
unfolding create_or_return transition
call (creates identity run) s = (create_or_return identity run s).1
call (moves tenant id revision status change) s = (transition tenant id revision status change s).1

unfoldable pub run_calls : InMemoryWorkflowStore → List Call → InMemoryWorkflowStore
unfolding call
run_calls s [] = s
run_calls s (c ∷ cs) = run_calls (call c s) cs

abbrev pub HoldsWellFormed : LogicalId → Run → Type 0
HoldsWellFormed id run = IsWellFormed run

apply-IsWellFormed :
    (run : Run) (expected : RunStatus) (change : Transition)
    → IsWellFormed run
    → transition_is_valid run expected change ≡ true
    → IsWellFormed (apply change run)
apply-IsWellFormed run expected change w h =
    let a = transition_is_valid-Accepted run expected change h in
    record {
      counted = omega (arith, length-append run.events change.events, a.counted);
      numbered = events-Numbered run expected change w a;
      sized = a.sized;
      bounded = w.bounded;
      shape =
          edge-Shape run.status change.status run.revision run.terminal_reason
            change.terminal_reason run.attempt change.attempt run.events change.events w.shape
            a.edge;
    }

first-IsWellFormed :
    (identity : StartIdentity) (run : Run) → is_foreign identity run ≡ false → IsWellFormed run
unfolding is_foreign
first-IsWellFormed identity run h =
    let fresh : run.status ≡ RunStatus.pending = ground arith in
    let no_events : run.events ≡ [] = ground arith in
    record {
      counted = ground arith;
      numbered = rw no_events tt;
      sized = rw no_events (omega arith);
      bounded = ground arith;
      shape = rw fresh (ground arith, ground arith, ground arith, no_events);
    }

-- What a transition did to the store.
pub transition_cases :
    (tenant id : LogicalId) (revision : ℕ) (status : RunStatus) (change : Transition)
    (s : InMemoryWorkflowStore)
    → ((transition tenant id revision status change s).1 ≡ s)
      ⊎ ((current : Run) × (get id s.state.runs ≡ some current)
          × (transition_is_valid current status change ≡ true)
          × (current.context.tenant_id ≡ tenant)
          × (current.revision ≡ revision)
          × ((transition tenant id revision status change s).1 ≡ record s {
            state = record (s.state) { runs = insert id (apply change current) s.state.runs };
          }))
unfolding transition
transition_cases tenant id revision status change s = elim (Option-cases (get id s.state.runs)) [
  | inl e ↦ inl (ground arith)
  | inr (current, e) ↦ elim (Bool-cases (transition_is_valid current status change)) [
    | inl valid ↦ elim (Bool-cases (of_tenant tenant current && current.revision == revision)) [
      | inl hit ↦ elim (Bool-cases s.poisoned) [
        | inl broken ↦ inl (ground arith)
        | inr healthy ↦ inr (
          current,
          e,
          valid,
          same-eq current.context.tenant_id tenant (ground arith),
          ground arith,
          ground arith,
        )
      ]
      | inr miss ↦ inl (ground arith)
    ]
    | inr invalid ↦ inl (ground arith)
  ]
]

-- What a creation did to the store.
pub create_cases :
    (identity : StartIdentity) (run : Run) (s : InMemoryWorkflowStore)
    → (((create_or_return identity run s).1 ≡ s)
        × ((r : Run) → (create_or_return identity run s).0 ≢ ok (CreateRun.created r)))
      ⊎ ((is_foreign identity run ≡ false)
          × (get identity s.state.identities ≡ none)
          × (get identity.key s.state.keys ≡ none)
          × ((create_or_return identity run s).1 ≡ record s {
            state = record {
              runs = insert run.id run s.state.runs;
              identities = insert identity run.id s.state.identities;
              keys = insert identity.key identity s.state.keys;
            };
          }))
unfolding create_or_return create_new
create_cases identity run s = elim (Option-cases (get identity s.state.identities)) [
  | inr (id, e) ↦ inl (ground arith, λ r q. ground arith)
  | inl e ↦ elim (Option-cases (get identity.key s.state.keys)) [
    | inr (other, k) ↦ inl (ground arith, λ r q. ground arith)
    | inl k ↦ elim (Bool-cases (is_foreign identity run)) [
      | inl foreign ↦ inl (ground arith, λ r q. ground arith)
      | inr own ↦ elim (Bool-cases s.poisoned) [
        | inl broken ↦ inl (ground arith, λ r q. ground arith)
        | inr healthy ↦ inr (own, e, k, ground arith)
      ]
    ]
  ]
]

call-IsWellFormed :
    (c : Call) (s : InMemoryWorkflowStore)
    → Every HoldsWellFormed s.state.runs
    → Every HoldsWellFormed (call c s).state.runs
unfolding call
call-IsWellFormed (creates identity run) s h = elim (create_cases identity run s) [
  | inl (p, refused) ↦ rw p h
  | inr (own, unseen, free, p) ↦
      rw p (
        Every-insert HoldsWellFormed run.id run s.state.runs (first-IsWellFormed identity run own)
          h)
]
call-IsWellFormed (moves tenant id revision status change) s h =
    elim (transition_cases tenant id revision status change s) [
      | inl p ↦ rw p h
      | inr (current, here, valid, t, r, p) ↦ rw p (
          Every-insert HoldsWellFormed id (apply change current) s.state.runs
            (apply-IsWellFormed current status change
              (Every-get HoldsWellFormed id current s.state.runs h here) valid)
            h)
    ]

pub run_calls-Every :
    (calls : List Call) (s : InMemoryWorkflowStore)
    → Every HoldsWellFormed s.state.runs
    → Every HoldsWellFormed (run_calls s calls).state.runs
unfolding run_calls
run_calls-Every [] s h = h
run_calls-Every (c ∷ cs) s h = run_calls-Every cs (call c s) (call-IsWellFormed c s h)

-- After any sequence of creations and transitions on an empty store every run is well-formed: at
-- most 64 events, numbered 1, 2, ... without a gap and each with a kind, of at most
-- `max_evidence_bytes` bytes, itself at most 64 KiB; revision 0 exactly with a pending run without
-- attempt, reason or events, revision 1 with a running attempt, revision 2 with a terminal status
-- whose reason, attempt status, result and error fit it.
pub run_calls-IsWellFormed :
    (calls : List Call) (id : LogicalId) (run : Run)
    → get id (run_calls empty_store calls).state.runs ≡ some run
    → IsWellFormed run
run_calls-IsWellFormed calls id run h =
    Every-get HoldsWellFormed id run (run_calls empty_store calls).state.runs
      (run_calls-Every calls empty_store tt) h
