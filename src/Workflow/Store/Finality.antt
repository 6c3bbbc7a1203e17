-- ===== src/Workflow/Store/Finality.antt =====
-- What the store of crates/workflow/src/memory.rs never takes back: a terminal run, and a started
-- run key.
use rust_factory.Common.{
  ℕ, ◌≡◌, ◌≢◌, ap, ◌∙◌, true, false, Bool-cases, some, List, [], ◌∷◌, arith, inl, inr, same,
  same-eq, nat_ord, list_ord, pair_ord,
}
use rust_factory.TreeMap.{get}
use rust_factory.TreeMap.Laws.{get-insert}
use rust_factory.Workflow.Model.{
  LogicalId, id_ord, Run, RunStatus, is_terminal, StartIdentity, start_key_ord, identity_ord,
  Transition,
}
use rust_factory.Workflow.Transition.{transition_is_valid}
use rust_factory.Workflow.Store.{InMemoryWorkflowStore, create_or_return, apply, transition}
use rust_factory.Workflow.Store.History.{
  Call, creates, moves, call, run_calls, transition_cases, create_cases,
}

-- No call creates a run under `id`.
abbrev pub Avoids : LogicalId → List Call → Type 0
Avoids id [] = Unit
Avoids id (creates identity run ∷ calls) = (run.id ≢ id) × Avoids id calls
Avoids id (moves _ _ _ _ _ ∷ calls) = Avoids id calls

valid_not_terminal :
    (run : Run) (status : RunStatus) (change : Transition)
    → transition_is_valid run status change ≡ true
    → is_terminal run.status ≡ false
unfolding transition_is_valid
valid_not_terminal run status change h = ground arith

create_other :
    (identity : StartIdentity) (run : Run) (s : InMemoryWorkflowStore) (id : LogicalId) (r : Run)
    → run.id ≢ id
    → get id s.state.runs ≡ some r
    → get id (create_or_return identity run s).1.state.runs ≡ some r
create_other identity run s id r other h = elim (create_cases identity run s) [
  | inl (p, refused) ↦ rw p h
  | inr (own, unseen, free, p) ↦
      rw p (get-insert run.id id run s.state.runs ∙ ground (arith, same-eq run.id id))
]

move_terminal :
    (tenant i : LogicalId) (revision : ℕ) (status : RunStatus) (change : Transition)
    (s : InMemoryWorkflowStore) (id : LogicalId) (r : Run)
    → is_terminal r.status ≡ true
    → get id s.state.runs ≡ some r
    → get id (transition tenant i revision status change s).1.state.runs ≡ some r
move_terminal tenant i revision status change s id r final h =
    elim (transition_cases tenant i revision status change s) [
      | inl p ↦ rw p h
      | inr (current, here, valid, t, v, p) ↦ rw p (
          get-insert i id (apply change current) s.state.runs ∙ elim (Bool-cases (same i id)) [
            | inl hit ↦ absurd (
                ground (
                  arith,
                  ap (λ k. get k s.state.runs) (same-eq i id hit),
                  valid_not_terminal current status change valid,
                ))
            | inr miss ↦ rw miss h
          ])
    ]

-- A terminal run in a store stays exactly as it is through any further calls none of which creates
-- another run under its identifier.
pub terminal_kept :
    (calls : List Call) (s : InMemoryWorkflowStore) (id : LogicalId) (r : Run)
    → Avoids id calls
    → is_terminal r.status ≡ true
    → get id s.state.runs ≡ some r
    → get id (run_calls s calls).state.runs ≡ some r
unfolding run_calls call
terminal_kept [] s id r a final h = h
terminal_kept (creates identity run ∷ calls) s id r a final h =
    terminal_kept calls (create_or_return identity run s).1 id r a.1 final
      (create_other identity run s id r a.0 h)
terminal_kept (moves tenant i revision status change ∷ calls) s id r a final h =
    terminal_kept calls (transition tenant i revision status change s).1 id r a final
      (move_terminal tenant i revision status change s id r final h)
