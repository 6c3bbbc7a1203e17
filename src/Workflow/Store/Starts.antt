-- ===== src/Workflow/Store/Starts.antt =====
-- A run key is started once: what `create_or_return` of crates/workflow/src/memory.rs answers later.
use rust_factory.Common.{
  ◌≡◌, ◌≢◌, refl, sym, ap, ◌∙◌, true, false, Bool-cases, none, some, Option-cases, List, [], ◌∷◌,
  ok, arith, inl, inr, same, same-eq, nat_ord, list_ord, pair_ord,
}
use rust_factory.TreeMap.{Map, get, insert}
use rust_factory.TreeMap.Laws.{get-insert, get-insert_same, get-insert_other, get-insert_absent}
use rust_factory.Workflow.Model.{
  LogicalId, id_ord, Run, StartKey, StartIdentity, start_key_ord, identity_ord, CreateRun, created,
  existing,
}
use rust_factory.Workflow.Transition.{is_some}
use rust_factory.Workflow.Store.{
  InMemoryWorkflowStore, empty_store, create_or_return, create_new, is_foreign, apply,
}
use rust_factory.Workflow.Store.History.{
  Call, creates, moves, call, run_calls, transition_cases, create_cases,
}

-- Each identity with a run holds its key, and its run is there.
pub record IsLinked (s : InMemoryWorkflowStore) : Type 0 where
  pub keyed :
      (identity : StartIdentity) (id : LogicalId)
      → get identity s.state.identities ≡ some id
      → get identity.key s.state.keys ≡ some identity
  pub healthy : s.poisoned ≡ false

-- The identity stands for the run under `id`.
pub record Started (identity : StartIdentity) (id : LogicalId) (s : InMemoryWorkflowStore)
    : Type 0 where
  pub known : get identity s.state.identities ≡ some id
  pub there : is_some (get id s.state.runs) ≡ true

insert_there :
    (runs : Map LogicalId Run) (i id : LogicalId) (r : Run)
    → is_some (get id runs) ≡ true
    → is_some (get id (insert i r runs)) ≡ true
insert_there runs i id r h = rw (get-insert i id r runs) (ground arith)

insert_keyed :
    (identities : Map StartIdentity LogicalId) (keys : Map StartKey StartIdentity)
    (i identity : StartIdentity) (id found : LogicalId)
    → get i.key keys ≡ none
    → (get identity identities ≡ some found → get identity.key keys ≡ some identity)
    → get identity (insert i id identities) ≡ some found
    → get identity.key (insert i.key i keys) ≡ some identity
insert_keyed identities keys i identity id found free keyed h =
    elim (Bool-cases (same i identity)) [
      | inl hit ↦
          let p : i ≡ identity = same-eq i identity hit in rw (← p) (get-insert_same i.key i keys)
      | inr miss ↦
          get-insert_absent i.key identity.key i identity keys free
            (keyed (sym (get-insert_other i identity id identities miss) ∙ h))
    ]

call-IsLinked : (c : Call) (s : InMemoryWorkflowStore) → IsLinked s → IsLinked (call c s)
unfolding call
call-IsLinked (creates i run) s l = elim (create_cases i run s) [
  | inl (p, refused) ↦ rw p l
  | inr (own, unseen, free, p) ↦ rw p (record {
    keyed = λ identity id h.
        insert_keyed s.state.identities s.state.keys i identity run.id id free (l.keyed identity id)
          h;
    healthy = l.healthy;
  })
]
call-IsLinked (moves tenant id revision status change) s l =
    elim (transition_cases tenant id revision status change s) [
      | inl p ↦ rw p l
      | inr (current, here, valid, t, r, p) ↦ rw p (record { keyed = l.keyed; healthy = l.healthy })
    ]

call-Started :
    (c : Call) (identity : StartIdentity) (started : LogicalId) (s : InMemoryWorkflowStore)
    → Started identity started s
    → Started identity started (call c s)
unfolding call
call-Started (creates i run) identity started s l = elim (create_cases i run s) [
  | inl (p, refused) ↦ rw p l
  | inr (own, unseen, free, p) ↦ rw p (record {
    known = get-insert_absent i identity run.id started s.state.identities unseen l.known;
    there = insert_there s.state.runs run.id started run l.there;
  })
]
call-Started (moves tenant id revision status change) identity started s l =
    elim (transition_cases tenant id revision status change s) [
      | inl p ↦ rw p l
      | inr (current, here, valid, t, r, p) ↦ rw p (record {
        known = l.known;
        there = insert_there s.state.runs id started (apply change current) l.there;
      })
    ]

run_calls-IsLinked :
    (calls : List Call) (s : InMemoryWorkflowStore) → IsLinked s → IsLinked (run_calls s calls)
unfolding run_calls
run_calls-IsLinked [] s l = l
run_calls-IsLinked (c ∷ cs) s l = run_calls-IsLinked cs (call c s) (call-IsLinked c s l)

run_calls-Started :
    (calls : List Call) (identity : StartIdentity) (started : LogicalId) (s : InMemoryWorkflowStore)
    → Started identity started s
    → Started identity started (run_calls s calls)
unfolding run_calls
run_calls-Started [] identity started s l = l
run_calls-Started (c ∷ cs) identity started s l =
    run_calls-Started cs identity started (call c s) (call-Started c identity started s l)

created_Started :
    (identity : StartIdentity) (run r : Run) (s : InMemoryWorkflowStore)
    → (create_or_return identity run s).0 ≡ ok (created r)
    → Started identity run.id (create_or_return identity run s).1
created_Started identity run r s h = elim (create_cases identity run s) [
  | inl (p, refused) ↦ absurd (refused r h)
  | inr (own, unseen, free, p) ↦ rw p (record {
    known = get-insert_same identity run.id s.state.identities;
    there = ap is_some (get-insert_same run.id run s.state.runs);
  })
]

-- The run that `created` answers is the caller's.
created_run :
    (identity : StartIdentity) (run r : Run) (s : InMemoryWorkflowStore)
    → (create_or_return identity run s).0 ≡ ok (created r)
    → run ≡ r
unfolding create_or_return create_new
created_run identity run r s h = elim (Option-cases (get identity s.state.identities)) [
  | inr (id, e) ↦ absurd (ground (arith, e, h))
  | inl e ↦ elim (Option-cases (get identity.key s.state.keys)) [
    | inr (other, k) ↦ absurd (ground (arith, e, k, h))
    | inl k ↦ elim (Bool-cases (is_foreign identity run)) [
      | inl foreign ↦ absurd (ground (arith, e, k, foreign, h))
      | inr own ↦ elim (Bool-cases s.poisoned) [
        | inl broken ↦ absurd (ground (arith, broken, h))
        | inr healthy ↦ ground (arith, e, k, own, healthy, h)
      ]
    ]
  ]
]

again :
    (identity : StartIdentity) (started : LogicalId) (run : Run) (s : InMemoryWorkflowStore)
    → IsLinked s
    → Started identity started s
    → (r : Run) × ((get started s.state.runs ≡ some r)
        × (create_or_return identity run s ≡ (ok (existing r), s)))
unfolding create_or_return
again identity started run s l held = elim (Option-cases (get started s.state.runs)) [
  | inl e ↦ absurd (ground (arith, held.there))
  | inr (r, e) ↦ (r, (e, ground (arith, held.known, l.healthy, e)))
]

other_digest :
    (identity other : StartIdentity) (started : LogicalId) (run : Run) (s : InMemoryWorkflowStore)
    → IsLinked s
    → Started identity started s
    → other.key ≡ identity.key
    → other ≢ identity
    → create_or_return other run s ≡ (ok CreateRun.conflict, s)
unfolding create_or_return
other_digest identity other started run s l held same_key differs =
    let taken : get other.key s.state.keys ≡ some identity =
      ap (λ k. get k s.state.keys) same_key ∙ l.keyed identity started held.known in
    elim (Option-cases (get other s.state.identities)) [
      | inl e ↦ ground (arith, l.healthy)
      | inr (id, e) ↦
          let q : some other ≡ some identity = sym (l.keyed other id e) ∙ taken in
          absurd (differs (cc))
    ]

-- A start in the history of a store, and everything after it.
module _ (before after : List Call) (identity : StartIdentity) (run r : Run)
    (start : (create_or_return identity run (run_calls empty_store before)).0
      ≡ ok (created r)) where
  abbrev pub later : InMemoryWorkflowStore
  later = run_calls (create_or_return identity run (run_calls empty_store before)).1 after

  empty-IsLinked : IsLinked empty_store
  unfolding get
  empty-IsLinked = record { keyed = λ identity id h. cc; healthy = refl }

  later-IsLinked : IsLinked later
  unfolding call
  later-IsLinked = run_calls-IsLinked after _ (
      call-IsLinked (creates identity run) _ (run_calls-IsLinked before empty_store empty-IsLinked))

  later-Started : Started identity r.id later
  later-Started = run_calls-Started after identity r.id _ (
      rw (← created_run identity run r (run_calls empty_store before) start)
        (created_Started identity run r (run_calls empty_store before) start))

  -- After a start that was answered `created` in the history of a store, and any further calls,
  -- the same identity is answered with the run that the store then holds under the identifier of
  -- the run that was answered first, whichever run the caller brings, and the store is unchanged.
  pub restart-existing :
      (other_run : Run)
      → (found : Run) × ((get r.id later.state.runs ≡ some found)
          × (create_or_return identity other_run later ≡ (ok (existing found), later)))
  restart-existing other_run = again identity r.id other_run later later-IsLinked later-Started

  -- After a start that was answered `created` in the history of a store, and any further calls,
  -- another identity with the same start key is answered `conflict`, and the store is unchanged.
  pub restart-conflict :
      (other : StartIdentity) (other_run : Run)
      → other.key ≡ identity.key
      → other ≢ identity
      → create_or_return other other_run later ≡ (ok CreateRun.conflict, later)
  restart-conflict other other_run same_key differs =
      other_digest identity other r.id other_run later later-IsLinked later-Started same_key differs
