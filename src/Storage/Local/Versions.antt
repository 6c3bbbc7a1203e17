-- ===== src/Storage/Local/Versions.antt =====
-- A version names one write: optimistic concurrency over any history of calls.
use rust_factory.Common.{
  ℕ, ◌+◌, ◌≤◌, ◌<◌, ◌≡◌, refl, ap, ◌⊎◌, inl, Option, none, some, List, [], ◌∷◌, pair_ord, arith,
  true, sym, ◌∙◌, same-eq,
}
use rust_factory.TreeMap.{get}
use rust_factory.TreeMap.Laws.{get-insert, get-remove}
use rust_factory.TreeMap.Every.{Every-get}
use rust_factory.Storage.Model.{
  ObjectKey, ObjectValue, ObjectVersion, tenant_ord, namespace_ord, key_ord, version_ord,
  StorageScope, PutCondition, DeleteCondition,
}
use rust_factory.Storage.Local.{
  Identity, Entry, State, LocalObjectStore, identity, put_condition_matches, put, delete,
}
use rust_factory.Storage.Local.Steps.{reported, entry_of, put_cases, delete_cases}
use rust_factory.Storage.Local.Invariant.{IsIssued}
use rust_factory.Storage.Local.History.{Call, puts, deletes, gets, lists, step, run, IsValid}

-- What the key holds is `old`, or was written after revision `n`.
pub record IsLater (id : Identity) (old : Entry) (n : ℕ) (s : State) : Type 0 where
  pub reached : n ≤ s.revision
  pub later : (e : Entry) → get id s.objects ≡ some e → (e ≡ old) ⊎ (n < e.version.revision)

module _ (id : Identity) (old : Entry) (n : ℕ) where
  put-IsLater :
      (scope : StorageScope) (key : ObjectKey) (value : ObjectValue) (condition : PutCondition)
      (s : LocalObjectStore)
      → IsLater id old n s.state
      → IsLater id old n (put scope key value condition s).1.state
  put-IsLater scope key value condition s h =
      put_cases scope key value s condition (λ r s'. IsLater id old n s'.state) (λ r _. h)
        λ counters e matched fits. record {
          reached = omega (arith, h.reached);
          later = λ x p. ground (
            arith,
            h.reached,
            h.later x,
            get-insert (identity scope key) id (entry_of value (s.state.revision + 1))
                s.state.objects,
          );
        }

  delete-IsLater :
      (scope : StorageScope) (key : ObjectKey) (condition : DeleteCondition) (s : LocalObjectStore)
      → IsLater id old n s.state
      → IsLater id old n (delete scope key condition s).1.state
  delete-IsLater scope key condition s h =
      delete_cases scope key condition s (λ r s'. IsLater id old n s'.state) (λ r _. h)
        λ entry held counters here kept e drained. record {
          reached = h.reached;
          later =
              λ x p. ground (arith, h.later x, get-remove (identity scope key) id s.state.objects);
        }

  step-IsLater :
      (s : LocalObjectStore) (c : Call)
      → IsLater id old n s.state
      → IsLater id old n (step s c).state
  unfolding step
  step-IsLater s (puts scope key value condition) h = put-IsLater scope key value condition s h
  step-IsLater s (deletes scope key condition) h = delete-IsLater scope key condition s h
  step-IsLater s (gets scope key) h = ground arith
  step-IsLater s (lists scope request) h = ground arith

  run-IsLater :
      (s : LocalObjectStore) (calls : List Call)
      → IsLater id old n s.state
      → IsLater id old n (run s calls).state
  unfolding run
  run-IsLater s [] h = h
  run-IsLater s (c ∷ calls) h = run-IsLater (step s c) calls (step-IsLater s c h)

module _ (s : LocalObjectStore) (calls : List Call) (id : Identity) (old : Entry) where
  pub version_identifies :
      (now : Entry)
      → IsValid s
      → get id s.state.objects ≡ some old
      → get id (run s calls).state.objects ≡ some now
      → now.version ≡ old.version
      → now ≡ old
  version_identifies now v here there same_version = ground (
    arith,
    Every-get (IsIssued s.state.revision) id old s.state.objects v.consistent.issued here,
    (run-IsLater id old s.state.revision s calls
          (record { reached = omega arith; later = λ e p. inl (ground arith) })).later
        now there,
  )

matched_entry :
    (expected : ObjectVersion) (o : Option Entry)
    → put_condition_matches (PutCondition.if_version expected) o ≡ true
    → (now : Entry) × (o ≡ some now) × (now.version ≡ expected)
unfolding put_condition_matches
matched_entry expected none h = cc
matched_entry expected (some now) h = (now, refl, sym (same-eq expected now.version h))

put-matched :
    (scope : StorageScope) (key : ObjectKey) (value : ObjectValue) (condition : PutCondition)
    (s : LocalObjectStore) (version : ObjectVersion)
    → reported (put scope key value condition s).0 ≡ some version
    → put_condition_matches condition (get (identity scope key) s.state.objects) ≡ true
put-matched scope key value condition s version =
    put_cases scope key value s condition
      (λ r s'.
        reported r ≡ some version
        → put_condition_matches condition (get (identity scope key) s.state.objects) ≡ true)
      (λ r e h. cc) (λ counters e matched fits h. matched)

-- If a client saw an entry in a valid store, and after any further calls its `put` conditional on
-- that entry's version reports a version, then the key still held exactly that entry: no write is
-- lost.
pub put-if_version_sound :
    (s : LocalObjectStore) (calls : List Call) (scope : StorageScope) (key : ObjectKey)
    (old : Entry) (value : ObjectValue) (version : ObjectVersion)
    → IsValid s
    → get (identity scope key) s.state.objects ≡ some old
    → reported (put scope key value (PutCondition.if_version old.version) (run s calls)).0
      ≡ some version
    → get (identity scope key) (run s calls).state.objects ≡ some old
put-if_version_sound s calls scope key old value version v here done =
    let (now, there, agrees) =
      matched_entry old.version (get (identity scope key) (run s calls).state.objects) (
        put-matched scope key value (PutCondition.if_version old.version) (run s calls) version
          done) in
    there ∙ ap some (version_identifies s calls (identity scope key) old now v here there agrees)
