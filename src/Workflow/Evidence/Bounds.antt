-- ===== src/Workflow/Evidence/Bounds.antt =====
-- What an invocation has collected fits the run: `finish_success` of crates/workflow/src/lib.rs makes
-- a transition that the store accepts.
use rust_factory.Common.{
  ℕ, ◌+◌, ◌≤◌, ◌≡◌, true, List, [], ◌∷◌, ◌++◌, length, length-append, Result-cases, ok, arith, inl,
  inr, >>=-ok, nat_ord, list_ord,
}
use rust_factory.Workflow.Model.{max_events, WorkflowEvent}
use rust_factory.Workflow.Transition.{is_some, evidence_bytes}
use rust_factory.Workflow.Transition.Edges.{events_size, evidence_bytes-ok}
use rust_factory.Workflow.Evidence.{
  InvocationEvidence, EvidenceCollector, new_collector, emit, emit_all,
}

abbrev pub item_size : List InvocationEvidence → ℕ
item_size [] = 0
item_size (item ∷ items) = length item.kind + length item.data_bytes + item_size items

item_size-append :
    (xs ys : List InvocationEvidence) → item_size (xs ++ ys) ≡ item_size xs + item_size ys
item_size-append [] ys = omega arith
item_size-append (x ∷ xs) ys = omega (arith, item_size-append xs ys)

-- A collector for `held` events of `size` bytes.
pub record IsBounded (limit held size : ℕ) (c : EvidenceCollector) : Type 0 where
  pub limit_kept : c.limit ≡ limit
  pub held_kept : c.existing_events ≡ held
  pub counted : held + length c.events ≤ max_events
  pub used : c.used_bytes ≡ size + item_size c.events
  pub fits : c.used_bytes ≤ limit
  pub nonempty : is_some c.output ≡ true → 1 ≤ length c.events

emit-IsBounded :
    (limit held size : ℕ) (c out : EvidenceCollector) (item : InvocationEvidence)
    → IsBounded limit held size c
    → emit c item ≡ ok out
    → IsBounded limit held size out
unfolding emit
emit-IsBounded limit held size c out item b h = record {
  limit_kept = ground (arith, b.limit_kept);
  held_kept = ground (arith, b.held_kept);
  counted = ground (arith, b.held_kept, length-append c.events (item ∷ []));
  used = ground (arith, b.used, item_size-append c.events (item ∷ []));
  fits = ground (arith, b.limit_kept);
  nonempty = ground (arith, length-append c.events (item ∷ []));
}

emit_all-IsBounded :
    (limit held size : ℕ) (items : List InvocationEvidence) (c out : EvidenceCollector)
    → IsBounded limit held size c
    → emit_all c items ≡ ok out
    → IsBounded limit held size out
unfolding emit_all
emit_all-IsBounded limit held size [] c out b h = let same_end : c ≡ out = cc h in rw (← same_end) b
emit_all-IsBounded limit held size (item ∷ items) c out b h =
    let (mid, rest, first) = >>=-ok (emit c item) (λ next. emit_all next items) h in
    emit_all-IsBounded limit held size items mid out
      (emit-IsBounded limit held size c mid item b first) rest

new_collector-IsBounded :
    (limit : ℕ) (existing : List WorkflowEvent) (c : EvidenceCollector)
    → new_collector limit existing ≡ ok c
    → IsBounded limit (length existing) (events_size existing) c
unfolding new_collector
new_collector-IsBounded limit existing c h = elim (Result-cases (evidence_bytes 0 existing)) [
  | inl (n, e) ↦ record {
    limit_kept = ground arith;
    held_kept = ground arith;
    counted = ground arith;
    used = ground (arith, evidence_bytes-ok existing 0 n e);
    fits = ground arith;
    nonempty = ground arith;
  }
  | inr (x, e) ↦ absurd (ground arith)
]

-- After `EvidenceCollector::new` over the events of a run and any items that `emit` accepts one
-- after another, the old and the new events are at most 64 together, and `used_bytes` is their
-- size and at most the limit; an output has an event.
pub collected-IsBounded :
    (limit : ℕ) (existing : List WorkflowEvent) (items : List InvocationEvidence)
    (c out : EvidenceCollector)
    → new_collector limit existing ≡ ok c
    → emit_all c items ≡ ok out
    → IsBounded limit (length existing) (events_size existing) out
collected-IsBounded limit existing items c out made h =
    emit_all-IsBounded limit (length existing) (events_size existing) items c out
      (new_collector-IsBounded limit existing c made) h
