-- ===== src/Observability/Local/Emits.antt =====
-- What one call of `emit` does to the store of crates/observability/src/local.rs.
use rust_factory.Common.{
  ◌≡◌, refl, ◌+◌, Bool, false, not, ◌&&◌, Bool-cases, ◌⊎◌, inl, inr, Option-cases, List, [], ◌∷◌,
  ◌++◌, ok, err, Result-cases, ◌==◌, nat_ord, list_ord, if◌then◌else◌, checked_add,
}
use rust_factory.TreeMap.{get, insert}
use rust_factory.TreeMap.Size.{held_list}
use rust_factory.Observability.Model.{
  ObservabilityError, TelemetryEnvelopeV1, TelemetryRecordV1, max_local_events_total,
}
use rust_factory.Observability.Validation.{validate_envelope}
use rust_factory.Observability.Local.{LocalTelemetry, is_full, pop_front, emit}

-- Either a call of `emit` changes nothing, or it pushes a record onto its tenant's queue.
module _ (envelope : TelemetryEnvelopeV1) (s : LocalTelemetry) where
  abbrev pub stamped : TelemetryRecordV1
  stamped = record { sequence = s.next_sequence; envelope = envelope }

  abbrev pub full : Bool
  full = is_full s.capacity_per_tenant (get envelope.tenant_id.text s.tenants)

  abbrev pub exhausted : Bool
  exhausted = not full && s.total_events == max_local_events_total

  abbrev pub held_queue : List TelemetryRecordV1
  held_queue = held_list (get envelope.tenant_id.text s.tenants)

  abbrev pub next_queue : List TelemetryRecordV1
  next_queue = (if full then pop_front held_queue else held_queue) ++ stamped ∷ []

  abbrev pub Pushes : Type 0
  Pushes =
      ((emit envelope s).0 ≡ ok tt)
      × (((emit envelope s).1.capacity_per_tenant ≡ s.capacity_per_tenant)
          × (((emit envelope s).1.tenants ≡ insert envelope.tenant_id.text next_queue s.tenants)
              × (((emit envelope s).1.total_events
                    ≡ (if full then s.total_events else s.total_events + 1))
                  × (exhausted ≡ false))))

  pub emit-cases : ((e : ObservabilityError) × (emit envelope s ≡ (err e, s))) ⊎ Pushes
  unfolding emit
  emit-cases = elim (Result-cases (validate_envelope envelope)) [
    | inr (e, v) ↦ inl (e, rw v refl)
    | inl (tt, v) ↦ elim (Bool-cases s.poisoned) [
      | inl p ↦ inl (ObservabilityError.adapter_failure, rw (v, p) refl)
      | inr p ↦ elim (Bool-cases exhausted) [
        | inl x ↦ inl (ObservabilityError.limit_exceeded, rw (v, p, x) refl)
        | inr x ↦ elim (Option-cases (checked_add 64 s.next_sequence 1)) [
          | inl c ↦ inl (ObservabilityError.limit_exceeded, rw (v, p, x, c) refl)
          | inr (next, c) ↦ inr (elim (Bool-cases full) [
            | inl f ↦ rw (v, p, x, c, f) (refl, (refl, (refl, (refl, refl))))
            | inr f ↦ rw (v, p, x, c, f) (refl, (refl, (refl, (refl, refl))))
          ])
        ]
      ]
    ]
  ]
