-- ===== src/Observability/Local/Bounds.antt =====
-- The counter and the bounds of the queues of crates/observability/src/local.rs.
use rust_factory.Common.{
  ◌≡◌, refl, ◌∙◌, ℕ, ◌+◌, ◌≤◌, true, false, Bool-cases, inl, inr, Option-cases, List, [], ◌∷◌,
  Bytes, length, ok, arith, nat_ord, list_ord, length-append,
}
use rust_factory.TreeMap.{get, IsSorted}
use rust_factory.TreeMap.Laws.{insert-IsSorted}
use rust_factory.TreeMap.Every.{Every, Every-insert, Every-get}
use rust_factory.TreeMap.Size.{weight, weight-insert}
use rust_factory.Observability.Model.{
  TelemetryEnvelopeV1, TelemetryRecordV1, max_local_events_total,
}
use rust_factory.Observability.Local.{LocalTelemetry, new, pop_front, emit}
use rust_factory.Observability.Local.Emits.{
  Pushes, stamped, full, exhausted, held_queue, next_queue, emit-cases,
}
use rust_factory.Observability.Local.Retention.{after}

abbrev pub Fits : ℕ → Bytes → List TelemetryRecordV1 → Type 0
Fits capacity t records = length records ≤ capacity

-- The counter is the number of all records held, and it and every queue are within their bounds.
abbrev pub IsCounted : ℕ → LocalTelemetry → Type 0
IsCounted capacity s =
    (s.capacity_per_tenant ≡ capacity)
    × (IsSorted s.tenants
        × ((s.total_events ≡ weight s.tenants)
            × ((s.total_events ≤ max_local_events_total) × Every (Fits capacity) s.tenants)))

module _ (capacity : ℕ) (envelope : TelemetryEnvelopeV1) (s : LocalTelemetry) where
  held-Fits : Every (Fits capacity) s.tenants → length (held_queue envelope s) ≤ capacity
  held-Fits fits = elim (Option-cases (get envelope.tenant_id.text s.tenants)) [
    | inl e ↦ rw e (omega arith)
    | inr (records, e) ↦
        rw e (Every-get (Fits capacity) envelope.tenant_id.text records s.tenants fits e)
  ]

  full-length : full envelope s ≡ true → length (held_queue envelope s) ≡ s.capacity_per_tenant
  full-length f = elim (Option-cases (get envelope.tenant_id.text s.tenants)) [
    | inl e ↦ absurd (ground (arith, f, e))
    | inr (records, e) ↦ rw e (ground (arith, f, e))
  ]

  length-pop_front :
      (records : List TelemetryRecordV1)
      → 1 ≤ length records
      → length (pop_front records) + 1 ≡ length records
  length-pop_front [] h = absurd (omega (arith, h))
  length-pop_front (item ∷ records) h = omega arith

  length_when_full :
      1 ≤ s.capacity_per_tenant
      → full envelope s ≡ true
      → length (next_queue envelope s) ≡ length (held_queue envelope s)
  length_when_full positive f = rw f (
      omega (
        arith,
        length-append (pop_front (held_queue envelope s)) (stamped envelope s ∷ []),
        length-pop_front (held_queue envelope s) (omega (arith, full-length f, positive)),
      ))

  length_when_free :
      full envelope s ≡ false → length (next_queue envelope s) ≡ length (held_queue envelope s) + 1
  length_when_free f =
      rw f (omega (arith, length-append (held_queue envelope s) (stamped envelope s ∷ [])))

  free_length :
      1 ≤ s.capacity_per_tenant
      → full envelope s ≡ false
      → ¬ (length (held_queue envelope s) ≡ s.capacity_per_tenant)
  free_length positive f same_length = elim (Option-cases (get envelope.tenant_id.text s.tenants)) [
    | inl e ↦ ground (arith, f, e, same_length, positive)
    | inr (records, e) ↦ ground (arith, f, e, same_length)
  ]

  room_in_total :
      full envelope s ≡ false
      → exhausted envelope s ≡ false
      → ¬ (s.total_events ≡ max_local_events_total)
  room_in_total f x same_total = ground (arith, f, x, same_total)

  pushed-IsCounted :
      1 ≤ capacity
      → IsCounted capacity s
      → Pushes envelope s
      → IsCounted capacity (emit envelope s).1
  pushed-IsCounted positive (size, (sorted, (counted, (within, fits))))
        (_, (kept, (tenants, (total, left)))) =
      let weighed =
        weight-insert envelope.tenant_id.text (next_queue envelope s) s.tenants sorted in
      let some_room : 1 ≤ s.capacity_per_tenant = omega (arith, positive, size) in
      let before = held-Fits fits in
      elim (Bool-cases (full envelope s)) [
        | inl f ↦
            let same_size = length_when_full some_room f in
            let same_total : (emit envelope s).1.total_events ≡ s.total_events =
              total ∙ rw f refl in
            (
              kept ∙ size,
              (
                rw tenants (
                    insert-IsSorted envelope.tenant_id.text (next_queue envelope s) s.tenants
                      sorted),
                (
                  rw tenants (omega (arith, same_total, counted, weighed, same_size)),
                  (
                    omega (arith, same_total, within),
                    rw tenants (
                        Every-insert (Fits capacity) envelope.tenant_id.text (next_queue envelope s)
                          s.tenants (omega (arith, same_size, before)) fits),
                  ),
                ),
              ),
            )
        | inr f ↦
            let grown = length_when_free f in
            let free = free_length some_room f in
            let more : (emit envelope s).1.total_events ≡ s.total_events + 1 = total ∙ rw f refl in
            (
              kept ∙ size,
              (
                rw tenants (
                    insert-IsSorted envelope.tenant_id.text (next_queue envelope s) s.tenants
                      sorted),
                (
                  rw tenants (omega (arith, more, counted, weighed, grown)),
                  (
                    omega (arith, more, within, room_in_total f left),
                    rw tenants (
                        Every-insert (Fits capacity) envelope.tenant_id.text (next_queue envelope s)
                          s.tenants (omega (arith, grown, before, free, size)) fits),
                  ),
                ),
              ),
            )
      ]

after-IsCounted :
    (capacity : ℕ) (envelopes : List TelemetryEnvelopeV1) (s : LocalTelemetry)
    → 1 ≤ capacity
    → IsCounted capacity s
    → IsCounted capacity (after envelopes s)
unfolding after
after-IsCounted capacity [] s positive counted = counted
after-IsCounted capacity (envelope ∷ envelopes) s positive counted = elim (emit-cases envelope s) [
  | inl (e, unchanged) ↦
      after-IsCounted capacity envelopes (emit envelope s).1 positive (rw unchanged counted)
  | inr pushes ↦
      after-IsCounted capacity envelopes (emit envelope s).1 positive
        (pushed-IsCounted capacity envelope s positive counted pushes)
]

-- For a store that `LocalTelemetry::new` made and any events sent to it, `total_events` is the
-- number of records in all queues and at most 4,096, and no queue is longer than the capacity.
pub new-IsCounted :
    (capacity : ℕ) (s : LocalTelemetry) (envelopes : List TelemetryEnvelopeV1)
    → new capacity ≡ ok s
    → IsCounted capacity (after envelopes s)
unfolding new weight
new-IsCounted capacity s envelopes h =
    let empty : s.tenants ≡ [] = ground (arith, h) in
    let none_yet : s.total_events ≡ 0 = ground (arith, h) in
    after-IsCounted capacity envelopes s (ground (arith, h)) (
      ground (arith, h),
      (rw empty tt, (rw (empty, none_yet) refl, (omega (arith, none_yet), rw empty tt))),
    )
