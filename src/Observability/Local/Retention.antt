-- ===== src/Observability/Local/Retention.antt =====
-- What the queues of crates/observability/src/local.rs hold of all that was ever accepted.
use mathlib.Core.List.{append-nil, append_assoc}
use rust_factory.Common.{
  ◌≡◌, refl, sym, ap, ◌∙◌, ℕ, ◌≤◌, Bool, true, false, Bool-cases, inl, inr, Option, none, some,
  List, [], ◌∷◌, ◌++◌, Bytes, length, keep_if, Result, ok, err, leb, ◌==◌, same, same-eq, same_refl,
  arith, nat_ord, list_ord, if◌then◌else◌, length-append,
}
use rust_factory.TreeMap.{get}
use rust_factory.TreeMap.Laws.{get-insert}
use rust_factory.TreeMap.Size.{held_list}
use rust_factory.Observability.Model.{ObservabilityError, TelemetryEnvelopeV1, TelemetryRecordV1}
use rust_factory.Observability.Local.{LocalTelemetry, new, is_full, pop_front, emit}
use rust_factory.Observability.Local.Emits.{stamped, Pushes, next_queue, emit-cases}

-- The last `n` elements.
unfoldable pub newest {ℓ} : {A : Type ℓ} → ℕ → List A → List A
newest n [] = []
newest n (x ∷ xs) = let rest = newest n xs in if leb (length (x ∷ xs)) n then x ∷ xs else rest

module _ {ℓ} {A : Type ℓ} where
  newest-all : (n : ℕ) (xs : List A) → length xs ≤ n → newest n xs ≡ xs
  unfolding newest
  newest-all n [] h = refl
  newest-all n (x ∷ xs) h = ground (arith, h)

  keep_if-append :
      (p : A → Bool) (xs ys : List A) → keep_if p (xs ++ ys) ≡ keep_if p xs ++ keep_if p ys
  keep_if-append p [] ys = refl
  keep_if-append p (x ∷ xs) ys = ground (arith, keep_if-append p xs ys)

-- What `emit` does to a queue.
abbrev pushed : ℕ → List TelemetryRecordV1 → TelemetryRecordV1 → List TelemetryRecordV1
pushed n records item = (if length records == n then pop_front records else records) ++ item ∷ []

newest-pushed :
    (n : ℕ) (xs : List TelemetryRecordV1) (item : TelemetryRecordV1)
    → 1 ≤ n
    → newest n (xs ++ item ∷ []) ≡ pushed n (newest n xs) item
unfolding newest
newest-pushed n [] item h = ground (arith, h)
newest-pushed n (x ∷ xs) item h =
    let grown = length-append xs (item ∷ []) in
    elim (Bool-cases (leb (length (x ∷ xs)) n)) [
      | inr long ↦
          let longer : leb (length (x ∷ (xs ++ item ∷ []))) n ≡ false =
            ground (arith, long, grown) in
          rw (long, longer) (newest-pushed n xs item h)
      | inl fits ↦ elim (Bool-cases (length (x ∷ xs) == n)) [
        | inl full ↦
            let longer : leb (length (x ∷ (xs ++ item ∷ []))) n ≡ false =
              ground (arith, full, grown) in
            rw (fits, longer, full) (newest-all n (xs ++ item ∷ []) (ground (arith, fits, grown)))
        | inr room ↦
            let longer : leb (length (x ∷ (xs ++ item ∷ []))) n ≡ true =
              ground (arith, fits, room, grown) in
            rw (fits, longer, room) refl
      ]
    ]

unfoldable pub after : List TelemetryEnvelopeV1 → LocalTelemetry → LocalTelemetry
unfolding emit
after [] s = s
after (envelope ∷ envelopes) s = after envelopes (emit envelope s).1

abbrev recorded : Result ObservabilityError (Unit {0}) → TelemetryRecordV1 → List TelemetryRecordV1
recorded (ok _) item = item ∷ []
recorded (err _) item = []

-- The records of the events that were accepted, each with the sequence number it was given.
unfoldable pub accepted : List TelemetryEnvelopeV1 → LocalTelemetry → List TelemetryRecordV1
unfolding emit
accepted [] s = []
accepted (envelope ∷ envelopes) s =
    recorded (emit envelope s).0 (stamped envelope s) ++ accepted envelopes (emit envelope s).1

abbrev pub is_own : Bytes → TelemetryRecordV1 → Bool
is_own tenant item = same item.envelope.tenant_id.text tenant

-- Every queue holds the newest records of its tenant in the log.
abbrev Holds : ℕ → List TelemetryRecordV1 → LocalTelemetry → Type 0
Holds n log s =
    (s.capacity_per_tenant ≡ n)
    × ((1 ≤ n) × ((t : Bytes) → held_list (get t s.tenants) ≡ newest n (keep_if (is_own t) log)))

is_full-length :
    (n : ℕ) (held : Option (List TelemetryRecordV1))
    → 1 ≤ n
    → is_full n held ≡ (length (held_list held) == n)
is_full-length n none h = ground (arith, h)
is_full-length n (some records) h = refl

module _ (n : ℕ) (envelope : TelemetryEnvelopeV1) (s : LocalTelemetry)
    (log : List TelemetryRecordV1) where
  abbrev tenant : Bytes
  tenant = envelope.tenant_id.text

  own_queue :
      Holds n log s
      → next_queue envelope s ≡ newest n (keep_if (is_own tenant) (log ++ stamped envelope s ∷ []))
  own_queue (size, (positive, held)) =
      rw
        (
          size,
          is_full-length n (get tenant s.tenants) positive,
          held tenant,
          keep_if-append (is_own tenant) log (stamped envelope s ∷ []),
          same_refl tenant,
        )
        (sym (newest-pushed n (keep_if (is_own tenant) log) (stamped envelope s) positive))

  other_queue :
      (t : Bytes)
      → same tenant t ≡ false
      → keep_if (is_own t) (log ++ stamped envelope s ∷ []) ≡ keep_if (is_own t) log
  other_queue t other =
      rw (keep_if-append (is_own t) log (stamped envelope s ∷ []), other)
        (append-nil (keep_if (is_own t) log))

  pushed-Holds :
      Holds n log s
      → Pushes envelope s
      → Holds n (log ++ stamped envelope s ∷ []) (emit envelope s).1
  pushed-Holds (size, (positive, held)) (_, (capacity, (tenants, _))) =
      (capacity ∙ size, (positive, queue))
    where
      queue :
          (t : Bytes)
          → held_list (get t (emit envelope s).1.tenants)
            ≡ newest n (keep_if (is_own t) (log ++ stamped envelope s ∷ []))
      queue t = elim (Bool-cases (same tenant t)) [
        | inl own ↦
            let e : tenant ≡ t = same-eq tenant t own in
            rw (tenants, get-insert tenant t (next_queue envelope s) s.tenants, own, sym e)
              (own_queue (size, (positive, held)))
        | inr other ↦
            rw
              (
                tenants,
                get-insert tenant t (next_queue envelope s) s.tenants,
                other,
                other_queue t other,
              )
              (held t)
      ]

-- One call in front of the others.
front-Holds :
    (n : ℕ) (envelopes : List TelemetryEnvelopeV1) (log : List TelemetryRecordV1)
    (item : TelemetryRecordV1) (z w : Result ObservabilityError (Unit {0}) × LocalTelemetry)
    → z ≡ w
    → Holds n (log ++ (recorded w.0 item ++ accepted envelopes w.1)) (after envelopes w.1)
    → Holds n (log ++ (recorded z.0 item ++ accepted envelopes z.1)) (after envelopes z.1)
front-Holds n envelopes log item z w e h = rw e h

accepted-Holds :
    (n : ℕ) (envelopes : List TelemetryEnvelopeV1) (s : LocalTelemetry)
    (log : List TelemetryRecordV1)
    → Holds n log s
    → Holds n (log ++ accepted envelopes s) (after envelopes s)
unfolding accepted after
accepted-Holds n [] s log holds = rw (append-nil log) holds
accepted-Holds n (envelope ∷ envelopes) s log holds = elim (emit-cases envelope s) [
  | inl (e, unchanged) ↦
      front-Holds n envelopes log (stamped envelope s) (emit envelope s) (err e, s) unchanged
        (accepted-Holds n envelopes s log holds)
  | inr pushes ↦
      front-Holds n envelopes log (stamped envelope s) (emit envelope s)
        (ok tt, (emit envelope s).1) (said envelope s pushes)
        (rw
          (sym
            (append_assoc log (stamped envelope s ∷ []) (accepted envelopes (emit envelope s).1)))
          (accepted-Holds n envelopes (emit envelope s).1 (log ++ stamped envelope s ∷ [])
            (pushed-Holds n envelope s log holds pushes)))
]
  where
    said :
        (envelope : TelemetryEnvelopeV1) (s : LocalTelemetry)
        → Pushes envelope s
        → emit envelope s ≡ (ok tt, (emit envelope s).1)
    said envelope s pushes = ap (λ r. (r, (emit envelope s).1)) pushes.0

-- For a store that `LocalTelemetry::new` made and any events sent to it, the queue of a tenant
-- holds the newest records of those accepted for it, as many as the capacity has room for, in the
-- order they came.
pub retains_newest :
    (capacity : ℕ) (s : LocalTelemetry) (envelopes : List TelemetryEnvelopeV1) (t : Bytes)
    → new capacity ≡ ok s
    → held_list (get t (after envelopes s).tenants)
      ≡ newest capacity (keep_if (is_own t) (accepted envelopes s))
unfolding new newest
retains_newest capacity s envelopes t h =
    let empty : s.tenants ≡ [] = ground (arith, h) in
    let same_capacity : s.capacity_per_tenant ≡ capacity = ground (arith, h) in
    let positive : 1 ≤ capacity = ground (arith, h) in
    let start : Holds capacity [] s =
      (same_capacity, (positive, λ t. rw empty (unfold get in refl))) in
    (accepted-Holds capacity envelopes s [] start).1.1 t
