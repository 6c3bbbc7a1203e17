-- ===== src/Evaluation/Canonical/Sizes.antt =====
-- The length that is computed before an encoding is written is the length of what is written.
use rust_factory.Common.{
  ◌≡◌, refl, sym, ap, ◌∙◌, ℕ, ◌+◌, ◌≤◌, Bool-cases, List, [], ◌∷◌, ◌++◌, Bytes, length, map, ok,
  err, >>=-ok, leb, refuse, if◌then◌else◌, arith, length-append, inl, inr,
}
use rust_factory.Common.Decimal.{decimal, ilog10, length-decimal}
use rust_factory.Common.Framing.{field, fields}
use rust_factory.Evaluation.Model.{
  EvaluationError, EvidenceEventV1, TerminalEvidenceSnapshotV1, max_snapshot_bytes,
}
use rust_factory.Evaluation.Validation.{check_events}
use rust_factory.Evaluation.Canonical.{
  decimal_len, add_field_len, add_field_lens, add_event_lens, header_lens, header_fields,
  event_fields, malformed, snapshot_canonical_len, validate_and_bound_snapshot,
  snapshot_canonical_bytes,
}

decimal_len-ilog10 : (n : ℕ) → decimal_len n ≡ ilog10 n + 1
unfolding ilog10
decimal_len-ilog10 n = ground (arith)

length_of_decimal : (n : ℕ) → length (decimal n) ≡ decimal_len n
length_of_decimal n = length-decimal n ∙ sym (decimal_len-ilog10 n)

length-field : (v : Bytes) → length (field v) ≡ decimal_len (length v) + 2 + length v
unfolding field
length-field v = omega (
  arith,
  length-append (decimal (length v)) (b':' ∷ (v ++ b'\n' ∷ [])),
  length-append v (b'\n' ∷ []),
  length_of_decimal (length v),
)

add_field_len-ok :
    (total len : ℕ) (n : ℕ)
    → add_field_len total len ≡ ok n
    → n ≡ total + (decimal_len len + 2 + len)
unfolding add_field_len
add_field_len-ok total len n h = ground (arith, h)

add_field_lens-ok :
    (total : ℕ) (vs : List Bytes) (n : ℕ)
    → add_field_lens total (map length vs) ≡ ok n
    → n ≡ total + length (fields vs)
unfolding add_field_lens fields
add_field_lens-ok total [] n h = ground (arith, h)
add_field_lens-ok total (v ∷ vs) n h =
    let (t, rest, first) = >>=-ok (add_field_len total (length v)) _ h in
    omega (
      arith,
      add_field_len-ok total (length v) t first,
      add_field_lens-ok t vs n rest,
      length-append (field v) (fields vs),
      length-field v,
    )

event_lens : (event : EvidenceEventV1) → List ℕ
event_lens event = decimal_len event.sequence ∷ length event.kind ∷ length event.data_bytes ∷ []

add_event_lens-ok :
    (total : ℕ) (events : List EvidenceEventV1) (n : ℕ)
    → add_event_lens total events ≡ ok n
    → n ≡ total + length (event_fields events)
unfolding add_event_lens
add_event_lens-ok total [] n h = ground (arith, h)
add_event_lens-ok total (event ∷ events) n h =
    let values = decimal event.sequence ∷ event.kind ∷ event.data_bytes ∷ [] in
    let (t, rest, first) =
      >>=-ok
        (add_field_lens total
          (decimal_len event.sequence ∷ length event.kind ∷ length event.data_bytes ∷ []))
        _ h in
    let counted : add_field_lens total (map length values) ≡ ok t =
      ap (λ l. add_field_lens total (l ∷ length event.kind ∷ length event.data_bytes ∷ []))
        (length_of_decimal event.sequence)
      ∙ first in
    omega (
      arith,
      add_field_lens-ok total values t counted,
      add_event_lens-ok t events n rest,
      length-append (fields values) (event_fields events),
    )

header_lens_lem :
    (snapshot : TerminalEvidenceSnapshotV1)
    → map length (header_fields snapshot) ≡ header_lens snapshot
header_lens_lem snapshot =
    rw (length_of_decimal snapshot.run_revision, length_of_decimal (length snapshot.events)) refl

snapshot_canonical_len-ok :
    (snapshot : TerminalEvidenceSnapshotV1) (n : ℕ)
    → snapshot_canonical_len snapshot ≡ ok n
    → n ≡ length (fields (header_fields snapshot) ++ event_fields snapshot.events)
unfolding snapshot_canonical_len
snapshot_canonical_len-ok snapshot n h =
    let (t, rest, first) = >>=-ok (add_field_lens 0 (header_lens snapshot)) _ h in
    let counted : add_field_lens 0 (map length (header_fields snapshot)) ≡ ok t =
      ap (add_field_lens 0) (header_lens_lem snapshot) ∙ first in
    omega (
      arith,
      add_field_lens-ok 0 (header_fields snapshot) t counted,
      add_event_lens-ok t snapshot.events n rest,
      length-append (fields (header_fields snapshot)) (event_fields snapshot.events),
    )

in_bound-ok :
    (len n : ℕ)
    → (if leb len max_snapshot_bytes then ok len else err EvaluationError.limit_exceeded) ≡ ok n
    → (len ≡ n) × (n ≤ max_snapshot_bytes)
in_bound-ok len n h = elim (Bool-cases (leb len max_snapshot_bytes)) [
  | inl e ↦ (ground (arith, e, h), ground (arith, e, h))
  | inr e ↦ absurd (ground (arith, e, h))
]

bound-ok :
    (snapshot : TerminalEvidenceSnapshotV1) (n : ℕ)
    → validate_and_bound_snapshot snapshot ≡ ok n
    → (snapshot_canonical_len snapshot ≡ ok n) × (n ≤ max_snapshot_bytes)
unfolding validate_and_bound_snapshot
bound-ok snapshot n h =
    let (_, past, _) =
      >>=-ok (refuse (malformed snapshot) EvaluationError.malformed_evidence) _ h in
    let (_, past', _) = >>=-ok (check_events 0 snapshot.events) _ past in
    let (len, last, counted) = >>=-ok (snapshot_canonical_len snapshot) _ past' in
    let (kept, within) = in_bound-ok len n last in (counted ∙ ap ok kept, within)

-- Whenever `snapshot_canonical_bytes` answers, the length that `validate_and_bound_snapshot`
-- computed before anything was written is the length of these bytes, and at most 64 KiB.
pub snapshot_canonical_bytes_sized :
    (snapshot : TerminalEvidenceSnapshotV1) (bytes : Bytes)
    → snapshot_canonical_bytes snapshot ≡ ok bytes
    → (validate_and_bound_snapshot snapshot ≡ ok (length bytes))
      × (length bytes ≤ max_snapshot_bytes)
unfolding snapshot_canonical_bytes
snapshot_canonical_bytes_sized snapshot bytes h =
    let (n, written, bounded) = >>=-ok (validate_and_bound_snapshot snapshot) _ h in
    let (counted, within) = bound-ok snapshot n bounded in
    let same_size : n ≡ length bytes =
      snapshot_canonical_len-ok snapshot n counted ∙ ap length (cc written) in
    (bounded ∙ ap ok same_size, rw (sym same_size) within)
