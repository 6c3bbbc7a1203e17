-- ===== src/Memory/Model.antt =====
-- crates/memory/src/model.rs: identifiers, records and queries.
use rust_factory.Common.{
  ℕ, Bool, true, false, not, ◌&&◌, Option, none, some, List, [], ◌∷◌, Bytes, codes, length, all,
  any, Result, ok, err, ◌>>=◌, leb, ltb, ◌==◌, if◌then◌else◌, nat_ord, list_ord, same,
  text_contains,
}
use rust_factory.TreeMap.{Map}
use rust_factory.Memory.Errors.{MemoryError}
use rust_factory.Memory.Validation.{is_logical_id}

pub record TenantId : Type 0 where
  pub text : Bytes

pub record Namespace : Type 0 where
  pub text : Bytes

pub record RecordKey : Type 0 where
  pub text : Bytes

pub record RunId : Type 0 where
  pub text : Bytes

-- The macro `logical_id!` writes one such constructor for each of the four types.
module _ {A : Type 0} (wrap : Bytes → A) where
  unfoldable pub new_logical_id : Bytes → Result MemoryError A
  unfolding is_logical_id
  new_logical_id value = if is_logical_id value then ok (wrap value) else err MemoryError.invalid_id

pub data MemoryKind : Type 0 where
  factual preference procedural episodic : MemoryKind

-- The order that is derived for the kinds.
abbrev pub place : MemoryKind → ℕ
place factual = 0
place preference = 1
place procedural = 2
place episodic = 3

abbrev pub same_kind : MemoryKind → MemoryKind → Bool
same_kind a b = place a == place b

unfoldable pub kind_as_str : MemoryKind → Bytes
kind_as_str factual = codes "factual"
kind_as_str preference = codes "preference"
kind_as_str procedural = codes "procedural"
kind_as_str episodic = codes "episodic"

abbrev pub all_kinds : List MemoryKind
all_kinds = factual ∷ preference ∷ procedural ∷ episodic ∷ []

-- Microseconds.
pub record Timestamp : Type 0 where
  pub micros : ℕ

pub record Provenance : Type 0 where
  pub run_id : RunId
  pub recorded_at : Timestamp

unfoldable pub new_provenance : Bytes → ℕ → Result MemoryError Provenance
unfolding new_logical_id
new_provenance run_id micros = do
  id ← new_logical_id (λ text. record { text = text }) run_id
  ok (record { run_id = id; recorded_at = record { micros = micros } })

pub record MemoryRecord : Type 0 where
  pub tenant_id : TenantId
  pub namespace : Namespace
  pub key : RecordKey
  pub kind : MemoryKind
  pub content : Bytes
  pub tags : List Bytes
  pub metadata : Map Bytes Bytes
  pub provenance : Option Provenance

pub record MemoryQuery : Type 0 where
  pub kinds : List MemoryKind
  pub tags : List Bytes
  pub term : Option Bytes
  pub since : Option Timestamp
  pub until : Option Timestamp
  pub limit : ℕ

abbrev at_least : Option Timestamp → Timestamp → Bool
at_least none at = true
at_least (some bound) at = leb bound.micros at.micros

abbrev before_bound : Option Timestamp → Timestamp → Bool
before_bound none at = true
before_bound (some bound) at = ltb at.micros bound.micros

abbrev pub in_window : Option Timestamp → Option Timestamp → Option Provenance → Bool
in_window none none _ = true
in_window (some since) until none = false
in_window none (some until) none = false
in_window since until (some provenance) =
    at_least since provenance.recorded_at && before_bound until provenance.recorded_at

abbrev pub has_term : Option Bytes → Bytes → Bool
has_term none content = true
has_term (some term) content = text_contains content term

-- `MemoryQuery::matches`
unfoldable pub matches : MemoryQuery → MemoryRecord → Bool
unfolding text_contains
matches query item =
    if not (length query.kinds == 0) && not (any (λ kind. same_kind kind item.kind) query.kinds)
    then false
    else if not (all (λ tag. any (λ held. same held tag) item.tags) query.tags)
    then false
    else if not (has_term query.term item.content)
    then false
    else in_window query.since query.until item.provenance

pub data WriteOutcome : Type 0 where
  created replaced : WriteOutcome
