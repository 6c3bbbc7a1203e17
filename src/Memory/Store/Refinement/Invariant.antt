-- ===== src/Memory/Store/Refinement/Invariant.antt =====
-- What every call of `InProcessStore` keeps, and the flat map a store stands for.
use rust_factory.Common.{
  ◌≡◌, refl, false, Option-cases, [], ◌∷◌, Bytes, length, Result, ◌==◌, nat_ord, list_ord, pair_ord,
  arith, inl, inr,
}
use rust_factory.TreeMap.{Map, get, insert, IsSorted}
use rust_factory.TreeMap.Laws.{insert-IsSorted, remove-IsSorted}
use rust_factory.TreeMap.Every.{Every, Every-insert, Every-remove, Every-get}
use rust_factory.TreeMap.Nested.{or_empty, put_back}
use rust_factory.TreeMap.Nested.Scopes.{IsFilled}
use rust_factory.TreeMap.Nested.Deep.{deep, SortedWithin, FilledWithin}
use rust_factory.Memory.Errors.{MemoryError}
use rust_factory.Memory.Model.{MemoryRecord}
use rust_factory.Memory.Store.{InProcessStore, Tenant, Partition, is_none}
use rust_factory.Memory.Store.Flat.{FlatStore}

abbrev pub view : InProcessStore → FlatStore
view store = deep store.tenants

-- Sorted at both levels, with no namespace left empty, behind a lock that is not poisoned.
abbrev pub Kept : Map Bytes Tenant → Type 0
Kept m = IsSorted m × (SortedWithin m × FilledWithin m)

abbrev pub IsKept : InProcessStore → Type 0
IsKept store = (store.poisoned ≡ false) × Kept store.tenants

abbrev pub Agree :
    {A : Type 0} → Result MemoryError A × InProcessStore → Result MemoryError A × FlatStore → Type 0
Agree (r, s) (q, m) = (r ≡ q) × ((view s ≡ m) × IsKept s)

pub Kept-insert :
    (t : Bytes) (x : Tenant) (m : Map Bytes Tenant)
    → IsSorted x
    → Every IsFilled x
    → Kept m
    → Kept (insert t x m)
Kept-insert t x m s f k = (
  insert-IsSorted t x m k.0,
  (
    Every-insert (λ k x. IsSorted x) t x m s k.1.0,
    Every-insert (λ k x. Every IsFilled x) t x m f k.1.1,
  ),
)

pub Kept-put_back :
    (t : Bytes) (x : Tenant) (m : Map Bytes Tenant)
    → IsSorted x
    → Every IsFilled x
    → Kept m
    → Kept (put_back t x m)
Kept-put_back t [] m s f k = (
  remove-IsSorted t m k.0,
  (Every-remove (λ k x. IsSorted x) t m k.1.0, Every-remove (λ k x. Every IsFilled x) t m k.1.1),
)
Kept-put_back t (y ∷ x) m s f k = Kept-insert t (y ∷ x) m s f k

-- A partition that has just been written to is not empty.
pub insert-IsFilled : (n k : Bytes) (v : MemoryRecord) (p : Partition) → IsFilled n (insert k v p)
unfolding insert
insert-IsFilled n k v [] e = omega arith
insert-IsFilled n k v ((j, w) ∷ p) e = ground arith

pub is_none-length :
    (n : Bytes) (x : Tenant)
    → Every IsFilled x
    → (length (or_empty (get n x)) == 0) ≡ is_none (get n x)
is_none-length n x f = elim (Option-cases (get n x)) [
  | inl e ↦ rw e refl
  | inr (p, e) ↦ rw e (ground (arith, Every-get IsFilled n p x f e))
]
