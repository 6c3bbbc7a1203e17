-- ===== src/TreeMap.antt =====
-- `BTreeMap<K, V>`: the entries in ascending order of their keys. `insert` keeps the order, and
-- `IsSorted` states it.
pub mod Size
pub mod Laws
pub mod Total
pub mod Every
pub mod Nested
use rust_factory.Common.{
  ℕ, ◌+◌, ◌≡◌, Bool, Option, none, some, List, [], ◌∷◌, lt, eq, gt, Ord, same, before, map,
  if◌then◌else◌,
}

abbrev pub Map {ℓ κ} : Type ℓ → Type κ → Type (ℓ ⊔ κ)
Map K V = List (K × V)

module _ {ℓ κ} {K : Type ℓ} {V : Type κ} ⦃o : Ord K⦄ where
  unfoldable pub get : K → Map K V → Option V
  get k [] = none
  get k ((j, w) ∷ m) = elim (o.cmp k j) [ eq ↦ some w | _ ↦ get k m ]

  unfoldable pub insert : K → V → Map K V → Map K V
  insert k v [] = (k, v) ∷ []
  insert k v ((j, w) ∷ m) = elim (o.cmp k j) [
    | lt ↦ (k, v) ∷ (j, w) ∷ m
    | eq ↦ (k, v) ∷ m
    | gt ↦ (j, w) ∷ insert k v m
  ]

  unfoldable pub remove : K → Map K V → Map K V
  remove k [] = []
  remove k ((j, w) ∷ m) = elim (o.cmp k j) [ eq ↦ remove k m | _ ↦ (j, w) ∷ remove k m ]

  -- `range((Included(k), Unbounded))` and `range((Excluded(k), Unbounded))`
  unfoldable pub from_included : K → Map K V → Map K V
  from_included k [] = []
  from_included k ((j, w) ∷ m) = elim (o.cmp j k) [ lt ↦ from_included k m | _ ↦ (j, w) ∷ m ]

  unfoldable pub from_excluded : K → Map K V → Map K V
  from_excluded k [] = []
  from_excluded k ((j, w) ∷ m) = elim (o.cmp j k) [ gt ↦ (j, w) ∷ m | _ ↦ from_excluded k m ]

  -- `k` comes before every key of the map.
  abbrev pub Below : K → Map K V → Type ℓ
  Below k [] = Unit
  Below k ((j, w) ∷ m) = (o.cmp k j ≡ lt) × Below k m

  abbrev pub IsSorted : Map K V → Type ℓ
  IsSorted [] = Unit
  IsSorted ((k, v) ∷ m) = Below k m × IsSorted m
