-- ===== src/Storage/Listing/Page.antt =====
-- The page that `list` of crates/storage/src/local.rs answers, as a filter of the objects.
use rust_factory.Common.{
  Bytes, cmp_list, ◌^◌, ◌<◌, ◌≡◌, ◌≢◌, refl, Bool, true, false, not, ◌&&◌, Option, none, some, [],
  ◌∷◌, map, lt, before, length, take, keep_if, All, ok, arith, ltb, pair_ord, list_ord, nat_ord,
}
use rust_factory.TreeMap.{Map, IsSorted}
use rust_factory.TreeMap.Every.{Every}
use rust_factory.Storage.Model.{
  ObjectKey, tenant_ord, namespace_ord, key_ord, minimum_key, StorageScope, ListRequest, as_usize,
}
use rust_factory.Storage.Local.{Identity, Entry, LocalObjectStore, identity}
use rust_factory.Storage.Listing.{entries_after, list}
use rust_factory.Storage.Listing.Ranges.{
  keep_if-keep_if, from_excluded-keep_if, from_included-keep_if, from_excluded-IsSorted,
  from_included-IsSorted, Every-keep_if, Every-kept,
}
use rust_factory.Storage.Listing.Scan.{item, FitsSize, inside, Reaches, scan_exact}

module _ (scope : StorageScope) where
  -- A key lies beyond the one that the last page ended with.
  abbrev pub beyond : Option ObjectKey → ObjectKey → Bool
  beyond none key = true
  beyond (some last) key = before last key

  -- What a page is taken from: the scope's entries beyond the key.
  abbrev pub listed : Option ObjectKey → Map Identity Entry → Map Identity Entry
  listed last = keep_if (λ x. (inside scope) x && beyond last x.0.1.1)

  abbrev pub HasKey : Identity → Entry → Type 0
  HasKey id entry = id.1.1.bytes ≢ []

  minimum_first : (bytes : Bytes) → bytes ≢ [] → cmp_list bytes (0 ∷ []) ≢ lt
  minimum_first [] h = absurd (h refl)
  minimum_first (b ∷ []) h = ground arith
  minimum_first (b ∷ c ∷ bytes) h = ground arith

  from_minimum :
      (m : Map Identity Entry)
      → Every HasKey m
      → All
          (λ x.
            ((inside scope) x && not (before x.0 (identity scope minimum_key)))
            ≡ ((inside scope) x && beyond none x.0.1.1))
          m
  from_minimum [] h = tt
  from_minimum ((id, entry) ∷ m) h =
      (ground (arith, minimum_first id.1.1.bytes h.0), from_minimum m h.1)

  from_last :
      (last : ObjectKey) (m : Map Identity Entry)
      → All
          (λ x.
            ((inside scope) x && before (identity scope last) x.0)
            ≡ ((inside scope) x && beyond (some last) x.0.1.1))
          m
  from_last last [] = tt
  from_last last ((id, entry) ∷ m) = (
    ground (
      arith,
      tenant_ord.cmp_flip scope.tenant_id id.0,
      namespace_ord.cmp_flip scope.namespace id.1.0,
    ),
    from_last last m,
  )

  entries_after-listed :
      (last : Option ObjectKey) (m : Map Identity Entry)
      → IsSorted m
      → Every HasKey m
      → keep_if (inside scope) (entries_after scope last m) ≡ listed last m
  unfolding entries_after
  entries_after-listed none m s h =
      rw (from_included-keep_if (identity scope minimum_key) m s)
        (keep_if-keep_if (inside scope) _ _ m (from_minimum m h))
  entries_after-listed (some last) m s h =
      rw (from_excluded-keep_if (identity scope last) m s)
        (keep_if-keep_if (inside scope) _ _ m (from_last last m))

  entries_after-Reaches :
      (last : Option ObjectKey) (m : Map Identity Entry)
      → IsSorted m
      → Every (Reaches scope) (entries_after scope last m)
  unfolding entries_after
  entries_after-Reaches none m s =
      rw (from_included-keep_if (identity scope minimum_key) m s)
        (Every-kept (Reaches scope) _ m (λ id entry h. λ p. ground arith))
  entries_after-Reaches (some last) m s = rw (from_excluded-keep_if (identity scope last) m s) (
      Every-kept (Reaches scope) _ m (λ id entry h. λ p. ground (
        arith,
        tenant_ord.cmp_flip scope.tenant_id id.0,
        namespace_ord.cmp_flip scope.namespace id.1.0,
      )))

  entries_after-FitsSize :
      (last : Option ObjectKey) (m : Map Identity Entry)
      → IsSorted m
      → Every FitsSize m
      → Every FitsSize (entries_after scope last m)
  unfolding entries_after
  entries_after-FitsSize none m s h =
      rw (from_included-keep_if (identity scope minimum_key) m s) (Every-keep_if FitsSize _ m h)
  entries_after-FitsSize (some last) m s h =
      rw (from_excluded-keep_if (identity scope last) m s) (Every-keep_if FitsSize _ m h)

  entries_after-IsSorted :
      (last : Option ObjectKey) (m : Map Identity Entry)
      → IsSorted m
      → IsSorted (entries_after scope last m)
  unfolding entries_after
  entries_after-IsSorted none m s = from_included-IsSorted (identity scope minimum_key) m s
  entries_after-IsSorted (some last) m s = from_excluded-IsSorted (identity scope last) m s

  -- Of a store with a healthy lock, sorted objects, nonempty keys and sizes under 2^32, `list`
  -- with a limit under 2^32 answers the metadata of the first `limit` entries of the scope beyond
  -- the given key, in key order, says that there are more exactly if more such entries exist, and
  -- leaves the store as it was.
  pub list_exact :
      (request : ListRequest) (s : LocalObjectStore)
      → s.poisoned ≡ false
      → IsSorted s.state.objects
      → Every HasKey s.state.objects
      → Every FitsSize s.state.objects
      → request.limit.value < 2 ^ 32
      → list scope request s ≡ (
        ok (record {
          objects = map item (take request.limit.value (listed request.after_key s.state.objects));
          has_more = ltb request.limit.value (length (listed request.after_key s.state.objects));
        }),
        s,
      )
  unfolding list as_usize
  list_exact request s healthy sorted keyed small limit = ground (
    arith,
    entries_after-listed request.after_key s.state.objects sorted keyed,
    scan_exact scope request.limit.value request.limit.value []
        (entries_after scope request.after_key s.state.objects)
        (entries_after-IsSorted request.after_key s.state.objects sorted)
        (entries_after-Reaches request.after_key s.state.objects sorted)
        (entries_after-FitsSize request.after_key s.state.objects sorted small),
  )
