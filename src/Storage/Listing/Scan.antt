-- ===== src/Storage/Listing/Scan.antt =====
-- The loop of `list` over a sorted range takes a prefix of the entries in the scope.
use rust_factory.Common.{
  zero, suc, ℕ, ◌+◌, ◌^◌, ◌<◌, ◌≡◌, ◌≢◌, Bool, false, not, List, [], ◌∷◌, ◌++◌, map, lt, gt, lex,
  length, take, keep_if, All, ok, arith, ltb, pair_ord, list_ord, nat_ord, length-append, Ordering,
}
use mathlib.Core.List.{append_assoc, append-nil}
use rust_factory.TreeMap.{Map, Below, IsSorted}
use rust_factory.TreeMap.Every.{Every}
use rust_factory.Storage.Model.{tenant_ord, namespace_ord, key_ord, StorageScope, ObjectMetadata}
use rust_factory.Storage.Local.{Identity, Entry}
use rust_factory.Storage.Listing.{metadata, outside, scan}
use rust_factory.Storage.Listing.Ranges.{keep_if-none}

abbrev pub item : Identity × Entry → ObjectMetadata
item x = record { key = x.0.1.1; version = x.1.version; size_bytes = length x.1.value.bytes }

-- The size of a value fits the page's `u32`.
abbrev pub FitsSize : Identity → Entry → Type 0
FitsSize id entry = length entry.value.bytes < 2 ^ 32

module _ (scope : StorageScope) where
  -- Where an entry stands to the entries of the scope.
  abbrev pub side : Identity → Ordering
  side id = lex (tenant_ord.cmp id.0 scope.tenant_id) (namespace_ord.cmp id.1.0 scope.namespace)

  abbrev pub inside : Identity × Entry → Bool
  inside x = not (outside scope x.0)

  abbrev pub Reaches : Identity → Entry → Type 0
  Reaches id entry = side id ≢ lt

  side_past : (id id' : Identity) → pair_ord.cmp id id' ≡ lt → side id ≡ gt → side id' ≡ gt
  side_past id id' h g = grind (
    arith,
    tenant_ord.cmp_flip scope.tenant_id id.0,
    tenant_ord.cmp_flip scope.tenant_id id'.0,
    namespace_ord.cmp_flip scope.namespace id.1.0,
    namespace_ord.cmp_flip scope.namespace id'.1.0,
    tenant_ord.eq_of_cmp id.0 id'.0,
    tenant_ord.eq_of_cmp id.0 scope.tenant_id,
    namespace_ord.eq_of_cmp id.1.0 id'.1.0,
    tenant_ord.cmp_trans scope.tenant_id id.0 id'.0,
    namespace_ord.cmp_trans scope.namespace id.1.0 id'.1.0,
  )

  All-outside :
      (id : Identity) (m : Map Identity Entry)
      → side id ≡ gt
      → Below id m
      → All (λ x. inside x ≡ false) m
  All-outside id [] g b = tt
  All-outside id ((id', entry) ∷ m) g b =
      (ground (arith, side_past id id' b.0 g), All-outside id m g b.1)

  -- The scan of a sorted range that starts at the scope or beyond, with room for `left` more.
  pub scan_exact :
      (limit left : ℕ) (page : List ObjectMetadata) (m : Map Identity Entry)
      → IsSorted m
      → Every Reaches m
      → Every FitsSize m
      → limit ≡ length page + left
      → scan scope limit page m
        ≡ ok (record {
          objects = page ++ map item (take left (keep_if inside m));
          has_more = ltb left (length (keep_if inside m));
        })
  unfolding scan metadata
  scan_exact limit zero page [] s r f h = ground (arith, append-nil page)
  scan_exact limit (suc left) page [] s r f h = ground (arith, append-nil page)
  scan_exact limit zero page ((id, entry) ∷ m) s r f h =
      ground (arith, append-nil page, All-outside id m, keep_if-none inside m)
  scan_exact limit (suc left) page ((id, entry) ∷ m) s r f h = ground (
    arith,
    append-nil page,
    All-outside id m,
    keep_if-none inside m,
    length-append page (item (id, entry) ∷ []),
    append_assoc page (item (id, entry) ∷ []) (map item (take left (keep_if inside m))),
    scan_exact limit left (page ++ item (id, entry) ∷ []) m s.1 r.1 f.1,
  )
