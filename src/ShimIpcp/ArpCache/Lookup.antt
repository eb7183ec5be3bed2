-- ===== src/ShimIpcp/ArpCache/Lookup.antt =====
-- The two lookups agree with the abstract table.
use rinasense.Base.{◌≡◌, refl, Option, none, some, List, [], ◌∷◌, arith, All}
use rinasense.Common.Gpha.{Gpa, Gha, gpa_cmp, is_gpa_ok}
use rinasense.Common.Gpha
use rinasense.Common.Gpha.Compare.{useful}
use rinasense.ShimIpcp.ArpCache.{
  Row, ArpCache, IsRow, clear, holds, find_gha, lookup_rows, lookup_gha, lookup_gpa, cache_miss,
  cache_hit, LookupResult, IsValid,
}
use rinasense.ShimIpcp.ArpCache.Rows.{entries, table_lookup, gpa_cmp-same_bytes}

-- What `eARPCacheLookupGPA` reports for what `pxARPCacheLookupGHA` finds.
abbrev pub report : Option Gha → LookupResult × Option Gha
report none = (cache_miss, none)
report (some ha) = (cache_hit, some ha)

module _ (q : Gpa) (vq : Gpha.IsValid q) where
  find-cons :
      {r : Row} (rows : List Row)
      → IsRow r
      → find_gha (some q) rows ≡ table_lookup (useful q) (entries rows)
      → find_gha (some q) (r ∷ rows) ≡ table_lookup (useful q) (entries (r ∷ rows))
  unfolding find_gha entries table_lookup
  find-cons rows clear ih = ih
  find-cons rows (holds {pa} {ha} v) ih = ground (arith, gpa_cmp-same_bytes pa q v vq)

  find_gha-table_lookup :
      (rows : List Row)
      → All IsRow rows
      → find_gha (some q) rows ≡ table_lookup (useful q) (entries rows)
  find_gha-table_lookup [] v = unfold find_gha entries table_lookup in refl
  find_gha-table_lookup (r ∷ rows) v = find-cons rows v.0 (find_gha-table_lookup rows v.1)

  -- On a valid cache and for a usable address, `pxARPCacheLookupGHA` is the lookup of the useful bytes in the table of the cache's rows.
  pub lookup_gha-table_lookup :
      (c : ArpCache)
      → IsValid c
      → lookup_gha c (some q) ≡ table_lookup (useful q) (entries c.px_rows)
  unfolding lookup_gha
  lookup_gha-table_lookup c v = rw vq.usable (find_gha-table_lookup c.px_rows v)

  lookup-cons :
      {r : Row} (rows : List Row)
      → IsRow r
      → lookup_rows (some q) rows ≡ report (find_gha (some q) rows)
      → lookup_rows (some q) (r ∷ rows) ≡ report (find_gha (some q) (r ∷ rows))
  unfolding lookup_rows find_gha
  lookup-cons rows clear ih = ih
  lookup-cons rows (holds {pa} {ha} v) ih = ground arith

  lookup_rows-report :
      (rows : List Row)
      → All IsRow rows
      → lookup_rows (some q) rows ≡ report (find_gha (some q) rows)
  lookup_rows-report [] v = unfold find_gha lookup_rows in refl
  lookup_rows-report (r ∷ rows) v = lookup-cons rows v.0 (lookup_rows-report rows v.1)

  -- `eARPCacheLookupGPA` reports a hit with the hardware address that `pxARPCacheLookupGHA`
  -- finds, and a miss when that finds none; a valid cache never answers eCantSendPacket.
  pub lookup_gpa-lookup_gha :
      (c : ArpCache) → IsValid c → lookup_gpa c (some q) ≡ report (lookup_gha c (some q))
  unfolding lookup_gpa lookup_gha
  lookup_gpa-lookup_gha c v = rw vq.usable (lookup_rows-report c.px_rows v)
