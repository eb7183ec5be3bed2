-- ===== src/ShimIpcp/ArpCache/Remove.antt =====
-- `xARPCacheRemove`, `pxARPCacheCreate` and `vARPRemoveAll`.
use rinasense.Base.{
  ℕ, zero, suc, ◌≡◌, refl, true, false, not, ◌&&◌, Option, none, some, List, [], ◌∷◌, if◌then◌else◌,
  ◌==◌, arith, Bool-cases, inl, inr, All, length-replicate, replicate, length,
}
use rinasense.Common.Gpha.{Gpa, Gha, gpa_cmp, is_gpa_ok}
use rinasense.Common.Gpha
use rinasense.Common.Gpha.Compare.{useful}
use rinasense.ShimIpcp.ArpCache.{
  Row, ArpCache, IsRow, clear, holds, zero_row, free_matching, lookup_gha, remove, remove_all,
  create, IsValid,
}
use rinasense.ShimIpcp.ArpCache.Rows.{entries, table_erase, gpa_cmp-same_bytes, table_lookup-erase}
use rinasense.ShimIpcp.ArpCache.Lookup.{lookup_gha-table_lookup}

module _ (pa : Gpa) (vp : Gpha.IsValid pa) where
  free_matching-IsRow :
      (rows : List Row) → All IsRow rows → All IsRow (free_matching (some pa) rows)
  unfolding free_matching
  free_matching-IsRow [] v = tt
  free_matching-IsRow (r ∷ rows) v = (kept v.0, free_matching-IsRow rows v.1)
    where
      kept :
          {r : Row}
          → IsRow r
          → IsRow (if not (r.uc_valid == 0) && gpa_cmp r.px_pa (some pa) then zero_row else r)
      kept clear = clear
      kept (holds {pa = p} {ha} v) = elim (Bool-cases (gpa_cmp (some p) (some pa))) [
        | inl hit ↦ rw hit clear
        | inr miss ↦ rw miss (holds v)
      ]

  erase-cons :
      {r : Row} (rows : List Row)
      → IsRow r
      → entries (free_matching (some pa) rows) ≡ table_erase (useful pa) (entries rows)
      → entries (free_matching (some pa) (r ∷ rows)) ≡ table_erase (useful pa) (entries (r ∷ rows))
  unfolding free_matching entries table_erase
  erase-cons rows clear ih = ih
  erase-cons rows (holds {pa = p} {ha} v) ih = ground (arith, gpa_cmp-same_bytes p pa v vp, ih)

  entries-free_matching :
      (rows : List Row)
      → All IsRow rows
      → entries (free_matching (some pa) rows) ≡ table_erase (useful pa) (entries rows)
  entries-free_matching [] v = unfold free_matching entries table_erase in refl
  entries-free_matching (r ∷ rows) v = erase-cons rows v.0 (entries-free_matching rows v.1)

  -- `xARPCacheRemove` of a usable address succeeds, keeps the cache valid, and erases exactly
  -- the entries with the address's useful bytes from the table.
  pub remove-table_erase :
      (c : ArpCache)
      → IsValid c
      → let (done, c') = remove c (some pa) in
        (done ≡ true)
        × IsValid c'
        × (entries c'.px_rows ≡ table_erase (useful pa) (entries c.px_rows))
  unfolding remove
  remove-table_erase c v =
      rw vp.usable (refl, free_matching-IsRow c.px_rows v, entries-free_matching c.px_rows v)

  -- After `xARPCacheRemove`, a lookup of an address that compares equal finds nothing, and every
  -- other lookup finds what it found before.
  pub lookup_gha-remove :
      (c : ArpCache) (q : Gpa)
      → IsValid c
      → Gpha.IsValid q
      → lookup_gha (remove c (some pa)).1 (some q)
        ≡ (if gpa_cmp (some pa) (some q) then none else lookup_gha c (some q))
  lookup_gha-remove c q v vq =
      let law = remove-table_erase c v in
      rw (
        lookup_gha-table_lookup q vq (remove c (some pa)).1 law.1,
        law.2,
        table_lookup-erase (useful pa) (useful q) (entries c.px_rows),
        gpa_cmp-same_bytes pa q vp vq,
        lookup_gha-table_lookup q vq c v,
      )

-- `xARPCacheRemove` of an unusable address fails and changes nothing.
pub remove-unusable :
    (c : ArpCache) (pa : Option Gpa) → is_gpa_ok pa ≡ false → remove c pa ≡ (false, c)
unfolding remove
remove-unusable c pa e = rw e

clear_rows : (n : ℕ) → All IsRow (replicate n zero_row) × (entries (replicate n zero_row) ≡ [])
unfolding entries
clear_rows zero = (tt, refl)
clear_rows (suc n) = ((clear, (clear_rows n).0), (clear_rows n).1)

-- A cache that `pxARPCacheCreate` makes, and one that `vARPRemoveAll` has cleared, is valid and
-- holds no entry; the clearing keeps the number of rows.
pub create-remove_all_clear :
    (e_type n : ℕ) (c : ArpCache)
    → let fresh = create true e_type n in
      let cleared = remove_all c in
      ((c' : ArpCache) × (fresh ≡ some c')
        × IsValid c'
        × (entries c'.px_rows ≡ [])
        × (length c'.px_rows ≡ n))
      × IsValid cleared
      × (entries cleared.px_rows ≡ [])
      × (length cleared.px_rows ≡ length c.px_rows)
unfolding create remove_all
create-remove_all_clear e_type n c =
    let made : ArpCache = record { e_type = e_type; px_rows = replicate n zero_row } in
    (
      (made, refl, (clear_rows n).0, (clear_rows n).1, length-replicate n zero_row),
      (clear_rows (length c.px_rows)).0,
      (clear_rows (length c.px_rows)).1,
      length-replicate (length c.px_rows) zero_row,
    )
