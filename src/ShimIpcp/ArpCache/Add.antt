-- ===== src/ShimIpcp/ArpCache/Add.antt =====
-- `xARPCacheAdd`.
use mathlib.Core.List.{Perm}
use mathlib.Core.List.Perm
use rinasense.Base.{
  ℕ, suc, ◌<◌, ◌≢◌, get_or, ◌≡◌, ◌∙◌, subst, refl, Bool, true, false, none, some, List, [], ◌∷◌,
  if◌then◌else◌, ◌==◌, arith, Bool-cases, inl, inr, All, length, ap,
}
use rinasense.Common.Gpha.{Gpa, Gha, gpa_cmp, is_gpa_ok, dup_gpa, dup_gha, made, IsGha, bytes}
use rinasense.Common.Gpha
use rinasense.Common.Gpha.Compare.{useful}
use rinasense.Common.Gpha.Resize.{dup_gpa-useful, dup_gpa-made, dup_gpa-gpa_cmp, dup_gha-made}
use rinasense.ShimIpcp.ArpCache.{
  Row, ArpCache, IsRow, clear, holds, zero_row, store_row, store, add, Memory, handle_true,
  handle_false, IsValid, lookup_gha, find_gha,
}
use rinasense.ShimIpcp.ArpCache.Rows.{entries}

abbrev row_for : Gpa → Gha → Row
row_for pa ha = record { px_pa = some pa; px_ha = some ha; uc_age = 1; uc_valid = 1 }

-- Some row is free.
abbrev pub has_room : List Row → Bool
has_room [] = false
has_room (r ∷ rows) = if r.uc_valid == 0 then true else has_room rows

-- What a row table looks like once `pa` and `ha` are stored.
pub record Stored (pa : Gpa) (ha : Gha) (rows rows' : List Row) : Type 0 where
  pub valid : All IsRow rows'
  pub perm : Perm (entries rows') ((useful pa, ha) ∷ entries rows)
  pub size : length rows' ≡ length rows
  pub other :
      (q : Gpa)
      → gpa_cmp (some pa) (some q) ≡ false
      → find_gha (some q) rows' ≡ find_gha (some q) rows
  pub new :
      (q : Gpa)
      → gpa_cmp (some pa) (some q) ≡ true
      → find_gha (some q) rows ≡ none
      → find_gha (some q) rows' ≡ some ha

module _ (pa : Gpa) (ha : Gha) (vp : Gpha.IsValid pa) where
  -- The outcome of the loop over a table with room.
  abbrev Stores : List Row → Type 0
  Stores rows = (rows' : List Row) × (store_row pa ha rows ≡ some rows') × Stored pa ha rows rows'

  store_row-clear : (rows : List Row) → All IsRow rows → Stores (zero_row ∷ rows)
  unfolding store_row entries find_gha
  store_row-clear rows v = (
    row_for pa ha ∷ rows,
    refl,
    record {
      valid = (holds vp, v);
      perm = Perm.refl _;
      size = refl;
      other = λ q e. rw e;
      new = λ q e _. rw e;
    },
  )

  store_row-holds :
      {p : Gpa} {h : Gha} (rows : List Row)
      → Gpha.IsValid p
      → Stores rows
      → Stores (row_for p h ∷ rows)
  unfolding store_row entries find_gha
  store_row-holds {p} {h} rows vr (rows', e, s) = (
    row_for p h ∷ rows',
    rw e,
    record {
      valid = (holds vr, s.valid);
      perm =
          Perm.trans (Perm.cons (useful p, h) s.perm)
            (Perm.swap (useful pa, ha) (useful p, h) (entries rows));
      size = ap suc s.size;
      other = λ q ne. rw (s.other q ne);
      new = λ q eq miss. elim (Bool-cases (gpa_cmp (some p) (some q))) [
        | inl hit ↦ absurd (cc (rw hit at miss))
        | inr away ↦ rw away (s.new q eq (rw away at miss))
      ];
    },
  )

  store_row-Stored : (rows : List Row) → All IsRow rows → has_room rows ≡ true → Stores rows
  store_row-Stored [] v room = absurd (cc room)
  store_row-Stored (r ∷ rows) v room = first v.0 room (λ more. store_row-Stored rows v.1 more)
    where
      first :
          {r : Row}
          → IsRow r
          → has_room (r ∷ rows) ≡ true
          → (has_room rows ≡ true → Stores rows)
          → Stores (r ∷ rows)
      first clear room rest = store_row-clear rows v.1
      first (holds vr) room rest = store_row-holds rows vr (rest room)

store_row-full :
    (pa : Gpa) (ha : Gha) (rows : List Row) → has_room rows ≡ false → store_row pa ha rows ≡ none
unfolding store_row
store_row-full pa ha [] e = refl
store_row-full pa ha (r ∷ rows) e = ground (arith, store_row-full pa ha rows)

abbrev pub all_memory : Memory
all_memory = record { gpa_struct = true; gpa_bytes = true; gha = true }

add-store :
    (c : ArpCache) (pa pa' : Gpa) (ha : Gha)
    → dup_gpa true true pa true 0 ≡ made pa'
    → dup_gha true ha ≡ made ha
    → add all_memory c pa ha ≡ store c pa' ha
unfolding add
add-store c pa pa' ha e e' = ground arith

store-some :
    (c : ArpCache) (pa : Gpa) (ha : Gha) (rows : List Row)
    → store_row pa ha c.px_rows ≡ some rows
    → store c pa ha ≡ (handle_true, record c { px_rows = rows })
unfolding store
store-some c pa ha rows e = ground arith

store-none :
    (c : ArpCache) (pa : Gpa) (ha : Gha)
    → store_row pa ha c.px_rows ≡ none
    → store c pa ha ≡ (handle_false, c)
unfolding store
store-none c pa ha e = ground arith

-- Some byte of an address is not zero.
abbrev pub NotBlank : Gpa → Type 0
NotBlank g = (i : ℕ) × (i < g.ux_length) × (get_or (bytes g) i 0 ≢ 0)

module _ (c : ArpCache) (pa : Gpa) (ha : Gha) (v : IsValid c) (vp : Gpha.IsValid pa) (vh : IsGha ha)
    (nb : NotBlank pa) where
  copied : (pa' : Gpa) × (dup_gpa true true pa true 0 ≡ made pa')
  copied = dup_gpa-made pa vp 0 nb.0 nb.1 nb.2

  -- When some row is free, `xARPCacheAdd` of a usable address with a byte other than zero
  -- succeeds and keeps the cache valid and its size. The table gains the entry, up to order. A
  -- lookup of an address that compares differently finds what it found before, and one that
  -- compares equal and found nothing finds the new hardware address.
  pub add-Stored :
      has_room c.px_rows ≡ true
      → (c' : ArpCache) × (add all_memory c pa ha ≡ (handle_true, c'))
        × IsValid c'
        × Perm (entries c'.px_rows) ((useful pa, ha) ∷ entries c.px_rows)
        × (length c'.px_rows ≡ length c.px_rows)
        × ((q : Gpa)
            → Gpha.IsValid q
            → gpa_cmp (some pa) (some q) ≡ false
            → lookup_gha c' (some q) ≡ lookup_gha c (some q))
        × ((q : Gpa)
            → Gpha.IsValid q
            → gpa_cmp (some pa) (some q) ≡ true
            → lookup_gha c (some q) ≡ none
            → lookup_gha c' (some q) ≡ some ha)
  add-Stored room =
      let (pa', dup) = copied in
      let (rows', stored, s) =
        store_row-Stored pa' ha (dup_gpa-useful pa vp dup).0 c.px_rows v room in
      let same = dup_gpa-gpa_cmp pa vp dup in
      (
        record c { px_rows = rows' },
        add-store c pa pa' ha dup (dup_gha-made ha vh) ∙ store-some c pa' ha rows' stored,
        s.valid,
        subst (λ k. Perm (entries rows') ((k, ha) ∷ entries c.px_rows)) (dup_gpa-useful pa vp dup).1
            s.perm,
        s.size,
        λ q vq ne. unfold lookup_gha in (rw (vq.usable) (s.other q (same.1 q vq ∙ ne))),
        λ q vq eq miss.
            unfold lookup_gha in
            (rw (vq.usable) (s.new q (same.1 q vq ∙ eq) (rw vq.usable at miss))),
      )

  -- When no row is free, `xARPCacheAdd` returns false and changes nothing.
  pub add-full : has_room c.px_rows ≡ false → add all_memory c pa ha ≡ (handle_false, c)
  add-full room =
      add-store c pa copied.0 ha copied.1 (dup_gha-made ha vh)
      ∙ store-none c copied.0 ha (store_row-full copied.0 ha c.px_rows room)
