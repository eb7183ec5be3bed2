-- ===== src/ShimIpcp/ArpCache/Refresh.antt =====
-- `vARPCacheRefresh` of components/ShimIPCP/cache.c. Its row indices are signed: `none` is -1.
use rinasense.Base.{
  ℕ, ◌+◌, ◌≡◌, ◌∙◌, refl, ap, Bool, true, false, not, ◌&&◌, Option, none, some, List, [], ◌∷◌, ◌++◌,
  if◌then◌else◌, ◌==◌, ltb, length, set, get_elem?, get_elem?-middle, set-middle, All, arith,
  Bool-cases, inl, inr,
}
use rinasense.Common.Gpha.{Gpa, Gha, made, null, fault, gpa_cmp, gha_cmp, dup_gpa, dup_gha}
use rinasense.ShimIpcp.ArpCache.{Row, ArpCache, Memory, zero_row}

-- `CFG_MAX_ARP_AGE` and `CFG_MAX_ARP_RETRANSMISSIONS`
abbrev max_arp_age : ℕ
max_arp_age = 5

abbrev max_arp_retransmissions : ℕ
max_arp_retransmissions = 5

-- `xIpcpEntry`, `xMacEntry`, `xUseEntry` and `ucMinAgeFound`
pub record Search : Type 0 where
  pub ipcp : Option ℕ
  pub mac : Option ℕ
  pub use_entry : ℕ
  pub min_age : Option ℕ

abbrev search_start : Search
search_start = record { ipcp = none; mac = none; use_entry = 0; min_age = none }

-- How a round of the loop goes on: to the next row, to `break`, or to `return`.
pub data Round : Type 0 where
  next : Search → Round
  leave : Search → Round
  refreshed : ℕ → Round

-- `ucAge < ucMinAgeFound`
abbrev below : ℕ → Option ℕ → Bool
below age none = false
below age (some m) = ltb age m

abbrev same_mac : Option Gha → Option Gha → Bool
same_mac row_ha none = false
same_mac row_ha (some ha) = gha_cmp row_ha (some ha)

abbrev missing : Option Gha → Bool
missing none = true
missing (some ha) = false

-- The body of the loop, at row `x`.
unfoldable pub round : Option Gpa → Option Gha → ℕ → Row → Search → Round
round pa ha x r s =
    if gpa_cmp r.px_pa pa
    then if missing ha
      then leave (record s { ipcp = some x })
      else if same_mac r.px_ha ha
      then refreshed x
      else next (record s { ipcp = some x })
    else if same_mac r.px_ha ha
    then next (record s { mac = some x })
    else if below r.uc_age s.min_age
    then next (record s { min_age = some r.uc_age; use_entry = x })
    else next s

unfoldable pub search_rows : Option Gpa → Option Gha → ℕ → List Row → Search → Round
search_rows pa ha x [] s = leave s
search_rows pa ha x (r ∷ rows) s = elim (round pa ha x r s) [
  | next s' ↦ search_rows pa ha (x + 1) rows s'
  | leave s' ↦ leave s'
  | refreshed k ↦ refreshed k
]

-- What a call leaves: the rows, or an access to the row before the table.
pub data Refreshed : Type 0 where
  rows : List Row → Refreshed
  out_of_bounds : Refreshed

update_row : List Row → ℕ → (Row → Row) → List Row
update_row table k f = elim (get_elem? table k) [ none ↦ table | some r ↦ set table k (f r) ]

abbrev is_char_max : ℕ → Option ℕ → Bool
is_char_max char_max none = false
is_char_max char_max (some k) = k == char_max

-- The row to use, with the rows after the entry of the address is cleared; `none` for an access
-- before the table.
choose : (char_max : ℕ) → Search → List Row → Option (List Row × Option ℕ)
choose char_max s table = elim s.mac [
  | some m ↦
      if not (is_char_max char_max s.ipcp)
      then elim s.ipcp [ none ↦ none | some k ↦ some (set table k zero_row, some m) ]
      else some (table, some m)
  | none ↦
      if not (is_char_max char_max s.ipcp)
      then some (table, s.ipcp)
      else some (table, some s.use_entry)
]

-- A write to row `k` of the table.
write_row : List Row → Option ℕ → (Row → Row) → Option (List Row)
unfolding update_row
write_row table none f = none
write_row table (some k) f = some (update_row table k f)

abbrev as_rows : Option (List Row) → Refreshed
as_rows none = out_of_bounds
as_rows (some table) = rows table

-- The end of the function, from `if (pxHa != NULL)` on.
finish_ha : Memory → Option Gha → Search → List Row → Option ℕ → Refreshed
unfolding write_row
finish_ha mem none s table k = elim s.ipcp [
  | none ↦
      as_rows (write_row table k (λ r. record r { uc_age = max_arp_retransmissions; uc_valid = 0 }))
  | some _ ↦ rows table
]
finish_ha mem (some ha) s table k = elim (dup_gha mem.gha ha) [
  | null ↦ rows table
  | fault ↦ out_of_bounds
  | made new_ha ↦ as_rows (
      write_row table k (λ r. record r { px_ha = some new_ha; uc_age = max_arp_age; uc_valid = 1 }))
]

finish_pa : Memory → Option Gpa → Option Gha → Search → List Row → Option ℕ → Refreshed
unfolding finish_ha
finish_pa mem none ha s table k = finish_ha mem ha s table k
finish_pa mem (some pa) ha s table k = elim (dup_gpa mem.gpa_struct mem.gpa_bytes pa true 0) [
  | null ↦ rows table
  | fault ↦ out_of_bounds
  | made new_pa ↦ elim (write_row table k (λ r. record r { px_pa = some new_pa })) [
    | none ↦ out_of_bounds
    | some table' ↦ finish_ha mem ha s table' k
  ]
]

finish : (char_max : ℕ) → Memory → Option Gpa → Option Gha → Search → List Row → Refreshed
unfolding choose finish_pa
finish char_max mem pa ha s table = elim (choose char_max s table) [
  | none ↦ out_of_bounds
  | some (table', k) ↦ finish_pa mem pa ha s table' k
]

unfoldable pub refresh : (char_max : ℕ) → Memory → ArpCache → Option Gpa → Option Gha → Refreshed
unfolding finish search_rows round update_row
refresh char_max mem c pa ha = elim (search_rows pa ha 0 c.px_rows search_start) [
  | next s ↦ finish char_max mem pa ha s c.px_rows
  | leave s ↦ finish char_max mem pa ha s c.px_rows
  | refreshed k ↦
      rows (update_row c.px_rows k (λ r. record r { uc_age = max_arp_age; uc_valid = 1 }))
]

module _ (pa : Option Gpa) (ha : Option Gha) (x : ℕ) (r : Row) (table : List Row) (s : Search) where
  search-next :
      {s' : Search}
      → round pa ha x r s ≡ next s'
      → search_rows pa ha x (r ∷ table) s ≡ search_rows pa ha (x + 1) table s'
  unfolding search_rows
  search-next e = ground arith

  search-refreshed :
      (k : ℕ) → round pa ha x r s ≡ refreshed k → search_rows pa ha x (r ∷ table) s ≡ refreshed k
  unfolding search_rows
  search-refreshed k e = ground arith

module _ (char_max : ℕ) (mem : Memory) (c : ArpCache) (pa : Option Gpa) (ha : Option Gha) where
  refresh-leave :
      (s : Search)
      → search_rows pa ha 0 c.px_rows search_start ≡ leave s
      → refresh char_max mem c pa ha ≡ finish char_max mem pa ha s c.px_rows
  unfolding refresh
  refresh-leave s e = ground arith

  refresh-refreshed :
      (k : ℕ)
      → search_rows pa ha 0 c.px_rows search_start ≡ refreshed k
      → refresh char_max mem c pa ha
        ≡ rows (update_row c.px_rows k (λ r. record r { uc_age = max_arp_age; uc_valid = 1 }))
  unfolding refresh
  refresh-refreshed k e = ground arith

module _ (pa : Gpa) (ha : Option Gha) where
  abbrev Unknown : Row → Type 0
  Unknown r = gpa_cmp r.px_pa (some pa) ≡ false

  round-Unknown :
      (x : ℕ) (r : Row) (s : Search)
      → Unknown r
      → s.ipcp ≡ none
      → (s' : Search) × (round (some pa) ha x r s ≡ next s') × (s'.ipcp ≡ none)
  unfolding round
  round-Unknown x r s u e = elim (Bool-cases (same_mac r.px_ha ha)) [
    | inl hit ↦ (record s { mac = some x }, rw (u, hit), e)
    | inr away ↦ elim (Bool-cases (below r.uc_age s.min_age)) [
      | inl older ↦ (record s { min_age = some r.uc_age; use_entry = x }, rw (u, away, older), e)
      | inr newer ↦ (s, rw (u, away, newer), e)
    ]
  ]

  -- A search that meets no row with the address leaves the loop with no entry for it.
  search_rows-Unknown :
      (table : List Row) (x : ℕ) (s : Search)
      → All Unknown table
      → s.ipcp ≡ none
      → (s' : Search) × (search_rows (some pa) ha x table s ≡ leave s') × (s'.ipcp ≡ none)
  search_rows-Unknown [] x s u e = (s, unfold search_rows in refl, e)
  search_rows-Unknown (r ∷ table) x s u e =
      let (s1, step, kept) = round-Unknown x r s u.0 e in
      let (s2, left, gone) = search_rows-Unknown table (x + 1) s1 u.1 kept in
      (s2, search-next (some pa) ha x r table s step ∙ left, gone)

  -- `vARPCacheRefresh` of an address that no row of the cache holds accesses the row before the
  -- table, whether or not the hardware address is known, once the address has been copied: it
  -- can never add an entry.
  pub refresh-Unknown :
      (char_max : ℕ) (mem : Memory) (c : ArpCache) (pa' : Gpa)
      → All Unknown c.px_rows
      → dup_gpa mem.gpa_struct mem.gpa_bytes pa true 0 ≡ made pa'
      → refresh char_max mem c (some pa) ha ≡ out_of_bounds
  refresh-Unknown char_max mem c pa' u dup =
      let (s, left, gone) = search_rows-Unknown c.px_rows 0 search_start u refl in
      refresh-leave char_max mem c (some pa) ha s left ∙ lost s gone
    where
      lost :
          (s : Search)
          → s.ipcp ≡ none
          → finish char_max mem (some pa) ha s c.px_rows ≡ out_of_bounds
      lost s gone = unfold finish in (ground (arith, gone, dup))

module _ (pa : Gpa) (h : Gha) where
  -- The rows before an entry that is refreshed: none of them has both addresses.
  abbrev NotBoth : Row → Type 0
  NotBoth r = (gpa_cmp r.px_pa (some pa) && gha_cmp r.px_ha (some h)) ≡ false

  round-NotBoth :
      (x : ℕ) (r : Row) (s : Search)
      → NotBoth r
      → (s' : Search) × (round (some pa) (some h) x r s ≡ next s')
  unfolding round
  round-NotBoth x r s n = elim (Bool-cases (gpa_cmp r.px_pa (some pa))) [
    | inl hit ↦ (record s { ipcp = some x }, ground (arith, hit, n))
    | inr miss ↦ elim (Bool-cases (gha_cmp r.px_ha (some h))) [
      | inl mac ↦ (record s { mac = some x }, ground (arith, miss, mac))
      | inr away ↦ elim (Bool-cases (below r.uc_age s.min_age)) [
        | inl older ↦ (record s { min_age = some r.uc_age; use_entry = x }, rw (miss, away, older))
        | inr newer ↦ (s, rw (miss, away, newer))
      ]
    ]
  ]

  search_rows-refreshed :
      (before : List Row) (r : Row) (after : List Row) (x k : ℕ) (s : Search)
      → All NotBoth before
      → gpa_cmp r.px_pa (some pa) ≡ true
      → gha_cmp r.px_ha (some h) ≡ true
      → k ≡ x + length before
      → search_rows (some pa) (some h) x (before ++ (r ∷ after)) s ≡ refreshed k
  search_rows-refreshed [] r after x k s n p m e =
      let here : k ≡ x = omega arith in
      search-refreshed (some pa) (some h) x r after s k (unfold round in (rw (p, m, here)))
  search_rows-refreshed (b ∷ before) r after x k s n p m e =
      let (s1, step) = round-NotBoth x b s n.0 in
      search-next (some pa) (some h) x b (before ++ (r ∷ after)) s step
      ∙ search_rows-refreshed before r after (x + 1) k s1 n.1 p m (omega arith)

  update-middle :
      (before : List Row) (r : Row) (after : List Row) (f : Row → Row)
      → update_row (before ++ (r ∷ after)) (length before) f ≡ before ++ (f r ∷ after)
  unfolding update_row
  update-middle before r after f =
      ground (arith, get_elem?-middle before r after, set-middle before r (f r) after)

  -- `vARPCacheRefresh` of a pair that the cache holds resets the age of its first row with both
  -- addresses, marks it valid, and changes nothing else.
  pub refresh-known :
      (char_max : ℕ) (mem : Memory) (e_type : ℕ) (before : List Row) (r : Row) (after : List Row)
      → All NotBoth before
      → gpa_cmp r.px_pa (some pa) ≡ true
      → gha_cmp r.px_ha (some h) ≡ true
      → refresh char_max mem
          (record { e_type = e_type; px_rows = before ++ (r ∷ after) })
          (some pa)
          (some h)
        ≡ rows (before ++ (record r { uc_age = max_arp_age; uc_valid = 1 } ∷ after))
  refresh-known char_max mem e_type before r after n p m =
      refresh-refreshed char_max mem _ (some pa) (some h) (length before)
        (search_rows-refreshed before r after 0 (length before) search_start n p m (omega arith))
      ∙ ap rows
          (update-middle before r after (λ r. record r { uc_age = max_arp_age; uc_valid = 1 }))
