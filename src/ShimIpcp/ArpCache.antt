-- ===== src/ShimIpcp/ArpCache.antt =====
-- components/ShimIPCP/cache.c: the table that maps protocol addresses to hardware addresses.
-- The build is the one with NDEBUG, where nothing is printed. The flags of an operation say which
-- of its allocations succeed.
pub mod Rows
pub mod Lookup
pub mod Add
pub mod Room
pub mod Remove
pub mod Refresh
use rinasense.Base.{
  ℕ, zero, suc, ◌+◌, ◌≡◌, ◌≢◌, ◌⊎◌, Bool, true, false, not, ◌&&◌, Option, none, some, List, [], ◌∷◌,
  if◌then◌else◌, ◌==◌, ltb, length, replicate, set, get_elem?, is_some, All,
}
use rinasense.Common.Gpha.{
  Gpa, Gha, Made, made, null, fault, gpa_cmp, gha_cmp, is_gpa_ok, dup_gpa, dup_gha,
}
use rinasense.Common.Gpha

-- `struct ARPCacheRow`
pub record Row : Type 0 where
  pub px_pa : Option Gpa
  pub px_ha : Option Gha
  pub uc_age : ℕ
  pub uc_valid : ℕ

abbrev pub zero_row : Row
zero_row = record { px_pa = none; px_ha = none; uc_age = 0; uc_valid = 0 }

-- `struct ARPCache`; the length of `px_rows` is `nEntries`.
pub record ArpCache : Type 0 where
  pub e_type : ℕ
  pub px_rows : List Row

-- `pxARPCacheCreate`
unfoldable pub create : (memory : Bool) → ℕ → ℕ → Option ArpCache
create memory e_type n_entries =
    if not memory
    then none
    else some (record { e_type = e_type; px_rows = replicate n_entries zero_row })

-- `vARPRemoveAll`
unfoldable pub remove_all : ArpCache → ArpCache
remove_all c = record c { px_rows = replicate (length c.px_rows) zero_row }

-- `ARPCacheHandle`, as `xARPCacheAdd` fills it.
pub data Handle : Type 0 where
  invalid_handle : Handle
  handle_true : Handle
  handle_false : Handle
  overrun : Handle

-- The loop of `xARPCacheAdd`; `none` when no row is free.
unfoldable pub store_row : Gpa → Gha → List Row → Option (List Row)
store_row pa ha [] = none
store_row pa ha (r ∷ rows) =
    if r.uc_valid == 0
    then some (record { px_pa = some pa; px_ha = some ha; uc_age = 1; uc_valid = 1 } ∷ rows)
    else elim (store_row pa ha rows) [ none ↦ none | some rest ↦ some (r ∷ rest) ]

store : ArpCache → Gpa → Gha → Handle × ArpCache
unfolding store_row
store c pa ha = elim (store_row pa ha c.px_rows) [
  | none ↦ (handle_false, c)
  | some rows ↦ (handle_true, record c { px_rows = rows })
]

-- Which allocations of an addition succeed.
pub record Memory : Type 0 where
  pub gpa_struct : Bool
  pub gpa_bytes : Bool
  pub gha : Bool

-- `xARPCacheAdd`
unfoldable pub add : Memory → ArpCache → Gpa → Gha → Handle × ArpCache
unfolding store
add mem c pa ha = elim (dup_gpa mem.gpa_struct mem.gpa_bytes pa true 0) [
  | null ↦ (invalid_handle, c)
  | fault ↦ (overrun, c)
  | made dup_pa ↦ elim (dup_gha mem.gha ha) [
    | null ↦ (invalid_handle, c)
    | fault ↦ (overrun, c)
    | made dup_ha ↦ store c dup_pa dup_ha
  ]
]

abbrev pub is_valid_row : Row → Bool
is_valid_row r = not (r.uc_valid == 0)

-- The loop of `xARPCacheRemove`.
unfoldable pub free_matching : Option Gpa → List Row → List Row
free_matching pa [] = []
free_matching pa (r ∷ rows) =
    (if is_valid_row r && gpa_cmp r.px_pa pa then zero_row else r) ∷ free_matching pa rows

-- `xARPCacheRemove`
unfoldable pub remove : ArpCache → Option Gpa → Bool × ArpCache
unfolding free_matching
remove c pa =
    if not (is_gpa_ok pa)
    then (false, c)
    else (true, record c { px_rows = free_matching pa c.px_rows })

-- `xARPCacheRemoveHandle`. The handle is a signed number, and `none` is -1, which is below
-- `nEntries` too: the row before the table.
unfoldable pub remove_handle : ArpCache → Option ℕ → Option (Bool × ArpCache)
remove_handle c none = none
remove_handle c (some n) =
    some (
      true,
      if ltb n (length c.px_rows) then record c { px_rows = set c.px_rows n zero_row } else c,
    )

-- `eARPLookupResult_t`
pub data LookupResult : Type 0 where
  cache_miss cache_hit cant_send_packet : LookupResult

-- The loop of `eARPCacheLookupGPA`, with what it stores through `pxGhaResult`.
unfoldable pub lookup_rows : Option Gpa → List Row → LookupResult × Option Gha
lookup_rows pa [] = (cache_miss, none)
lookup_rows pa (r ∷ rows) =
    let rest = lookup_rows pa rows in
    if r.uc_age == 0
    then rest
    else if gpa_cmp r.px_pa pa
    then (if r.uc_valid == 0 then (cant_send_packet, none) else (cache_hit, r.px_ha))
    else rest

-- `eARPCacheLookupGPA`
unfoldable pub lookup_gpa : ArpCache → Option Gpa → LookupResult × Option Gha
unfolding lookup_rows
lookup_gpa c pa = lookup_rows pa c.px_rows

-- The loop of `pxARPCacheLookupGHA`.
unfoldable pub find_gha : Option Gpa → List Row → Option Gha
find_gha pa [] = none
find_gha pa (r ∷ rows) =
    let rest = find_gha pa rows in
    if ltb 0 r.uc_age then (if gpa_cmp r.px_pa pa then r.px_ha else rest) else rest

-- `pxARPCacheLookupGHA`
unfoldable pub lookup_gha : ArpCache → Option Gpa → Option Gha
unfolding find_gha
lookup_gha c pa = if not (is_gpa_ok pa) then none else find_gha pa c.px_rows

-- A row is either clear or holds two usable addresses. `xARPCacheAdd` and the removals keep this.
pub data IsRow : Row → Type 0 where
  clear : IsRow zero_row
  holds :
      {pa : Gpa} {ha : Gha}
      → Gpha.IsValid pa
      → IsRow (record { px_pa = some pa; px_ha = some ha; uc_age = 1; uc_valid = 1 })

abbrev pub IsValid : ArpCache → Type 0
IsValid c = All IsRow c.px_rows
