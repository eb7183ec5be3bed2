-- ===== src/ShimIpcp/Tests.antt =====
-- cache.c at concrete inputs.
use mathlib.Core.List.{Perm}
use rinasense.Base.{ℕ, ◌≡◌, refl, true, false, none, some, [], ◌∷◌, arith, length, if◌then◌else◌}
use rinasense.Common.Gpha
use rinasense.Common.Gpha.{Gpa, Gha, IsGha, gpa_cmp, is_gpa_ok, dup_gpa, dup_gha, made, gha_cmp}
use rinasense.Common.Gpha.Compare.{useful}
use rinasense.ShimIpcp.ArpCache.{
  ArpCache, Row, clear, holds, zero_row, IsValid, add, remove, remove_all, create, lookup_gha,
  lookup_gpa, handle_true, handle_false,
}
use rinasense.ShimIpcp.ArpCache.Rows.{entries, table_lookup, table_erase}
use rinasense.ShimIpcp.ArpCache.Lookup.{lookup_gha-table_lookup, lookup_gpa-lookup_gha, report}
use rinasense.ShimIpcp.ArpCache.Add.{all_memory, add-Stored, add-full, NotBlank}
use rinasense.ShimIpcp.ArpCache.Remove.{
  remove-table_erase, lookup_gha-remove, create-remove_all_clear,
}
use rinasense.ShimIpcp.ArpCache.Refresh.{
  refresh, out_of_bounds, rows, refresh-Unknown, refresh-known,
}

abbrev name : ℕ → Gpa
name b = record { puc_address = some (b ∷ b'/' ∷ []); ux_length = 2 }

abbrev mac : ℕ → Gha
mac n = record { x_type = 0; uc_bytes = 2 ∷ 0 ∷ 0 ∷ 0 ∷ 0 ∷ n ∷ [] }

abbrev entry : ℕ → ℕ → Row
entry b n = record { px_pa = some (name b); px_ha = some (mac n); uc_age = 1; uc_valid = 1 }

name-IsValid : (b : ℕ) → Gpha.IsValid (name b)
name-IsValid b = record { usable = unfold is_gpa_ok in refl; room = omega arith }

mac-IsGha : (n : ℕ) → IsGha (mac n)
mac-IsGha n = record { ethernet = refl; size = refl }

name-NotBlank : (b : ℕ) → NotBlank (name b)
name-NotBlank b = (1, omega arith, omega arith)

-- "b" is known, and one row of two is free.
abbrev half : ArpCache
half = record { e_type = 0; px_rows = entry b'b' 7 ∷ zero_row ∷ [] }

half-IsValid : IsValid half
half-IsValid = (holds (name-IsValid b'b'), (clear, tt))

abbrev full : ArpCache
full = record { e_type = 0; px_rows = entry b'b' 7 ∷ entry b'c' 8 ∷ [] }

full-IsValid : IsValid full
full-IsValid = (holds (name-IsValid b'b'), (holds (name-IsValid b'c'), tt))

add_runs : add all_memory half (name b'c') (mac 8) ≡ (handle_true, full)
unfolding add dup_gha dup_gpa
add_runs = refl

lookup_gha-table_lookup_example :
    lookup_gha half (some (name b'b')) ≡ table_lookup (useful (name b'b')) (entries half.px_rows)
lookup_gha-table_lookup_example =
    lookup_gha-table_lookup (name b'b') (name-IsValid b'b') half half-IsValid

lookup_gpa-lookup_gha_runs :
    lookup_gpa half (some (name b'b')) ≡ report (lookup_gha half (some (name b'b')))
lookup_gpa-lookup_gha_runs = lookup_gpa-lookup_gha (name b'b') (name-IsValid b'b') half half-IsValid

add-Stored_example :
    (c : ArpCache) × (add all_memory half (name b'c') (mac 8) ≡ (handle_true, c))
    × IsValid c
    × Perm (entries c.px_rows) ((useful (name b'c'), mac 8) ∷ entries half.px_rows)
    × (length c.px_rows ≡ 2)
    × ((q : Gpa)
        → Gpha.IsValid q
        → gpa_cmp (some (name b'c')) (some q) ≡ false
        → lookup_gha c (some q) ≡ lookup_gha half (some q))
    × ((q : Gpa)
        → Gpha.IsValid q
        → gpa_cmp (some (name b'c')) (some q) ≡ true
        → lookup_gha half (some q) ≡ none
        → lookup_gha c (some q) ≡ some (mac 8))
add-Stored_example =
    add-Stored half (name b'c') (mac 8) half-IsValid (name-IsValid b'c') (mac-IsGha 8)
      (name-NotBlank b'c') refl

add-full_runs : add all_memory full (name b'd') (mac 9) ≡ (handle_false, full)
add-full_runs =
    add-full full (name b'd') (mac 9) full-IsValid (name-IsValid b'd') (mac-IsGha 9)
      (name-NotBlank b'd') refl

remove-table_erase_example :
    let (done, c) = remove full (some (name b'b')) in
    (done ≡ true)
    × IsValid c
    × (entries c.px_rows ≡ table_erase (useful (name b'b')) (entries full.px_rows))
remove-table_erase_example = remove-table_erase (name b'b') (name-IsValid b'b') full full-IsValid

lookup_gha-remove_runs : lookup_gha (remove full (some (name b'b'))).1 (some (name b'c')) ≡ (
    if gpa_cmp (some (name b'b')) (some (name b'c'))
    then none
    else lookup_gha full (some (name b'c')))
lookup_gha-remove_runs =
    lookup_gha-remove (name b'b') (name-IsValid b'b') full (name b'c') full-IsValid
      (name-IsValid b'c')

clear_runs :
    ((c : ArpCache) × (create true 0 4 ≡ some c)
      × IsValid c
      × (entries c.px_rows ≡ [])
      × (length c.px_rows ≡ 4))
    × IsValid (remove_all full)
    × (entries (remove_all full).px_rows ≡ [])
    × (length (remove_all full).px_rows ≡ 2)
clear_runs = create-remove_all_clear 0 4 full

refresh-Unknown_runs : refresh 127 all_memory half (some (name b'c')) (some (mac 7)) ≡ out_of_bounds
refresh-Unknown_runs =
    refresh-Unknown (name b'c') (some (mac 7)) 127 all_memory half (name b'c')
      (unfold gpa_cmp in (refl, (refl, tt))) (unfold dup_gpa in refl)

refresh-known_runs :
    refresh 127 all_memory full (some (name b'c')) (some (mac 8))
    ≡ rows (
        entry b'b' 7
        ∷ record { px_pa = some (name b'c'); px_ha = some (mac 8); uc_age = 5; uc_valid = 1 }
        ∷ [])
refresh-known_runs =
    refresh-known (name b'c') (mac 8) 127 all_memory 0 (entry b'b' 7 ∷ []) (entry b'c' 8) []
      (unfold gpa_cmp gha_cmp in (refl, tt)) (unfold gpa_cmp in refl) (unfold gha_cmp in refl)
