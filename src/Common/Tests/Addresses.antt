-- ===== src/Common/Tests/Addresses.antt =====
-- rina_gpha.c at concrete inputs.
use rinasense.Base.{ℕ, ◌<◌, ◌≡◌, ◌↔◌, refl, true, some, [], ◌∷◌, arith, List, get_or}
use rinasense.Common.Gpha.{
  Gpa, IsValid, bytes, gpa_cmp, is_gpa_ok, fault, success, shrink, grow, dup_gpa, mem_chr,
}
use rinasense.Common.Gpha.Compare.{useful, gpa_cmp_iff}
use rinasense.Common.Gpha.Resize.{dup_gpa-gpa_cmp, dup_gpa-fault_iff, grow-gpa_cmp, shrink-grow}

abbrev address : List ℕ → ℕ → Gpa
address bs n = record { puc_address = some bs; ux_length = n }

-- "ab", padded with two zeros and not.
abbrev padded : Gpa
padded = address (b'a' ∷ b'b' ∷ 0 ∷ 0 ∷ []) 4

abbrev plain : Gpa
plain = address (b'a' ∷ b'b' ∷ []) 2

padded-IsValid : IsValid padded
padded-IsValid = record { usable = unfold is_gpa_ok in refl; room = omega arith }

plain-IsValid : IsValid plain
plain-IsValid = record { usable = unfold is_gpa_ok in refl; room = omega arith }

padding_ignored : gpa_cmp (some padded) (some plain) ≡ true
unfolding gpa_cmp
padding_ignored = refl

gpa_cmp_iff_runs : (gpa_cmp (some padded) (some plain) ≡ true) ↔ (useful padded ≡ useful plain)
gpa_cmp_iff_runs = gpa_cmp_iff padded plain padded-IsValid plain-IsValid

dup_gpa-gpa_cmp_runs :
    IsValid plain
    × ((q : Gpa) → IsValid q → gpa_cmp (some plain) (some q) ≡ gpa_cmp (some padded) (some q))
dup_gpa-gpa_cmp_runs = dup_gpa-gpa_cmp padded padded-IsValid (unfold dup_gpa in refl)

dup_gpa-fault_iff_runs :
    (dup_gpa true true padded true 0 ≡ fault) ↔ ((i : ℕ) → i < 4 → get_or (bytes padded) i 0 ≡ 0)
dup_gpa-fault_iff_runs = dup_gpa-fault_iff padded padded-IsValid 0

grow_runs :
    (g : Gpa) × (grow true plain 4 0 ≡ (success, g))
    × IsValid g
    × (g.ux_length ≡ 4)
    × ((q : Gpa) → IsValid q → gpa_cmp (some g) (some q) ≡ gpa_cmp (some plain) (some q))
grow_runs = grow-gpa_cmp plain plain-IsValid 4 (omega arith)

shrink-grow_runs :
    (g : Gpa) × (grow true plain 4 0 ≡ (success, g)) × (shrink true g 0 ≡ (success, plain))
shrink-grow_runs = shrink-grow plain plain-IsValid 4 0 (omega arith) (unfold mem_chr in refl)
