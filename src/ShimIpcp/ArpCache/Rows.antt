-- ===== src/ShimIpcp/ArpCache/Rows.antt =====
-- The abstract view of the ARP cache: an association list from the useful bytes of protocol
-- addresses to hardware addresses.
use rinasense.Base.{
  ℕ, ◌≡◌, ◌↔◌, refl, sym, ◌∙◌, Bool, true, false, ◌&&◌, Option, none, some, List, [], ◌∷◌,
  if◌then◌else◌, ◌==◌, arith, Bool-eq_of_iff, Bool-cases, inl, inr,
}
use rinasense.Common.Gpha.{Gpa, Gha, gpa_cmp, is_gpa_ok}
use rinasense.Common.Gpha
use rinasense.Common.Gpha.Compare.{useful, gpa_cmp_iff}
use rinasense.ShimIpcp.ArpCache.{Row}

unfoldable pub same_bytes : List ℕ → List ℕ → Bool
same_bytes [] [] = true
same_bytes [] (y ∷ ys) = false
same_bytes (x ∷ xs) [] = false
same_bytes (x ∷ xs) (y ∷ ys) = (x == y) && same_bytes xs ys

pub same_bytes_iff : (xs ys : List ℕ) → (same_bytes xs ys ≡ true) ↔ (xs ≡ ys)
unfolding same_bytes
same_bytes_iff [] [] = ((λ _. refl), (λ _. refl))
same_bytes_iff [] (y ∷ ys) = ((λ h. cc h), (λ e. cc e))
same_bytes_iff (x ∷ xs) [] = ((λ h. cc h), (λ e. cc e))
same_bytes_iff (x ∷ xs) (y ∷ ys) =
    let ih = same_bytes_iff xs ys in ((λ h. ground (arith, ih.0)), (λ e. ground (arith, ih.1)))

-- Comparing two valid addresses is comparing their useful bytes.
pub gpa_cmp-same_bytes :
    (g1 g2 : Gpa)
    → Gpha.IsValid g1
    → Gpha.IsValid g2
    → gpa_cmp (some g1) (some g2) ≡ same_bytes (useful g1) (useful g2)
gpa_cmp-same_bytes g1 g2 v1 v2 =
    let cmp = gpa_cmp_iff g1 g2 v1 v2 in
    let same = same_bytes_iff (useful g1) (useful g2) in
    Bool-eq_of_iff _ _ ((λ h. same.1 (cmp.0 h)), (λ h. cmp.1 (same.0 h)))

abbrev pub Table : Type 0
Table = List (List ℕ × Gha)

-- The mapping that a row holds in front of a table.
unfoldable pub row_entry : Option Gpa → Option Gha → ℕ → Table → Table
row_entry none ha valid rest = rest
row_entry (some pa) none valid rest = rest
row_entry (some pa) (some ha) valid rest = if valid == 0 then rest else (useful pa, ha) ∷ rest

unfoldable pub entries : List Row → Table
unfolding row_entry
entries [] = []
entries (r ∷ rows) = row_entry r.px_pa r.px_ha r.uc_valid (entries rows)

unfoldable pub table_lookup : List ℕ → Table → Option Gha
unfolding same_bytes
table_lookup key [] = none
table_lookup key ((k, ha) ∷ rest) = if same_bytes k key then some ha else table_lookup key rest

unfoldable pub table_erase : List ℕ → Table → Table
table_erase key [] = []
table_erase key ((k, ha) ∷ rest) =
    if same_bytes k key then table_erase key rest else (k, ha) ∷ table_erase key rest

pub table_lookup-erase :
    (key k : List ℕ) (t : Table)
    → table_lookup k (table_erase key t) ≡ (if same_bytes key k then none else table_lookup k t)
unfolding table_lookup table_erase
table_lookup-erase key k [] = ground arith
table_lookup-erase key k ((j, ha) ∷ t) = elim (Bool-cases (same_bytes j key)) [
  | inl hit ↦
      let same : j ≡ key = (same_bytes_iff j key).0 hit in
      rw hit (table_lookup-erase key k t ∙ rw same (ground arith))
  | inr miss ↦ elim (Bool-cases (same_bytes j k)) [
    | inl found ↦
        let same : j ≡ k = (same_bytes_iff j k).0 found in
        let other : same_bytes key k ≡ false = elim (Bool-cases (same_bytes key k)) [
          | inl e ↦ cc (miss, (same_bytes_iff j key).1 (same ∙ sym ((same_bytes_iff key k).0 e)))
          | inr e ↦ e
        ] in
        rw (miss, found, other)
    | inr away ↦ rw (miss, away) (table_lookup-erase key k t)
  ]
]
