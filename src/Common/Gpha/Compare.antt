-- ===== src/Common/Gpha/Compare.antt =====
-- `xGPACmp`: two addresses are equal when their bytes before the first zero are.
use rinasense.Base.{
  ℕ, ◌≤◌, ◌≡◌, ◌↔◌, sym, ◌∙◌, ap, true, false, some, List, ◌==◌, length, take, arith,
  Bool-eq_of_iff, if◌then◌else◌,
}
use rinasense.Common.Gpha.{Gpa, IsValid, bytes, gpa_cmp, is_gpa_ok, actual_length, mem_eq}
use rinasense.Common.Gpha.Bytes.{
  until_zero, mem_eq_iff, actual_length-until_zero, take-actual_length,
}

-- What an address says: its bytes before the first zero.
unfoldable pub useful : Gpa → List ℕ
unfolding until_zero
useful g = until_zero (take g.ux_length (bytes g))

-- Two prefixes of the same length that compare equal are the same.
compared :
    (a1 a2 : ℕ) (xs ys u1 u2 : List ℕ)
    → a1 ≡ length u1
    → a2 ≡ length u2
    → take a1 xs ≡ u1
    → take a2 ys ≡ u2
    → a1 ≤ length xs
    → a2 ≤ length ys
    → ((if a1 == a2 then mem_eq a1 xs ys else false) ≡ true) ↔ (u1 ≡ u2)
compared a1 a2 xs ys u1 u2 l1 l2 t1 t2 r1 r2 = (
  λ h.
      let same : a1 ≡ a2 = ground arith in
      let equal : mem_eq a1 xs ys ≡ true = ground arith in
      sym t1 ∙ (mem_eq_iff a1 xs ys r1 (omega arith)).0 equal ∙ ap (λ k. take k ys) same ∙ t2,
  λ e.
      let same : a1 ≡ a2 = l1 ∙ ap (λ u. length u) e ∙ sym l2 in
      let prefix : take a1 xs ≡ take a1 ys = t1 ∙ e ∙ sym t2 ∙ ap (λ k. take k ys) (sym same) in
      ground (arith, same, (mem_eq_iff a1 xs ys r1 (omega arith)).1 prefix),
)

module _ (g1 g2 : Gpa) (v1 : IsValid g1) (v2 : IsValid g2) where
  cmp_parts : gpa_cmp (some g1) (some g2) ≡ (
      if actual_length (bytes g1) g1.ux_length == actual_length (bytes g2) g2.ux_length
      then mem_eq (actual_length (bytes g1) g1.ux_length) (bytes g1) (bytes g2)
      else false)
  unfolding gpa_cmp is_gpa_ok
  cmp_parts = ground (arith, v1.usable, v2.usable)

  -- `xGPACmp` of two valid addresses is true exactly when they have the same useful bytes.
  pub gpa_cmp_iff : (gpa_cmp (some g1) (some g2) ≡ true) ↔ (useful g1 ≡ useful g2)
  unfolding useful
  gpa_cmp_iff =
      let l1 = actual_length-until_zero (bytes g1) g1.ux_length v1.room in
      let l2 = actual_length-until_zero (bytes g2) g2.ux_length v2.room in
      rw cmp_parts (
        compared (actual_length (bytes g1) g1.ux_length) (actual_length (bytes g2) g2.ux_length)
          (bytes g1) (bytes g2) (useful g1) (useful g2) l1.0 l2.0
          (take-actual_length (bytes g1) g1.ux_length v1.room)
          (take-actual_length (bytes g2) g2.ux_length v2.room) (omega (arith, v1.room, l1.1))
          (omega (arith, v2.room, l2.1)))

-- The result of `xGPACmp` depends on the useful bytes alone.
pub gpa_cmp-eq_of_useful :
    (g1 g2 g : Gpa)
    → IsValid g1
    → IsValid g2
    → IsValid g
    → useful g1 ≡ useful g2
    → gpa_cmp (some g1) (some g) ≡ gpa_cmp (some g2) (some g)
gpa_cmp-eq_of_useful g1 g2 g v1 v2 v e =
    let law1 = gpa_cmp_iff g1 g v1 v in
    let law2 = gpa_cmp_iff g2 g v2 v in
    Bool-eq_of_iff _ _ ((λ h. law2.1 (sym e ∙ law1.0 h)), (λ h. law1.1 (e ∙ law2.0 h)))
