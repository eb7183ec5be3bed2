-- ===== src/Common/RinaName/Address.antt =====
-- components/Common/rina_gpha.c: the protocol address of a name.
use rinasense.Base.{
  ℕ, suc, ◌+◌, ◌≡◌, ◌↔◌, refl, ap, ◌∙◌, sym, Bool, true, false, Option, none, some, List, [], ◌∷◌,
  ◌++◌, if◌then◌else◌, ◌==◌, length, take, arith, length-append, length-take, take_all,
  take-length_append,
}
use rinasense.Common.Gpha
use rinasense.Common.Gpha.{Gpa, Made, made, null, fault, create_gpa, gpa_cmp, is_gpa_ok, bytes}
use rinasense.Common.Gpha.Bytes.{until_zero}
use rinasense.Common.Gpha.Compare.{useful, gpa_cmp_iff}
use rinasense.Common.RinaName.{Name, new_from_string, to_string}
use rinasense.Common.RinaName.Parse.{NoZero}
use rinasense.Common.RinaName.RoundTrip.{to_string-new_from_string}

-- `strlen`; `none` when no NUL ends the string.
unfoldable pub str_len : List ℕ → Option ℕ
str_len [] = none
str_len (c ∷ s) =
    let rest = str_len s in
    if c == 0 then some 0 else elim rest [ none ↦ none | some n ↦ some (suc n) ]

-- `pxNameToGPA`; the flags say which allocations succeed, and `fill` is what fresh memory holds.
unfoldable pub name_to_gpa :
    (text_memory struct_memory address_memory : Bool) → (fill : ℕ) → Name → Made Gpa
name_to_gpa text_memory struct_memory address_memory fill nm =
    elim (to_string text_memory fill nm) [
      | null ↦ null
      | fault ↦ fault
      | made t ↦ elim (str_len t) [
        | none ↦ fault
        | some n ↦ create_gpa struct_memory address_memory (some t) (n + 1)
      ]
    ]

str_len-ended : (s : List ℕ) → NoZero s → str_len (s ++ (0 ∷ [])) ≡ some (length s)
unfolding str_len
str_len-ended [] h = refl
str_len-ended (c ∷ s) h =
    let ne : (c == 0) ≡ false = ground (arith, h.0) in rw (ne, str_len-ended s h.1)

-- The address of a string.
abbrev pub address_of : List ℕ → Gpa
address_of s = record {
  puc_address = some (take (length s + 1) (s ++ (0 ∷ [])) ++ (0 ∷ []));
  ux_length = length s + 1;
}

take_ended : (s : List ℕ) → take (length s + 1) (s ++ (0 ∷ [])) ≡ s ++ (0 ∷ [])
take_ended s = take_all (length s + 1) (s ++ (0 ∷ [])) (omega (arith, length-append s (0 ∷ [])))

name_to_gpa-address_of :
    (fill : ℕ) (s : List ℕ) (nm : Name)
    → NoZero s
    → new_from_string true s ≡ some nm
    → name_to_gpa true true true fill nm ≡ made (address_of s)
unfolding name_to_gpa create_gpa
name_to_gpa-address_of fill s nm h e =
    let some_length : (length s + 1 == 0) ≡ false = ground arith in
    rw (
      name_to_gpa,
      to_string-new_from_string fill s nm h e,
      str_len-ended s h,
      create_gpa,
      some_length,
    )

address_of-IsValid : (s : List ℕ) → Gpha.IsValid (address_of s)
unfolding is_gpa_ok
address_of-IsValid s = record {
  usable = ground arith;
  room = omega (
    arith,
    length-append (take (length s + 1) (s ++ (0 ∷ []))) (0 ∷ []),
    length-take (length s + 1) (s ++ (0 ∷ [])),
    length-append s (0 ∷ []),
  );
}

until_zero-ended : (s : List ℕ) → NoZero s → until_zero (s ++ (0 ∷ [])) ≡ s
unfolding until_zero
until_zero-ended [] h = refl
until_zero-ended (c ∷ s) h =
    let ne : (c == 0) ≡ false = ground (arith, h.0) in rw (ne, until_zero-ended s h.1)

useful-address_of : (s : List ℕ) → NoZero s → useful (address_of s) ≡ s
unfolding useful
useful-address_of s h =
    let ended : List ℕ = s ++ (0 ∷ []) in
    let size : length s + 1 ≡ length ended = omega (arith, length-append s (0 ∷ [])) in
    ap until_zero (
      ap (λ t. take (length s + 1) (t ++ (0 ∷ []))) (take_ended s)
      ∙ (ap (λ n. take n (ended ++ (0 ∷ []))) size ∙ take-length_append ended (0 ∷ [])))
    ∙ until_zero-ended s h

-- The addresses that `pxNameToGPA` makes of two names parsed from strings without NUL bytes are
-- equal under `xGPACmp` exactly when the strings are equal.
pub name_to_gpa-gpa_cmp_iff :
    (fill : ℕ) (s1 s2 : List ℕ) (nm1 nm2 : Name)
    → NoZero s1
    → NoZero s2
    → new_from_string true s1 ≡ some nm1
    → new_from_string true s2 ≡ some nm2
    → (g1 : Gpa) × ((g2 : Gpa) × ((name_to_gpa true true true fill nm1 ≡ made g1)
          × ((name_to_gpa true true true fill nm2 ≡ made g2)
              × ((gpa_cmp (some g1) (some g2) ≡ true) ↔ (s1 ≡ s2)))))
name_to_gpa-gpa_cmp_iff fill s1 s2 nm1 nm2 h1 h2 e1 e2 =
    let iff =
      gpa_cmp_iff (address_of s1) (address_of s2) (address_of-IsValid s1) (address_of-IsValid s2) in
    (
      address_of s1,
      (
        address_of s2,
        (
          name_to_gpa-address_of fill s1 nm1 h1 e1,
          (
            name_to_gpa-address_of fill s2 nm2 h2 e2,
            (
              λ c. sym (useful-address_of s1 h1) ∙ (iff.0 c ∙ useful-address_of s2 h2),
              λ q. iff.1 (useful-address_of s1 h1 ∙ (q ∙ sym (useful-address_of s2 h2))),
            ),
          ),
        ),
      ),
    )
