-- ===== src/Common/Tests/Names.antt =====
-- rina_name.c at concrete inputs.
use rinasense.Base.{
  ◌≡◌, refl, ◌↔◌, ◌+◌, ◌<◌, true, false, none, some, List, [], ◌∷◌, ◌++◌, ℕ, arith, length, drop,
}
use rinasense.Common.Gpha.{made, Gpa, gpa_cmp}
use rinasense.Common.RinaName.Address.{name_to_gpa, name_to_gpa-gpa_cmp_iff}
use rinasense.Common.RinaName.{
  Name, new_from_string, new_from_parts, assign_from_string, assign_dup, assign_static, to_string,
  to_string_buf, parts, breakdown, first_part, later_parts, last_parts, until_delimiter, copy_parts,
}
use rinasense.Common.RinaName.Buffer.{to_string_buf-overrun_iff, to_string_buf-printed, printed}
use rinasense.Common.RinaName.RoundTrip.{
  to_string-new_from_string, assign_from_string-to_string, joined,
}
use rinasense.Common.RinaName.Copy.{assign_dup-assign_static_iff, to_string-new_from_parts_short}

-- "ab", "1", "c" and "2".
abbrev ab1c2 : Name
ab1c2 = record {
  post_ln = 0;
  process_name = b'a' ∷ b'b' ∷ [];
  process_instance = b'1' ∷ [];
  entity_name = b'c' ∷ [];
  entity_instance = b'2' ∷ [];
  block = [];
  owned = false;
}

to_string_buf-overrun_iff_example :
    (to_string_buf ab1c2 (7 ∷ 7 ∷ 7 ∷ 7 ∷ 7 ∷ []) ≡ none) ↔ (3 < 5) × (5 < 9)
to_string_buf-overrun_iff_example =
    to_string_buf-overrun_iff ab1c2 (7 ∷ 7 ∷ 7 ∷ 7 ∷ 7 ∷ []) (omega arith)

abbrev ten : List ℕ
ten = 7 ∷ 7 ∷ 7 ∷ 7 ∷ 7 ∷ 7 ∷ 7 ∷ 7 ∷ 7 ∷ 7 ∷ []

to_string_buf-printed_runs :
    to_string_buf ab1c2 ten ≡ some (printed ab1c2 ++ drop (length (printed ab1c2)) ten)
to_string_buf-printed_runs = to_string_buf-printed ab1c2 ten (omega arith)

-- "a/1/c/2/"
abbrev text : List ℕ
text = b'a' ∷ b'/' ∷ b'1' ∷ b'/' ∷ b'c' ∷ b'/' ∷ b'2' ∷ b'/' ∷ []

abbrev parsed : Name
parsed = record {
  post_ln = 8;
  process_name = b'a' ∷ [];
  process_instance = b'1' ∷ [];
  entity_name = b'c' ∷ [];
  entity_instance = b'2' ∷ b'/' ∷ [];
  block = copy_parts (b'a' ∷ []) (b'1' ∷ []) (b'c' ∷ []) (b'2' ∷ b'/' ∷ []);
  owned = true;
}

to_string-new_from_string_runs : to_string true 7 parsed ≡ made (text ++ (0 ∷ []))
unfolding new_from_string breakdown first_part later_parts last_parts until_delimiter
to_string-new_from_string_runs =
    to_string-new_from_string 7 text parsed
      (
        ground arith,
        (
          ground arith,
          (
            ground arith,
            (ground arith, (ground arith, (ground arith, (ground arith, (ground arith, tt))))),
          ),
        ),
      )
      refl

assign_from_string-to_string_example :
    (to_string true 7 ab1c2 ≡ made (joined ab1c2 ++ (0 ∷ [])))
    × ((copy : Name) × ((assign_from_string true (joined ab1c2) ≡ some copy)
          × (parts copy ≡ parts ab1c2)))
assign_from_string-to_string_example =
    assign_from_string-to_string 7 ab1c2 refl (ground arith, (ground arith, tt)) (ground arith, tt)
      (ground arith, tt)

abbrev copied : Name
copied = record ab1c2 { entity_instance = b'1' ∷ []; owned = true }

assign_dup-assign_static_iff_runs :
    ((parts copied ≡ parts ab1c2) ↔ (ab1c2.process_instance ≡ ab1c2.entity_instance))
    × ((parts (assign_static ab1c2) ≡ parts ab1c2)
        ↔ (ab1c2.process_instance ≡ ab1c2.entity_instance))
unfolding assign_dup
assign_dup-assign_static_iff_runs = assign_dup-assign_static_iff ab1c2 copied refl

abbrev joint : Name
joint = record ab1c2 {
  post_ln = 5;
  owned = true;
  block = copy_parts (b'a' ∷ b'b' ∷ []) (b'1' ∷ []) (b'c' ∷ []) (b'2' ∷ []);
}

to_string-new_from_parts_short_runs :
    (s : List ℕ) × ((to_string true 7 joint ≡ made s) × (length s + 3 ≡ length (printed joint)))
unfolding new_from_parts
to_string-new_from_parts_short_runs =
    to_string-new_from_parts_short 7 (b'a' ∷ b'b' ∷ []) (b'1' ∷ []) (b'c' ∷ []) (b'2' ∷ []) joint
      (omega arith) refl

-- "b/1/c/2/"
abbrev other_text : List ℕ
other_text = b'b' ∷ b'/' ∷ b'1' ∷ b'/' ∷ b'c' ∷ b'/' ∷ b'2' ∷ b'/' ∷ []

abbrev other_parsed : Name
other_parsed = record parsed {
  process_name = b'b' ∷ [];
  block = copy_parts (b'b' ∷ []) (b'1' ∷ []) (b'c' ∷ []) (b'2' ∷ b'/' ∷ []);
}

name_to_gpa-gpa_cmp_iff_runs :
    (g1 : Gpa) × ((g2 : Gpa) × ((name_to_gpa true true true 7 parsed ≡ made g1)
        × ((name_to_gpa true true true 7 other_parsed ≡ made g2)
            × ((gpa_cmp (some g1) (some g2) ≡ true) ↔ (text ≡ other_text)))))
unfolding new_from_string breakdown first_part later_parts last_parts until_delimiter
name_to_gpa-gpa_cmp_iff_runs =
    name_to_gpa-gpa_cmp_iff 7 text other_text parsed other_parsed
      (
        ground arith,
        (
          ground arith,
          (
            ground arith,
            (ground arith, (ground arith, (ground arith, (ground arith, (ground arith, tt))))),
          ),
        ),
      )
      (
        ground arith,
        (
          ground arith,
          (
            ground arith,
            (ground arith, (ground arith, (ground arith, (ground arith, (ground arith, tt))))),
          ),
        ),
      )
      refl refl
