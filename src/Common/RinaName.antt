-- ===== src/Common/RinaName.antt =====
-- components/Common/rina_name.c and include/common/rina_name.h: application process names. A
-- string is the list of its bytes before the NUL. The first flag of an operation says whether its
-- allocation succeeds.
pub mod Buffer
pub mod Parse
pub mod RoundTrip
pub mod Copy
pub mod Address
use rinasense.Base.{
  ℕ, zero, suc, ◌+◌, ◌-◌, ◌^◌, ◌≡◌, ◌≢◌, Bool, true, false, not, Option, none, some, List, [], ◌∷◌,
  ◌++◌, map, if◌then◌else◌, ◌==◌, leb, min, length, take, drop, set, replicate,
}
use rinasense.Common.Gpha.{Made, made, null, fault}

-- `rname_t`. `block` is the memory that follows the structure, read from `pcProcessName` on; it
-- is empty when `unPostLn` is 0. `owned` says whether `pxFree` is set.
pub record Name : Type 0 where
  pub post_ln : ℕ
  pub process_name : List ℕ
  pub process_instance : List ℕ
  pub entity_name : List ℕ
  pub entity_instance : List ℕ
  pub block : List ℕ
  pub owned : Bool

-- `CFG_DELIMITER`
abbrev pub delimiter : ℕ
delimiter = b'/'

-- What `prvNameCopyAssignParts` writes.
abbrev pub copy_parts : List ℕ → List ℕ → List ℕ → List ℕ → List ℕ
copy_parts p i e n = p ++ (0 ∷ (i ++ (0 ∷ (e ++ (0 ∷ (n ++ (0 ∷ [])))))))

-- One loop of `prvBreakdownNameString`: the bytes before the delimiter and, unless the string
-- ended first, those after it.
unfoldable pub until_delimiter : List ℕ → List ℕ × Option (List ℕ)
until_delimiter [] = ([], none)
until_delimiter (c ∷ s) =
    let rest = until_delimiter s in if c == delimiter then ([], some s) else (c ∷ rest.0, rest.1)

-- The last two assignments of `prvBreakdownNameString`.
unfoldable pub last_parts : List ℕ → List ℕ → List ℕ × Option (List ℕ) → Name
last_parts p i (e, none) = record {
  post_ln = 0;
  process_name = p;
  process_instance = i;
  entity_name = e;
  entity_instance = [];
  block = p ++ (0 ∷ (i ++ (0 ∷ (e ++ (0 ∷ [])))));
  owned = true;
}
last_parts p i (e, some n) = record {
  post_ln = 0;
  process_name = p;
  process_instance = i;
  entity_name = e;
  entity_instance = n;
  block = copy_parts p i e n;
  owned = true;
}

-- The second loop of `prvBreakdownNameString` and what follows it.
unfoldable pub later_parts : List ℕ → List ℕ × Option (List ℕ) → Option Name
later_parts p (i, none) = none
later_parts p (i, some s) = some (last_parts p i (until_delimiter s))

unfoldable pub first_part : List ℕ × Option (List ℕ) → Option Name
first_part (p, none) = none
first_part (p, some s) = later_parts p (until_delimiter s)

-- `prvBreakdownNameString`; `none` for a bad string.
unfoldable pub breakdown : List ℕ → Option Name
breakdown s = first_part (until_delimiter s)

-- `pxNameNewFromString`
unfoldable pub new_from_string : (memory : Bool) → List ℕ → Option Name
new_from_string memory s =
    if not memory
    then none
    else elim (breakdown s) [ none ↦ none | some nm ↦ some (record nm { post_ln = length s }) ]

abbrev pub parts_length : List ℕ → List ℕ → List ℕ → List ℕ → ℕ
parts_length p i e n = length p + length i + length e + length n

-- `pxNameNewFromParts`
unfoldable pub new_from_parts : (memory : Bool) → List ℕ → List ℕ → List ℕ → List ℕ → Option Name
new_from_parts memory p i e n =
    if not memory
    then none
    else some (record {
      post_ln = parts_length p i e n;
      process_name = p;
      process_instance = i;
      entity_name = e;
      entity_instance = n;
      block = copy_parts p i e n;
      owned = true;
    })

-- `vNameAssignFromPartsStatic`
abbrev pub assign_from_parts_static : List ℕ → List ℕ → List ℕ → List ℕ → Name
assign_from_parts_static p i e n = record {
  post_ln = 0;
  process_name = p;
  process_instance = i;
  entity_name = e;
  entity_instance = n;
  block = [];
  owned = false;
}

abbrev or_empty : Option (List ℕ) → List ℕ
or_empty none = []
or_empty (some s) = s

-- `xNameAssignFromPartsDup`; a NULL part stands for the empty string.
abbrev pub assign_from_parts_dup :
    (memory : Bool)
    → Option (List ℕ)
    → Option (List ℕ)
    → Option (List ℕ)
    → Option (List ℕ)
    → Option Name
assign_from_parts_dup memory p i e n =
    if not memory
    then none
    else some (record {
      post_ln = 0;
      process_name = or_empty p;
      process_instance = or_empty i;
      entity_name = or_empty e;
      entity_instance = or_empty n;
      block = [];
      owned = true;
    })

-- `xNameAssignFromString`
unfoldable pub assign_from_string : (memory : Bool) → List ℕ → Option Name
assign_from_string memory s =
    if not memory
    then none
    else elim (breakdown s) [ none ↦ none | some nm ↦ some (record nm { post_ln = 0; block = [] }) ]

-- `vNameAssignStatic`
unfoldable pub assign_static : Name → Name
assign_static src =
    assign_from_parts_static src.process_name src.process_instance src.entity_name
      src.process_instance

-- `xNameAssignDup`
unfoldable pub assign_dup : (memory : Bool) → Name → Option Name
assign_dup memory src =
    assign_from_parts_dup memory (some src.process_name) (some src.process_instance)
      (some src.entity_name) (some src.process_instance)

-- Bytes written at a position; `none` when they leave the buffer.
unfoldable pub write_at : List ℕ → ℕ → List ℕ → Option (List ℕ)
write_at buf px bytes =
    if leb (px + length bytes) (length buf)
    then some (take px buf ++ (bytes ++ drop (px + length bytes) buf))
    else none

-- The delimiter that replaces the NUL of every part but the last.
unfoldable pub mark : List (List ℕ) → ℕ → List ℕ → List ℕ
mark [] px buf = buf
mark (s ∷ strings) px buf = set buf px delimiter

-- The loop of `vNameToStringBuf`; `none` when it writes outside of the buffer.
unfoldable pub write_parts : (size : ℕ) → List (List ℕ) → ℕ → ℕ → List ℕ → Option (List ℕ)
write_parts size [] px sz_max buf = some buf
write_parts size (s ∷ strings) px sz_max buf =
    let sz_copy : ℕ = min (length s) sz_max in
    elim (write_at buf px (take sz_copy s ++ (0 ∷ []))) [
      | none ↦ none
      | some b ↦
          let b1 : List ℕ = mark strings (px + sz_copy) b in
          elim (sz_max - sz_copy == 0) [
            | true ↦ some (set b1 (size - 1) 0)
            | false ↦ write_parts size strings (px + sz_copy + 1) (sz_max - sz_copy) b1
          ]
    ]

abbrev pub parts : Name → List (List ℕ)
parts nm = nm.process_name ∷ nm.process_instance ∷ nm.entity_name ∷ nm.entity_instance ∷ []

-- `vNameToStringBuf` on a buffer of `length buf` bytes; `size_t` has 64 bits.
unfoldable pub to_string_buf : Name → List ℕ → Option (List ℕ)
to_string_buf nm buf =
    let sz : ℕ = length buf in
    write_parts sz (parts nm) 0 (if sz == 0 then 2 ^ 64 - 1 else sz - 1) buf

abbrev pub zero_to_delimiter : ℕ → ℕ
zero_to_delimiter c = if c == 0 then delimiter else c

-- `pcNameToString`; `fill` is what fresh memory holds.
unfoldable pub to_string : (memory : Bool) → (fill : ℕ) → Name → Made (List ℕ)
to_string memory fill nm =
    if not memory
    then null
    else if nm.post_ln == 0
    then (elim (to_string_buf nm (
        replicate
          (parts_length nm.process_name nm.process_instance nm.entity_name nm.entity_instance + 4)
          fill)) [ none ↦ fault | some s ↦ made s ])
    else if leb (nm.post_ln + 1) (length nm.block)
    then made
        (map zero_to_delimiter (take nm.post_ln nm.block) ++ take 1 (drop nm.post_ln nm.block))
    else fault
