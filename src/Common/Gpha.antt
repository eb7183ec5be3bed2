-- ===== src/Common/Gpha.antt =====
-- components/Common/rina_gpha.c: generic protocol addresses (GPA) and hardware addresses (GHA).
-- A buffer is the list of the bytes written to it; `none` is the null pointer. The flags of an
-- operation say which of its allocations succeed.
pub mod Bytes
pub mod Compare
pub mod Resize
use rinasense.Base.{
  ℕ, zero, suc, ◌+◌, ◌-◌, ◌≤◌, ◌≡◌, Bool, true, false, not, ◌&&◌, ◌||◌, Option, none, some, List,
  [], ◌∷◌, ◌++◌, if◌then◌else◌, ◌==◌, ltb, length, take, replicate, get_or,
}

-- `gpa_t`
pub record Gpa : Type 0 where
  pub puc_address : Option (List ℕ)
  pub ux_length : ℕ

-- `gha_t`
pub record Gha : Type 0 where
  pub x_type : ℕ
  pub uc_bytes : List ℕ

abbrev pub mac_addr_802_3 : ℕ
mac_addr_802_3 = 0

-- `MAC_ADDRESS_LENGTH_BYTES`
abbrev pub mac_length : ℕ
mac_length = 6

-- What a constructor returns: a new object, NULL, or an access outside a buffer.
pub data Made (A : Type 0) : Type 0 where
  made : A → Made A
  null : Made A
  fault : Made A

pub data Status : Type 0 where
  success err_gpa_invalid err_bad_arg err_oom : Status

abbrev pub bytes : Gpa → List ℕ
bytes g = elim g.puc_address [ none ↦ [] | some bs ↦ bs ]

abbrev pub has_address : Gpa → Bool
has_address g = elim g.puc_address [ none ↦ false | some _ ↦ true ]

-- `xIsGPAOK`
unfoldable pub is_gpa_ok : Option Gpa → Bool
is_gpa_ok none = false
is_gpa_ok (some g) = if not (has_address g) then false else if g.ux_length == 0 then false else true

-- `xIsGHAOK`
unfoldable pub is_gha_ok : Option Gha → Bool
is_gha_ok none = false
is_gha_ok (some h) = if not (h.x_type == mac_addr_802_3) then false else true

-- `memcmp(a, b, n) == 0`
unfoldable pub mem_eq : ℕ → List ℕ → List ℕ → Bool
mem_eq zero xs ys = true
mem_eq (suc n) [] ys = false
mem_eq (suc n) (x ∷ xs) [] = false
mem_eq (suc n) (x ∷ xs) (y ∷ ys) = (x == y) && mem_eq n xs ys

-- `memchr(bs, c, n)`, as an offset.
unfoldable pub mem_chr : List ℕ → ℕ → ℕ → Option ℕ
mem_chr bs c zero = none
mem_chr [] c (suc n) = none
mem_chr (b ∷ bs) c (suc n) =
    if b == c then some 0 else elim (mem_chr bs c n) [ none ↦ none | some i ↦ some (suc i) ]

-- `xGHACmp`
unfoldable pub gha_cmp : Option Gha → Option Gha → Bool
unfolding mem_eq
gha_cmp none h2 = false
gha_cmp (some h1) none = false
gha_cmp (some h1) (some h2) = mem_eq mac_length h1.uc_bytes h2.uc_bytes

-- `prvGetActualAddressLength`: the loop over the bytes of the address.
unfoldable pub actual_length : List ℕ → ℕ → ℕ
actual_length bs zero = 0
actual_length [] (suc n) = 0
actual_length (b ∷ bs) (suc n) = if b == 0 then 0 else suc (actual_length bs n)

-- `xGPACmp`
unfoldable pub gpa_cmp : Option Gpa → Option Gpa → Bool
unfolding actual_length mem_eq is_gpa_ok
gpa_cmp none g2 = false
gpa_cmp (some g1) none = false
gpa_cmp (some g1) (some g2) =
    if not (is_gpa_ok (some g1) && is_gpa_ok (some g2))
    then false
    else let n1 = actual_length (bytes g1) g1.ux_length in
      let n2 = actual_length (bytes g2) g2.ux_length in
      if not (n1 == n2) then false else mem_eq n1 (bytes g1) (bytes g2)

-- `pxCreateGPA`: `pucCreateAddress` clears what the allocator returned without a check.
unfoldable pub create_gpa : (struct_memory address_memory : Bool) → Option (List ℕ) → ℕ → Made Gpa
create_gpa struct_memory address_memory none ux_length = null
create_gpa struct_memory address_memory (some source) ux_length =
    if ux_length == 0
    then null
    else if not struct_memory
    then null
    else if not address_memory
    then fault
    else made
        (record { puc_address = some (take ux_length source ++ (0 ∷ [])); ux_length = ux_length })

-- `xGPAShrink`
unfoldable pub shrink : (memory : Bool) → Gpa → ℕ → Status × Gpa
unfolding is_gpa_ok mem_chr
shrink memory g filler =
    if not (is_gpa_ok (some g))
    then (err_gpa_invalid, g)
    else elim (mem_chr (bytes g) filler g.ux_length) [
      | none ↦ (success, g)
      | some i ↦
          if memory
          then (success, record { puc_address = some (take i (bytes g)); ux_length = i })
          else (err_oom, g)
    ]

-- `xGPAGrow`
unfoldable pub grow : (memory : Bool) → Gpa → ℕ → ℕ → Status × Gpa
unfolding is_gpa_ok
grow memory g ux_length filler =
    if not (is_gpa_ok (some g))
    then (err_gpa_invalid, g)
    else if (ux_length == 0) || ltb ux_length g.ux_length
    then (err_bad_arg, g)
    else if g.ux_length == ux_length
    then (success, g)
    else if not memory
    then (err_oom, g)
    else (
      success,
      record {
        puc_address =
            some (take g.ux_length (bytes g) ++ replicate (ux_length - g.ux_length) filler);
        ux_length = ux_length;
      },
    )

-- The loop of `pxDupGPA` that steps back over the filler; `none` once it reads before the buffer.
unfoldable pub shrunk_length : List ℕ → ℕ → ℕ → Option ℕ
shrunk_length bs filler zero = none
shrunk_length bs filler (suc n) =
    if get_or bs n 0 == filler then shrunk_length bs filler n else some (suc n)

copy_bytes : (memory : Bool) → Gpa → ℕ → Made Gpa
copy_bytes memory g n =
    if not memory
    then null
    else made (record { puc_address = some (take n (bytes g)); ux_length = n })

-- `pxDupGPA`
unfoldable pub dup_gpa : (struct_memory address_memory : Bool) → Gpa → Bool → ℕ → Made Gpa
unfolding is_gpa_ok copy_bytes shrunk_length
dup_gpa struct_memory address_memory g do_shrink filler =
    if not (is_gpa_ok (some g))
    then null
    else if not struct_memory
    then null
    else if do_shrink
    then elim (shrunk_length (bytes g) filler g.ux_length) [
      | none ↦ fault
      | some n ↦ copy_bytes address_memory g n
    ]
    else copy_bytes address_memory g g.ux_length

-- `pxCreateGHA`
unfoldable pub create_gha : (memory : Bool) → ℕ → List ℕ → Made Gha
create_gha memory x_type address =
    if not (x_type == mac_addr_802_3)
    then null
    else if not memory
    then null
    else made (record { x_type = x_type; uc_bytes = take mac_length address })

-- `pxDupGHA`
unfoldable pub dup_gha : (memory : Bool) → Gha → Made Gha
unfolding is_gha_ok
dup_gha memory h =
    if not (is_gha_ok (some h))
    then null
    else if not memory
    then null
    else made (record { x_type = h.x_type; uc_bytes = take mac_length h.uc_bytes })

-- `xGPAAddressToString`: the bytes of the string, with its end.
unfoldable pub address_to_string : (memory : Bool) → Option Gpa → Option (List ℕ)
unfolding is_gpa_ok
address_to_string memory none = none
address_to_string memory (some g) =
    if not (is_gpa_ok (some g))
    then none
    else if not memory
    then none
    else some (take g.ux_length (bytes g) ++ (0 ∷ []))

-- What the functions above rely on: the buffer holds the bytes that the length promises.
pub record IsValid (g : Gpa) : Type 0 where
  pub usable : is_gpa_ok (some g) ≡ true
  pub room : g.ux_length ≤ length (bytes g)

-- An Ethernet address.
pub record IsGha (h : Gha) : Type 0 where
  pub ethernet : h.x_type ≡ mac_addr_802_3
  pub size : length h.uc_bytes ≡ mac_length
