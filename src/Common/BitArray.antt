-- ===== src/Common/BitArray.antt =====
-- components/Common/include/common/bit_array.h: an array of 32-bit units behind the header
-- that holds the number of bits.
pub mod Laws
use rinasense.Base.{
  ℕ, ◌+◌, ◌-◌, ◌/◌, ◌%◌, ◌^◌, Bool, false, Option, none, some, List, bit_and, bit_or, ltb,
  if◌then◌else◌, set, get_or, replicate,
}
use rinasense.Base.Bits.{clear_mask, test_bit}

pub record BitArray : Type 0 where
  pub nbbits : ℕ
  pub units : List ℕ

-- `BIT_INDEX`
abbrev pub bit_of : ℕ → ℕ
bit_of n = n % 32

abbrev pub index_of : ℕ → ℕ
index_of n = (n - bit_of n) / 32

-- `memory` says whether the allocator had room.
unfoldable pub alloc : (memory : Bool) → ℕ → Option BitArray
alloc memory nbbits =
    if memory
    then some (record { nbbits = nbbits; units = replicate (nbbits / 32 + 1) 0 })
    else none

unfoldable pub set_bit : BitArray → ℕ → BitArray
set_bit ba n =
    if ltb n ba.nbbits
    then record ba {
      units = set ba.units (index_of n) (bit_or (get_or ba.units (index_of n) 0) (2 ^ bit_of n));
    }
    else ba

unfoldable pub clear_bit : BitArray → ℕ → BitArray
clear_bit ba n =
    if ltb n ba.nbbits
    then record ba {
      units =
          set ba.units (index_of n)
            (bit_and (get_or ba.units (index_of n) 0) (clear_mask (bit_of n)));
    }
    else ba

unfoldable pub get_bit : BitArray → ℕ → Bool
unfolding test_bit
get_bit ba n =
    if ltb n ba.nbbits then test_bit (get_or ba.units (index_of n) 0) (bit_of n) else false
