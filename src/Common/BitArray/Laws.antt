-- ===== src/Common/BitArray/Laws.antt =====
-- What the three operations of bit_array.h do to every bit of the array.
use rinasense.Base.{
  ℕ, ◌+◌, ◌*◌, ◌/◌, ◌^◌, ◌≤◌, ◌<◌, ◌≡◌, ◌≢◌, ap, inl, inr, Bool, true, false, some, List, ltb, ◌==◌,
  if◌then◌else◌, set, get_or, length, arith, length-set, length-replicate, get_or-set_self,
  get_or-set_ne, get_or-replicate, Bool-cases, ◌&&◌, bit_and, bit_or,
}
use rinasense.Base.Bits.{test_bit, test_bit-or, test_bit-and_clear, test_bit-zero, clear_mask}
use rinasense.Common.BitArray.{BitArray, index_of, bit_of, alloc, set_bit, clear_bit, get_bit}

-- Room for every bit.
pub record IsValid (ba : BitArray) : Type 0 where
  pub room : ba.nbbits ≤ length ba.units * 32

same_place : (n m : ℕ) → index_of n ≡ index_of m → (bit_of n == bit_of m) ≡ (n == m)
same_place n m e = ground arith

other_place : (n m : ℕ) → index_of n ≢ index_of m → (n == m) ≡ false
other_place n m e = ground (arith, (λ (p : n ≡ m). ap index_of p))

module _ (us : List ℕ) (n m : ℕ) where
  unit_at : ℕ → ℕ
  unit_at k = get_or us (index_of k) 0

  -- A write of one unit that treats each bit by `f`.
  write_unit :
      (w : ℕ) (b : Bool)
      → index_of n < length us
      → ((c : ℕ)
          → c < 32
          → test_bit w c ≡ (if bit_of n == c then b else test_bit (get_or us (index_of n) 0) c))
      → test_bit (get_or (set us (index_of n) w) (index_of m) 0) (bit_of m)
        ≡ (if n == m then b else test_bit (get_or us (index_of m) 0) (bit_of m))
  write_unit w b room law = elim (Bool-cases (index_of n == index_of m)) [
    | inl same ↦
        let e : index_of n ≡ index_of m = ground arith in
        rw (
          ← e,
          get_or-set_self us (index_of n) w 0 room,
          law (bit_of m) (omega arith),
          same_place n m e,
        )
    | inr other ↦
        let ne : index_of n ≢ index_of m = ground arith in
        rw (get_or-set_ne us (index_of n) (index_of m) w 0 ne, other_place n m ne)
  ]

module _ (ba : BitArray) (n : ℕ) where
  set_unit : ℕ
  set_unit = bit_or (get_or ba.units (index_of n) 0) (2 ^ bit_of n)

  clear_unit : ℕ
  clear_unit = bit_and (get_or ba.units (index_of n) 0) (clear_mask (bit_of n))

  pub set_bit-IsValid : IsValid ba → IsValid (set_bit ba n)
  unfolding set_bit set_unit
  set_bit-IsValid v = ground (arith, length-set ba.units (index_of n) set_unit)

  pub clear_bit-IsValid : IsValid ba → IsValid (clear_bit ba n)
  unfolding clear_bit clear_unit
  clear_bit-IsValid v = ground (arith, length-set ba.units (index_of n) clear_unit)

  pub nbbits-set_bit : (set_bit ba n).nbbits ≡ ba.nbbits
  unfolding set_bit
  nbbits-set_bit = ground arith

  pub nbbits-clear_bit : (clear_bit ba n).nbbits ≡ ba.nbbits
  unfolding clear_bit
  nbbits-clear_bit = ground arith

  module _ (m : ℕ) (v : IsValid ba) where
    -- Setting bit `n` reads back as one at `n`, if it lies in the array, and leaves every other
    -- bit as it was; out of range it changes nothing.
    pub get_bit-set_bit :
        get_bit (set_bit ba n) m ≡ (if ltb n ba.nbbits && (n == m) then true else get_bit ba m)
    unfolding get_bit set_bit set_unit test_bit
    get_bit-set_bit = ground (
      arith,
      (λ (h : index_of n < length ba.units).
          write_unit ba.units n m set_unit true h
            (λ c _. test_bit-or (get_or ba.units (index_of n) 0) (bit_of n) c)),
    )

    -- Clearing bit `n` reads back as zero at `n` and leaves every other bit as it was.
    pub get_bit-clear_bit : get_bit (clear_bit ba n) m ≡ (if n == m then false else get_bit ba m)
    unfolding get_bit clear_bit clear_unit test_bit
    get_bit-clear_bit = ground (
      arith,
      (λ (h : index_of n < length ba.units). write_unit ba.units n m clear_unit false h (λ c hc.
          test_bit-and_clear (get_or ba.units (index_of n) 0) (bit_of n) c (omega arith) hc)),
    )

-- A fresh array has room for its bits, and every bit of it is zero.
pub alloc_lem :
    (nbbits : ℕ) {ba : BitArray} (m : ℕ)
    → alloc true nbbits ≡ some ba
    → IsValid ba × (ba.nbbits ≡ nbbits) × (get_bit ba m ≡ false)
unfolding alloc get_bit test_bit
alloc_lem nbbits m e = ground (
  arith,
  length-replicate (nbbits / 32 + 1) (let z : ℕ = 0 in z),
  get_or-replicate (nbbits / 32 + 1) (index_of m) (let z : ℕ = 0 in z),
  test_bit-zero (bit_of m),
)
