-- ===== src/Common/NumMgr.antt =====
-- components/Common/num_mgr.c: an allocator of the numbers 1 .. numCnt over a bit array.
pub mod Scan
pub mod Allocate
pub mod Full
pub mod Release
use rinasense.Base.{
  ℕ, zero, suc, ◌+◌, ◌%◌, ◌^◌, ◌-◌, ◌≤◌, ◌<◌, ◌≡◌, Bool, true, false, Option, none, some,
  if◌then◌else◌, ◌==◌, not,
}
use rinasense.Common.BitArray
use rinasense.Common.BitArray.{BitArray}

pub record NumMgr : Type 0 where
  pub num_cnt : ℕ
  pub last_allocated : ℕ
  pub ba : BitArray

abbrev pub uint_max : ℕ
uint_max = 2 ^ 32 - 1

-- `xNumMgrInit`: `size_t` arithmetic, and the `uint32_t` that `pxBitArrayAlloc` takes.
unfoldable pub init : (memory : Bool) → ℕ → Option NumMgr
unfolding BitArray.alloc
init memory count =
    let num_cnt = (count + 1) % 2 ^ 64 in
    elim (BitArray.alloc memory (num_cnt % 2 ^ 32)) [
      | none ↦ none
      | some ba ↦ some (record { num_cnt = num_cnt; last_allocated = 0; ba = ba })
    ]

-- `pxNumMgrCreate`; the flags say whether the two allocations succeed.
unfoldable pub create : (struct_memory array_memory : Bool) → ℕ → Option NumMgr
unfolding init
create struct_memory array_memory count =
    if count == uint_max then none else if struct_memory then init array_memory count else none

-- How `ulNumMgrAllocate` ends: with a number, with UINT_MAX, or not within the rounds given.
pub data Outcome : Type 0 where
  allocated : ℕ → NumMgr → Outcome
  exhausted : Outcome
  running : Outcome

-- `if (p == im->numCnt) p = 1`
abbrev pub wrap : NumMgr → ℕ → ℕ
wrap nm p = if p == nm.num_cnt then 1 else p

unfoldable pub take_number : NumMgr → ℕ → NumMgr
take_number nm p = record nm { ba = BitArray.set_bit nm.ba p; last_allocated = p }

-- The `for (;; p++)` loop, from `p` on.
unfoldable pub scan : ℕ → NumMgr → ℕ → Outcome
scan zero nm p = running
scan (suc fuel) nm p =
    let rest = scan fuel nm ((wrap nm p + 1) % 2 ^ 32) in
    if p == nm.last_allocated
    then exhausted
    else if not (BitArray.get_bit nm.ba (wrap nm p))
    then allocated (wrap nm p) (take_number nm (wrap nm p))
    else rest

-- `ulNumMgrAllocate`
unfoldable pub allocate : (fuel : ℕ) → NumMgr → Outcome
unfolding scan take_number
allocate fuel nm = scan fuel nm ((nm.last_allocated + 1) % 2 ^ 32)

-- `xNumMgrRelease`
unfoldable pub release : NumMgr → ℕ → Bool × NumMgr
release nm n =
    if not (BitArray.get_bit nm.ba n)
    then (false, nm)
    else (true, record nm { ba = BitArray.clear_bit nm.ba n })

-- `xNumMgrIsAllocated`
unfoldable pub is_allocated : NumMgr → ℕ → Bool
is_allocated nm n = BitArray.get_bit nm.ba n

-- What holds of every manager that `create` made and the operations changed.
pub record IsValid (nm : NumMgr) : Type 0 where
  pub array : BitArray.Laws.IsValid nm.ba
  pub bits : nm.ba.nbbits ≡ nm.num_cnt
  pub some_number : 2 ≤ nm.num_cnt
  pub small : nm.num_cnt < 2 ^ 32
  pub last : nm.last_allocated < nm.num_cnt
  -- Before the first allocation every number is free.
  pub fresh : nm.last_allocated ≡ 0 → is_allocated nm 1 ≡ false
