-- ===== src/Common/Tests/Numbers.antt =====
-- num_mgr.c and bit_array.h at concrete inputs.
use rinasense.Base.{
  ℕ, ◌+◌, ◌≤◌, ◌<◌, ◌≡◌, ◌≢◌, refl, true, false, [], ◌∷◌, arith, if◌then◌else◌, ◌==◌, suc, zero,
}
use rinasense.Common.BitArray.{BitArray, get_bit, set_bit, clear_bit, alloc}
use rinasense.Common.BitArray.Laws
use rinasense.Common.BitArray.Laws.{get_bit-set_bit, get_bit-clear_bit, alloc_lem}
use rinasense.Common.NumMgr.{
  NumMgr, IsValid, allocated, exhausted, running, allocate, release, create, is_allocated,
}
use rinasense.Common.NumMgr.Scan.{InRange, Took}
use rinasense.Common.NumMgr.Allocate.{allocate-Took, allocate-exhausted, allocate-finds}
use rinasense.Common.NumMgr.Full.{allocate-spins, allocate-misses_last}
use rinasense.Common.NumMgr.Release.{release_lem, create-IsValid}

-- Forty bits, with bit 33 set.
abbrev forty : BitArray
forty = record { nbbits = 40; units = 0 ∷ 2 ∷ [] }

forty-IsValid : Laws.IsValid forty
forty-IsValid = omega arith

set_bit_runs : get_bit (set_bit forty 35) 33 ≡ get_bit forty 33
set_bit_runs = get_bit-set_bit forty 35 33 forty-IsValid

clear_bit_runs : get_bit (clear_bit forty 33) 33 ≡ false
clear_bit_runs = get_bit-clear_bit forty 33 33 forty-IsValid

alloc_runs :
    let ba : BitArray = record { nbbits = 40; units = 0 ∷ 0 ∷ [] } in
    Laws.IsValid ba × (ba.nbbits ≡ 40) × (get_bit ba 33 ≡ false)
alloc_runs = alloc_lem 40 33 (unfold alloc in refl)

-- Three numbers, of which `taken` are in use.
abbrev three : ℕ → ℕ → NumMgr
three last taken = record {
  num_cnt = 4;
  last_allocated = last;
  ba = record { nbbits = 4; units = taken ∷ [] };
}

three-IsValid : (last taken : ℕ) → 1 ≤ last → last < 4 → IsValid (three last taken)
three-IsValid last taken lo hi = record {
  array = omega arith;
  bits = refl;
  some_number = omega arith;
  small = omega arith;
  last = hi;
  fresh = λ e. absurd (omega arith);
}

-- 1 and 2 are in use.
two_used : IsValid (three 2 6)
two_used = three-IsValid 2 6 (omega arith) (omega arith)

next_number : allocate 4 (three 2 6) ≡ allocated 3 (three 3 14)
unfolding allocate get_bit set_bit
next_number = refl

allocate-Took_example : Took (three 2 6) 3 (three 3 14)
allocate-Took_example = allocate-Took (three 2 6) two_used 4 next_number

allocate-finds_example : (p : ℕ) × (nm : NumMgr) × (allocate 4 (three 2 6) ≡ allocated p nm)
allocate-finds_example =
    allocate-finds (three 2 6) two_used 3 (omega arith) (unfold is_allocated get_bit in refl)
      (omega arith)

-- Every number is in use but 3, the last one allocated.
all_but_last : IsValid (three 3 6)
all_but_last = three-IsValid 3 6 (omega arith) (omega arith)

full_at :
    (taken : ℕ)
    → is_allocated (three 3 taken) 1 ≡ true
    → is_allocated (three 3 taken) 2 ≡ true
    → (q : ℕ) → InRange (three 3 taken) q
    → q ≢ 3
    → is_allocated (three 3 taken) q ≡ true
full_at taken one two zero r ne = absurd (omega arith)
full_at taken one two (suc zero) r ne = one
full_at taken one two (suc (suc zero)) r ne = two
full_at taken one two (suc (suc (suc q))) r ne = absurd (omega arith)

gives_up : allocate 4 (three 3 6) ≡ exhausted
unfolding allocate get_bit
gives_up = refl

allocate-exhausted_example : is_allocated (three 3 6) 2 ≡ true
allocate-exhausted_example =
    allocate-exhausted (three 3 6) all_but_last 4 gives_up 2 (omega arith) (omega arith)

allocate-misses_last_runs : allocate 4 (three 3 6) ≡ exhausted
allocate-misses_last_runs =
    allocate-misses_last (three 3 6) all_but_last (omega arith)
      (full_at 6 (unfold is_allocated get_bit in refl) (unfold is_allocated get_bit in refl))

-- Every number is in use, and 1 was the last one allocated.
all_used : (q : ℕ) → InRange (three 1 14) q → is_allocated (three 1 14) q ≡ true
unfolding is_allocated get_bit
all_used zero r = absurd (omega arith)
all_used (suc zero) r = refl
all_used (suc (suc zero)) r = refl
all_used (suc (suc (suc zero))) r = refl
all_used (suc (suc (suc (suc q)))) r = absurd (omega arith)

allocate-spins_example : allocate 1000 (three 1 14) ≡ running
allocate-spins_example =
    allocate-spins (three 1 14) (three-IsValid 1 14 (omega arith) (omega arith)) refl all_used 1000

release_lem_runs :
    let (was, nm) = release (three 2 6) 1 in
    (was ≡ is_allocated (three 2 6) 1)
    × ((m : ℕ) → is_allocated nm m ≡ (if 1 == m then false else is_allocated (three 2 6) m))
    × IsValid nm
release_lem_runs = release_lem (three 2 6) two_used 1

create_runs : IsValid (three 0 0) × (4 ≡ 3 + 1) × ((m : ℕ) → is_allocated (three 0 0) m ≡ false)
create_runs =
    create-IsValid 3 {nm = three 0 0} (omega arith) (omega arith) (unfold create alloc in refl)
