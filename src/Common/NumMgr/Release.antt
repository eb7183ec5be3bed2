-- ===== src/Common/NumMgr/Release.antt =====
-- `xNumMgrRelease` and `pxNumMgrCreate`.
use rinasense.Base.{
  refl, subst, ◌/◌, replicate, ℕ, ◌+◌, ◌%◌, ◌^◌, ◌≤◌, ◌<◌, ◌≡◌, true, false, some, inl, inr,
  Bool-cases, ◌==◌, if◌then◌else◌, arith,
}
use rinasense.Common.BitArray
use rinasense.Common.BitArray.{alloc}
use rinasense.Common.NumMgr.{NumMgr, IsValid, create, release, is_allocated, uint_max}

module _ (nm : NumMgr) (v : IsValid nm) (n : ℕ) where
  -- `xNumMgrRelease` says whether the number was taken, frees it, changes no other number, and
  -- keeps the manager valid.
  pub release_lem :
      let (was, nm') = release nm n in
      (was ≡ is_allocated nm n)
      × ((m : ℕ) → is_allocated nm' m ≡ (if n == m then false else is_allocated nm m))
      × IsValid nm'
  unfolding release is_allocated
  release_lem = (
    ground arith,
    λ m. ground (arith, BitArray.Laws.get_bit-clear_bit nm.ba n m v.array),
    elim (Bool-cases (BitArray.get_bit nm.ba n)) [
      | inl taken ↦ rw taken (record {
        array = BitArray.Laws.clear_bit-IsValid nm.ba n v.array;
        bits = omega (arith, BitArray.Laws.nbbits-clear_bit nm.ba n);
        some_number = v.some_number;
        small = v.small;
        last = v.last;
        fresh = λ z. ground (arith, v.fresh z, BitArray.Laws.get_bit-clear_bit nm.ba n 1 v.array);
      })
      | inr free ↦ rw free v
    ],
  )

zeroed : ℕ → BitArray.BitArray
zeroed n = record { nbbits = n; units = replicate (n / 32 + 1) 0 }

fresh : ℕ → NumMgr
fresh count = record { num_cnt = count + 1; last_allocated = 0; ba = zeroed (count + 1) }

create-fresh : (count : ℕ) → count + 1 < 2 ^ 32 → create true true count ≡ some (fresh count)
unfolding create fresh zeroed
create-fresh count hi =
    let wide : (count + 1) % 2 ^ 64 ≡ count + 1 = omega arith in
    let narrow : (count + 1) % 2 ^ 32 ≡ count + 1 = omega arith in
    let small : (count == uint_max) ≡ false = ground arith in rw (small, wide, narrow)

fresh-IsValid :
    (count : ℕ)
    → 1 ≤ count
    → count + 1 < 2 ^ 32
    → IsValid (fresh count)
      × ((fresh count).num_cnt ≡ count + 1)
      × ((m : ℕ) → is_allocated (fresh count) m ≡ false)
unfolding fresh zeroed alloc is_allocated
fresh-IsValid count lo hi =
    let law = λ (m : ℕ). BitArray.Laws.alloc_lem (count + 1) {ba = zeroed (count + 1)} m refl in
    (
      record {
        array = (law 0).0;
        bits = refl;
        some_number = omega arith;
        small = hi;
        last = omega arith;
        fresh = λ _. (law 1).2;
      },
      refl,
      λ m. (law m).2,
    )

-- A manager that `pxNumMgrCreate` makes for at least one number is valid, covers the numbers
-- 1 .. count, and has them all free.
pub create-IsValid :
    (count : ℕ) {nm : NumMgr}
    → 1 ≤ count
    → count + 1 < 2 ^ 32
    → create true true count ≡ some nm
    → IsValid nm × (nm.num_cnt ≡ count + 1) × ((m : ℕ) → is_allocated nm m ≡ false)
create-IsValid count {nm} lo hi e =
    let same : fresh count ≡ nm = cc (create-fresh count hi, e) in
    subst (λ n. IsValid n × (n.num_cnt ≡ count + 1) × ((m : ℕ) → is_allocated n m ≡ false)) same
      (fresh-IsValid count lo hi)
