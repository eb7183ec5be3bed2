-- ===== src/Common/NumMgr/Full.antt =====
-- The corner cases of `ulNumMgrAllocate` when few or no numbers are left.
use rinasense.Base.{
  ℕ, zero, suc, ◌+◌, ◌-◌, ◌%◌, ◌^◌, ◌≤◌, ◌<◌, ◌≡◌, ◌≢◌, inl, inr, refl, ◌∙◌, true, ◌==◌, arith,
  Bool-cases, if◌then◌else◌, ltb,
}
use rinasense.Common.NumMgr.{
  NumMgr, IsValid, exhausted, running, wrap, scan, allocate, is_allocated,
}
use rinasense.Common.NumMgr.Scan.{InRange, scan-stop, scan-skip}

module _ (nm : NumMgr) (v : IsValid nm) where
  scan-never :
      (fuel p : ℕ)
      → 2 ≤ p
      → p ≤ nm.num_cnt
      → nm.last_allocated ≡ 1
      → ((q : ℕ) → InRange nm q → is_allocated nm q ≡ true)
      → scan fuel nm p ≡ running
  unfolding is_allocated
  scan-never zero p lo hi one full = unfold scan in refl
  scan-never (suc fuel) p lo hi one full =
      scan-skip nm v fuel p (ground arith) (full (wrap nm p) (ground arith)) hi
      ∙ scan-never fuel (wrap nm p + 1) (ground arith) (ground arith) one full

  -- When every number is taken and the last one allocated is 1, `ulNumMgrAllocate` never
  -- returns: no number of rounds ends its loop.
  pub allocate-spins :
      nm.last_allocated ≡ 1
      → ((q : ℕ) → InRange nm q → is_allocated nm q ≡ true)
      → (fuel : ℕ) → allocate fuel nm ≡ running
  unfolding allocate
  allocate-spins one full fuel =
      let start : (nm.last_allocated + 1) % 2 ^ 32 ≡ 2 = omega arith in
      rw start (scan-never fuel 2 (omega arith) (omega arith) one full)

  scan-comes_back :
      (fuel p : ℕ)
      → 1 ≤ p
      → p ≤ nm.num_cnt
      → 2 ≤ nm.last_allocated
      → (if ltb nm.last_allocated p
          then (nm.num_cnt - p) + nm.last_allocated
          else nm.last_allocated - p)
        < fuel
      → ((q : ℕ) → InRange nm q → q ≢ nm.last_allocated → is_allocated nm q ≡ true)
      → scan fuel nm p ≡ exhausted
  unfolding is_allocated
  scan-comes_back zero p lo hi two enough full = absurd (omega arith)
  scan-comes_back (suc fuel) p lo hi two enough full = elim (Bool-cases (p == nm.last_allocated)) [
    | inl stop ↦ scan-stop nm v fuel p stop
    | inr on ↦
        scan-skip nm v fuel p on (full (wrap nm p) (ground arith) (ground arith)) hi
        ∙ scan-comes_back fuel (wrap nm p + 1) (omega arith) (ground arith) two (ground arith) full
  ]

  -- When every number but the last one allocated is taken, and that one is two or more,
  -- `ulNumMgrAllocate` returns UINT_MAX, whether or not that last number has been released.
  pub allocate-misses_last :
      2 ≤ nm.last_allocated
      → ((q : ℕ) → InRange nm q → q ≢ nm.last_allocated → is_allocated nm q ≡ true)
      → allocate nm.num_cnt nm ≡ exhausted
  unfolding allocate
  allocate-misses_last two full =
      let start : (nm.last_allocated + 1) % 2 ^ 32 ≡ nm.last_allocated + 1 = omega arith in
      rw start (
        scan-comes_back nm.num_cnt (nm.last_allocated + 1) (omega arith) (omega arith) two
          (ground arith) full)
