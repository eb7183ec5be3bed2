-- ===== src/Common/NumMgr/Allocate.antt =====
-- `ulNumMgrAllocate`: what a call returns, and when it returns.
use rinasense.Base.{
  ℕ, zero, suc, ◌+◌, ◌-◌, ◌%◌, ◌^◌, ◌≤◌, ◌<◌, ◌≡◌, ◌≢◌, ◌⊎◌, inl, inr, refl, ap, ◌∙◌, ltb, true,
  false, ◌==◌, arith, Bool-cases,
}
use rinasense.Common.BitArray.{get_bit}
use rinasense.Common.NumMgr.{
  NumMgr, IsValid, Outcome, allocated, exhausted, running, wrap, scan, take_number, allocate,
  is_allocated,
}
use rinasense.Common.NumMgr.Scan.{
  InRange, Took, scan-take, scan-skip, scan-allocated, scan-exhausted, scan-ends,
}

module _ (nm : NumMgr) (v : IsValid nm) where
  start : (nm.last_allocated + 1) % 2 ^ 32 ≡ nm.last_allocated + 1
  start = omega arith

  -- A number that `ulNumMgrAllocate` returns lies in 1 .. numCnt - 1, was free, and is taken
  -- afterwards, while no other number changes; the manager stays valid.
  pub allocate-Took :
      (fuel : ℕ) {q : ℕ} {nm' : NumMgr} → allocate fuel nm ≡ allocated q nm' → Took nm q nm'
  unfolding allocate
  allocate-Took fuel e =
      scan-allocated nm v fuel (nm.last_allocated + 1) (omega arith) (omega arith) (rw start at e)

  -- When `ulNumMgrAllocate` returns UINT_MAX, every number but the last one allocated is taken.
  pub allocate-exhausted :
      (fuel : ℕ)
      → allocate fuel nm ≡ exhausted
      → (q : ℕ) → InRange nm q
      → q ≢ nm.last_allocated
      → is_allocated nm q ≡ true
  unfolding allocate
  allocate-exhausted fuel e =
      scan-exhausted nm v fuel (nm.last_allocated + 1) (omega arith) (omega arith)
        (λ q lo hi b. absurd (ground arith)) (rw start at e)

  -- With the last number at most one, a free number ahead ends the loop.
  scan-reaches :
      (fuel p q : ℕ)
      → 1 ≤ p
      → p ≤ nm.num_cnt
      → nm.last_allocated < p
      → nm.last_allocated ≤ 1
      → InRange nm q
      → is_allocated nm q ≡ false
      → (p ≤ q) ⊎ (q ≡ 1)
      → nm.num_cnt - p < fuel
      → scan fuel nm p ≢ running
  unfolding is_allocated
  scan-reaches zero p q lo hi past low r free ahead enough e = absurd (omega arith)
  scan-reaches (suc fuel) p q lo hi past low r free ahead enough e =
      elim (Bool-cases (get_bit nm.ba (wrap nm p))) [
        | inl busy ↦ elim (Bool-cases (wrap nm p == q)) [
          | inl here ↦ let same : wrap nm p ≡ q = ground arith in cc (busy, free, same)
          | inr away ↦
              scan-reaches fuel (wrap nm p + 1) q (omega arith) (ground arith) (ground arith) low r
                free (ground arith) (ground arith)
                (rw (scan-skip nm v fuel p (ground arith) busy hi) at e)
        ]
        | inr open_number ↦ cc (e, scan-take nm v fuel p (ground arith) open_number)
      ]

  -- Whenever some number is free, the loop of `ulNumMgrAllocate` ends within `numCnt` rounds.
  pub allocate-ends :
      (q : ℕ) → InRange nm q → is_allocated nm q ≡ false → allocate nm.num_cnt nm ≢ running
  unfolding allocate
  allocate-ends q r free e = elim (Bool-cases (ltb nm.last_allocated 2)) [
    | inl low ↦
        scan-reaches nm.num_cnt (nm.last_allocated + 1) q (omega arith) (omega arith) (omega arith)
          (ground arith) r free (ground arith) (omega arith) (rw start at e)
    | inr high ↦
        scan-ends nm v nm.num_cnt (nm.last_allocated + 1) (omega arith) (omega arith) (ground arith)
          (ground arith) (rw start at e)
  ]

  -- On a valid manager, whenever a number other than the last one allocated is free, `ulNumMgrAllocate` returns a
  -- number within `numCnt` rounds of its loop.
  pub allocate-finds :
      (q : ℕ)
      → InRange nm q
      → is_allocated nm q ≡ false
      → q ≢ nm.last_allocated
      → (p : ℕ) × (nm' : NumMgr) × (allocate nm.num_cnt nm ≡ allocated p nm')
  allocate-finds q r free ne = by_outcome (allocate nm.num_cnt nm) refl
    where
      by_outcome :
          (o : Outcome)
          → allocate nm.num_cnt nm ≡ o
          → (p : ℕ) × (nm' : NumMgr) × (allocate nm.num_cnt nm ≡ allocated p nm')
      by_outcome (allocated p nm') e = (p, nm', e)
      by_outcome exhausted e = absurd (cc (free, allocate-exhausted nm.num_cnt e q r ne))
      by_outcome running e = absurd (allocate-ends q r free e)

  -- From a position behind the last number allocated, the loop hands out the first free number.
  scan-first :
      (fuel p q : ℕ)
      → nm.last_allocated < p
      → p ≤ q
      → q < nm.num_cnt
      → is_allocated nm q ≡ false
      → q - p < fuel
      → (r : ℕ) × (nm' : NumMgr) × (scan fuel nm p ≡ allocated r nm')
        × (p ≤ r)
        × ((n : ℕ) → p ≤ n → n < r → is_allocated nm n ≡ true)
  unfolding is_allocated
  scan-first zero p q past lo hi free enough = absurd (omega arith)
  scan-first (suc fuel) p q past lo hi free enough = elim (Bool-cases (get_bit nm.ba p)) [
    | inl busy ↦ elim (Bool-cases (p == q)) [
      | inl here ↦ let same : p ≡ q = ground arith in absurd (cc (busy, free, same))
      | inr away ↦
          let (r, nm', e, further, taken) =
            scan-first fuel (p + 1) q (omega arith) (ground arith) hi free (ground arith) in
          (
            r,
            nm',
            scan-skip nm v fuel p (ground arith) (ground (arith, busy)) (omega arith)
                ∙ (ap (λ k. scan fuel nm (k + 1)) (wrap_inside p (omega arith)) ∙ e),
            omega arith,
            λ n above below. elim (Bool-cases (n == p)) [
              | inl at ↦ let same : n ≡ p = ground arith in rw same busy
              | inr after ↦ taken n (ground arith) below
            ],
          )
    ]
    | inr open_number ↦ (
      p,
      take_number nm p,
      scan-take nm v fuel p (ground arith) (ground (arith, open_number))
          ∙ ap (λ k. allocated k (take_number nm k)) (wrap_inside p (omega arith)),
      omega arith,
      λ n above below. absurd (omega arith),
    )
  ]
    where
      wrap_inside : (n : ℕ) → n < nm.num_cnt → wrap nm n ≡ n
      wrap_inside n h = ground arith

  -- On a valid manager where a number behind the last one allocated is free, `ulNumMgrAllocate`
  -- returns, within `numCnt` rounds, a number behind it such that all between are taken.
  pub allocate-first :
      (q : ℕ)
      → nm.last_allocated < q
      → q < nm.num_cnt
      → is_allocated nm q ≡ false
      → (r : ℕ) × (nm' : NumMgr) × (allocate nm.num_cnt nm ≡ allocated r nm')
        × (nm.last_allocated < r)
        × ((n : ℕ) → nm.last_allocated < n → n < r → is_allocated nm n ≡ true)
  unfolding allocate
  allocate-first q lo hi free =
      let (r, nm', e, past, taken) =
        scan-first nm.num_cnt (nm.last_allocated + 1) q (omega arith) (omega arith) hi free
          (omega arith) in
      (r, nm', rw start e, omega arith, λ n above below. taken n (omega arith) below)
