-- ===== src/Common/NumMgr/Scan.antt =====
-- One round of the loop of `ulNumMgrAllocate`, and what a whole run of it has seen.
use rinasense.Base.{
  ℕ, zero, suc, ◌+◌, ◌-◌, ◌%◌, ◌^◌, ◌≤◌, ◌<◌, ◌≡◌, ◌≢◌, ◌⊎◌, inl, inr, sym, ◌∙◌, true, false, ◌==◌,
  if◌then◌else◌, arith, Bool-cases, ltb,
}
use mathlib.Core.Path.{subst₂}
use rinasense.Common.BitArray.{get_bit}
use rinasense.Common.BitArray.Laws
use rinasense.Common.NumMgr.{
  NumMgr, IsValid, allocated, exhausted, running, wrap, scan, take_number, is_allocated,
}

-- The numbers that the manager hands out.
abbrev pub InRange : NumMgr → ℕ → Type 0
InRange nm n = (1 ≤ n) × (n < nm.num_cnt)

pub record Took (nm : NumMgr) (p : ℕ) (nm' : NumMgr) : Type 0 where
  pub in_range : InRange nm p
  pub was_free : is_allocated nm p ≡ false
  pub others : (m : ℕ) → is_allocated nm' m ≡ (if p == m then true else is_allocated nm m)
  pub valid : IsValid nm'

module _ (nm : NumMgr) (v : IsValid nm) where
  take_number-Took :
      (p : ℕ) → InRange nm p → is_allocated nm p ≡ false → Took nm p (take_number nm p)
  unfolding take_number is_allocated
  take_number-Took p r free = record {
    in_range = r;
    was_free = free;
    others = λ m. ground (arith, Laws.get_bit-set_bit nm.ba p m v.array);
    valid = record {
      array = Laws.set_bit-IsValid nm.ba p v.array;
      bits = omega (arith, Laws.nbbits-set_bit nm.ba p);
      some_number = omega arith;
      small = omega arith;
      last = omega arith;
      fresh = λ e. absurd (omega arith);
    };
  }

  module _ (fuel p : ℕ) where
    pub scan-stop : (p == nm.last_allocated) ≡ true → scan (suc fuel) nm p ≡ exhausted
    unfolding scan
    scan-stop stop = ground arith

    pub scan-take :
        (p == nm.last_allocated) ≡ false
        → get_bit nm.ba (wrap nm p) ≡ false
        → scan (suc fuel) nm p ≡ allocated (wrap nm p) (take_number nm (wrap nm p))
    unfolding scan
    scan-take on free = ground arith

    pub scan-skip :
        (p == nm.last_allocated) ≡ false
        → get_bit nm.ba (wrap nm p) ≡ true
        → p ≤ nm.num_cnt
        → scan (suc fuel) nm p ≡ scan fuel nm (wrap nm p + 1)
    unfolding scan
    scan-skip on busy hi =
        let small : (wrap nm p + 1) % 2 ^ 32 ≡ wrap nm p + 1 = ground arith in rw (on, busy, small)

  -- A number that the loop finds free is one that it may hand out.
  pub scan-allocated :
      (fuel p : ℕ) {q : ℕ} {nm' : NumMgr}
      → 1 ≤ p
      → p ≤ nm.num_cnt
      → scan fuel nm p ≡ allocated q nm'
      → Took nm q nm'
  unfolding is_allocated
  scan-allocated zero p lo hi e = absurd (unfold scan in (cc e))
  scan-allocated (suc fuel) p {q} {nm'} lo hi e = elim (Bool-cases (p == nm.last_allocated)) [
    | inl stop ↦ absurd (cc (e, scan-stop fuel p stop))
    | inr on ↦ elim (Bool-cases (get_bit nm.ba (wrap nm p))) [
      | inl busy ↦
          scan-allocated fuel (wrap nm p + 1) (omega arith) (ground arith)
            (rw (scan-skip fuel p on busy hi) at e)
      | inr free ↦
          let same : allocated (wrap nm p) (take_number nm (wrap nm p)) ≡ allocated q nm' =
            sym (scan-take fuel p on free) ∙ e in
          subst₂ (λ q nm'. Took nm q nm') (cc same) (cc same)
            (take_number-Took (wrap nm p) (ground arith) free)
    ]
  ]

  -- The numbers behind the position: from the last one allocated up to it, going round.
  abbrev Behind : ℕ → ℕ → Type 0
  Behind p q =
      (nm.last_allocated < q) × (q < p)
      ⊎ (p ≤ nm.last_allocated) × (nm.last_allocated < q)
      ⊎ (p ≤ nm.last_allocated) × (q < p)

  abbrev Seen : ℕ → Type 0
  Seen p = (q : ℕ) → 1 ≤ q → q < nm.num_cnt → Behind p q → is_allocated nm q ≡ true

  Seen-skip :
      (p : ℕ)
      → 1 ≤ p
      → p ≤ nm.num_cnt
      → p ≢ nm.last_allocated
      → is_allocated nm (wrap nm p) ≡ true
      → Seen p
      → Seen (wrap nm p + 1)
  Seen-skip p lo hi ne busy seen q lo' hi' b = elim (Bool-cases (q == wrap nm p)) [
    | inl here ↦ let e : q ≡ wrap nm p = ground arith in rw e busy
    | inr away ↦ seen q lo' hi' (ground arith)
  ]

  -- When the loop gives up, every number but the last one allocated is taken.
  pub scan-exhausted :
      (fuel p : ℕ)
      → 1 ≤ p
      → p ≤ nm.num_cnt
      → Seen p
      → scan fuel nm p ≡ exhausted
      → (q : ℕ) → InRange nm q
      → q ≢ nm.last_allocated
      → is_allocated nm q ≡ true
  scan-exhausted zero p lo hi seen e q r ne = absurd (unfold scan in (cc e))
  scan-exhausted (suc fuel) p lo hi seen e q r ne = elim (Bool-cases (p == nm.last_allocated)) [
    | inl stop ↦ seen q r.0 r.1 (ground arith)
    | inr on ↦ elim (Bool-cases (get_bit nm.ba (wrap nm p))) [
      | inl busy ↦
          scan-exhausted fuel (wrap nm p + 1) (omega arith) (ground arith)
            (Seen-skip p lo hi (ground arith) (unfold is_allocated in busy) seen)
            (rw (scan-skip fuel p on busy hi) at e) q r ne
      | inr free ↦ absurd (cc (e, scan-take fuel p on free))
    ]
  ]

  -- Rounds left before the position comes back to the last number allocated.
  abbrev rounds : ℕ → ℕ
  rounds p =
      if ltb nm.last_allocated p
      then (nm.num_cnt - p) + nm.last_allocated
      else nm.last_allocated - p

  -- Where the last number allocated is two or more, the loop ends within the rounds left.
  pub scan-ends :
      (fuel p : ℕ)
      → 1 ≤ p
      → p ≤ nm.num_cnt
      → 2 ≤ nm.last_allocated
      → rounds p < fuel
      → scan fuel nm p ≢ running
  scan-ends zero p lo hi two enough e = absurd (omega arith)
  scan-ends (suc fuel) p lo hi two enough e = elim (Bool-cases (p == nm.last_allocated)) [
    | inl stop ↦ cc (e, scan-stop fuel p stop)
    | inr on ↦ elim (Bool-cases (get_bit nm.ba (wrap nm p))) [
      | inl busy ↦
          scan-ends fuel (wrap nm p + 1) (omega arith) (ground arith) two (ground arith)
            (rw (scan-skip fuel p on busy hi) at e)
      | inr free ↦ cc (e, scan-take fuel p on free)
    ]
  ]
