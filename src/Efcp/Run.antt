-- ===== src/Efcp/Run.antt =====
-- components/EFCP/dtp.c: runs of data units in order, repeated ones and gaps.
use rinasense.Base.{
  ℕ, zero, suc, ◌+◌, ◌-◌, ◌^◌, ◌<◌, ◌≡◌, refl, ap, ◌∙◌, sym, subst, true, false, List, [], ◌∷◌,
  ◌++◌, length, replicate, All, arith,
}
use rinasense.Base.Bits.{test_bit}
use rinasense.Efcp.{StateVector}
use rinasense.Efcp.Dtp.{dtp_receive}
use rinasense.Efcp.Window.{
  receive_all, receive_all-step, receive_all-old, at_edge, IsOld, dtp_receive-next, dtp_receive-gap,
}

-- Data units with the numbers after `edge`, one for each of the flags.
abbrev pub run : ℕ → List ℕ → List (ℕ × ℕ)
run edge [] = []
run edge (flags ∷ more) = (edge + 1, flags) ∷ run (edge + 1) more

-- So many numbers after `edge`.
abbrev pub numbers : ℕ → List ℕ → List ℕ
numbers edge [] = []
numbers edge (flags ∷ more) = (edge + 1) ∷ numbers (edge + 1) more

run-numbers :
    (sv : StateVector) (edge : ℕ) (flags : List ℕ) (old : List (ℕ × ℕ))
    → sv.drf_required ≡ false
    → edge + length flags < 2 ^ 32
    → All (IsOld (edge + length flags)) old
    → receive_all (at_edge sv edge) (run edge flags ++ old)
      ≡ (numbers edge flags, at_edge sv (edge + length flags))
run-numbers sv edge [] old d h o =
    let here : edge + 0 ≡ edge = omega arith in
    receive_all-old (at_edge sv edge) old d (subst (λ e. All (IsOld e) old) here o)
    ∙ ap (λ e. ([], at_edge sv e)) (sym here)
run-numbers sv edge (f ∷ flags) old d h o =
    let along : edge + 1 + length flags ≡ edge + suc (length flags) = omega arith in
    receive_all-step (at_edge sv edge) (edge + 1) f (run (edge + 1) flags ++ old) _
      (dtp_receive-next (at_edge sv edge) (edge + 1) f d refl (omega (arith, h)))
    ∙ (ap (λ p. ((edge + 1) ∷ p.0, p.1))
          (run-numbers sv (edge + 1) flags old d (omega (arith, h))
            (subst (λ e. All (IsOld e) old) (sym along) o))
        ∙ ap (λ e. (numbers edge (f ∷ flags), at_edge sv e)) along)

-- The state once a data unit with the data run flag has come in.
abbrev pub started : StateVector → ℕ → StateVector
started sv seq_num = record sv { drf_required = false; rcv_left_window_edge = seq_num }

dtp_receive-drf :
    (sv : StateVector) (seq_num flags : ℕ)
    → sv.drf_required ≡ true
    → test_bit flags 7 ≡ true
    → dtp_receive sv seq_num flags
      ≡ record { ok = true; posted = true; vector = started sv seq_num }
unfolding dtp_receive
dtp_receive-drf sv seq_num flags d f = simp (d, f) refl

-- A connection that waits for the data run flag gets a data unit with it, those with the numbers
-- after it in order, and then, in any order, data units it has had: each number is posted once, in
-- order, and the left edge is the last of them.
pub receive_all-numbers :
    (sv : StateVector) (first first_flags : ℕ) (flags : List ℕ) (old : List (ℕ × ℕ))
    → sv.drf_required ≡ true
    → test_bit first_flags 7 ≡ true
    → first + length flags < 2 ^ 32
    → All (IsOld (first + length flags)) old
    → receive_all sv ((first, first_flags) ∷ (run first flags ++ old))
      ≡ (first ∷ numbers first flags, started sv (first + length flags))
receive_all-numbers sv first first_flags flags old d f h o =
    receive_all-step sv first first_flags (run first flags ++ old) _
      (dtp_receive-drf sv first first_flags d f)
    ∙ ap (λ p. (first ∷ p.0, p.1)) (run-numbers (started sv first) first flags old refl h o)

-- A data unit that leaves a gap behind the left edge is posted every time that it comes in, and
-- the window does not move.
pub receive_all-gap :
    (sv : StateVector) (seq_num flags n : ℕ)
    → sv.drf_required ≡ false
    → sv.rcv_left_window_edge + 1 < seq_num
    → receive_all sv (replicate n (seq_num, flags)) ≡ (replicate n seq_num, sv)
unfolding receive_all
receive_all-gap sv seq_num flags zero d h = refl
receive_all-gap sv seq_num flags (suc n) d h =
    receive_all-step sv seq_num flags (replicate n (seq_num, flags)) _
      (dtp_receive-gap sv seq_num flags d h)
    ∙ ap (λ p. (seq_num ∷ p.0, p.1)) (receive_all-gap sv seq_num flags n d h)

-- Once the left edge is the last sequence number there is, no data unit is posted any more.
pub receive_all-stuck :
    (sv : StateVector) (units : List (ℕ × ℕ))
    → sv.drf_required ≡ false
    → sv.rcv_left_window_edge ≡ 2 ^ 32 - 1
    → All (IsOld (2 ^ 32 - 1)) units
    → receive_all sv units ≡ ([], sv)
receive_all-stuck sv units d e h =
    receive_all-old sv units d (subst (λ n. All (IsOld n) units) (sym e) h)
