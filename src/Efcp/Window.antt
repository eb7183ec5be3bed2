-- ===== src/Efcp/Window.antt =====
-- components/EFCP/dtp.c: what a sequence of data units does to the window of `xDtpReceive`.
use rinasense.Base.{
  ℕ, ◌+◌, ◌%◌, ◌^◌, ◌≤◌, ◌<◌, ◌≡◌, ◌⊎◌, refl, ap, ◌∙◌, sym, subst, Bool, true, false, List, [], ◌∷◌,
  if◌then◌else◌, ◌==◌, leb, All, arith, Bool-cases, inl, inr, times,
}
use rinasense.Efcp.{StateVector}
use rinasense.Efcp.Dtp.{Received, dtp_receive}

-- The data units of a run of calls, by sequence number and flags: those that are posted, and the
-- state that is left.
unfoldable pub receive_all : StateVector → List (ℕ × ℕ) → List ℕ × StateVector
receive_all sv [] = ([], sv)
receive_all sv ((seq_num, flags) ∷ units) =
    let r = dtp_receive sv seq_num flags in
    let later = receive_all r.vector units in
    (if r.posted then seq_num ∷ later.0 else later.0, later.1)

-- A run has begun, and the left edge of the window is this.
abbrev pub IsRunning : StateVector → ℕ → Type 0
IsRunning sv edge = (sv.drf_required ≡ false) × (sv.rcv_left_window_edge ≡ edge)

abbrev pub at_edge : StateVector → ℕ → StateVector
at_edge sv edge = record sv { rcv_left_window_edge = edge }

module _ (sv : StateVector) (seq_num flags : ℕ) (running : sv.drf_required ≡ false) where
  pub dtp_receive-old :
      seq_num ≤ sv.rcv_left_window_edge
      → dtp_receive sv seq_num flags ≡ record { ok = false; posted = false; vector = sv }
  unfolding dtp_receive
  dtp_receive-old h =
      let old : leb seq_num sv.rcv_left_window_edge ≡ true = ground (arith, h) in
      simp (running, old) refl

  pub dtp_receive-next :
      seq_num ≡ sv.rcv_left_window_edge + 1
      → seq_num < 2 ^ 32
      → dtp_receive sv seq_num flags
        ≡ record { ok = true; posted = true; vector = at_edge sv seq_num }
  unfolding dtp_receive
  dtp_receive-next h k =
      let new : leb seq_num sv.rcv_left_window_edge ≡ false = ground (arith, h) in
      let next : (seq_num == (sv.rcv_left_window_edge + 1) % 2 ^ 32) ≡ true =
        ground (arith, h, k) in
      simp (running, new, next) refl

  pub dtp_receive-gap :
      sv.rcv_left_window_edge + 1 < seq_num
      → dtp_receive sv seq_num flags ≡ record { ok = true; posted = true; vector = sv }
  unfolding dtp_receive
  dtp_receive-gap h =
      let new : leb seq_num sv.rcv_left_window_edge ≡ false = ground (arith, h) in
      let next : (seq_num == (sv.rcv_left_window_edge + 1) % 2 ^ 32) ≡ false = ground (arith, h) in
      simp (running, new, next) refl

-- The data unit is posted or not, ahead of the later ones.
abbrev pub post_if : Bool → ℕ → List ℕ → List ℕ
post_if posted seq_num later = if posted then seq_num ∷ later else later

pub receive_all-step :
    (sv : StateVector) (seq_num flags : ℕ) (units : List (ℕ × ℕ)) (r : Received)
    → dtp_receive sv seq_num flags ≡ r
    → receive_all sv ((seq_num, flags) ∷ units)
      ≡ (post_if r.posted seq_num (receive_all r.vector units).0, (receive_all r.vector units).1)
unfolding receive_all
receive_all-step sv seq_num flags units r e =
    ap
      (λ q.
        (post_if q.posted seq_num (receive_all q.vector units).0, (receive_all q.vector units).1))
      e

-- Data units at or below the left edge.
abbrev pub IsOld : ℕ → ℕ × ℕ → Type 0
IsOld edge u = u.0 ≤ edge

pub receive_all-old :
    (sv : StateVector) (units : List (ℕ × ℕ))
    → sv.drf_required ≡ false
    → All (IsOld sv.rcv_left_window_edge) units
    → receive_all sv units ≡ ([], sv)
unfolding receive_all
receive_all-old sv [] running h = refl
receive_all-old sv ((seq_num, flags) ∷ units) running h =
    receive_all-step sv seq_num flags units _ (dtp_receive-old sv seq_num flags running h.0)
    ∙ receive_all-old sv units running h.1

-- What one data unit does to a window that is running.
module _ (sv : StateVector) (seq_num flags : ℕ) (running : sv.drf_required ≡ false) where
  dtp_receive-cases :
      (dtp_receive sv seq_num flags ≡ record { ok = false; posted = false; vector = sv })
      ⊎ (((sv.rcv_left_window_edge < seq_num)
            × (dtp_receive sv seq_num flags ≡ record { ok = true; posted = true; vector = sv }))
          ⊎ ((seq_num ≡ sv.rcv_left_window_edge + 1)
              × (dtp_receive sv seq_num flags
                  ≡ record { ok = true; posted = true; vector = at_edge sv seq_num })))
  unfolding dtp_receive
  dtp_receive-cases = elim (Bool-cases (leb seq_num sv.rcv_left_window_edge)) [
    | inl e ↦ inl (dtp_receive-old sv seq_num flags running (ground (arith, e)))
    | inr e ↦ elim (Bool-cases (seq_num == (sv.rcv_left_window_edge + 1) % 2 ^ 32)) [
      | inl f ↦ inr (inr (ground (arith, e, f), simp (running, e, f) refl))
      | inr f ↦ inr (inl (ground (arith, e), simp (running, e, f) refl))
    ]
  ]

-- What holds of the data units posted from a running window, and of the window they leave.
abbrev IsPosting : ℕ → List ℕ × StateVector → Type 0
IsPosting edge (posted, sv) =
    (sv.drf_required ≡ false)
    × ((edge ≤ sv.rcv_left_window_edge)
        × ((k : ℕ)
            → ((edge < k) × (k ≤ sv.rcv_left_window_edge) → 1 ≤ times k posted)
              × ((k ≤ edge) → times k posted ≡ 0)))

IsPosting-post :
    (edge seq_num : ℕ) (p : List ℕ × StateVector)
    → edge < seq_num
    → IsPosting edge p
    → IsPosting edge (seq_num ∷ p.0, p.1)
unfolding times
IsPosting-post edge seq_num (posted, sv) h (d, (e, k)) =
    (d, (e, λ n. (λ r. ground (arith, (k n).0 r), λ r. ground (arith, h, (k n).1 r))))

IsPosting-next :
    (edge : ℕ) (p : List ℕ × StateVector)
    → IsPosting (edge + 1) p
    → IsPosting edge ((edge + 1) ∷ p.0, p.1)
unfolding times
IsPosting-next edge (posted, sv) (d, (e, k)) = (
  d,
  (
    omega arith,
    λ n. (
      λ r. elim (Bool-cases (n == edge + 1)) [
        | inl f ↦ ground (arith, f)
        | inr f ↦
            let later : edge + 1 < n = ground (arith, f, r.0) in
            let there : 1 ≤ times n posted = (k n).0 (later, r.1) in ground (arith, f, there)
      ],
      λ r. ground (arith, (k n).1),
    ),
  ),
)

receive_all-IsPosting :
    (sv : StateVector) (units : List (ℕ × ℕ))
    → sv.drf_required ≡ false
    → IsPosting sv.rcv_left_window_edge (receive_all sv units)
unfolding receive_all times
receive_all-IsPosting sv [] running =
    (running, (omega arith, λ n. (λ r. absurd (omega (arith, r.0, r.1)), λ r. refl)))
receive_all-IsPosting sv ((seq_num, flags) ∷ units) running =
    elim (dtp_receive-cases sv seq_num flags running) [
      | inl e ↦
          subst (IsPosting sv.rcv_left_window_edge)
            (sym (receive_all-step sv seq_num flags units _ e))
            (receive_all-IsPosting sv units running)
      | inr (inl (h, e)) ↦
          subst (IsPosting sv.rcv_left_window_edge)
            (sym (receive_all-step sv seq_num flags units _ e))
            (IsPosting-post sv.rcv_left_window_edge seq_num (receive_all sv units) h
              (receive_all-IsPosting sv units running))
      | inr (inr (h, e)) ↦
          subst (IsPosting sv.rcv_left_window_edge)
            (sym (receive_all-step sv seq_num flags units _ e))
            (subst
              (λ n.
                IsPosting sv.rcv_left_window_edge
                  (n ∷ (receive_all (at_edge sv n) units).0, (receive_all (at_edge sv n) units).1))
              (sym h)
              (IsPosting-next sv.rcv_left_window_edge
                (receive_all (at_edge sv (sv.rcv_left_window_edge + 1)) units)
                (receive_all-IsPosting (at_edge sv (sv.rcv_left_window_edge + 1)) units running)))
    ]

-- Whatever data units a running connection gets, in whatever order: its window does not go back,
-- and no data unit at or below the left edge it had is posted.
pub receive_all-old_dropped :
    (sv : StateVector) (units : List (ℕ × ℕ)) (k : ℕ)
    → sv.drf_required ≡ false
    → k ≤ sv.rcv_left_window_edge
    → (sv.rcv_left_window_edge ≤ (receive_all sv units).1.rcv_left_window_edge)
      × (times k (receive_all sv units).0 ≡ 0)
receive_all-old_dropped sv units k running h =
    let (d, (e, p)) = receive_all-IsPosting sv units running in (e, (p k).1 h)

-- Whatever data units a running connection gets, in whatever order: each number above the left
-- edge it had and up to the one it has then has been posted.
pub receive_all-posted :
    (sv : StateVector) (units : List (ℕ × ℕ)) (k : ℕ)
    → sv.drf_required ≡ false
    → sv.rcv_left_window_edge < k
    → k ≤ (receive_all sv units).1.rcv_left_window_edge
    → 1 ≤ times k (receive_all sv units).0
receive_all-posted sv units k running h l =
    let (d, (e, p)) = receive_all-IsPosting sv units running in (p k).0 (h, l)
