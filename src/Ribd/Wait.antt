-- ===== src/Ribd/Wait.antt =====
-- components/Ribd/Ribd_requests.c: the wait for a reply, and the error that its clock gives
-- (xErrorSetErrno of components/Common/error.c).
use mathlib.Core.Option.{some-injective}
use rinasense.Base.{
  ℕ, zero, suc, ◌*◌, ◌/◌, ◌%◌, ◌^◌, ◌≡◌, ◌≢◌, refl, ap, ◌∙◌, sym, true, false, not, Option, none,
  some, List, [], ◌∷◌, if◌then◌else◌, ◌==◌, get_elem?, set, bit_and, arith, Bool-cases,
  Option-cases, inl, inr,
}
use rinasense.Base.Bits.{and_step, zero-and}
use rinasense.Ribd.{PendingReq, RibState, success, not_pending, rib_timeout}
use rinasense.Ribd.Pending.{find_pending, find_pending_response}

-- `xErrorSetErrno`: ERR_ERRNO and the shifted errno.
unfoldable pub error_set_errno : ℕ → ℕ
error_set_errno errno = bit_and 5 (errno * 2 ^ 24 % 2 ^ 32)

-- How a wait ends: with a status and perhaps a response, or not at all.
pub data Waited : Type 0 where
  waited : ℕ → Option ℕ → RibState → Waited
  never : Waited

abbrev response_of : List PendingReq → ℕ → Option ℕ
response_of rows i = elim (get_elem? rows i) [ none ↦ none | some p ↦ some p.resp ]

-- `xRibObjectWaitReply` on the row found. `wake` is the RIB when the thread has been woken and
-- has released the mutex of the row, or nothing after a timeout.
unfoldable pub wait_row : Option RibState → RibState → ℕ → PendingReq → Waited
wait_row wake r i p =
    if not (p.resp == 0)
    then waited success (some p.resp) r
    else if p.locked
    then never
    else elim wake [
      | none ↦
          waited rib_timeout none
            (record r { pending_reqs = set r.pending_reqs i (record p { locked = true }) })
      | some r2 ↦ waited success (response_of r2.pending_reqs i) r2
    ]

unfoldable pub wait_found : Option RibState → Option ℕ × RibState → Waited
wait_found wake (none, r) = waited not_pending none r
wait_found wake (some i, r) = elim (get_elem? r.pending_reqs i) [
  | none ↦ never
  | some p ↦ wait_row wake r i p
]

-- `xRibObjectWaitReply`; the clock gives an errno when it cannot compute the time limit.
unfoldable pub object_wait_reply : (clock : Option ℕ) → Option RibState → RibState → ℕ → Waited
object_wait_reply clock wake r invoke_id = elim clock [
  | some errno ↦ waited (error_set_errno errno) none r
  | none ↦ elim (find_pending_response r invoke_id) [
    | none ↦ never
    | some found ↦ wait_found wake found
  ]
]

eighth : (e k : ℕ) → e ≡ 8 * k → bit_and 5 e ≡ 0
eighth e k h =
    omega
      (arith, and_step 5 e, and_step 2 (e / 2), and_step 1 (e / 2 / 2), zero-and (e / 2 / 2 / 2))

error_set_errno-success : (errno : ℕ) → error_set_errno errno ≡ success
unfolding error_set_errno
error_set_errno-success errno =
    eighth (errno * 2 ^ 24 % 2 ^ 32) (errno * 2 ^ 24 % 2 ^ 32 / 8) (omega arith)

get_elem?-set_own :
    (rows : List PendingReq) (i : ℕ) (p d : PendingReq)
    → get_elem? rows i ≡ some p
    → get_elem? (set rows i d) i ≡ some d
get_elem?-set_own [] i p d h = absurd (cc h)
get_elem?-set_own (q ∷ rows) zero p d h = refl
get_elem?-set_own (q ∷ rows) (suc i) p d h = get_elem?-set_own rows i p d h

find_pending-set_own :
    (rows : List PendingReq) (id i : ℕ) (p d : PendingReq)
    → find_pending id rows ≡ some i
    → get_elem? rows i ≡ some p
    → d.invoke_id ≡ p.invoke_id
    → find_pending id (set rows i d) ≡ some i
unfolding find_pending
find_pending-set_own [] id i p d f g e = absurd (cc f)
find_pending-set_own (q ∷ rows) id zero p d f g e = elim (Bool-cases (q.invoke_id == id)) [
  | inl s ↦
      let same : d.invoke_id ≡ q.invoke_id =
        e ∙ ap (λ r. r.invoke_id) (sym (some-injective _ _ g)) in
      let own : (d.invoke_id == id) ≡ true = rw (same) s in rw (find_pending, own) refl
  | inr s ↦ elim (Option-cases (find_pending id rows)) [
    | inl n ↦ absurd (ground (arith, s, n, f))
    | inr (j, n) ↦ absurd (ground (arith, s, n, f))
  ]
]
find_pending-set_own (q ∷ rows) id (suc i) p d f g e = elim (Bool-cases (q.invoke_id == id)) [
  | inl s ↦ absurd (ground (arith, s, f))
  | inr s ↦ elim (Option-cases (find_pending id rows)) [
    | inl n ↦ absurd (ground (arith, s, n, f))
    | inr (j, n) ↦
        let below : find_pending id rows ≡ some i = ground (arith, s, n, f) in
        rw (find_pending, s, find_pending-set_own rows id i p d below g e) refl
  ]
]

wait_row-timeout :
    (r : RibState) (i : ℕ) (p : PendingReq)
    → p.resp ≡ 0
    → p.locked ≡ false
    → wait_row none r i p
      ≡ waited rib_timeout none
          (record r { pending_reqs = set r.pending_reqs i (record p { locked = true }) })
unfolding wait_row
wait_row-timeout r i p n l = let z : (p.resp == 0) ≡ true = ground (arith, n) in rw (wait_row, z, l)

wait_row-never :
    (wake : Option RibState) (r : RibState) (i : ℕ) (p : PendingReq)
    → p.resp ≡ 0
    → wait_row wake r i (record p { locked = true }) ≡ never
unfolding wait_row
wait_row-never wake r i p n = let z : (p.resp == 0) ≡ true = ground (arith, n) in rw (wait_row, z)

pub wait_row-success :
    (wake : Option RibState) (r : RibState) (i : ℕ) (p : PendingReq)
    → p.resp ≢ 0
    → wait_row wake r i p ≡ waited success (some p.resp) r
unfolding wait_row
wait_row-success wake r i p n =
    let z : (p.resp == 0) ≡ false = ground (arith, n) in rw (wait_row, z)

-- A wait on a RIB that locks and whose mutex is free, for a row of its table.
abbrev pub unlocked : RibState → RibState
unlocked r = record r { do_lock = true; locked = false }

pub wait_steps :
    (wake : Option RibState) (r : RibState) (id i : ℕ) (p : PendingReq)
    → find_pending id r.pending_reqs ≡ some i
    → get_elem? r.pending_reqs i ≡ some p
    → object_wait_reply none wake (unlocked r) id ≡ wait_row wake (unlocked r) i p
unfolding object_wait_reply find_pending_response wait_found
wait_steps wake r id i p f g = rw (find_pending_response, f, wait_found, g)

-- `xRibObjectWaitReply` when it cannot wait. A clock that fails makes it return success without
-- a response, whatever the errno. On a RIB that locks and is idle, with a row under the
-- identifier that has no response and whose mutex is free, a timeout leaves that mutex held, so
-- the next wait for the same reply never ends.
pub object_wait_reply-fails :
    (r : RibState) (wake : Option RibState) (errno id i : ℕ) (p : PendingReq)
    → find_pending id r.pending_reqs ≡ some i
    → get_elem? r.pending_reqs i ≡ some p
    → p.resp ≡ 0
    → p.locked ≡ false
    → (object_wait_reply (some errno) wake r id ≡ waited success none r)
      × ((r1 : RibState) × ((object_wait_reply none none (unlocked r) id
              ≡ waited rib_timeout none r1)
            × (object_wait_reply none wake r1 id ≡ never)))
unfolding object_wait_reply
object_wait_reply-fails r wake errno id i p f g n l =
    let held : PendingReq = record p { locked = true } in
    let after : RibState = record (unlocked r) { pending_reqs = set r.pending_reqs i held } in
    (
      ap (λ c. waited c none r) (error_set_errno-success errno),
      (
        after,
        (
          wait_steps none r id i p f g ∙ wait_row-timeout (unlocked r) i p n l,
          wait_steps wake after id i held (find_pending-set_own r.pending_reqs id i p held f g refl)
                (get_elem?-set_own r.pending_reqs i p held g)
              ∙ wait_row-never wake after i p n,
        ),
      ),
    )
