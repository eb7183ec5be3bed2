-- ===== src/Ribd/Pending/Rows.antt =====
-- Ribd.c: a request added to the table is the one found under its invoke identifier.
use rinasense.Base.{
  ℕ, suc, ◌≡◌, refl, Bool, true, false, none, some, List, [], ◌∷◌, if◌then◌else◌, ◌==◌, get_elem?,
  set, arith, Bool-cases, Option-cases, inl, inr, eq_refl,
}
use rinasense.Ribd.{PendingReq}
use rinasense.Ribd.Pending.{add_pending, find_pending}

abbrev pub any_free : List PendingReq → Bool
any_free [] = false
any_free (q ∷ rows) = if q.invoke_id == 0 then true else any_free rows

-- Row `i` holds the request, before and after its response comes.
pub record Waiting (p : PendingReq) (rows : List PendingReq) : Type 0 where
  pub added : List PendingReq
  pub i : ℕ
  pub adds : add_pending p rows ≡ some added
  pub at : get_elem? added i ≡ some p
  pub finds : find_pending p.invoke_id added ≡ some i
  pub later :
      (d : PendingReq)
      → d.invoke_id ≡ p.invoke_id
      → (get_elem? (set added i d) i ≡ some d) × (find_pending d.invoke_id (set added i d) ≡ some i)

find_pending-tail :
    (p q : PendingReq) (rows : List PendingReq)
    → (q.invoke_id == p.invoke_id) ≡ false
    → find_pending p.invoke_id (q ∷ rows) ≡ none
    → find_pending p.invoke_id rows ≡ none
unfolding find_pending
find_pending-tail p q rows s n = elim (Option-cases (find_pending p.invoke_id rows)) [
  | inl e ↦ e
  | inr (i, e) ↦ absurd (ground (arith, s, e, n))
]

find_pending-skip :
    (d q : PendingReq) (rows : List PendingReq) (i : ℕ)
    → (q.invoke_id == d.invoke_id) ≡ false
    → find_pending d.invoke_id rows ≡ some i
    → find_pending d.invoke_id (q ∷ rows) ≡ some (suc i)
unfolding find_pending
find_pending-skip d q rows i s e = rw (find_pending, s, e) refl

pub add_pending-Waiting :
    (p : PendingReq) (rows : List PendingReq)
    → find_pending p.invoke_id rows ≡ none
    → any_free rows ≡ true
    → Waiting p rows
unfolding add_pending find_pending
add_pending-Waiting p [] n h = absurd (cc h)
add_pending-Waiting p (q ∷ rows) n h = elim (Bool-cases (q.invoke_id == 0)) [
  | inl e ↦ record {
    added = p ∷ rows;
    i = 0;
    adds = rw (add_pending, e) refl;
    at = refl;
    finds = rw (eq_refl p.invoke_id) refl;
    later = λ d s. (refl, rw (eq_refl d.invoke_id) refl);
  }
  | inr e ↦ elim (Bool-cases (q.invoke_id == p.invoke_id)) [
    | inl s ↦ absurd (ground (arith, s, n))
    | inr s ↦
        let rest =
          add_pending-Waiting p rows (find_pending-tail p q rows s n) (ground (arith, e, h)) in
        record {
          added = q ∷ rest.added;
          i = suc rest.i;
          adds = rw (add_pending, e, rest.adds) refl;
          at = rest.at;
          finds = rw (find_pending, s, rest.finds) refl;
          later = λ d t. (
            (rest.later d t).0,
            find_pending-skip d q (set rest.added rest.i d) rest.i (rw (t) s) (rest.later d t).1,
          );
        }
  ]
]
