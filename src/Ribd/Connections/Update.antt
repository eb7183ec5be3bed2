-- ===== src/Ribd/Connections/Update.antt =====
-- Ribd_connections.c: what adding, changing and releasing an entry does to the table.
use mathlib.Core.Option.{some-injective}
use rinasense.Base.{
  ℕ, ◌≡◌, refl, ap, ◌∙◌, sym, subst, Bool, true, false, none, some, List, [], ◌∷◌, ◌++◌, set, arith,
  Bool-cases, Option-cases, inl, inr, set-middle, eq_refl,
}
use rinasense.Common.RinaName.{Name, assign_dup}
use rinasense.Ribd.{Connection, connection_in_progress, Memory}
use rinasense.Ribd.Connections.{is_released, add_connection, fill_connection}
use rinasense.Ribd.Connections.Table.{
  serves, lookup_connection, Move, opened, closed, Kept, Found, lookup_connection-skip,
  lookup_connection-first, Kept-replace, serves-Only, released-Only, Distinct-alone,
  lookup_connection-left, Only,
}

-- The released entry that `xRibConnectionAdd` fills.
pub record Added (mem : Memory) (src dst : Name) (port : ℕ) (rows rows' : List Connection)
    (ok : Bool) : Type 0 where
  pub before : List Connection
  pub c : Connection
  pub after : List Connection
  pub split : rows ≡ before ++ (c ∷ after)
  pub released : is_released c.status ≡ true
  pub filled : rows' ≡ before ++ ((fill_connection mem src dst port c).1 ∷ after)
  pub flag : ok ≡ (fill_connection mem src dst port c).0

add_connection-here :
    (mem : Memory) (src dst : Name) (port : ℕ) (c : Connection) (rows : List Connection)
    → is_released c.status ≡ true
    → add_connection mem src dst port (c ∷ rows)
      ≡ some ((fill_connection mem src dst port c).0, (fill_connection mem src dst port c).1 ∷ rows)
unfolding add_connection
add_connection-here mem src dst port c rows e = rw (add_connection, e)

add_connection-later :
    (mem : Memory) (src dst : Name) (port : ℕ) (c : Connection) (rows : List Connection)
    (rest : Bool × List Connection)
    → is_released c.status ≡ false
    → add_connection mem src dst port rows ≡ some rest
    → add_connection mem src dst port (c ∷ rows) ≡ some (rest.0, c ∷ rest.1)
unfolding add_connection
add_connection-later mem src dst port c rows rest e n = rw (add_connection, e, n)

pub add_connection-Added :
    (mem : Memory) (src dst : Name) (port : ℕ) (rows rows' : List Connection) (ok : Bool)
    → add_connection mem src dst port rows ≡ some (ok, rows')
    → Added mem src dst port rows rows' ok
unfolding add_connection
add_connection-Added mem src dst port [] rows' ok h = absurd (cc h)
add_connection-Added mem src dst port (c ∷ rows) rows' ok h =
    elim (Bool-cases (is_released c.status)) [
      | inl e ↦
          let both = some-injective _ _ (sym h ∙ add_connection-here mem src dst port c rows e) in
          record {
            before = [];
            c = c;
            after = rows;
            split = refl;
            released = e;
            filled = ap (λ p. p.1) both;
            flag = ap (λ p. p.0) both;
          }
      | inr e ↦ elim (Option-cases (add_connection mem src dst port rows)) [
        | inl n ↦ absurd (ground (arith, e, n, h))
        | inr (found, n) ↦
            let rest = add_connection-Added mem src dst port rows found.1 found.0 n in
            let both =
              some-injective _ _ (sym h ∙ add_connection-later mem src dst port c rows found e n) in
            record {
              before = c ∷ rest.before;
              c = rest.c;
              after = rest.after;
              split = ap (λ t. c ∷ t) rest.split;
              released = rest.released;
              filled = ap (λ p. p.1) both ∙ ap (λ t. c ∷ t) rest.filled;
              flag = ap (λ p. p.0) both ∙ rest.flag;
            }
      ]
    ]

pub fill_connection-status :
    (mem : Memory) (src dst : Name) (port : ℕ) (c : Connection)
    → ((fill_connection mem src dst port c).1.status ≡ connection_in_progress)
      × ((fill_connection mem src dst port c).1.port ≡ port)
unfolding fill_connection
fill_connection-status mem src dst port c = elim (Option-cases (assign_dup mem.source_name src)) [
  | inl e ↦ rw (fill_connection, e) (refl, refl)
  | inr (s, e) ↦ elim (Option-cases (assign_dup mem.destination_name dst)) [
    | inl f ↦ rw (fill_connection, e, f) (refl, refl)
    | inr (d, f) ↦ rw (fill_connection, e, f) (refl, refl)
  ]
]

-- A new connection is open on a port that had none.
pub add_connection-Kept :
    (mem : Memory) (src dst : Name) (port : ℕ) (rows rows' : List Connection) (ok : Bool)
    → lookup_connection port rows ≡ none
    → add_connection mem src dst port rows ≡ some (ok, rows')
    → Kept port rows rows'
add_connection-Kept mem src dst port rows rows' ok n h =
    let a = add_connection-Added mem src dst port rows rows' ok h in
    let d = (fill_connection mem src dst port a.c).1 in
    let is = fill_connection-status mem src dst port a.c in
    let quiet : serves port a.c ≡ false = ground (arith, a.released) in
    let serving : serves port d ≡ true = rw (is.0, is.1) (ground (arith, eq_refl port)) in
    let free : lookup_connection port (a.before ++ a.after) ≡ none =
      sym (lookup_connection-skip port a.c a.before a.after quiet)
      ∙ subst (λ r. lookup_connection port r ≡ none) a.split n in
    subst (λ r. Kept port rows r) (sym a.filled)
      (subst (λ r. Kept port r (a.before ++ (d ∷ a.after))) (sym a.split)
        (Kept-replace port a.c d a.before a.after (released-Only port a.c a.released)
          (serves-Only port d is.1) (λ k. free)
          (λ k.
            rw
              (
                subst (λ r. lookup_connection port r ≡ none) a.split n,
                lookup_connection-first port d a.before a.after
                    (lookup_connection-left port a.before a.after free) serving,
              )
              (opened is.0))))

-- The entry found is replaced by one for the same port, or by a released one.
pub set-Kept :
    (port i : ℕ) (rows : List Connection) (d : Connection) (f : Found port i rows)
    → Only port d
    → (serves port d ≡ true → Move (some f.c) (some d))
    → Kept port rows (set rows i d)
set-Kept port i rows d f od step =
    let placed : set rows i d ≡ f.before ++ (d ∷ f.after) =
      ap (λ r. set r i d) f.split
      ∙ (ap (λ j. set (f.before ++ (f.c ∷ f.after)) j d) f.index
          ∙ set-middle f.before f.c d f.after) in
    subst (λ r. Kept port rows r) (sym placed)
      (subst (λ r. Kept port r (f.before ++ (d ∷ f.after))) (sym f.split)
        (Kept-replace port f.c d f.before f.after (serves-Only port f.c (ground (arith, f.serving)))
          od (λ k. Distinct-alone port f.c f.before f.after f.serving k)
          (λ k.
            rw (lookup_connection-first port f.c f.before f.after f.first f.serving)
              (elim (Bool-cases (serves port d)) [
                | inl e ↦ rw (lookup_connection-first port d f.before f.after f.first e) (step e)
                | inr e ↦
                    rw
                      (
                        lookup_connection-skip port d f.before f.after e,
                        Distinct-alone port f.c f.before f.after f.serving k,
                      )
                      closed
              ]))))
