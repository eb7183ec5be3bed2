-- ===== src/Ribd/Connections/Table.antt =====
-- Ribd_connections.c: the table as a map from ports to connections.
use rinasense.Base.{
  ℕ, ◌≡◌, ◌≢◌, refl, ap, ◌∙◌, sym, Bool, true, false, not, ◌&&◌, Option, none, some, List, [], ◌∷◌,
  if◌then◌else◌, ◌==◌, length, ◌++◌, subst, length-append, arith, Bool-cases, Option-cases, inl,
  inr,
}
use rinasense.Ribd.{Connection, connection_in_progress, connection_ok}
use rinasense.Ribd.Connections.{is_released, find_connection}

abbrev pub serves : ℕ → Connection → Bool
serves port c = not (is_released c.status) && (c.port == port)

-- The connection of a port.
unfoldable pub lookup_connection : ℕ → List Connection → Option Connection
lookup_connection port [] = none
lookup_connection port (c ∷ rows) =
    let rest = lookup_connection port rows in if serves port c then some c else rest

-- No two connections have the same port.
abbrev pub Distinct : List Connection → Type 0
Distinct [] = Unit
Distinct (c ∷ rows) =
    (is_released c.status ≡ false → lookup_connection c.port rows ≡ none) × Distinct rows

-- What a message for a port may do to the connection of that port.
pub data Move : Option Connection → Option Connection → Type 0 where
  stay : {o : Option Connection} → Move o o
  opened : {c : Connection} → c.status ≡ connection_in_progress → Move none (some c)
  confirmed :
      {c d : Connection}
      → c.status ≡ connection_in_progress
      → d ≡ record c { status = connection_ok }
      → Move (some c) (some d)
  closed : {c : Connection} → Move (some c) none

-- What a message for a port keeps of the table.
pub record Kept (port : ℕ) (rows rows' : List Connection) : Type 0 where
  pub size : length rows' ≡ length rows
  pub distinct : Distinct rows → Distinct rows'
  pub others : (q : ℕ) → q ≢ port → lookup_connection q rows' ≡ lookup_connection q rows
  pub move : Distinct rows → Move (lookup_connection port rows) (lookup_connection port rows')

pub Kept-same : (port : ℕ) (rows : List Connection) → Kept port rows rows
Kept-same port rows = record {
  size = refl;
  distinct = λ d. d;
  others = λ q h. refl;
  move = λ d. stay;
}

-- The first entry that serves a port, with what stands before and after it.
pub record Found (port i : ℕ) (rows : List Connection) : Type 0 where
  pub before : List Connection
  pub c : Connection
  pub after : List Connection
  pub split : rows ≡ before ++ (c ∷ after)
  pub index : i ≡ length before
  pub first : lookup_connection port before ≡ none
  pub serving : serves port c ≡ true

pub find_connection-Found :
    (port i : ℕ) (rows : List Connection) → find_connection port rows ≡ some i → Found port i rows
unfolding find_connection lookup_connection
find_connection-Found port i [] h = absurd (cc h)
find_connection-Found port i (c ∷ rows) h = elim (Bool-cases (serves port c)) [
  | inl e ↦ record {
    before = [];
    c = c;
    after = rows;
    split = refl;
    index = ground (arith, e, h);
    first = refl;
    serving = e;
  }
  | inr e ↦ elim (Option-cases (find_connection port rows)) [
    | inl n ↦ absurd (ground (arith, e, n, h))
    | inr (j, n) ↦
        let rest = find_connection-Found port j rows n in
        record {
          before = c ∷ rest.before;
          c = rest.c;
          after = rest.after;
          split = ap (λ t. c ∷ t) rest.split;
          index = ground (arith, e, n, h, rest.index);
          first = rw (e) rest.first;
          serving = rest.serving;
        }
  ]
]

pub find_connection-lookup_connection :
    (port : ℕ) (rows : List Connection)
    → find_connection port rows ≡ none
    → lookup_connection port rows ≡ none
unfolding find_connection lookup_connection
find_connection-lookup_connection port [] h = refl
find_connection-lookup_connection port (c ∷ rows) h = elim (Bool-cases (serves port c)) [
  | inl e ↦ absurd (ground (arith, e, h))
  | inr e ↦ elim (Option-cases (find_connection port rows)) [
    | inl n ↦ rw (e) (find_connection-lookup_connection port rows n)
    | inr (i, n) ↦ absurd (ground (arith, e, n, h))
  ]
]

-- An entry that does not serve a port is passed over, and the first that does is found.
pub lookup_connection-skip :
    (q : ℕ) (c : Connection) (xs ys : List Connection)
    → serves q c ≡ false
    → lookup_connection q (xs ++ (c ∷ ys)) ≡ lookup_connection q (xs ++ ys)
unfolding lookup_connection
lookup_connection-skip q c [] ys h = rw (h)
lookup_connection-skip q c (x ∷ xs) ys h = rw (lookup_connection-skip q c xs ys h)

pub lookup_connection-first :
    (q : ℕ) (c : Connection) (xs ys : List Connection)
    → lookup_connection q xs ≡ none
    → serves q c ≡ true
    → lookup_connection q (xs ++ (c ∷ ys)) ≡ some c
unfolding lookup_connection
lookup_connection-first q c [] ys n h = rw (h)
lookup_connection-first q c (x ∷ xs) ys n h = elim (Bool-cases (serves q x)) [
  | inl e ↦ absurd (ground (arith, e, n))
  | inr e ↦ rw (e) (lookup_connection-first q c xs ys (ground (arith, e, n)) h)
]

lookup_connection-serving :
    (q : ℕ) (c : Connection) (xs ys : List Connection)
    → serves q c ≡ true
    → lookup_connection q (xs ++ (c ∷ ys)) ≢ none
unfolding lookup_connection
lookup_connection-serving q c [] ys h n = ground (arith, h, n)
lookup_connection-serving q c (x ∷ xs) ys h n = elim (Bool-cases (serves q x)) [
  | inl e ↦ ground (arith, e, n)
  | inr e ↦ lookup_connection-serving q c xs ys h (ground (arith, e, n))
]

pub lookup_connection-left :
    (q : ℕ) (xs ys : List Connection)
    → lookup_connection q (xs ++ ys) ≡ none
    → lookup_connection q xs ≡ none
unfolding lookup_connection
lookup_connection-left q [] ys n = refl
lookup_connection-left q (x ∷ xs) ys n = elim (Bool-cases (serves q x)) [
  | inl e ↦ absurd (ground (arith, e, n))
  | inr e ↦ rw (e) (lookup_connection-left q xs ys (ground (arith, e, n)))
]

serves_own : (c : Connection) → is_released c.status ≡ false → serves c.port c ≡ true
serves_own c h = ground (arith, h)

Distinct-remove :
    (c : Connection) (xs ys : List Connection) → Distinct (xs ++ (c ∷ ys)) → Distinct (xs ++ ys)
Distinct-remove c [] ys d = d.1
Distinct-remove c (x ∷ xs) ys d = (
  λ a. elim (Bool-cases (serves x.port c)) [
    | inl e ↦ absurd (lookup_connection-serving x.port c xs ys e (d.0 a))
    | inr e ↦ sym (lookup_connection-skip x.port c xs ys e) ∙ d.0 a
  ],
  Distinct-remove c xs ys d.1,
)

pub Distinct-alone :
    (q : ℕ) (c : Connection) (xs ys : List Connection)
    → serves q c ≡ true
    → Distinct (xs ++ (c ∷ ys))
    → lookup_connection q (xs ++ ys) ≡ none
unfolding lookup_connection
Distinct-alone q c [] ys h d =
    let same : c.port ≡ q = ground (arith, h) in
    subst (λ p. lookup_connection p ys ≡ none) same (d.0 (ground (arith, h)))
Distinct-alone q c (x ∷ xs) ys h d = elim (Bool-cases (serves q x)) [
  | inl e ↦
      let same : x.port ≡ q = ground (arith, e) in
      absurd (
        lookup_connection-serving q c xs ys h
          (subst (λ p. lookup_connection p (xs ++ (c ∷ ys)) ≡ none) same (d.0 (ground (arith, e)))))
  | inr e ↦ rw (e) (Distinct-alone q c xs ys h d.1)
]

Distinct-insert :
    (c : Connection) (xs ys : List Connection)
    → Distinct (xs ++ ys)
    → (is_released c.status ≡ false → lookup_connection c.port (xs ++ ys) ≡ none)
    → Distinct (xs ++ (c ∷ ys))
unfolding lookup_connection
Distinct-insert c [] ys d n = (n, d)
Distinct-insert c (x ∷ xs) ys d n = (
  λ a. elim (Bool-cases (serves x.port c)) [
    | inl e ↦
        let same : x.port ≡ c.port = ground (arith, e) in
        let none_there = n (ground (arith, e)) in
        absurd (ground (arith, serves_own x a, same, none_there))
    | inr e ↦ lookup_connection-skip x.port c xs ys e ∙ d.0 a
  ],
  Distinct-insert c xs ys d.1 (λ a. elim (Bool-cases (serves c.port x)) [
    | inl e ↦ absurd (ground (arith, e, n a))
    | inr e ↦ ground (arith, e, n a)
  ]),
)

-- An entry that serves at most the port gives way to another such entry.
abbrev pub Only : ℕ → Connection → Type 0
Only port c = (q : ℕ) → q ≢ port → serves q c ≡ false

pub Kept-replace :
    (port : ℕ) (c d : Connection) (xs ys : List Connection)
    → Only port c
    → Only port d
    → (Distinct (xs ++ (c ∷ ys)) → lookup_connection port (xs ++ ys) ≡ none)
    → (Distinct (xs ++ (c ∷ ys))
        → Move (lookup_connection port (xs ++ (c ∷ ys))) (lookup_connection port (xs ++ (d ∷ ys))))
    → Kept port (xs ++ (c ∷ ys)) (xs ++ (d ∷ ys))
Kept-replace port c d xs ys oc od free move = record {
  size = omega (arith, length-append xs (c ∷ ys), length-append xs (d ∷ ys));
  distinct = λ k. Distinct-insert d xs ys (Distinct-remove c xs ys k) (λ a.
      elim (Bool-cases (d.port == port)) [
        | inl e ↦
            let same : d.port ≡ port = ground arith in
            subst (λ p. lookup_connection p (xs ++ ys) ≡ none) (sym same) (free k)
        | inr e ↦ absurd (ground (arith, od d.port (ground arith), serves_own d a))
      ]);
  others = λ q h.
      lookup_connection-skip q d xs ys (od q h) ∙ sym (lookup_connection-skip q c xs ys (oc q h));
  move = move;
}

pub serves-Only : (port : ℕ) (c : Connection) → c.port ≡ port → Only port c
serves-Only port c e q h = ground (arith, e, h)

pub released-Only : (port : ℕ) (c : Connection) → is_released c.status ≡ true → Only port c
released-Only port c e q h = ground (arith, e)
