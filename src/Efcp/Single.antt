-- ===== src/Efcp/Single.antt =====
-- components/EFCP/EFCP.c: the table of a container holds one connection at most.
use mathlib.Core.Option.{some-injective}
use rinasense.Base.{
  ℕ, ◌≡◌, ◌⊎◌, refl, ap, ◌∙◌, sym, subst, true, false, Option, none, some, List, [], ◌∷◌, ◌==◌, All,
  arith, Bool-cases, inl, inr,
}
use rinasense.Efcp.{Instance, ImapRow, Container, imap_find, imap_remove, null_imap_row}
use rinasense.Efcp.Heap.{IsLive}

-- A row without a connection.
abbrev pub IsNull : ImapRow → Type 0
IsNull r = (r.cep_id_key ≡ 0) × (r.efcp_value ≡ none)

-- The row of the connection 1.
abbrev pub IsConnected : List (Option Instance) → ImapRow → Type 0
IsConnected instances r =
    (r.cep_id_key ≡ 1) × ((i : ℕ) × ((r.efcp_value ≡ some i) × IsLive instances i))

-- The first row is the connection 1 or none, and the other rows are none.
abbrev pub IsTable : List (Option Instance) → List ImapRow → Type 0
IsTable instances [] = Unit
IsTable instances (r ∷ rows) = (IsNull r ⊎ IsConnected instances r) × All IsNull rows

abbrev pub IsSingle : Container → Type 0
IsSingle c = IsTable c.instances c.imap

pub find-first :
    (key : ℕ) (r : ImapRow) (rows : List ImapRow)
    → (r.cep_id_key == key) ≡ true
    → imap_find key (r ∷ rows) ≡ (r.efcp_value, record r { uc_valid = 1 } ∷ rows)
unfolding imap_find
find-first key r rows e = rw (imap_find, e) refl

pub find-skip :
    (key : ℕ) (r : ImapRow) (rows : List ImapRow)
    → (r.cep_id_key == key) ≡ false
    → imap_find key (r ∷ rows) ≡ ((imap_find key rows).0, r ∷ (imap_find key rows).1)
unfolding imap_find
find-skip key r rows e = rw (imap_find, e) refl

pub find-IsNull :
    (key : ℕ) (rows : List ImapRow)
    → All IsNull rows
    → ((imap_find key rows).0 ≡ none) × All IsNull (imap_find key rows).1
unfolding imap_find
find-IsNull key [] h = (refl, tt)
find-IsNull key (r ∷ rows) h = elim (Bool-cases (r.cep_id_key == key)) [
  | inl e ↦ rw (imap_find, e) (h.0.1, (h.0, h.1))
  | inr e ↦ let (f, k) = find-IsNull key rows h.1 in rw (imap_find, e) (f, (h.0, k))
]

-- Looking up an identifier leaves such a table.
pub find-IsTable :
    (instances : List (Option Instance)) (key : ℕ) (rows : List ImapRow)
    → IsTable instances rows
    → IsTable instances (imap_find key rows).1
unfolding imap_find
find-IsTable instances key [] h = tt
find-IsTable instances key (r ∷ rows) h = elim (Bool-cases (r.cep_id_key == key)) [
  | inl e ↦ rw (imap_find, e) h
  | inr e ↦ rw (imap_find, e) (h.0, (find-IsNull key rows h.1).1)
]

-- Only the identifier 1 is found, with an instance that is in use.
pub find-IsLive :
    (instances : List (Option Instance)) (key : ℕ) (rows : List ImapRow) (i : ℕ)
    → IsTable instances rows
    → (imap_find key rows).0 ≡ some i
    → (key ≡ 1) × IsLive instances i
unfolding imap_find
find-IsLive instances key [] i h f = absurd (cc f)
find-IsLive instances key (r ∷ rows) i h f = elim (Bool-cases (r.cep_id_key == key)) [
  | inl e ↦
      let value : r.efcp_value ≡ some i = ap (λ p. p.0) (sym (find-first key r rows e)) ∙ f in
      let same : r.cep_id_key ≡ key = ground (arith, e) in
      elim h.0 [
        | inl n ↦ absurd (cc (sym n.1 ∙ value))
        | inr (one, (j, (v, live))) ↦
            (sym same ∙ one, subst (IsLive instances) (some-injective _ _ (sym v ∙ value)) live)
      ]
  | inr e ↦
      absurd
        (cc (sym (find-IsNull key rows h.1).0 ∙ (ap (λ p. p.0) (sym (find-skip key r rows e)) ∙ f)))
]

pub remove-first :
    (key : ℕ) (r : ImapRow) (rows : List ImapRow)
    → (r.cep_id_key == key) ≡ true
    → imap_remove key (r ∷ rows) ≡ null_imap_row ∷ rows
unfolding imap_remove
remove-first key r rows e = rw (imap_remove, e) refl

pub remove-skip :
    (key : ℕ) (r : ImapRow) (rows : List ImapRow)
    → (r.cep_id_key == key) ≡ false
    → imap_remove key (r ∷ rows) ≡ r ∷ imap_remove key rows
unfolding imap_remove
remove-skip key r rows e = rw (imap_remove, e) refl

pub remove-IsNull :
    (key : ℕ) (rows : List ImapRow) → All IsNull rows → All IsNull (imap_remove key rows)
unfolding imap_remove
remove-IsNull key [] h = tt
remove-IsNull key (r ∷ rows) h = elim (Bool-cases (r.cep_id_key == key)) [
  | inl e ↦ rw (imap_remove, e) ((refl, refl), h.1)
  | inr e ↦ rw (imap_remove, e) (h.0, remove-IsNull key rows h.1)
]

pub remove-IsTable :
    (instances : List (Option Instance)) (key : ℕ) (rows : List ImapRow)
    → IsTable instances rows
    → IsTable instances (imap_remove key rows)
unfolding imap_remove
remove-IsTable instances key [] h = tt
remove-IsTable instances key (r ∷ rows) h = elim (Bool-cases (r.cep_id_key == key)) [
  | inl e ↦ rw (imap_remove, e) (inl (refl, refl), h.1)
  | inr e ↦ rw (imap_remove, e) (h.0, remove-IsNull key rows h.1)
]

-- Where the instances in use stay in use, such a table stays one.
pub IsTable-IsLive :
    (instances later : List (Option Instance)) (rows : List ImapRow)
    → ((j : ℕ) → IsLive instances j → IsLive later j)
    → IsTable instances rows
    → IsTable later rows
IsTable-IsLive instances later [] k h = tt
IsTable-IsLive instances later (r ∷ rows) k h = elim h.0 [
  | inl n ↦ (inl n, h.1)
  | inr (one, (j, (v, live))) ↦ (inr (one, (j, (v, k j live))), h.1)
]
