-- ===== src/Common/RinaName/RoundTrip.antt =====
-- rina_name.c: printing a parsed name and parsing a printed one.
use rinasense.Base.{
  ℕ, ◌+◌, ◌≡◌, refl, ap, ◌∙◌, sym, subst, true, false, Option, none, some, List, [], ◌∷◌, ◌++◌,
  ◌==◌, leb, length, take, drop, arith, replicate, length-append, append_assoc, inl, inr,
  length-replicate, append-nil, Option-cases,
}
use rinasense.Common.Gpha.{made}
use rinasense.Common.RinaName.{
  Name, delimiter, until_delimiter, last_parts, later_parts, first_part, breakdown, new_from_string,
  assign_from_string, to_string, to_string_buf, parts, parts_length,
}
use rinasense.Common.RinaName.Parse.{NoZero, NoDelimiter, Holds, Restores, breakdown-Holds}
use rinasense.Common.RinaName.Buffer.{printed, to_string_buf-printed, length-printed, drop-all}

take-drop-block :
    (x : List ℕ)
    → (take (length x) (x ++ (0 ∷ [])) ≡ x) × (take 1 (drop (length x) (x ++ (0 ∷ []))) ≡ 0 ∷ [])
take-drop-block [] = (refl, refl)
take-drop-block (c ∷ x) = (ap (λ t. c ∷ t) (take-drop-block x).0, (take-drop-block x).1)

to_string-block :
    (fill : ℕ) (nm : Name) (x s : List ℕ)
    → nm.block ≡ x ++ (0 ∷ [])
    → Restores x s
    → (nm.post_ln == 0) ≡ false
    → nm.post_ln ≡ length s
    → to_string true fill nm ≡ made (s ++ (0 ∷ []))
unfolding to_string
to_string-block fill nm x s b r z l =
    let at : nm.post_ln ≡ length x = l ∙ sym r.size in
    let room : leb (length x + 1) (length (x ++ (0 ∷ []))) ≡ true =
      ground (arith, length-append x (0 ∷ [])) in
    rw (z, b, at, room, (take-drop-block x).0, (take-drop-block x).1, r.text)

breakdown-nonempty : (s : List ℕ) (nm : Name) → breakdown s ≡ some nm → (length s == 0) ≡ false
unfolding breakdown first_part until_delimiter
breakdown-nonempty [] nm h = absurd (cc h)
breakdown-nonempty (c ∷ s) nm h = ground arith

finish_parse : ℕ → Option Name → Option Name
finish_parse n none = none
finish_parse n (some nm) = some (record nm { post_ln = n })

new_from_string-finish :
    (s : List ℕ) → new_from_string true s ≡ finish_parse (length s) (breakdown s)
unfolding new_from_string finish_parse
new_from_string-finish s = elim (Option-cases (breakdown s)) [
  | inl e ↦ rw (e)
  | inr (nm, e) ↦ rw (e)
]

some-eq : (a b : Name) → some a ≡ some b → a ≡ b
some-eq a b h = cc h

to_string-finish :
    (fill : ℕ) (s : List ℕ) (nm : Name) (o : Option Name)
    → breakdown s ≡ o
    → Holds s o
    → finish_parse (length s) o ≡ some nm
    → to_string true fill nm ≡ made (s ++ (0 ∷ []))
unfolding finish_parse
to_string-finish fill s nm none q h e = absurd (cc e)
to_string-finish fill s nm (some m) q (x, (b, r)) e =
    subst (λ n. to_string true fill n ≡ made (s ++ (0 ∷ []))) (some-eq _ _ e)
      (to_string-block fill (record m { post_ln = length s }) x s b r (breakdown-nonempty s m q)
        refl)

-- A name made from a string without NUL bytes prints as that string, NUL-terminated, whatever
-- the string has after its third part.
pub to_string-new_from_string :
    (fill : ℕ) (s : List ℕ) (nm : Name)
    → NoZero s
    → new_from_string true s ≡ some nm
    → to_string true fill nm ≡ made (s ++ (0 ∷ []))
to_string-new_from_string fill s nm hs h =
    to_string-finish fill s nm (breakdown s) refl (breakdown-Holds s hs)
      (sym (new_from_string-finish s) ∙ h)

until_delimiter-part :
    (a r : List ℕ) → NoDelimiter a → until_delimiter (a ++ (delimiter ∷ r)) ≡ (a, some r)
unfolding until_delimiter
until_delimiter-part [] r h = refl
until_delimiter-part (c ∷ a) r h =
    let ne : (c == delimiter) ≡ false = ground (arith, h.0) in rw (ne, until_delimiter-part a r h.1)

-- The text of four parts.
abbrev pub joined : Name → List ℕ
joined nm =
    nm.process_name
    ++ (delimiter
        ∷ (nm.process_instance
            ++ (delimiter ∷ (nm.entity_name ++ (delimiter ∷ nm.entity_instance)))))

printed-joined : (nm : Name) → printed nm ≡ joined nm ++ (0 ∷ [])
printed-joined nm = rw (
  append_assoc nm.process_name
      (delimiter
        ∷ (nm.process_instance
            ++ (delimiter ∷ (nm.entity_name ++ (delimiter ∷ nm.entity_instance)))))
      (0 ∷ []),
  append_assoc nm.process_instance
      (delimiter ∷ (nm.entity_name ++ (delimiter ∷ nm.entity_instance))) (0 ∷ []),
  append_assoc nm.entity_name (delimiter ∷ nm.entity_instance) (0 ∷ []),
)

to_string-printed :
    (fill : ℕ) (nm : Name) → nm.post_ln ≡ 0 → to_string true fill nm ≡ made (printed nm)
unfolding to_string to_string_buf
to_string-printed fill nm z =
    let room : ℕ =
      parts_length nm.process_name nm.process_instance nm.entity_name nm.entity_instance + 4 in
    let buf : List ℕ = replicate room fill in
    let fit = to_string_buf-printed nm buf (omega (arith, length-replicate room fill)) in
    let all : drop (length (printed nm)) buf ≡ [] =
      drop-all (length (printed nm)) buf
        (omega (arith, length-replicate room fill, length-printed nm)) in
    rw (z, fit, all, append-nil (printed nm))

-- A name whose parts do not lie behind its structure (`unPostLn` is 0) and whose first three parts
-- hold no delimiter: it prints its parts with delimiters between them, and parsing that text gives
-- the four parts back.
pub assign_from_string-to_string :
    (fill : ℕ) (nm : Name)
    → nm.post_ln ≡ 0
    → NoDelimiter nm.process_name
    → NoDelimiter nm.process_instance
    → NoDelimiter nm.entity_name
    → (to_string true fill nm ≡ made (joined nm ++ (0 ∷ [])))
      × ((copy : Name) × ((assign_from_string true (joined nm) ≡ some copy)
            × (parts copy ≡ parts nm)))
unfolding assign_from_string breakdown first_part later_parts last_parts
assign_from_string-to_string fill nm z p i e =
    let tail : List ℕ = nm.entity_name ++ (delimiter ∷ nm.entity_instance) in
    let first =
      until_delimiter-part nm.process_name (nm.process_instance ++ (delimiter ∷ tail)) p in
    let second = until_delimiter-part nm.process_instance tail i in
    let third = until_delimiter-part nm.entity_name nm.entity_instance e in
    (
      to_string-printed fill nm z ∙ ap made (printed-joined nm),
      (
        record nm { post_ln = 0; block = []; owned = true },
        (rw (first, second, third, first, second), refl),
      ),
    )
