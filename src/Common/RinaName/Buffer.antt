-- ===== src/Common/RinaName/Buffer.antt =====
-- rina_name.c: when vNameToStringBuf stays in its buffer, and what it leaves there.
use rinasense.Base.{
  ℕ, zero, suc, ◌+◌, ◌-◌, ◌^◌, ◌≤◌, ◌<◌, ◌≡◌, refl, ap, ◌∙◌, ◌↔◌, true, false, none, some, List, [],
  ◌∷◌, ◌++◌, if◌then◌else◌, ◌==◌, leb, min, length, take, drop, set, arith, length-append,
  length-drop, length-take, sym, take-length_append, take_all, set-middle, Bool-cases, inl, inr,
}
use rinasense.Common.RinaName.{
  Name, delimiter, write_at, mark, write_parts, parts, to_string_buf, parts_length,
}

module _ {ℓ} {A : Type ℓ} where
  drop-length_append : (k : ℕ) (xs ys : List A) → drop (length xs + k) (xs ++ ys) ≡ drop k ys
  drop-length_append k [] ys = let e : 0 + k ≡ k = omega arith in ap (λ n. drop n ys) e
  drop-length_append k (x ∷ xs) ys =
      let e : suc (length xs) + k ≡ suc (length xs + k) = omega arith in
      ap (λ n. drop n (x ∷ (xs ++ ys))) e ∙ drop-length_append k xs ys

write_at-append :
    (xs ys bytes : List ℕ)
    → write_at (xs ++ ys) (length xs) bytes ≡ (
        if leb (length bytes) (length ys)
        then some (xs ++ (bytes ++ drop (length bytes) ys))
        else none)
unfolding write_at
write_at-append xs ys bytes =
    rw (take-length_append xs ys, drop-length_append (length bytes) xs ys)
      (ground (arith, length-append xs ys))

-- The bytes a list of parts takes, each with its NUL or delimiter, and without them.
abbrev pub span : List (List ℕ) → ℕ
span [] = 0
span (s ∷ strings) = length s + 1 + span strings

abbrev total : List (List ℕ) → ℕ
total [] = 0
total (s ∷ strings) = length s + total strings

-- The parts with a delimiter after each but the last, which a NUL ends.
abbrev pub join : List (List ℕ) → List ℕ
join [] = []
join (s ∷ []) = s ++ (0 ∷ [])
join (s ∷ (t ∷ strings)) = s ++ (delimiter ∷ join (t ∷ strings))

write_parts-some :
    (size n px sz_max : ℕ) (s : List ℕ) (strings : List (List ℕ)) (buf b : List ℕ)
    → min (length s) sz_max ≡ n
    → write_at buf px (take n s ++ (0 ∷ [])) ≡ some b
    → (sz_max - n == 0) ≡ false
    → write_parts size (s ∷ strings) px sz_max buf
      ≡ write_parts size strings (px + n + 1) (sz_max - n) (mark strings (px + n) b)
unfolding write_parts
write_parts-some size n px sz_max s strings buf b e w f = rw (write_parts, e, w, e, f, e)

write_parts-full :
    (size n px sz_max : ℕ) (s : List ℕ) (strings : List (List ℕ)) (buf b : List ℕ)
    → min (length s) sz_max ≡ n
    → write_at buf px (take n s ++ (0 ∷ [])) ≡ some b
    → (sz_max - n == 0) ≡ true
    → write_parts size (s ∷ strings) px sz_max buf
      ≡ some (set (mark strings (px + n) b) (size - 1) 0)
unfolding write_parts
write_parts-full size n px sz_max s strings buf b e w f = rw (write_parts, e, w, e, f, e)

write_parts-none :
    (size n px sz_max : ℕ) (s : List ℕ) (strings : List (List ℕ)) (buf : List ℕ)
    → min (length s) sz_max ≡ n
    → write_at buf px (take n s ++ (0 ∷ [])) ≡ none
    → write_parts size (s ∷ strings) px sz_max buf ≡ none
unfolding write_parts
write_parts-none size n px sz_max s strings buf e w = rw (write_parts, e, w)

length-ended : (s : List ℕ) → length (s ++ (0 ∷ [])) ≡ length s + 1
length-ended s = length-append s (0 ∷ [])

write_at-fits :
    (xs ys s : List ℕ)
    → length s + 1 ≤ length ys
    → write_at (xs ++ ys) (length xs) (take (length s) s ++ (0 ∷ []))
      ≡ some (xs ++ ((s ++ (0 ∷ [])) ++ drop (length s + 1) ys))
write_at-fits xs ys s h =
    rw (take_all (length s) s (omega arith))
      (write_at-append xs ys (s ++ (0 ∷ [])) ∙ rw (length-ended s) (ground arith))

write_at-overruns :
    (n : ℕ) (xs ys s : List ℕ)
    → n ≤ length s
    → length ys < n + 1
    → write_at (xs ++ ys) (length xs) (take n s ++ (0 ∷ [])) ≡ none
write_at-overruns n xs ys s h k =
    write_at-append xs ys (take n s ++ (0 ∷ []))
    ∙ ground (arith, length-ended (take n s), length-take n s)

-- A part that does not fit ends the run, and one that fits is followed by the rest.
write_parts-overrun :
    (size sz_max : ℕ) (s : List ℕ) (strings : List (List ℕ)) (xs ys : List ℕ)
    → length ys ≤ sz_max
    → length ys < length s + 1
    → write_parts size (s ∷ strings) (length xs) sz_max (xs ++ ys) ≡ none
write_parts-overrun size sz_max s strings xs ys h k =
    write_parts-none size (min (length s) sz_max) (length xs) sz_max s strings (xs ++ ys) refl
      (write_at-overruns (min (length s) sz_max) xs ys s (omega arith) (omega arith))

split_mark : (c : ℕ) (xs s zs : List ℕ) → xs ++ ((s ++ (c ∷ [])) ++ zs) ≡ (xs ++ s) ++ (c ∷ zs)
split_mark c [] [] zs = refl
split_mark c [] (d ∷ s) zs = ap (λ t. d ∷ t) (split_mark c [] s zs)
split_mark c (x ∷ xs) s zs = ap (λ t. x ∷ t) (split_mark c xs s zs)

join_mark : (c : ℕ) (xs s zs : List ℕ) → (xs ++ s) ++ (c ∷ zs) ≡ (xs ++ (s ++ (c ∷ []))) ++ zs
join_mark c [] [] zs = refl
join_mark c [] (d ∷ s) zs = ap (λ t. d ∷ t) (join_mark c [] s zs)
join_mark c (x ∷ xs) s zs = ap (λ t. x ∷ t) (join_mark c xs s zs)

marked :
    (xs s zs : List ℕ)
    → set (xs ++ ((s ++ (0 ∷ [])) ++ zs)) (length xs + length s) delimiter
      ≡ (xs ++ (s ++ (delimiter ∷ []))) ++ zs
marked xs s zs =
    rw (split_mark 0 xs s zs, ← length-append xs s)
      (set-middle (xs ++ s) 0 delimiter zs ∙ join_mark delimiter xs s zs)

write_parts-step :
    (size sz_max : ℕ) (s t : List ℕ) (strings : List (List ℕ)) (xs ys : List ℕ)
    → length s < sz_max
    → length s + 1 ≤ length ys
    → write_parts size (s ∷ (t ∷ strings)) (length xs) sz_max (xs ++ ys)
      ≡ write_parts size
          (t ∷ strings)
          (length (xs ++ (s ++ (delimiter ∷ []))))
          (sz_max - length s)
          ((xs ++ (s ++ (delimiter ∷ []))) ++ drop (length s + 1) ys)
unfolding mark
write_parts-step size sz_max s t strings xs ys h k =
    let at : length xs + length s + 1 ≡ length (xs ++ (s ++ (delimiter ∷ []))) =
      omega (arith, length-append xs (s ++ (delimiter ∷ [])), length-append s (delimiter ∷ [])) in
    write_parts-some size (length s) (length xs) sz_max s (t ∷ strings) (xs ++ ys)
      (xs ++ ((s ++ (0 ∷ [])) ++ drop (length s + 1) ys)) (omega arith) (write_at-fits xs ys s k)
      (ground arith)
    ∙ rw (at, marked xs s (drop (length s + 1) ys))

write_parts-last :
    (size sz_max : ℕ) (s xs ys : List ℕ)
    → length s < sz_max
    → length s + 1 ≤ length ys
    → write_parts size (s ∷ []) (length xs) sz_max (xs ++ ys)
      ≡ some (xs ++ ((s ++ (0 ∷ [])) ++ drop (length s + 1) ys))
unfolding mark write_parts
write_parts-last size sz_max s xs ys h k =
    write_parts-some size (length s) (length xs) sz_max s [] (xs ++ ys)
      (xs ++ ((s ++ (0 ∷ [])) ++ drop (length s + 1) ys)) (omega arith) (write_at-fits xs ys s k)
      (ground arith)

drop-nil : (n : ℕ) → drop {A = ℕ} n [] ≡ []
drop-nil zero = refl
drop-nil (suc n) = refl

pub drop-all : (n : ℕ) (xs : List ℕ) → length xs ≤ n → drop n xs ≡ []
drop-all n [] h = drop-nil n
drop-all zero (x ∷ xs) h = absurd (omega arith)
drop-all (suc n) (x ∷ xs) h = drop-all n xs (omega arith)

drop-drop : (a b : ℕ) (xs : List ℕ) → drop a (drop b xs) ≡ drop (b + a) xs
drop-drop a zero xs = let e : 0 + a ≡ a = omega arith in ap (λ n. drop n xs) (sym e)
drop-drop a (suc b) [] = drop-nil a ∙ sym (drop-nil (suc b + a))
drop-drop a (suc b) (x ∷ xs) =
    let e : suc b + a ≡ suc (b + a) = omega arith in
    drop-drop a b xs ∙ ap (λ n. drop n (x ∷ xs)) (sym e)

join_assoc :
    (xs s us vs : List ℕ)
    → (xs ++ (s ++ (delimiter ∷ []))) ++ (us ++ vs) ≡ xs ++ ((s ++ (delimiter ∷ us)) ++ vs)
join_assoc [] [] us vs = refl
join_assoc [] (c ∷ s) us vs = ap (λ t. c ∷ t) (join_assoc [] s us vs)
join_assoc (x ∷ xs) s us vs = ap (λ t. x ∷ t) (join_assoc xs s us vs)

write_parts-join :
    (size sz_max : ℕ) (s : List ℕ) (strings : List (List ℕ)) (xs ys : List ℕ)
    → total (s ∷ strings) < sz_max
    → span (s ∷ strings) ≤ length ys
    → write_parts size (s ∷ strings) (length xs) sz_max (xs ++ ys)
      ≡ some (xs ++ (join (s ∷ strings) ++ drop (span (s ∷ strings)) ys))
write_parts-join size sz_max s [] xs ys h k =
    let e : span (s ∷ []) ≡ length s + 1 = omega arith in
    write_parts-last size sz_max s xs ys (omega arith) (omega arith) ∙ rw e
write_parts-join size sz_max s (t ∷ strings) xs ys h k =
    let rest : List ℕ = drop (length s + 1) ys in
    write_parts-step size sz_max s t strings xs ys (omega arith) (omega arith)
    ∙ (write_parts-join size (sz_max - length s) t strings (xs ++ (s ++ (delimiter ∷ []))) rest
          (omega arith) (omega (arith, length-drop (length s + 1) ys))
        ∙ rw (
          join_assoc xs s (join (t ∷ strings)) (drop (span (t ∷ strings)) rest),
          drop-drop (span (t ∷ strings)) (length s + 1) ys,
        ))

-- After the first part the bytes left never exceed `unSzMax`, so a cut part overruns.
write_parts-none_iff :
    (size sz_max : ℕ) (s : List ℕ) (strings : List (List ℕ)) (xs ys : List ℕ)
    → length ys ≤ sz_max
    → (write_parts size (s ∷ strings) (length xs) sz_max (xs ++ ys) ≡ none)
      ↔ (length ys < span (s ∷ strings))
write_parts-none_iff size sz_max s [] xs ys h = elim (Bool-cases (leb (length s + 1) (length ys))) [
  | inl e ↦ ground (arith, write_parts-last size sz_max s xs ys (ground arith) (ground arith))
  | inr e ↦ ground (arith, write_parts-overrun size sz_max s [] xs ys h (ground arith))
]
write_parts-none_iff size sz_max s (t ∷ strings) xs ys h =
    elim (Bool-cases (leb (length s + 1) (length ys))) [
      | inl e ↦
          let rest : List ℕ = drop (length s + 1) ys in
          let same = write_parts-step size sz_max s t strings xs ys (ground arith) (ground arith) in
          let below =
            write_parts-none_iff size (sz_max - length s) t strings (xs ++ (s ++ (delimiter ∷ [])))
              rest (ground (arith, length-drop (length s + 1) ys)) in
          (
            λ n. ground (arith, below.0 (sym same ∙ n), length-drop (length s + 1) ys),
            λ n. same ∙ below.1 (ground (arith, length-drop (length s + 1) ys)),
          )
      | inr e ↦
          ground (arith, write_parts-overrun size sz_max s (t ∷ strings) xs ys h (ground arith))
    ]

length-join :
    (s : List ℕ) (strings : List (List ℕ)) → length (join (s ∷ strings)) ≡ span (s ∷ strings)
length-join s [] = omega (arith, length-append s (0 ∷ []))
length-join s (t ∷ strings) =
    omega (arith, length-append s (delimiter ∷ join (t ∷ strings)), length-join t strings)

-- What `pcNameToString` means to write.
abbrev pub printed : Name → List ℕ
printed nm = join (parts nm)

first_part-none_iff :
    (p i : List ℕ) (strings : List (List ℕ)) (ys : List ℕ)
    → 0 < length ys
    → (write_parts (length ys) (p ∷ (i ∷ strings)) 0 (length ys - 1) ys ≡ none)
      ↔ (length p + 1 < length ys) × (length ys < span (p ∷ (i ∷ strings)))
unfolding write_at
first_part-none_iff p i strings ys h = elim (Bool-cases (leb (length p + 2) (length ys))) [
  | inl e ↦
      let rest : List ℕ = drop (length p + 1) ys in
      let same =
        write_parts-step (length ys) (length ys - 1) p i strings [] ys (ground arith)
          (ground arith) in
      let below =
        write_parts-none_iff (length ys) (length ys - 1 - length p) i strings
          (p ++ (delimiter ∷ [])) rest (ground (arith, length-drop (length p + 1) ys)) in
      (
        λ n. (ground arith, ground (arith, below.0 (sym same ∙ n), length-drop (length p + 1) ys)),
        λ n. same ∙ below.1 (ground (arith, n.1, length-drop (length p + 1) ys)),
      )
  | inr e ↦
      let n : ℕ = length ys - 1 in
      let fits : write_at ys 0 (take n p ++ (0 ∷ []))
          ≡ some ((take n p ++ (0 ∷ [])) ++ drop (length ys) ys) =
        write_at-append [] ys (take n p ++ (0 ∷ []))
        ∙ ground (arith, length-ended (take n p), length-take n p) in
      let full =
        write_parts-full (length ys) n 0 n p (i ∷ strings) ys
          ((take n p ++ (0 ∷ [])) ++ drop (length ys) ys) (ground arith) fits (ground arith) in
      (λ x. absurd (ground (arith, full, x)), λ x. absurd (ground (arith, x.0)))
]

-- `vNameToStringBuf` writes outside of a buffer that is not empty exactly when the name does not
-- fit and its first part is not the one that is cut.
pub to_string_buf-overrun_iff :
    (nm : Name) (buf : List ℕ)
    → 0 < length buf
    → (to_string_buf nm buf ≡ none)
      ↔ (length nm.process_name + 1 < length buf)
        × (length buf
            < parts_length nm.process_name nm.process_instance nm.entity_name nm.entity_instance
              + 4)
unfolding to_string_buf
to_string_buf-overrun_iff nm buf h =
    let iff =
      first_part-none_iff nm.process_name nm.process_instance
        (nm.entity_name ∷ nm.entity_instance ∷ []) buf h in
    let size : (if length buf == 0 then 2 ^ 64 - 1 else length buf - 1) ≡ length buf - 1 =
      ground arith in
    rw (size)
      (λ n. ((iff.0 n).0, ground (arith, (iff.0 n).1)), λ n. iff.1 (n.0, ground (arith, n.1)))

-- In a buffer with room for the four parts, three delimiters and the NUL, `vNameToStringBuf`
-- writes exactly these and leaves the rest of the buffer alone.
pub to_string_buf-printed :
    (nm : Name) (buf : List ℕ)
    → parts_length nm.process_name nm.process_instance nm.entity_name nm.entity_instance + 4
      ≤ length buf
    → to_string_buf nm buf ≡ some (printed nm ++ drop (length (printed nm)) buf)
unfolding to_string_buf
to_string_buf-printed nm buf h =
    let size : (if length buf == 0 then 2 ^ 64 - 1 else length buf - 1) ≡ length buf - 1 =
      ground arith in
    let all =
      write_parts-join (length buf) (length buf - 1) nm.process_name
        (nm.process_instance ∷ nm.entity_name ∷ nm.entity_instance ∷ []) [] buf (ground arith)
        (ground arith) in
    rw
      (
        size,
        length-join nm.process_name
            (nm.process_instance ∷ nm.entity_name ∷ nm.entity_instance ∷ []),
      )
      all

pub length-printed :
    (nm : Name)
    → length (printed nm)
      ≡ parts_length nm.process_name nm.process_instance nm.entity_name nm.entity_instance + 4
length-printed nm = omega (
  arith,
  length-join nm.process_name (nm.process_instance ∷ nm.entity_name ∷ nm.entity_instance ∷ []),
)
