-- ===== src/Common/Netbuf/Cut.antt =====
-- netbuf.c: where `xNetBufSplit` cuts a chain and what `unNetBufRead` copies.
use rinasense.Base.{
  ℕ, ◌-◌, ◌≤◌, ◌<◌, ◌≡◌, refl, ap, ◌∙◌, sym, true, false, List, [], ◌∷◌, ◌++◌, ◌==◌, leb, length,
  take, drop, All, arith, Bool-cases, inl, inr, append-nil, length-take, length-drop, take_all,
  take-append, drop-append, drop-take, take-take, drop_all, take_nil, drop_nil,
}
use rinasense.Common.Netbuf.{Netbuf, read}
use rinasense.Common.Netbuf.Content.{content, IsWithin, content-freed, content-live}

read-freed :
    (n : Netbuf) (rest : List Netbuf) (offset room : ℕ)
    → n.freed ≡ true
    → read (n ∷ rest) offset room ≡ read rest offset room
unfolding read
read-freed n rest offset room e =
    let whole : room - 0 ≡ room = omega arith in rw (read, e, whole) refl

read-past :
    (n : Netbuf) (rest : List Netbuf) (offset room : ℕ)
    → n.freed ≡ false
    → n.size ≤ offset
    → read (n ∷ rest) offset room ≡ read rest (offset - n.size) room
unfolding read
read-past n rest offset room e h =
    let whole : room - 0 ≡ room = omega arith in
    let past : leb n.size offset ≡ true = ground (arith, h) in rw (read, e, past, whole) refl

read-part :
    (n : Netbuf) (rest : List Netbuf) (offset room : ℕ)
    → n.freed ≡ false
    → offset < n.size
    → room < n.size - offset
    → read (n ∷ rest) offset room ≡ take room (drop offset n.buf)
unfolding read
read-part n rest offset room e h k =
    let past : leb n.size offset ≡ false = ground (arith, h) in
    let fits : leb (n.size - offset) room ≡ false = ground (arith, k) in
    let done : (room - room == 0) ≡ true = ground arith in rw (read, e, past, fits, done) refl

-- Without room nothing is copied.
read-none : (nodes : List Netbuf) (offset : ℕ) → read nodes offset 0 ≡ []
unfolding read
read-none [] offset = refl
read-none (n ∷ rest) offset = elim (Bool-cases n.freed) [
  | inl e ↦ read-freed n rest offset 0 e ∙ read-none rest offset
  | inr e ↦ elim (Bool-cases (leb n.size offset)) [
    | inl h ↦ read-past n rest offset 0 e (ground (arith, h)) ∙ read-none rest (offset - n.size)
    | inr h ↦ read-part n rest offset 0 e (ground (arith, h)) (ground (arith, h))
  ]
]

read-all :
    (n : Netbuf) (rest : List Netbuf) (offset room : ℕ)
    → n.freed ≡ false
    → offset < n.size
    → n.size - offset ≤ room
    → read (n ∷ rest) offset room
      ≡ take (n.size - offset) (drop offset n.buf) ++ read rest 0 (room - (n.size - offset))
unfolding read
read-all n rest offset room e h k =
    let past : leb n.size offset ≡ false = ground (arith, h) in
    let fits : leb (n.size - offset) room ≡ true = ground (arith, k) in
    let begun : offset - n.size ≡ 0 = omega arith in
    rw (read, e, past, fits, begun)
      (elim (Bool-cases (room - (n.size - offset) == 0)) [
        | inl d ↦
            let none_left : room - (n.size - offset) ≡ 0 = ground (arith, d) in
            rw (d) (
              sym (append-nil (take (n.size - offset) (drop offset n.buf)))
              ∙ ap (λ t. take (n.size - offset) (drop offset n.buf) ++ t)
                  (sym (ap (read rest 0) none_left ∙ read-none rest 0)))
        | inr d ↦ rw (d) refl
      ])

-- `unNetBufRead` copies the bytes of the chain from the offset on, as many as there are and there
-- is room for, when the netbufs lie in their memory.
pub read-take :
    (nodes : List Netbuf) (offset room : ℕ)
    → All IsWithin nodes
    → read nodes offset room ≡ take room (drop offset (content nodes))
unfolding read content
read-take [] offset room w = sym (ap (take room) (drop_nil offset) ∙ take_nil room)
read-take (n ∷ rest) offset room w = elim (Bool-cases n.freed) [
  | inl e ↦
      read-freed n rest offset room e
      ∙ (read-take rest offset room w.1
          ∙ ap (λ c. take room (drop offset c)) (sym (content-freed n rest e)))
  | inr e ↦
      let here : List ℕ = take n.size n.buf in
      let size : length here ≡ n.size = omega (arith, w.0, length-take n.size n.buf) in
      let target : drop offset (content (n ∷ rest))
          ≡ drop offset here ++ drop (offset - n.size) (content rest) =
        ap (drop offset) (content-live n rest e)
        ∙ (drop-append offset here (content rest)
            ∙ ap (λ k. drop offset here ++ drop (offset - k) (content rest)) size) in
      elim (Bool-cases (leb n.size offset)) [
        | inl h ↦
            let past : n.size ≤ offset = ground (arith, h) in
            let skipped : drop offset here ≡ [] = drop_all offset here (omega (arith, size)) in
            read-past n rest offset room e past
            ∙ (read-take rest (offset - n.size) room w.1
                ∙ ap (take room)
                    (sym (target ∙ ap (λ t. t ++ drop (offset - n.size) (content rest)) skipped)))
        | inr h ↦
            let before : offset < n.size = ground (arith, h) in
            let left : drop offset here ≡ take (n.size - offset) (drop offset n.buf) =
              drop-take offset n.size n.buf in
            let begun : offset - n.size ≡ 0 = omega arith in
            let tail : List ℕ = take (n.size - offset) (drop offset n.buf) in
            let tail_size : length tail ≡ n.size - offset = omega (
              arith,
              w.0,
              length-take (n.size - offset) (drop offset n.buf),
              length-drop offset n.buf,
            ) in
            let goal : take room (drop offset (content (n ∷ rest)))
                ≡ take room tail ++ take (room - (n.size - offset)) (content rest) =
              ap (take room) (
                target
                ∙ (ap (λ t. t ++ drop (offset - n.size) (content rest)) left
                    ∙ ap (λ k. tail ++ drop k (content rest)) begun))
              ∙ (take-append room tail (content rest)
                  ∙ ap (λ k. take room tail ++ take (room - k) (content rest)) tail_size) in
            elim (Bool-cases (leb (n.size - offset) room)) [
              | inl f ↦
                  let fits : n.size - offset ≤ room = ground (arith, f) in
                  read-all n rest offset room e before fits
                  ∙ (ap (λ t. tail ++ t) (read-take rest 0 (room - (n.size - offset)) w.1)
                      ∙ (ap (λ t. t ++ take (room - (n.size - offset)) (content rest))
                            (sym (take_all room tail (omega (arith, tail_size))))
                          ∙ sym goal))
              | inr f ↦
                  let short : room < n.size - offset = ground (arith, f) in
                  let none_left : room - (n.size - offset) ≡ 0 = omega arith in
                  read-part n rest offset room e before short
                  ∙ (sym (take-take room (n.size - offset) (drop offset n.buf) (omega arith))
                      ∙ (sym (append-nil (take room tail))
                          ∙ (ap (λ k. take room tail ++ take k (content rest)) (sym none_left)
                              ∙ sym goal)))
            ]
      ]
]
