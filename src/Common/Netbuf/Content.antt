-- ===== src/Common/Netbuf/Content.antt =====
-- netbuf.c: the bytes of a chain, and what the operations on chains do to them.
use rinasense.Base.{
  ℕ, ◌+◌, ◌≤◌, ◌≡◌, refl, ap, ◌∙◌, sym, true, false, List, [], ◌∷◌, ◌++◌, if◌then◌else◌, length,
  take, All, arith, Bool-cases, inl, inr, append_assoc, length-append, length-take,
}
use rinasense.Common.Netbuf.{Netbuf, total_size, append}

-- The bytes of a chain: those of the netbufs that are not freed, one after the other.
unfoldable pub content : List Netbuf → List ℕ
content [] = []
content (n ∷ rest) = if n.freed then content rest else take n.size n.buf ++ content rest

-- A netbuf lies in its memory.
abbrev pub IsWithin : Netbuf → Type 0
IsWithin n = n.size ≤ length n.buf

pub content-freed :
    (n : Netbuf) (rest : List Netbuf) → n.freed ≡ true → content (n ∷ rest) ≡ content rest
unfolding content
content-freed n rest e = rw (e)

pub content-live :
    (n : Netbuf) (rest : List Netbuf)
    → n.freed ≡ false
    → content (n ∷ rest) ≡ take n.size n.buf ++ content rest
unfolding content
content-live n rest e = rw (e)

pub content-append :
    (left right : List Netbuf) → content (append left right) ≡ content left ++ content right
unfolding content
content-append [] right = refl
content-append (n ∷ left) right = elim (Bool-cases n.freed) [
  | inl e ↦
      content-freed n (left ++ right) e
      ∙ (content-append left right ∙ ap (λ c. c ++ content right) (sym (content-freed n left e)))
  | inr e ↦
      content-live n (left ++ right) e
      ∙ (ap (λ c. take n.size n.buf ++ c) (content-append left right)
          ∙ (sym (append_assoc (take n.size n.buf) (content left) (content right))
              ∙ ap (λ c. c ++ content right) (sym (content-live n left e))))
]

pub total_size-freed :
    (n : Netbuf) (rest : List Netbuf) → n.freed ≡ true → total_size (n ∷ rest) ≡ total_size rest
unfolding total_size
total_size-freed n rest e = rw (e)

pub total_size-live :
    (n : Netbuf) (rest : List Netbuf)
    → n.freed ≡ false
    → total_size (n ∷ rest) ≡ n.size + total_size rest
unfolding total_size
total_size-live n rest e = rw (e)

-- `unNetBufTotalSize` is the number of bytes of the chain, when its netbufs lie in their memory.
pub total_size-length :
    (nodes : List Netbuf) → All IsWithin nodes → total_size nodes ≡ length (content nodes)
unfolding total_size content
total_size-length [] w = refl
total_size-length (n ∷ rest) w = elim (Bool-cases n.freed) [
  | inl e ↦
      total_size-freed n rest e
      ∙ (total_size-length rest w.1 ∙ ap length (sym (content-freed n rest e)))
  | inr e ↦
      let part : length (take n.size n.buf) ≡ n.size =
        omega (arith, w.0, length-take n.size n.buf) in
      total_size-live n rest e
      ∙ (omega (
        arith,
        total_size-length rest w.1,
        part,
        length-append (take n.size n.buf) (content rest),
      )
          ∙ ap length (sym (content-live n rest e)))
]
