-- ===== src/Common/Netbuf/Split.antt =====
-- netbuf.c: where `xNetBufSplit` cuts a chain.
use rinasense.Base.{
  ℕ, ◌-◌, ◌≤◌, ◌<◌, ◌≡◌, refl, ap, ◌∙◌, sym, Bool, true, false, List, [], ◌∷◌, ◌++◌, ◌==◌, ltb,
  length, take, drop, All, arith, Bool-cases, inl, inr, subst, length-take, take_all, take-append,
  drop-append, drop-take, take-take, drop_all,
}
use rinasense.Common.Netbuf.{
  NetbufType, Netbuf, cut, split_fail, after_netbuf, second_part, split, total_size,
}
use rinasense.Common.Netbuf.Content.{
  content, IsWithin, content-freed, content-live, total_size-freed, total_size-live,
}

module _ (memory : Bool) (kind : NetbufType) (size : ℕ) (n : Netbuf) (rest : List Netbuf) where
  split-freed :
      n.freed ≡ true
      → split memory kind size (n ∷ rest) ≡ after_netbuf n (split memory kind size rest)
  unfolding split
  split-freed e = rw (split, e) refl

  split-longer :
      n.freed ≡ false
      → n.size < size
      → split memory kind size (n ∷ rest) ≡ after_netbuf n (split memory kind (size - n.size) rest)
  unfolding split
  split-longer e h =
      let less : ltb n.size size ≡ true = ground (arith, h) in rw (split, e, less) refl

  split-there : n.freed ≡ false → n.size ≡ size → split memory kind size (n ∷ rest) ≡ cut (n ∷ rest)
  unfolding split
  split-there e h =
      let less : ltb n.size size ≡ false = ground (arith, h) in
      let there : (n.size == size) ≡ true = ground (arith, h) in rw (split, e, less, there) refl

pub split-within :
    (kind : NetbufType) (size : ℕ) (n : Netbuf) (rest : List Netbuf)
    → n.freed ≡ false
    → size < n.size
    → split true kind size (n ∷ rest)
      ≡ cut (record n { size = size } ∷ (second_part kind size n ∷ rest))
unfolding split
split-within kind size n rest e h =
    let less : ltb n.size size ≡ false = ground (arith, h) in
    let there : (n.size == size) ≡ false = ground (arith, h) in rw (split, e, less, there) refl

-- A chain that is cut into two, the first of which has so many bytes.
abbrev pub IsCutAt : ℕ → List Netbuf → List Netbuf → List Netbuf → Type 0
IsCutAt size nodes front back =
    (content front ≡ take size (content nodes)) × (content back ≡ drop size (content nodes))

content_nil : content [] ≡ []
unfolding content
content_nil = refl

module _ (size : ℕ) (n : Netbuf) (rest : List Netbuf) (e : n.freed ≡ false) (w : IsWithin n) where
  here_size : length (take n.size n.buf) ≡ n.size
  here_size = omega (arith, w, length-take n.size n.buf)

  take-here :
      take size (content (n ∷ rest))
      ≡ take size (take n.size n.buf) ++ take (size - n.size) (content rest)
  take-here =
      ap (take size) (content-live n rest e)
      ∙ (take-append size (take n.size n.buf) (content rest)
          ∙ ap (λ k. take size (take n.size n.buf) ++ take (size - k) (content rest)) here_size)

  drop-here :
      drop size (content (n ∷ rest))
      ≡ drop size (take n.size n.buf) ++ drop (size - n.size) (content rest)
  drop-here =
      ap (drop size) (content-live n rest e)
      ∙ (drop-append size (take n.size n.buf) (content rest)
          ∙ ap (λ k. drop size (take n.size n.buf) ++ drop (size - k) (content rest)) here_size)

  IsCutAt-longer :
      (front back : List Netbuf)
      → n.size ≤ size
      → IsCutAt (size - n.size) rest front back
      → IsCutAt size (n ∷ rest) (n ∷ front) back
  IsCutAt-longer front back h c = (
    content-live n front e
        ∙ (ap (λ t. take n.size n.buf ++ t) c.0
            ∙ (ap (λ t. t ++ take (size - n.size) (content rest))
                  (sym (take_all size (take n.size n.buf) (omega (arith, here_size))))
                ∙ sym take-here)),
    c.1
        ∙ sym (
            drop-here
            ∙ ap (λ t. t ++ drop (size - n.size) (content rest))
                (drop_all size (take n.size n.buf) (omega (arith, here_size)))),
  )

  IsCutAt-within :
      (kind : NetbufType)
      → size < n.size
      → IsCutAt size (n ∷ rest) (record n { size = size } ∷ []) (second_part kind size n ∷ rest)
  IsCutAt-within kind h =
      let over : size - n.size ≡ 0 = omega arith in
      (
        content-live (record n { size = size }) [] e
            ∙ (ap (λ t. t ++ content []) (sym (take-take size n.size n.buf (omega arith)))
                ∙ (ap (λ t. take size (take n.size n.buf) ++ t) content_nil
                    ∙ (ap (λ k. take size (take n.size n.buf) ++ take k (content rest)) (sym over)
                        ∙ sym take-here))),
        content-live (second_part kind size n) rest refl
            ∙ (ap (λ t. t ++ content rest) (sym (drop-take size n.size n.buf))
                ∙ (ap (λ k. drop size (take n.size n.buf) ++ drop k (content rest)) (sym over)
                    ∙ sym drop-here)),
      )

IsCutAt-freed :
    (size : ℕ) (n : Netbuf) (rest front back : List Netbuf)
    → n.freed ≡ true
    → IsCutAt size rest front back
    → IsCutAt size (n ∷ rest) (n ∷ front) back
IsCutAt-freed size n rest front back e c = (
  content-freed n front e ∙ (c.0 ∙ ap (take size) (sym (content-freed n rest e))),
  c.1 ∙ ap (drop size) (sym (content-freed n rest e)),
)

IsCutAt-there : (rest : List Netbuf) → IsCutAt 0 rest [] rest
unfolding content
IsCutAt-there rest = (refl, refl)

-- `xNetBufSplit` of a chain with so many bytes, at least one, when memory is there and the netbufs
-- lie in theirs: it leaves a chain of two parts, the first of which has exactly those bytes of the
-- chain and the second the bytes after them.
pub split-IsCutAt :
    (kind : NetbufType) (size : ℕ) (nodes : List Netbuf)
    → All IsWithin nodes
    → 0 < size
    → size ≤ total_size nodes
    → (front : List Netbuf) × ((back : List Netbuf) × ((split true kind size nodes
            ≡ cut (front ++ back))
          × IsCutAt size nodes front back))
unfolding total_size
split-IsCutAt kind size [] w p h = absurd (omega arith)
split-IsCutAt kind size (n ∷ rest) w p h = elim (Bool-cases n.freed) [
  | inl e ↦
      let (front, (back, (s, c))) =
        split-IsCutAt kind size rest w.1 p (omega (arith, h, total_size-freed n rest e)) in
      (
        n ∷ front,
        (
          back,
          (
            split-freed true kind size n rest e ∙ ap (after_netbuf n) s,
            IsCutAt-freed size n rest front back e c,
          ),
        ),
      )
  | inr e ↦ elim (Bool-cases (ltb n.size size)) [
    | inl l ↦
        let less : n.size < size = ground (arith, l) in
        let (front, (back, (s, c))) =
          split-IsCutAt kind (size - n.size) rest w.1 (omega arith)
            (omega (arith, h, total_size-live n rest e)) in
        (
          n ∷ front,
          (
            back,
            (
              split-longer true kind size n rest e less ∙ ap (after_netbuf n) s,
              IsCutAt-longer size n rest e w.0 front back (omega arith) c,
            ),
          ),
        )
    | inr l ↦ elim (Bool-cases (n.size == size)) [
      | inl f ↦
          let same : n.size ≡ size = ground (arith, f) in
          let none_left : 0 ≡ size - n.size = omega arith in
          (
            n ∷ [],
            (
              rest,
              (
                split-there true kind size n rest e same,
                IsCutAt-longer size n rest e w.0 [] rest (omega arith)
                    (subst (λ k. IsCutAt k rest [] rest) none_left (IsCutAt-there rest)),
              ),
            ),
          )
      | inr f ↦
          let more : size < n.size = ground (arith, l, f) in
          (
            record n { size = size } ∷ [],
            (
              second_part kind size n ∷ rest,
              (split-within kind size n rest e more, IsCutAt-within size n rest e w.0 kind more),
            ),
          )
    ]
  ]
]

-- `xNetBufSplit` beyond the bytes of the chain fails, whether memory is there or not.
pub split-beyond :
    (memory : Bool) (kind : NetbufType) (size : ℕ) (nodes : List Netbuf)
    → total_size nodes < size
    → split memory kind size nodes ≡ split_fail
unfolding split
split-beyond memory kind size [] h = refl
split-beyond memory kind size (n ∷ rest) h = elim (Bool-cases n.freed) [
  | inl e ↦
      split-freed memory kind size n rest e
      ∙ ap (after_netbuf n)
          (split-beyond memory kind size rest (omega (arith, h, total_size-freed n rest e)))
  | inr e ↦
      split-longer memory kind size n rest e (omega (arith, h, total_size-live n rest e))
      ∙ ap (after_netbuf n) (
          split-beyond memory kind (size - n.size) rest
            (omega (arith, h, total_size-live n rest e)))
]
