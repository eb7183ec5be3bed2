-- ===== src/Common/Netbuf/Release.antt =====
-- netbuf.c: what freeing the netbufs of a chain releases.
use rinasense.Base.{
  ℕ, ◌+◌, ◌≤◌, ◌≡◌, ◌⊎◌, refl, ap, ◌∙◌, sym, true, false, ◌&&◌, none, some, List, [], ◌∷◌, ◌++◌,
  if◌then◌else◌, ◌==◌, leb, min, arith, Bool-cases, Option-cases, inl, inr, append_assoc, times,
}
use rinasense.Common.Netbuf.{
  Netbuf, sharing, all_freed, starts, marked, mark, chain_stays, chain_released, netbuf_free,
  free_all,
}

-- The netbufs of a chain that point to a piece of memory.
abbrev pub owners : ℕ → List Netbuf → ℕ
owners b nodes = times b (starts nodes)

unfoldable pub owned : ℕ → Netbuf → ℕ
owned b n = elim n.buf_start [ none ↦ 0 | some c ↦ if b == c then 1 else 0 ]

owners-cons :
    (b : ℕ) (n : Netbuf) (rest : List Netbuf) → owners b (n ∷ rest) ≡ owned b n + owners b rest
unfolding times starts owned
owners-cons b n rest = elim (Option-cases n.buf_start) [
  | inl e ↦ rw (starts, e) (omega arith)
  | inr (c, e) ↦ rw (starts, e) refl
]

owners-append :
    (b : ℕ) (left right : List Netbuf) → owners b (left ++ right) ≡ owners b left + owners b right
unfolding starts times
owners-append b [] right = omega arith
owners-append b (n ∷ left) right =
    omega (arith, owners-cons b n (left ++ right), owners-cons b n left, owners-append b left right)

sharing-owners : (b : ℕ) (nodes : List Netbuf) → sharing (some b) nodes ≡ owners b nodes
unfolding sharing starts times
sharing-owners b [] = refl
sharing-owners b (n ∷ rest) = elim (Option-cases n.buf_start) [
  | inl e ↦ rw (sharing, starts, e) (omega (arith, sharing-owners b rest))
  | inr (c, e) ↦ rw (sharing, starts, e) (ground (arith, sharing-owners b rest))
]

pub owned-le-one : (b : ℕ) (n : Netbuf) → owned b n ≤ 1
unfolding owned
owned-le-one b n = elim (Option-cases n.buf_start) [
  | inl e ↦ rw (e) (omega arith)
  | inr (c, e) ↦ rw (e) (ground arith)
]

owned-marked : (b k : ℕ) (n : Netbuf) → owned b (marked k n) ≡ (if leb 2 k then 0 else owned b n)
unfolding owned
owned-marked b k n = elim (Bool-cases (leb 2 k)) [ inl e ↦ rw (e) refl | inr e ↦ rw (e) refl ]

owned_none : (b : ℕ) (n : Netbuf) → n.buf_start ≡ none → owned b n ≡ 0
unfolding owned
owned_none b n e = rw (e) refl

owned_some : (b c : ℕ) (n : Netbuf) → n.buf_start ≡ some c → owned b n ≡ (if b == c then 1 else 0)
unfolding owned
owned_some b c n e = rw (e) refl

-- The memory that a netbuf points to once it is marked: none that it shares.
pub owned-mark :
    (b : ℕ) (before : List Netbuf) (n : Netbuf) (rest : List Netbuf)
    → owned b (mark before n rest)
      ≡ (if leb 2 (owners b (before ++ (n ∷ rest))) then 0 else owned b n)
owned-mark b before n rest =
    let whole : List Netbuf = before ++ (n ∷ rest) in
    owned-marked b (sharing n.buf_start whole) n ∙ elim (Option-cases n.buf_start) [
      | inl e ↦ ground (arith, owned_none b n e)
      | inr (c, e) ↦ elim (Bool-cases (b == c)) [
        | inl f ↦
            let same : b ≡ c = ground (arith, f) in
            let shared : sharing n.buf_start whole ≡ owners b whole =
              ap (λ o. sharing o whole) (e ∙ ap some (sym same)) ∙ sharing-owners b whole in
            ap (λ k. if leb 2 k then 0 else owned b n) shared
        | inr f ↦ ground (arith, owned_some b c n e)
      ]
    ]

pub all_freed-append :
    (left right : List Netbuf) → all_freed (left ++ right) ≡ (all_freed left && all_freed right)
unfolding all_freed
all_freed-append [] right = refl
all_freed-append (n ∷ left) right = elim (Bool-cases n.freed) [
  | inl e ↦ rw (e) (all_freed-append left right)
  | inr e ↦ rw (e) refl
]

module _ (before : List Netbuf) (n : Netbuf) (rest : List Netbuf)
    (f : all_freed before ≡ true) where
  all_freed-mark : all_freed (before ++ (mark before n rest ∷ rest)) ≡ all_freed rest
  unfolding all_freed
  all_freed-mark = all_freed-append before (mark before n rest ∷ rest) ∙ rw (f) refl

  netbuf_free-stays :
      all_freed rest ≡ false
      → netbuf_free before n rest ≡ chain_stays (before ++ (mark before n rest ∷ rest))
  unfolding netbuf_free
  netbuf_free-stays r =
      let e : all_freed (before ++ (mark before n rest ∷ rest)) ≡ false = all_freed-mark ∙ r in
      rw (netbuf_free, e) refl

  pub netbuf_free-released :
      all_freed rest ≡ true
      → netbuf_free before n rest ≡ chain_released (starts (before ++ (mark before n rest ∷ rest)))
  unfolding netbuf_free
  netbuf_free-released r =
      let e : all_freed (before ++ (mark before n rest ∷ rest)) ≡ true = all_freed-mark ∙ r in
      rw (netbuf_free, e) refl

  pub all_freed-before : all_freed (before ++ (mark before n rest ∷ [])) ≡ true
  unfolding all_freed
  all_freed-before = all_freed-append before (mark before n rest ∷ []) ∙ rw (f) refl

pub free_all-step :
    (before : List Netbuf) (n : Netbuf) (rest : List Netbuf)
    → all_freed before ≡ true
    → all_freed rest ≡ false
    → free_all before (n ∷ rest) ≡ free_all (before ++ (mark before n rest ∷ [])) rest
unfolding free_all all_freed
free_all-step before n [] f r = absurd (cc r)
free_all-step before n (m ∷ rest) f r =
    let e : netbuf_free before n (m ∷ rest)
        ≡ chain_stays (before ++ (mark before n (m ∷ rest) ∷ (m ∷ rest))) =
      netbuf_free-stays before n (m ∷ rest) f r in
    rw (free_all, e) refl

pub free_all-last :
    (before : List Netbuf) (n : Netbuf)
    → all_freed before ≡ true
    → free_all before (n ∷ []) ≡ some (starts (before ++ (mark before n [] ∷ [])))
unfolding free_all all_freed
free_all-last before n f =
    let e : netbuf_free before n [] ≡ chain_released (starts (before ++ (mark before n [] ∷ []))) =
      netbuf_free-released before n [] f refl in
    rw (free_all, e) refl

-- What has been marked points to memory that nothing else in the chain points to.
abbrev pub IsSettled : List Netbuf → List Netbuf → Type 0
IsSettled before nodes = (b : ℕ) → (owners b before ≡ 0) ⊎ (owners b (before ++ nodes) ≤ 1)

module _ (before : List Netbuf) (n : Netbuf) (rest : List Netbuf)
    (s : IsSettled before (n ∷ rest)) where
  pub owners-whole :
      (b : ℕ) → owners b (before ++ (n ∷ rest)) ≡ owners b before + (owned b n + owners b rest)
  owners-whole b = omega (arith, owners-append b before (n ∷ rest), owners-cons b n rest)

  owners-marked :
      (b : ℕ)
      → owners b ((before ++ (mark before n rest ∷ [])) ++ rest)
        ≡ owners b before + (owned b (mark before n rest) + owners b rest)
  owners-marked b =
      ap (owners b) (append_assoc before (mark before n rest ∷ []) rest)
      ∙ omega (
        arith,
        owners-append b before (mark before n rest ∷ rest),
        owners-cons b (mark before n rest) rest,
      )

  pub owners-before :
      (b : ℕ)
      → owners b (before ++ (mark before n rest ∷ []))
        ≡ owners b before + owned b (mark before n rest)
  unfolding starts times
  owners-before b = omega (
    arith,
    owners-append b before (mark before n rest ∷ []),
    owners-cons b (mark before n rest) [],
  )

  pub min-owners :
      (b : ℕ)
      → min 1 (owners b ((before ++ (mark before n rest ∷ [])) ++ rest))
        ≡ min 1 (owners b (before ++ (n ∷ rest)))
  min-owners b =
      ground
        (arith, s b, owned-mark b before n rest, owners-whole b, owners-marked b, owned-le-one b n)

  pub IsSettled-mark : IsSettled (before ++ (mark before n rest ∷ [])) rest
  IsSettled-mark b = ground (
    arith,
    s b,
    owned-mark b before n rest,
    owners-whole b,
    owners-marked b,
    owners-before b,
    owned-le-one b n,
  )
