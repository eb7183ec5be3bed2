-- ===== src/Common/Netbuf/FreeAll.antt =====
-- netbuf.c: `vNetBufFreeAll`, and where it goes wrong.
use rinasense.Base.{
  ℕ, ◌≡◌, refl, ◌∙◌, Bool, true, false, none, some, List, [], ◌∷◌, ◌++◌, min, times, arith,
  Bool-cases, inl, inr,
}
use rinasense.Common.Netbuf.{Netbuf, all_freed, starts, mark, netbuf_free, free_all, chain_released}
use rinasense.Common.Netbuf.Release.{
  owners, owned-mark, owned-le-one, all_freed-before, free_all-step, free_all-last, IsSettled,
  IsSettled-mark, min-owners, owners-before, owners-whole, netbuf_free-released,
}

ends_live :
    (left : List Netbuf) (last : Netbuf)
    → last.freed ≡ false
    → all_freed (left ++ (last ∷ [])) ≡ false
unfolding all_freed
ends_live [] last e = rw (e) refl
ends_live (n ∷ left) last e = elim (Bool-cases n.freed) [
  | inl f ↦ rw (f) (ends_live left last e)
  | inr f ↦ rw (f) refl
]

times-last :
    (before : List Netbuf) (last : Netbuf) (b : ℕ)
    → IsSettled before (last ∷ [])
    → times b (starts (before ++ (mark before last [] ∷ [])))
      ≡ min 1 (owners b (before ++ (last ∷ [])))
unfolding starts times
times-last before last b s = ground (
  arith,
  s b,
  owned-mark b before last [],
  owners-whole before last [] s b,
  owners-before before last [] s b,
  owned-le-one b last,
)

free_from :
    (before left : List Netbuf) (last : Netbuf)
    → all_freed before ≡ true
    → last.freed ≡ false
    → IsSettled before (left ++ (last ∷ []))
    → (memory : List ℕ) × ((free_all before (left ++ (last ∷ [])) ≡ some memory)
        × ((b : ℕ) → times b memory ≡ min 1 (owners b (before ++ (left ++ (last ∷ []))))))
free_from before [] last f e s = (
  starts (before ++ (mark before last [] ∷ [])),
  (free_all-last before last f, λ b. times-last before last b s),
)
free_from before (n ∷ left) last f e s =
    let rest : List Netbuf = left ++ (last ∷ []) in
    let (memory, (r, h)) =
      free_from (before ++ (mark before n rest ∷ [])) left last (all_freed-before before n rest f) e
        (IsSettled-mark before n rest s) in
    (
      memory,
      (
        free_all-step before n rest f (ends_live left last e) ∙ r,
        λ b. h b ∙ min-owners before n rest s b,
      ),
    )

-- `vNetBufFreeAll` of a chain whose last netbuf is not freed yet: it ends, and it has released
-- each piece of memory that a netbuf of the chain pointed to once, and nothing else.
pub free_all-once :
    (left : List Netbuf) (last : Netbuf)
    → last.freed ≡ false
    → (memory : List ℕ) × ((free_all [] (left ++ (last ∷ [])) ≡ some memory)
        × ((b : ℕ) → times b memory ≡ min 1 (owners b (left ++ (last ∷ [])))))
unfolding starts times all_freed
free_all-once left last e = free_from [] left last refl e (λ b. inl refl)

is_empty : List Netbuf → Bool
is_empty [] = true
is_empty (n ∷ rest) = false

faults_first :
    (before : List Netbuf) (n : Netbuf) (rest : List Netbuf)
    → all_freed before ≡ true
    → all_freed rest ≡ true
    → is_empty rest ≡ false
    → free_all before (n ∷ rest) ≡ none
unfolding free_all is_empty
faults_first before n [] f r e = absurd (cc e)
faults_first before n (m ∷ rest) f r e =
    let done : netbuf_free before n (m ∷ rest)
        ≡ chain_released (starts (before ++ (mark before n (m ∷ rest) ∷ (m ∷ rest)))) =
      netbuf_free-released before n (m ∷ rest) f r in
    rw (free_all, done) refl

nonempty : (left : List Netbuf) (n last : Netbuf) → is_empty (left ++ (n ∷ (last ∷ []))) ≡ false
unfolding is_empty
nonempty [] n last = refl
nonempty (m ∷ left) n last = refl

faults_from :
    (before left : List Netbuf) (n last : Netbuf)
    → all_freed before ≡ true
    → last.freed ≡ true
    → free_all before (left ++ (n ∷ (last ∷ []))) ≡ none
unfolding all_freed is_empty
faults_from before [] n last f e = faults_first before n (last ∷ []) f (rw (e) refl) refl
faults_from before (m ∷ left) n last f e =
    let rest : List Netbuf = left ++ (n ∷ (last ∷ [])) in
    elim (Bool-cases (all_freed rest)) [
      | inl r ↦ faults_first before m rest f r (nonempty left n last)
      | inr r ↦
          free_all-step before m rest f r
          ∙ faults_from (before ++ (mark before m rest ∷ [])) left n last
              (all_freed-before before m rest f) e
    ]

-- `vNetBufFreeAll` of a chain of two netbufs or more whose last one is freed already goes on to a
-- netbuf that it has released.
pub free_all-faults :
    (left : List Netbuf) (n last : Netbuf)
    → last.freed ≡ true
    → free_all [] (left ++ (n ∷ (last ∷ []))) ≡ none
unfolding all_freed
free_all-faults left n last e = faults_from [] left n last refl e
