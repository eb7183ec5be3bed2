-- ===== src/Common/Gpha/Bytes.antt =====
-- Facts about the byte loops of rina_gpha.c.
use rinasense.Base.{
  sym, ◌∙◌, ◌==◌, ap, inl, inr, Bool-cases, if◌then◌else◌, ℕ, zero, suc, ◌≤◌, ◌<◌, ◌≡◌, ◌↔◌, refl,
  true, none, some, List, [], ◌∷◌, ◌++◌, if◌then◌else◌, ◌==◌, length, take, replicate, get_or,
  arith,
}
use rinasense.Common.Gpha.{mem_eq, mem_chr, actual_length, shrunk_length}

-- The bytes before the first zero.
unfoldable pub until_zero : List ℕ → List ℕ
until_zero [] = []
until_zero (b ∷ bs) = if b == 0 then [] else b ∷ until_zero bs

pub mem_eq_iff :
    (n : ℕ) (xs ys : List ℕ)
    → n ≤ length xs
    → n ≤ length ys
    → (mem_eq n xs ys ≡ true) ↔ (take n xs ≡ take n ys)
unfolding mem_eq
mem_eq_iff zero xs ys hx hy = ((λ _. refl), (λ _. refl))
mem_eq_iff (suc n) [] ys hx hy = absurd (omega arith)
mem_eq_iff (suc n) (x ∷ xs) [] hx hy = absurd (omega arith)
mem_eq_iff (suc n) (x ∷ xs) (y ∷ ys) hx hy =
    let ih = mem_eq_iff n xs ys (omega arith) (omega arith) in
    ((λ h. ground (arith, ih.0)), (λ e. ground (arith, ih.1)))

-- `prvGetActualAddressLength` finds the length of the part before the first zero.
pub actual_length-until_zero :
    (bs : List ℕ) (n : ℕ)
    → n ≤ length bs
    → (actual_length bs n ≡ length (until_zero (take n bs))) × (actual_length bs n ≤ n)
unfolding actual_length until_zero
actual_length-until_zero bs zero h = (refl, omega arith)
actual_length-until_zero [] (suc n) h = absurd (omega arith)
actual_length-until_zero (b ∷ bs) (suc n) h =
    ground (arith, actual_length-until_zero bs n (omega arith))

pub take-actual_length :
    (bs : List ℕ) (n : ℕ) → n ≤ length bs → take (actual_length bs n) bs ≡ until_zero (take n bs)
unfolding actual_length until_zero
take-actual_length bs zero h = refl
take-actual_length [] (suc n) h = absurd (omega arith)
take-actual_length (b ∷ bs) (suc n) h = ground (arith, take-actual_length bs n (omega arith))

pub until_zero-append_zeros :
    (bs : List ℕ) (n : ℕ) → until_zero (bs ++ replicate n 0) ≡ until_zero bs
unfolding until_zero
until_zero-append_zeros [] zero = refl
until_zero-append_zeros [] (suc n) = refl
until_zero-append_zeros (b ∷ bs) n = ground (arith, until_zero-append_zeros bs n)

pub until_zero-take-mem_chr :
    (bs : List ℕ) (n i : ℕ)
    → mem_chr bs 0 n ≡ some i
    → until_zero (take i bs) ≡ until_zero (take n bs)
unfolding until_zero mem_chr
until_zero-take-mem_chr bs zero i e = absurd (ground arith)
until_zero-take-mem_chr [] (suc n) i e = absurd (ground arith)
until_zero-take-mem_chr (b ∷ bs) (suc n) zero e = ground arith
until_zero-take-mem_chr (b ∷ bs) (suc n) (suc i) e = ground (arith, until_zero-take-mem_chr bs n i)

pub mem_chr_bounds :
    (bs : List ℕ) (c n i : ℕ)
    → mem_chr bs c n ≡ some i
    → (i < n) × (i < length bs) × (get_or bs i 0 ≡ c)
unfolding mem_chr
mem_chr_bounds bs c zero i e = absurd (ground arith)
mem_chr_bounds [] c (suc n) i e = absurd (ground arith)
mem_chr_bounds (b ∷ bs) c (suc n) zero e = ground arith
mem_chr_bounds (b ∷ bs) c (suc n) (suc i) e = ground (arith, mem_chr_bounds bs c n i)

-- Without the filler in it, a buffer is found to end where the padding starts.
pub mem_chr-append_filler :
    (bs : List ℕ) (c n t : ℕ)
    → mem_chr bs c (length bs) ≡ none
    → length bs < t
    → mem_chr (bs ++ replicate (suc n) c) c t ≡ some (length bs)
unfolding mem_chr
mem_chr-append_filler bs c n zero e h = absurd (omega arith)
mem_chr-append_filler [] c n (suc t) e h = ground arith
mem_chr-append_filler (b ∷ bs) c n (suc t) e h = ground (arith, mem_chr-append_filler bs c n t)

pub shrunk_length_bounds :
    (bs : List ℕ) (filler n k : ℕ) → shrunk_length bs filler n ≡ some k → (1 ≤ k) × (k ≤ n)
unfolding shrunk_length
shrunk_length_bounds bs filler zero k e = absurd (ground arith)
shrunk_length_bounds bs filler (suc n) k e = ground (arith, shrunk_length_bounds bs filler n k)

until_zero-take-suc :
    (bs : List ℕ) (n : ℕ)
    → get_or bs n 0 ≡ 0
    → until_zero (take (suc n) bs) ≡ until_zero (take n bs)
unfolding until_zero
until_zero-take-suc [] zero e = refl
until_zero-take-suc [] (suc n) e = refl
until_zero-take-suc (b ∷ bs) zero e = ground arith
until_zero-take-suc (b ∷ bs) (suc n) e = ground (arith, until_zero-take-suc bs n)

-- Dropping the zeros at the end loses none of the bytes before the first zero.
pub until_zero-shrunk_length :
    (bs : List ℕ) (n k : ℕ)
    → shrunk_length bs 0 n ≡ some k
    → until_zero (take k bs) ≡ until_zero (take n bs)
unfolding shrunk_length
until_zero-shrunk_length bs zero k e = absurd (ground arith)
until_zero-shrunk_length bs (suc n) k e = elim (Bool-cases (get_or bs n 0 == 0)) [
  | inl filler ↦
      until_zero-shrunk_length bs n k (ground arith) ∙ sym (until_zero-take-suc bs n (ground arith))
  | inr last ↦ let same : suc n ≡ k = ground arith in ap (λ t. until_zero (take t bs)) (sym same)
]

-- The loop leaves the buffer exactly when every byte of it is the filler.
pub shrunk_length-none :
    (bs : List ℕ) (filler n : ℕ)
    → (shrunk_length bs filler n ≡ none) ↔ ((i : ℕ) → i < n → get_or bs i 0 ≡ filler)
unfolding shrunk_length
shrunk_length-none bs filler zero = ((λ e i h. absurd (omega arith)), (λ h. refl))
shrunk_length-none bs filler (suc n) = (
  λ e i h. elim (Bool-cases (i == n)) [
    | inl here ↦ let same : i ≡ n = ground arith in rw same (ground arith)
    | inr below ↦ (shrunk_length-none bs filler n).0 (ground arith) i (ground arith)
  ],
  λ h.
      let rest = (shrunk_length-none bs filler n).1 (λ i lt. h i (omega arith)) in
      ground (arith, h n, rest),
)
