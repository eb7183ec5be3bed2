-- ===== src/Base/Bits.antt =====
-- Single bits of a word: `|` and `&` with a one-bit mask and with its complement.
use Prim.Native.Nat.{digits, bit_and-bitwise, bit_or-bitwise}
use Prim.Native.Nat.{
  ℕ, zero, suc, ◌+◌, ◌-◌, ◌*◌, ◌/◌, ◌%◌, ◌^◌, ◌≤◌, ◌<◌, min, max, bit_and, bit_or,
}
use mathlib.Core.Path.{◌≡◌, refl, ◌∙◌, ap, ap₂}
use mathlib.Core.Bool.{Bool, true, false}
use native.Mathlib.Omega.{arith}
use native.Mathlib.Nat.{pow-suc, one-le-pow}
use rinasense.Base.Tests.{ltb, ◌==◌, ==_iff, if◌then◌else◌}

-- The digit recursion behind the native operations gives one answer for any fuel not below
-- the first word.
digits-fuel_irrelevant :
    (e : ℕ → ℕ) (f : ℕ → ℕ → ℕ) (n m a b : ℕ) → a ≤ m → a ≤ n → digits e f n a b ≡ digits e f m a b
digits-fuel_irrelevant e f zero zero zero b _ _ = refl
digits-fuel_irrelevant e f zero (suc m) zero b _ _ = refl
digits-fuel_irrelevant e f (suc n) zero zero b _ _ = refl
digits-fuel_irrelevant e f (suc n) (suc m) zero b _ _ = refl
digits-fuel_irrelevant e f (suc n) zero (suc a) b h _ = absurd (omega arith)
digits-fuel_irrelevant e f zero m (suc a) b _ h = absurd (omega arith)
digits-fuel_irrelevant e f (suc n) (suc m) (suc a) b h k =
    ap (λ d. d * 2 + f (suc a % 2) (b % 2))
      (digits-fuel_irrelevant e f n m (suc a / 2) (b / 2) (omega arith) (omega arith))

pub zero-and : (b : ℕ) → bit_and 0 b ≡ 0
zero-and b = bit_and-bitwise 0 b

zero-or : (b : ℕ) → bit_or 0 b ≡ b
zero-or b = bit_or-bitwise 0 b

pub and_step : (a b : ℕ) → bit_and a b ≡ bit_and (a / 2) (b / 2) * 2 + min (a % 2) (b % 2)
and_step zero b = omega (arith, zero-and b, zero-and (b / 2))
and_step (suc a) b = omega (
  arith,
  bit_and-bitwise (suc a) b,
  bit_and-bitwise (suc a / 2) (b / 2),
  digits-fuel_irrelevant (λ c. zero) min a (suc a / 2) (suc a / 2) (b / 2) (omega arith)
      (omega arith),
)

or_step : (a b : ℕ) → bit_or a b ≡ bit_or (a / 2) (b / 2) * 2 + max (a % 2) (b % 2)
or_step zero b = omega (arith, zero-or b, zero-or (b / 2))
or_step (suc a) b = omega (
  arith,
  bit_or-bitwise (suc a) b,
  bit_or-bitwise (suc a / 2) (b / 2),
  digits-fuel_irrelevant (λ c. c) max a (suc a / 2) (suc a / 2) (b / 2) (omega arith) (omega arith),
)

-- Digit `c` of a word.
nth : ℕ → ℕ → ℕ
nth w zero = w % 2
nth w (suc c) = nth (w / 2) c

nth-le-one : (c w : ℕ) → nth w c ≤ 1
unfolding nth
nth-le-one zero w = omega arith
nth-le-one (suc c) w = nth-le-one c (w / 2)

nth-and : (c a b : ℕ) → nth (bit_and a b) c ≡ min (nth a c) (nth b c)
unfolding nth
nth-and zero a b = omega (arith, and_step a b)
nth-and (suc c) a b = ap (λ w. nth w c) (omega (arith, and_step a b)) ∙ nth-and c (a / 2) (b / 2)

nth-or : (c a b : ℕ) → nth (bit_or a b) c ≡ max (nth a c) (nth b c)
unfolding nth
nth-or zero a b = omega (arith, or_step a b)
nth-or (suc c) a b = ap (λ w. nth w c) (omega (arith, or_step a b)) ∙ nth-or c (a / 2) (b / 2)

nth-zero : (c : ℕ) → nth 0 c ≡ 0
unfolding nth
nth-zero zero = refl
nth-zero (suc c) = nth-zero c

nth-pow : (b c : ℕ) → nth (2 ^ b) c ≡ (if b == c then 1 else 0)
unfolding nth
nth-pow zero zero = refl
nth-pow zero (suc c) = ground (arith, nth-zero c)
nth-pow (suc b) zero = ground (arith, pow-suc 2 b)
nth-pow (suc b) (suc c) =
    ap (λ w. nth w c) (omega (arith, pow-suc 2 b)) ∙ (nth-pow b c ∙ ground arith)

and_step-zero : (a : ℕ) → bit_and a 0 ≡ bit_and (a / 2) 0 * 2 + min (a % 2) 0
and_step-zero a = and_step a 0

and-zero : (c a : ℕ) → a ≤ c → bit_and a 0 ≡ 0
and-zero c zero h = refl
and-zero zero (suc a) h = absurd (omega arith)
and-zero (suc c) (suc a) h =
    omega (arith, and_step-zero (suc a), and-zero c (suc a / 2) (omega arith))

and_step-one : (a : ℕ) → bit_and a 1 ≡ bit_and (a / 2) 0 * 2 + min (a % 2) 1
and_step-one a = and_step a 1

half-pow : (b : ℕ) → 2 ^ suc b / 2 ≡ 2 ^ b
half-pow b = omega (arith, pow-suc 2 b)

and_step-pow : (b w : ℕ) → bit_and w (2 ^ suc b) ≡ bit_and (w / 2) (2 ^ b) * 2
and_step-pow b w =
    let low : min (w % 2) (2 ^ suc b % 2) ≡ 0 = omega (arith, pow-suc 2 b) in
    let joined : bit_and w (2 ^ suc b) ≡ bit_and (w / 2) (2 ^ b) * 2 + 0 =
      and_step w (2 ^ suc b) ∙ ap₂ (λ s t. bit_and (w / 2) s * 2 + t) (half-pow b) low in
    omega arith

and-pow : (b w : ℕ) → bit_and w (2 ^ b) ≡ nth w b * 2 ^ b
unfolding nth
and-pow zero w = omega (arith, and_step-one w, and-zero (w / 2) (w / 2) (omega arith))
and-pow (suc b) w = grind (arith, and_step-pow b w, and-pow b (w / 2), pow-suc 2 b)

-- `w & (1 << b)` is not zero exactly when digit `b` is one.
unfoldable pub test_bit : ℕ → ℕ → Bool
test_bit w b = ltb 0 (bit_and w (2 ^ b))

test_bit-nth : (w b : ℕ) → test_bit w b ≡ (nth w b == 1)
unfolding test_bit
test_bit-nth w b = ground (arith, and-pow b w, nth-le-one b w, one-le-pow b 2, product)
  where
    product : (nth w b ≡ 1) → nth w b * 2 ^ b ≡ 2 ^ b
    product e = rw e (omega arith)

pub test_bit-or :
    (w b c : ℕ) → test_bit (bit_or w (2 ^ b)) c ≡ (if b == c then true else test_bit w c)
test_bit-or w b c =
    rw (test_bit-nth, test_bit-nth, nth-or c w (2 ^ b), nth-pow b c)
      (ground (arith, nth-le-one c w))

-- `~(1 << b)` in 32 bits.
abbrev pub clear_mask : ℕ → ℕ
clear_mask b = 2 ^ 32 - 1 - 2 ^ b

every_under : (ℕ → Bool) → ℕ → Bool
every_under test zero = true
every_under test (suc n) = if test n then every_under test n else false

every_under-test : (test : ℕ → Bool) (c n : ℕ) → c < n → every_under test n ≡ true → test c ≡ true
unfolding every_under
every_under-test test c zero lt h = absurd (omega arith)
every_under-test test c (suc n) lt h = ground (arith, every_under-test test c n)

mask_row : ℕ → ℕ → Bool
mask_row b c = nth (clear_mask b) c == (if b == c then 0 else 1)

mask_table : every_under (λ b. every_under (mask_row b) 32) 32 ≡ true
unfolding every_under mask_row nth
mask_table = refl

nth-clear_mask : (b c : ℕ) → b < 32 → c < 32 → nth (clear_mask b) c ≡ (if b == c then 0 else 1)
unfolding mask_row
nth-clear_mask b c hb hc = (==_iff _ _).0 (
    every_under-test (mask_row b) c 32 hc
      (every_under-test (λ d. every_under (mask_row d) 32) b 32 hb mask_table))

pub test_bit-and_clear :
    (w b c : ℕ)
    → b < 32
    → c < 32
    → test_bit (bit_and w (clear_mask b)) c ≡ (if b == c then false else test_bit w c)
test_bit-and_clear w b c hb hc =
    rw (test_bit-nth, test_bit-nth, nth-and c w (clear_mask b), nth-clear_mask b c hb hc)
      (ground (arith, nth-le-one c w))

pub test_bit-zero : (c : ℕ) → test_bit 0 c ≡ false
unfolding test_bit
test_bit-zero c = rw (zero-and (2 ^ c))
