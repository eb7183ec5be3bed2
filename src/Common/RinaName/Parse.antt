-- ===== src/Common/RinaName/Parse.antt =====
-- rina_name.c: names parsed from a string and printed back.
use rinasense.Base.{
  ℕ, suc, ◌≡◌, ◌≢◌, refl, ap, ◌∙◌, sym, subst, Option, none, some, List, [], ◌∷◌, ◌++◌, map, ◌==◌,
  length, arith, All, append_assoc, Bool-cases, inl, inr,
}
use rinasense.Common.RinaName.{
  Name, delimiter, until_delimiter, last_parts, later_parts, first_part, breakdown,
  zero_to_delimiter,
}

abbrev pub NoZero : List ℕ → Type 0
NoZero s = All (λ c. c ≢ 0) s

abbrev pub NoDelimiter : List ℕ → Type 0
NoDelimiter s = All (λ c. c ≢ delimiter) s

-- How the result of one parsing loop relates to the string.
abbrev Splits : List ℕ → List ℕ × Option (List ℕ) → Type 0
Splits s (a, none) = s ≡ a
Splits s (a, some r) = s ≡ a ++ (delimiter ∷ r)

Splits-cons :
    (c : ℕ) (s : List ℕ) (t : List ℕ × Option (List ℕ)) → Splits s t → Splits (c ∷ s) (c ∷ t.0, t.1)
Splits-cons c s (a, none) h = ap (λ u. c ∷ u) h
Splits-cons c s (a, some r) h = ap (λ u. c ∷ u) h

until_delimiter-Splits : (s : List ℕ) → Splits s (until_delimiter s)
unfolding until_delimiter
until_delimiter-Splits [] = refl
until_delimiter-Splits (c ∷ s) = elim (Bool-cases (c == delimiter)) [
  | inl e ↦ let same : c ≡ delimiter = ground arith in rw (e) (ap (λ d. d ∷ s) same)
  | inr e ↦ rw (e) (Splits-cons c s (until_delimiter s) (until_delimiter-Splits s))
]

-- `x` is `s` with NULs for some of its delimiters.
pub record Restores (x s : List ℕ) : Type 0 where
  pub size : length x ≡ length s
  pub text : map zero_to_delimiter x ≡ s

Restores-plain : (s : List ℕ) → NoZero s → Restores s s
Restores-plain [] h = record { size = refl; text = refl }
Restores-plain (c ∷ s) h =
    let rest = Restores-plain s h.1 in
    let same : zero_to_delimiter c ≡ c = ground (arith, h.0) in
    record {
      size = refl;
      text = ap (λ d. d ∷ map zero_to_delimiter s) same ∙ ap (λ t. c ∷ t) rest.text;
    }

Restores-mark :
    (a x r : List ℕ) → NoZero a → Restores x r → Restores (a ++ (0 ∷ x)) (a ++ (delimiter ∷ r))
Restores-mark [] x r h k = record { size = ap suc k.size; text = ap (λ t. delimiter ∷ t) k.text }
Restores-mark (c ∷ a) x r h k =
    let rest = Restores-mark a x r h.1 k in
    let same : zero_to_delimiter c ≡ c = ground (arith, h.0) in
    record {
      size = ap suc rest.size;
      text = ap (λ d. d ∷ map zero_to_delimiter (a ++ (0 ∷ x))) same ∙ ap (λ t. c ∷ t) rest.text;
    }

NoZero-left : (a r : List ℕ) → NoZero (a ++ r) → NoZero a
NoZero-left [] r h = tt
NoZero-left (c ∷ a) r h = (h.0, NoZero-left a r h.1)

NoZero-right : (a r : List ℕ) (c : ℕ) → NoZero (a ++ (c ∷ r)) → NoZero r
NoZero-right [] r c h = h.1
NoZero-right (d ∷ a) r c h = NoZero-right a r c h.1

-- The memory after a parsed name.
abbrev pub Holds : List ℕ → Option Name → Type 0
Holds s none = Unit
Holds s (some nm) = (x : List ℕ) × ((nm.block ≡ x ++ (0 ∷ [])) × Restores x s)

last_parts-Holds :
    (p i s : List ℕ)
    → NoZero p
    → NoZero i
    → NoZero s
    → (t : List ℕ × Option (List ℕ)) → Splits s t
    → Holds (p ++ (delimiter ∷ (i ++ (delimiter ∷ s)))) (some (last_parts p i t))
unfolding last_parts
last_parts-Holds p i s hp hi hs (e, none) h = (
  p ++ (0 ∷ (i ++ (0 ∷ e))),
  (
    rw (append_assoc p (0 ∷ (i ++ (0 ∷ e))) (0 ∷ []), append_assoc i (0 ∷ e) (0 ∷ [])),
    Restores-mark p (i ++ (0 ∷ e)) (i ++ (delimiter ∷ s)) hp
        (Restores-mark i e s hi (subst (λ u. Restores u s) h (Restores-plain s hs))),
  ),
)
last_parts-Holds p i s hp hi hs (e, some n) h =
    let ok : NoZero (e ++ (delimiter ∷ n)) = subst NoZero h hs in
    let tail : Restores (e ++ (0 ∷ n)) s =
      subst (λ u. Restores (e ++ (0 ∷ n)) u) (sym h)
        (Restores-mark e n n (NoZero-left e (delimiter ∷ n) ok)
          (Restores-plain n (NoZero-right e n delimiter ok))) in
    (
      p ++ (0 ∷ (i ++ (0 ∷ (e ++ (0 ∷ n))))),
      (
        rw (
          append_assoc p (0 ∷ (i ++ (0 ∷ (e ++ (0 ∷ n))))) (0 ∷ []),
          append_assoc i (0 ∷ (e ++ (0 ∷ n))) (0 ∷ []),
          append_assoc e (0 ∷ n) (0 ∷ []),
        ),
        Restores-mark p (i ++ (0 ∷ (e ++ (0 ∷ n)))) (i ++ (delimiter ∷ s)) hp
            (Restores-mark i (e ++ (0 ∷ n)) s hi tail),
      ),
    )

later_parts-Holds :
    (p s : List ℕ)
    → NoZero p
    → NoZero s
    → (t : List ℕ × Option (List ℕ)) → Splits s t
    → Holds (p ++ (delimiter ∷ s)) (later_parts p t)
unfolding later_parts
later_parts-Holds p s hp hs (i, none) h = tt
later_parts-Holds p s hp hs (i, some r) h =
    let ok : NoZero (i ++ (delimiter ∷ r)) = subst NoZero h hs in
    subst (λ u. Holds (p ++ (delimiter ∷ u)) (some (last_parts p i (until_delimiter r)))) (sym h)
      (last_parts-Holds p i r hp (NoZero-left i (delimiter ∷ r) ok) (NoZero-right i r delimiter ok)
        (until_delimiter r) (until_delimiter-Splits r))

first_part-Holds :
    (s : List ℕ) → NoZero s → (t : List ℕ × Option (List ℕ)) → Splits s t → Holds s (first_part t)
unfolding first_part
first_part-Holds s hs (p, none) h = tt
first_part-Holds s hs (p, some r) h =
    let ok : NoZero (p ++ (delimiter ∷ r)) = subst NoZero h hs in
    subst (λ u. Holds u (later_parts p (until_delimiter r))) (sym h)
      (later_parts-Holds p r (NoZero-left p (delimiter ∷ r) ok) (NoZero-right p r delimiter ok)
        (until_delimiter r) (until_delimiter-Splits r))

pub breakdown-Holds : (s : List ℕ) → NoZero s → Holds s (breakdown s)
unfolding breakdown
breakdown-Holds s h = first_part-Holds s h (until_delimiter s) (until_delimiter-Splits s)
