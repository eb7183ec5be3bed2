-- ===== src/Efcp/Heap.antt =====
-- components/EFCP/EFCP.c: the instances of a container that are in use.
use rinasense.Base.{
  ℕ, zero, suc, ◌≡◌, refl, ap, ◌∙◌, sym, subst, false, Option, none, some, List, [], ◌∷◌, ◌++◌,
  ◌==◌, get_elem?, set, length, arith, Bool-cases, inl, inr, get_elem?-middle,
}
use rinasense.Efcp.{efcp_allocated, Instance}
use rinasense.Efcp.Units.{instance_at}

-- A place of the heap with an instance in use.
abbrev pub IsLive : List (Option Instance) → ℕ → Type 0
IsLive instances i =
    (efcp : Instance) × ((instance_at instances i ≡ some efcp) × (efcp.state ≡ efcp_allocated))

get_elem?-set_self {ℓ} :
    {A : Type ℓ} (xs : List A) (i : ℕ) (x y : A)
    → get_elem? xs i ≡ some x
    → get_elem? (set xs i y) i ≡ some y
get_elem?-set_self [] i x y h = absurd (cc h)
get_elem?-set_self (z ∷ xs) zero x y h = refl
get_elem?-set_self (z ∷ xs) (suc i) x y h = get_elem?-set_self xs i x y h

get_elem?-set_ne {ℓ} :
    {A : Type ℓ} (xs : List A) (i j : ℕ) (y : A)
    → (i == j) ≡ false
    → get_elem? (set xs i y) j ≡ get_elem? xs j
get_elem?-set_ne [] i j y h = refl
get_elem?-set_ne (z ∷ xs) zero zero y h = absurd (cc h)
get_elem?-set_ne (z ∷ xs) zero (suc j) y h = refl
get_elem?-set_ne (z ∷ xs) (suc i) zero y h = refl
get_elem?-set_ne (z ∷ xs) (suc i) (suc j) y h = get_elem?-set_ne xs i j y (ground (arith, h))

get_elem?-instance_at :
    (instances : List (Option Instance)) (i : ℕ) (efcp : Instance)
    → instance_at instances i ≡ some efcp
    → get_elem? instances i ≡ some (some efcp)
get_elem?-instance_at [] i efcp h = absurd (cc h)
get_elem?-instance_at (o ∷ instances) zero efcp h = ap some h
get_elem?-instance_at (o ∷ instances) (suc i) efcp h = get_elem?-instance_at instances i efcp h

abbrev joined : Option (Option Instance) → Option Instance
joined none = none
joined (some o) = o

instance_at-joined :
    (instances : List (Option Instance)) (i : ℕ)
    → instance_at instances i ≡ joined (get_elem? instances i)
instance_at-joined [] i = refl
instance_at-joined (o ∷ instances) zero = refl
instance_at-joined (o ∷ instances) (suc i) = instance_at-joined instances i

pub instance_at-set_self :
    (instances : List (Option Instance)) (i : ℕ) (old new : Instance)
    → instance_at instances i ≡ some old
    → instance_at (set instances i (some new)) i ≡ some new
instance_at-set_self instances i old new h =
    instance_at-joined (set instances i (some new)) i
    ∙ ap joined (
        get_elem?-set_self instances i (some old) (some new)
          (get_elem?-instance_at instances i old h))

-- A write to an instance in use keeps every instance in use, when what is written is in use.
pub set-IsLive :
    (instances : List (Option Instance)) (i j : ℕ) (old new : Instance)
    → instance_at instances i ≡ some old
    → new.state ≡ efcp_allocated
    → IsLive instances j
    → IsLive (set instances i (some new)) j
set-IsLive instances i j old new h s (efcp, (f, u)) = elim (Bool-cases (i == j)) [
  | inl e ↦
      let same : i ≡ j = ground (arith, e) in
      (
        new,
        (
          subst (λ k. instance_at (set instances i (some new)) k ≡ some new) same
              (instance_at-set_self instances i old new h),
          s,
        ),
      )
  | inr e ↦ (
    efcp,
    (
      instance_at-joined (set instances i (some new)) j
          ∙ (ap joined (get_elem?-set_ne instances i j (some new) e)
              ∙ (sym (instance_at-joined instances j) ∙ f)),
      u,
    ),
  )
]

get_elem?-append {ℓ} :
    {A : Type ℓ} (xs ys : List A) (i : ℕ) (x : A)
    → get_elem? xs i ≡ some x
    → get_elem? (xs ++ ys) i ≡ some x
get_elem?-append [] ys i x h = absurd (cc h)
get_elem?-append (z ∷ xs) ys zero x h = h
get_elem?-append (z ∷ xs) ys (suc i) x h = get_elem?-append xs ys i x h

-- A new instance at the end of the heap keeps every instance in use, and is in use.
pub append-IsLive :
    (instances more : List (Option Instance)) (j : ℕ)
    → IsLive instances j
    → IsLive (instances ++ more) j
append-IsLive instances more j (efcp, (f, u)) = (
  efcp,
  (
    instance_at-joined (instances ++ more) j
        ∙ ap joined (
            get_elem?-append instances more j (some efcp)
              (get_elem?-instance_at instances j efcp f)),
    u,
  ),
)

pub instance_at-new :
    (instances : List (Option Instance)) (efcp : Instance)
    → instance_at (instances ++ (some efcp ∷ [])) (length instances) ≡ some efcp
instance_at-new instances efcp =
    instance_at-joined (instances ++ (some efcp ∷ [])) (length instances)
    ∙ ap joined (get_elem?-middle instances (some efcp) [])
