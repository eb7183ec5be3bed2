-- ===== src/ShimIpcp/Shim/Found.antt =====
-- components/ShimIPCP/ShimIPCP.c: the search for the flow of a hardware address.
use rinasense.Base.{
  ℕ, zero, suc, ◌<◌, ◌≡◌, ◌≢◌, refl, sym, ap, ◌∙◌, true, Option, some, List, [], ◌∷◌, length, take,
  set, get_elem?, arith, Bool-cases, inl, inr,
}
use rinasense.Common.Gpha.{Gha, made, null, fault, mem_eq, gha_cmp}
use rinasense.ShimIpcp.Shim.{Pointer, null_pointer, points_to, dangling, ShimFlow, find_by_gha}

pub mem_eq-same : (n : ℕ) (xs ys : List ℕ) → mem_eq n xs ys ≡ true → take n xs ≡ take n ys
unfolding mem_eq
mem_eq-same zero xs ys e = refl
mem_eq-same (suc n) [] ys e = absurd (cc e)
mem_eq-same (suc n) (x ∷ xs) [] e = absurd (cc e)
mem_eq-same (suc n) (x ∷ xs) (y ∷ ys) e = ground (arith, mem_eq-same n xs ys)

-- A flow that is found stands somewhere, and has the address.
pub find_by_gha-place :
    (ha : Option Gha) (flows : List (Pointer ShimFlow)) (flow : ShimFlow)
    → find_by_gha ha flows ≡ made flow
    → (p : ℕ) × ((get_elem? flows p ≡ some (points_to flow)) × (gha_cmp flow.dest_ha ha ≡ true))
unfolding find_by_gha
find_by_gha-place ha [] flow e = absurd (cc e)
find_by_gha-place ha (null_pointer ∷ rest) flow e =
    let (p, at) = find_by_gha-place ha rest flow e in (suc p, at)
find_by_gha-place ha (dangling ∷ rest) flow e = absurd (cc e)
find_by_gha-place ha (points_to f ∷ rest) flow e = elim (Bool-cases (gha_cmp f.dest_ha ha)) [
  | inl hit ↦
      let same : made f ≡ made flow = rw hit at e in
      let flow_same : f ≡ flow = cc same in
      (
        0,
        (
          ap (λ k. some (points_to k)) flow_same,
          ap (λ k. gha_cmp k.dest_ha ha) (sym flow_same) ∙ hit,
        ),
      )
  | inr miss ↦ let (p, at) = find_by_gha-place ha rest flow (rw miss at e) in (suc p, at)
]

-- Without a dangling pointer the search does not fail.
pub find_by_gha-live :
    (ha : Option Gha) (flows : List (Pointer ShimFlow))
    → ((p : ℕ) → get_elem? flows p ≢ some dangling)
    → find_by_gha ha flows ≢ fault
unfolding find_by_gha
find_by_gha-live ha [] live e = cc e
find_by_gha-live ha (null_pointer ∷ rest) live e = find_by_gha-live ha rest (λ p. live (suc p)) e
find_by_gha-live ha (dangling ∷ rest) live e = live 0 refl
find_by_gha-live ha (points_to f ∷ rest) live e = elim (Bool-cases (gha_cmp f.dest_ha ha)) [
  | inl hit ↦ cc (rw hit at e)
  | inr miss ↦ find_by_gha-live ha rest (λ p. live (suc p)) (rw miss at e)
]

-- An address that had no flow has the one that is put in.
pub find_by_gha-set :
    (ha : Option Gha) (flows : List (Pointer ShimFlow)) (p : ℕ) (flow : ShimFlow)
    → find_by_gha ha flows ≡ null
    → p < length flows
    → gha_cmp flow.dest_ha ha ≡ true
    → find_by_gha ha (set flows p (points_to flow)) ≡ made flow
unfolding find_by_gha
find_by_gha-set ha [] p flow e h hit = absurd (omega arith)
find_by_gha-set ha (x ∷ rest) zero flow e h hit = rw hit
find_by_gha-set ha (null_pointer ∷ rest) (suc p) flow e h hit =
    find_by_gha-set ha rest p flow e (omega arith) hit
find_by_gha-set ha (dangling ∷ rest) (suc p) flow e h hit = absurd (cc e)
find_by_gha-set ha (points_to f ∷ rest) (suc p) flow e h hit =
    elim (Bool-cases (gha_cmp f.dest_ha ha)) [
      | inl other ↦ absurd (cc (rw other at e))
      | inr miss ↦ rw miss (find_by_gha-set ha rest p flow (rw miss at e) (omega arith) hit)
    ]

-- An address that had no flow meets the pointer that a flow left behind.
pub find_by_gha-dangling :
    (ha : Option Gha) (flows : List (Pointer ShimFlow)) (p : ℕ)
    → find_by_gha ha flows ≡ null
    → p < length flows
    → find_by_gha ha (set flows p dangling) ≡ fault
unfolding find_by_gha
find_by_gha-dangling ha [] p e h = absurd (omega arith)
find_by_gha-dangling ha (x ∷ rest) zero e h = refl
find_by_gha-dangling ha (null_pointer ∷ rest) (suc p) e h =
    find_by_gha-dangling ha rest p e (omega arith)
find_by_gha-dangling ha (dangling ∷ rest) (suc p) e h = absurd (cc e)
find_by_gha-dangling ha (points_to f ∷ rest) (suc p) e h =
    elim (Bool-cases (gha_cmp f.dest_ha ha)) [
      | inl other ↦ absurd (cc (rw other at e))
      | inr miss ↦ rw miss (find_by_gha-dangling ha rest p (rw miss at e) (omega arith))
    ]
