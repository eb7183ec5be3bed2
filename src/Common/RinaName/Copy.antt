-- ===== src/Common/RinaName/Copy.antt =====
-- rina_name.c: what a copied name and a name made from parts lose.
use mathlib.Core.Option.{some-injective}
use rinasense.Base.{
  none, suc, subst, ℕ, ◌+◌, ◌<◌, ◌≡◌, ◌↔◌, refl, ap, ◌∙◌, sym, true, some, List, [], ◌∷◌, ◌++◌, map,
  length, take, drop, arith, length-append, length-take, length-drop,
}
use rinasense.Common.Gpha.{made}
use rinasense.Common.RinaName.{
  Name, new_from_parts, assign_static, assign_dup, copy_parts, parts, parts_length, to_string,
  zero_to_delimiter,
}
use rinasense.Common.RinaName.Buffer.{printed, length-printed}

last_of : List (List ℕ) → List ℕ
last_of [] = []
last_of (a ∷ []) = a
last_of (a ∷ (b ∷ rest)) = last_of (b ∷ rest)

-- A copy by `xNameAssignDup` or `vNameAssignStatic` has the parts of its source exactly when the
-- source's entity instance is its process instance, which both pass in its place.
pub assign_dup-assign_static_iff :
    (src nm : Name)
    → assign_dup true src ≡ some nm
    → ((parts nm ≡ parts src) ↔ (src.process_instance ≡ src.entity_instance))
      × ((parts (assign_static src) ≡ parts src) ↔ (src.process_instance ≡ src.entity_instance))
unfolding assign_dup assign_static last_of
assign_dup-assign_static_iff src nm h =
    let made_of : parts (assign_static src) ≡ parts nm =
      ap (λ o. elim o [ none ↦ parts (assign_static src) | some m ↦ parts m ]) h in
    let forth : parts (assign_static src) ≡ parts src → src.process_instance ≡ src.entity_instance =
      λ q. ap (λ t. last_of t) q in
    let back : src.process_instance ≡ src.entity_instance → parts (assign_static src) ≡ parts src =
      λ q. ap (λ t. src.process_name ∷ src.process_instance ∷ src.entity_name ∷ t ∷ []) q in
    ((λ q. forth (made_of ∙ q), λ q. sym made_of ∙ back q), (forth, back))

length-map : (f : ℕ → ℕ) (xs : List ℕ) → length (map f xs) ≡ length xs
length-map f [] = refl
length-map f (x ∷ xs) = ap suc (length-map f xs)

length-copy_parts : (p i e n : List ℕ) → length (copy_parts p i e n) ≡ parts_length p i e n + 4
length-copy_parts p i e n = omega (
  arith,
  length-append p (0 ∷ (i ++ (0 ∷ (e ++ (0 ∷ (n ++ (0 ∷ []))))))),
  length-append i (0 ∷ (e ++ (0 ∷ (n ++ (0 ∷ []))))),
  length-append e (0 ∷ (n ++ (0 ∷ []))),
  length-append n (0 ∷ []),
)

abbrev from_parts : List ℕ → List ℕ → List ℕ → List ℕ → Name
from_parts p i e n = record {
  post_ln = parts_length p i e n;
  process_name = p;
  process_instance = i;
  entity_name = e;
  entity_instance = n;
  block = copy_parts p i e n;
  owned = true;
}

abbrev Short : ℕ → Name → Type 0
Short fill m =
    (s : List ℕ) × ((to_string true fill m ≡ made s) × (length s + 3 ≡ length (printed m)))

-- A name that `pxNameNewFromParts` made prints three bytes short of its text, since the length it
-- keeps counts no delimiter.
pub to_string-new_from_parts_short :
    (fill : ℕ) (p i e n : List ℕ) (nm : Name)
    → 0 < parts_length p i e n
    → new_from_parts true p i e n ≡ some nm
    → (s : List ℕ) × ((to_string true fill nm ≡ made s) × (length s + 3 ≡ length (printed nm)))
unfolding new_from_parts
to_string-new_from_parts_short fill p i e n nm h k = subst (Short fill) (some-injective _ _ k) (
  map zero_to_delimiter (take (parts_length p i e n) (copy_parts p i e n))
      ++ take 1 (drop (parts_length p i e n) (copy_parts p i e n)),
  (
    unfold to_string in ground (arith, length-copy_parts p i e n),
    omega (
      arith,
      length-append (map zero_to_delimiter (take (parts_length p i e n) (copy_parts p i e n)))
          (take 1 (drop (parts_length p i e n) (copy_parts p i e n))),
      length-map zero_to_delimiter (take (parts_length p i e n) (copy_parts p i e n)),
      length-take (parts_length p i e n) (copy_parts p i e n),
      length-take 1 (drop (parts_length p i e n) (copy_parts p i e n)),
      length-drop (parts_length p i e n) (copy_parts p i e n),
      length-copy_parts p i e n,
      length-printed (from_parts p i e n),
    ),
  ),
)
