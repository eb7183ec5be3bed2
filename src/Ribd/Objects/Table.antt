-- ===== src/Ribd/Objects/Table.antt =====
-- Ribd_obj.c: the table as a map from names to objects.
use rinasense.Base.{
  ℕ, ◌≡◌, refl, ap, ◌∙◌, sym, Bool, true, false, Option, none, some, List, [], ◌∷◌, Bool-cases, inl,
  inr, eq_refl,
}
use rinasense.Ribd.{RibObject, RibState, success}
use rinasense.Ribd.Objects.{same_string, add_object, object_add, find_object, object_find}

same_string_refl : (s : List ℕ) → same_string s s ≡ true
unfolding same_string
same_string_refl [] = refl
same_string_refl (c ∷ s) = rw (eq_refl c, same_string_refl s)

abbrev pub any_slot : List (Option RibObject) → Bool
any_slot [] = false
any_slot (none ∷ rows) = true
any_slot (some o ∷ rows) = any_slot rows

-- The table after an object was added.
record Listed (o : RibObject) (name : List ℕ) (owner : ℕ) (rows : List (Option RibObject))
    : Type 0 where
  table : List (Option RibObject)
  adds : add_object owner o rows ≡ some (success, table)
  finds : find_object o.obj_name table ≡ some (record o { owner = owner })
  other : find_object name table ≡ find_object name rows

find_object-first :
    (o : RibObject) (name : List ℕ) (rows : List (Option RibObject))
    → same_string o.obj_name name ≡ true
    → find_object name (some o ∷ rows) ≡ some o
unfolding find_object
find_object-first o name rows h = rw (h)

find_object-skip :
    (o : RibObject) (name : List ℕ) (rows : List (Option RibObject))
    → same_string o.obj_name name ≡ false
    → find_object name (some o ∷ rows) ≡ find_object name rows
unfolding find_object
find_object-skip o name rows h = rw (h)

find_object-cons :
    (p : RibObject) (name : List ℕ) (rows rows' : List (Option RibObject))
    → find_object name rows ≡ find_object name rows'
    → find_object name (some p ∷ rows) ≡ find_object name (some p ∷ rows')
unfolding find_object
find_object-cons p name rows rows' h = rw (h)

add_object-Listed :
    (o : RibObject) (name : List ℕ) (owner : ℕ) (rows : List (Option RibObject))
    → o.fn_init ≡ none
    → any_slot rows ≡ true
    → find_object o.obj_name rows ≡ none
    → same_string o.obj_name name ≡ false
    → Listed o name owner rows
unfolding add_object
add_object-Listed o name owner [] i a n d = absurd (cc a)
add_object-Listed o name owner (none ∷ rows) i a n d = record {
  table = some (record o { owner = owner }) ∷ rows;
  adds = rw (i) refl;
  finds =
      find_object-first (record o { owner = owner }) o.obj_name rows (same_string_refl o.obj_name);
  other = find_object-skip (record o { owner = owner }) name rows d ∙ unfold find_object in refl;
}
add_object-Listed o name owner (some p ∷ rows) i a n d =
    elim (Bool-cases (same_string p.obj_name o.obj_name)) [
      | inl e ↦ absurd (cc (sym (find_object-first p o.obj_name rows e) ∙ n))
      | inr e ↦
          let rest =
            add_object-Listed o name owner rows i a (sym (find_object-skip p o.obj_name rows e) ∙ n)
              d in
          record {
            table = some p ∷ rest.table;
            adds = rw (add_object, rest.adds) refl;
            finds = find_object-skip p o.obj_name rest.table e ∙ rest.finds;
            other = find_object-cons p name rest.table rows rest.other;
          }
    ]

-- An object with a new name and no initialisation, added to a table with a free slot, is found
-- under its name with its owner, and what is found under any other name is as before.
pub object_add-object_find :
    (r : RibState) (owner : ℕ) (o : RibObject) (name : List ℕ)
    → o.fn_init ≡ none
    → any_slot r.objects ≡ true
    → find_object o.obj_name r.objects ≡ none
    → same_string o.obj_name name ≡ false
    → (r1 : RibState) × ((object_add r owner o ≡ (success, r1))
        × ((object_find r1 (some o.obj_name) ≡ some (some (record o { owner = owner })))
            × (object_find r1 (some name) ≡ object_find r (some name))))
unfolding object_add object_find
object_add-object_find r owner o name i a n d =
    let l = add_object-Listed o name owner r.objects i a n d in
    (
      record r { objects = l.table },
      (rw (object_add, l.adds) refl, (ap some l.finds, ap some l.other)),
    )
