-- ===== src/Ribd/Objects.antt =====
-- components/Ribd/Ribd_obj.c and the method tables of Ribd_requests.c: the objects of the RIB.
pub mod Table
use rinasense.Base.{
  ℕ, zero, suc, Bool, true, false, ◌&&◌, Option, none, some, List, [], ◌∷◌, if◌then◌else◌, ◌==◌,
  is_some,
}
use rinasense.Ribd.{
  RibObject, RibState, ReqMethod, ResMethod, OpCode, m_create, m_delete, m_read, m_write, m_start,
  m_stop, m_create_r, m_delete_r, m_read_r, m_write_r, m_start_r, m_stop_r, success, fail,
  table_full,
}

-- `strcmp` against 0.
unfoldable pub same_string : List ℕ → List ℕ → Bool
same_string [] [] = true
same_string [] (d ∷ t) = false
same_string (c ∷ s) [] = false
same_string (c ∷ s) (d ∷ t) = (c == d) && same_string s t

-- The loop of `xRibObjectAdd`: the status of `fnInit` and the table.
unfoldable pub add_object :
    ℕ → RibObject → List (Option RibObject) → Option (ℕ × List (Option RibObject))
add_object owner o [] = none
add_object owner o (none ∷ rows) = elim o.fn_init [
  | none ↦ some (success, some (record o { owner = owner }) ∷ rows)
  | some status ↦ some (
      if status == 0
      then (success, some (record o { owner = owner }) ∷ rows)
      else (fail, some o ∷ rows))
]
add_object owner o (some p ∷ rows) = elim (add_object owner o rows) [
  | none ↦ none
  | some rest ↦ some (rest.0, some p ∷ rest.1)
]

-- `xRibObjectAdd`
unfoldable pub object_add : RibState → ℕ → RibObject → ℕ × RibState
object_add r owner o = elim (add_object owner o r.objects) [
  | none ↦ (table_full, r)
  | some rows ↦ (rows.0, record r { objects = rows.1 })
]

-- The loop of `pxRibObjectFind`.
unfoldable pub find_object : List ℕ → List (Option RibObject) → Option RibObject
find_object name [] = none
find_object name (none ∷ rows) = find_object name rows
find_object name (some o ∷ rows) =
    let rest = find_object name rows in if same_string o.obj_name name then some o else rest

unfoldable pub any_object : List (Option RibObject) → Bool
any_object [] = false
any_object (none ∷ rows) = any_object rows
any_object (some o ∷ rows) = true

-- `pxRibObjectFind`; `none` when `strcmp` gets a null name.
unfoldable pub object_find : RibState → Option (List ℕ) → Option (Option RibObject)
object_find r (some name) = some (find_object name r.objects)
object_find r none = if any_object r.objects then none else some none

-- `xRibGetObjectMethod`; `none` where it aborts.
unfoldable pub get_object_method : RibObject → OpCode → Option (Option ReqMethod)
get_object_method o m_create = some o.fn_create
get_object_method o m_delete = some o.fn_delete
get_object_method o m_read = some o.fn_read
get_object_method o m_write = some o.fn_write
get_object_method o m_start = some o.fn_start
get_object_method o m_stop = some o.fn_stop
get_object_method o _ = none

-- `xRibGetObjectReplyMethod`; `none` where it aborts.
unfoldable pub get_object_reply_method : RibObject → OpCode → Option (Option ResMethod)
get_object_reply_method o m_create_r = some o.fn_create_reply
get_object_reply_method o m_delete_r = some o.fn_delete_reply
get_object_reply_method o m_read_r = some o.fn_read_reply
get_object_reply_method o m_write_r = some o.fn_write_reply
get_object_reply_method o m_start_r = some o.fn_start_reply
get_object_reply_method o m_stop_r = some o.fn_stop_reply
get_object_reply_method o _ = none
