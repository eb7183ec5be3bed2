-- ===== src/Ribd/Pending.antt =====
-- components/Ribd/Ribd.c: the table of requests that wait for a response.
pub mod Rows
use rinasense.Base.{
  ℕ, zero, suc, Bool, true, false, Option, none, some, List, [], ◌∷◌, if◌then◌else◌, ◌==◌, set,
}
use rinasense.Ribd.{PendingReq, RibState, rib_lock, rib_unlock, success, fail, table_full}

-- The loop of `xRibAddPendingResponse`.
unfoldable pub add_pending : PendingReq → List PendingReq → Option (List PendingReq)
add_pending p [] = none
add_pending p (q ∷ rows) =
    if q.invoke_id == 0
    then some (p ∷ rows)
    else elim (add_pending p rows) [ none ↦ none | some rest ↦ some (q ∷ rest) ]

-- `xRibAddPendingResponse`; the flag says whether the mutex and the condition are made.
unfoldable pub add_pending_response :
    (threads : Bool) → RibState → Option (List ℕ) → ℕ → ℕ → Option (ℕ → ℕ) → ℕ × RibState
add_pending_response threads r obj_name invoke_id op_code callback =
    elim (add_pending
      (record {
        invoke_id = invoke_id;
        req_op_code = op_code;
        callback = callback;
        resp = 0;
        locked = false;
        obj_name = obj_name;
      })
      r.pending_reqs) [
        | none ↦ (table_full, r)
        | some rows ↦ (if threads then success else fail, record r { pending_reqs = rows })
      ]

-- The loop of `xRibFindPendingResponse`: the index of the row.
unfoldable pub find_pending : ℕ → List PendingReq → Option ℕ
find_pending invoke_id [] = none
find_pending invoke_id (q ∷ rows) =
    if q.invoke_id == invoke_id
    then some 0
    else elim (find_pending invoke_id rows) [ none ↦ none | some i ↦ some (suc i) ]

-- `xRibFindPendingResponse`; `none` when the mutex is held.
unfoldable pub find_pending_response : RibState → ℕ → Option (Option ℕ × RibState)
find_pending_response r invoke_id = elim (rib_lock r) [
  | none ↦ none
  | some r1 ↦ some (find_pending invoke_id r1.pending_reqs, rib_unlock r1)
]

abbrev pub zero_pending : PendingReq
zero_pending = record {
  invoke_id = 0;
  req_op_code = 0;
  callback = none;
  resp = 0;
  locked = false;
  obj_name = none;
}

-- `xRibFreePendingResponse`
abbrev pub free_pending_response : RibState → ℕ → RibState
free_pending_response r i = record r { pending_reqs = set r.pending_reqs i zero_pending }
