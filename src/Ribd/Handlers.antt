-- ===== src/Ribd/Handlers.antt =====
-- components/Ribd/Ribd.c: the handlers of incoming CDAP messages.
pub mod Quiet
pub mod Keeps
pub mod Invariant
pub mod Connect
pub mod Full
pub mod Release
pub mod Answer
pub mod Reply
use rinasense.Base.{
  ℕ, zero, suc, ◌+◌, ◌-◌, ◌^◌, Bool, true, false, not, Option, none, some, List, [], ◌∷◌,
  if◌then◌else◌, ◌==◌, ltb, get_elem?, set,
}
use rinasense.Common.RinaName.{Name}
use rinasense.Ribd.{
  OpCode, m_connect, m_connect_r, m_release, m_release_r, m_create, m_create_r, m_delete,
  m_delete_r, m_read, m_read_r, m_cancelread, m_cancelread_r, m_write, m_write_r, m_start,
  m_start_r, m_stop, m_stop_r, op_codes, max_cdap_opcode, Message, Connection, ConnectionStatus,
  connection_released, connection_in_progress, connection_ok, PendingReq, RibObject, RibState,
  Outcome, returned, blocked, crashed, Output, Memory, rib_lock, rib_unlock, rib_output, success,
  fail, not_pending, no_such_connection, object_unsupported, object_unsup_method,
  bad_connection_state, connection_exists,
}
use rinasense.Ribd.Connections.{connection_add, connection_find, connection_release, is_released}
use rinasense.Ribd.Pending.{find_pending_response}
use rinasense.Ribd.Objects.{object_find, get_object_method, get_object_reply_method}
use rinasense.Ribd.Messages.{create_response}
use rinasense.Ribd.Requests.{object_reply}

-- `xRibConnectObject`
abbrev pub connect_object : RibObject
connect_object = record {
  owner = 0;
  obj_name = [];
  obj_class = [];
  obj_inst = 0;
  fn_start = none;
  fn_stop = none;
  fn_create = none;
  fn_delete = none;
  fn_read = none;
  fn_write = none;
  fn_start_reply = none;
  fn_stop_reply = none;
  fn_create_reply = none;
  fn_delete_reply = none;
  fn_read_reply = none;
  fn_write_reply = none;
  fn_init = none;
}

-- The response that `prvRibHandleConnect` sends once the connection is registered.
unfoldable pub connect_response : Memory → Output → RibState → ℕ → Message → Outcome
connect_response mem output r port msg = elim (rib_lock r) [
  | none ↦ blocked
  | some r1 ↦
      elim (create_response mem (some []) (some []) (2 ^ 64 - 1) 1 none 0 none msg.invoke_id) [
        | none ↦ crashed
        | some response ↦
            returned (rib_output output r1 response port).0
              (rib_unlock (rib_output output r1 response port).1)
      ]
]

-- `prvRibHandleConnect`
unfoldable pub handle_connect : Memory → Output → RibState → ℕ → Option ℕ → Message → Outcome
handle_connect mem output r port (some i) msg = returned connection_exists r
handle_connect mem output r port none msg =
    elim (connection_add mem r msg.source_info msg.destination_info port) [
      | returned status r1 ↦
          if status == 0 then connect_response mem output r1 port msg else returned fail r1
      | blocked ↦ blocked
      | crashed ↦ crashed
    ]

abbrev pub set_status : RibState → ℕ → Connection → ConnectionStatus → RibState
set_status r i c status = record r {
  connections = set r.connections i (record c { status = status });
}

-- `prvRibHandleConnectReply` on the entry found.
unfoldable pub connect_reply : RibState → ℕ → Connection → Outcome
connect_reply r i c = elim c.status [
  | connection_released ↦ returned bad_connection_state r
  | connection_in_progress ↦ returned success (set_status r i c connection_ok)
  | connection_ok ↦ returned bad_connection_state r
]

-- `prvRibHandleRelease` on the entry found.
unfoldable pub handle_release : Memory → Output → RibState → ℕ → Message → ℕ → Connection → Outcome
handle_release mem output r port msg i c =
    if is_released c.status
    then returned bad_connection_state r
    else if not (msg.invoke_id == 0)
    then object_reply mem output r connect_object 3 port msg.invoke_id 0 none none
    else returned success (connection_release r i)

-- `prvRibHandleReleaseReply` on the entry found.
unfoldable pub release_reply : RibState → ℕ → Connection → Outcome
release_reply r i c =
    if not (is_released c.status)
    then returned bad_connection_state r
    else returned success (set_status r i c connection_released)

-- The entry that `pxRibConnectionFind` gives to the handlers.
abbrev entry : RibState → Option ℕ → Option (ℕ × Connection)
entry r none = none
entry r (some i) = elim (get_elem? r.connections i) [ none ↦ none | some c ↦ some (i, c) ]

unfoldable pub with_connection : RibState → Option ℕ → (ℕ → Connection → Outcome) → Outcome
with_connection r found handler = elim (entry r found) [
  | none ↦ returned no_such_connection r
  | some ic ↦ handler ic.0 ic.1
]

-- What `prvRibHandleAnyReply` does with the response that the method gave.
unfoldable pub deliver_reply : RibState → ℕ → PendingReq → ℕ × ℕ → Outcome
deliver_reply r i pending result =
    if not (result.0 == 0) then returned fail r else elim pending.callback [
      | none ↦
          returned success
            (record r { pending_reqs = set r.pending_reqs i (record pending { resp = result.1 }) })
      | some callback ↦ returned (callback result.1) r
    ]

abbrev entry_connection : RibState → Option ℕ → Option Connection
entry_connection r none = none
entry_connection r (some i) = get_elem? r.connections i

-- `prvRibHandleAnyReply` from the object of the request on.
unfoldable pub object_handles_reply :
    RibState → OpCode → Option ℕ → Message → ℕ → PendingReq → Outcome
object_handles_reply r op found msg i pending = elim (object_find r pending.obj_name) [
  | none ↦ crashed
  | some none ↦ returned object_unsupported r
  | some (some o) ↦ elim (get_object_reply_method o op) [
    | none ↦ crashed
    | some none ↦ returned object_unsup_method r
    | some (some method) ↦ deliver_reply r i pending (method (entry_connection r found) msg)
  ]
]

-- `prvRibHandleAnyReply`
unfoldable pub handle_any_reply : RibState → OpCode → Option ℕ → Message → Outcome
handle_any_reply r op found msg = elim (find_pending_response r msg.invoke_id) [
  | none ↦ blocked
  | some (none, r1) ↦ returned not_pending r1
  | some (some i, r1) ↦ elim (get_elem? r1.pending_reqs i) [
    | none ↦ crashed
    | some pending ↦ object_handles_reply r1 op found msg i pending
  ]
]

-- `prvRibHandleAnyRequest`
unfoldable pub handle_any_request : RibState → OpCode → Option ℕ → Message → Outcome
handle_any_request r op found msg = elim (object_find r msg.obj_name) [
  | none ↦ crashed
  | some none ↦ returned object_unsupported r
  | some (some o) ↦ elim (get_object_method o op) [
    | none ↦ crashed
    | some none ↦ returned object_unsup_method r
    | some (some method) ↦ returned (method (entry_connection r found) msg) r
  ]
]

-- The switch of `xRibNormalIncoming`. The default leaves the status unset, and nothing but the
-- log depends on it.
unfoldable pub dispatch : Memory → Output → RibState → ℕ → Option ℕ → Message → OpCode → Outcome
dispatch mem output r port found msg m_connect = handle_connect mem output r port found msg
dispatch mem output r port found msg m_connect_r = with_connection r found (connect_reply r)
dispatch mem output r port found msg m_release =
    with_connection r found (handle_release mem output r port msg)
dispatch mem output r port found msg m_release_r = with_connection r found (release_reply r)
dispatch mem output r port found msg m_create = handle_any_request r m_create found msg
dispatch mem output r port found msg m_delete = handle_any_request r m_delete found msg
dispatch mem output r port found msg m_read = handle_any_request r m_read found msg
dispatch mem output r port found msg m_write = handle_any_request r m_write found msg
dispatch mem output r port found msg m_start = handle_any_request r m_start found msg
dispatch mem output r port found msg m_stop = handle_any_request r m_stop found msg
dispatch mem output r port found msg m_create_r = handle_any_reply r m_create_r found msg
dispatch mem output r port found msg m_delete_r = handle_any_reply r m_delete_r found msg
dispatch mem output r port found msg m_read_r = handle_any_reply r m_read_r found msg
dispatch mem output r port found msg m_write_r = handle_any_reply r m_write_r found msg
dispatch mem output r port found msg m_start_r = handle_any_reply r m_start_r found msg
dispatch mem output r port found msg m_stop_r = handle_any_reply r m_stop_r found msg
dispatch mem output r port found msg m_cancelread = returned success r
dispatch mem output r port found msg m_cancelread_r = returned success r

-- The end of `xRibNormalIncoming`: no status goes any further.
unfoldable pub stop_error : Outcome → Outcome
stop_error (returned status r) = returned success r
stop_error blocked = blocked
stop_error crashed = crashed

-- `xRibNormalIncoming`. For an operation code that is too large it reads past the table of names.
unfoldable pub normal_incoming : Memory → Output → RibState → Message → ℕ → Outcome
normal_incoming mem output r msg port =
    if ltb max_cdap_opcode msg.op_code then crashed else elim (get_elem? op_codes msg.op_code) [
      | none ↦ crashed
      | some op ↦ stop_error (dispatch mem output r port (connection_find r port) msg op)
    ]
