-- ===== src/Ribd.antt =====
-- components/Ribd: the state of the RIB daemon, its messages, connections, pending requests and
-- objects (Ribd_defs.h, Ribd_msg.h, Ribd_connections.h, Ribd_requests.h, RibObject.h).
-- The methods of objects and the response callbacks belong to other components: a method is the
-- function from its arguments to what it returns.
pub mod Connections
pub mod Pending
pub mod Objects
pub mod Messages
pub mod Requests
pub mod Wait
pub mod Handlers
mod Tests
use rinasense.Base.{
  ℕ, zero, suc, ◌+◌, ◌*◌, ◌^◌, Bool, true, false, not, ◌&&◌, Option, none, some, List, [], ◌∷◌,
  if◌then◌else◌, ◌==◌,
}
use rinasense.Common.RinaName.{Name}

-- `rsErr_t`: 0 is success.
abbrev pub success : ℕ
success = 0

abbrev pub fail : ℕ
fail = 1

abbrev pub rib_error : ℕ → ℕ
rib_error code = 4 * 2 ^ 24 + code

abbrev pub table_full : ℕ
table_full = rib_error 1

abbrev pub not_pending : ℕ
not_pending = rib_error 2

abbrev pub too_many_connections : ℕ
too_many_connections = rib_error 4

abbrev pub no_such_connection : ℕ
no_such_connection = rib_error 5

abbrev pub object_unsupported : ℕ
object_unsupported = rib_error 6

abbrev pub object_unsup_method : ℕ
object_unsup_method = rib_error 7

abbrev pub bad_connection_state : ℕ
bad_connection_state = rib_error 8

abbrev pub rib_timeout : ℕ
rib_timeout = rib_error 16

abbrev pub connection_exists : ℕ
connection_exists = rib_error 9

-- `opCode_t`
pub data OpCode : Type 0 where
  m_connect m_connect_r m_release m_release_r m_create m_create_r m_delete m_delete_r m_read
        m_read_r m_cancelread m_cancelread_r m_write m_write_r m_start m_start_r m_stop m_stop_r :
      OpCode

abbrev pub op_codes : List OpCode
op_codes =
    m_connect ∷ m_connect_r ∷ m_release ∷ m_release_r ∷ m_create ∷ m_create_r ∷ m_delete
    ∷ m_delete_r ∷ m_read ∷ m_read_r ∷ m_cancelread ∷ m_cancelread_r ∷ m_write ∷ m_write_r ∷ m_start
    ∷ m_start_r ∷ m_stop ∷ m_stop_r ∷ []

-- `MAX_CDAP_OPCODE`
abbrev pub max_cdap_opcode : ℕ
max_cdap_opcode = 17

-- `messageCdap_t`, less the authentication policy, which nothing here reads. The numbers from
-- the wire are read as unsigned ones of their width.
pub record Message : Type 0 where
  pub op_code : ℕ
  pub destination_info : Name
  pub source_info : Name
  pub version : ℕ
  pub invoke_id : ℕ
  pub obj_class : Option (List ℕ)
  pub obj_name : Option (List ℕ)
  pub obj_inst : ℕ
  pub obj_value : Option (List ℕ)
  pub result : ℕ
  pub result_reason : Option (List ℕ)

-- `connectionStatus_t`
pub data ConnectionStatus : Type 0 where
  connection_released connection_in_progress connection_ok : ConnectionStatus

-- `appConnection_t`
pub record Connection : Type 0 where
  pub source_info : Name
  pub destination_info : Name
  pub cdap_version : ℕ
  pub rib_version : ℕ
  pub status : ConnectionStatus
  pub port : ℕ

-- `ribPendingReq_t`; response 0 is the null pointer, and `locked` the state of its mutex.
pub record PendingReq : Type 0 where
  pub invoke_id : ℕ
  pub req_op_code : ℕ
  pub callback : Option (ℕ → ℕ)
  pub resp : ℕ
  pub locked : Bool
  pub obj_name : Option (List ℕ)

-- `ribObjectReqMethod` and `ribObjectResMethod`, which also give the response.
abbrev pub ReqMethod : Type 0
ReqMethod = Option Connection → Message → ℕ

abbrev pub ResMethod : Type 0
ResMethod = Option Connection → Message → ℕ × ℕ

-- `ribObject_t`, less the private data and the two callbacks that nothing here calls.
pub record RibObject : Type 0 where
  pub owner : ℕ
  pub obj_name : List ℕ
  pub obj_class : List ℕ
  pub obj_inst : ℕ
  pub fn_start : Option ReqMethod
  pub fn_stop : Option ReqMethod
  pub fn_create : Option ReqMethod
  pub fn_delete : Option ReqMethod
  pub fn_read : Option ReqMethod
  pub fn_write : Option ReqMethod
  pub fn_start_reply : Option ResMethod
  pub fn_stop_reply : Option ResMethod
  pub fn_create_reply : Option ResMethod
  pub fn_delete_reply : Option ResMethod
  pub fn_read_reply : Option ResMethod
  pub fn_write_reply : Option ResMethod
  pub fn_init : Option ℕ

-- `Ribd_t`: its lock, its tables, and the messages given to `fnRibOutput` with their ports, the
-- latest first. `next_invoke` is the counter of `get_next_invoke_id`.
pub record RibState : Type 0 where
  pub do_lock : Bool
  pub locked : Bool
  pub connections : List Connection
  pub pending_reqs : List PendingReq
  pub objects : List (Option RibObject)
  pub sent : List (Message × ℕ)
  pub next_invoke : ℕ

-- How a call ends: it returns, it waits for ever for the mutex that its own thread holds, or it
-- accesses memory it must not.
pub data Outcome : Type 0 where
  returned : ℕ → RibState → Outcome
  blocked : Outcome
  crashed : Outcome

-- `vRibLock`, on a mutex that is not recursive.
abbrev pub rib_lock : RibState → Option RibState
rib_lock r =
    if r.do_lock then (if r.locked then none else some (record r { locked = true })) else some r

-- `vRibUnlock`
abbrev pub rib_unlock : RibState → RibState
rib_unlock r = if r.do_lock then record r { locked = false } else r

-- What `fnRibOutput` returns is a function of the message and the port.
abbrev pub Output : Type 0
Output = Message → ℕ → ℕ

abbrev pub rib_output : Output → RibState → Message → ℕ → ℕ × RibState
rib_output output r msg port = (output msg port, record r { sent = (msg, port) ∷ r.sent })

-- Which allocations succeed.
pub record Memory : Type 0 where
  pub source_name : Bool
  pub destination_name : Bool
  pub message : Bool
  pub message_source : Bool
  pub message_destination : Bool
