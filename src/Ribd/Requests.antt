-- ===== src/Ribd/Requests.antt =====
-- components/Ribd/Ribd_requests.c: requests, replies and errors that a RIB object sends.
use rinasense.Base.{ℕ, Bool, Option, none, some, List, if◌then◌else◌, ◌==◌}
use rinasense.Ribd.{
  RibObject, RibState, Outcome, returned, blocked, crashed, Output, Memory, rib_lock, rib_unlock,
  rib_output,
}
use rinasense.Ribd.Messages.{create_request, create_response}
use rinasense.Ribd.Pending.{add_pending_response}

-- `xRibObjectReply`; without memory for the message `fnRibOutput` gets a null pointer.
unfoldable pub object_reply :
    Memory
    → Output
    → RibState
    → RibObject
    → ℕ
    → ℕ
    → ℕ
    → ℕ
    → Option (List ℕ)
    → Option (List ℕ)
    → Outcome
object_reply mem output r o op_code port invoke_id result_code reason obj_value =
    elim (rib_lock r) [
      | none ↦ blocked
      | some r1 ↦
          elim (create_response mem (some o.obj_class) (some o.obj_name) o.obj_inst op_code
            obj_value result_code reason invoke_id) [
              | none ↦ crashed
              | some msg ↦
                  returned (rib_output output r1 msg port).0
                    (rib_unlock (rib_output output r1 msg port).1)
            ]
    ]

-- `xRibObjectErr`
abbrev pub object_err :
    Memory → Output → RibState → RibObject → ℕ → ℕ → ℕ → ℕ → Option (List ℕ) → Outcome
object_err mem output r o op_code port invoke_id result_code reason =
    object_reply mem output r o op_code port invoke_id result_code reason none

-- `ribQueryTypeInfo_t`
pub data QueryType : Type 0 where
  query_async : Option (ℕ → ℕ) → QueryType
  query_sync query_cmd : QueryType

abbrev awaited : QueryType → Option (Option (ℕ → ℕ))
awaited (query_async callback) = some callback
awaited query_sync = some none
awaited query_cmd = none

-- `xRibObjectQuery`. A synchronous query also gives its caller the invoke identifier of the
-- message, which is the one of the row it adds to the table.
unfoldable pub object_query :
    (threads : Bool)
    → Memory
    → Output
    → RibState
    → RibObject
    → ℕ
    → ℕ
    → Option (List ℕ)
    → QueryType
    → Outcome
object_query threads mem output r o op_code port obj_value query = elim (rib_lock r) [
  | none ↦ blocked
  | some r1 ↦
      elim (create_request mem r1 (some o.obj_class) (some o.obj_name) o.obj_inst op_code
        obj_value) [
          | none ↦ crashed
          | some made ↦ elim (awaited query) [
            | none ↦
                let sent = rib_output output made.1 (record made.0 { invoke_id = 0 }) port in
                returned sent.0 (rib_unlock sent.1)
            | some callback ↦
                let added =
                  add_pending_response threads made.1 (some o.obj_name) made.0.invoke_id op_code
                    callback in
                let sent = rib_output output added.1 made.0 port in
                if added.0 == 0
                then returned sent.0 (rib_unlock sent.1)
                else returned added.0 (rib_unlock added.1)
          ]
        ]
]
