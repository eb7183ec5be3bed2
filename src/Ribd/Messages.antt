-- ===== src/Ribd/Messages.antt =====
-- components/Ribd/CdapMessage.c and get_next_invoke_id of components/IPCP/common.c: new CDAP
-- messages. The single block of memory that a message and its strings share is not modelled.
use rinasense.Base.{
  ℕ, ◌+◌, ◌-◌, ◌%◌, ◌^◌, Bool, not, Option, none, some, List, [], ◌∷◌, if◌then◌else◌, ◌==◌,
}
use rinasense.Common.RinaName.{Name, assign_from_parts_dup}
use rinasense.Ribd.{Message, RibState, Memory}

-- `CFG_MANAGEMENT_AE`
abbrev pub management_ae : List ℕ
management_ae = b'M' ∷ b'a' ∷ b'n' ∷ b'a' ∷ b'g' ∷ b'e' ∷ b'm' ∷ b'e' ∷ b'n' ∷ b't' ∷ []

abbrev management_name : Bool → Option Name
management_name memory =
    assign_from_parts_dup memory (some []) (some management_ae) (some []) (some [])

-- `pxRibCdapMsgCreate`; the operation code and the instance are -1.
unfoldable pub msg_create : Memory → Option Message
msg_create mem = if not mem.message then none else elim (management_name mem.message_destination) [
  | none ↦ none
  | some destination ↦ elim (management_name mem.message_source) [
    | none ↦ none
    | some source ↦ some (record {
      op_code = 2 ^ 32 - 1;
      destination_info = destination;
      source_info = source;
      version = 1;
      invoke_id = 1;
      obj_class = none;
      obj_name = none;
      obj_inst = 2 ^ 64 - 1;
      obj_value = none;
      result = 0;
      result_reason = none;
    })
  ]
]

-- `pxRibCdapMsgCreateResponse`
unfoldable pub create_response :
    Memory
    → Option (List ℕ)
    → Option (List ℕ)
    → ℕ
    → ℕ
    → Option (List ℕ)
    → (result_code : ℕ) → Option (List ℕ)
    → ℕ
    → Option Message
create_response mem obj_class obj_name obj_inst op_code obj_value result_code reason invoke_id =
    elim (msg_create mem) [
      | none ↦ none
      | some msg ↦ some (record msg {
        invoke_id = invoke_id;
        op_code = op_code;
        obj_inst = obj_inst;
        obj_value = obj_value;
        obj_name = obj_name;
        obj_class = obj_class;
        result_reason = reason;
      })
    ]

-- `get_next_invoke_id`: the number, and the counter after it.
unfoldable pub get_next_invoke_id : ℕ → ℕ × ℕ
get_next_invoke_id invoke_id =
    if invoke_id % (2 ^ 31 - 1) == 0 then (1, 1) else (invoke_id, invoke_id + 1)

-- `pxRibCdapMsgCreateRequest`
unfoldable pub create_request :
    Memory
    → RibState
    → Option (List ℕ)
    → Option (List ℕ)
    → ℕ
    → ℕ
    → Option (List ℕ)
    → Option (Message × RibState)
create_request mem r obj_class obj_name obj_inst op_code obj_value = elim (msg_create mem) [
  | none ↦ none
  | some msg ↦ some (
    record msg {
      invoke_id = (get_next_invoke_id r.next_invoke).0;
      op_code = op_code;
      obj_inst = obj_inst;
      obj_value = obj_value;
      obj_name = obj_name;
      obj_class = obj_class;
    },
    record r { next_invoke = (get_next_invoke_id r.next_invoke).1 },
  )
]
