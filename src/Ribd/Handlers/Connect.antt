-- ===== src/Ribd/Handlers/Connect.antt =====
-- Ribd.c: a connection request, with a free entry and without one.
use rinasense.Base.{
  ℕ, ◌-◌, ◌^◌, ◌≡◌, refl, ap, ◌∙◌, sym, subst, Bool, true, false, none, some, List, [], ◌∷◌, ◌++◌,
  if◌then◌else◌, get_elem?, ltb, arith, Bool-cases, inl, inr, eq_refl,
}
use rinasense.Common.RinaName.{Name, assign_dup}
use rinasense.Ribd.{
  OpCode, m_connect, op_codes, max_cdap_opcode, Message, Connection, connection_in_progress,
  RibState, returned, Output, Memory, success,
}
use rinasense.Ribd.Connections.{
  connection_add, add_connection, fill_connection, connection_find, find_connection, is_released,
}
use rinasense.Ribd.Connections.Table.{
  lookup_connection, serves, find_connection-lookup_connection, lookup_connection-skip,
  lookup_connection-first, lookup_connection-left,
}
use rinasense.Ribd.Connections.Update.{add_connection-Added}
use rinasense.Ribd.Messages.{create_response, msg_create, management_ae}
use rinasense.Ribd.Handlers.{
  handle_connect, connect_response, dispatch, stop_error, normal_incoming,
}

abbrev pub all_memory : Memory
all_memory = record {
  source_name = true;
  destination_name = true;
  message = true;
  message_source = true;
  message_destination = true;
}

-- An operation code in range is dispatched.
pub normal_incoming-dispatch :
    (mem : Memory) (output : Output) (r : RibState) (msg : Message) (port : ℕ) (op : OpCode)
    → ltb max_cdap_opcode msg.op_code ≡ false
    → get_elem? op_codes msg.op_code ≡ some op
    → normal_incoming mem output r msg port
      ≡ stop_error (dispatch mem output r port (connection_find r port) msg op)
unfolding normal_incoming
normal_incoming-dispatch mem output r msg port op l g = rw (normal_incoming, l, g)

pub code_in_range :
    (n c : ℕ) → c ≡ n → ltb max_cdap_opcode n ≡ false → ltb max_cdap_opcode c ≡ false
code_in_range n c e h = rw (e) h

pub op_of_code :
    (n c : ℕ) (op : OpCode)
    → c ≡ n
    → get_elem? op_codes n ≡ some op
    → get_elem? op_codes c ≡ some op
op_of_code n c op e h = rw (e) h

-- A RIB that locks and whose mutex is free.
abbrev pub idle : RibState → RibState
idle r = record r { do_lock = true; locked = false }

abbrev pub any_released : List Connection → Bool
any_released [] = false
any_released (c ∷ rows) = if is_released c.status then true else any_released rows

add_connection-released :
    (src dst : Name) (port : ℕ) (rows : List Connection)
    → any_released rows ≡ true
    → (rows' : List Connection) × (add_connection all_memory src dst port rows ≡ some (true, rows'))
unfolding add_connection fill_connection assign_dup
add_connection-released src dst port [] h = absurd (cc h)
add_connection-released src dst port (c ∷ rows) h = elim (Bool-cases (is_released c.status)) [
  | inl e ↦ ((fill_connection all_memory src dst port c).1 ∷ rows, rw (add_connection, e) refl)
  | inr e ↦
      let rest = add_connection-released src dst port rows (ground (arith, e, h)) in
      (c ∷ rest.0, rw (add_connection, e, rest.1) refl)
]

-- A name as `xNameAssignDup` copies it: the process instance stands where the entity instance
-- belongs.
abbrev pub copied : Name → Name
copied nm = record {
  post_ln = 0;
  process_name = nm.process_name;
  process_instance = nm.process_instance;
  entity_name = nm.entity_name;
  entity_instance = nm.process_instance;
  block = [];
  owned = true;
}

abbrev pub opened_by : Message → ℕ → Connection
opened_by msg port = record {
  source_info = copied msg.source_info;
  destination_info = copied msg.destination_info;
  cdap_version = 1;
  rib_version = 1;
  status = connection_in_progress;
  port = port;
}

add_connection-opened :
    (msg : Message) (port : ℕ) (rows rows' : List Connection)
    → lookup_connection port rows ≡ none
    → add_connection all_memory msg.source_info msg.destination_info port rows ≡ some (true, rows')
    → lookup_connection port rows' ≡ some (opened_by msg port)
unfolding fill_connection assign_dup
add_connection-opened msg port rows rows' n h =
    let a =
      add_connection-Added all_memory msg.source_info msg.destination_info port rows rows' true h in
    let quiet : serves port a.c ≡ false = ground (arith, a.released) in
    let free : lookup_connection port (a.before ++ a.after) ≡ none =
      sym (lookup_connection-skip port a.c a.before a.after quiet)
      ∙ subst (λ r. lookup_connection port r ≡ none) a.split n in
    ap (lookup_connection port) a.filled
    ∙ lookup_connection-first port (opened_by msg port) a.before a.after
        (lookup_connection-left port a.before a.after free) (eq_refl port)

-- The answer to a connection request.
pub record Answers (request response : Message) (op : ℕ) : Type 0 where
  pub code : response.op_code ≡ op
  pub invoke : response.invoke_id ≡ request.invoke_id
  pub positive : response.result ≡ 0

abbrev pub management : Name
management = record {
  post_ln = 0;
  process_name = [];
  process_instance = management_ae;
  entity_name = [];
  entity_instance = [];
  block = [];
  owned = true;
}

abbrev response_to : Message → Message
response_to msg = record {
  op_code = 1;
  destination_info = management;
  source_info = management;
  version = 1;
  invoke_id = msg.invoke_id;
  obj_class = some [];
  obj_name = some [];
  obj_inst = 2 ^ 64 - 1;
  obj_value = none;
  result = 0;
  result_reason = none;
}

connect_steps :
    (output : Output) (r : RibState) (msg : Message) (port : ℕ) (rows : List Connection)
    → find_connection port r.connections ≡ none
    → add_connection all_memory msg.source_info msg.destination_info port r.connections
      ≡ some (true, rows)
    → stop_error (dispatch all_memory output (idle r) port (connection_find r port) msg m_connect)
      ≡ returned success
          (record (idle r) { connections = rows; sent = (response_to msg, port) ∷ r.sent })
unfolding dispatch handle_connect connection_add connect_response create_response msg_create
    stop_error
connect_steps output r msg port rows n a = rw (n, handle_connect, connection_add, a)

-- On a RIB that locks, is idle and has a released entry, M_CONNECT from a port without a
-- connection registers one in progress, sends an M_CONNECT_R with the same invoke identifier to the
-- port, and leaves the mutex free. The names of the connection are those of the message as
-- `xNameAssignDup` copies them: the process name, the process instance and the entity name, with
-- the process instance once more as the entity instance.
pub connect-registers :
    (output : Output) (r : RibState) (msg : Message) (port : ℕ)
    → msg.op_code ≡ 0
    → connection_find r port ≡ none
    → any_released r.connections ≡ true
    → (r1 : RibState) × ((normal_incoming all_memory output (idle r) msg port ≡ returned success r1)
        × ((lookup_connection port r1.connections ≡ some (opened_by msg port))
            × ((response : Message) × ((r1.sent ≡ (response, port) ∷ r.sent)
                  × (Answers msg response 1 × (r1.locked ≡ false))))))
connect-registers output r msg port o n a =
    let rows = add_connection-released msg.source_info msg.destination_info port r.connections a in
    let step =
      normal_incoming-dispatch all_memory output (idle r) msg port m_connect
        (code_in_range 0 msg.op_code o refl) (op_of_code 0 msg.op_code m_connect o refl) in
    (
      record (idle r) { connections = rows.0; sent = (response_to msg, port) ∷ r.sent },
      (
        step ∙ connect_steps output r msg port rows.0 n rows.1,
        (
          add_connection-opened msg port r.connections rows.0
              (find_connection-lookup_connection port r.connections n) rows.1,
          (response_to msg, (refl, (record { code = refl; invoke = refl; positive = refl }, refl))),
        ),
      ),
    )
