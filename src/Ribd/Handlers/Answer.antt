-- ===== src/Ribd/Handlers/Answer.antt =====
-- Ribd.c and Ribd_requests.c: the messages that a release and an error send back.
use rinasense.Base.{ℕ, ◌≡◌, ◌≢◌, refl, ◌∙◌, false, Option, none, some, List, ◌∷◌, ◌==◌, arith}
use rinasense.Ribd.{m_release, Message, RibObject, RibState, returned, Output, success}
use rinasense.Ribd.Connections.{connection_find, find_connection, is_released}
use rinasense.Ribd.Connections.Table.{find_connection-Found}
use rinasense.Ribd.Messages.{create_response, msg_create}
use rinasense.Ribd.Requests.{object_reply, object_err}
use rinasense.Ribd.Handlers.{
  dispatch, stop_error, normal_incoming, handle_release, with_connection, connect_object,
}
use rinasense.Ribd.Handlers.Connect.{
  all_memory, idle, normal_incoming-dispatch, code_in_range, op_of_code, Answers, management,
}
use rinasense.Ribd.Handlers.Release.{get_elem?-Found}

abbrev answer : RibObject → ℕ → ℕ → Option (List ℕ) → Message
answer o op id reason = record {
  op_code = op;
  destination_info = management;
  source_info = management;
  version = 1;
  invoke_id = id;
  obj_class = some o.obj_class;
  obj_name = some o.obj_name;
  obj_inst = o.obj_inst;
  obj_value = none;
  result = 0;
  result_reason = reason;
}

-- `xRibObjectErr` on a RIB that locks and is idle sends its reason and its invoke identifier, but
-- with the result 0 of success, whatever the result code it was given.
pub object_err-result_lost :
    (output : Output) (r : RibState) (o : RibObject) (op port id code : ℕ)
    (reason : Option (List ℕ))
    → (sent : Message) × ((object_err all_memory output (idle r) o op port id code reason
          ≡ returned (output sent port) (record (idle r) { sent = (sent, port) ∷ r.sent }))
        × ((sent.result ≡ 0) × ((sent.result_reason ≡ reason) × (sent.invoke_id ≡ id))))
unfolding object_reply create_response msg_create
object_err-result_lost output r o op port id code reason =
    (answer o op id reason, (refl, (refl, (refl, refl))))

answer_steps :
    (output : Output) (r : RibState) (msg : Message) (port i : ℕ)
    → find_connection port r.connections ≡ some i
    → (msg.invoke_id == 0) ≡ false
    → (response : Message) × ((stop_error
            (dispatch all_memory output (idle r) port (connection_find r port) msg m_release)
          ≡ returned success (record (idle r) { sent = (response, port) ∷ r.sent }))
        × Answers msg response 3)
unfolding dispatch with_connection handle_release stop_error object_reply create_response msg_create
answer_steps output r msg port i e z =
    let f = find_connection-Found port i r.connections e in
    let active : is_released f.c.status ≡ false = ground (arith, f.serving) in
    (
      answer connect_object 3 msg.invoke_id none,
      (
        rw (e, with_connection, get_elem?-Found port i r.connections f, handle_release, active, z)
            refl,
        record { code = refl; invoke = refl; positive = refl },
      ),
    )

-- M_RELEASE with an invoke identifier, on a RIB that locks and is idle, is answered by an
-- M_RELEASE_R, and the connection of its port is not released.
pub release-Answers :
    (output : Output) (r : RibState) (msg : Message) (port i : ℕ)
    → msg.op_code ≡ 2
    → msg.invoke_id ≢ 0
    → connection_find r port ≡ some i
    → (r1 : RibState) × ((normal_incoming all_memory output (idle r) msg port ≡ returned success r1)
        × ((r1.connections ≡ r.connections)
            × ((response : Message) × ((r1.sent ≡ (response, port) ∷ r.sent)
                  × Answers msg response 3))))
release-Answers output r msg port i o z e =
    let (response, (same, ok)) = answer_steps output r msg port i e (ground (arith, z)) in
    (
      record (idle r) { sent = (response, port) ∷ r.sent },
      (
        normal_incoming-dispatch all_memory output (idle r) msg port m_release
              (code_in_range 2 msg.op_code o refl) (op_of_code 2 msg.op_code m_release o refl)
            ∙ same,
        (refl, (response, (refl, ok))),
      ),
    )
