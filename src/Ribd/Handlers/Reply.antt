-- ===== src/Ribd/Handlers/Reply.antt =====
-- Ribd.c and Ribd_requests.c: a query that waits, and the reply to it.
use rinasense.Base.{
  ℕ, ◌≡◌, ◌≢◌, refl, ap, ◌∙◌, sym, subst, true, false, Option, none, some, List, ◌∷◌, get_elem?,
  ltb, set,
}
use rinasense.Ribd.{
  OpCode, m_create_r, m_delete_r, m_read_r, m_write_r, m_start_r, m_stop_r, op_codes,
  max_cdap_opcode, Message, Connection, RibObject, RibState, PendingReq, ResMethod, returned,
  crashed, Output, success, Memory,
}
use rinasense.Ribd.Connections.{connection_find}
use rinasense.Ribd.Pending.{add_pending_response, find_pending, find_pending_response, add_pending}
use rinasense.Ribd.Pending.Rows.{any_free, add_pending-Waiting}
use rinasense.Ribd.Objects.{object_find, find_object, get_object_reply_method, any_object}
use rinasense.Ribd.Messages.{create_request, msg_create, get_next_invoke_id}
use rinasense.Ribd.Requests.{object_query, query_sync}
use rinasense.Ribd.Wait.{object_wait_reply, waited, wait_steps, wait_row-success}
use rinasense.Ribd.Handlers.{
  dispatch, stop_error, normal_incoming, handle_any_reply, object_handles_reply, deliver_reply,
}
use rinasense.Ribd.Handlers.Connect.{all_memory, idle, normal_incoming-dispatch, management}

-- The operation codes of the replies of objects, with their numbers.
pub data ReplyCode : ℕ → OpCode → Type 0 where
  create_reply : ReplyCode 5 m_create_r
  delete_reply : ReplyCode 7 m_delete_r
  read_reply : ReplyCode 9 m_read_r
  write_reply : ReplyCode 13 m_write_r
  start_reply : ReplyCode 15 m_start_r
  stop_reply : ReplyCode 17 m_stop_r

dispatch_reply :
    (mem : Memory) (output : Output) (r : RibState) (port : ℕ) (found : Option ℕ) (msg : Message)
    (n : ℕ) (op : OpCode)
    → ReplyCode n op
    → dispatch mem output r port found msg op ≡ handle_any_reply r op found msg
unfolding dispatch
dispatch_reply mem output r port found msg n op create_reply = refl
dispatch_reply mem output r port found msg n op delete_reply = refl
dispatch_reply mem output r port found msg n op read_reply = refl
dispatch_reply mem output r port found msg n op write_reply = refl
dispatch_reply mem output r port found msg n op start_reply = refl
dispatch_reply mem output r port found msg n op stop_reply = refl

reply_code :
    (n c : ℕ) (op : OpCode)
    → ReplyCode n op
    → c ≡ n
    → (ltb max_cdap_opcode c ≡ false) × (get_elem? op_codes c ≡ some op)
reply_code n c op create_reply e = rw (e) (refl, refl)
reply_code n c op delete_reply e = rw (e) (refl, refl)
reply_code n c op read_reply e = rw (e) (refl, refl)
reply_code n c op write_reply e = rw (e) (refl, refl)
reply_code n c op start_reply e = rw (e) (refl, refl)
reply_code n c op stop_reply e = rw (e) (refl, refl)

pub incoming_reply :
    (mem : Memory) (output : Output) (r : RibState) (msg : Message) (port n : ℕ) (op : OpCode)
    → ReplyCode n op
    → msg.op_code ≡ n
    → normal_incoming mem output r msg port
      ≡ stop_error (handle_any_reply r op (connection_find r port) msg)
incoming_reply mem output r msg port n op code e =
    normal_incoming-dispatch mem output r msg port op (reply_code n msg.op_code op code e).0
      (reply_code n msg.op_code op code e).1
    ∙ ap stop_error (dispatch_reply mem output r port (connection_find r port) msg n op code)

-- The row and the message of a query.
abbrev pub awaiting : RibState → RibObject → ℕ → PendingReq
awaiting r o op = record {
  invoke_id = (get_next_invoke_id r.next_invoke).0;
  req_op_code = op;
  callback = none;
  resp = 0;
  locked = false;
  obj_name = some o.obj_name;
}

abbrev pub question : RibState → RibObject → ℕ → Option (List ℕ) → Message
question r o op value = record {
  op_code = op;
  destination_info = management;
  source_info = management;
  version = 1;
  invoke_id = (get_next_invoke_id r.next_invoke).0;
  obj_class = some o.obj_class;
  obj_name = some o.obj_name;
  obj_inst = o.obj_inst;
  obj_value = value;
  result = 0;
  result_reason = none;
}

abbrev asked : RibState → Message → ℕ → List PendingReq → RibState
asked r msg port rows = record (idle r) {
  pending_reqs = rows;
  sent = (msg, port) ∷ r.sent;
  next_invoke = (get_next_invoke_id r.next_invoke).1;
}

query_steps :
    (output : Output) (r : RibState) (o : RibObject) (op port : ℕ) (value : Option (List ℕ))
    (rows : List PendingReq)
    → add_pending (awaiting r o op) r.pending_reqs ≡ some rows
    → object_query true all_memory output (idle r) o op port value query_sync
      ≡ returned (output (question r o op value) port) (asked r (question r o op value) port rows)
unfolding object_query create_request msg_create add_pending_response
query_steps output r o op port value rows h = rw (add_pending_response, h)

deliver_steps :
    (r s : RibState) (op : OpCode) (found : Option ℕ) (msg : Message) (i op0 : ℕ) (o : RibObject)
    (method : ResMethod) (resp : ℕ)
    → find_object o.obj_name r.objects ≡ some o
    → get_object_reply_method o op ≡ some (some method)
    → ((c : Option Connection) → method c msg ≡ (0, resp))
    → object_handles_reply r op found msg i (awaiting s o op0)
      ≡ returned success (record r {
        pending_reqs = set r.pending_reqs i (record (awaiting s o op0) { resp = resp });
      })
unfolding object_handles_reply object_find deliver_reply
deliver_steps r s op found msg i op0 o method resp h m k =
    rw (object_handles_reply, h, m, deliver_reply, k _)

handle_steps :
    (r s : RibState) (op : OpCode) (found : Option ℕ) (msg : Message) (i op0 : ℕ) (o : RibObject)
    (method : ResMethod) (resp : ℕ)
    → find_pending msg.invoke_id r.pending_reqs ≡ some i
    → get_elem? r.pending_reqs i ≡ some (awaiting s o op0)
    → find_object o.obj_name r.objects ≡ some o
    → get_object_reply_method o op ≡ some (some method)
    → ((c : Option Connection) → method c msg ≡ (0, resp))
    → handle_any_reply (idle r) op found msg
      ≡ returned success (record (idle r) {
        pending_reqs = set r.pending_reqs i (record (awaiting s o op0) { resp = resp });
      })
unfolding handle_any_reply find_pending_response
handle_steps r s op found msg i op0 o method resp f g h m k =
    rw (handle_any_reply, f, g) (deliver_steps (idle r) s op found msg i op0 o method resp h m k)

-- A synchronous query of an object in the RIB, on a RIB that locks, is idle and has a free row
-- and no row under the next invoke identifier, is sent. When the reply with that identifier comes
-- in, on any port, and the object's method for it succeeds with a response, a wait for the reply
-- returns that response.
pub query-reply_delivered :
    (output : Output) (r : RibState) (o : RibObject) (op port : ℕ) (value : Option (List ℕ))
    (reply : Message) (q n : ℕ) (code : OpCode) (method : ResMethod) (resp : ℕ)
    (wake : Option RibState)
    → any_free r.pending_reqs ≡ true
    → find_pending (get_next_invoke_id r.next_invoke).0 r.pending_reqs ≡ none
    → find_object o.obj_name r.objects ≡ some o
    → ReplyCode n code
    → get_object_reply_method o code ≡ some (some method)
    → reply.op_code ≡ n
    → reply.invoke_id ≡ (get_next_invoke_id r.next_invoke).0
    → ((c : Option Connection) → method c reply ≡ (0, resp))
    → resp ≢ 0
    → (r1 : RibState) × ((object_query true all_memory output (idle r) o op port value query_sync
          ≡ returned (output (question r o op value) port) r1)
        × ((r2 : RibState) × ((normal_incoming all_memory output r1 reply q ≡ returned success r2)
              × (object_wait_reply none wake r2 reply.invoke_id ≡ waited success (some resp) r2))))
unfolding stop_error
query-reply_delivered output r o op port value reply q n code method resp wake a b h rc m e id k z =
    let w = add_pending-Waiting (awaiting r o op) r.pending_reqs b a in
    let r1 : RibState = asked r (question r o op value) port w.added in
    let d : PendingReq = record (awaiting r o op) { resp = resp } in
    let r2 : RibState = record r1 { pending_reqs = set w.added w.i d } in
    let found = subst (λ j. find_pending j w.added ≡ some w.i) (sym id) w.finds in
    (
      r1,
      (
        query_steps output r o op port value w.added w.adds,
        (
          r2,
          (
            incoming_reply all_memory output r1 reply q n code rc e
                ∙ ap stop_error (
                    handle_steps r1 r code (connection_find r1 q) reply w.i op o method resp found
                      w.at h m k),
            wait_steps wake r2 reply.invoke_id w.i d
                  (subst (λ j. find_pending j (set w.added w.i d) ≡ some w.i) (sym id)
                    (w.later d refl).1)
                  (w.later d refl).0
                ∙ wait_row-success wake r2 w.i d z,
          ),
        ),
      ),
    )

-- A reply with the invoke identifier 0 is taken for the first free row, which names no object, so
-- on a RIB that locks, is idle and holds an object `strcmp` is given a null pointer.
pub reply-zero_crashes :
    (mem : Memory) (output : Output) (r : RibState) (reply : Message) (port n : ℕ) (code : OpCode)
    (i : ℕ) (p : PendingReq)
    → ReplyCode n code
    → reply.op_code ≡ n
    → reply.invoke_id ≡ 0
    → find_pending 0 r.pending_reqs ≡ some i
    → get_elem? r.pending_reqs i ≡ some p
    → p.obj_name ≡ none
    → any_object r.objects ≡ true
    → normal_incoming mem output (idle r) reply port ≡ crashed
unfolding handle_any_reply find_pending_response object_handles_reply object_find stop_error
reply-zero_crashes mem output r reply port n code i p rc e z f g nm ob =
    incoming_reply mem output (idle r) reply port n code rc e
    ∙ rw (handle_any_reply, z, f, g, object_handles_reply, nm, object_find, ob)
