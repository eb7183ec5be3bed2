-- ===== src/Ribd/Tests.antt =====
-- components/Ribd at concrete inputs.
use rinasense.Base.{ℕ, ◌≡◌, refl, true, false, none, some, List, [], ◌∷◌, arith}
use rinasense.Common.RinaName.{Name}
use rinasense.Ribd.Wait.{object_wait_reply, waited, never, object_wait_reply-fails}
use rinasense.Ribd.{
  PendingReq, rib_timeout, Message, Connection, connection_in_progress, RibState, RibObject, Output,
  m_start_r, returned, blocked, crashed, success,
}
use rinasense.Ribd.Connections.{find_connection, zero_connection}
use rinasense.Ribd.Connections.Table.{lookup_connection, Distinct}
use rinasense.Ribd.Pending.{find_pending, zero_pending}
use rinasense.Ribd.Objects.{
  find_object, same_string, object_add, object_find, get_object_reply_method, any_object,
}
use rinasense.Ribd.Objects.Table.{object_add-object_find}
use rinasense.Ribd.Messages.{get_next_invoke_id}
use rinasense.Ribd.Requests.{object_query, query_sync, object_err}
use rinasense.Ribd.Handlers.{normal_incoming}
use rinasense.Ribd.Handlers.Connect.{all_memory, idle, connect-registers, opened_by, Answers}
use rinasense.Ribd.Handlers.Full.{connect-full_blocks}
use rinasense.Ribd.Handlers.Release.{release_reply-ignored, release-frees}
use rinasense.Ribd.Handlers.Answer.{object_err-result_lost, release-Answers}
use rinasense.Ribd.Handlers.Reply.{start_reply, query-reply_delivered, reply-zero_crashes}
use rinasense.Ribd.Handlers.Invariant.{normal_incoming-Advanced, Advanced}

abbrev peer : Name
peer = record {
  post_ln = 0;
  process_name = b'a' ∷ [];
  process_instance = b'1' ∷ [];
  entity_name = b'M' ∷ [];
  entity_instance = [];
  block = [];
  owned = true;
}

abbrev message : ℕ → ℕ → Message
message op id = record {
  op_code = op;
  destination_info = peer;
  source_info = peer;
  version = 1;
  invoke_id = id;
  obj_class = none;
  obj_name = none;
  obj_inst = 0;
  obj_value = none;
  result = 0;
  result_reason = none;
}

abbrev open_on : ℕ → Connection
open_on port = record {
  source_info = peer;
  destination_info = peer;
  cdap_version = 1;
  rib_version = 1;
  status = connection_in_progress;
  port = port;
}

-- An object whose start replies give the response 9.
abbrev operational : RibObject
operational = record {
  owner = 0;
  obj_name = b'o' ∷ [];
  obj_class = b'c' ∷ [];
  obj_inst = 1;
  fn_start = none;
  fn_stop = none;
  fn_create = none;
  fn_delete = none;
  fn_read = none;
  fn_write = none;
  fn_start_reply = some (λ c m. (0, 9));
  fn_stop_reply = none;
  fn_create_reply = none;
  fn_delete_reply = none;
  fn_read_reply = none;
  fn_write_reply = none;
  fn_init = none;
}

abbrev rib_with : List Connection → RibState
rib_with rows = record {
  do_lock = true;
  locked = false;
  connections = rows;
  pending_reqs = zero_pending ∷ zero_pending ∷ [];
  objects = some operational ∷ none ∷ [];
  sent = [];
  next_invoke = 1;
}

abbrev one_open : RibState
one_open = rib_with (open_on 4 ∷ zero_connection ∷ [])

abbrev accepted : Output
accepted msg port = 0

connect-registers_example :
    (r1 : RibState) × ((normal_incoming all_memory accepted (idle one_open) (message 0 7) 5
        ≡ returned success r1)
      × ((lookup_connection 5 r1.connections ≡ some (opened_by (message 0 7) 5))
          × ((response : Message) × ((r1.sent ≡ (response, 5) ∷ [])
                × (Answers (message 0 7) response 1 × (r1.locked ≡ false))))))
unfolding find_connection
connect-registers_example = connect-registers accepted one_open (message 0 7) 5 refl refl refl

abbrev all_open : RibState
all_open = rib_with (open_on 4 ∷ open_on 6 ∷ [])

connect-full_blocks_example :
    (r1 : RibState) × ((normal_incoming all_memory accepted (idle all_open) (message 0 7) 5
        ≡ returned success r1)
      × ((normal_incoming all_memory accepted r1 (message 0 8) 9 ≡ blocked)
          × (normal_incoming all_memory accepted r1 (message 15 3) 4 ≡ blocked)))
unfolding find_connection
connect-full_blocks_example =
    connect-full_blocks all_memory accepted all_open (message 0 7) (message 0 8) (message 15 3) 5 9
      4 refl refl refl refl refl refl

release_reply-ignored_runs :
    normal_incoming all_memory accepted one_open (message 3 7) 4 ≡ returned success one_open
release_reply-ignored_runs = release_reply-ignored all_memory accepted one_open (message 3 7) 4 refl

one_open-Distinct : Distinct one_open.connections
unfolding lookup_connection
one_open-Distinct = (λ a. refl, (λ a. refl, tt))

release-frees_example :
    (r1 : RibState) × ((normal_incoming all_memory accepted (idle one_open) (message 2 0) 4
        ≡ returned success r1)
      × ((lookup_connection 4 r1.connections ≡ none) × (r1.sent ≡ [])))
unfolding find_connection
release-frees_example =
    release-frees accepted one_open (message 2 0) 4 0 one_open-Distinct refl refl refl

release-Answers_runs :
    (r1 : RibState) × ((normal_incoming all_memory accepted (idle one_open) (message 2 7) 4
        ≡ returned success r1)
      × ((r1.connections ≡ one_open.connections)
          × ((response : Message) × ((r1.sent ≡ (response, 4) ∷ [])
                × Answers (message 2 7) response 3))))
unfolding find_connection
release-Answers_runs = release-Answers accepted one_open (message 2 7) 4 0 refl (ground arith) refl

object_err-result_lost_runs :
    (sent : Message) × ((object_err all_memory accepted (idle one_open) operational 15 4 7 3 none
        ≡ returned 0 (record (idle one_open) { sent = (sent, 4) ∷ [] }))
      × ((sent.result ≡ 0) × ((sent.result_reason ≡ none) × (sent.invoke_id ≡ 7))))
object_err-result_lost_runs = object_err-result_lost accepted one_open operational 15 4 7 3 none

query-reply_delivered_example :
    (r1 : RibState) × ((object_query true all_memory accepted
          (idle one_open)
          operational
          14
          4
          none
          query_sync
        ≡ returned 0 r1)
      × ((r2 : RibState) × ((normal_incoming all_memory accepted r1 (message 15 1) 4
              ≡ returned success r2)
            × (object_wait_reply none none r2 1 ≡ waited success (some 9) r2))))
unfolding find_pending find_object get_next_invoke_id get_object_reply_method same_string
query-reply_delivered_example =
    query-reply_delivered accepted one_open operational 14 4 none (message 15 1) 4 15 m_start_r
      (λ c m. (0, 9)) 9 none refl refl refl start_reply refl refl refl (λ c. refl) (ground arith)

abbrev waiting : PendingReq
waiting = record zero_pending { invoke_id = 1; obj_name = some (b'o' ∷ []) }

abbrev one_waiting : RibState
one_waiting = record one_open { pending_reqs = waiting ∷ [] }

object_wait_reply-fails_runs :
    (object_wait_reply (some 22) none one_waiting 1 ≡ waited success none one_waiting)
    × ((r1 : RibState) × ((object_wait_reply none none one_waiting 1 ≡ waited rib_timeout none r1)
          × (object_wait_reply none none r1 1 ≡ never)))
unfolding find_pending
object_wait_reply-fails_runs =
    object_wait_reply-fails one_waiting none 22 1 0 waiting refl refl refl refl

reply-zero_crashes_runs :
    normal_incoming all_memory accepted (idle one_open) (message 15 0) 4 ≡ crashed
unfolding find_pending any_object
reply-zero_crashes_runs =
    reply-zero_crashes all_memory accepted one_open (message 15 0) 4 15 m_start_r 0 zero_pending
      start_reply refl refl refl refl refl refl

normal_incoming-Advanced_example : Advanced 4 one_open.connections one_open.connections
normal_incoming-Advanced_example =
    normal_incoming-Advanced all_memory accepted one_open one_open (message 3 7) 4 success
      one_open-Distinct release_reply-ignored_runs

abbrev flows : RibObject
flows = record operational { obj_name = b'f' ∷ [] }

object_add-object_find_runs :
    (r1 : RibState) × ((object_add one_open 2 flows ≡ (success, r1))
      × ((object_find r1 (some (b'f' ∷ [])) ≡ some (some (record flows { owner = 2 })))
          × (object_find r1 (some (b'o' ∷ [])) ≡ object_find one_open (some (b'o' ∷ [])))))
unfolding find_object same_string
object_add-object_find_runs =
    object_add-object_find one_open 2 flows (b'o' ∷ []) refl refl refl refl
