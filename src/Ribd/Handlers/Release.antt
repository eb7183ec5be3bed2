-- ===== src/Ribd/Handlers/Release.antt =====
-- Ribd.c and Ribd_requests.c: releases, their replies, and the result code of a reply.
use rinasense.Base.{
  ℕ, ◌≡◌, refl, ap, ◌∙◌, subst, true, false, Option, none, some, List, ◌∷◌, ◌++◌, ◌==◌, get_elem?,
  set, arith, get_elem?-middle, set-middle,
}
use rinasense.Ribd.{
  m_release, m_release_r, Message, Connection, RibState, returned, Output, Memory, success,
}
use rinasense.Ribd.Connections.{connection_find, find_connection, is_released, zero_connection}
use rinasense.Ribd.Connections.Table.{
  lookup_connection, find_connection-Found, Found, Distinct, Distinct-alone, lookup_connection-skip,
}
use rinasense.Ribd.Handlers.{
  dispatch, stop_error, normal_incoming, release_reply, handle_release, with_connection,
}
use rinasense.Ribd.Handlers.Connect.{
  all_memory, idle, normal_incoming-dispatch, code_in_range, op_of_code,
}

pub get_elem?-Found :
    (port i : ℕ) (rows : List Connection) (f : Found port i rows) → get_elem? rows i ≡ some f.c
get_elem?-Found port i rows f =
    ap (λ r. get_elem? r i) f.split
    ∙ (ap (λ j. get_elem? (f.before ++ (f.c ∷ f.after)) j) f.index
        ∙ get_elem?-middle f.before f.c f.after)

release_reply_steps :
    (mem : Memory) (output : Output) (r : RibState) (msg : Message) (port : ℕ) (found : Option ℕ)
    → connection_find r port ≡ found
    → stop_error (dispatch mem output r port found msg m_release_r) ≡ returned success r
unfolding dispatch with_connection release_reply stop_error
release_reply_steps mem output r msg port none e = refl
release_reply_steps mem output r msg port (some i) e =
    let f = find_connection-Found port i r.connections e in
    let active : is_released f.c.status ≡ false = ground (arith, f.serving) in
    rw (with_connection, get_elem?-Found port i r.connections f, release_reply, active)

-- M_RELEASE_R never does anything: whatever the RIB is, it is the same afterwards, and the
-- connection that the reply is about stays.
pub release_reply-ignored :
    (mem : Memory) (output : Output) (r : RibState) (msg : Message) (port : ℕ)
    → msg.op_code ≡ 3
    → normal_incoming mem output r msg port ≡ returned success r
release_reply-ignored mem output r msg port o =
    normal_incoming-dispatch mem output r msg port m_release_r (code_in_range 3 msg.op_code o refl)
      (op_of_code 3 msg.op_code m_release_r o refl)
    ∙ release_reply_steps mem output r msg port (connection_find r port) refl

release_steps :
    (output : Output) (r : RibState) (msg : Message) (port i : ℕ)
    → find_connection port r.connections ≡ some i
    → (msg.invoke_id == 0) ≡ true
    → stop_error (dispatch all_memory output (idle r) port (connection_find r port) msg m_release)
      ≡ returned success (record (idle r) { connections = set r.connections i zero_connection })
unfolding dispatch with_connection handle_release stop_error
release_steps output r msg port i e z =
    let f = find_connection-Found port i r.connections e in
    let active : is_released f.c.status ≡ false = ground (arith, f.serving) in
    rw (e, with_connection, get_elem?-Found port i r.connections f, handle_release, active, z)

lookup_connection-released :
    (port i : ℕ) (rows : List Connection)
    → Distinct rows
    → find_connection port rows ≡ some i
    → lookup_connection port (set rows i zero_connection) ≡ none
lookup_connection-released port i rows d e =
    let f = find_connection-Found port i rows e in
    let placed : set rows i zero_connection ≡ f.before ++ (zero_connection ∷ f.after) =
      ap (λ r. set r i zero_connection) f.split
      ∙ (ap (λ j. set (f.before ++ (f.c ∷ f.after)) j zero_connection) f.index
          ∙ set-middle f.before f.c zero_connection f.after) in
    ap (lookup_connection port) placed
    ∙ (lookup_connection-skip port zero_connection f.before f.after refl
        ∙ Distinct-alone port f.c f.before f.after f.serving (subst Distinct f.split d))

-- M_RELEASE without an invoke identifier, on a RIB that locks and is idle, frees the connection
-- of its port and sends nothing.
pub release-frees :
    (output : Output) (r : RibState) (msg : Message) (port i : ℕ)
    → Distinct r.connections
    → msg.op_code ≡ 2
    → msg.invoke_id ≡ 0
    → connection_find r port ≡ some i
    → (r1 : RibState) × ((normal_incoming all_memory output (idle r) msg port ≡ returned success r1)
        × ((lookup_connection port r1.connections ≡ none) × (r1.sent ≡ r.sent)))
release-frees output r msg port i d o z e = (
  record (idle r) { connections = set r.connections i zero_connection },
  (
    normal_incoming-dispatch all_memory output (idle r) msg port m_release
          (code_in_range 2 msg.op_code o refl) (op_of_code 2 msg.op_code m_release o refl)
        ∙ release_steps output r msg port i e (ground (arith, z)),
    (lookup_connection-released port i r.connections d e, refl),
  ),
)
