-- ===== src/Ribd/Handlers/Invariant.antt =====
-- Ribd.c: what an incoming message does to the connections.
use rinasense.Base.{
  ℕ, ◌≡◌, ◌⊎◌, refl, ap, ◌∙◌, subst, false, Option, none, some, List, ◌∷◌, ◌++◌, ◌==◌, get_elem?,
  length, ltb, arith, Bool-cases, Option-cases, inl, inr, get_elem?-middle,
}
use rinasense.Ribd.{
  OpCode, m_connect, m_connect_r, m_release, m_release_r, m_create, m_create_r, m_delete,
  m_delete_r, m_read, m_read_r, m_cancelread, m_cancelread_r, m_write, m_write_r, m_start,
  m_start_r, m_stop, m_stop_r, op_codes, max_cdap_opcode, Message, Connection, ConnectionStatus,
  connection_released, connection_in_progress, connection_ok, RibState, Outcome, returned, blocked,
  crashed, Output, Memory,
}
use rinasense.Ribd.Connections.{connection_find, is_released, zero_connection}
use rinasense.Ribd.Connections.Table.{
  lookup_connection, Kept, Kept-same, Found, Move, confirmed, Distinct, find_connection-Found,
  serves-Only, released-Only,
}
use rinasense.Ribd.Connections.Update.{set-Kept}
use rinasense.Ribd.Handlers.{
  connect_reply, handle_release, release_reply, with_connection, handle_any_request,
  handle_any_reply, dispatch, stop_error, normal_incoming,
}
use rinasense.Ribd.Handlers.Quiet.{
  object_reply-Same, handle_any_reply-Same, handle_any_request-Same,
}
use rinasense.Ribd.Handlers.Keeps.{Keeps, Same-Keeps, handle_connect-Keeps}

-- A handler that is given the entry of the port.
with_connection-Keeps :
    (r : RibState) (port : ℕ) (handler : ℕ → Connection → Outcome) (found : Option ℕ)
    → connection_find r port ≡ found
    → ((i : ℕ) → (f : Found port i r.connections) → Keeps port r.connections (handler i f.c))
    → Keeps port r.connections (with_connection r found handler)
unfolding with_connection
with_connection-Keeps r port handler none h k = Kept-same port r.connections
with_connection-Keeps r port handler (some i) h k =
    let f = find_connection-Found port i r.connections h in
    let at : get_elem? r.connections i ≡ some f.c =
      ap (λ rows. get_elem? rows i) f.split
      ∙ (ap (λ j. get_elem? (f.before ++ (f.c ∷ f.after)) j) f.index
          ∙ get_elem?-middle f.before f.c f.after) in
    rw (with_connection, at) (k i f)

connect_reply-Keeps :
    (r : RibState) (port i : ℕ) (f : Found port i r.connections)
    → Keeps port r.connections (connect_reply r i f.c)
unfolding connect_reply
connect_reply-Keeps r port i f = confirm f.c.status refl
  where
    confirm :
        (s : ConnectionStatus) → f.c.status ≡ s → Keeps port r.connections (connect_reply r i f.c)
    confirm connection_released e = rw (connect_reply, e) (Kept-same port r.connections)
    confirm connection_ok e = rw (connect_reply, e) (Kept-same port r.connections)
    confirm connection_in_progress e =
        rw (connect_reply, e)
          (set-Kept port i r.connections (record f.c { status = connection_ok }) f
            (serves-Only port (record f.c { status = connection_ok }) (ground (arith, f.serving)))
            (λ q. confirmed e refl))

handle_release-Keeps :
    (mem : Memory) (output : Output) (r : RibState) (port : ℕ) (msg : Message) (i : ℕ)
    (f : Found port i r.connections)
    → Keeps port r.connections (handle_release mem output r port msg i f.c)
unfolding handle_release
handle_release-Keeps mem output r port msg i f =
    let active : is_released f.c.status ≡ false = ground (arith, f.serving) in
    elim (Bool-cases (msg.invoke_id == 0)) [
      | inl e ↦
          rw (handle_release, active, e)
            (set-Kept port i r.connections zero_connection f
              (released-Only port zero_connection refl) (λ q. absurd (cc q)))
      | inr e ↦
          rw (handle_release, active, e)
            (Same-Keeps port r.connections _
              (object_reply-Same mem output r _ 3 port msg.invoke_id 0 none none))
    ]

release_reply-Keeps :
    (r : RibState) (port i : ℕ) (f : Found port i r.connections)
    → Keeps port r.connections (release_reply r i f.c)
unfolding release_reply
release_reply-Keeps r port i f =
    let active : is_released f.c.status ≡ false = ground (arith, f.serving) in
    rw (release_reply, active) (Kept-same port r.connections)

dispatch-Keeps :
    (mem : Memory) (output : Output) (r : RibState) (port : ℕ) (found : Option ℕ) (msg : Message)
    (op : OpCode)
    → connection_find r port ≡ found
    → Keeps port r.connections (dispatch mem output r port found msg op)
unfolding dispatch
dispatch-Keeps mem output r port found msg op h = by_code op
  where
    request : (op : OpCode) → Keeps port r.connections (handle_any_request r op found msg)
    request op = Same-Keeps port r.connections _ (handle_any_request-Same r op found msg)

    reply : (op : OpCode) → Keeps port r.connections (handle_any_reply r op found msg)
    reply op = Same-Keeps port r.connections _ (handle_any_reply-Same r op found msg)

    by_code : (op : OpCode) → Keeps port r.connections (dispatch mem output r port found msg op)
    by_code m_connect = handle_connect-Keeps mem output r port found msg h
    by_code m_connect_r =
        with_connection-Keeps r port (connect_reply r) found h (connect_reply-Keeps r port)
    by_code m_release =
        with_connection-Keeps r port (handle_release mem output r port msg) found h
          (handle_release-Keeps mem output r port msg)
    by_code m_release_r =
        with_connection-Keeps r port (release_reply r) found h (release_reply-Keeps r port)
    by_code m_create = request m_create
    by_code m_delete = request m_delete
    by_code m_read = request m_read
    by_code m_write = request m_write
    by_code m_start = request m_start
    by_code m_stop = request m_stop
    by_code m_create_r = reply m_create_r
    by_code m_delete_r = reply m_delete_r
    by_code m_read_r = reply m_read_r
    by_code m_write_r = reply m_write_r
    by_code m_start_r = reply m_start_r
    by_code m_stop_r = reply m_stop_r
    by_code m_cancelread = Kept-same port r.connections
    by_code m_cancelread_r = Kept-same port r.connections

stop_error-Keeps :
    (port : ℕ) (rows : List Connection) (o : Outcome)
    → Keeps port rows o
    → Keeps port rows (stop_error o)
unfolding stop_error
stop_error-Keeps port rows (returned status r) h = h
stop_error-Keeps port rows blocked h = tt
stop_error-Keeps port rows crashed h = tt

normal_incoming-Kept :
    (mem : Memory) (output : Output) (r r1 : RibState) (msg : Message) (port status : ℕ)
    → normal_incoming mem output r msg port ≡ returned status r1
    → Kept port r.connections r1.connections
unfolding normal_incoming
normal_incoming-Kept mem output r r1 msg port status h =
    subst (Keeps port r.connections) h (elim (Bool-cases (ltb max_cdap_opcode msg.op_code)) [
      | inl e ↦ rw (normal_incoming, e) tt
      | inr e ↦ elim (Option-cases (get_elem? op_codes msg.op_code)) [
        | inl f ↦ rw (normal_incoming, e, f) tt
        | inr (op, f) ↦
            rw (normal_incoming, e, f)
              (stop_error-Keeps port r.connections _
                (dispatch-Keeps mem output r port (connection_find r port) msg op refl))
      ]
    ])

-- The table after a message for a port.
pub record Advanced (port : ℕ) (rows rows' : List Connection) : Type 0 where
  pub size : length rows' ≡ length rows
  pub distinct : Distinct rows'
  pub others : (q : ℕ) → (q ≡ port) ⊎ (lookup_connection q rows' ≡ lookup_connection q rows)
  pub move : Move (lookup_connection port rows) (lookup_connection port rows')

-- Take a table in which no port has two connections. Whatever message comes in on a port, when
-- `xRibNormalIncoming` returns, the table has its size and still no port with two connections,
-- the other ports have the connections they had, and the port's own connection is as before, or
-- newly in progress, or confirmed from in progress, or released.
pub normal_incoming-Advanced :
    (mem : Memory) (output : Output) (r r1 : RibState) (msg : Message) (port status : ℕ)
    → Distinct r.connections
    → normal_incoming mem output r msg port ≡ returned status r1
    → Advanced port r.connections r1.connections
normal_incoming-Advanced mem output r r1 msg port status d h =
    let k = normal_incoming-Kept mem output r r1 msg port status h in
    record {
      size = k.size;
      distinct = k.distinct d;
      others = λ q. elim (Bool-cases (q == port)) [
        | inl e ↦ inl (ground arith)
        | inr e ↦ inr (k.others q (ground arith))
      ];
      move = k.move d;
    }
