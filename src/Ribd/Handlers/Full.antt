-- ===== src/Ribd/Handlers/Full.antt =====
-- Ribd.c: a connection request when every entry is taken.
use rinasense.Base.{
  ℕ, ◌≡◌, refl, ◌∙◌, true, false, none, List, [], ◌∷◌, arith, Bool-cases, inl, inr,
}
use rinasense.Common.RinaName.{Name}
use rinasense.Ribd.{
  m_connect, m_start_r, Message, Connection, RibState, returned, blocked, Output, Memory, success,
}
use rinasense.Ribd.Connections.{
  connection_add, add_connection, connection_find, find_connection, is_released,
}
use rinasense.Ribd.Pending.{find_pending_response}
use rinasense.Ribd.Handlers.{
  handle_connect, dispatch, stop_error, normal_incoming, handle_any_reply,
}
use rinasense.Ribd.Handlers.Connect.{
  idle, any_released, normal_incoming-dispatch, code_in_range, op_of_code,
}

add_connection-none :
    (mem : Memory) (src dst : Name) (port : ℕ) (rows : List Connection)
    → any_released rows ≡ false
    → add_connection mem src dst port rows ≡ none
unfolding add_connection
add_connection-none mem src dst port [] h = refl
add_connection-none mem src dst port (c ∷ rows) h = elim (Bool-cases (is_released c.status)) [
  | inl e ↦ absurd (ground (arith, e, h))
  | inr e ↦
      rw (add_connection, e, add_connection-none mem src dst port rows (ground (arith, e, h))) refl
]

full_steps :
    (mem : Memory) (output : Output) (r : RibState) (msg : Message) (port : ℕ)
    → find_connection port r.connections ≡ none
    → add_connection mem msg.source_info msg.destination_info port r.connections ≡ none
    → stop_error (dispatch mem output (idle r) port (connection_find r port) msg m_connect)
      ≡ returned success (record (idle r) { locked = true })
unfolding dispatch handle_connect connection_add stop_error
full_steps mem output r msg port n a = rw (n, handle_connect, connection_add, a)

blocked_steps :
    (mem : Memory) (output : Output) (r : RibState) (msg : Message) (port : ℕ)
    → find_connection port r.connections ≡ none
    → stop_error (
        dispatch mem output
          (record (idle r) { locked = true })
          port
          (connection_find r port)
          msg
          m_connect)
      ≡ blocked
unfolding dispatch handle_connect connection_add stop_error
blocked_steps mem output r msg port n = rw (n)

reply_blocked_steps :
    (mem : Memory) (output : Output) (r : RibState) (msg : Message) (port : ℕ)
    → stop_error (
        dispatch mem output
          (record (idle r) { locked = true })
          port
          (connection_find r port)
          msg
          m_start_r)
      ≡ blocked
unfolding dispatch handle_any_reply find_pending_response stop_error
reply_blocked_steps mem output r msg port = refl

-- On a RIB that locks, when every entry is taken, M_CONNECT from a port without a connection returns
-- with the mutex held: the next M_CONNECT from such a port and the next M_START_R never return.
pub connect-full_blocks :
    (mem : Memory) (output : Output) (r : RibState) (msg next reply : Message) (port p q : ℕ)
    → msg.op_code ≡ 0
    → connection_find r port ≡ none
    → any_released r.connections ≡ false
    → next.op_code ≡ 0
    → connection_find r p ≡ none
    → reply.op_code ≡ 15
    → (r1 : RibState) × ((normal_incoming mem output (idle r) msg port ≡ returned success r1)
        × ((normal_incoming mem output r1 next p ≡ blocked)
            × (normal_incoming mem output r1 reply q ≡ blocked)))
connect-full_blocks mem output r msg next reply port p q o n a c m s = (
  record (idle r) { locked = true },
  (
    normal_incoming-dispatch mem output (idle r) msg port m_connect
          (code_in_range 0 msg.op_code o refl) (op_of_code 0 msg.op_code m_connect o refl)
        ∙ full_steps mem output r msg port n
            (add_connection-none mem msg.source_info msg.destination_info port r.connections a),
    (
      normal_incoming-dispatch mem output (record (idle r) { locked = true }) next p m_connect
            (code_in_range 0 next.op_code c refl) (op_of_code 0 next.op_code m_connect c refl)
          ∙ blocked_steps mem output r next p m,
      normal_incoming-dispatch mem output (record (idle r) { locked = true }) reply q m_start_r
            (code_in_range 15 reply.op_code s refl) (op_of_code 15 reply.op_code m_start_r s refl)
          ∙ reply_blocked_steps mem output r reply q,
    ),
  ),
)
