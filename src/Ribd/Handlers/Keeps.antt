-- ===== src/Ribd/Handlers/Keeps.antt =====
-- Ribd.c: what a connection request keeps of the connections.
use rinasense.Base.{
  ℕ, ◌≡◌, refl, sym, subst, Option, none, some, List, if◌then◌else◌, ◌==◌, Bool-cases, Option-cases,
  inl, inr,
}
use rinasense.Common.RinaName.{Name}
use rinasense.Ribd.{
  Message, Connection, RibState, Outcome, returned, blocked, crashed, Output, Memory, rib_lock,
}
use rinasense.Ribd.Connections.{connection_add, add_connection, connection_find}
use rinasense.Ribd.Connections.Table.{
  lookup_connection, Kept, Kept-same, find_connection-lookup_connection,
}
use rinasense.Ribd.Connections.Update.{add_connection-Kept}
use rinasense.Ribd.Handlers.{handle_connect, connect_response}
use rinasense.Ribd.Handlers.Quiet.{Same, rib_lock-Same, rib_unlock-Same, connect_response-Same}

-- The connections after a call keep what a message for the port may keep.
abbrev pub Keeps : ℕ → List Connection → Outcome → Type 0
Keeps port rows (returned status r) = Kept port rows r.connections
Keeps port rows blocked = Unit
Keeps port rows crashed = Unit

pub Same-Keeps : (port : ℕ) (rows : List Connection) (o : Outcome) → Same rows o → Keeps port rows o
Same-Keeps port rows (returned status r) h =
    subst (λ k. Kept port rows k) (sym h) (Kept-same port rows)
Same-Keeps port rows blocked h = tt
Same-Keeps port rows crashed h = tt

Same-after :
    (port : ℕ) (rows : List Connection) (r : RibState) (o : Outcome)
    → Kept port rows r.connections
    → Same r.connections o
    → Keeps port rows o
Same-after port rows r (returned status r1) k h = subst (λ s. Kept port rows s) (sym h) k
Same-after port rows r blocked k h = tt
Same-after port rows r crashed k h = tt

connection_add-Keeps :
    (mem : Memory) (r : RibState) (src dst : Name) (port : ℕ)
    → lookup_connection port r.connections ≡ none
    → Keeps port r.connections (connection_add mem r src dst port)
unfolding connection_add
connection_add-Keeps mem r src dst port n = elim (Option-cases (rib_lock r)) [
  | inl e ↦ rw (connection_add, e) tt
  | inr (r1, e) ↦
      let same = rib_lock-Same r r1 e in
      elim (Option-cases (add_connection mem src dst port r1.connections)) [
        | inl f ↦
            rw (connection_add, e, f)
              (subst (λ k. Kept port r.connections k) (sym same) (Kept-same port r.connections))
        | inr (rows, f) ↦
            rw (connection_add, e, f)
              (subst (λ k. Kept port r.connections k)
                (sym (rib_unlock-Same (record r1 { connections = rows.1 })))
                (add_connection-Kept mem src dst port r.connections rows.1 rows.0 n
                  (subst (λ k. add_connection mem src dst port k ≡ some rows) same f)))
      ]
]

-- The rest of `prvRibHandleConnect` leaves the table as `xRibConnectionAdd` made it.
connect_rest : Memory → Output → ℕ → Message → Outcome → Outcome
connect_rest mem output port msg (returned status r1) =
    if status == 0 then connect_response mem output r1 port msg else returned 1 r1
connect_rest mem output port msg blocked = blocked
connect_rest mem output port msg crashed = crashed

connect_rest-Keeps :
    (mem : Memory) (output : Output) (port : ℕ) (msg : Message) (rows : List Connection)
    (o : Outcome)
    → Keeps port rows o
    → Keeps port rows (connect_rest mem output port msg o)
unfolding connect_rest
connect_rest-Keeps mem output port msg rows (returned status r1) h =
    elim (Bool-cases (status == 0)) [
      | inl e ↦ rw (e) (
          Same-after port rows r1 (connect_response mem output r1 port msg) h
            (connect_response-Same mem output r1 port msg))
      | inr e ↦ rw (e) h
    ]
connect_rest-Keeps mem output port msg rows blocked h = tt
connect_rest-Keeps mem output port msg rows crashed h = tt

handle_connect-rest :
    (mem : Memory) (output : Output) (r : RibState) (port : ℕ) (msg : Message)
    → handle_connect mem output r port none msg
      ≡ connect_rest mem output port msg
          (connection_add mem r msg.source_info msg.destination_info port)
unfolding handle_connect connect_rest
handle_connect-rest mem output r port msg = refl

pub handle_connect-Keeps :
    (mem : Memory) (output : Output) (r : RibState) (port : ℕ) (found : Option ℕ) (msg : Message)
    → connection_find r port ≡ found
    → Keeps port r.connections (handle_connect mem output r port found msg)
unfolding handle_connect
handle_connect-Keeps mem output r port (some i) msg h = Kept-same port r.connections
handle_connect-Keeps mem output r port none msg h = rw (handle_connect-rest mem output r port msg) (
    connect_rest-Keeps mem output port msg r.connections _ (
      connection_add-Keeps mem r msg.source_info msg.destination_info port
        (find_connection-lookup_connection port r.connections h)))
