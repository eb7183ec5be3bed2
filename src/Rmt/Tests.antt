-- ===== src/Rmt/Tests.antt =====
-- Rmt.c at concrete inputs.
use rinasense.Base.{ℕ, ◌≡◌, refl, true, false, some, List, [], ◌∷◌, ◌++◌, ◌==◌, arith}
use rinasense.Rmt.{
  Rmt, Stack, answered, port_find, n1_port_create, n1_port_bind, is_addressed_to_me, address_add,
  list_insert, update_port,
}
use rinasense.Rmt.Pdu.{receive, count_rx, read_header}
use rinasense.Rmt.Send.{send_port_id, count_tx}
use rinasense.Rmt.Ports.{n1_port_bind-port_find}
use rinasense.Rmt.Receive.{receive-count_rx, send_port_id-count_tx}
use rinasense.Rmt.Payload.{receive-payload_decides}

abbrev two_ports : Rmt
two_ports = record { addresses = 3 ∷ []; ports = n1_port_create 1 0 ∷ n1_port_create 2 0 ∷ [] }

-- The container takes what is for connection 9 only; nothing is ever written.
abbrev stack : Stack
stack = record {
  mgmt_post = λ port du. true;
  efcp_receive = λ cep du. cep == 9;
  du_write = λ ipcp port du. false;
}

-- A data transfer PDU from 4 to 3, whose header names the connection 7.
abbrev header : List ℕ
header = 1 ∷ 3 ∷ 4 ∷ 0 ∷ 7 ∷ 8 ∷ 128 ∷ 0 ∷ 21 ∷ 0 ∷ 0 ∷ 0 ∷ 0 ∷ 0 ∷ []

abbrev payload : List ℕ
payload = 5 ∷ 5 ∷ 5 ∷ 5 ∷ 9 ∷ 5 ∷ 5 ∷ []

n1_port_bind-port_find_runs :
    (r1 : Rmt) × ((n1_port_bind true two_ports 5 8 ≡ answered true r1)
      × ((port_find 5 r1.ports ≡ some (n1_port_create 5 8))
          × ((port_find 2 r1.ports ≡ port_find 2 two_ports.ports)
              × (n1_port_bind true r1 5 8 ≡ answered false r1))))
unfolding port_find
n1_port_bind-port_find_runs =
    n1_port_bind-port_find two_ports 5 8 2 (ground arith) (ground arith) refl

abbrev counted_ports : Rmt
counted_ports = record two_ports {
  ports = count_rx 3 (n1_port_create 1 0) ∷ n1_port_create 2 0 ∷ [];
}

receive-count_rx_example :
    (port_find 1 counted_ports.ports ≡ some (count_rx 3 (n1_port_create 1 0)))
    × ((port_find 2 counted_ports.ports ≡ port_find 2 two_ports.ports)
        × (counted_ports.addresses ≡ two_ports.addresses))
unfolding port_find receive read_header update_port
receive-count_rx_example =
    receive-count_rx stack true two_ports counted_ports (1 ∷ 2 ∷ 3 ∷ []) 1 2 (n1_port_create 1 0)
      false (ground arith) (ground arith) refl refl

send_port_id-count_tx_runs :
    (r1 : Rmt) × ((send_port_id stack two_ports 2 payload ≡ (true, r1))
      × ((port_find 2 r1.ports ≡ some (count_tx false (n1_port_create 2 0)))
          × (port_find 1 r1.ports ≡ port_find 1 two_ports.ports)))
unfolding port_find
send_port_id-count_tx_runs =
    send_port_id-count_tx stack two_ports 2 1 payload (n1_port_create 2 0) (ground arith) refl refl

receive-payload_decides_example :
    (r1 : Rmt) × (receive stack true two_ports (header ++ payload) 1 ≡ answered true r1)
unfolding port_find is_addressed_to_me
receive-payload_decides_example =
    receive-payload_decides stack two_ports header payload 1 3 0 5 5 9 (n1_port_create 1 0)
      (ground arith) refl refl refl refl refl (ground arith) (ground arith) refl refl refl refl
      (ground arith) (ground arith) (ground arith)

-- Own addresses are those added.
address_add_runs : is_addressed_to_me (address_add true two_ports 6).1.addresses 6 ≡ true
unfolding address_add is_addressed_to_me list_insert
address_add_runs = refl
