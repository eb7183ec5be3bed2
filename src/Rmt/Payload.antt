-- ===== src/Rmt/Payload.antt =====
-- Rmt.c: which bytes of a data transfer PDU decide where it goes.
use rinasense.Base.{
  ℕ, zero, suc, ◌≡◌, ◌≢◌, refl, ◌∙◌, true, false, some, List, [], ◌∷◌, ◌++◌, ◌==◌, arith, length,
  ltb, get_elem?, drop, length-append,
}
use rinasense.Rmt.{
  N1Port, Rmt, Stack, answered, port_find, port_id_wrong, is_addressed_to_me, byte_wrong,
}
use rinasense.Rmt.Pdu.{
  receive, read_header, deliver, process_dt_pdu, pci_size, pci_type, pci_destination, pci_qos_id,
  pdu_type_mgmt, pci_cep_destination,
}
use rinasense.Rmt.Receive.{counted, receive-read_header}

get_elem?-left :
    (i v : ℕ) (xs ys : List ℕ) → get_elem? xs i ≡ some v → get_elem? (xs ++ ys) i ≡ some v
get_elem?-left i v [] ys h = absurd (cc h)
get_elem?-left zero v (x ∷ xs) ys h = h
get_elem?-left (suc i) v (x ∷ xs) ys h = get_elem?-left i v xs ys h

drop-append : (n : ℕ) (xs ys : List ℕ) → length xs ≡ n → drop n (xs ++ ys) ≡ ys
drop-append zero [] ys h = refl
drop-append zero (x ∷ xs) ys h = absurd (omega arith)
drop-append (suc n) [] ys h = absurd (omega arith)
drop-append (suc n) (x ∷ xs) ys h = drop-append n xs ys (omega arith)

header_steps :
    (stack : Stack) (rmt : Rmt) (header payload : List ℕ) (port destination qos_id : ℕ)
    → length header ≡ pci_size
    → get_elem? header pci_type ≡ some 128
    → get_elem? header pci_destination ≡ some destination
    → get_elem? header pci_qos_id ≡ some qos_id
    → destination ≢ byte_wrong
    → qos_id ≢ byte_wrong
    → read_header stack true rmt (header ++ payload) port
      ≡ deliver stack rmt port 128 destination payload
unfolding read_header
header_steps stack rmt header payload port destination qos_id l t d q nd nq =
    let long : ltb (length (header ++ payload)) pci_size ≡ false =
      ground (arith, length-append header payload, l) in
    let rest : drop pci_size (header ++ payload) ≡ payload =
      drop-append pci_size header payload l in
    let okd : (destination == byte_wrong) ≡ false = ground (arith, nd) in
    let okq : (qos_id == byte_wrong) ≡ false = ground (arith, nq) in
    rw (
      read_header,
      long,
      get_elem?-left pci_type 128 header payload t,
      get_elem?-left pci_destination destination header payload d,
      get_elem?-left pci_qos_id qos_id header payload q,
      okd,
      okq,
      rest,
    )

payload_steps :
    (stack : Stack) (rmt : Rmt) (payload : List ℕ) (port destination d t c : ℕ)
    → is_addressed_to_me rmt.addresses destination ≡ true
    → get_elem? payload pci_destination ≡ some d
    → get_elem? payload pci_type ≡ some t
    → get_elem? payload pci_cep_destination ≡ some c
    → d ≢ byte_wrong
    → t ≢ pdu_type_mgmt
    → c ≢ byte_wrong
    → deliver stack rmt port 128 destination payload ≡ answered (stack.efcp_receive c payload) rmt
unfolding deliver process_dt_pdu
payload_steps stack rmt [] port destination d t c own pd pt pc nd nt nc = absurd (cc pd)
payload_steps stack rmt (b ∷ payload) port destination d t c own pd pt pc nd nt nc =
    let okd : (d == byte_wrong) ≡ false = ground (arith, nd) in
    let okt : (t == pdu_type_mgmt) ≡ false = ground (arith, nt) in
    let okc : (c == byte_wrong) ≡ false = ground (arith, nc) in
    rw (deliver, own, process_dt_pdu, pd, okd, pt, okt, pc, okc)

-- A data transfer PDU with a good header and one of the RMT's own addresses goes to the EFCP
-- connection that the fifth byte of its payload names, if the payload's bytes at the places of
-- the address and the type allow it. The connection that the header names plays no part.
pub receive-payload_decides :
    (stack : Stack) (rmt : Rmt) (header payload : List ℕ) (port destination qos_id d t c : ℕ)
    (p : N1Port)
    → port ≢ port_id_wrong
    → port_find port rmt.ports ≡ some p
    → length header ≡ pci_size
    → get_elem? header pci_type ≡ some 128
    → get_elem? header pci_destination ≡ some destination
    → get_elem? header pci_qos_id ≡ some qos_id
    → destination ≢ byte_wrong
    → qos_id ≢ byte_wrong
    → is_addressed_to_me rmt.addresses destination ≡ true
    → get_elem? payload pci_destination ≡ some d
    → get_elem? payload pci_type ≡ some t
    → get_elem? payload pci_cep_destination ≡ some c
    → d ≢ byte_wrong
    → t ≢ pdu_type_mgmt
    → c ≢ byte_wrong
    → (r1 : Rmt) × (receive stack true rmt (header ++ payload) port
        ≡ answered (stack.efcp_receive c payload) r1)
receive-payload_decides stack rmt header payload port destination qos_id d t c p w h l ht hd hq nd
      nq own pd pt pc xd xt xc =
    (
      counted port (length (header ++ payload)) rmt,
      receive-read_header stack true rmt (header ++ payload) port p w h
          ∙ (header_steps stack (counted port (length (header ++ payload)) rmt) header payload port
                destination qos_id l ht hd hq nd nq
              ∙ payload_steps stack (counted port (length (header ++ payload)) rmt) payload port
                  destination d t c own pd pt pc xd xt xc),
    )
