-- ===== src/Efcp/Units.antt =====
-- components/EFCP/EFCP.c and dtp.c: data units that come in for a connection and that go out on one.
use rinasense.Base.{
  ℕ, ◌+◌, ◌%◌, ◌^◌, Bool, true, false, not, ◌&&◌, ◌||◌, Option, none, some, List, [], ◌∷◌,
  if◌then◌else◌, ◌==◌, get_elem?, set,
}
use rinasense.Common.Netbuf.{
  NetbufType, nb_unknown, nb_eth_hdr, nb_eth_data, nb_rina_arp, nb_rina_pci, nb_rina_data, Netbuf,
  cut, split_oom, split_fail, total_size, du_decap,
}
use rinasense.Efcp.{
  by_state, Instance, Container, Outcome, answered, crashed, is_cep_id_ok, cep_id_wrong, imap_find,
}
use rinasense.Efcp.Dtp.{dtp_receive, pci_byte, pci_seq_num, is_pci, fill_pci}

-- The instance at a place of the heap, or nothing where it is released.
abbrev pub instance_at : List (Option Instance) → ℕ → Option Instance
instance_at instances i = elim (get_elem? instances i) [ none ↦ none | some o ↦ o ]

abbrev pub put_instance : Container → ℕ → Instance → Container
put_instance c i efcp = record c { instances = set c.instances i (some efcp) }

-- `pdu_type_is_control`
abbrev pub pdu_type_is_control : ℕ → Bool
pdu_type_is_control x =
    (x == 192)
    || ((x == 201)
        || ((x == 194)
            || ((x == 196)
                || ((x == 193) || ((x == 197) || ((x == 205) || ((x == 207) || (x == 206))))))))

-- `xEfcpReceive` on an instance and its place: a data unit of the protocol, whose posting
-- (`xDtpPduPost`, `xEfcpEnqueue`) is to the port of the connection.
unfoldable pub efcp_receive : Container → ℕ → Instance → (type : ℕ) → List ℕ → Outcome
efcp_receive c i efcp type du =
    if pdu_type_is_control type
    then answered true (put_instance c i efcp) []
    else elim (pci_seq_num du) [
      | none ↦ crashed
      | some seq_num ↦ elim (pci_byte du 7) [
        | none ↦ crashed
        | some flags ↦
            let r = dtp_receive efcp.vector seq_num flags in
            answered r.ok (put_instance c i (record efcp { vector = r.vector }))
              (if r.posted then record { app_port = efcp.connection.port; du = du } ∷ [] else [])
      ]
    ]

-- The destination that `xEfcpContainerReceive` sets: that of the header, when one is set already.
abbrev pub with_destination : (type destination : ℕ) → Instance → Instance
with_destination type destination efcp =
    if (type == 128) && not (efcp.connection.destination_cep == cep_id_wrong)
    then record efcp { connection = record efcp.connection { destination_cep = destination } }
    else efcp

-- `xEfcpContainerReceive` on the instance that was found.
unfoldable pub receive_found : Container → ℕ → Instance → List ℕ → Outcome
receive_found c i efcp du =
    by_state efcp.state
      (elim (pci_byte du 6) [
        | none ↦ crashed
        | some type ↦ elim (pci_byte du 4) [
          | none ↦ crashed
          | some destination ↦ efcp_receive c i (with_destination type destination efcp) type du
        ]
      ])
      (answered true c [])

-- The table after `pxEfcpImapFind`.
abbrev pub looked_up : Container → ℕ → Container
looked_up c cep = record c { imap = (imap_find cep c.imap).1 }

-- `xEfcpContainerReceive`
unfoldable pub container_receive : Container → (cep : ℕ) → List ℕ → Outcome
container_receive c cep du =
    if not (is_cep_id_ok cep) then answered false c [] else elim ((imap_find cep c.imap).0) [
      | none ↦ answered false (looked_up c cep) []
      | some i ↦ elim (instance_at c.instances i) [
        | none ↦ crashed
        | some efcp ↦ receive_found (looked_up c cep) i efcp du
      ]
    ]

abbrev pub answer_false : Outcome → Outcome
answer_false (answered ok c posts) = answered false c posts
answer_false crashed = crashed

-- `xDtpPduSend` of a chain from its header on. What goes to another address is given to `xRmtSend`,
-- which does nothing and succeeds; what goes to the same address comes back in, and whatever that
-- answers the result is false.
unfoldable pub pdu_send : (memory : Bool) → Container → List Netbuf → Outcome
pdu_send memory c [] = crashed
pdu_send memory c (n ∷ rest) = elim (pci_byte n.buf 2) [
  | none ↦ crashed
  | some source ↦ elim (pci_byte n.buf 1) [
    | none ↦ crashed
    | some destination ↦
        if not (source == destination)
        then answered true c []
        else if not (is_pci n.kind)
        then crashed
        else elim (pci_byte n.buf 4) [
          | none ↦ crashed
          | some cep ↦ elim (du_decap memory 14 (n ∷ rest)) [
            | cut chain ↦ answer_false (container_receive c cep n.buf)
            | split_oom ↦ answered false c []
            | split_fail ↦ answered false c []
          ]
        ]
  ]
]

abbrev pub is_data : NetbufType → Bool
is_data nb_unknown = false
is_data nb_eth_hdr = false
is_data nb_eth_data = false
is_data nb_rina_arp = false
is_data nb_rina_pci = false
is_data nb_rina_data = true

-- The instance after `++xNextSeqNumberToSend`.
abbrev pub count_sent : Instance → Instance
count_sent efcp = record efcp {
  vector = record efcp.vector {
    next_seq_number_to_send = (efcp.vector.next_seq_number_to_send + 1) % 2 ^ 32;
  };
}

-- `xDtpWrite` of the netbuf that starts a chain. `xDuEncap` puts a netbuf for the header in front
-- and returns it, but the header is filled in through the netbuf that was given.
unfoldable pub dtp_write :
    (pci_memory netbuf_memory memory : Bool) → Container → ℕ → Instance → List Netbuf → Outcome
dtp_write pci_memory netbuf_memory memory c i efcp [] = crashed
dtp_write pci_memory netbuf_memory memory c i efcp (n ∷ rest) =
    if n.freed || not (is_data n.kind)
    then crashed
    else if not pci_memory || not netbuf_memory
    then answered false c []
    else elim (fill_pci efcp.vector efcp.connection (total_size (n ∷ rest))
        (count_sent efcp).vector.next_seq_number_to_send n) [
          | none ↦ crashed
          | some header ↦ pdu_send memory (put_instance c i (count_sent efcp)) (header ∷ rest)
        ]

-- `xEfcpContainerWrite` with `xEfcpWrite`
unfoldable pub container_write :
    (pci_memory netbuf_memory memory : Bool) → Container → (cep : ℕ) → List Netbuf → Outcome
container_write pci_memory netbuf_memory memory c cep du =
    if not (is_cep_id_ok cep) then answered false c [] else elim ((imap_find cep c.imap).0) [
      | none ↦ answered false (looked_up c cep) []
      | some i ↦ elim (instance_at c.instances i) [
        | none ↦ crashed
        | some efcp ↦
            by_state efcp.state
              (dtp_write pci_memory netbuf_memory memory (looked_up c cep) i efcp du)
              (answered false (looked_up c cep) [])
      ]
    ]
