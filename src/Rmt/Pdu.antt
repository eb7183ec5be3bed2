-- ===== src/Rmt/Pdu.antt =====
-- components/Rmt/Rmt.c and include/pci.h: receiving a data unit.
use rinasense.Base.{
  ℕ, ◌+◌, ◌%◌, ◌^◌, Bool, false, not, ◌&&◌, ◌||◌, Option, none, some, List, [], ◌∷◌, if◌then◌else◌,
  ◌==◌, ltb, length, drop, get_elem?,
}
use rinasense.Rmt.{
  N1Port, Rmt, Outcome, answered, crashed, Stack, port_find, update_port, port_id_wrong, byte_wrong,
  is_addressed_to_me,
}

-- `pdu_type_is_ok`
abbrev pub pdu_type_is_ok : ℕ → Bool
pdu_type_is_ok x =
    (x == 128)
    || ((x == 192)
        || ((x == 201)
            || ((x == 194)
                || ((x == 196)
                    || ((x == 193)
                        || ((x == 197)
                            || ((x == 205) || ((x == 206) || ((x == 207) || (x == 64))))))))))

-- `sizeof(pci_t)`, and the offsets of the fields that are read.
abbrev pub pci_size : ℕ
pci_size = 14

abbrev pub pci_destination : ℕ
pci_destination = 1

abbrev pub pci_qos_id : ℕ
pci_qos_id = 3

abbrev pub pci_cep_destination : ℕ
pci_cep_destination = 4

abbrev pub pci_type : ℕ
pci_type = 6

abbrev pub pdu_type_mgmt : ℕ
pdu_type_mgmt = 64

-- `PCI_GET`: a byte of the buffer, or nothing where the read leaves it.
abbrev pub pci_get : List ℕ → ℕ → Option ℕ
pci_get du field = get_elem? du field

-- `xRmtProcessMgmtPdu`
abbrev pub process_mgmt_pdu : Stack → Rmt → ℕ → List ℕ → Outcome
process_mgmt_pdu stack rmt port du = answered (stack.mgmt_post port du) rmt

-- `xRmtProcessDtPdu`
unfoldable pub process_dt_pdu : Stack → Rmt → ℕ → List ℕ → Outcome
process_dt_pdu stack rmt port du = elim (pci_get du pci_destination) [
  | none ↦ crashed
  | some destination ↦
      if destination == byte_wrong then answered false rmt else elim (pci_get du pci_type) [
        | none ↦ crashed
        | some type ↦
            if type == pdu_type_mgmt
            then answered false rmt
            else elim (pci_get du pci_cep_destination) [
              | none ↦ crashed
              | some cep ↦
                  if cep == byte_wrong
                  then answered false rmt
                  else answered (stack.efcp_receive cep du) rmt
            ]
      ]
]

-- The types that the switch of `xRmtReceive` hands to `xRmtProcessDtPdu`.
abbrev pub is_data_type : ℕ → Bool
is_data_type x =
    (x == 192)
    || ((x == 201)
        || ((x == 194)
            || ((x == 196) || ((x == 193) || ((x == 197) || ((x == 207) || (x == 128)))))))

-- The end of `xRmtReceive`, on the buffer after the header; without one every path but the
-- refusals is given a null pointer.
unfoldable pub deliver : Stack → Rmt → ℕ → ℕ → ℕ → List ℕ → Outcome
deliver stack rmt port type destination [] =
    if is_addressed_to_me rmt.addresses destination
    then (if (type == pdu_type_mgmt) || is_data_type type then crashed else answered false rmt)
    else if destination == 0
    then crashed
    else answered false rmt
deliver stack rmt port type destination (b ∷ payload) =
    if is_addressed_to_me rmt.addresses destination
    then (if type == pdu_type_mgmt
        then process_mgmt_pdu stack rmt port (b ∷ payload)
        else if is_data_type type
        then process_dt_pdu stack rmt port (b ∷ payload)
        else answered false rmt)
    else if destination == 0
    then process_mgmt_pdu stack rmt port (b ∷ payload)
    else answered false rmt

-- `stats_inc(rx, ...)`
abbrev pub count_rx : ℕ → N1Port → N1Port
count_rx bytes p = record p {
  stats = record p.stats {
    rx_pdus = (p.stats.rx_pdus + 1) % 2 ^ 32;
    rx_bytes = (p.stats.rx_bytes + bytes % 2 ^ 32) % 2 ^ 32;
  };
}

-- `xRmtReceive` from the header on; the flag says whether the buffer can be split.
unfoldable pub read_header : Stack → (memory : Bool) → Rmt → List ℕ → ℕ → Outcome
read_header stack memory rmt du port =
    if ltb (length du) pci_size
    then answered false rmt
    else if not memory && not (length du == pci_size)
    then answered false rmt
    else elim (pci_get du pci_type) [
      | none ↦ crashed
      | some type ↦ elim (pci_get du pci_destination) [
        | none ↦ crashed
        | some destination ↦ elim (pci_get du pci_qos_id) [
          | none ↦ crashed
          | some qos_id ↦
              if not (pdu_type_is_ok type)
                || ((destination == byte_wrong) || (qos_id == byte_wrong))
              then answered false rmt
              else deliver stack rmt port type destination (drop pci_size du)
        ]
      ]
    ]

-- `xRmtReceive`
unfoldable pub receive : Stack → (memory : Bool) → Rmt → List ℕ → ℕ → Outcome
receive stack memory rmt du port =
    if port == port_id_wrong then crashed else elim (port_find port rmt.ports) [
      | none ↦ answered false rmt
      | some p ↦
          read_header stack memory
            (record rmt { ports = update_port port (count_rx (length du)) rmt.ports }) du port
    ]
