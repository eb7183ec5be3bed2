-- ===== src/Efcp/Dtp.antt =====
-- components/EFCP/dtp.c: the transfer protocol of one connection.
use rinasense.Base.{
  ℕ, ◌+◌, ◌-◌, ◌*◌, ◌%◌, ◌^◌, Bool, true, false, Option, none, some, List, if◌then◌else◌, ◌==◌, leb,
  get_elem?, set, ◌/◌, ◌>>=◌,
}
use rinasense.Base.Bits.{test_bit}
use rinasense.Efcp.{EfcpConnection, StateVector}
use rinasense.Common.Netbuf.{
  NetbufType, nb_unknown, nb_eth_hdr, nb_eth_data, nb_rina_arp, nb_rina_pci, nb_rina_data, Netbuf,
}

-- `vDtpStateVectorInit`
abbrev pub state_vector_init : StateVector
state_vector_init = record {
  max_flow_pdu_size = 2 ^ 32 - 1;
  max_flow_sdu_size = 2 ^ 32 - 1;
  rcv_left_window_edge = 0;
  window_closed = false;
  drf_flag = true;
  seq_number_rollover_threshold = 0;
  stats = record {
    drop_pdus = 0;
    err_pdus = 0;
    tx_pdus = 0;
    tx_bytes = 0;
    rx_pdus = 0;
    rx_bytes = 0;
  };
  max_seq_number_rcvd = 0;
  next_seq_number_to_send = 0;
  max_seq_number_to_send = 0;
  window_based = false;
  rexmsn_ctrl = false;
  rate_based = false;
  drf_required = true;
  rate_fulfiled = false;
}

-- What `xDtpReceive` answers, whether it posts the data unit, and the state it leaves.
pub record Received : Type 0 where
  pub ok : Bool
  pub posted : Bool
  pub vector : StateVector

-- `xDtpReceive`, given the sequence number and the flags of the data unit.
unfoldable pub dtp_receive : StateVector → (seq_num flags : ℕ) → Received
dtp_receive sv seq_num flags =
    if sv.drf_required
    then (if test_bit flags 7
        then record {
          ok = true;
          posted = true;
          vector = record sv { drf_required = false; rcv_left_window_edge = seq_num };
        }
        else record { ok = true; posted = true; vector = sv })
    else if leb seq_num sv.rcv_left_window_edge
    then record { ok = false; posted = false; vector = sv }
    else if seq_num == (sv.rcv_left_window_edge + 1) % 2 ^ 32
    then record { ok = true; posted = true; vector = record sv { rcv_left_window_edge = seq_num } }
    else record { ok = true; posted = true; vector = sv }

-- A field of the header: a byte, or the sequence number, which has four, the lowest first.
abbrev pub pci_byte : List ℕ → ℕ → Option ℕ
pci_byte du field = get_elem? du field

unfoldable pub pci_seq_num : List ℕ → Option ℕ
pci_seq_num du = elim (pci_byte du 10) [
  | none ↦ none
  | some b0 ↦ elim (pci_byte du 11) [
    | none ↦ none
    | some b1 ↦ elim (pci_byte du 12) [
      | none ↦ none
      | some b2 ↦ elim (pci_byte du 13) [
        | none ↦ none
        | some b3 ↦ some (b0 + (256 * b1 + (65536 * b2 + 16777216 * b3)))
      ]
    ]
  ]
]

abbrev pub is_pci : NetbufType → Bool
is_pci nb_unknown = false
is_pci nb_eth_hdr = false
is_pci nb_eth_data = false
is_pci nb_rina_arp = false
is_pci nb_rina_pci = true
is_pci nb_rina_data = false

-- `PCI_SET` of a field of one byte; its assertion is on the type of the netbuf.
abbrev pub pci_set : ℕ → ℕ → Netbuf → Option Netbuf
pci_set field value n =
    if is_pci n.kind then some (record n { buf = set n.buf field (value % 256) }) else none

-- A field of two or four bytes, the lowest first.
abbrev pub pci_set_pair : ℕ → ℕ → Netbuf → Option Netbuf
pci_set_pair field value n = do n1 ← pci_set field value n; pci_set (field + 1) (value / 256) n1

abbrev pub pci_set_word : ℕ → ℕ → Netbuf → Option Netbuf
pci_set_word field value n = do
  n1 ← pci_set_pair field value n
  pci_set_pair (field + 2) (value / 65536) n1

-- The header that `xDtpWrite` fills in, for a data unit of so many bytes.
unfoldable pub fill_pci : StateVector → EfcpConnection → (size seq_num : ℕ) → Netbuf → Option Netbuf
fill_pci sv connection size seq_num n = do
  version ← pci_set 0 1 n
  source_cep ← pci_set 5 connection.source_cep version
  destination_cep ← pci_set 4 connection.destination_cep source_cep
  qos ← pci_set 3 connection.qos_id destination_cep
  destination ← pci_set 1 connection.destination_address qos
  source ← pci_set 2 connection.source_address destination
  flags ← pci_set 7 0 source
  type ← pci_set 6 128 flags
  pdu_len ← pci_set_pair 8 size type
  seq ← pci_set_word 10 seq_num pdu_len
  if sv.drf_flag then pci_set 7 128 seq else some seq
