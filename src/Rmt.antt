-- ===== src/Rmt.antt =====
-- components/Rmt/Rmt.c and include/pci.h: the relaying and multiplexing task. A data unit is the
-- list of the bytes of one buffer. The N-1 process that writes, the management side of the normal
-- process and the EFCP container are functions from their arguments to what they return.
pub mod Pdu
pub mod Send
pub mod Ports
pub mod Receive
pub mod Payload
mod Tests
use rinasense.Base.{
  ℕ, zero, suc, ◌+◌, ◌-◌, ◌%◌, ◌^◌, Bool, true, false, not, ◌&&◌, ◌||◌, Option, none, some, List,
  [], ◌∷◌, if◌then◌else◌, ◌==◌, ltb, leb, length, drop, get_elem?,
}

-- `n1PortStats_t`; the counters are unsigned 32-bit numbers.
pub record Stats : Type 0 where
  pub plen : ℕ
  pub drop_pdus : ℕ
  pub err_pdus : ℕ
  pub tx_pdus : ℕ
  pub tx_bytes : ℕ
  pub rx_pdus : ℕ
  pub rx_bytes : ℕ

-- `eFlowState_t`
pub data FlowState : Type 0 where
  port_enabled port_disabled port_do_not_disable port_deallocated : FlowState

-- `rmtN1Port_t`; the N-1 process is known by its number.
pub record N1Port : Type 0 where
  pub port : ℕ
  pub n1_ipcp : ℕ
  pub state : FlowState
  pub stats : Stats
  pub busy : Bool

-- `struct rmt_t`
pub record Rmt : Type 0 where
  pub addresses : List ℕ
  pub ports : List N1Port

-- `vRsListInsert`: after the first item.
unfoldable pub list_insert {ℓ} : {A : Type ℓ} → List A → A → List A
list_insert [] x = x ∷ []
list_insert (a ∷ rest) x = a ∷ (x ∷ rest)

-- `prvRmtPortFind`
unfoldable pub port_find : ℕ → List N1Port → Option N1Port
port_find port [] = none
port_find port (p ∷ ports) =
    let rest = port_find port ports in if p.port == port then some p else rest

-- A change to the port that `prvRmtPortFind` finds.
unfoldable pub update_port : ℕ → (N1Port → N1Port) → List N1Port → List N1Port
update_port port change [] = []
update_port port change (p ∷ ports) =
    let rest = update_port port change ports in
    if p.port == port then change p ∷ ports else p ∷ rest

-- `PORT_ID_WRONG` and `ADDRESS_WRONG`, which is also the wrong QoS and CEP identifier.
abbrev pub port_id_wrong : ℕ
port_id_wrong = 2 ^ 32 - 1

abbrev pub byte_wrong : ℕ
byte_wrong = 255

-- `xRmtInit`
abbrev pub rmt_init : (memory : Bool) → Option Rmt
rmt_init memory = if not memory then none else some (record { addresses = []; ports = [] })

-- `pxRmtN1PortCreate`
abbrev pub n1_port_create : ℕ → ℕ → N1Port
n1_port_create port n1_ipcp = record {
  port = port;
  n1_ipcp = n1_ipcp;
  state = port_enabled;
  stats = record {
    plen = 0;
    drop_pdus = 0;
    err_pdus = 0;
    tx_pdus = 0;
    tx_bytes = 0;
    rx_pdus = 0;
    rx_bytes = 0;
  };
  busy = false;
}

-- How a call ends: with an answer, or in a failed assertion or an access outside of memory.
pub data Outcome : Type 0 where
  answered : Bool → Rmt → Outcome
  crashed : Outcome

-- `xRmtN1PortBind`
unfoldable pub n1_port_bind : (memory : Bool) → Rmt → ℕ → ℕ → Outcome
n1_port_bind memory rmt port n1_ipcp =
    if port == port_id_wrong then crashed else elim (port_find port rmt.ports) [
      | some p ↦ answered false rmt
      | none ↦
          if not memory
          then answered false rmt
          else answered true
              (record rmt { ports = list_insert rmt.ports (n1_port_create port n1_ipcp) })
    ]

-- `xRmtAddressAdd`
unfoldable pub address_add : (memory : Bool) → Rmt → ℕ → Bool × Rmt
address_add memory rmt address =
    if not memory
    then (false, rmt)
    else (true, record rmt { addresses = list_insert rmt.addresses address })

-- `xRmtPduIsAddressedToMe`
unfoldable pub is_addressed_to_me : List ℕ → ℕ → Bool
is_addressed_to_me [] address = false
is_addressed_to_me (a ∷ rest) address =
    let later = is_addressed_to_me rest address in if a == address then true else later

-- The parts of the stack that the RMT calls.
pub record Stack : Type 0 where
  pub mgmt_post : ℕ → List ℕ → Bool
  pub efcp_receive : ℕ → List ℕ → Bool
  pub du_write : ℕ → ℕ → List ℕ → Bool
