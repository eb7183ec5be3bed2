-- ===== src/Efcp.antt =====
-- components/EFCP: the data of the EFCP container, its table of connections (EFCP.c) and the
-- transfer protocol (dtp.c). The instances are a heap: an `efcp_t *` is a position in it, and a
-- released instance is none. A data unit is the list of the bytes from its pointer on.
pub mod Dtp
pub mod Units
pub mod Connections
pub mod Window
pub mod Run
pub mod Heap
pub mod Single
pub mod Keeps
pub mod Steps
pub mod Lifetime
pub mod Destroy
pub mod Delivery
mod Tests
use rinasense.Base.{
  ℕ, zero, suc, ◌+◌, ◌-◌, ◌*◌, ◌%◌, ◌^◌, Bool, true, false, not, ◌&&◌, ◌||◌, Option, none, some,
  List, [], ◌∷◌, ◌++◌, if◌then◌else◌, ◌==◌, replicate,
}
use rinasense.Common.NumMgr.{NumMgr}

-- `connection_t`
pub record EfcpConnection : Type 0 where
  pub port : ℕ
  pub source_address : ℕ
  pub destination_address : ℕ
  pub source_cep : ℕ
  pub destination_cep : ℕ
  pub qos_id : ℕ

-- The counters of `dtpSv_t`.
pub record DtpStats : Type 0 where
  pub drop_pdus : ℕ
  pub err_pdus : ℕ
  pub tx_pdus : ℕ
  pub tx_bytes : ℕ
  pub rx_pdus : ℕ
  pub rx_bytes : ℕ

-- `dtpSv_t`
pub record StateVector : Type 0 where
  pub max_flow_pdu_size : ℕ
  pub max_flow_sdu_size : ℕ
  pub rcv_left_window_edge : ℕ
  pub window_closed : Bool
  pub drf_flag : Bool
  pub seq_number_rollover_threshold : ℕ
  pub stats : DtpStats
  pub max_seq_number_rcvd : ℕ
  pub next_seq_number_to_send : ℕ
  pub max_seq_number_to_send : ℕ
  pub window_based : Bool
  pub rexmsn_ctrl : Bool
  pub rate_based : Bool
  pub drf_required : Bool
  pub rate_fulfiled : Bool

-- `eEfcpState_t`
pub data EfcpState : Type 0 where
  efcp_allocated efcp_deallocated : EfcpState

-- The test for a deallocated instance.
abbrev pub by_state {ℓ} : {A : Type ℓ} → EfcpState → A → A → A
by_state efcp_allocated x y = x
by_state efcp_deallocated x y = y

-- `struct efcp_t` with the connection and the state vector it points to. `user_ipcp` says that the
-- memory of `pxUserIpcp`, which nothing sets, is not null.
pub record Instance : Type 0 where
  pub connection : EfcpConnection
  pub vector : StateVector
  pub state : EfcpState
  pub user_ipcp : Bool

-- `efcpImapRow_t`
pub record ImapRow : Type 0 where
  pub cep_id_key : ℕ
  pub efcp_value : Option ℕ
  pub uc_valid : ℕ

-- `struct efcpContainer_t` with the table `xEfcpImapTable` and the heap of instances. The flags
-- say that `pxEfcpImap` and `pxRmt` are not null.
pub record Container : Type 0 where
  pub imap : List ImapRow
  pub imap_set : Bool
  pub cidm : Option NumMgr
  pub rmt_set : Bool
  pub instances : List (Option Instance)

-- A data unit that `xFlowAllocatorDuPost` is given, and the port.
pub record Post : Type 0 where
  pub app_port : ℕ
  pub du : List ℕ

-- How a call ends: with an answer and what was posted, or in a failed assertion or an access
-- outside of live memory.
pub data Outcome : Type 0 where
  answered : Bool → Container → List Post → Outcome
  crashed : Outcome

-- `CEP_ID_WRONG`
abbrev pub cep_id_wrong : ℕ
cep_id_wrong = 255

abbrev pub is_cep_id_ok : ℕ → Bool
is_cep_id_ok cep = not (cep == cep_id_wrong)

abbrev pub null_imap_row : ImapRow
null_imap_row = record { cep_id_key = 0; efcp_value = none; uc_valid = 0 }

-- `xEfcpImapCreate`, with `CFG_EFCP_IMAP_ENTRIES` rows.
abbrev pub imap_create : List ImapRow
imap_create = replicate 5 null_imap_row

-- `xEfcpImapDestroy`
abbrev pub imap_destroy : List ImapRow
imap_destroy = replicate 5 null_imap_row

-- `pxEfcpImapFind`: the instance, and the table with the row that was found marked valid.
unfoldable pub imap_find : ℕ → List ImapRow → Option ℕ × List ImapRow
imap_find key [] = (none, [])
imap_find key (r ∷ rows) =
    let later = imap_find key rows in
    if r.cep_id_key == key
    then (r.efcp_value, record r { uc_valid = 1 } ∷ rows)
    else (later.0, r ∷ later.1)

-- `xEfcpImapAdd`
unfoldable pub imap_add : ℕ → ℕ → List ImapRow → Bool × List ImapRow
imap_add cep instance_at [] = (false, [])
imap_add cep instance_at (r ∷ rows) =
    (true, record { cep_id_key = cep; efcp_value = some instance_at; uc_valid = 1 } ∷ rows)

-- `xEfcpImapRemove`, which returns true whether it finds a row or not.
unfoldable pub imap_remove : ℕ → List ImapRow → List ImapRow
imap_remove key [] = []
imap_remove key (r ∷ rows) =
    let later = imap_remove key rows in
    if r.cep_id_key == key then null_imap_row ∷ rows else r ∷ later
