-- ===== src/Efcp/Connections.antt =====
-- components/EFCP/EFCP.c: making a container, and creating, changing and destroying connections.
use rinasense.Base.{
  ℕ, Bool, true, false, not, ◌&&◌, ◌||◌, Option, none, some, List, [], ◌∷◌, ◌++◌, if◌then◌else◌,
  ◌==◌, set, length, is_some,
}
use rinasense.Common.NumMgr.{create as create_numbers}
use rinasense.Rmt.{port_id_wrong}
use rinasense.Efcp.{
  EfcpConnection, efcp_allocated, by_state, Instance, ImapRow, Container, Outcome, answered,
  crashed, is_cep_id_ok, cep_id_wrong, imap_find, imap_add, imap_remove, imap_create, imap_destroy,
}
use rinasense.Efcp.Dtp.{state_vector_init}
use rinasense.Efcp.Units.{instance_at, put_instance, looked_up}

-- `MAX_CEP_ID`
abbrev pub max_cep_id : ℕ
max_cep_id = 511

-- `CFG_LOCAL_ADDRESS`
abbrev pub local_address : ℕ
local_address = 1

-- What `pvRsMemAlloc` returns: no memory, or memory that holds zeros or that holds what was there.
pub data Memory : Type 0 where
  exhausted zeroed stale : Memory

-- `xEfcpContainerInit` of a container, given whether memory is there for the number manager.
unfoldable pub container_init : (struct_memory array_memory : Bool) → Container → Bool × Container
container_init struct_memory array_memory c =
    let cidm = create_numbers struct_memory array_memory max_cep_id in
    (is_some cidm, record c { imap = imap_create; cidm = cidm })

-- The container of a normal IPC process, whose memory `pxNormalCreate` clears.
abbrev pub zero_container : Container
zero_container = record {
  imap = imap_create;
  imap_set = false;
  cidm = none;
  rmt_set = false;
  instances = [];
}

-- `xEfcpContainerDestroy`: the table that is left.
abbrev pub container_destroy : Container → List ImapRow
container_destroy c = if c.imap_set then imap_destroy else c.imap

-- `xEfcpDestroy` of the instance at a place. The pointer `pxUserIpcp`, which nothing has set, is
-- followed when it is not null.
unfoldable pub efcp_destroy : Container → ℕ → Option Container
efcp_destroy c i = elim (instance_at c.instances i) [
  | none ↦ none
  | some efcp ↦
      if efcp.user_ipcp then none else some (record c { instances = set c.instances i none })
]

-- The arguments of `xEfcpConnectionCreate`; the flag says that there is a configuration.
pub record CreateRequest : Type 0 where
  pub source_address : ℕ
  pub destination_address : ℕ
  pub port : ℕ
  pub qos_id : ℕ
  pub source_cep : ℕ
  pub destination_cep : ℕ
  pub dtp_config : Bool

pub data Created : Type 0 where
  created : ℕ → Container → Created
  create_crashed : Created

-- The connection that `xEfcpConnectionCreate` sets up, with the identifier 1 that it writes in.
abbrev pub new_connection : CreateRequest → EfcpConnection
new_connection request = record {
  port = request.port;
  source_address = local_address;
  destination_address = request.destination_address;
  source_cep = 1;
  destination_cep = request.destination_cep;
  qos_id = request.qos_id;
}

-- `is_candidate_connection_ok`
abbrev pub is_candidate_connection_ok : EfcpConnection → Bool
is_candidate_connection_ok connection =
    is_cep_id_ok connection.source_cep && not (connection.port == port_id_wrong)

abbrev pub is_stale : Memory → Bool
is_stale exhausted = false
is_stale zeroed = false
is_stale stale = true

-- `xEfcpConnectionCreate` from the instance on. Where it fails it destroys the instance, which
-- follows `pxUserIpcp`; where it succeeds the instance is the next one of the heap.
unfoldable pub create_instance : Container → CreateRequest → (user_ipcp dtp_memory : Bool) → Created
create_instance c request user_ipcp dtp_memory =
    if not (is_candidate_connection_ok (new_connection request))
    then (if user_ipcp then create_crashed else created cep_id_wrong c)
    else if not c.rmt_set
    then create_crashed
    else if not dtp_memory
    then (if user_ipcp then create_crashed else created cep_id_wrong c)
    else let added = imap_add 1 (length c.instances) c.imap in
      let efcp : Instance = record {
        connection = new_connection request;
        vector = state_vector_init;
        state = efcp_allocated;
        user_ipcp = user_ipcp;
      } in
      if not added.0
      then (if user_ipcp then create_crashed else created cep_id_wrong c)
      else created 1 (record c { imap = added.1; instances = c.instances ++ (some efcp ∷ []) })

-- `xEfcpConnectionCreate`
unfoldable pub connection_create :
    (connection_memory : Bool) (efcp_memory : Memory) (dtp_memory : Bool)
    → Container
    → CreateRequest
    → Created
connection_create connection_memory efcp_memory dtp_memory c request =
    if not connection_memory || not request.dtp_config then create_crashed else elim efcp_memory [
      | exhausted ↦ created cep_id_wrong c
      | zeroed ↦ create_instance c request false dtp_memory
      | stale ↦ create_instance c request true dtp_memory
    ]

-- The end of `xEfcpConnectionModify` and `xEfcpConnectionUpdate` on a deallocated instance: what
-- `xEfcpDestroy` answers is taken for a failure.
abbrev pub destroy_deallocated : Container → ℕ → Outcome
destroy_deallocated c i = elim (efcp_destroy c i) [
  | none ↦ crashed
  | some c1 ↦ answered false c1 []
]

-- What `xEfcpConnectionModify` and `xEfcpConnectionUpdate` share: a change to the connection of an
-- instance that is found and allocated.
unfoldable pub change_connection :
    Container → (cep : ℕ) → (EfcpConnection → EfcpConnection) → Outcome
change_connection c cep change = elim ((imap_find cep c.imap).0) [
  | none ↦ answered false (looked_up c cep) []
  | some i ↦ elim (instance_at c.instances i) [
    | none ↦ crashed
    | some efcp ↦
        by_state efcp.state
          (answered true
            (put_instance (looked_up c cep) i (record efcp { connection = change efcp.connection }))
            [])
          (destroy_deallocated (looked_up c cep) i)
  ]
]

-- `xEfcpConnectionModify`
abbrev pub connection_modify : Container → (cep source destination : ℕ) → Outcome
connection_modify c cep source destination =
    change_connection c cep
      (λ k. record k { source_address = source; destination_address = destination })

-- `xEfcpConnectionUpdate`
unfoldable pub connection_update : Container → (from to : ℕ) → Outcome
connection_update c from to =
    if not (is_cep_id_ok from) || not (is_cep_id_ok to)
    then answered false c []
    else change_connection c from (λ k. record k { destination_cep = to })

-- `xEfcpConnectionDestroy`: `xEfcpImapRemove` always answers true, which is taken for a failure.
unfoldable pub connection_destroy : Container → (cep : ℕ) → Outcome
connection_destroy c cep =
    if not (is_cep_id_ok cep) then answered false c [] else elim ((imap_find cep c.imap).0) [
      | none ↦ answered false (looked_up c cep) []
      | some i ↦ answered false (record c { imap = imap_remove cep (imap_find cep c.imap).1 }) []
    ]
