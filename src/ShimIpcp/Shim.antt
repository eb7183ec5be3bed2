-- ===== src/ShimIpcp/Shim.antt =====
-- components/ShimIPCP/ShimIPCP.c: the flows of the shim IPC process. Shim/Frames handles the frames
-- that come in, Shim/Applications registers addresses in the ARP cache. The port manager is the one
-- of components/IPCP/IpcManager.c.
pub mod Frames
pub mod Applications
pub mod Found
pub mod Sound
pub mod Arrival
pub mod Received
pub mod Conversation
pub mod Gone
pub mod Kept
pub mod Refused
pub mod Incoming
pub mod Steps
pub mod Registered
pub mod Wire
use rinasense.Base.{
  ℕ, ◌+◌, Bool, true, false, not, Option, none, some, List, [], ◌∷◌, ◌++◌, if◌then◌else◌, ltb, leb,
  length, take, replicate, get_elem?, set,
}
use rinasense.Common.NumMgr
use rinasense.Common.NumMgr.{NumMgr, uint_max}
use rinasense.Common.Gpha.{
  Gpa, Gha, Made, made, null, fault, mac_addr_802_3, mac_length, gha_cmp, create_gha,
}
use rinasense.Common.RinaName.{Name, to_string_buf}
use rinasense.Common.RinaName.Address.{name_to_gpa}
use rinasense.ShimIpcp.ArpCache.{ArpCache}
use rinasense.ShimIpcp.Arp.{arp_lookup_gha}

-- A pointer that is kept: NULL, to an object, or to memory that was freed.
pub data Pointer (A : Type 0) : Type 0 where
  null_pointer : Pointer A
  points_to : A → Pointer A
  dangling : Pointer A

-- `ePortidState_t`
pub data PortState : Type 0 where
  port_null port_pending port_allocated : PortState

-- `shimFlow_t`; `dest_pa` is none where nothing was written to it.
pub record ShimFlow : Type 0 where
  pub un_port : ℕ
  pub port_id_state : PortState
  pub dest_pa : Option Gpa
  pub dest_ha : Option Gha

-- `struct ipcpInstanceData_t` of the shim: `xFlows`, the ARP cache, the address of the interface,
-- and what is kept of the application that is registered. A name is a pointer to its copy, `pxFree`.
pub record Shim : Type 0 where
  pub flows : List (Pointer ShimFlow)
  pub arp : ArpCache
  pub phy_dev : List ℕ
  pub app_pa : Pointer Gpa
  pub daf_pa : Pointer Gpa
  pub px_ha : Pointer Gha
  pub app_name : Pointer Name
  pub daf_name : Pointer Name

-- What leaves the shim: an event for the IPC process task, or a frame.
pub data Event : Type 0 where
  rx_event : ℕ → Option (List ℕ) → Event
  flow_allocated_event : ℕ → Event
  frame_out : List ℕ → Event

-- What an operation returns, or an access it must not make.
pub data ShimResult : Type 0 where
  ended : Bool → Shim → List Event → ShimResult
  shim_fault : ShimResult

-- The size of `xFlows`, `MTU`, and `ETH_P_RINA` as its bytes in a frame.
abbrev pub max_flows : ℕ
max_flows = 256

abbrev pub mtu : ℕ
mtu = 1500

abbrev pub eth_p_rina : List ℕ
eth_p_rina = 209 ∷ (240 ∷ [])

-- `pxShimWiFiCreate` and `xShimStart`, where their allocations succeed; the driver of the interface
-- gives the address.
abbrev pub shim_create : ArpCache → (phy_dev : List ℕ) → Shim
shim_create arp phy_dev = record {
  flows = replicate max_flows null_pointer;
  arp = arp;
  phy_dev = phy_dev;
  app_pa = null_pointer;
  daf_pa = null_pointer;
  px_ha = null_pointer;
  app_name = null_pointer;
  daf_name = null_pointer;
}

-- What is read through a place of `xFlows`.
abbrev pub deref : Option (Pointer ShimFlow) → Made ShimFlow
deref none = fault
deref (some null_pointer) = null
deref (some (points_to flow)) = made flow
deref (some dangling) = fault

-- `prvShimFindFlowByPortId`, with the use of what it returns: there is no check of the port, and
-- every caller reads the flow.
unfoldable pub find_by_port : Shim → ℕ → Made ShimFlow
find_by_port s port = deref (get_elem? s.flows port)

-- `prvShimFindFlowByGHA`
unfoldable pub find_by_gha : Option Gha → List (Pointer ShimFlow) → Made ShimFlow
find_by_gha ha [] = null
find_by_gha ha (null_pointer ∷ rest) = find_by_gha ha rest
find_by_gha ha (dangling ∷ rest) = fault
find_by_gha ha (points_to flow ∷ rest) =
    if gha_cmp flow.dest_ha ha then made flow else find_by_gha ha rest

-- `unIpcManagerReservePort`: a port, or the loop of `ulNumMgrAllocate` goes on.
pub data Reserved : Type 0 where
  port_reserved : ℕ → NumMgr → Reserved
  reserving : Reserved

unfoldable pub reserve_port : (fuel : ℕ) → NumMgr → Reserved
reserve_port fuel ports = elim (NumMgr.allocate fuel ports) [
  | NumMgr.allocated port ports' ↦ port_reserved port ports'
  | NumMgr.exhausted ↦ port_reserved uint_max ports
  | NumMgr.running ↦ reserving
]

-- Which allocations of a name's address succeed.
pub record NameMemory : Type 0 where
  pub text : Bool
  pub struct : Bool
  pub address : Bool
  pub fill : ℕ

abbrev pub to_gpa : NameMemory → Name → Made Gpa
to_gpa memory name = name_to_gpa memory.text memory.struct memory.address memory.fill name

-- `pcNameBuf` on the stack, with what is there before.
abbrev pub name_buf : ℕ → List ℕ
name_buf fill = replicate 64 fill

-- `xShimFlowAllocateRequest` after the name of the source is printed: the flow that it makes is not
-- put into `xFlows`.
unfoldable pub request_flow :
    (flow_memory queue_memory : Bool) → NameMemory → Shim → (destination : Name) → ℕ → ShimResult
request_flow flow_memory queue_memory memory s destination port = elim (find_by_port s port) [
  | fault ↦ shim_fault
  | null ↦ if not flow_memory then ended false s [] else elim (to_gpa memory destination) [
    | fault ↦ shim_fault
    | null ↦ ended false s []
    | made dest_pa ↦ ended queue_memory s []
  ]
  | made flow ↦ elim flow.port_id_state [
    | port_null ↦ ended false s []
    | port_pending ↦ ended true s []
    | port_allocated ↦ ended false s []
  ]
]

-- `xShimFlowAllocateRequest`; `fill` is what the stack holds.
unfoldable pub flow_allocate_request :
    (flow_memory queue_memory : Bool)
    → NameMemory
    → (fill : ℕ) → Shim
    → (source destination : Name) → ℕ
    → ShimResult
flow_allocate_request flow_memory queue_memory memory fill s source destination port =
    elim (to_string_buf source (name_buf fill)) [
      | none ↦ shim_fault
      | some printed ↦ request_flow flow_memory queue_memory memory s destination port
    ]

-- `xShimFlowAllocateResponse`
unfoldable pub flow_allocate_response : Shim → ℕ → ShimResult
flow_allocate_response s port = elim (find_by_port s port) [
  | fault ↦ shim_fault
  | null ↦ ended false s []
  | made flow ↦ elim flow.port_id_state [
    | port_null ↦ ended false s []
    | port_pending ↦
        let flow' : ShimFlow = record flow {
          port_id_state = port_allocated;
          un_port = port;
          dest_ha = arp_lookup_gha s.arp flow.dest_pa;
        } in
        ended true (record s { flows = set s.flows port (points_to flow') })
          (flow_allocated_event port ∷ [])
    | port_allocated ↦ ended false s []
  ]
]

-- `prvShimUnbindDestroyFlow`: `prvShimFlowDestroy` frees the flow and answers true, which is
-- taken for a failure.
abbrev pub unbind_destroy_flow : Bool
unbind_destroy_flow = false

-- `xShimFlowDeallocate`: the place of `xFlows` keeps its pointer.
unfoldable pub flow_deallocate : Shim → ℕ → ShimResult
flow_deallocate s port = elim (find_by_port s port) [
  | fault ↦ shim_fault
  | null ↦ ended false s []
  | made flow ↦ ended unbind_destroy_flow (record s { flows = set s.flows port dangling }) []
]

-- Which allocations of `xShimSDUWrite` succeed.
pub record WriteMemory : Type 0 where
  pub source : Bool
  pub header : Bool
  pub netbuf : Bool

-- The Ethernet header that is put in front of a data unit.
abbrev pub eth_frame : (destination source du : List ℕ) → List ℕ
eth_frame destination source du =
    take mac_length destination ++ (take mac_length source ++ (eth_p_rina ++ du))

-- `xShimSDUWrite`; `output` is what `xNetworkInterfaceOutput` returns.
unfoldable pub sdu_write : WriteMemory → (output : Bool) → Shim → ℕ → (du : List ℕ) → ShimResult
sdu_write memory output s port du =
    if ltb mtu (length du) then ended false s [] else elim (find_by_port s port) [
      | fault ↦ shim_fault
      | null ↦ ended false s []
      | made flow ↦ elim flow.port_id_state [
        | port_null ↦ ended false s []
        | port_pending ↦ ended false s []
        | port_allocated ↦ elim (create_gha memory.source mac_addr_802_3 s.phy_dev) [
          | fault ↦ shim_fault
          | null ↦ ended false s []
          | made source ↦ elim flow.dest_ha [
            | none ↦ ended false s []
            | some destination ↦
                if not memory.header
                then ended false s []
                else if not memory.netbuf
                then ended false s []
                else ended output s
                    (frame_out (eth_frame destination.uc_bytes source.uc_bytes du) ∷ [])
          ]
        ]
      ]
    ]
