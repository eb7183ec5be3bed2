-- ===== src/ShimIpcp/Shim/Frames.antt =====
-- components/ShimIPCP/ShimIPCP.c: the frames that come in.
use rinasense.Base.{
  ℕ, ◌+◌, Bool, not, Option, none, some, List, [], ◌∷◌, ◌++◌, if◌then◌else◌, ltb, leb, length, take,
  drop, set,
}
use rinasense.Common.NumMgr.{NumMgr}
use rinasense.Common.Gpha.{Gha, made, null, fault, mac_addr_802_3, mac_length, create_gha, mem_eq}
use rinasense.Common.Netbuf.{
  Netbuf, netbuf_new, nb_eth_hdr, nb_rina_pci, cut, split_oom, split_fail, split, next_netbuf,
}
use rinasense.ShimIpcp.ArpCache
use rinasense.ShimIpcp.Arp.{arp_header_size}
use rinasense.ShimIpcp.Arp.Process.{
  Processed, release_buffer, return_frame, process_fault, process_packet,
}
use rinasense.ShimIpcp.Shim.{
  points_to, ShimFlow, port_allocated, Shim, Event, rx_event, frame_out, eth_p_rina, find_by_gha,
  reserve_port, port_reserved, reserving,
}

-- The shim with the ports of the IPC manager.
pub record World : Type 0 where
  pub shim : Shim
  pub ports : NumMgr

-- How a frame is handled, or an access it must not make, or the loop that looks for a port goes on.
pub data Handled : Type 0 where
  handled : World → List Event → Handled
  crashed : Handled
  spinning : Handled

-- Which allocations for a frame succeed.
pub record FrameMemory : Type 0 where
  pub address : Bool
  pub flow : Bool
  pub split : Bool
  pub arp : Bool
  pub cache : ArpCache.Memory

-- `pxCreateGHA` of the source address.
abbrev pub source_gha : Bool → List ℕ → Option Gha
source_gha memory source = elim (create_gha memory mac_addr_802_3 source) [
  | made ha ↦ some ha
  | null ↦ none
  | fault ↦ none
]

-- The flow for a source that has none yet.
abbrev pub new_flow : ℕ → Option Gha → ShimFlow
new_flow port source = record {
  un_port = port;
  port_id_state = port_allocated;
  dest_pa = none;
  dest_ha = source;
}

-- The part of `prvShimHandleRinaFrame` that makes it, and binds it to the normal IPC process.
unfoldable pub bind_new_flow :
    (fuel : ℕ) → (bind : ℕ → Bool) → World → (source : Option Gha) → Option (List ℕ) → Handled
bind_new_flow fuel bind w source du = elim (reserve_port fuel w.ports) [
  | reserving ↦ spinning
  | port_reserved port ports ↦
      if leb (length w.shim.flows) port
      then crashed
      else let w' : World = record {
        shim = record w.shim { flows = set w.shim.flows port (points_to (new_flow port source)) };
        ports = ports;
      } in
        handled w' (if bind port then rx_event port du ∷ [] else [])
]

-- `prvShimHandleRinaFrame`; `bind` is what `flowBindingIpcp` of the normal IPC process returns.
unfoldable pub handle_rina_frame :
    FrameMemory
    → (fuel : ℕ) → (bind : ℕ → Bool) → World
    → (source : List ℕ) → (du : Option (List ℕ)) → Handled
handle_rina_frame memory fuel bind w source du =
    let ha = source_gha memory.address source in
    let bound = bind_new_flow fuel bind w ha du in
    elim (find_by_gha ha w.shim.flows) [
      | fault ↦ crashed
      | made flow ↦ handled w (rx_event flow.un_port du ∷ [])
      | null ↦ if not memory.flow then handled w [] else bound
    ]

-- `prvReturnEthernetFrame`: the addresses are exchanged.
unfoldable pub return_ethernet_frame : (header packet : List ℕ) → List ℕ
return_ethernet_frame header packet =
    take mac_length (drop mac_length header)
    ++ (take mac_length header ++ (drop (mac_length + mac_length) header ++ packet))

-- What becomes of an ARP packet: `vShimHandleEthernetPacket` after `eARPProcessPacket`.
unfoldable pub arp_handled : World → (header packet : List ℕ) → Processed → Handled
arp_handled w header packet process_fault = crashed
arp_handled w header packet (release_buffer c) =
    handled (record w { shim = record w.shim { arp = c } }) []
arp_handled w header packet (return_frame none c) =
    handled (record w { shim = record w.shim { arp = c } })
      (frame_out (return_ethernet_frame header packet) ∷ [])
arp_handled w header packet (return_frame (some answer) c) =
    handled (record w { shim = record w.shim { arp = c } })
      (frame_out (return_ethernet_frame header answer) ∷ [])

-- `prvShimHandleARPFrame`, on the part of the frame behind its header.
unfoldable pub handle_arp_frame : FrameMemory → World → (header : List ℕ) → Option Netbuf → Handled
handle_arp_frame memory w header none = crashed
handle_arp_frame memory w header (some n) =
    let packet = take n.size n.buf in
    if ltb n.size arp_header_size
    then handled w []
    else arp_handled w header packet (
        process_packet memory.arp memory.cache w.shim.arp (take mac_length (drop mac_length header))
          packet)

-- `usFrameType` in the order of the host.
pub data FrameType : Type 0 where
  rina_arp_type rina_type other_type : FrameType

abbrev pub frame_type : List ℕ → FrameType
frame_type bytes =
    if mem_eq 2 bytes (67 ∷ (5 ∷ []))
    then rina_arp_type
    else if mem_eq 2 bytes eth_p_rina
    then rina_type
    else other_type

abbrev pub eth_header_size : ℕ
eth_header_size = 14

-- The data unit behind the header, which is NULL when the frame ends there.
abbrev pub frame_du : Option Netbuf → Option (List ℕ)
frame_du none = none
frame_du (some n) = some (take n.size n.buf)

-- `vShimHandleEthernetPacket` of a frame in one netbuf.
unfoldable pub handle_ethernet_packet :
    FrameMemory → (fuel : ℕ) → (bind : ℕ → Bool) → World → (frame : List ℕ) → Handled
handle_ethernet_packet memory fuel bind w frame =
    elim (split memory.split nb_rina_pci eth_header_size
      (netbuf_new nb_eth_hdr frame 0 (length frame) ∷ [])) [
        | split_oom ↦ handled w []
        | split_fail ↦ handled w []
        | cut parts ↦
            let header = take eth_header_size frame in
            elim (frame_type (drop (mac_length + mac_length) header)) [
              | rina_arp_type ↦ handle_arp_frame memory w header (next_netbuf (drop 1 parts))
              | rina_type ↦
                  handle_rina_frame memory fuel bind w (take mac_length (drop mac_length header))
                    (frame_du (next_netbuf (drop 1 parts)))
              | other_type ↦ handled w []
            ]
      ]
