-- ===== src/ShimIpcp/Arp/Process.antt =====
-- components/ShimIPCP/ARP826.c: a packet that comes in, on top of the cache.
use rinasense.Base.{
  ℕ, Bool, false, not, ◌&&◌, ◌||◌, Option, none, some, List, if◌then◌else◌, ◌==◌, ltb, length,
  get_elem?,
}
use rinasense.Common.Gpha.{made, null, fault, mac_length}
use rinasense.ShimIpcp.ArpCache.{
  ArpCache, Handle, LookupResult, cache_miss, cache_hit, cant_send_packet, add, lookup_gpa,
}
use rinasense.ShimIpcp.ArpCache
use rinasense.ShimIpcp.Arp.{ArpPacketData, arp_header_size, extract_request_data, get_response}

-- What `eARPProcessPacket` says of the frame (`eReleaseBuffer`, or `eReturnEthernetFrame` with the
-- answer when there is one), with the cache; or an access it must not make, or a failed assertion.
pub data Processed : Type 0 where
  release_buffer : ArpCache → Processed
  return_frame : Option (List ℕ) → ArpCache → Processed
  process_fault : Processed

-- A request: what is looked up is answered. Where it is missing, the build with NDEBUG only logs.
unfoldable pub process_request :
    (memory : Bool) → ArpCache → (eth_source : List ℕ) → List ℕ → ArpPacketData → Processed
process_request memory c eth_source packet request =
    let r = lookup_gpa c (some request.px_tpa) in
    elim r.0 [
      | cache_miss ↦ release_buffer c
      | cache_hit ↦ elim r.1 [
        | none ↦ process_fault
        | some found ↦ elim (get_response memory packet request eth_source found) [
          | made answer ↦ return_frame (some answer) c
          | null ↦ return_frame none c
          | fault ↦ process_fault
        ]
      ]
      | cant_send_packet ↦ process_fault
    ]

-- A reply: the target addresses go to the cache.
unfoldable pub process_reply : ArpCache.Memory → ArpCache → ArpPacketData → Processed
process_reply memory c reply = release_buffer (add memory c reply.px_tpa reply.px_tha).1

abbrev pub is_bytes : Option ℕ → ℕ → Bool
is_bytes none value = false
is_bytes (some b) value = b == value

-- The checks of `eARPProcessPacket`: Ethernet, its address length, and the operation.
abbrev pub has_header : List ℕ → (operation : ℕ) → Bool
has_header packet operation =
    is_bytes (get_elem? packet 0) 0
    && (is_bytes (get_elem? packet 1) 1
        && (is_bytes (get_elem? packet 4) mac_length
            && (is_bytes (get_elem? packet 6) 0 && is_bytes (get_elem? packet 7) operation)))

-- `eARPProcessPacket` on a packet with its static header.
unfoldable pub process_packet :
    (memory : Bool) → ArpCache.Memory → ArpCache → (eth_source : List ℕ) → List ℕ → Processed
process_packet memory cache_memory c eth_source packet =
    if ltb (length packet) arp_header_size
    then process_fault
    else if not (has_header packet 1 || has_header packet 2)
    then release_buffer c
    else elim (extract_request_data memory packet) [
      | null ↦ release_buffer c
      | fault ↦ process_fault
      | made data_of ↦
          if has_header packet 1
          then process_request memory c eth_source packet data_of
          else process_reply cache_memory c data_of
    ]
