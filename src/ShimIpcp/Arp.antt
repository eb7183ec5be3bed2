-- ===== src/ShimIpcp/Arp.antt =====
-- components/ShimIPCP/ARP826.c: ARP packets and requests; Arp/Process handles a packet that comes in. A packet is
-- the list of its bytes. The numbers of two bytes are those that the machine stores lowest first.
pub mod Process
pub mod Layout
pub mod Request
pub mod Exchange
pub mod Answer
pub mod Learning
use rinasense.Base.{
  ℕ, ◌+◌, ◌-◌, ◌*◌, ◌%◌, ◌^◌, Bool, true, false, not, ◌&&◌, ◌||◌, Option, none, some, List, [], ◌∷◌,
  ◌++◌, if◌then◌else◌, ◌==◌, ltb, leb, length, take, drop, replicate, get_elem?, max,
}
use rinasense.Common.Gpha.{
  Gpa, Gha, Made, made, null, fault, Status, success, err_gpa_invalid, err_bad_arg, err_oom, bytes,
  mac_addr_802_3, mac_length, is_gpa_ok, is_gha_ok, create_gpa, create_gha, shrink, grow, dup_gpa,
  address_to_string,
}
use rinasense.ShimIpcp.ArpCache.{
  ArpCache, Handle, LookupResult, cache_miss, cache_hit, cant_send_packet, add, remove, lookup_gpa,
  lookup_gha,
}
use rinasense.ShimIpcp.ArpCache

infixl 10 ◌>>=◌
abbrev pub ◌>>=◌ : {A : Type 0} {B : Type 0} → Made A → (A → Made B) → Made B
made a >>= f = f a
null >>= f = null
fault >>= f = fault

-- `ARP_REQUEST` and `ARP_REPLY`, as the two bytes they are in a packet.
abbrev pub arp_request : List ℕ
arp_request = 0 ∷ (1 ∷ [])

abbrev pub arp_reply : List ℕ
arp_reply = 0 ∷ (2 ∷ [])

-- `sizeof(ARPStaticHeader_t)`
abbrev pub arp_header_size : ℕ
arp_header_size = 8

-- `ARPPacketData_t`: the addresses of a packet.
pub record ArpPacketData : Type 0 where
  pub px_spa : Gpa
  pub px_sha : Gha
  pub px_tpa : Gpa
  pub px_tha : Gha

-- Bytes of a packet; a read outside of it is a fault.
unfoldable pub slice : List ℕ → (offset size : ℕ) → Made (List ℕ)
slice packet offset size =
    if leb (offset + size) (length packet) then made (take size (drop offset packet)) else fault

-- `ucPALength`
unfoldable pub pa_length : List ℕ → Made ℕ
pa_length packet = elim (get_elem? packet 5) [ none ↦ fault | some n ↦ made n ]

-- `pxARPHeaderGetPtr`, as offsets from the start of the packet.
pub data PacketPart : Type 0 where
  part_sha part_spa part_tha part_tpa : PacketPart

abbrev pub header_get_ptr : (ha_length pa_length : ℕ) → PacketPart → ℕ
header_get_ptr hal pal part_sha = arp_header_size
header_get_ptr hal pal part_spa = arp_header_size + hal
header_get_ptr hal pal part_tha = arp_header_size + hal + pal
header_get_ptr hal pal part_tpa = arp_header_size + hal + pal + hal

-- The check of `xGPAShrink` and of `xGPAGrow`.
abbrev pub checked : Status × Gpa → Made Gpa
checked (success, g) = made g
checked (err_gpa_invalid, g) = null
checked (err_bad_arg, g) = null
checked (err_oom, g) = null

abbrev pub shrunk : (memory : Bool) → Gpa → Made Gpa
shrunk memory g = checked (shrink memory g 0)

-- `prvARPExtractRequestData`: null where it fails, after it freed what it had.
unfoldable pub extract_request_data : (memory : Bool) → List ℕ → Made ArpPacketData
extract_request_data memory packet = do
  pal ← pa_length packet
  sha_bytes ← slice packet (header_get_ptr mac_length pal part_sha) mac_length
  sha ← create_gha memory mac_addr_802_3 sha_bytes
  spa_bytes ← slice packet (header_get_ptr mac_length pal part_spa) pal
  spa ← create_gpa memory true (some spa_bytes) pal
  tha_bytes ← slice packet (header_get_ptr mac_length pal part_tha) mac_length
  tha ← create_gha memory mac_addr_802_3 tha_bytes
  short_spa ← shrunk memory spa
  tpa_bytes ← slice packet (header_get_ptr mac_length pal part_tpa) pal
  tpa ← create_gpa memory true (some tpa_bytes) pal
  short_tpa ← shrunk memory tpa
  made (record { px_spa = short_spa; px_sha = sha; px_tpa = short_tpa; px_tha = tha })

-- `xBroadcastHa`
abbrev pub broadcast : List ℕ
broadcast = replicate 6 255

-- The static header: Ethernet, `ETH_P_RINA`, the lengths, of which `ucPALength` is one byte, and
-- the operation.
abbrev pub arp_header : (pal : ℕ) → (operation : List ℕ) → List ℕ
arp_header pal operation = 0 ∷ (1 ∷ (209 ∷ (240 ∷ (mac_length ∷ (pal % 2 ^ 8 ∷ operation)))))

-- The bytes of an address that are copied: `uxLength` of them.
abbrev pub address_bytes : Gpa → List ℕ
address_bytes g = take g.ux_length (bytes g)

-- What `prvARPGetRequest` writes, and the size of the buffer that it writes to.
abbrev pub request_bytes : Gha → Gpa → Gpa → List ℕ → List ℕ
request_bytes sha spa tpa operation =
    arp_header spa.ux_length operation
    ++ (take mac_length sha.uc_bytes ++ (address_bytes spa ++ (broadcast ++ address_bytes tpa)))

abbrev pub request_size : Gpa → ℕ
request_size spa = arp_header_size + (spa.ux_length + mac_length) * 2

-- `prvARPGetRequest`, in a buffer that holds what was there before.
unfoldable pub get_request :
    (memory : Bool) → (stale : List ℕ) → Gha → Gpa → Gpa → List ℕ → Made (List ℕ)
get_request memory stale sha spa tpa operation =
    let written = request_bytes sha spa tpa operation in
    if not memory
    then null
    else if ltb (request_size spa) (length written)
    then fault
    else made (written ++ drop (length written) (take (request_size spa) stale))

-- An address in the space of a packet: what is left of it is cleared.
abbrev pub padded_address : (pal : ℕ) → Gpa → List ℕ
padded_address pal g = address_bytes g ++ replicate (pal - g.ux_length) 0

-- `prvARPGetResponse`: the packet that answers, with what the lookup found.
unfoldable pub get_response :
    (memory : Bool) → List ℕ → ArpPacketData → List ℕ → Gha → Made (List ℕ)
get_response memory packet request eth_source found = do
  pal ← pa_length packet
  header ← slice packet 0 6
  if memory
      then made (
          header
          ++ (arp_reply
              ++ (take mac_length found.uc_bytes
                  ++ (padded_address pal request.px_tpa
                      ++ (take mac_length eth_source ++ padded_address pal request.px_spa)))))
      else null

-- Which allocations of `vARPSendRequest` succeed: those of the two copies, of the two that grow, of
-- the packet and of the Ethernet header.
pub record SendMemory : Type 0 where
  pub spa_struct : Bool
  pub spa_bytes : Bool
  pub tpa_struct : Bool
  pub tpa_bytes : Bool
  pub grow_spa : Bool
  pub grow_tpa : Bool
  pub packet : Bool
  pub eth_header : Bool

abbrev pub grown : (memory : Bool) → Gpa → ℕ → Made Gpa
grown memory g size = checked (grow memory g size 0)

-- `vARPSendRequest`: the packet that goes out. The copies that are grown to one length are not
-- what the packet is made of.
unfoldable pub send_request : SendMemory → (stale : List ℕ) → Gpa → Gpa → Gha → Made (List ℕ)
send_request memory stale tpa spa sha = do
  dup_spa ← dup_gpa memory.spa_struct memory.spa_bytes spa false 0
  dup_tpa ← dup_gpa memory.tpa_struct memory.tpa_bytes tpa false 0
  grown_spa ← grown memory.grow_spa dup_spa (max spa.ux_length tpa.ux_length)
  grown_tpa ← grown memory.grow_tpa dup_tpa (max spa.ux_length tpa.ux_length)
  packet ← get_request memory.packet stale sha spa tpa arp_request
  if memory.eth_header then made packet else null

-- `xARPResolveGPA`
abbrev pub resolve_gpa : SendMemory → (stale : List ℕ) → Gpa → Gpa → Gha → Made (List ℕ)
resolve_gpa memory stale tpa spa sha =
    if not (is_gpa_ok (some tpa)) || (not (is_gha_ok (some sha)) || not (is_gpa_ok (some spa)))
    then null
    else send_request memory stale tpa spa sha

-- `xARPAddApplication`, `xARPRemoveApplication` and `pxARPLookupGHA`
abbrev pub add_application : ArpCache.Memory → ArpCache → Gpa → Gha → Handle × ArpCache
add_application memory c pa ha = add memory c pa ha

abbrev pub remove_application : ArpCache → Option Gpa → Bool × ArpCache
remove_application c pa = remove c pa

abbrev pub arp_lookup_gha : ArpCache → Option Gpa → Option Gha
arp_lookup_gha c pa = lookup_gha c pa
