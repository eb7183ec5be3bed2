-- ===== src/ShimIpcp/Arp/Answer.antt =====
-- components/ShimIPCP/ARP826.c: the answer to a request that comes in.
use rinasense.Base.{
  ℕ, ◌-◌, ◌≡◌, ◌≢◌, refl, ap, ◌∙◌, sym, subst, true, false, some, List, [], ◌∷◌, ◌++◌, ltb, length,
  take, replicate, arith, length-append, length-replicate, take_all,
}
use rinasense.Common.Gpha.{Gpa, Gha, Made, made, null, fault, mac_length}
use rinasense.Common.Gpha.Bytes.{until_zero, until_zero-append_zeros}
use rinasense.Common.Gpha.Compare.{useful}
use rinasense.ShimIpcp.ArpCache.{ArpCache, LookupResult, cache_hit, lookup_gpa}
use rinasense.ShimIpcp.ArpCache
use rinasense.ShimIpcp.Arp.{
  ArpPacketData, pa_length, extract_request_data, address_bytes, arp_request, arp_reply,
  get_response, padded_address,
}
use rinasense.ShimIpcp.Arp.Layout.{slice-at}
use rinasense.ShimIpcp.Arp.Request.{IsRead, IsPacket, extract-parts, >>=-made}
use rinasense.ShimIpcp.Arp.Exchange.{length-address_bytes}
use rinasense.ShimIpcp.Arp.Process.{return_frame, process_request, process_packet}

-- The static header of an Ethernet packet for some protocol.
abbrev pub header_of : (p0 p1 pal : ℕ) → List ℕ → List ℕ
header_of p0 p1 pal operation = 0 ∷ (1 ∷ (p0 ∷ (p1 ∷ (mac_length ∷ (pal ∷ operation)))))

abbrev pub packet_of : (header sha spa tha tpa : List ℕ) → List ℕ
packet_of header sha spa tha tpa = header ++ (sha ++ (spa ++ (tha ++ tpa)))

packet_of-IsPacket :
    (p0 p1 pal o1 : ℕ) (sha spa tha tpa : List ℕ)
    → length sha ≡ mac_length
    → length spa ≡ pal
    → length tha ≡ mac_length
    → length tpa ≡ pal
    → IsPacket
        (packet_of (header_of p0 p1 pal (0 ∷ (o1 ∷ []))) sha spa tha tpa)
        (header_of p0 p1 pal (0 ∷ (o1 ∷ [])))
        sha
        spa
        tha
        tpa
        pal
unfolding pa_length
packet_of-IsPacket p0 p1 pal o1 sha spa tha tpa h1 h2 h3 h4 = record {
  parts = refl;
  header_size = refl;
  pal_field = refl;
  sha_size = h1;
  spa_size = h2;
  tha_size = h3;
  tpa_size = h4;
}

length-padded_address :
    (pal : ℕ) (b : List ℕ) (g : Gpa)
    → IsRead b g
    → length b ≡ pal
    → length (padded_address pal g) ≡ pal
length-padded_address pal b g r e = omega (
  arith,
  e,
  r.fits,
  length-append (address_bytes g) (replicate (pal - g.ux_length) 0),
  length-address_bytes g r.room,
  length-replicate {A = ℕ} (pal - g.ux_length) 0,
)

padded_address-useful : (pal : ℕ) (g : Gpa) → until_zero (padded_address pal g) ≡ useful g
unfolding useful
padded_address-useful pal g = until_zero-append_zeros (address_bytes g) (pal - g.ux_length)

module _ (p0 p1 pal : ℕ) (sha spa tha tpa eth_source : List ℕ) (found : Gha) where
  abbrev asked : List ℕ
  asked = packet_of (header_of p0 p1 pal arp_request) sha spa tha tpa

  abbrev answer : ArpPacketData → List ℕ
  answer d =
      packet_of (header_of p0 p1 pal arp_reply) (take mac_length found.uc_bytes)
        (padded_address pal d.px_tpa) (take mac_length eth_source) (padded_address pal d.px_spa)

  get_response-answer :
      (d : ArpPacketData) → get_response true asked d eth_source found ≡ made (answer d)
  unfolding get_response pa_length
  get_response-answer d =
      >>=-made _
        (slice-at asked [] (0 ∷ (1 ∷ (p0 ∷ (p1 ∷ (mac_length ∷ (pal ∷ []))))))
          (arp_request ++ (sha ++ (spa ++ (tha ++ tpa)))) 0 6 refl refl refl)
        refl

  process_packet-answer :
      (memory : ArpCache.Memory) (c : ArpCache) (d : ArpPacketData)
      → extract_request_data true asked ≡ made d
      → lookup_gpa c (some d.px_tpa) ≡ (cache_hit, some found)
      → process_packet true memory c eth_source asked ≡ return_frame (some (answer d)) c
  unfolding process_packet process_request
  process_packet-answer memory c d e hit =
      let long : ltb (length asked) 8 ≡ false = ground arith in
      rw (process_packet, long, e, process_request, hit, hit, get_response-answer d) refl

-- `eARPProcessPacket` of a request for an address that the cache has: the frame goes back with an
-- answer whose parts are those of the request, exchanged. Its source is the address that was asked
-- for, with the hardware address that was found; its target is the source of the request, with the
-- address the frame came from.
pub process_packet-exchanged :
    (memory : ArpCache.Memory) (c : ArpCache) (p0 p1 pal : ℕ) (sha spa tha tpa eth_source : List ℕ)
    (found : Gha) (d : ArpPacketData)
    → length sha ≡ mac_length
    → length spa ≡ pal
    → length tha ≡ mac_length
    → length tpa ≡ pal
    → length eth_source ≡ mac_length
    → length found.uc_bytes ≡ mac_length
    → pal ≢ 0
    → extract_request_data true (packet_of (header_of p0 p1 pal arp_request) sha spa tha tpa)
      ≡ made d
    → lookup_gpa c (some d.px_tpa) ≡ (cache_hit, some found)
    → (reply : List ℕ) × ((process_packet true memory c eth_source
            (packet_of (header_of p0 p1 pal arp_request) sha spa tha tpa)
          ≡ return_frame (some reply) c)
        × ((r : ArpPacketData) × ((extract_request_data true reply ≡ made r)
              × (((useful r.px_spa ≡ useful d.px_tpa) × (useful r.px_tpa ≡ useful d.px_spa))
                  × ((r.px_sha.uc_bytes ≡ found.uc_bytes) × (r.px_tha.uc_bytes ≡ eth_source))))))
process_packet-exchanged memory c p0 p1 pal sha spa tha tpa eth found d h1 h2 h3 h4 h5 h6 nz e hit =
    let reply : List ℕ = answer p0 p1 pal sha spa tha tpa eth found d in
    let asked_parts = packet_of-IsPacket p0 p1 pal 1 sha spa tha tpa h1 h2 h3 h4 in
    let (d1, (e1, ((rs, rt), hw))) =
      extract-parts (packet_of (header_of p0 p1 pal arp_request) sha spa tha tpa)
        (header_of p0 p1 pal arp_request) sha spa tha tpa pal asked_parts nz in
    let same : d1 ≡ d = made-injective d1 d (sym e1 ∙ e) in
    let read_spa : IsRead spa d.px_spa = subst (λ k. IsRead spa k.px_spa) same rs in
    let read_tpa : IsRead tpa d.px_tpa = subst (λ k. IsRead tpa k.px_tpa) same rt in
    let found_whole : take mac_length found.uc_bytes ≡ found.uc_bytes =
      take_all mac_length found.uc_bytes (omega (arith, h6)) in
    let eth_whole : take mac_length eth ≡ eth = take_all mac_length eth (omega (arith, h5)) in
    let (r, (er, ((qs, qt), (hs, ht)))) =
      extract-parts reply (header_of p0 p1 pal arp_reply) (take mac_length found.uc_bytes)
        (padded_address pal d.px_tpa) (take mac_length eth) (padded_address pal d.px_spa) pal
        (packet_of-IsPacket p0 p1 pal 2 (take mac_length found.uc_bytes)
          (padded_address pal d.px_tpa) (take mac_length eth) (padded_address pal d.px_spa)
          (ap length found_whole ∙ h6) (length-padded_address pal tpa d.px_tpa read_tpa h4)
          (ap length eth_whole ∙ h5) (length-padded_address pal spa d.px_spa read_spa h2))
        nz in
    (
      reply,
      (
        process_packet-answer p0 p1 pal sha spa tha tpa eth found memory c d e hit,
        (
          r,
          (
            er,
            (
              (
                qs.says ∙ padded_address-useful pal d.px_tpa,
                qt.says ∙ padded_address-useful pal d.px_spa,
              ),
              (ap (λ h. h.uc_bytes) hs ∙ found_whole, ap (λ h. h.uc_bytes) ht ∙ eth_whole),
            ),
          ),
        ),
      ),
    )
  where
    value : ArpPacketData → Made ArpPacketData → ArpPacketData
    value d (made a) = a
    value d null = d
    value d fault = d

    made-injective : (a b : ArpPacketData) → made a ≡ made b → a ≡ b
    made-injective a b e = ap (value a) e
