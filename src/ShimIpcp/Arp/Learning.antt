-- ===== src/ShimIpcp/Arp/Learning.antt =====
-- components/ShimIPCP/ARP826.c: what a reply teaches the cache.
use rinasense.Base.{ℕ, ◌≡◌, refl, ap, ◌∙◌, Bool, true, false, none, some, List, ltb, length, arith}
use rinasense.Common.Gpha.{Gpa, Gha, IsGha, Made, made, null, fault, gpa_cmp, mac_length}
use rinasense.Common.Gpha
use rinasense.Common.Gpha.Compare.{gpa_cmp_iff}
use rinasense.ShimIpcp.ArpCache.{ArpCache, handle_true, add, lookup_gha}
use rinasense.ShimIpcp.ArpCache
use rinasense.ShimIpcp.ArpCache.Add.{all_memory, has_room, NotBlank, add-Stored}
use rinasense.ShimIpcp.Arp.{ArpPacketData, extract_request_data, arp_reply}
use rinasense.ShimIpcp.Arp.Answer.{header_of, packet_of}
use rinasense.ShimIpcp.Arp.Process.{release_buffer, process_reply, process_packet}

process_packet-reply :
    (memory : Bool) (c : ArpCache) (p0 p1 pal : ℕ) (sha spa tha tpa eth_source : List ℕ)
    (d : ArpPacketData)
    → extract_request_data memory (packet_of (header_of p0 p1 pal arp_reply) sha spa tha tpa)
      ≡ made d
    → process_packet memory all_memory c eth_source
        (packet_of (header_of p0 p1 pal arp_reply) sha spa tha tpa)
      ≡ release_buffer (add all_memory c d.px_tpa d.px_tha).1
unfolding process_packet process_reply
process_packet-reply memory c p0 p1 pal sha spa tha tpa eth_source d e =
    let long : ltb (length (packet_of (header_of p0 p1 pal arp_reply) sha spa tha tpa)) 8 ≡ false =
      ground arith in
    rw (process_packet, long, e) refl

-- `eARPProcessPacket` of a reply between two usable addresses that compare differently, the target's
-- not blank, on a valid cache with a free row that has neither address. The cache learns the target of the reply, which is
-- the node that asked: it finds its hardware address. It finds what it found before for every usable
-- address that compares differently, and nothing for the source of the reply, which was asked for.
pub process_packet-learned :
    (c : ArpCache) (p0 p1 pal : ℕ) (sha spa tha tpa eth_source : List ℕ) (d : ArpPacketData)
    → ArpCache.IsValid c
    → has_room c.px_rows ≡ true
    → extract_request_data true (packet_of (header_of p0 p1 pal arp_reply) sha spa tha tpa) ≡ made d
    → Gpha.IsValid d.px_tpa
    → NotBlank d.px_tpa
    → IsGha d.px_tha
    → Gpha.IsValid d.px_spa
    → gpa_cmp (some d.px_tpa) (some d.px_spa) ≡ false
    → lookup_gha c (some d.px_tpa) ≡ none
    → lookup_gha c (some d.px_spa) ≡ none
    → (c1 : ArpCache) × ((process_packet true all_memory c eth_source
            (packet_of (header_of p0 p1 pal arp_reply) sha spa tha tpa)
          ≡ release_buffer c1)
        × ((lookup_gha c1 (some d.px_tpa) ≡ some d.px_tha)
            × ((lookup_gha c1 (some d.px_spa) ≡ none)
                × ((q : Gpa)
                    → Gpha.IsValid q
                    → gpa_cmp (some d.px_tpa) (some q) ≡ false
                    → lookup_gha c1 (some q) ≡ lookup_gha c (some q)))))
process_packet-learned c p0 p1 pal sha spa tha tpa eth d vc room e vt nb vh vs ne unknown miss =
    let (c1, added, _, _, _, other, new) = add-Stored c d.px_tpa d.px_tha vc vt vh nb room in
    (
      c1,
      (
        process_packet-reply true c p0 p1 pal sha spa tha tpa eth d e
            ∙ ap (λ r. release_buffer r.1) added,
        (
          new d.px_tpa vt ((gpa_cmp_iff d.px_tpa d.px_tpa vt vt).1 refl) unknown,
          (other d.px_spa vs ne ∙ miss, other),
        ),
      ),
    )
