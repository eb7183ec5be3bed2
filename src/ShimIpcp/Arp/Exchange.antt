-- ===== src/ShimIpcp/Arp/Exchange.antt =====
-- components/ShimIPCP/ARP826.c: the request that goes out, and the answer to a request.
use rinasense.Base.{
  ℕ, ◌^◌, ◌+◌, ◌≤◌, ◌<◌, ◌≡◌, ◌≢◌, ◌↔◌, refl, ap, ◌∙◌, sym, true, false, List, [], ◌++◌, ltb,
  length, take, drop, arith, Bool-cases, inl, inr, append-nil, length-append, length-take, take_all,
  drop_all,
}
use rinasense.Common.Gpha.{Gpa, Gha, made, fault, bytes, mac_length, IsValid, IsGha}
use rinasense.Common.Gpha.Compare.{useful}
use rinasense.ShimIpcp.Arp.{
  ArpPacketData, pa_length, extract_request_data, get_request, request_bytes, request_size,
  address_bytes, broadcast, arp_header, arp_request,
}
use rinasense.ShimIpcp.Arp.Request.{extract-parts}

pub length-address_bytes :
    (g : Gpa) → g.ux_length ≤ length (bytes g) → length (address_bytes g) ≡ g.ux_length
length-address_bytes g h = omega (arith, h, length-take g.ux_length (bytes g))

length-request_bytes :
    (sha : Gha) (spa tpa : Gpa) (operation : List ℕ)
    → IsGha sha
    → IsValid spa
    → IsValid tpa
    → length operation ≡ 2
    → length (request_bytes sha spa tpa operation) ≡ 20 + (spa.ux_length + tpa.ux_length)
length-request_bytes sha spa tpa operation vh vs vt o = omega (
  arith,
  o,
  length-append operation
      (take mac_length sha.uc_bytes ++ (address_bytes spa ++ (broadcast ++ address_bytes tpa))),
  length-append (take mac_length sha.uc_bytes)
      (address_bytes spa ++ (broadcast ++ address_bytes tpa)),
  length-take mac_length sha.uc_bytes,
  vh.size,
  length-append (address_bytes spa) (broadcast ++ address_bytes tpa),
  length-address_bytes spa vs.room,
  length-address_bytes tpa vt.room,
)

-- `prvARPGetRequest` of usable addresses writes past the end of its packet exactly when the target
-- address is longer than the source address.
pub get_request-fault_iff :
    (stale : List ℕ) (sha : Gha) (spa tpa : Gpa)
    → IsGha sha
    → IsValid spa
    → IsValid tpa
    → (get_request true stale sha spa tpa arp_request ≡ fault) ↔ (spa.ux_length < tpa.ux_length)
unfolding get_request
get_request-fault_iff stale sha spa tpa vh vs vt =
    let size = length-request_bytes sha spa tpa arp_request vh vs vt refl in
    elim (Bool-cases (ltb (request_size spa) (length (request_bytes sha spa tpa arp_request)))) [
      | inl e ↦
          let longer : spa.ux_length < tpa.ux_length = ground (arith, e, size) in
          ((λ f. longer), (λ l. rw (get_request, e) refl))
      | inr e ↦ (
        (λ f. absurd (cc (sym (get_request-made e) ∙ f))),
        (λ l. absurd (ground (arith, e, size, l))),
      )
    ]
  where
    get_request-made :
        ltb (request_size spa) (length (request_bytes sha spa tpa arp_request)) ≡ false
        → get_request true stale sha spa tpa arp_request
          ≡ made (
              request_bytes sha spa tpa arp_request
              ++ drop
                  (length (request_bytes sha spa tpa arp_request))
                  (take (request_size spa) stale))
    get_request-made e = rw (get_request, e) refl

-- `prvARPGetRequest` of usable addresses of one length, below 256, taken apart by `prvARPExtractRequestData`,
-- gives what it was made of: the addresses up to their filler and the hardware address.
pub get_request-extract :
    (stale : List ℕ) (sha : Gha) (spa tpa : Gpa)
    → IsGha sha
    → IsValid spa
    → IsValid tpa
    → spa.ux_length ≡ tpa.ux_length
    → spa.ux_length ≢ 0
    → spa.ux_length < 2 ^ 8
    → (packet : List ℕ) × ((get_request true stale sha spa tpa arp_request ≡ made packet)
        × ((d : ArpPacketData) × ((extract_request_data true packet ≡ made d)
              × (((useful d.px_spa ≡ useful spa) × (useful d.px_tpa ≡ useful tpa))
                  × (d.px_sha.uc_bytes ≡ sha.uc_bytes)))))
unfolding get_request useful pa_length
get_request-extract stale sha spa tpa vh vs vt same nz byte =
    let packet : List ℕ = request_bytes sha spa tpa arp_request in
    let size = length-request_bytes sha spa tpa arp_request vh vs vt refl in
    let fits : ltb (request_size spa) (length packet) ≡ false = ground (arith, same, size) in
    let full : drop (length packet) (take (request_size spa) stale) ≡ [] =
      drop_all (length packet) (take (request_size spa) stale)
        (omega (arith, same, size, length-take (request_size spa) stale)) in
    let whole : take mac_length sha.uc_bytes ≡ sha.uc_bytes =
      take_all mac_length sha.uc_bytes (omega (arith, vh.size)) in
    let (d, (e, ((rs, rt), (hs, ht)))) =
      extract-parts packet (arp_header spa.ux_length arp_request) (take mac_length sha.uc_bytes)
        (address_bytes spa) broadcast (address_bytes tpa) spa.ux_length
        (record {
          parts = refl;
          header_size = refl;
          pal_field = ap (λ (k : ℕ). made k) (omega (arith, byte));
          sha_size = omega (arith, length-take mac_length sha.uc_bytes, vh.size);
          spa_size = length-address_bytes spa vs.room;
          tha_size = refl;
          tpa_size = length-address_bytes tpa vt.room ∙ sym same;
        })
        nz in
    (
      packet,
      (
        rw (get_request, fits) (ap made (ap (λ t. packet ++ t) full ∙ append-nil packet)),
        (d, (e, ((rs.says, rt.says), ap (λ h. h.uc_bytes) hs ∙ whole))),
      ),
    )
