-- ===== src/ShimIpcp/ArpTests.antt =====
-- The theorems about components/ShimIPCP/ARP826.c at concrete inputs.
use rinasense.Base.{ℕ, ◌<◌, ◌≡◌, ◌↔◌, refl, true, false, none, some, List, [], ◌∷◌, ◌++◌, arith}
use rinasense.Common.Gpha.{
  Gpa, Gha, IsGha, Made, made, null, fault, mac_length, gpa_cmp, is_gpa_ok, create_gpa, create_gha,
  shrink, mem_chr, mem_eq, actual_length,
}
use rinasense.Common.Gpha
use rinasense.Common.Gpha.Compare.{useful}
use rinasense.ShimIpcp.ArpCache.{
  ArpCache, zero_row, lookup_gpa, lookup_gha, lookup_rows, find_gha, clear,
}
use rinasense.ShimIpcp.ArpCache.Add.{all_memory}
use rinasense.ShimIpcp.Arp.{
  ArpPacketData, slice, pa_length, extract_request_data, get_request, arp_request, arp_reply,
}
use rinasense.ShimIpcp.Arp.Exchange.{get_request-extract, get_request-fault_iff}
use rinasense.ShimIpcp.Arp.Answer.{header_of, packet_of, process_packet-exchanged}
use rinasense.ShimIpcp.Arp.Learning.{process_packet-learned}
use rinasense.ShimIpcp.Arp.Process.{process_packet, return_frame, release_buffer}

abbrev here_name : List ℕ
here_name = 65 ∷ (66 ∷ [])

abbrev there_name : List ℕ
there_name = 67 ∷ (68 ∷ [])

abbrev here_mac : List ℕ
here_mac = 2 ∷ (0 ∷ (0 ∷ (0 ∷ (0 ∷ (1 ∷ [])))))

abbrev there_mac : List ℕ
there_mac = 2 ∷ (0 ∷ (0 ∷ (0 ∷ (0 ∷ (2 ∷ [])))))

abbrev address : List ℕ → Gpa
address b = record { puc_address = some (b ++ (0 ∷ [])); ux_length = 2 }

abbrev hardware : List ℕ → Gha
hardware b = record { x_type = 0; uc_bytes = b }

hardware-IsGha : IsGha (hardware here_mac)
hardware-IsGha = record { ethernet = refl; size = refl }

here-IsValid : Gpha.IsValid (address here_name)
unfolding is_gpa_ok
here-IsValid = record { usable = refl; room = omega arith }

there-IsValid : Gpha.IsValid (address there_name)
unfolding is_gpa_ok
there-IsValid = record { usable = refl; room = omega arith }

get_request-extract_example :
    (packet : List ℕ) × ((get_request true []
          (hardware here_mac)
          (address here_name)
          (address there_name)
          arp_request
        ≡ made packet)
      × ((d : ArpPacketData) × ((extract_request_data true packet ≡ made d)
            × (((useful d.px_spa ≡ useful (address here_name))
                  × (useful d.px_tpa ≡ useful (address there_name)))
                × (d.px_sha.uc_bytes ≡ here_mac)))))
get_request-extract_example =
    get_request-extract [] (hardware here_mac) (address here_name) (address there_name)
      hardware-IsGha here-IsValid there-IsValid refl (λ e. absurd (omega (arith, e))) (omega arith)

abbrev short_address : Gpa
short_address = record { puc_address = some (65 ∷ []); ux_length = 1 }

short-IsValid : Gpha.IsValid short_address
unfolding is_gpa_ok
short-IsValid = record { usable = refl; room = omega arith }

get_request-fault_iff_example :
    (get_request true [] (hardware here_mac) short_address (address there_name) arp_request ≡ fault)
    ↔ (1 < 2)
get_request-fault_iff_example =
    get_request-fault_iff [] (hardware here_mac) short_address (address there_name) hardware-IsGha
      short-IsValid there-IsValid

-- What the packets say.
abbrev asked_data : ArpPacketData
asked_data = record {
  px_spa = address here_name;
  px_sha = hardware here_mac;
  px_tpa = address there_name;
  px_tha = hardware there_mac;
}

abbrev replied_data : ArpPacketData
replied_data = record {
  px_spa = address there_name;
  px_sha = hardware there_mac;
  px_tpa = address here_name;
  px_tha = hardware here_mac;
}

-- A cache that has the address asked for, and one that is empty.
abbrev knowing : ArpCache
knowing = record {
  e_type = 0;
  px_rows =
      record {
        px_pa = some (address there_name);
        px_ha = some (hardware there_mac);
        uc_age = 1;
        uc_valid = 1;
      }
      ∷ [];
}

abbrev empty : ArpCache
empty = record { e_type = 0; px_rows = zero_row ∷ [] }

process_packet-exchanged_example :
    (reply : List ℕ) × ((process_packet true all_memory knowing here_mac
          (packet_of (header_of 209 240 2 arp_request) here_mac here_name there_mac there_name)
        ≡ return_frame (some reply) knowing)
      × ((r : ArpPacketData) × ((extract_request_data true reply ≡ made r)
            × (((useful r.px_spa ≡ useful (address there_name))
                  × (useful r.px_tpa ≡ useful (address here_name)))
                × ((r.px_sha.uc_bytes ≡ there_mac) × (r.px_tha.uc_bytes ≡ here_mac))))))
unfolding extract_request_data slice pa_length create_gpa create_gha shrink mem_chr is_gpa_ok
    lookup_gpa lookup_rows gpa_cmp actual_length mem_eq
process_packet-exchanged_example =
    process_packet-exchanged all_memory knowing 209 240 2 here_mac here_name there_mac there_name
      here_mac (hardware there_mac) asked_data refl refl refl refl refl refl
      (λ e. absurd (omega (arith, e))) refl refl

process_packet-learned_example :
    (c1 : ArpCache) × ((process_packet true all_memory empty there_mac
          (packet_of (header_of 209 240 2 arp_reply) there_mac there_name here_mac here_name)
        ≡ release_buffer c1)
      × ((lookup_gha c1 (some (address here_name)) ≡ some (hardware here_mac))
          × ((lookup_gha c1 (some (address there_name)) ≡ none)
              × ((q : Gpa)
                  → Gpha.IsValid q
                  → gpa_cmp (some (address here_name)) (some q) ≡ false
                  → lookup_gha c1 (some q) ≡ lookup_gha empty (some q)))))
unfolding extract_request_data slice pa_length create_gpa create_gha shrink mem_chr is_gpa_ok
    lookup_gha find_gha gpa_cmp actual_length mem_eq
process_packet-learned_example =
    process_packet-learned empty 209 240 2 there_mac there_name here_mac here_name there_mac
      replied_data (clear, tt) refl refl here-IsValid
      (0, omega arith, λ e. absurd (omega (arith, e))) hardware-IsGha there-IsValid refl refl refl
