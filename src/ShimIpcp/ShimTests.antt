-- ===== src/ShimIpcp/ShimTests.antt =====
-- The theorems about components/ShimIPCP/ShimIPCP.c at concrete inputs.
use rinasense.Base.{
  ℕ, ◌<◌, replicate, ◌≤◌, ◌≡◌, ◌≢◌, ◌↔◌, refl, Bool, true, false, Option, none, some, List, [], ◌∷◌,
  ◌++◌, arith, length,
}
use rinasense.Common.BitArray.{get_bit, set_bit}
use rinasense.Common.NumMgr
use rinasense.Common.NumMgr.{NumMgr, is_allocated}
use rinasense.Common.Gpha.{
  Gpa, Gha, Made, made, null, mac_length, gha_cmp, gpa_cmp, mem_eq, is_gpa_ok, create_gha,
  create_gpa, actual_length,
}
use rinasense.Common.Gpha
use rinasense.Common.RinaName.{Name, to_string}
use rinasense.Common.RinaName.Address.{name_to_gpa, str_len}
use rinasense.ShimIpcp.ArpCache.{ArpCache, zero_row, lookup_gha, find_gha, clear}
use rinasense.ShimIpcp.ArpCache
use rinasense.ShimIpcp.ArpCache.Add.{all_memory}
use rinasense.ShimIpcp.ArpCache.Room.{free_rows}
use rinasense.ShimIpcp.Shim.{
  Shim, shim_create, max_flows, mtu, eth_p_rina, rx_event, frame_out, ended, shim_fault,
  find_by_gha, find_by_port, reserve_port, WriteMemory, sdu_write, flow_allocate_response,
  flow_deallocate,
}
use rinasense.ShimIpcp.Shim.Frames.{
  World, handled, crashed, FrameMemory, source_gha, new_flow, bind_new_flow, handle_rina_frame,
  handle_ethernet_packet,
}
use rinasense.ShimIpcp.Shim.Applications.{application_register}
use rinasense.ShimIpcp.Shim.Sound.{IsSound, with_flow}
use rinasense.ShimIpcp.Shim.Received.{mac_of}
use rinasense.ShimIpcp.Shim.Conversation.{
  all_write_memory, sdu_write-handle_rina_frame, handle_rina_frame-same_port,
  handle_rina_frame-other_port, handle_rina_frame-crashes_iff,
}
use rinasense.ShimIpcp.Shim.Wire.{sdu_write-handle_ethernet_packet}
use rinasense.ShimIpcp.Shim.Gone.{flow_deallocate-dangling}
use rinasense.ShimIpcp.Shim.Refused.{response-refused}
use rinasense.ShimIpcp.Shim.Steps.{here, next, reserves, Reach-IsSound}
use rinasense.ShimIpcp.Shim.Registered.{
  all_register_memory, application_register-found, application_register-full_crashes,
}

abbrev own_mac : List ℕ
own_mac = 2 ∷ (0 ∷ (0 ∷ (0 ∷ (0 ∷ (1 ∷ [])))))

abbrev first_mac : List ℕ
first_mac = 2 ∷ (0 ∷ (0 ∷ (0 ∷ (0 ∷ (2 ∷ [])))))

abbrev second_mac : List ℕ
second_mac = 2 ∷ (0 ∷ (0 ∷ (0 ∷ (0 ∷ (3 ∷ [])))))

-- Three ports, of which `taken` are in use.
abbrev three_ports : ℕ → ℕ → NumMgr
three_ports last taken = record {
  num_cnt = 4;
  last_allocated = last;
  ba = record { nbbits = 4; units = taken ∷ [] };
}

three_ports-IsValid : NumMgr.IsValid (three_ports 1 2)
three_ports-IsValid = record {
  array = omega arith;
  bits = refl;
  some_number = omega arith;
  small = omega arith;
  last = omega arith;
  fresh = λ e. absurd (omega arith);
}

abbrev two_free_rows : ArpCache
two_free_rows = record { e_type = 0; px_rows = zero_row ∷ (zero_row ∷ []) }

abbrev started : World
started = record { shim = shim_create two_free_rows own_mac; ports = three_ports 1 2 }

started-IsSound : IsSound started
started-IsSound =
    Reach-IsSound two_free_rows own_mac (three_ports 1 2) started three_ports-IsValid here

Reach-IsSound_example : IsSound (record started { ports = three_ports 2 6 })
unfolding reserve_port NumMgr.allocate get_bit set_bit
Reach-IsSound_example =
    Reach-IsSound two_free_rows own_mac (three_ports 1 2)
      (record started { ports = three_ports 2 6 }) three_ports-IsValid
      (next here (reserves started 4 2 (three_ports 2 6) refl))

response-refused_example : flow_allocate_response started.shim 7 ≡ ended false started.shim []
response-refused_example = response-refused started 7 started-IsSound (omega arith)

abbrev frame_memory : FrameMemory
frame_memory = record { address = true; flow = true; split = true; arp = true; cache = all_memory }

abbrev always : ℕ → Bool
always port = true

abbrev after_first : World
after_first = with_flow started 2 (three_ports 2 6) (some (mac_of first_mac))

abbrev after_second : World
after_second = with_flow after_first 3 (three_ports 3 14) (some (mac_of second_mac))

first_frame :
    handle_rina_frame frame_memory 4 always started first_mac (some (7 ∷ []))
    ≡ handled after_first (rx_event 2 (some (7 ∷ [])) ∷ [])
unfolding handle_rina_frame find_by_gha bind_new_flow reserve_port NumMgr.allocate get_bit set_bit
    create_gha gha_cmp mem_eq
first_frame = refl

second_frame :
    handle_rina_frame frame_memory 4 always after_first second_mac (some (8 ∷ []))
    ≡ handled after_second (rx_event 3 (some (8 ∷ [])) ∷ [])
unfolding handle_rina_frame find_by_gha bind_new_flow reserve_port NumMgr.allocate get_bit set_bit
    create_gha gha_cmp mem_eq
second_frame = refl

sdu_write-handle_rina_frame_example :
    (p : ℕ) × (((rx_event 2 (some (7 ∷ [])) ∷ []) ≡ (rx_event p (some (7 ∷ [])) ∷ []))
      × (sdu_write all_write_memory true after_first.shim p (9 ∷ [])
          ≡ ended true after_first.shim
              (frame_out (first_mac ++ (own_mac ++ (eth_p_rina ++ (9 ∷ [])))) ∷ [])))
sdu_write-handle_rina_frame_example =
    sdu_write-handle_rina_frame frame_memory 4 always refl refl (λ p. refl) true started after_first
      first_mac (some (7 ∷ [])) (rx_event 2 (some (7 ∷ [])) ∷ []) (9 ∷ []) started-IsSound refl refl
      (omega arith) first_frame

handle_rina_frame-same_port_example :
    (p : ℕ) × (((rx_event 2 (some (7 ∷ [])) ∷ []) ≡ (rx_event p (some (7 ∷ [])) ∷ []))
      × (handle_rina_frame frame_memory 4 always after_first first_mac (some (9 ∷ []))
          ≡ handled after_first (rx_event p (some (9 ∷ [])) ∷ [])))
handle_rina_frame-same_port_example =
    handle_rina_frame-same_port frame_memory 4 always refl refl (λ p. refl) started after_first
      first_mac (some (7 ∷ [])) (some (9 ∷ [])) (rx_event 2 (some (7 ∷ [])) ∷ []) started-IsSound
      refl first_frame

handle_rina_frame-other_port_example :
    (p1 : ℕ) × ((p2 : ℕ) × (((rx_event 2 (some (7 ∷ [])) ∷ []) ≡ (rx_event p1 (some (7 ∷ [])) ∷ []))
        × (((rx_event 3 (some (8 ∷ [])) ∷ []) ≡ (rx_event p2 (some (8 ∷ [])) ∷ [])) × (p1 ≢ p2))))
handle_rina_frame-other_port_example =
    handle_rina_frame-other_port frame_memory 4 always refl refl (λ p. refl) started after_first
      after_second first_mac second_mac (some (7 ∷ [])) (some (8 ∷ []))
      (rx_event 2 (some (7 ∷ [])) ∷ []) (rx_event 3 (some (8 ∷ [])) ∷ []) started-IsSound refl refl
      (λ e. absurd (ground (arith, e))) first_frame second_frame

-- The ports 1 .. 299, of which those below 256 are in use.
abbrev low_ports_taken : NumMgr
low_ports_taken = record {
  num_cnt = 300;
  last_allocated = 250;
  ba = record { nbbits = 300; units = replicate 8 4294967295 ++ (0 ∷ (0 ∷ [])) };
}

low_ports_taken-IsValid : NumMgr.IsValid low_ports_taken
low_ports_taken-IsValid = record {
  array = omega arith;
  bits = refl;
  some_number = omega arith;
  small = omega arith;
  last = omega arith;
  fresh = λ e. absurd (omega arith);
}

abbrev crowded : World
crowded = record { shim = shim_create two_free_rows own_mac; ports = low_ports_taken }

handle_rina_frame-crashes_iff_example :
    (handle_rina_frame frame_memory 300 always crowded first_mac none ≡ crashed)
    ↔ ((n : ℕ) → 250 < n → n < max_flows → is_allocated low_ports_taken n ≡ true)
unfolding find_by_gha is_allocated get_bit
handle_rina_frame-crashes_iff_example =
    handle_rina_frame-crashes_iff frame_memory always crowded first_mac none 256 refl refl
      (Reach-IsSound two_free_rows own_mac low_ports_taken crowded low_ports_taken-IsValid here)
      refl (omega arith) (omega arith) refl

-- The frame of that world is one that crashes.
crowded_crashes : handle_rina_frame frame_memory 300 always crowded first_mac none ≡ crashed
unfolding handle_rina_frame find_by_gha bind_new_flow reserve_port NumMgr.allocate get_bit set_bit
    create_gha gha_cmp mem_eq
crowded_crashes = refl

flow_deallocate-dangling_example :
    (s : Shim) × ((flow_deallocate after_first.shim 2 ≡ ended false s [])
      × (((flow_deallocate s 2 ≡ shim_fault) × (flow_allocate_response s 2 ≡ shim_fault))
          × (((memory : WriteMemory) (output : Bool) (du : List ℕ)
                → length du ≤ mtu
                → sdu_write memory output s 2 du ≡ shim_fault)
              × ((memory : FrameMemory) (fuel : ℕ) (bind : ℕ → Bool) (source : List ℕ)
                    (du : Option (List ℕ))
                  → find_by_gha (source_gha memory.address source) after_first.shim.flows ≡ null
                  → handle_rina_frame memory fuel bind (record after_first { shim = s }) source du
                    ≡ crashed))))
unfolding find_by_port
flow_deallocate-dangling_example =
    flow_deallocate-dangling after_first 2 (new_flow 2 (some (mac_of first_mac))) refl

abbrev app_name : Name
app_name = record {
  post_ln = 1;
  process_name = 65 ∷ [];
  process_instance = [];
  entity_name = [];
  entity_instance = [];
  block = 65 ∷ (0 ∷ []);
  owned = true;
}

abbrev daf_name : Name
daf_name = record app_name { process_name = 66 ∷ []; block = 66 ∷ (0 ∷ []) }

abbrev letter : ℕ → Gpa
letter c = record { puc_address = some (c ∷ (0 ∷ (0 ∷ []))); ux_length = 2 }

letter-IsValid : (c : ℕ) → Gpha.IsValid (letter c)
unfolding is_gpa_ok
letter-IsValid c = record { usable = refl; room = omega arith }

application_register-found_example :
    (s' : Shim) × ((application_register all_register_memory started.shim app_name daf_name
        ≡ ended true s' [])
      × (ArpCache.IsValid s'.arp
          × ((lookup_gha s'.arp (some (letter 65)) ≡ some (mac_of own_mac))
              × ((lookup_gha s'.arp (some (letter 66)) ≡ some (mac_of own_mac))
                  × ((q : Gpa)
                      → Gpha.IsValid q
                      → gpa_cmp (some (letter 65)) (some q) ≡ false
                      → gpa_cmp (some (letter 66)) (some q) ≡ false
                      → lookup_gha s'.arp (some q) ≡ lookup_gha two_free_rows (some q))))))
unfolding name_to_gpa to_string str_len create_gpa is_gpa_ok lookup_gha find_gha gpa_cmp
    actual_length mem_eq free_rows
application_register-found_example =
    application_register-found started.shim app_name daf_name (letter 65) (letter 66) refl refl refl
      (clear, (clear, tt)) (omega arith) (letter-IsValid 65)
      (0, omega arith, λ e. absurd (omega (arith, e))) (letter-IsValid 66)
      (0, omega arith, λ e. absurd (omega (arith, e))) refl refl refl

sdu_write-handle_ethernet_packet_example :
    (frame : List ℕ) × ((sdu_write all_write_memory true after_first.shim 2 (9 ∷ [])
        ≡ ended true after_first.shim (frame_out frame ∷ []))
      × ((memory : FrameMemory) (fuel : ℕ) (bind : ℕ → Bool) (w : World)
          → memory.split ≡ true
          → handle_ethernet_packet memory fuel bind w frame
            ≡ handle_rina_frame memory fuel bind w own_mac (some (9 ∷ []))))
sdu_write-handle_ethernet_packet_example =
    sdu_write-handle_ethernet_packet true after_first.shim 2 (new_flow 2 (some (mac_of first_mac)))
      (mac_of first_mac) 9 [] refl refl refl refl refl (omega arith)

-- The shim with a cache that has no row.
abbrev full_shim : Shim
full_shim = shim_create (record { e_type = 0; px_rows = [] }) own_mac

application_register-full_crashes_example :
    application_register all_register_memory full_shim app_name daf_name ≡ shim_fault
unfolding name_to_gpa to_string str_len create_gpa is_gpa_ok
application_register-full_crashes_example =
    application_register-full_crashes full_shim app_name daf_name (letter 65) (letter 66) refl refl
      refl tt refl (letter-IsValid 65) (0, omega arith, λ e. absurd (omega (arith, e)))
