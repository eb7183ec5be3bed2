-- ===== src/ShimIpcp/Shim/Incoming.antt =====
-- components/ShimIPCP/ShimIPCP.c: every frame that comes in leaves the flows sound.
use rinasense.Base.{
  ℕ, ◌≡◌, refl, subst, Bool, Option, none, some, List, [], ◌∷◌, length, if_both, ltb, take, drop,
  ◌+◌,
}
use rinasense.Common.Gpha.{mac_length}
use rinasense.ShimIpcp.Arp.{arp_header_size}
use rinasense.ShimIpcp.Arp.Process.{
  Processed, release_buffer, return_frame, process_fault, process_packet,
}
use rinasense.ShimIpcp.Shim.{Event}
use rinasense.ShimIpcp.Shim.Frames.{
  World, Handled, handled, crashed, FrameMemory, handle_ethernet_packet, handle_arp_frame,
  arp_handled, frame_type, FrameType, rina_arp_type, rina_type, other_type, eth_header_size,
}
use rinasense.ShimIpcp.Shim.Sound.{IsSound}
use rinasense.ShimIpcp.Shim.Received.{handle_rina_frame-IsSound}
use rinasense.Common.Netbuf.{
  SplitResult, cut, split_oom, split_fail, split, nb_rina_pci, netbuf_new, nb_eth_hdr, next_netbuf,
  Netbuf,
}
use rinasense.ShimIpcp.Shim.Refused.{same_flows-IsSound}

-- What an answered frame leaves is sound.
pub record Sound (h : Handled) : Type 0 where
  pub sound : (w : World) (events : List Event) → h ≡ handled w events → IsSound w

handled-Sound : (w : World) (events : List Event) → IsSound w → Sound (handled w events)
handled-Sound w events v = record {
  sound = λ w' events' e. let same : w ≡ w' = cc e in subst IsSound same v;
}

crashed-Sound : Sound crashed
crashed-Sound = record { sound = λ w' events' e. absurd (cc e) }

arp_handled-Sound :
    (w : World) (header packet : List ℕ) (r : Processed)
    → IsSound w
    → Sound (arp_handled w header packet r)
unfolding arp_handled
arp_handled-Sound w header packet process_fault v = crashed-Sound
arp_handled-Sound w header packet (release_buffer c) v =
    handled-Sound _ _ (same_flows-IsSound w _ v refl)
arp_handled-Sound w header packet (return_frame none c) v =
    handled-Sound _ _ (same_flows-IsSound w _ v refl)
arp_handled-Sound w header packet (return_frame (some answer) c) v =
    handled-Sound _ _ (same_flows-IsSound w _ v refl)

handle_arp_frame-Sound :
    (memory : FrameMemory) (w : World) (header : List ℕ) (n : Option Netbuf)
    → IsSound w
    → Sound (handle_arp_frame memory w header n)
unfolding handle_arp_frame
handle_arp_frame-Sound memory w header none v = crashed-Sound
handle_arp_frame-Sound memory w header (some n) v =
    let packet = take n.size n.buf in
    if_both Sound (ltb n.size arp_header_size) (handled-Sound w [] v) (
      arp_handled-Sound w header packet
        (process_packet memory.arp memory.cache w.shim.arp
          (take mac_length (drop mac_length header)) packet)
        v)

by_type-Sound :
    (t : FrameType) (a b c : Handled)
    → Sound a
    → Sound b
    → Sound c
    → Sound (elim t [ rina_arp_type ↦ a | rina_type ↦ b | other_type ↦ c ])
by_type-Sound rina_arp_type a b c ha hb hc = ha
by_type-Sound rina_type a b c ha hb hc = hb
by_type-Sound other_type a b c ha hb hc = hc

by_split-Sound :
    (r : SplitResult) (o f : Handled) (k : List Netbuf → Handled)
    → Sound o
    → Sound f
    → ((parts : List Netbuf) → Sound (k parts))
    → Sound (elim r [ cut parts ↦ k parts | split_oom ↦ o | split_fail ↦ f ])
by_split-Sound (cut parts) o f k ho hf h = h parts
by_split-Sound split_oom o f k ho hf h = ho
by_split-Sound split_fail o f k ho hf h = hf

pub handle_ethernet_packet-Sound :
    (memory : FrameMemory) (fuel : ℕ) (bind : ℕ → Bool) (w : World) (frame : List ℕ)
    → IsSound w
    → Sound (handle_ethernet_packet memory fuel bind w frame)
unfolding handle_ethernet_packet
handle_ethernet_packet-Sound memory fuel bind w frame v =
    let header = take eth_header_size frame in
    by_split-Sound
      (split memory.split nb_rina_pci eth_header_size
        (netbuf_new nb_eth_hdr frame 0 (length frame) ∷ []))
      _ _ _ (handled-Sound w [] v) (handled-Sound w [] v)
      (λ parts.
        by_type-Sound (frame_type (drop (mac_length + mac_length) header)) _ _ _
          (handle_arp_frame-Sound memory w header (next_netbuf (drop 1 parts)) v)
          (record {
            sound = λ w' events. handle_rina_frame-IsSound memory fuel bind w w' _ _ events v;
          })
          (handled-Sound w [] v))
