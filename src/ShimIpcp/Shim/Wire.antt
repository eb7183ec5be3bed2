-- ===== src/ShimIpcp/Shim/Wire.antt =====
-- components/ShimIPCP/ShimIPCP.c: what one shim writes, in the hands of another.
use rinasense.Base.{
  ℕ, ◌≤◌, ◌≡◌, refl, ap, ◌∙◌, Bool, true, some, List, [], ◌∷◌, ◌++◌, length, take, get_elem?, arith,
  take_all, ◌-◌,
}
use rinasense.Common.Gpha.{Gha, mac_length, mem_eq}
use rinasense.Common.Netbuf.{nb_rina_pci, nb_eth_hdr, netbuf_new, next_netbuf, Netbuf}
use rinasense.Common.Netbuf.Split.{split-within}
use rinasense.ShimIpcp.Shim.{
  points_to, ShimFlow, port_allocated, Shim, frame_out, ended, mtu, eth_p_rina, sdu_write,
}
use rinasense.ShimIpcp.Shim.Frames.{
  World, FrameMemory, handle_rina_frame, handle_ethernet_packet, eth_header_size,
}
use rinasense.ShimIpcp.Shim.Conversation.{all_write_memory, sdu_write-found}

-- A list of six bytes, byte by byte.
by_six {κ} :
    (P : List ℕ → Type κ)
    → ((a b c d e f : ℕ) → P (a ∷ (b ∷ (c ∷ (d ∷ (e ∷ (f ∷ [])))))))
    → (xs : List ℕ) → length xs ≡ mac_length
    → P xs
by_six P k [] h = absurd (omega arith)
by_six P k (a ∷ []) h = absurd (omega arith)
by_six P k (a ∷ (b ∷ [])) h = absurd (omega arith)
by_six P k (a ∷ (b ∷ (c ∷ []))) h = absurd (omega arith)
by_six P k (a ∷ (b ∷ (c ∷ (d ∷ [])))) h = absurd (omega arith)
by_six P k (a ∷ (b ∷ (c ∷ (d ∷ (e ∷ []))))) h = absurd (omega arith)
by_six P k (a ∷ (b ∷ (c ∷ (d ∷ (e ∷ (f ∷ [])))))) h = k a b c d e f
by_six P k (a ∷ (b ∷ (c ∷ (d ∷ (e ∷ (f ∷ (g ∷ rest))))))) h = absurd (omega arith)

-- A frame that carries a data unit is cut behind its header.
handle_ethernet_packet-rina :
    (memory : FrameMemory) (fuel : ℕ) (bind : ℕ → Bool) (w : World) (destination source : List ℕ)
    (first : ℕ) (du : List ℕ)
    → memory.split ≡ true
    → length destination ≡ mac_length
    → length source ≡ mac_length
    → handle_ethernet_packet memory fuel bind w
        (destination ++ (source ++ (eth_p_rina ++ (first ∷ du))))
      ≡ handle_rina_frame memory fuel bind w source (some (first ∷ du))
unfolding handle_ethernet_packet mem_eq next_netbuf handle_rina_frame
handle_ethernet_packet-rina memory fuel bind w destination source first du room h1 h2 =
    by_six
      (λ d.
        handle_ethernet_packet memory fuel bind w (d ++ (source ++ (eth_p_rina ++ (first ∷ du))))
        ≡ handle_rina_frame memory fuel bind w source (some (first ∷ du)))
      (λ a b c d e f.
        by_six
          (λ s.
            handle_ethernet_packet memory fuel bind w
              ((a ∷ (b ∷ (c ∷ (d ∷ (e ∷ (f ∷ [])))))) ++ (s ++ (eth_p_rina ++ (first ∷ du))))
            ≡ handle_rina_frame memory fuel bind w s (some (first ∷ du)))
          (λ g h i j k l. byte_by_byte a b c d e f g h i j k l) source h2)
      destination h1
  where
    byte_by_byte :
        (a b c d e f g h i j k l : ℕ)
        → handle_ethernet_packet memory fuel bind w (
            a
            ∷ (b
                ∷ (c
                    ∷ (d
                        ∷ (e
                            ∷ (f
                                ∷ (g
                                    ∷ (h
                                        ∷ (i
                                            ∷ (j
                                                ∷ (k ∷ (l ∷ (209 ∷ (240 ∷ (first ∷ du)))))))))))))))
          ≡ handle_rina_frame memory fuel bind w
              (g ∷ (h ∷ (i ∷ (j ∷ (k ∷ (l ∷ []))))))
              (some (first ∷ du))
    byte_by_byte a b c d e f g h i j k l =
        let frame : List ℕ =
          a
          ∷ (b
              ∷ (c
                  ∷ (d
                      ∷ (e
                          ∷ (f
                              ∷ (g
                                  ∷ (h
                                      ∷ (i
                                          ∷ (j
                                              ∷ (k ∷ (l ∷ (209 ∷ (240 ∷ (first ∷ du)))))))))))))) in
        let whole : Netbuf = netbuf_new nb_eth_hdr frame 0 (length frame) in
        let parted = split-within nb_rina_pci eth_header_size whole [] refl (omega arith) in
        let rest : take (length frame - 14) (first ∷ du) ≡ first ∷ du =
          take_all (length frame - 14) (first ∷ du) (omega arith) in
        rw (handle_ethernet_packet, room, parted, rest) refl

-- What `xShimSDUWrite` sends of a data unit that is not empty, on the port of an allocated flow with
-- an Ethernet address, is a frame that every shim handles, when there is memory to cut it, as the
-- same data unit from the address of the interface that sent it.
pub sdu_write-handle_ethernet_packet :
    (output : Bool) (s : Shim) (p : ℕ) (flow : ShimFlow) (ha : Gha) (first : ℕ) (du : List ℕ)
    → get_elem? s.flows p ≡ some (points_to flow)
    → flow.port_id_state ≡ port_allocated
    → flow.dest_ha ≡ some ha
    → length ha.uc_bytes ≡ mac_length
    → length s.phy_dev ≡ mac_length
    → length (first ∷ du) ≤ mtu
    → (frame : List ℕ) × ((sdu_write all_write_memory output s p (first ∷ du)
          ≡ ended output s (frame_out frame ∷ []))
        × ((memory : FrameMemory) (fuel : ℕ) (bind : ℕ → Bool) (w : World)
            → memory.split ≡ true
            → handle_ethernet_packet memory fuel bind w frame
              ≡ handle_rina_frame memory fuel bind w s.phy_dev (some (first ∷ du))))
sdu_write-handle_ethernet_packet output s p flow ha first du at state dest hd hs short =
    let to_whole : take mac_length ha.uc_bytes ≡ ha.uc_bytes =
      take_all mac_length ha.uc_bytes (omega (arith, hd)) in
    let from_whole : take mac_length (take mac_length s.phy_dev) ≡ s.phy_dev =
      ap (take mac_length) (take_all mac_length s.phy_dev (omega (arith, hs)))
      ∙ take_all mac_length s.phy_dev (omega (arith, hs)) in
    (
      ha.uc_bytes ++ (s.phy_dev ++ (eth_p_rina ++ (first ∷ du))),
      (
        rw (to_whole, from_whole) at
            (sdu_write-found output s p flow ha (first ∷ du) at state dest short),
        λ memory fuel bind w room.
            handle_ethernet_packet-rina memory fuel bind w ha.uc_bytes s.phy_dev first du room hd
              hs,
      ),
    )
