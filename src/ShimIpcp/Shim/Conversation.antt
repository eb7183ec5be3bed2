-- ===== src/ShimIpcp/Shim/Conversation.antt =====
-- components/ShimIPCP/ShimIPCP.c: frames that come in, against each other and against what is
-- written to the ports of their flows.
use rinasense.Base.{
  ℕ, ◌<◌, ◌≤◌, ◌≡◌, ◌≢◌, ◌↔◌, refl, sym, ap, ◌∙◌, Bool, true, false, ltb, leb, Option, none, some,
  List, [], ◌∷◌, ◌++◌, if◌then◌else◌, length, take, get_elem?, arith, Bool-cases, inl, inr,
  length-take, take_all,
}
use rinasense.Common.NumMgr.{is_allocated}
use rinasense.Common.NumMgr.Allocate.{allocate-first, allocate-Took}
use rinasense.Common.Gpha.{Gha, made, null, mac_length, gha_cmp, create_gha}
use rinasense.ShimIpcp.Shim.{
  points_to, ShimFlow, port_allocated, Shim, Event, rx_event, frame_out, ended, mtu, eth_p_rina,
  find_by_gha, find_by_port, reserve_port, port_reserved, WriteMemory, sdu_write, max_flows,
}
use rinasense.ShimIpcp.Shim.Frames.{
  World, handled, crashed, FrameMemory, source_gha, bind_new_flow, handle_rina_frame,
}
use rinasense.ShimIpcp.Shim.Found.{mem_eq-same}
use rinasense.ShimIpcp.Shim.Sound.{IsSound, with_flow}
use rinasense.ShimIpcp.Shim.Received.{mac_of, handle_rina_frame-HasFlow, handle_rina_frame-IsSound}

abbrev pub all_write_memory : WriteMemory
all_write_memory = record { source = true; header = true; netbuf = true }

-- A flow that compares equal to a source has its address.
gha_cmp-matches :
    (d : Option Gha) (source : List ℕ)
    → length source ≡ mac_length
    → gha_cmp d (some (mac_of source)) ≡ true
    → (ha : Gha) × ((d ≡ some ha) × (take mac_length ha.uc_bytes ≡ source))
unfolding gha_cmp
gha_cmp-matches none source h e = absurd (cc e)
gha_cmp-matches (some ha) source h e = (
  ha,
  (
    refl,
    mem_eq-same mac_length ha.uc_bytes (take mac_length source) e
        ∙ (take_all mac_length (take mac_length source)
              (omega (arith, length-take mac_length source, h))
            ∙ take_all mac_length source (omega (arith, h))),
  ),
)

pub sdu_write-found :
    (output : Bool) (s : Shim) (p : ℕ) (flow : ShimFlow) (ha : Gha) (du : List ℕ)
    → get_elem? s.flows p ≡ some (points_to flow)
    → flow.port_id_state ≡ port_allocated
    → flow.dest_ha ≡ some ha
    → length du ≤ mtu
    → sdu_write all_write_memory output s p du
      ≡ ended output s (
          frame_out (
            take mac_length ha.uc_bytes
            ++ (take mac_length (take mac_length s.phy_dev) ++ (eth_p_rina ++ du)))
          ∷ [])
unfolding create_gha find_by_port sdu_write
sdu_write-found output s p flow ha du at state dest short =
    let fits : ltb mtu (length du) ≡ false = ground arith in
    rw (sdu_write, fits, find_by_port, at, state, dest) refl

module _ (memory : FrameMemory) (fuel : ℕ) (bind : ℕ → Bool) (ma : memory.address ≡ true)
    (mf : memory.flow ≡ true) (binds : (p : ℕ) → bind p ≡ true) where
  -- In a sound world with memory, when the normal IPC process binds every port and addresses have six
  -- bytes: a data unit of at most the MTU that is written to the port at which `prvShimHandleRinaFrame` posts a data unit goes out in a frame to the source of that data
  -- unit, from the address of the interface.
  pub sdu_write-handle_rina_frame :
      (output : Bool) (w w' : World) (source : List ℕ) (du : Option (List ℕ)) (events : List Event)
      (answer : List ℕ)
      → IsSound w
      → length source ≡ mac_length
      → length w'.shim.phy_dev ≡ mac_length
      → length answer ≤ mtu
      → handle_rina_frame memory fuel bind w source du ≡ handled w' events
      → (p : ℕ) × ((events ≡ (rx_event p du ∷ []))
          × (sdu_write all_write_memory output w'.shim p answer
              ≡ ended output w'.shim
                  (frame_out (source ++ (w'.shim.phy_dev ++ (eth_p_rina ++ answer))) ∷ [])))
  sdu_write-handle_rina_frame output w w' source du events answer v h hp short e =
      let b = handle_rina_frame-HasFlow memory fuel bind w w' source du events ma mf binds v h e in
      let v' = handle_rina_frame-IsSound memory fuel bind w w' source du events v e in
      let (ha, (dest, bytes)) = gha_cmp-matches b.flow.dest_ha source h b.matches in
      let own : take mac_length (take mac_length w'.shim.phy_dev) ≡ w'.shim.phy_dev =
        ap (take mac_length) (take_all mac_length w'.shim.phy_dev (omega (arith, hp)))
        ∙ take_all mac_length w'.shim.phy_dev (omega (arith, hp)) in
      (
        b.port,
        (
          b.posted,
          rw (bytes, own) at
              (sdu_write-found output w'.shim b.port b.flow ha answer b.place
                (v'.flow b.port b.flow b.place).state dest short),
        ),
      )

  -- In a sound world with memory, when the normal IPC process binds every port: the next frame from the same
  -- source is posted at the same port and changes nothing.
  pub handle_rina_frame-same_port :
      (w w' : World) (source : List ℕ) (du du2 : Option (List ℕ)) (events : List Event)
      → IsSound w
      → length source ≡ mac_length
      → handle_rina_frame memory fuel bind w source du ≡ handled w' events
      → (p : ℕ) × ((events ≡ (rx_event p du ∷ []))
          × (handle_rina_frame memory fuel bind w' source du2 ≡ handled w' (rx_event p du2 ∷ [])))
  unfolding handle_rina_frame create_gha
  handle_rina_frame-same_port w w' source du du2 events v h e =
      let b = handle_rina_frame-HasFlow memory fuel bind w w' source du events ma mf binds v h e in
      let v' = handle_rina_frame-IsSound memory fuel bind w w' source du events v e in
      let at_port : b.flow.un_port ≡ b.port = (v'.flow b.port b.flow b.place).port in
      let address : source_gha memory.address source ≡ some (mac_of source) =
        ap (λ k. source_gha k source) ma in
      let again : find_by_gha (source_gha memory.address source) w'.shim.flows ≡ made b.flow =
        ap (λ k. find_by_gha k w'.shim.flows) address ∙ b.found in
      (b.port, (b.posted, rw (handle_rina_frame, again, at_port) refl))

  -- In a sound world with memory, when the normal IPC process binds every port: two frames in a row from
  -- different sources are posted at different ports.
  pub handle_rina_frame-other_port :
      (w w1 w2 : World) (s1 s2 : List ℕ) (du1 du2 : Option (List ℕ)) (e1 e2 : List Event)
      → IsSound w
      → length s1 ≡ mac_length
      → length s2 ≡ mac_length
      → s1 ≢ s2
      → handle_rina_frame memory fuel bind w s1 du1 ≡ handled w1 e1
      → handle_rina_frame memory fuel bind w1 s2 du2 ≡ handled w2 e2
      → (p1 : ℕ) × ((p2 : ℕ) × ((e1 ≡ (rx_event p1 du1 ∷ []))
            × ((e2 ≡ (rx_event p2 du2 ∷ [])) × (p1 ≢ p2))))
  handle_rina_frame-other_port w w1 w2 s1 s2 du1 du2 e1 e2 v h1 h2 ne h1e h2e =
      let v1 = handle_rina_frame-IsSound memory fuel bind w w1 s1 du1 e1 v h1e in
      let b1 = handle_rina_frame-HasFlow memory fuel bind w w1 s1 du1 e1 ma mf binds v h1 h1e in
      let b2 = handle_rina_frame-HasFlow memory fuel bind w1 w2 s2 du2 e2 ma mf binds v1 h2 h2e in
      (
        b1.port,
        (
          b2.port,
          (
            b1.posted,
            (
              b2.posted,
              λ same. elim b2.either [
                | inl kept ↦
                    let here : some (points_to b1.flow) ≡ some (points_to b2.flow) =
                      sym b1.place
                      ∙ (ap (λ k. get_elem? k.shim.flows b1.port) (sym kept)
                          ∙ (ap (get_elem? w2.shim.flows) same ∙ b2.place)) in
                    let one : b1.flow ≡ b2.flow = cc here in
                    let (ha1, (d1, a1)) = gha_cmp-matches b1.flow.dest_ha s1 h1 b1.matches in
                    let (ha2, (d2, a2)) = gha_cmp-matches b2.flow.dest_ha s2 h2 b2.matches in
                    let both : some ha1 ≡ some ha2 =
                      sym d1 ∙ (ap (λ (k : ShimFlow). k.dest_ha) one ∙ d2) in
                    let same_address : ha1 ≡ ha2 = cc both in
                    ne (sym a1 ∙ (ap (λ (k : Gha). take mac_length k.uc_bytes) same_address ∙ a2))
                | inr free ↦ cc (
                    sym free
                    ∙ (ap (is_allocated w1.ports) (sym same)
                        ∙ (v1.flow b1.port b1.flow b1.place).taken))
              ],
            ),
          ),
        ),
      )

-- In a sound world with memory where some port behind the last one allocated is free,
-- `prvShimHandleRinaFrame` of a source without a flow, with as many rounds to look for a port as
-- there are numbers, writes outside of `xFlows` exactly when every port between the last one
-- allocated and 256, the size of `xFlows`, is taken.
pub handle_rina_frame-crashes_iff :
    (memory : FrameMemory) (bind : ℕ → Bool) (w : World) (source : List ℕ) (du : Option (List ℕ))
    (q : ℕ)
    → memory.address ≡ true
    → memory.flow ≡ true
    → IsSound w
    → find_by_gha (some (mac_of source)) w.shim.flows ≡ null
    → w.ports.last_allocated < q
    → q < w.ports.num_cnt
    → is_allocated w.ports q ≡ false
    → (handle_rina_frame memory w.ports.num_cnt bind w source du ≡ crashed)
      ↔ ((n : ℕ) → w.ports.last_allocated < n → n < max_flows → is_allocated w.ports n ≡ true)
unfolding handle_rina_frame create_gha bind_new_flow reserve_port
handle_rina_frame-crashes_iff memory bind w source du q ma mf v none_yet past inside free =
    let (p, ports, e, behind, between) = allocate-first w.ports v.ports q past inside free in
    let p_free = (allocate-Took w.ports v.ports w.ports.num_cnt e).was_free in
    let reserved : reserve_port w.ports.num_cnt w.ports ≡ port_reserved p ports =
      rw (reserve_port, e) refl in
    let address : source_gha memory.address source ≡ some (mac_of source) =
      ap (λ k. source_gha k source) ma in
    let new : handle_rina_frame memory w.ports.num_cnt bind w source du
        ≡ bind_new_flow w.ports.num_cnt bind w (some (mac_of source)) du =
      rw (handle_rina_frame, ap (λ k. find_by_gha k w.shim.flows) address ∙ none_yet, mf)
        (ap (λ k. bind_new_flow w.ports.num_cnt bind w k du) address) in
    elim (Bool-cases (leb (length w.shim.flows) p)) [
      | inl beyond ↦ (
        (λ c n above below. between n above (ground (arith, beyond, v.size, below))),
        (λ taken. new ∙ rw (bind_new_flow, reserved, beyond) refl),
      )
      | inr within ↦
          let kept : bind_new_flow w.ports.num_cnt bind w (some (mac_of source)) du
              ≡ handled (with_flow w p ports (some (mac_of source)))
                  (if bind p then rx_event p du ∷ [] else []) =
            rw (bind_new_flow, reserved, within) refl in
          (
            (λ c. absurd (cc (sym kept ∙ (sym new ∙ c)))),
            (λ taken. absurd (cc (p_free, taken p behind (ground (arith, within, v.size))))),
          )
    ]
