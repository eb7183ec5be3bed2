-- ===== src/ShimIpcp/Shim/Received.antt =====
-- components/ShimIPCP/ShimIPCP.c: what a frame with a data unit leads to.
use rinasense.Base.{
  ℕ, ◌≡◌, ◌⊎◌, refl, sym, ap, subst, Bool, true, false, Option, some, List, [], ◌∷◌, length,
  get_elem?, arith, Bool-cases, inl, inr, get_elem?-set_self, length-take, take,
}
use rinasense.Common.NumMgr.{is_allocated}
use rinasense.Common.Gpha.{
  Gha, Made, made, null, fault, gha_cmp, mac_addr_802_3, mac_length, create_gha,
}
use rinasense.Common.Gpha.Bytes.{mem_eq_iff}
use rinasense.ShimIpcp.Shim.{points_to, ShimFlow, Event, rx_event, find_by_gha}
use rinasense.ShimIpcp.Shim.Found.{find_by_gha-place, find_by_gha-set}
use rinasense.ShimIpcp.Shim.Frames.{
  World, handled, crashed, FrameMemory, source_gha, new_flow, handle_rina_frame,
}
use rinasense.ShimIpcp.Shim.Arrival.{HasBound, bind_new_flow-HasBound, bound-IsSound}
use rinasense.ShimIpcp.Shim.Sound.{IsSound}

-- What a frame with a data unit leads to, when it comes to an end: the flow that its source has
-- afterwards.
pub record HasFlow (w w' : World) (source : Option Gha) (du : Option (List ℕ)) (events : List Event)
    : Type 0 where
  pub port : ℕ
  pub flow : ShimFlow
  pub place : get_elem? w'.shim.flows port ≡ some (points_to flow)
  pub found : find_by_gha source w'.shim.flows ≡ made flow
  pub matches : gha_cmp flow.dest_ha source ≡ true
  pub posted : events ≡ (rx_event port du ∷ [])
  pub either : (w' ≡ w) ⊎ (is_allocated w.ports port ≡ false)

-- A flow that was found stays where it is.
found-HasFlow :
    (w : World) (source : Option Gha) (du : Option (List ℕ)) (flow : ShimFlow)
    → IsSound w
    → find_by_gha source w.shim.flows ≡ made flow
    → HasFlow w w source du (rx_event flow.un_port du ∷ [])
found-HasFlow w source du flow v e =
    let (p, (at, hit)) = find_by_gha-place source w.shim.flows flow e in
    record {
      port = p;
      flow = flow;
      place = at;
      found = e;
      matches = hit;
      posted = ap (λ k. rx_event k du ∷ []) (v.flow p flow at).port;
      either = inl refl;
    }

bound-HasFlow :
    (w w' : World) (source : Option Gha) (du : Option (List ℕ)) (events : List Event)
    (bind : ℕ → Bool)
    → gha_cmp source source ≡ true
    → find_by_gha source w.shim.flows ≡ null
    → HasBound w w' source du events bind
    → ((p : ℕ) → bind p ≡ true)
    → HasFlow w w' source du events
bound-HasFlow w w' source du events bind self e b binds =
    subst (λ k. HasFlow w k source du events) (sym b.world)
      (record {
        port = b.port;
        flow = new_flow b.port source;
        place =
            get_elem?-set_self w.shim.flows b.port (points_to (new_flow b.port source)) b.inside;
        found = find_by_gha-set source w.shim.flows b.port (new_flow b.port source) e b.inside self;
        matches = self;
        posted = rw (binds b.port) at b.posted;
        either = inr b.took.was_free;
      })

-- `pxCreateGHA` of a source address.
abbrev pub mac_of : List ℕ → Gha
mac_of source = record { x_type = mac_addr_802_3; uc_bytes = take mac_length source }

pub gha_cmp-mac_of :
    (source : List ℕ)
    → length source ≡ mac_length
    → gha_cmp (some (mac_of source)) (some (mac_of source)) ≡ true
unfolding gha_cmp
gha_cmp-mac_of source h =
    (mem_eq_iff mac_length (take mac_length source) (take mac_length source)
        (omega (arith, length-take mac_length source, h))
        (omega (arith, length-take mac_length source, h))).1
      refl

-- The ways in which `prvShimHandleRinaFrame` comes to an end.
data Ways (w w' : World) (memory : FrameMemory) (source : List ℕ) (du : Option (List ℕ))
    (events : List Event) (bind : ℕ → Bool) : Type 0 where
  had_flow :
      (flow : ShimFlow)
      → find_by_gha (source_gha memory.address source) w.shim.flows ≡ made flow
      → w ≡ w'
      → (rx_event flow.un_port du ∷ []) ≡ events
      → Ways w w' memory source du events bind
  no_memory : memory.flow ≡ false → w ≡ w' → Ways w w' memory source du events bind
  bound :
      find_by_gha (source_gha memory.address source) w.shim.flows ≡ null
      → HasBound w w' (source_gha memory.address source) du events bind
      → Ways w w' memory source du events bind

handle_rina_frame-Ways :
    (memory : FrameMemory) (fuel : ℕ) (bind : ℕ → Bool) (w w' : World) (source : List ℕ)
    (du : Option (List ℕ)) (events : List Event)
    → IsSound w
    → handle_rina_frame memory fuel bind w source du ≡ handled w' events
    → Ways w w' memory source du events bind
unfolding handle_rina_frame
handle_rina_frame-Ways memory fuel bind w w' source du events v e =
    by_found (find_by_gha (source_gha memory.address source) w.shim.flows) refl
  where
    by_found :
        (m : Made ShimFlow)
        → find_by_gha (source_gha memory.address source) w.shim.flows ≡ m
        → Ways w w' memory source du events bind
    by_found fault em =
        let no : crashed ≡ handled w' events = rw (handle_rina_frame, em) at e in absurd (cc no)
    by_found (made flow) em =
        let same : handled w (rx_event flow.un_port du ∷ []) ≡ handled w' events =
          rw (handle_rina_frame, em) at e in
        had_flow flow em (cc same) (cc same)
    by_found null em = elim (Bool-cases memory.flow) [
      | inl room ↦ bound em (
          bind_new_flow-HasBound fuel bind w w' (source_gha memory.address source) du events v
            (rw (handle_rina_frame, em, room) at e))
      | inr none_left ↦
          let same : handled w [] ≡ handled w' events =
            rw (handle_rina_frame, em, none_left) at e in
          no_memory none_left (cc same)
    ]

-- Whatever the memory, a frame keeps the flows and the ports sound.
pub handle_rina_frame-IsSound :
    (memory : FrameMemory) (fuel : ℕ) (bind : ℕ → Bool) (w w' : World) (source : List ℕ)
    (du : Option (List ℕ)) (events : List Event)
    → IsSound w
    → handle_rina_frame memory fuel bind w source du ≡ handled w' events
    → IsSound w'
handle_rina_frame-IsSound memory fuel bind w w' source du events v e =
    by_way (handle_rina_frame-Ways memory fuel bind w w' source du events v e)
  where
    by_way : Ways w w' memory source du events bind → IsSound w'
    by_way (had_flow flow em same posted) = subst IsSound same v
    by_way (no_memory none_left same) = subst IsSound same v
    by_way (bound em b) = bound-IsSound v b

-- With memory, and when the normal IPC process binds the port, the source has a flow afterwards.
pub handle_rina_frame-HasFlow :
    (memory : FrameMemory) (fuel : ℕ) (bind : ℕ → Bool) (w w' : World) (source : List ℕ)
    (du : Option (List ℕ)) (events : List Event)
    → memory.address ≡ true
    → memory.flow ≡ true
    → ((p : ℕ) → bind p ≡ true)
    → IsSound w
    → length source ≡ mac_length
    → handle_rina_frame memory fuel bind w source du ≡ handled w' events
    → HasFlow w w' (some (mac_of source)) du events
unfolding create_gha
handle_rina_frame-HasFlow memory fuel bind w w' source du events ha hf binds v h e =
    by_way (handle_rina_frame-Ways memory fuel bind w w' source du events v e)
  where
    address : source_gha memory.address source ≡ some (mac_of source)
    address = ap (λ k. source_gha k source) ha

    by_way : Ways w w' memory source du events bind → HasFlow w w' (some (mac_of source)) du events
    by_way (had_flow flow em same posted) =
        subst (λ k. HasFlow w k (some (mac_of source)) du events) same
          (subst (λ k. HasFlow w w (some (mac_of source)) du k) posted
            (found-HasFlow w (some (mac_of source)) du flow v (rw address at em)))
    by_way (no_memory none_left same) = absurd (cc (hf, none_left))
    by_way (bound em b) =
        bound-HasFlow w w' (some (mac_of source)) du events bind (gha_cmp-mac_of source h)
          (rw address at em) (subst (λ k. HasBound w w' k du events bind) address b) binds
