-- ===== src/ShimIpcp/Shim/Refused.antt =====
-- components/ShimIPCP/ShimIPCP.c: responses to requests, and what else leaves the flows sound.
use rinasense.Base.{
  ℕ, ◌<◌, ◌≡◌, refl, sym, ap, subst, ◌∙◌, Bool, false, some, List, [], length, get_elem?, arith,
  inl, inr, get_elem?-inside, Option-cases, get_elem?-length,
}
use rinasense.Common.NumMgr.{NumMgr}
use rinasense.ShimIpcp.Shim.{
  Pointer, null_pointer, points_to, dangling, ShimFlow, Shim, Event, ended, shim_fault,
  find_by_port, max_flows, flow_allocate_response, reserve_port, port_reserved,
}
use rinasense.ShimIpcp.Shim.Frames.{World}
use rinasense.ShimIpcp.Shim.Sound.{IsSound}
use rinasense.ShimIpcp.Shim.Arrival.{reserve_port-cases}

-- Sound flows and ports, whatever else the shim is given.
pub same_flows-IsSound :
    (w : World) (s : Shim) → IsSound w → s.flows ≡ w.shim.flows → IsSound (record w { shim = s })
same_flows-IsSound w s v same = record {
  ports = v.ports;
  size = ap length same ∙ v.size;
  live = λ p e. v.live p (ap (λ k. get_elem? k p) (sym same) ∙ e);
  flow = λ p f e. v.flow p f (ap (λ k. get_elem? k p) (sym same) ∙ e);
}

-- In a sound world every response to a request, for a port below 256, is refused: a port without a flow has nothing to
-- respond to, and a flow is allocated already.
pub response-refused :
    (w : World) (port : ℕ)
    → IsSound w
    → port < max_flows
    → flow_allocate_response w.shim port ≡ ended false w.shim []
unfolding flow_allocate_response find_by_port
response-refused w port v h =
    let (x, at) = get_elem?-inside w.shim.flows port (omega (arith, v.size, h)) in by_pointer x at
  where
    by_pointer :
        (x : Pointer ShimFlow)
        → get_elem? w.shim.flows port ≡ some x
        → flow_allocate_response w.shim port ≡ ended false w.shim []
    by_pointer null_pointer at = rw (flow_allocate_response, find_by_port, at) refl
    by_pointer dangling at = absurd (v.live port at)
    by_pointer (points_to flow) at =
        rw (flow_allocate_response, find_by_port, at, (v.flow port flow at).state) refl

-- A response that ends leaves the shim as it is.
pub response-SameFlows :
    (w : World) (port : ℕ) (ok : Bool) (s : Shim) (events : List Event)
    → IsSound w
    → flow_allocate_response w.shim port ≡ ended ok s events
    → s.flows ≡ w.shim.flows
unfolding flow_allocate_response find_by_port
response-SameFlows w port ok s events v e = elim (Option-cases (get_elem? w.shim.flows port)) [
  | inl beyond ↦
      let no : shim_fault ≡ ended ok s events =
        rw (flow_allocate_response, find_by_port, beyond) at e in
      absurd (cc no)
  | inr (x, at) ↦
      let inside : port < max_flows =
        omega (arith, get_elem?-length w.shim.flows port x at, v.size) in
      let same : ended false w.shim [] ≡ ended ok s events =
        sym (response-refused w port v inside) ∙ e in
      let shim_same : w.shim ≡ s = cc same in ap (λ (k : Shim). k.flows) (sym shim_same)
]

pub reserve_port-IsSound :
    (w : World) (fuel p : ℕ) (ports : NumMgr)
    → IsSound w
    → reserve_port fuel w.ports ≡ port_reserved p ports
    → IsSound (record w { ports = ports })
reserve_port-IsSound w fuel p ports v e = elim (reserve_port-cases fuel p w.ports ports v.ports e) [
  | inl took ↦ record {
    ports = took.valid;
    size = v.size;
    live = v.live;
    flow = λ q f at.
        let was = v.flow q f at in
        record {
          port = was.port;
          state = was.state;
          taken = ground (arith, took.others q, was.taken);
        };
  }
  | inr (_, same) ↦ subst (λ k. IsSound (record w { ports = k })) same v
]
