-- ===== src/ShimIpcp/Shim/Sound.antt =====
-- components/ShimIPCP/ShimIPCP.c: the invariant of the flows and the ports, and what a frame of a
-- data unit does to it.
use rinasense.Base.{
  ℕ, ◌<◌, ◌≡◌, ◌≢◌, ◌⊎◌, refl, sym, subst, ◌∙◌, true, ◌==◌, Option, some, List, length, set,
  get_elem?, arith, Bool-cases, inl, inr, get_elem?-set_self, get_elem?-set_ne, length-set,
}
use rinasense.Common.NumMgr
use rinasense.Common.NumMgr.{NumMgr, uint_max, is_allocated}
use rinasense.Common.NumMgr.Scan.{Took}
use rinasense.Common.Gpha.{Gha}
use rinasense.ShimIpcp.Shim.{Pointer, points_to, dangling, ShimFlow, port_allocated, max_flows}
use rinasense.ShimIpcp.Shim.Frames.{World, new_flow}

-- A flow at its place: it is allocated, and so is its port.
pub record IsFlowAt (ports : NumMgr) (p : ℕ) (flow : ShimFlow) : Type 0 where
  pub port : flow.un_port ≡ p
  pub state : flow.port_id_state ≡ port_allocated
  pub taken : is_allocated ports p ≡ true

pub record IsSound (w : World) : Type 0 where
  pub ports : NumMgr.IsValid w.ports
  pub size : length w.shim.flows ≡ max_flows
  pub live : (p : ℕ) → get_elem? w.shim.flows p ≢ some dangling
  pub flow :
      (p : ℕ) (flow : ShimFlow)
      → get_elem? w.shim.flows p ≡ some (points_to flow)
      → IsFlowAt w.ports p flow

-- The world in which a source has got the flow at a port.
abbrev pub with_flow : World → ℕ → NumMgr → Option Gha → World
with_flow w p ports source = record {
  shim = record w.shim { flows = set w.shim.flows p (points_to (new_flow p source)) };
  ports = ports;
}

-- The places of `xFlows` once a pointer is put in.
abbrev Kept : List (Pointer ShimFlow) → ℕ → Pointer ShimFlow → ℕ → Type 0
Kept flows p x q =
    ((p ≡ q) × (get_elem? (set flows p x) q ≡ some x))
    ⊎ (get_elem? (set flows p x) q ≡ get_elem? flows q)

set-Kept :
    (flows : List (Pointer ShimFlow)) (p : ℕ) (x : Pointer ShimFlow) (q : ℕ)
    → p < length flows
    → Kept flows p x q
set-Kept flows p x q inside = elim (Bool-cases (p == q)) [
  | inl e ↦
      let same : p ≡ q = ground arith in
      inl (
        same,
        subst (λ k. get_elem? (set flows p x) k ≡ some x) same
            (get_elem?-set_self flows p x inside),
      )
  | inr e ↦ inr (get_elem?-set_ne flows p q x (ground arith))
]

-- A port that was free has no flow, and with a new flow there everything holds again.
pub with_flow-IsSound :
    (w : World) (p : ℕ) (ports : NumMgr) (source : Option Gha)
    → IsSound w
    → Took w.ports p ports
    → p < length w.shim.flows
    → IsSound (with_flow w p ports source)
with_flow-IsSound w p ports source v took inside = record {
  ports = took.valid;
  size = length-set w.shim.flows p (points_to (new_flow p source)) ∙ v.size;
  live = λ q e. elim (set-Kept w.shim.flows p (points_to (new_flow p source)) q inside) [
    | inl (_, new) ↦ cc (sym new ∙ e)
    | inr old ↦ v.live q (sym old ∙ e)
  ];
  flow = λ q f e. elim (set-Kept w.shim.flows p (points_to (new_flow p source)) q inside) [
    | inl (at, new) ↦ new_there q f at (sym new ∙ e)
    | inr old ↦ kept q f (v.flow q f (sym old ∙ e))
  ];
}
  where
    there : IsFlowAt ports p (new_flow p source)
    there = record { port = refl; state = refl; taken = ground (arith, took.others p) }

    new_there :
        (q : ℕ) (f : ShimFlow)
        → p ≡ q
        → some (points_to (new_flow p source)) ≡ some (points_to f)
        → IsFlowAt ports q f
    new_there q f at e =
        let same : new_flow p source ≡ f = cc e in
        subst (λ k. IsFlowAt ports k f) at (subst (λ k. IsFlowAt ports p k) same there)

    kept : (q : ℕ) (f : ShimFlow) → IsFlowAt w.ports q f → IsFlowAt ports q f
    kept q f was = record {
      port = was.port;
      state = was.state;
      taken = ground (arith, took.others q, was.taken);
    }
