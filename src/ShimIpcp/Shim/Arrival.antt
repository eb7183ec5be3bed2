-- ===== src/ShimIpcp/Shim/Arrival.antt =====
-- components/ShimIPCP/ShimIPCP.c: what making a flow for a source leads to.
use rinasense.Base.{
  ℕ, ◌<◌, ◌≡◌, ◌⊎◌, refl, sym, subst, Bool, leb, Option, List, [], ◌∷◌, if◌then◌else◌, length,
  arith, Bool-cases, inl, inr,
}
use rinasense.Common.NumMgr
use rinasense.Common.NumMgr.{NumMgr, uint_max, is_allocated}
use rinasense.Common.NumMgr.Scan.{Took}
use rinasense.Common.NumMgr.Allocate.{allocate-Took}
use rinasense.Common.Gpha.{Gha}
use rinasense.ShimIpcp.Shim.{Event, rx_event, reserve_port, port_reserved, reserving, Reserved}
use rinasense.ShimIpcp.Shim.Frames.{World, handled, crashed, spinning, bind_new_flow}
use rinasense.ShimIpcp.Shim.Sound.{IsSound, with_flow, with_flow-IsSound}

pub reserve_port-cases :
    (fuel p : ℕ) (ports ports' : NumMgr)
    → NumMgr.IsValid ports
    → reserve_port fuel ports ≡ port_reserved p ports'
    → Took ports p ports' ⊎ ((p ≡ uint_max) × (ports ≡ ports'))
unfolding reserve_port
reserve_port-cases fuel p ports ports' v e = by_outcome (NumMgr.allocate fuel ports) refl
  where
    by_outcome :
        (o : NumMgr.Outcome)
        → NumMgr.allocate fuel ports ≡ o
        → Took ports p ports' ⊎ ((p ≡ uint_max) × (ports ≡ ports'))
    by_outcome (NumMgr.allocated q ports1) eo =
        let same : port_reserved q ports1 ≡ port_reserved p ports' = rw (reserve_port, eo) at e in
        let q_same : q ≡ p = cc same in
        let ports_same : ports1 ≡ ports' = cc same in
        inl (
          subst (λ k. Took ports k ports') q_same
            (subst (λ k. Took ports q k) ports_same (allocate-Took ports v fuel eo)))
    by_outcome NumMgr.exhausted eo =
        let same : port_reserved uint_max ports ≡ port_reserved p ports' =
          rw (reserve_port, eo) at e in
        inr (sym (cc same), cc same)
    by_outcome NumMgr.running eo =
        let no : reserving ≡ port_reserved p ports' = rw (reserve_port, eo) at e in absurd (cc no)

-- What making a flow for a source leads to, when it comes to an end.
pub record HasBound (w w' : World) (source : Option Gha) (du : Option (List ℕ))
    (events : List Event) (bind : ℕ → Bool) : Type 0 where
  pub port : ℕ
  pub ports : NumMgr
  pub took : Took w.ports port ports
  pub inside : port < length w.shim.flows
  pub world : w' ≡ with_flow w port ports source
  pub posted : events ≡ (if bind port then rx_event port du ∷ [] else [])

pub bind_new_flow-HasBound :
    (fuel : ℕ) (bind : ℕ → Bool) (w w' : World) (source : Option Gha) (du : Option (List ℕ))
    (events : List Event)
    → IsSound w
    → bind_new_flow fuel bind w source du ≡ handled w' events
    → HasBound w w' source du events bind
unfolding bind_new_flow
bind_new_flow-HasBound fuel bind w w' source du events v e =
    by_reserved (reserve_port fuel w.ports) refl
  where
    by_reserved :
        (r : Reserved) → reserve_port fuel w.ports ≡ r → HasBound w w' source du events bind
    by_reserved reserving er =
        let no : spinning ≡ handled w' events = rw (bind_new_flow, er) at e in absurd (cc no)
    by_reserved (port_reserved p ports) er = elim (Bool-cases (leb (length w.shim.flows) p)) [
      | inl beyond ↦
          let no : crashed ≡ handled w' events = rw (bind_new_flow, er, beyond) at e in
          absurd (cc no)
      | inr within ↦
          let same : handled (with_flow w p ports source)
                (if bind p then rx_event p du ∷ [] else [])
              ≡ handled w' events =
            rw (bind_new_flow, er, within) at e in
          elim (reserve_port-cases fuel p w.ports ports v.ports er) [
            | inl took ↦ record {
              port = p;
              ports = ports;
              took = took;
              inside = ground arith;
              world = cc same;
              posted = cc same;
            }
            | inr (last, _) ↦ absurd (ground (arith, last, v.size))
          ]
    ]

pub bound-IsSound :
    {w w' : World} {source : Option Gha} {du : Option (List ℕ)} {events : List Event}
    {bind : ℕ → Bool}
    → IsSound w
    → HasBound w w' source du events bind
    → IsSound w'
bound-IsSound {w} {source = source} v b =
    subst IsSound (sym b.world) (with_flow-IsSound w b.port b.ports source v b.took b.inside)
