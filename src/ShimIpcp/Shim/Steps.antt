-- ===== src/ShimIpcp/Shim/Steps.antt =====
-- components/ShimIPCP/ShimIPCP.c: what the operations on a shim can lead to while no flow is
-- deallocated and no port is given back.
use rinasense.Base.{
  ℕ, ◌≡◌, subst, Bool, some, List, get_elem?, replicate, length-replicate, get_elem?-replicate,
}
use rinasense.Common.NumMgr
use rinasense.Common.NumMgr.{NumMgr, is_allocated}
use rinasense.Common.RinaName.{Name}
use rinasense.ShimIpcp.ArpCache.{ArpCache}
use rinasense.ShimIpcp.Shim.{
  Pointer, null_pointer, ShimFlow, Shim, Event, ShimResult, ended, shim_create, max_flows,
  NameMemory, WriteMemory, sdu_write, flow_allocate_request, flow_allocate_response, reserve_port,
  port_reserved,
}
use rinasense.ShimIpcp.Shim.Frames.{World, handled, FrameMemory, handle_ethernet_packet}
use rinasense.ShimIpcp.Shim.Applications.{
  RegisterMemory, application_register, application_unregister,
}
use rinasense.ShimIpcp.Shim.Sound.{IsSound}
use rinasense.ShimIpcp.Shim.Kept.{
  SameFlows, application_register-SameFlows, application_unregister-SameFlows,
  flow_allocate_request-SameFlows, sdu_write-SameFlows,
}
use rinasense.ShimIpcp.Shim.Refused.{same_flows-IsSound, response-SameFlows, reserve_port-IsSound}
use rinasense.ShimIpcp.Shim.Incoming.{handle_ethernet_packet-Sound}

-- Every operation on a shim but `xShimFlowDeallocate`, and the ports that others reserve.
pub data Step : World → World → Type 0 where
  receives :
      (w w' : World) (memory : FrameMemory) (fuel : ℕ) (bind : ℕ → Bool) (frame : List ℕ)
      (events : List Event)
      → handle_ethernet_packet memory fuel bind w frame ≡ handled w' events
      → Step w w'
  requests :
      (w : World) (flow_memory queue_memory : Bool) (memory : NameMemory) (fill : ℕ)
      (source destination : Name) (port : ℕ) (ok : Bool) (s : Shim) (events : List Event)
      → flow_allocate_request flow_memory queue_memory memory fill w.shim source destination port
        ≡ ended ok s events
      → Step w (record w { shim = s })
  responds :
      (w : World) (port : ℕ) (ok : Bool) (s : Shim) (events : List Event)
      → flow_allocate_response w.shim port ≡ ended ok s events
      → Step w (record w { shim = s })
  registers :
      (w : World) (memory : RegisterMemory) (app_name daf_name : Name) (ok : Bool) (s : Shim)
      (events : List Event)
      → application_register memory w.shim app_name daf_name ≡ ended ok s events
      → Step w (record w { shim = s })
  unregisters :
      (w : World) (memory : NameMemory) (name : Name) (ok : Bool) (s : Shim) (events : List Event)
      → application_unregister memory w.shim name ≡ ended ok s events
      → Step w (record w { shim = s })
  writes :
      (w : World) (memory : WriteMemory) (output : Bool) (port : ℕ) (du : List ℕ) (ok : Bool)
      (s : Shim) (events : List Event)
      → sdu_write memory output w.shim port du ≡ ended ok s events
      → Step w (record w { shim = s })
  reserves :
      (w : World) (fuel p : ℕ) (ports : NumMgr)
      → reserve_port fuel w.ports ≡ port_reserved p ports
      → Step w (record w { ports = ports })

pub data Reach (start : World) : World → Type 0 where
  here : Reach start start
  next : {w1 w2 : World} → Reach start w1 → Step w1 w2 → Reach start w2

result_same-IsSound :
    (w : World) (r : ShimResult) (ok : Bool) (s : Shim) (events : List Event)
    → IsSound w
    → SameFlows w.shim r
    → r ≡ ended ok s events
    → IsSound (record w { shim = s })
result_same-IsSound w r ok s events v same e =
    same_flows-IsSound w s v (subst (SameFlows w.shim) e same)

Step-IsSound : {w1 w2 : World} → IsSound w1 → Step w1 w2 → IsSound w2
Step-IsSound v (receives w w' memory fuel bind frame events e) =
    (handle_ethernet_packet-Sound memory fuel bind w frame v).sound w' events e
Step-IsSound v (requests w fm qm memory fill source destination port ok s events e) =
    result_same-IsSound w _ ok s events v
      (flow_allocate_request-SameFlows fm qm memory fill w.shim source destination port) e
Step-IsSound v (responds w port ok s events e) =
    same_flows-IsSound w s v (response-SameFlows w port ok s events v e)
Step-IsSound v (registers w memory app_name daf_name ok s events e) =
    result_same-IsSound w _ ok s events v
      (application_register-SameFlows memory w.shim app_name daf_name) e
Step-IsSound v (unregisters w memory name ok s events e) =
    result_same-IsSound w _ ok s events v (application_unregister-SameFlows memory w.shim name) e
Step-IsSound v (writes w memory output port du ok s events e) =
    result_same-IsSound w _ ok s events v (sdu_write-SameFlows memory output w.shim port du) e
Step-IsSound v (reserves w fuel p ports e) = reserve_port-IsSound w fuel p ports v e

-- A shim that was just created, with the ports of an IPC manager in use: whatever is done with it,
-- but for giving ports back and deallocating flows, every flow stays at its own port, allocated, in
-- a port that is taken, and no place of `xFlows` points to memory that was freed.
pub Reach-IsSound :
    (arp : ArpCache) (phy_dev : List ℕ) (ports : NumMgr) (w : World)
    → NumMgr.IsValid ports
    → Reach (record { shim = shim_create arp phy_dev; ports = ports }) w
    → IsSound w
Reach-IsSound arp phy_dev ports w v here = record {
  ports = v;
  size = length-replicate {A = Pointer ShimFlow} max_flows null_pointer;
  live = λ p e. cc (get_elem?-null p e);
  flow = λ p f e. absurd (cc (get_elem?-null p e));
}
  where
    get_elem?-null :
        (p : ℕ) {x : Pointer ShimFlow}
        → get_elem? (replicate max_flows null_pointer) p ≡ some x
        → x ≡ null_pointer
    get_elem?-null p e = get_elem?-replicate max_flows p null_pointer e
Reach-IsSound arp phy_dev ports w v (next r step) =
    Step-IsSound (Reach-IsSound arp phy_dev ports _ v r) step
