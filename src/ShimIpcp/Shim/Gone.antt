-- ===== src/ShimIpcp/Shim/Gone.antt =====
-- components/ShimIPCP/ShimIPCP.c: a flow that is deallocated.
use rinasense.Base.{
  ℕ, ◌<◌, ◌≤◌, ◌≡◌, refl, ap, Bool, false, ltb, Option, none, some, List, [], length, get_elem?,
  set, arith, get_elem?-set_self, get_elem?-length,
}
use rinasense.Common.Gpha.{made, null, fault}
use rinasense.ShimIpcp.Shim.{
  Pointer, null_pointer, points_to, dangling, ShimFlow, Shim, ended, shim_fault, mtu, deref,
  find_by_port, find_by_gha, flow_deallocate, flow_allocate_response, WriteMemory, sdu_write,
}
use rinasense.ShimIpcp.Shim.Found.{find_by_gha-dangling}
use rinasense.ShimIpcp.Shim.Frames.{World, crashed, FrameMemory, source_gha, handle_rina_frame}

deref-made :
    (o : Option (Pointer ShimFlow)) (flow : ShimFlow)
    → deref o ≡ made flow
    → o ≡ some (points_to flow)
deref-made none flow e = absurd (cc e)
deref-made (some null_pointer) flow e = absurd (cc e)
deref-made (some (points_to f)) flow e =
    let same : f ≡ flow = cc e in ap (λ k. some (points_to k)) same
deref-made (some dangling) flow e = absurd (cc e)

-- A port with a flow, after `xShimFlowDeallocate`, which answers false: to deallocate it again, to
-- respond to a request for it, or to write a data unit of at most the MTU to it uses the flow that
-- was freed, and so does every frame with a data unit from a source that has no flow.
pub flow_deallocate-dangling :
    (w : World) (p : ℕ) (flow : ShimFlow)
    → find_by_port w.shim p ≡ made flow
    → (s : Shim) × ((flow_deallocate w.shim p ≡ ended false s [])
        × (((flow_deallocate s p ≡ shim_fault) × (flow_allocate_response s p ≡ shim_fault))
            × (((memory : WriteMemory) (output : Bool) (du : List ℕ)
                  → length du ≤ mtu
                  → sdu_write memory output s p du ≡ shim_fault)
                × ((memory : FrameMemory) (fuel : ℕ) (bind : ℕ → Bool) (source : List ℕ)
                      (du : Option (List ℕ))
                    → find_by_gha (source_gha memory.address source) w.shim.flows ≡ null
                    → handle_rina_frame memory fuel bind (record w { shim = s }) source du
                      ≡ crashed))))
unfolding find_by_port flow_deallocate flow_allocate_response sdu_write handle_rina_frame
flow_deallocate-dangling w p flow e =
    let at = deref-made (get_elem? w.shim.flows p) flow e in
    let inside : p < length w.shim.flows = get_elem?-length w.shim.flows p (points_to flow) at in
    let s : Shim = record w.shim { flows = set w.shim.flows p dangling } in
    let gone : find_by_port s p ≡ fault =
      ap deref (get_elem?-set_self w.shim.flows p dangling inside) in
    (
      s,
      (
        rw (flow_deallocate, e) refl,
        (
          (rw (flow_deallocate, gone) refl, rw (flow_allocate_response, gone) refl),
          (
            λ memory output du short.
                let fits : ltb mtu (length du) ≡ false = ground arith in
                rw (sdu_write, fits, gone) refl,
            λ memory fuel bind source du none_yet.
                rw
                  (
                    handle_rina_frame,
                    find_by_gha-dangling (source_gha memory.address source) w.shim.flows p none_yet
                        inside,
                  )
                  refl,
          ),
        ),
      ),
    )
