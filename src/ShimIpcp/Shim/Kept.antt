-- ===== src/ShimIpcp/Shim/Kept.antt =====
-- components/ShimIPCP/ShimIPCP.c: the operations that leave the flows as they are.
use rinasense.Base.{
  ℕ, ◌≡◌, refl, Bool, not, Option, none, some, List, length, if_both, ltb, is_some,
}
use rinasense.Common.Gpha.{Gpa, Gha, Made, made, null, fault, mac_addr_802_3, is_gha_ok, create_gha}
use rinasense.Common.RinaName.{Name, assign_dup, to_string_buf}
use rinasense.ShimIpcp.ArpCache.{Handle, invalid_handle, handle_true, handle_false, overrun}
use rinasense.ShimIpcp.Arp.{add_application}
use rinasense.ShimIpcp.Shim.{
  Pointer, PortState, port_null, port_pending, port_allocated, Shim, ShimResult, ended, shim_fault,
  find_by_port, NameMemory, to_gpa, WriteMemory, sdu_write, mtu, flow_allocate_request,
  request_flow, name_buf,
}
use rinasense.ShimIpcp.Shim.Applications.{
  RegisterMemory, destroyed, destroy_addresses, free_names, register_error, unregister_error,
  register_addresses, register_hardware, application_register, application_unregister,
}

-- The result keeps the flows.
abbrev pub SameFlows : Shim → ShimResult → Type 0
SameFlows s (ended ok s' events) = s'.flows ≡ s.flows
SameFlows s shim_fault = Unit

destroyed-SameFlows :
    {A : Type 0} (s : Shim) (o : Option (Pointer A)) (k : Pointer A → ShimResult)
    → ((x : Pointer A) → SameFlows s (k x))
    → SameFlows s (elim o [ none ↦ shim_fault | some x ↦ k x ])
destroyed-SameFlows s none k h = tt
destroyed-SameFlows s (some x) k h = h x

destroy_addresses-SameFlows : (s : Shim) → SameFlows s (destroy_addresses s)
unfolding destroy_addresses
destroy_addresses-SameFlows s = destroyed-SameFlows s (destroyed s.app_pa) _ (λ a.
    destroyed-SameFlows s (destroyed s.daf_pa) _
      (λ d. destroyed-SameFlows s (destroyed s.px_ha) _ (λ h. refl)))

register_error-SameFlows : (s : Shim) → SameFlows s (register_error s)
unfolding register_error
register_error-SameFlows s =
    destroyed-SameFlows s (destroyed s.app_name) _
      (λ once. destroyed-SameFlows s (destroyed once) _ (λ twice. destroy_addresses-SameFlows _))

free_names-SameFlows : (s : Shim) → SameFlows s (free_names s)
unfolding free_names
free_names-SameFlows s =
    destroyed-SameFlows s (destroyed s.app_name) _
      (λ a. destroyed-SameFlows s (destroyed s.daf_name) _ (λ d. refl))

by_made-SameFlows :
    {A : Type 0} (s : Shim) (m : Made A) (f n : ShimResult) (k : A → ShimResult)
    → SameFlows s f
    → SameFlows s n
    → ((a : A) → SameFlows s (k a))
    → SameFlows s (elim m [ made a ↦ k a | null ↦ n | fault ↦ f ])
by_made-SameFlows s (made a) f n k hf hn h = h a
by_made-SameFlows s null f n k hf hn h = hn
by_made-SameFlows s fault f n k hf hn h = hf

by_handle-SameFlows :
    (s : Shim) (h : Handle) (a b : ShimResult)
    → SameFlows s a
    → SameFlows s b
    → SameFlows s
        (elim h [ invalid_handle ↦ b | handle_true ↦ b | handle_false ↦ a | overrun ↦ shim_fault ])
by_handle-SameFlows s invalid_handle a b ha hb = hb
by_handle-SameFlows s handle_true a b ha hb = hb
by_handle-SameFlows s handle_false a b ha hb = ha
by_handle-SameFlows s overrun a b ha hb = tt

unregister_error-SameFlows : (s : Shim) (app : Gpa) → SameFlows s (unregister_error s app)
unfolding unregister_error
unregister_error-SameFlows s app = register_error-SameFlows _

register_addresses-SameFlows :
    (memory : RegisterMemory) (s : Shim) (app daf : Gpa) (ha : Gha)
    → SameFlows s (register_addresses memory s app daf ha)
unfolding register_addresses
register_addresses-SameFlows memory s app daf ha =
    let first = add_application memory.app_entry s.arp app ha in
    let second = add_application memory.daf_entry first.1 daf ha in
    by_handle-SameFlows s first.0 _ _ (unregister_error-SameFlows _ app)
      (by_handle-SameFlows s second.0 _ _ (unregister_error-SameFlows _ app) refl)

register_hardware-SameFlows :
    (memory : RegisterMemory) (s : Shim) (app daf : Gpa) (daf_name : Name)
    → SameFlows s (register_hardware memory s app daf daf_name)
unfolding register_hardware
register_hardware-SameFlows memory s app daf daf_name =
    if_both (SameFlows s) (not (is_some (assign_dup memory.daf_name daf_name)))
      (register_error-SameFlows _)
      (by_made-SameFlows s (create_gha memory.hardware mac_addr_802_3 s.phy_dev) _ _ _ tt
        (register_error-SameFlows _)
        (λ ha.
          if_both (SameFlows s) (not (is_gha_ok (some ha))) (register_error-SameFlows _)
            (register_addresses-SameFlows memory _ app daf ha)))

pub application_register-SameFlows :
    (memory : RegisterMemory) (s : Shim) (app_name daf_name : Name)
    → SameFlows s (application_register memory s app_name daf_name)
unfolding application_register
application_register-SameFlows memory s app_name daf_name =
    if_both (SameFlows s) (not (is_some (assign_dup memory.app_name app_name)))
      (register_error-SameFlows _)
      (by_made-SameFlows s (to_gpa memory.app_address app_name) _ _ _ tt
        (register_error-SameFlows _)
        (λ app.
          by_made-SameFlows s (to_gpa memory.daf_address daf_name) _ _ _ tt
            (register_error-SameFlows _)
            (λ daf. register_hardware-SameFlows memory _ app daf daf_name)))

pub application_unregister-SameFlows :
    (memory : NameMemory) (s : Shim) (name : Name)
    → SameFlows s (application_unregister memory s name)
unfolding application_unregister
application_unregister-SameFlows memory s name =
    by_made-SameFlows s (to_gpa memory name) _ _ _ tt (free_names-SameFlows _)
      (λ pa. free_names-SameFlows _)

by_option-SameFlows :
    {A : Type 0} (s : Shim) (o : Option A) (n : ShimResult) (k : A → ShimResult)
    → SameFlows s n
    → ((a : A) → SameFlows s (k a))
    → SameFlows s (elim o [ none ↦ n | some a ↦ k a ])
by_option-SameFlows s none n k hn h = hn
by_option-SameFlows s (some a) n k hn h = h a

by_state-SameFlows :
    (s : Shim) (state : PortState) (a b c : ShimResult)
    → SameFlows s a
    → SameFlows s b
    → SameFlows s c
    → SameFlows s (elim state [ port_null ↦ a | port_pending ↦ b | port_allocated ↦ c ])
by_state-SameFlows s port_null a b c ha hb hc = ha
by_state-SameFlows s port_pending a b c ha hb hc = hb
by_state-SameFlows s port_allocated a b c ha hb hc = hc

request_flow-SameFlows :
    (flow_memory queue_memory : Bool) (memory : NameMemory) (s : Shim) (destination : Name)
    (port : ℕ)
    → SameFlows s (request_flow flow_memory queue_memory memory s destination port)
unfolding request_flow
request_flow-SameFlows flow_memory queue_memory memory s destination port =
    by_made-SameFlows s (find_by_port s port) _ _ _ tt
      (if_both (SameFlows s) (not flow_memory) refl
        (by_made-SameFlows s (to_gpa memory destination) _ _ _ tt refl (λ pa. refl)))
      (λ flow. by_state-SameFlows s flow.port_id_state _ _ _ refl refl refl)

-- A request leaves no flow behind.
pub flow_allocate_request-SameFlows :
    (flow_memory queue_memory : Bool) (memory : NameMemory) (fill : ℕ) (s : Shim)
    (source destination : Name) (port : ℕ)
    → SameFlows s
        (flow_allocate_request flow_memory queue_memory memory fill s source destination port)
unfolding flow_allocate_request
flow_allocate_request-SameFlows flow_memory queue_memory memory fill s source destination port =
    by_option-SameFlows s (to_string_buf source (name_buf fill)) _ _ tt
      (λ printed. request_flow-SameFlows flow_memory queue_memory memory s destination port)

-- Writing leaves the shim as it is.
pub sdu_write-SameFlows :
    (memory : WriteMemory) (output : Bool) (s : Shim) (port : ℕ) (du : List ℕ)
    → SameFlows s (sdu_write memory output s port du)
unfolding sdu_write
sdu_write-SameFlows memory output s port du = if_both (SameFlows s) (ltb mtu (length du)) refl (
    by_made-SameFlows s (find_by_port s port) _ _ _ tt refl (λ flow.
      by_state-SameFlows s flow.port_id_state _ _ _ refl refl (
        by_made-SameFlows s (create_gha memory.source mac_addr_802_3 s.phy_dev) _ _ _ tt refl
          (λ source. by_option-SameFlows s flow.dest_ha _ _ refl (λ destination.
            if_both (SameFlows s) (not memory.header) refl
              (if_both (SameFlows s) (not memory.netbuf) refl refl))))))
