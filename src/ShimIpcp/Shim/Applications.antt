-- ===== src/ShimIpcp/Shim/Applications.antt =====
-- components/ShimIPCP/ShimIPCP.c: the registration of applications.
use rinasense.Base.{Bool, true, false, not, Option, none, some, [], if◌then◌else◌, is_some}
use rinasense.Common.Gpha.{Gpa, Gha, made, null, fault, mac_addr_802_3, is_gha_ok, create_gha}
use rinasense.Common.RinaName.{Name, assign_dup}
use rinasense.ShimIpcp.ArpCache
use rinasense.ShimIpcp.ArpCache.{
  ArpCache, Handle, invalid_handle, handle_true, handle_false, overrun,
}
use rinasense.ShimIpcp.Arp.{add_application, remove_application}
use rinasense.ShimIpcp.Shim.{
  Pointer, null_pointer, points_to, dangling, Shim, ShimResult, ended, shim_fault, NameMemory,
  to_gpa,
}

-- Which allocations of `xShimApplicationRegister` succeed.
pub record RegisterMemory : Type 0 where
  pub app_name : Bool
  pub app_address : NameMemory
  pub daf_address : NameMemory
  pub daf_name : Bool
  pub hardware : Bool
  pub app_entry : ArpCache.Memory
  pub daf_entry : ArpCache.Memory

-- `vGPADestroy`, `vGHADestroy` and `vNameFree` of a pointer that is kept, which none of them clears;
-- none where it was freed before.
abbrev pub destroyed : {A : Type 0} → Pointer A → Option (Pointer A)
destroyed null_pointer = some null_pointer
destroyed (points_to a) = some dangling
destroyed dangling = none

-- The addresses at the `err` label.
unfoldable pub destroy_addresses : Shim → ShimResult
destroy_addresses s = elim (destroyed s.app_pa) [
  | none ↦ shim_fault
  | some app_pa ↦ elim (destroyed s.daf_pa) [
    | none ↦ shim_fault
    | some daf_pa ↦ elim (destroyed s.px_ha) [
      | none ↦ shim_fault
      | some px_ha ↦ ended false (record s { app_pa = app_pa; daf_pa = daf_pa; px_ha = px_ha }) []
    ]
  ]
]

-- The `err` label: the name of the application is freed twice.
unfoldable pub register_error : Shim → ShimResult
register_error s = elim (destroyed s.app_name) [
  | none ↦ shim_fault
  | some once ↦ elim (destroyed once) [
    | none ↦ shim_fault
    | some twice ↦ destroy_addresses (record s { app_name = twice })
  ]
]

-- `xNameAssignDup` to a name that is kept.
abbrev pub kept_name : Option Name → Pointer Name
kept_name none = null_pointer
kept_name (some copy) = points_to copy

-- The `unregister_err` label: the address of the application is removed twice.
unfoldable pub unregister_error : Shim → Gpa → ShimResult
unregister_error s app_pa =
    let c1 = (remove_application s.arp (some app_pa)).1 in
    let c2 = (remove_application c1 (some app_pa)).1 in register_error (record s { arp = c2 })

-- The two additions to the cache: only a handle of 0 is taken for a failure.
unfoldable pub register_addresses : RegisterMemory → Shim → Gpa → Gpa → Gha → ShimResult
register_addresses memory s app daf ha =
    let first = add_application memory.app_entry s.arp app ha in
    let second = add_application memory.daf_entry first.1 daf ha in
    let s1 : Shim = record s { arp = first.1 } in
    let s2 : Shim = record s { arp = second.1 } in
    let last : ShimResult = elim second.0 [
      | overrun ↦ shim_fault
      | handle_false ↦ unregister_error s2 app
      | handle_true ↦ ended true s2 []
      | invalid_handle ↦ ended true s2 []
    ] in
    elim first.0 [
      | overrun ↦ shim_fault
      | handle_false ↦ unregister_error s1 app
      | handle_true ↦ last
      | invalid_handle ↦ last
    ]

-- The name of the DAF, the hardware address, and what follows them.
unfoldable pub register_hardware :
    RegisterMemory → Shim → Gpa → Gpa → (daf_name : Name) → ShimResult
register_hardware memory s app daf daf_name =
    let copy = assign_dup memory.daf_name daf_name in
    let s1 : Shim = record s { daf_name = kept_name copy } in
    if not (is_some copy)
    then register_error s1
    else elim (create_gha memory.hardware mac_addr_802_3 s.phy_dev) [
      | fault ↦ shim_fault
      | null ↦ register_error (record s1 { px_ha = null_pointer })
      | made ha ↦
          let s2 : Shim = record s1 { px_ha = points_to ha } in
          if not (is_gha_ok (some ha))
          then register_error s2
          else register_addresses memory s2 app daf ha
    ]

-- `xShimApplicationRegister`
unfoldable pub application_register :
    RegisterMemory → Shim → (app_name daf_name : Name) → ShimResult
application_register memory s app_name daf_name =
    let copy = assign_dup memory.app_name app_name in
    let s1 : Shim = record s { app_name = kept_name copy } in
    if not (is_some copy) then register_error s1 else elim (to_gpa memory.app_address app_name) [
      | fault ↦ shim_fault
      | null ↦ register_error (record s1 { app_pa = null_pointer })
      | made app ↦ elim (to_gpa memory.daf_address daf_name) [
        | fault ↦ shim_fault
        | null ↦ register_error (record s1 { app_pa = points_to app; daf_pa = null_pointer })
        | made daf ↦
            register_hardware memory (record s1 { app_pa = points_to app; daf_pa = points_to daf })
              app daf daf_name
      ]
    ]

-- What `xShimApplicationUnregister` does after the cache: both names are freed.
unfoldable pub free_names : Shim → ShimResult
free_names s = elim (destroyed s.app_name) [
  | none ↦ shim_fault
  | some app_name ↦ elim (destroyed s.daf_name) [
    | none ↦ shim_fault
    | some daf_name ↦ ended true (record s { app_name = app_name; daf_name = daf_name }) []
  ]
]

-- `xShimApplicationUnregister`, which succeeds whatever was removed from the cache.
unfoldable pub application_unregister : NameMemory → Shim → Name → ShimResult
application_unregister memory s name = elim (to_gpa memory name) [
  | fault ↦ shim_fault
  | null ↦ free_names (record s { arp = (remove_application s.arp none).1 })
  | made pa ↦ free_names (record s { arp = (remove_application s.arp (some pa)).1 })
]
