-- ===== src/ShimIpcp/Shim/Registered.antt =====
-- components/ShimIPCP/ShimIPCP.c: what the ARP cache knows of an application that is registered.
use rinasense.Base.{
  ℕ, ◌≤◌, ◌≡◌, refl, sym, ap, ◌∙◌, true, false, none, some, List, [], length, arith, Bool-cases,
  inl, inr, length-take, subst,
}
use rinasense.Common.Gpha.{
  Gpa, Gha, IsGha, Made, made, null, fault, gpa_cmp, mac_addr_802_3, mac_length, is_gha_ok,
  create_gha, dup_gpa, dup_gha,
}
use rinasense.Common.Gpha
use rinasense.Common.Gpha.Compare.{gpa_cmp_iff}
use rinasense.Common.RinaName.{Name, assign_dup}
use rinasense.ShimIpcp.ArpCache.{ArpCache, Row, Handle, handle_true, add, lookup_gha}
use rinasense.ShimIpcp.ArpCache
use rinasense.ShimIpcp.ArpCache.Add.{all_memory, NotBlank, add-Stored, add-full, has_room}
use rinasense.ShimIpcp.ArpCache.Room.{free_rows, has_room-free, add-free}
use rinasense.ShimIpcp.Shim.{
  null_pointer, points_to, dangling, Shim, ended, shim_fault, NameMemory, to_gpa,
}
use rinasense.ShimIpcp.Shim.Applications.{
  RegisterMemory, kept_name, destroy_addresses, unregister_error, register_error,
  register_addresses, register_hardware, application_register,
}
use rinasense.ShimIpcp.Shim.Received.{mac_of}

-- Enough memory for a registration.
abbrev pub all_name_memory : NameMemory
all_name_memory = record { text = true; struct = true; address = true; fill = 0 }

abbrev pub all_register_memory : RegisterMemory
all_register_memory = record {
  app_name = true;
  app_address = all_name_memory;
  daf_address = all_name_memory;
  daf_name = true;
  hardware = true;
  app_entry = all_memory;
  daf_entry = all_memory;
}

mac_of-IsGha : (source : List ℕ) → length source ≡ mac_length → IsGha (mac_of source)
mac_of-IsGha source h = record {
  ethernet = refl;
  size = omega (arith, length-take mac_length source, h);
}

-- The shim when it comes to the two additions.
abbrev registering : Shim → (app_name daf_name : Name) → (app daf : Gpa) → Shim
registering s app_name daf_name app daf = record s {
  app_name = kept_name (assign_dup true app_name);
  daf_name = kept_name (assign_dup true daf_name);
  app_pa = points_to app;
  daf_pa = points_to daf;
  px_ha = points_to (mac_of s.phy_dev);
}

application_register-addresses :
    (s : Shim) (app_name daf_name : Name) (app daf : Gpa)
    → to_gpa all_name_memory app_name ≡ made app
    → to_gpa all_name_memory daf_name ≡ made daf
    → application_register all_register_memory s app_name daf_name
      ≡ register_addresses all_register_memory
          (registering s app_name daf_name app daf)
          app
          daf
          (mac_of s.phy_dev)
unfolding application_register register_hardware create_gha is_gha_ok assign_dup
application_register-addresses s app_name daf_name app daf ea ed =
    rw (application_register, ea, ed) refl

register_addresses-added :
    (s : Shim) (app daf : Gpa) (ha : Gha) (c1 c2 : ArpCache)
    → add all_memory s.arp app ha ≡ (handle_true, c1)
    → add all_memory c1 daf ha ≡ (handle_true, c2)
    → register_addresses all_register_memory s app daf ha ≡ ended true (record s { arp = c2 }) []
unfolding register_addresses
register_addresses-added s app daf ha c1 c2 e1 e2 =
    let first : (add all_memory s.arp app ha).1 ≡ c1 = ap (λ (k : Handle × ArpCache). k.1) e1 in
    rw
      (
        register_addresses,
        ap (λ (k : Handle × ArpCache). k.0) e1,
        first,
        ap (λ (k : Handle × ArpCache). k.0) e2,
      )
      (ap (λ c. ended true (record s { arp = c }) [])
        (ap (λ (k : ArpCache). (add all_memory k daf ha).1) first
          ∙ ap (λ (k : Handle × ArpCache). k.1) e2))

-- Addresses that differ, differ the other way round.
gpa_cmp-swap :
    (g1 g2 : Gpa)
    → Gpha.IsValid g1
    → Gpha.IsValid g2
    → gpa_cmp (some g1) (some g2) ≡ false
    → gpa_cmp (some g2) (some g1) ≡ false
gpa_cmp-swap g1 g2 v1 v2 e = elim (Bool-cases (gpa_cmp (some g2) (some g1))) [
  | inl same ↦ absurd (cc (e, (gpa_cmp_iff g1 g2 v1 v2).1 (sym ((gpa_cmp_iff g2 g1 v2 v1).0 same))))
  | inr differ ↦ differ
]

-- With memory and a hardware address of six bytes, when two rows of a valid cache are free and
-- neither address is known yet, `xShimApplicationRegister` of two names whose addresses are usable,
-- not blank and differ succeeds. Then the cache is valid,
-- it finds the address of the interface for both, and what it found for other addresses.
pub application_register-found :
    (s : Shim) (app_name daf_name : Name) (app daf : Gpa)
    → to_gpa all_name_memory app_name ≡ made app
    → to_gpa all_name_memory daf_name ≡ made daf
    → length s.phy_dev ≡ mac_length
    → ArpCache.IsValid s.arp
    → 2 ≤ free_rows s.arp.px_rows
    → Gpha.IsValid app
    → NotBlank app
    → Gpha.IsValid daf
    → NotBlank daf
    → gpa_cmp (some app) (some daf) ≡ false
    → lookup_gha s.arp (some app) ≡ none
    → lookup_gha s.arp (some daf) ≡ none
    → (s' : Shim) × ((application_register all_register_memory s app_name daf_name
          ≡ ended true s' [])
        × (ArpCache.IsValid s'.arp
            × ((lookup_gha s'.arp (some app) ≡ some (mac_of s.phy_dev))
                × ((lookup_gha s'.arp (some daf) ≡ some (mac_of s.phy_dev))
                    × ((q : Gpa)
                        → Gpha.IsValid q
                        → gpa_cmp (some app) (some q) ≡ false
                        → gpa_cmp (some daf) (some q) ≡ false
                        → lookup_gha s'.arp (some q) ≡ lookup_gha s.arp (some q))))))
application_register-found s app_name daf_name app daf ea ed h v two va na vd nd ad ma md =
    let ha = mac_of s.phy_dev in
    let vh = mac_of-IsGha s.phy_dev h in
    let (c1, e1, v1, _, _, other1, new1) =
      add-Stored s.arp app ha v va vh na (has_room-free s.arp.px_rows (omega arith)) in
    let c1_same : (add all_memory s.arp app ha).1 ≡ c1 = ap (λ (k : Handle × ArpCache). k.1) e1 in
    let left : 1 ≤ free_rows c1.px_rows =
      subst (λ k. 1 ≤ free_rows k.px_rows) c1_same
        (omega (arith, add-free all_memory s.arp app ha)) in
    let (c2, e2, v2, _, _, other2, new2) =
      add-Stored c1 daf ha v1 vd vh nd (has_room-free c1.px_rows left) in
    (
      record (registering s app_name daf_name app daf) { arp = c2 },
      (
        application_register-addresses s app_name daf_name app daf ea ed
            ∙ register_addresses-added _ app daf ha c1 c2 e1 e2,
        (
          v2,
          (
            other2 app va (gpa_cmp-swap app daf va vd ad)
                ∙ new1 app va ((gpa_cmp_iff app app va va).1 refl) ma,
            (
              new2 daf vd ((gpa_cmp_iff daf daf vd vd).1 refl) (other1 daf vd ad ∙ md),
              λ q vq aq dq. other2 q vq dq ∙ other1 q vq aq,
            ),
          ),
        ),
      ),
    )

-- When the name of the application cannot be copied, `xShimApplicationRegister` fails and frees the
-- addresses of the application that was registered before; the pointers to them stay, and the next
-- registration that fails there frees them again.
pub application_register-frees_twice :
    (memory : RegisterMemory) (s : Shim) (app_name daf_name : Name) (app daf : Gpa) (ha : Gha)
    → memory.app_name ≡ false
    → s.app_pa ≡ points_to app
    → s.daf_pa ≡ points_to daf
    → s.px_ha ≡ points_to ha
    → (s' : Shim) × ((application_register memory s app_name daf_name ≡ ended false s' [])
        × ((s'.arp ≡ s.arp) × (application_register memory s' app_name daf_name ≡ shim_fault)))
unfolding application_register register_error destroy_addresses assign_dup
application_register-frees_twice memory s app_name daf_name app daf ha none_left ea ed eh = (
  record s { app_name = null_pointer; app_pa = dangling; daf_pa = dangling; px_ha = dangling },
  (
    rw (application_register, none_left, register_error, destroy_addresses, ea, ed, eh) refl,
    (refl, rw (application_register, none_left, register_error, destroy_addresses) refl),
  ),
)

-- With memory for everything that comes before, a hardware address of six bytes and an address of the
-- application that is usable and not blank, when no row of a valid cache is free,
-- `xShimApplicationRegister` frees the copy of the application's name twice.
pub application_register-full_crashes :
    (s : Shim) (app_name daf_name : Name) (app daf : Gpa)
    → to_gpa all_name_memory app_name ≡ made app
    → to_gpa all_name_memory daf_name ≡ made daf
    → length s.phy_dev ≡ mac_length
    → ArpCache.IsValid s.arp
    → has_room s.arp.px_rows ≡ false
    → Gpha.IsValid app
    → NotBlank app
    → application_register all_register_memory s app_name daf_name ≡ shim_fault
unfolding register_addresses unregister_error register_error assign_dup
application_register-full_crashes s app_name daf_name app daf ea ed h v full va na =
    application_register-addresses s app_name daf_name app daf ea ed
    ∙ rw
        (
          register_addresses,
          ap (λ (k : Handle × ArpCache). k.0)
              (add-full s.arp app (mac_of s.phy_dev) v va (mac_of-IsGha s.phy_dev h) na full),
        )
        refl
