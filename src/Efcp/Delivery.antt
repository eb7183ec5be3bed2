-- ===== src/Efcp/Delivery.antt =====
-- components/EFCP: a data unit that comes in for a connection reaches its port.
use rinasense.Base.{
  ℕ, ◌+◌, ◌^◌, ◌≤◌, ◌<◌, ◌≡◌, refl, ap, ◌∙◌, sym, subst, Bool, true, false, not, ◌&&◌, some, List,
  [], ◌∷◌, if◌then◌else◌, ◌==◌, arith, Bool-cases, inl, inr,
}
use rinasense.Efcp.{
  EfcpState, efcp_allocated, efcp_deallocated, by_state, Instance, ImapRow, Container, Outcome,
  answered, is_cep_id_ok, cep_id_wrong, imap_find,
}
use rinasense.Efcp.Dtp.{dtp_receive, pci_byte, pci_seq_num}
use rinasense.Efcp.Units.{
  instance_at, put_instance, looked_up, efcp_receive, receive_found, with_destination,
  container_receive,
}
use rinasense.Efcp.Heap.{instance_at-set_self}
use rinasense.Efcp.Single.{find-first, find-skip}
use rinasense.Efcp.Window.{at_edge, dtp_receive-old, dtp_receive-next}

find-find :
    (key : ℕ) (rows : List ImapRow)
    → (imap_find key (imap_find key rows).1).0 ≡ (imap_find key rows).0
unfolding imap_find
find-find key [] = refl
find-find key (r ∷ rows) = elim (Bool-cases (r.cep_id_key == key)) [
  | inl e ↦
      ap (λ p. (imap_find key p.1).0) (find-first key r rows e)
      ∙ (ap (λ p. p.0) (find-first key (record r { uc_valid = 1 }) rows e)
          ∙ ap (λ p. p.0) (sym (find-first key r rows e)))
  | inr e ↦
      ap (λ p. (imap_find key p.1).0) (find-skip key r rows e)
      ∙ (ap (λ p. p.0) (find-skip key r (imap_find key rows).1 e)
          ∙ (find-find key rows ∙ ap (λ p. p.0) (sym (find-skip key r rows e))))
]

-- The fields of the header that decide what becomes of a data unit.
abbrev pub HasHeader : List ℕ → (type destination seq_num flags : ℕ) → Type 0
HasHeader du type destination seq_num flags =
    (pci_byte du 6 ≡ some type)
    × ((pci_byte du 4 ≡ some destination)
        × ((pci_seq_num du ≡ some seq_num) × (pci_byte du 7 ≡ some flags)))

by_state-live :
    (state : EfcpState) (x y : Outcome) → state ≡ efcp_allocated → by_state state x y ≡ x
by_state-live efcp_allocated x y h = refl
by_state-live efcp_deallocated x y h = absurd (cc h)

module _ (type destination : ℕ) (efcp : Instance) where
  abbrev sets_destination : Bool
  sets_destination = (type == 128) && not (efcp.connection.destination_cep == cep_id_wrong)

  with_destination-vector : (with_destination type destination efcp).vector ≡ efcp.vector
  with_destination-vector = elim (Bool-cases sets_destination) [
    | inl e ↦ rw (e) refl
    | inr e ↦ rw (e) refl
  ]

  with_destination-live : (with_destination type destination efcp).state ≡ efcp.state
  with_destination-live = elim (Bool-cases sets_destination) [
    | inl e ↦ rw (e) refl
    | inr e ↦ rw (e) refl
  ]

  with_destination-port :
      (with_destination type destination efcp).connection.port ≡ efcp.connection.port
  with_destination-port = elim (Bool-cases sets_destination) [
    | inl e ↦ rw (e) refl
    | inr e ↦ rw (e) refl
  ]

module _ (c : Container) (cep i : ℕ) (efcp : Instance) (du : List ℕ) (destination seq_num flags : ℕ)
    (ok : is_cep_id_ok cep ≡ true) (found : (imap_find cep c.imap).0 ≡ some i)
    (there : instance_at c.instances i ≡ some efcp) (live : efcp.state ≡ efcp_allocated)
    (header : HasHeader du 128 destination seq_num flags) where
  -- The instance with the destination that the header gives.
  abbrev addressed : Instance
  addressed = with_destination 128 destination efcp

  receive-data : container_receive c cep du ≡ (
      let r = dtp_receive addressed.vector seq_num flags in
      answered r.ok
        (put_instance (looked_up c cep) i (record addressed { vector = r.vector }))
        (if r.posted then record { app_port = addressed.connection.port; du = du } ∷ [] else []))
  unfolding container_receive receive_found efcp_receive
  receive-data =
      rw (container_receive, ok, found, there)
        (by_state-live efcp.state _ _ live
          ∙ rw (header.0, header.1.0, efcp_receive, header.1.1.0, header.1.1.1) refl)

  receive-next :
      efcp.vector.drf_required ≡ false
      → seq_num ≡ efcp.vector.rcv_left_window_edge + 1
      → seq_num < 2 ^ 32
      → container_receive c cep du
        ≡ answered true
            (put_instance
              (looked_up c cep)
              i
              (record addressed { vector = at_edge addressed.vector seq_num }))
            (record { app_port = efcp.connection.port; du = du } ∷ [])
  receive-next running next below =
      let same : addressed.vector ≡ efcp.vector = with_destination-vector 128 destination efcp in
      let r : dtp_receive addressed.vector seq_num flags
          ≡ record { ok = true; posted = true; vector = at_edge addressed.vector seq_num } =
        dtp_receive-next addressed.vector seq_num flags (ap (λ v. v.drf_required) same ∙ running)
          (next ∙ ap (λ v. v.rcv_left_window_edge + 1) (sym same)) below in
      receive-data
      ∙ (ap
            (λ r.
              answered r.ok
                (put_instance (looked_up c cep) i (record addressed { vector = r.vector }))
                (if r.posted
                  then record { app_port = addressed.connection.port; du = du } ∷ []
                  else []))
            r
          ∙ ap
              (λ p.
                answered true
                  (put_instance (looked_up c cep) i
                    (record addressed { vector = at_edge addressed.vector seq_num }))
                  (record { app_port = p; du = du } ∷ []))
              (with_destination-port 128 destination efcp))

  receive-old :
      efcp.vector.drf_required ≡ false
      → seq_num ≤ efcp.vector.rcv_left_window_edge
      → container_receive c cep du
        ≡ answered false
            (put_instance (looked_up c cep) i (record addressed { vector = addressed.vector }))
            []
  receive-old running old =
      let same : addressed.vector ≡ efcp.vector = with_destination-vector 128 destination efcp in
      receive-data
      ∙ ap
          (λ r.
            answered r.ok
              (put_instance (looked_up c cep) i (record addressed { vector = r.vector }))
              (if r.posted
                then record { app_port = addressed.connection.port; du = du } ∷ []
                else []))
          (dtp_receive-old addressed.vector seq_num flags (ap (λ v. v.drf_required) same ∙ running)
            (subst (λ v. seq_num ≤ v.rcv_left_window_edge) (sym same) old))

-- A data unit of a transfer that is running, with the number after the left edge, comes in for a
-- connection that is found and in use: it is posted to the port of the connection, and when it
-- comes in once more it is refused and nothing is posted.
pub container_receive-delivered :
    (c : Container) (cep i : ℕ) (efcp : Instance) (du : List ℕ) (destination seq_num flags : ℕ)
    → is_cep_id_ok cep ≡ true
    → (imap_find cep c.imap).0 ≡ some i
    → instance_at c.instances i ≡ some efcp
    → efcp.state ≡ efcp_allocated
    → HasHeader du 128 destination seq_num flags
    → efcp.vector.drf_required ≡ false
    → seq_num ≡ efcp.vector.rcv_left_window_edge + 1
    → seq_num < 2 ^ 32
    → (c1 : Container) × ((container_receive c cep du
          ≡ answered true c1 (record { app_port = efcp.connection.port; du = du } ∷ []))
        × ((c2 : Container) × (container_receive c1 cep du ≡ answered false c2 [])))
container_receive-delivered c cep i efcp du destination seq_num flags ok f t live header running
      next below =
    let first : Instance = with_destination 128 destination efcp in
    let new : Instance = record first { vector = at_edge first.vector seq_num } in
    let c1 : Container = put_instance (looked_up c cep) i new in
    let same : first.vector ≡ efcp.vector = with_destination-vector 128 destination efcp in
    let again : Instance = with_destination 128 destination new in
    (
      c1,
      (
        receive-next c cep i efcp du destination seq_num flags ok f t live header running next
            below,
        (
          put_instance (looked_up c1 cep) i (record again { vector = again.vector }),
          receive-old c1 cep i new du destination seq_num flags ok (find-find cep c.imap ∙ f)
              (instance_at-set_self c.instances i efcp new t)
              (with_destination-live 128 destination efcp ∙ live) header
              (ap (λ v. v.drf_required) same ∙ running) (omega arith),
        ),
      ),
    )
