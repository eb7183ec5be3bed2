-- ===== src/Efcp/Keeps.antt =====
-- components/EFCP: receiving and writing keep the table of a container.
use rinasense.Base.{
  ℕ, ◌≡◌, ◌⊎◌, refl, ◌∙◌, Bool, true, false, not, ◌&&◌, ◌||◌, none, some, List, [], ◌∷◌,
  if◌then◌else◌, ◌==◌, Bool-cases, Option-cases, inl, inr,
}
use rinasense.Common.Netbuf.{
  NetbufType, nb_unknown, nb_eth_hdr, nb_eth_data, nb_rina_arp, nb_rina_pci, nb_rina_data, Netbuf,
  total_size,
}
use rinasense.Efcp.{
  EfcpConnection, EfcpState, efcp_allocated, efcp_deallocated, by_state, Instance, Container,
  Outcome, answered, crashed, is_cep_id_ok, cep_id_wrong, imap_find, StateVector,
}
use rinasense.Efcp.Dtp.{pci_byte, pci_seq_num, fill_pci, is_pci}
use rinasense.Efcp.Units.{
  instance_at, put_instance, looked_up, efcp_receive, receive_found, with_destination,
  container_receive, dtp_write, is_data, pdu_type_is_control, count_sent,
}
use rinasense.Efcp.Heap.{IsLive, set-IsLive}
use rinasense.Efcp.Single.{IsSingle, find-IsTable, find-IsLive, IsTable-IsLive}

-- Where a call answers, its container is a single one.
abbrev pub Keeps : Outcome → Type 0
Keeps (answered ok c posts) = IsSingle c
Keeps crashed = Unit

pub if-Keeps : (b : Bool) (x y : Outcome) → Keeps x → Keeps y → Keeps (if b then x else y)
if-Keeps true x y h k = h
if-Keeps false x y h k = k

pub by_state-Keeps :
    (state : EfcpState) (x y : Outcome) → Keeps x → Keeps y → Keeps (by_state state x y)
by_state-Keeps efcp_allocated x y h k = h
by_state-Keeps efcp_deallocated x y h k = k

pub put-IsSingle :
    (c : Container) (i : ℕ) (old new : Instance)
    → instance_at c.instances i ≡ some old
    → new.state ≡ efcp_allocated
    → IsSingle c
    → IsSingle (put_instance c i new)
put-IsSingle c i old new h s w =
    IsTable-IsLive c.instances (put_instance c i new).instances c.imap
      (λ j live. set-IsLive c.instances i j old new h s live) w

pub looked_up-IsSingle : (c : Container) (cep : ℕ) → IsSingle c → IsSingle (looked_up c cep)
looked_up-IsSingle c cep w = find-IsTable c.instances cep c.imap w

efcp_receive-Keeps :
    (c : Container) (i : ℕ) (old efcp : Instance) (type : ℕ) (du : List ℕ)
    → instance_at c.instances i ≡ some old
    → efcp.state ≡ efcp_allocated
    → IsSingle c
    → Keeps (efcp_receive c i efcp type du)
unfolding efcp_receive
efcp_receive-Keeps c i old efcp type du h s w =
    if-Keeps (pdu_type_is_control type) _ _ (put-IsSingle c i old efcp h s w)
      (elim (Option-cases (pci_seq_num du)) [
        | inl e ↦ rw (e) tt
        | inr (seq_num, e) ↦ elim (Option-cases (pci_byte du 7)) [
          | inl f ↦ rw (e, f) tt
          | inr (flags, f) ↦ rw (e, f) (put-IsSingle c i old _ h s w)
        ]
      ])

with_destination-state :
    (type destination : ℕ) (efcp : Instance)
    → (with_destination type destination efcp).state ≡ efcp.state
with_destination-state type destination efcp =
    elim (Bool-cases ((type == 128) && not (efcp.connection.destination_cep == cep_id_wrong))) [
      | inl e ↦ rw (e) refl
      | inr e ↦ rw (e) refl
    ]

receive_found-Keeps :
    (c : Container) (i : ℕ) (efcp : Instance) (du : List ℕ)
    → instance_at c.instances i ≡ some efcp
    → efcp.state ≡ efcp_allocated
    → IsSingle c
    → Keeps (receive_found c i efcp du)
unfolding receive_found
receive_found-Keeps c i efcp du h s w =
    by_state-Keeps efcp.state _ _
      (elim (Option-cases (pci_byte du 6)) [
        | inl e ↦ rw (e) tt
        | inr (type, e) ↦ elim (Option-cases (pci_byte du 4)) [
          | inl f ↦ rw (e, f) tt
          | inr (destination, f) ↦
              rw (e, f)
                (efcp_receive-Keeps c i efcp (with_destination type destination efcp) type du h
                  (with_destination-state type destination efcp ∙ s) w)
        ]
      ])
      w

-- What holds of the lookup of an identifier: the instance that is found is in use.
pub found-IsLive :
    (c : Container) (cep i : ℕ)
    → IsSingle c
    → (imap_find cep c.imap).0 ≡ some i
    → IsLive c.instances i
found-IsLive c cep i w f = (find-IsLive c.instances cep c.imap i w f).1

pub container_receive-Keeps :
    (c : Container) (cep : ℕ) (du : List ℕ) → IsSingle c → Keeps (container_receive c cep du)
unfolding container_receive
container_receive-Keeps c cep du w =
    if-Keeps (not (is_cep_id_ok cep)) _ _ w (elim (Option-cases ((imap_find cep c.imap).0)) [
      | inl e ↦ rw (e) (looked_up-IsSingle c cep w)
      | inr (i, e) ↦
          let (efcp, (h, s)) = found-IsLive c cep i w e in
          rw (e, h)
            (receive_found-Keeps (looked_up c cep) i efcp du h s (looked_up-IsSingle c cep w))
    ])

pub fill_pci-data :
    (sv : StateVector) (connection : EfcpConnection) (size seq_num : ℕ) (n : Netbuf)
    → is_pci n.kind ≡ false
    → fill_pci sv connection size seq_num n ≡ none
unfolding fill_pci
fill_pci-data sv connection size seq_num n e = rw (e) refl

pub data_not_pci : (k : NetbufType) → is_data k ≡ true → is_pci k ≡ false
data_not_pci nb_unknown h = refl
data_not_pci nb_eth_hdr h = refl
data_not_pci nb_eth_data h = refl
data_not_pci nb_rina_arp h = refl
data_not_pci nb_rina_pci h = absurd (cc h)
data_not_pci nb_rina_data h = refl

-- `xDtpWrite` changes nothing where it answers, and it answers false.
pub dtp_write-refused :
    (pci_memory netbuf_memory memory : Bool) (c : Container) (i : ℕ) (efcp : Instance)
    (du : List Netbuf)
    → (dtp_write pci_memory netbuf_memory memory c i efcp du ≡ crashed)
      ⊎ (dtp_write pci_memory netbuf_memory memory c i efcp du ≡ answered false c [])
unfolding dtp_write
dtp_write-refused pci_memory netbuf_memory memory c i efcp [] = inl refl
dtp_write-refused pci_memory netbuf_memory memory c i efcp (n ∷ rest) =
    elim (Bool-cases (n.freed || not (is_data n.kind))) [
      | inl e ↦ inl (rw (dtp_write, e) refl)
      | inr e ↦ elim (Bool-cases (not pci_memory || not netbuf_memory)) [
        | inl f ↦ inr (rw (dtp_write, e, f) refl)
        | inr f ↦
            let kind : is_pci n.kind ≡ false = data_not_pci n.kind (second_false n.freed _ e) in
            let stuck : fill_pci efcp.vector efcp.connection (total_size (n ∷ rest))
                  (count_sent efcp).vector.next_seq_number_to_send n
                ≡ none =
              fill_pci-data efcp.vector efcp.connection (total_size (n ∷ rest))
                (count_sent efcp).vector.next_seq_number_to_send n kind in
            inl (rw (dtp_write, e, f, stuck) refl)
      ]
    ]
  where
    second_false : (a b : Bool) → (a || not b) ≡ false → b ≡ true
    second_false true b h = absurd (cc h)
    second_false false true h = refl
    second_false false false h = absurd (cc h)
