-- ===== src/Rmt/Receive.antt =====
-- Rmt.c: what is counted and delivered when a data unit comes in or goes out.
use rinasense.Base.{
  ℕ, ◌≡◌, ◌≢◌, refl, ap, ◌∙◌, sym, subst, Bool, true, false, not, ◌||◌, ◌&&◌, none, some, List, [],
  ◌∷◌, if◌then◌else◌, ◌==◌, arith, length, Option-cases, inl, inr, ltb, get_elem?, drop,
}
use rinasense.Rmt.{
  N1Port, Rmt, Stack, Outcome, answered, crashed, port_find, update_port, port_id_wrong,
  is_addressed_to_me, byte_wrong,
}
use rinasense.Rmt.Pdu.{
  count_rx, receive, read_header, deliver, process_dt_pdu, pci_size, pci_get, pci_type,
  pci_destination, pci_qos_id, pdu_type_is_ok, pdu_type_mgmt, is_data_type, pci_cep_destination,
}
use rinasense.Rmt.Send.{count_tx, must_enqueue, send_port_id}
use rinasense.Rmt.Ports.{port_find-update_port, port_find-update_port_ne}

-- The RMT that an answer leaves.
abbrev Leaves : Rmt → Outcome → Type 0
Leaves rmt (answered ok r1) = r1 ≡ rmt
Leaves rmt crashed = Unit

if-Leaves :
    (rmt : Rmt) (b : Bool) (x y : Outcome)
    → Leaves rmt x
    → Leaves rmt y
    → Leaves rmt (if b then x else y)
if-Leaves rmt true x y h k = h
if-Leaves rmt false x y h k = k

process_dt_pdu-Leaves :
    (stack : Stack) (rmt : Rmt) (port : ℕ) (du : List ℕ)
    → Leaves rmt (process_dt_pdu stack rmt port du)
unfolding process_dt_pdu
process_dt_pdu-Leaves stack rmt port du = elim (Option-cases (get_elem? du pci_destination)) [
  | inl e ↦ rw (process_dt_pdu, e) tt
  | inr (destination, e) ↦ elim (Option-cases (get_elem? du pci_type)) [
    | inl f ↦ rw (process_dt_pdu, e, f) (if-Leaves rmt (destination == byte_wrong) _ _ refl tt)
    | inr (type, f) ↦ elim (Option-cases (get_elem? du pci_cep_destination)) [
      | inl g ↦
          rw (process_dt_pdu, e, f, g)
            (if-Leaves rmt (destination == byte_wrong) _ _ refl
              (if-Leaves rmt (type == pdu_type_mgmt) _ _ refl tt))
      | inr (cep, g) ↦
          rw (process_dt_pdu, e, f, g)
            (if-Leaves rmt (destination == byte_wrong) _ _ refl (
              if-Leaves rmt (type == pdu_type_mgmt) _ _ refl
                (if-Leaves rmt (cep == byte_wrong) _ _ refl refl)))
    ]
  ]
]

deliver-Leaves :
    (stack : Stack) (rmt : Rmt) (port type destination : ℕ) (payload : List ℕ)
    → Leaves rmt (deliver stack rmt port type destination payload)
unfolding deliver
deliver-Leaves stack rmt port type destination [] =
    if-Leaves rmt (is_addressed_to_me rmt.addresses destination) _ _
      (if-Leaves rmt ((type == pdu_type_mgmt) || is_data_type type) _ _ tt refl)
      (if-Leaves rmt (destination == 0) _ _ tt refl)
deliver-Leaves stack rmt port type destination (b ∷ payload) =
    if-Leaves rmt (is_addressed_to_me rmt.addresses destination) _ _
      (if-Leaves rmt (type == pdu_type_mgmt) _ _ refl (
        if-Leaves rmt (is_data_type type) _ _ (process_dt_pdu-Leaves stack rmt port (b ∷ payload))
          refl))
      (if-Leaves rmt (destination == 0) _ _ refl refl)

read_header-Leaves :
    (stack : Stack) (memory : Bool) (rmt : Rmt) (du : List ℕ) (port : ℕ)
    → Leaves rmt (read_header stack memory rmt du port)
unfolding read_header
read_header-Leaves stack memory rmt du port =
    if-Leaves rmt (ltb (length du) pci_size) _ _ refl
      (if-Leaves rmt (not memory && not (length du == pci_size)) _ _ refl fields)
  where
    fields : Leaves rmt (elim (pci_get du pci_type) [
      | none ↦ crashed
      | some type ↦ elim (pci_get du pci_destination) [
        | none ↦ crashed
        | some destination ↦ elim (pci_get du pci_qos_id) [
          | none ↦ crashed
          | some qos_id ↦
              if not (pdu_type_is_ok type)
                || ((destination == byte_wrong) || (qos_id == byte_wrong))
              then answered false rmt
              else deliver stack rmt port type destination (drop pci_size du)
        ]
      ]
    ])
    fields = elim (Option-cases (get_elem? du pci_type)) [
      | inl e ↦ rw (e) tt
      | inr (type, e) ↦ elim (Option-cases (get_elem? du pci_destination)) [
        | inl f ↦ rw (e, f) tt
        | inr (destination, f) ↦ elim (Option-cases (get_elem? du pci_qos_id)) [
          | inl g ↦ rw (e, f, g) tt
          | inr (qos_id, g) ↦
              rw (e, f, g)
                (if-Leaves rmt
                  (not (pdu_type_is_ok type)
                    || ((destination == byte_wrong) || (qos_id == byte_wrong)))
                  _ _ refl (deliver-Leaves stack rmt port type destination (drop pci_size du)))
        ]
      ]
    ]

abbrev pub counted : ℕ → ℕ → Rmt → Rmt
counted port bytes rmt = record rmt { ports = update_port port (count_rx bytes) rmt.ports }

pub receive-read_header :
    (stack : Stack) (memory : Bool) (rmt : Rmt) (du : List ℕ) (port : ℕ) (p : N1Port)
    → port ≢ port_id_wrong
    → port_find port rmt.ports ≡ some p
    → receive stack memory rmt du port
      ≡ read_header stack memory (counted port (length du) rmt) du port
unfolding receive
receive-read_header stack memory rmt du port p w h =
    let ok : (port == port_id_wrong) ≡ false = ground (arith, w) in rw (receive, ok, h)

answered-Leaves :
    (rmt r1 : Rmt) (ok : Bool) (o : Outcome) → Leaves rmt o → o ≡ answered ok r1 → r1 ≡ rmt
answered-Leaves rmt r1 ok o h e = subst (Leaves rmt) e h

-- Whatever a data unit holds, when `xRmtReceive` answers on a bound port, that port has counted
-- one more data unit and its bytes, and the other ports and the addresses are as before.
pub receive-count_rx :
    (stack : Stack) (memory : Bool) (rmt r1 : Rmt) (du : List ℕ) (port q : ℕ) (p : N1Port)
    (ok : Bool)
    → port ≢ port_id_wrong
    → q ≢ port
    → port_find port rmt.ports ≡ some p
    → receive stack memory rmt du port ≡ answered ok r1
    → (port_find port r1.ports ≡ some (count_rx (length du) p))
      × ((port_find q r1.ports ≡ port_find q rmt.ports) × (r1.addresses ≡ rmt.addresses))
receive-count_rx stack memory rmt r1 du port q p ok w ne h e =
    let same : r1 ≡ counted port (length du) rmt =
      answered-Leaves (counted port (length du) rmt) r1 ok
        (read_header stack memory (counted port (length du) rmt) du port)
        (read_header-Leaves stack memory (counted port (length du) rmt) du port)
        (sym (receive-read_header stack memory rmt du port p w h) ∙ e) in
    (
      ap (λ r. port_find port r.ports) same
          ∙ port_find-update_port port (count_rx (length du)) rmt.ports p (λ n. refl) h,
      (
        ap (λ r. port_find q r.ports) same
            ∙ port_find-update_port_ne port q (count_rx (length du)) rmt.ports (λ n. refl) ne,
        ap (λ r. r.addresses) same,
      ),
    )

-- `xRmtSendPortId` on a bound port that is free to send: it reports success whether the N-1
-- process wrote the data unit or not, and counts one data unit and, as its bytes, 1 or 0.
pub send_port_id-count_tx :
    (stack : Stack) (rmt : Rmt) (port q : ℕ) (du : List ℕ) (p : N1Port)
    → q ≢ port
    → port_find port rmt.ports ≡ some p
    → must_enqueue p ≡ false
    → (r1 : Rmt) × ((send_port_id stack rmt port du ≡ (true, r1))
        × ((port_find port r1.ports ≡ some (count_tx (stack.du_write p.n1_ipcp port du) p))
            × (port_find q r1.ports ≡ port_find q rmt.ports)))
unfolding send_port_id
send_port_id-count_tx stack rmt port q du p ne h m =
    let change = count_tx (stack.du_write p.n1_ipcp port du) in
    (
      record rmt { ports = update_port port change rmt.ports },
      (
        rw (send_port_id, h, m) refl,
        (
          port_find-update_port port change rmt.ports p (λ n. refl) h,
          port_find-update_port_ne port q change rmt.ports (λ n. refl) ne,
        ),
      ),
    )
