-- ===== src/Rmt/Ports.antt =====
-- Rmt.c: the N-1 ports, their counters, and the addresses.
use mathlib.Core.Option.{some-injective}
use rinasense.Base.{
  ℕ, ◌≡◌, ◌≢◌, refl, ap, ◌∙◌, sym, true, false, none, some, List, [], ◌∷◌, ◌==◌, arith, Bool-cases,
  inl, inr, eq_refl,
}
use rinasense.Rmt.{
  N1Port, Rmt, answered, list_insert, port_find, update_port, port_id_wrong, n1_port_create,
  n1_port_bind,
}

port_find-first :
    (port : ℕ) (n : N1Port) (ports : List N1Port)
    → (n.port == port) ≡ true
    → port_find port (n ∷ ports) ≡ some n
unfolding port_find
port_find-first port n ports e = rw (e)

port_find-skip :
    (port : ℕ) (n : N1Port) (ports : List N1Port)
    → (n.port == port) ≡ false
    → port_find port (n ∷ ports) ≡ port_find port ports
unfolding port_find
port_find-skip port n ports e = rw (e)

port_find-cons :
    (port : ℕ) (n : N1Port) (ports ports' : List N1Port)
    → port_find port ports ≡ port_find port ports'
    → port_find port (n ∷ ports) ≡ port_find port (n ∷ ports')
unfolding port_find
port_find-cons port n ports ports' h = rw (h)

update_port-first :
    (port : ℕ) (change : N1Port → N1Port) (n : N1Port) (ports : List N1Port)
    → (n.port == port) ≡ true
    → update_port port change (n ∷ ports) ≡ change n ∷ ports
unfolding update_port
update_port-first port change n ports e = rw (e)

update_port-skip :
    (port : ℕ) (change : N1Port → N1Port) (n : N1Port) (ports : List N1Port)
    → (n.port == port) ≡ false
    → update_port port change (n ∷ ports) ≡ n ∷ update_port port change ports
unfolding update_port
update_port-skip port change n ports e = rw (e)

-- A port changed in place is found changed, and the others as they were.
pub port_find-update_port :
    (port : ℕ) (change : N1Port → N1Port) (ports : List N1Port) (p : N1Port)
    → ((n : N1Port) → (change n).port ≡ n.port)
    → port_find port ports ≡ some p
    → port_find port (update_port port change ports) ≡ some (change p)
unfolding port_find
port_find-update_port port change [] p k h = absurd (cc h)
port_find-update_port port change (n ∷ ports) p k h = elim (Bool-cases (n.port == port)) [
  | inl e ↦
      ap (port_find port) (update_port-first port change n ports e)
      ∙ (port_find-first port (change n) ports (rw (k n) e)
          ∙ ap (λ m. some (change m))
              (some-injective _ _ (sym (port_find-first port n ports e) ∙ h)))
  | inr e ↦
      ap (port_find port) (update_port-skip port change n ports e)
      ∙ (port_find-skip port n (update_port port change ports) e
          ∙ port_find-update_port port change ports p k (sym (port_find-skip port n ports e) ∙ h))
]

pub port_find-update_port_ne :
    (port q : ℕ) (change : N1Port → N1Port) (ports : List N1Port)
    → ((n : N1Port) → (change n).port ≡ n.port)
    → q ≢ port
    → port_find q (update_port port change ports) ≡ port_find q ports
unfolding update_port
port_find-update_port_ne port q change [] k ne = refl
port_find-update_port_ne port q change (n ∷ ports) k ne = elim (Bool-cases (n.port == port)) [
  | inl e ↦
      let quiet : (n.port == q) ≡ false = ground (arith, ne) in
      ap (port_find q) (update_port-first port change n ports e)
      ∙ (port_find-skip q (change n) ports (rw (k n) quiet) ∙ sym (port_find-skip q n ports quiet))
  | inr e ↦
      ap (port_find q) (update_port-skip port change n ports e)
      ∙ port_find-cons q n (update_port port change ports) ports
          (port_find-update_port_ne port q change ports k ne)
]

bound :
    (p : N1Port) (ports : List N1Port)
    → port_find p.port ports ≡ none
    → port_find p.port (list_insert ports p) ≡ some p
unfolding list_insert
bound p [] n = port_find-first p.port p [] (eq_refl p.port)
bound p (m ∷ ports) n = elim (Bool-cases (m.port == p.port)) [
  | inl e ↦ absurd (cc (sym (port_find-first p.port m ports e) ∙ n))
  | inr e ↦ port_find-skip p.port m (p ∷ ports) e ∙ port_find-first p.port p ports (eq_refl p.port)
]

unmoved :
    (q : ℕ) (p : N1Port) (ports : List N1Port)
    → q ≢ p.port
    → port_find q (list_insert ports p) ≡ port_find q ports
unfolding list_insert
unmoved q p [] ne = port_find-skip q p [] (ground (arith, ne))
unmoved q p (m ∷ ports) ne =
    port_find-cons q m (p ∷ ports) ports (port_find-skip q p ports (ground (arith, ne)))

bind_free :
    (rmt : Rmt) (port n1_ipcp : ℕ)
    → port ≢ port_id_wrong
    → port_find port rmt.ports ≡ none
    → n1_port_bind true rmt port n1_ipcp
      ≡ answered true (record rmt { ports = list_insert rmt.ports (n1_port_create port n1_ipcp) })
unfolding n1_port_bind
bind_free rmt port n1_ipcp w n =
    let ok : (port == port_id_wrong) ≡ false = ground (arith, w) in rw (n1_port_bind, ok, n)

bind_taken :
    (rmt : Rmt) (port n1_ipcp : ℕ) (p : N1Port)
    → port ≢ port_id_wrong
    → port_find port rmt.ports ≡ some p
    → n1_port_bind true rmt port n1_ipcp ≡ answered false rmt
unfolding n1_port_bind
bind_taken rmt port n1_ipcp p w n =
    let ok : (port == port_id_wrong) ≡ false = ground (arith, w) in rw (n1_port_bind, ok, n)

-- `xRmtN1PortBind` of a port that is not bound, when memory is there: the port is found, new and
-- enabled, every other port is as before, and binding it once more is refused.
pub n1_port_bind-port_find :
    (rmt : Rmt) (port n1_ipcp q : ℕ)
    → port ≢ port_id_wrong
    → q ≢ port
    → port_find port rmt.ports ≡ none
    → (r1 : Rmt) × ((n1_port_bind true rmt port n1_ipcp ≡ answered true r1)
        × ((port_find port r1.ports ≡ some (n1_port_create port n1_ipcp))
            × ((port_find q r1.ports ≡ port_find q rmt.ports)
                × (n1_port_bind true r1 port n1_ipcp ≡ answered false r1))))
n1_port_bind-port_find rmt port n1_ipcp q w ne n =
    let p : N1Port = n1_port_create port n1_ipcp in
    let r1 : Rmt = record rmt { ports = list_insert rmt.ports p } in
    (
      r1,
      (
        bind_free rmt port n1_ipcp w n,
        (
          bound p rmt.ports n,
          (unmoved q p rmt.ports ne, bind_taken r1 port n1_ipcp p w (bound p rmt.ports n)),
        ),
      ),
    )
