-- ===== src/Efcp/Steps.antt =====
-- components/EFCP: what the operations on a container can lead to.
use rinasense.Base.{
  ℕ, ◌≡◌, ◌⊎◌, refl, sym, subst, Bool, true, false, not, ◌||◌, Option, some, List, [], ◌∷◌, ◌++◌,
  if◌then◌else◌, length, Option-cases, inl, inr,
}
use rinasense.Common.Netbuf.{Netbuf}
use rinasense.Efcp.{
  EfcpConnection, EfcpState, efcp_allocated, efcp_deallocated, by_state, Instance, ImapRow,
  Container, Post, Outcome, answered, crashed, is_cep_id_ok, cep_id_wrong, imap_find, imap_add,
  null_imap_row,
}
use rinasense.Efcp.Units.{looked_up, container_receive, container_write}
use rinasense.Efcp.Connections.{
  Memory, exhausted, zeroed, stale, CreateRequest, Created, created, create_crashed, new_connection,
  create_instance, connection_create, change_connection, connection_modify, connection_update,
  connection_destroy, is_candidate_connection_ok, container_init,
}
use rinasense.Efcp.Keeps.{
  Keeps, if-Keeps, by_state-Keeps, put-IsSingle, looked_up-IsSingle, found-IsLive,
  container_receive-Keeps, dtp_write-refused,
}
use rinasense.Efcp.Heap.{IsLive, instance_at-new}
use rinasense.Efcp.Single.{IsSingle, IsTable, IsNull, find-IsTable, find-IsLive, remove-IsTable}

-- Every operation on a container, with the memory it is given.
pub data Step : Container → Container → Type 0 where
  creates :
      (c c1 : Container) (connection_memory : Bool) (efcp_memory : Memory) (dtp_memory : Bool)
      (request : CreateRequest) (cep : ℕ)
      → connection_create connection_memory efcp_memory dtp_memory c request ≡ created cep c1
      → Step c c1
  modifies :
      (c c1 : Container) (cep source destination : ℕ) (ok : Bool) (posts : List Post)
      → connection_modify c cep source destination ≡ answered ok c1 posts
      → Step c c1
  updates :
      (c c1 : Container) (from to : ℕ) (ok : Bool) (posts : List Post)
      → connection_update c from to ≡ answered ok c1 posts
      → Step c c1
  destroys :
      (c c1 : Container) (cep : ℕ) (ok : Bool) (posts : List Post)
      → connection_destroy c cep ≡ answered ok c1 posts
      → Step c c1
  receives :
      (c c1 : Container) (cep : ℕ) (du : List ℕ) (ok : Bool) (posts : List Post)
      → container_receive c cep du ≡ answered ok c1 posts
      → Step c c1
  writes :
      (c c1 : Container) (pci_memory netbuf_memory memory : Bool) (cep : ℕ) (du : List Netbuf)
      (ok : Bool) (posts : List Post)
      → container_write pci_memory netbuf_memory memory c cep du ≡ answered ok c1 posts
      → Step c c1

pub data Reach (c : Container) : Container → Type 0 where
  here : Reach c c
  next : {c1 c2 : Container} → Reach c c1 → Step c1 c2 → Reach c c2

by_state_live :
    {A : Type 0} (state : EfcpState) (x y : A) → state ≡ efcp_allocated → by_state state x y ≡ x
by_state_live efcp_allocated x y h = refl
by_state_live efcp_deallocated x y h = absurd (cc h)

refused-Keeps :
    (c : Container) (o : Outcome) → (o ≡ crashed) ⊎ (o ≡ answered false c []) → IsSingle c → Keeps o
refused-Keeps c o (inl e) w = subst Keeps (sym e) tt
refused-Keeps c o (inr e) w = subst Keeps (sym e) w

container_write-Keeps :
    (pci_memory netbuf_memory memory : Bool) (c : Container) (cep : ℕ) (du : List Netbuf)
    → IsSingle c
    → Keeps (container_write pci_memory netbuf_memory memory c cep du)
unfolding container_write
container_write-Keeps pci_memory netbuf_memory memory c cep du w =
    let found : IsSingle (looked_up c cep) = looked_up-IsSingle c cep w in
    if-Keeps (not (is_cep_id_ok cep)) _ _ w (elim (Option-cases ((imap_find cep c.imap).0)) [
      | inl e ↦ rw (e) found
      | inr (i, e) ↦
          let (efcp, (h, s)) = found-IsLive c cep i w e in
          rw (e, h)
            (by_state-Keeps efcp.state _ _
              (refused-Keeps (looked_up c cep) _
                (dtp_write-refused pci_memory netbuf_memory memory (looked_up c cep) i efcp du)
                found)
              found)
    ])

change_connection-Keeps :
    (c : Container) (cep : ℕ) (change : EfcpConnection → EfcpConnection)
    → IsSingle c
    → Keeps (change_connection c cep change)
unfolding change_connection
change_connection-Keeps c cep change w =
    let found : IsSingle (looked_up c cep) = looked_up-IsSingle c cep w in
    elim (Option-cases ((imap_find cep c.imap).0)) [
      | inl e ↦ rw (change_connection, e) found
      | inr (i, e) ↦
          let (efcp, (h, s)) = found-IsLive c cep i w e in
          let new : Instance = record efcp { connection = change efcp.connection } in
          rw (change_connection, e, h)
            (subst Keeps (sym (by_state_live efcp.state _ _ s))
              (put-IsSingle (looked_up c cep) i efcp new h s found))
    ]

connection_update-Keeps :
    (c : Container) (from to : ℕ) → IsSingle c → Keeps (connection_update c from to)
unfolding connection_update
connection_update-Keeps c from to w =
    if-Keeps (not (is_cep_id_ok from) || not (is_cep_id_ok to)) _ _ w
      (change_connection-Keeps c from (λ k. record k { destination_cep = to }) w)

connection_destroy-Keeps : (c : Container) (cep : ℕ) → IsSingle c → Keeps (connection_destroy c cep)
unfolding connection_destroy
connection_destroy-Keeps c cep w =
    if-Keeps (not (is_cep_id_ok cep)) _ _ w (elim (Option-cases ((imap_find cep c.imap).0)) [
      | inl e ↦ rw (e) (looked_up-IsSingle c cep w)
      | inr (i, e) ↦ rw (e) (
          remove-IsTable c.instances cep (imap_find cep c.imap).1
            (find-IsTable c.instances cep c.imap w))
    ])

-- Where a creation ends, its container is a single one.
abbrev CreateKeeps : Created → Type 0
CreateKeeps (created cep c) = IsSingle c
CreateKeeps create_crashed = Unit

if-CreateKeeps :
    (b : Bool) (x y : Created) → CreateKeeps x → CreateKeeps y → CreateKeeps (if b then x else y)
if-CreateKeeps true x y h k = h
if-CreateKeeps false x y h k = k

imap_add-IsTable :
    (instances : List (Option Instance)) (efcp : Instance) (rows : List ImapRow)
    → efcp.state ≡ efcp_allocated
    → IsTable instances rows
    → IsTable (instances ++ (some efcp ∷ [])) (imap_add 1 (length instances) rows).1
unfolding imap_add
imap_add-IsTable instances efcp [] s w = tt
imap_add-IsTable instances efcp (r ∷ rows) s w =
    (inr (refl, (length instances, (refl, (efcp, (instance_at-new instances efcp, s))))), w.1)

create_instance-Keeps :
    (c : Container) (request : CreateRequest) (user_ipcp dtp_memory : Bool)
    → IsSingle c
    → CreateKeeps (create_instance c request user_ipcp dtp_memory)
unfolding create_instance
create_instance-Keeps c request user_ipcp dtp_memory w =
    let failed : CreateKeeps (if user_ipcp then create_crashed else created cep_id_wrong c) =
      if-CreateKeeps user_ipcp create_crashed (created cep_id_wrong c) tt w in
    if-CreateKeeps (not (is_candidate_connection_ok (new_connection request))) _ _ failed (
      if-CreateKeeps (not c.rmt_set) _ _ tt (
        if-CreateKeeps (not dtp_memory) _ _ failed (
          if-CreateKeeps (not (imap_add 1 (length c.instances) c.imap).0) _ _ failed
            (imap_add-IsTable c.instances _ c.imap refl w))))

connection_create-Keeps :
    (connection_memory : Bool) (efcp_memory : Memory) (dtp_memory : Bool) (c : Container)
    (request : CreateRequest)
    → IsSingle c
    → CreateKeeps (connection_create connection_memory efcp_memory dtp_memory c request)
unfolding connection_create
connection_create-Keeps connection_memory exhausted dtp_memory c request w =
    if-CreateKeeps (not connection_memory || not request.dtp_config) _ _ tt w
connection_create-Keeps connection_memory zeroed dtp_memory c request w =
    if-CreateKeeps (not connection_memory || not request.dtp_config) _ _ tt
      (create_instance-Keeps c request false dtp_memory w)
connection_create-Keeps connection_memory stale dtp_memory c request w =
    if-CreateKeeps (not connection_memory || not request.dtp_config) _ _ tt
      (create_instance-Keeps c request true dtp_memory w)

Step-IsSingle : {c c1 : Container} → Step c c1 → IsSingle c → IsSingle c1
Step-IsSingle (creates c c1 cm em dm request cep e) w =
    subst CreateKeeps e (connection_create-Keeps cm em dm c request w)
Step-IsSingle (modifies c c1 cep source destination ok posts e) w =
    subst Keeps e (change_connection-Keeps c cep _ w)
Step-IsSingle (updates c c1 from to ok posts e) w =
    subst Keeps e (connection_update-Keeps c from to w)
Step-IsSingle (destroys c c1 cep ok posts e) w = subst Keeps e (connection_destroy-Keeps c cep w)
Step-IsSingle (receives c c1 cep du ok posts e) w =
    subst Keeps e (container_receive-Keeps c cep du w)
Step-IsSingle (writes c c1 pm nm m cep du ok posts e) w =
    subst Keeps e (container_write-Keeps pm nm m c cep du w)

pub Reach-IsSingle : {c c1 : Container} → IsSingle c → Reach c c1 → IsSingle c1
Reach-IsSingle w here = w
Reach-IsSingle w (next r s) = Step-IsSingle s (Reach-IsSingle w r)

-- However a container is used after `xEfcpContainerInit`, its table has one connection at most: an
-- identifier under which an instance is found is 1, and that instance is in use.
pub container_init-found :
    (struct_memory array_memory : Bool) (c c1 : Container) (cep i : ℕ)
    → Reach (container_init struct_memory array_memory c).1 c1
    → (imap_find cep c1.imap).0 ≡ some i
    → (cep ≡ 1) × IsLive c1.instances i
unfolding container_init
container_init-found struct_memory array_memory c c1 cep i r f =
    let null : IsNull null_imap_row = (refl, refl) in
    find-IsLive c1.instances cep c1.imap i
      (Reach-IsSingle (inl null, (null, (null, (null, (null, tt))))) r) f
