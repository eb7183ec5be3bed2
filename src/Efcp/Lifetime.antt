-- ===== src/Efcp/Lifetime.antt =====
-- components/EFCP/EFCP.c: creating connections.
use rinasense.Base.{
  ℕ, ◌≡◌, ◌≢◌, ◌⊎◌, refl, ◌∙◌, sym, subst, Bool, true, false, not, ◌||◌, Option, some, List, [],
  ◌∷◌, ◌++◌, if◌then◌else◌, length, inl, inr,
}
use rinasense.Efcp.{efcp_allocated, Instance, ImapRow, Container, cep_id_wrong, imap_find, imap_add}
use rinasense.Efcp.Dtp.{state_vector_init}
use rinasense.Efcp.Units.{instance_at}
use rinasense.Efcp.Connections.{
  Memory, exhausted, zeroed, stale, CreateRequest, Created, created, create_crashed, new_connection,
  create_instance, connection_create, is_candidate_connection_ok, is_stale,
}
use rinasense.Efcp.Heap.{IsLive, append-IsLive, instance_at-new}
use rinasense.Efcp.Single.{IsSingle, find-IsLive}

-- The instance that `xEfcpConnectionCreate` makes.
abbrev pub new_instance : CreateRequest → Bool → Instance
new_instance request user_ipcp = record {
  connection = new_connection request;
  vector = state_vector_init;
  state = efcp_allocated;
  user_ipcp = user_ipcp;
}

-- What a creation says when it gives the identifier 1.
abbrev IsCreation : Container → CreateRequest → Bool → Created → Type 0
IsCreation c request user_ipcp create_crashed = Unit
IsCreation c request user_ipcp (created cep c1) =
    (cep ≡ cep_id_wrong)
    ⊎ ((c.rmt_set ≡ true)
        × (((imap_find 1 c1.imap).0 ≡ some (length c.instances))
            × (c1.instances ≡ c.instances ++ (some (new_instance request user_ipcp) ∷ []))))

module _ (c : Container) (request : CreateRequest) (user_ipcp : Bool) where
  if-IsCreation :
      (b : Bool) (x y : Created)
      → IsCreation c request user_ipcp x
      → ((b ≡ false) → IsCreation c request user_ipcp y)
      → IsCreation c request user_ipcp (if b then x else y)
  if-IsCreation true x y h k = h
  if-IsCreation false x y h k = k refl

  failed-IsCreation :
      IsCreation c request user_ipcp (if user_ipcp then create_crashed else created cep_id_wrong c)
  failed-IsCreation =
      if-IsCreation user_ipcp create_crashed (created cep_id_wrong c) tt (λ e. inl refl)

not-false : (b : Bool) → not b ≡ false → b ≡ true
not-false true h = refl
not-false false h = absurd (cc h)

find-imap_add :
    (i : ℕ) (rows : List ImapRow)
    → (imap_add 1 i rows).0 ≡ true
    → (imap_find 1 (imap_add 1 i rows).1).0 ≡ some i
unfolding imap_add imap_find
find-imap_add i [] h = absurd (cc h)
find-imap_add i (r ∷ rows) h = refl

create_instance-IsCreation :
    (c : Container) (request : CreateRequest) (user_ipcp dtp_memory : Bool)
    → IsCreation c request user_ipcp (create_instance c request user_ipcp dtp_memory)
unfolding create_instance
create_instance-IsCreation c request user_ipcp dtp_memory =
    let failed = failed-IsCreation c request user_ipcp in
    if-IsCreation c request user_ipcp (not (is_candidate_connection_ok (new_connection request))) _
      _ failed
      (λ a. if-IsCreation c request user_ipcp (not c.rmt_set) _ _ tt (λ rmt.
        if-IsCreation c request user_ipcp (not dtp_memory) _ _ failed (λ d.
          if-IsCreation c request user_ipcp (not (imap_add 1 (length c.instances) c.imap).0) _ _
            failed
            (λ added. inr (
              not-false c.rmt_set rmt,
              (find-imap_add (length c.instances) c.imap (not-false _ added), refl),
            )))))

connection_create-IsCreation :
    (connection_memory : Bool) (efcp_memory : Memory) (dtp_memory : Bool) (c : Container)
    (request : CreateRequest)
    → IsCreation c request
        (is_stale efcp_memory)
        (connection_create connection_memory efcp_memory dtp_memory c request)
unfolding connection_create
connection_create-IsCreation connection_memory exhausted dtp_memory c request =
    if-IsCreation c request false (not connection_memory || not request.dtp_config) _ _ tt
      (λ e. inl refl)
connection_create-IsCreation connection_memory zeroed dtp_memory c request =
    if-IsCreation c request false (not connection_memory || not request.dtp_config) _ _ tt
      (λ e. create_instance-IsCreation c request false dtp_memory)
connection_create-IsCreation connection_memory stale dtp_memory c request =
    if-IsCreation c request true (not connection_memory || not request.dtp_config) _ _ tt
      (λ e. create_instance-IsCreation c request true dtp_memory)

-- When `xEfcpConnectionCreate` gives an identifier that is not wrong, the container knows its RMT,
-- and an instance that was found under 1 before is in use still but is not found any more: the
-- lookup of 1 gives the new instance, with the connection that was asked for.
pub connection_create-replaces :
    (connection_memory : Bool) (efcp_memory : Memory) (dtp_memory : Bool) (c c1 : Container)
    (request : CreateRequest) (cep i : ℕ)
    → IsSingle c
    → (imap_find 1 c.imap).0 ≡ some i
    → connection_create connection_memory efcp_memory dtp_memory c request ≡ created cep c1
    → cep ≢ cep_id_wrong
    → (c.rmt_set ≡ true)
      × (((imap_find 1 c1.imap).0 ≡ some (length c.instances))
          × ((instance_at c1.instances (length c.instances)
                ≡ some (new_instance request (is_stale efcp_memory)))
              × IsLive c1.instances i))
connection_create-replaces cm em dm c c1 request cep i w f e ok =
    elim (subst (IsCreation c request (is_stale em)) e
      (connection_create-IsCreation cm em dm c request)) [
        | inl bad ↦ absurd (ok bad)
        | inr (rmt, (found, heap)) ↦
            let new : Option Instance = some (new_instance request (is_stale em)) in
            (
              rmt,
              (
                found,
                (
                  subst (λ h. instance_at h (length c.instances) ≡ new) (sym heap)
                      (instance_at-new c.instances (new_instance request (is_stale em))),
                  subst (λ h. IsLive h i) (sym heap)
                      (append-IsLive c.instances (new ∷ []) i
                        (find-IsLive c.instances 1 c.imap i w f).1),
                ),
              ),
            )
      ]

-- In a container whose pointer to the RMT is not set, `xEfcpConnectionCreate` gives no identifier.
pub connection_create-no_rmt :
    (connection_memory : Bool) (efcp_memory : Memory) (dtp_memory : Bool) (c c1 : Container)
    (request : CreateRequest) (cep : ℕ)
    → c.rmt_set ≡ false
    → connection_create connection_memory efcp_memory dtp_memory c request ≡ created cep c1
    → cep ≡ cep_id_wrong
connection_create-no_rmt cm em dm c c1 request cep h e =
    elim (subst (IsCreation c request (is_stale em)) e
      (connection_create-IsCreation cm em dm c request)) [
        | inl bad ↦ bad
        | inr (rmt, more) ↦ absurd (cc (sym h ∙ rmt))
      ]
