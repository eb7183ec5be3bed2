-- ===== src/Efcp/Tests.antt =====
-- The theorems about components/EFCP at concrete inputs.
use rinasense.Base.{
  ℕ, ◌-◌, ◌^◌, ◌≤◌, ◌≡◌, refl, true, false, none, some, List, [], ◌∷◌, ◌++◌, replicate, arith, inr,
  times,
}
use rinasense.Base.Bits.{test_bit}
use rinasense.Common.NumMgr.{create as create_numbers}
use rinasense.Common.Netbuf.{Netbuf, nb_rina_data}
use rinasense.Efcp.{
  StateVector, Container, answered, imap_find, imap_add, null_imap_row, cep_id_wrong,
}
use rinasense.Efcp.Dtp.{state_vector_init, pci_seq_num, dtp_receive}
use rinasense.Efcp.Units.{instance_at, container_receive}
use rinasense.Efcp.Connections.{
  zeroed, stale, CreateRequest, created, connection_create, create_instance, connection_destroy,
  container_init, zero_container, max_cep_id,
}
use rinasense.Efcp.Heap.{IsLive}
use rinasense.Efcp.Single.{IsSingle}
use rinasense.Efcp.Steps.{here, next, creates, container_init-found}
use rinasense.Efcp.Window.{receive_all, receive_all-old_dropped, receive_all-posted, at_edge}
use rinasense.Efcp.Run.{receive_all-numbers, receive_all-gap, receive_all-stuck, started, run}
use rinasense.Efcp.Delivery.{container_receive-delivered}
use rinasense.Efcp.Lifetime.{connection_create-replaces, connection_create-no_rmt, new_instance}
use rinasense.Efcp.Destroy.{connection_destroy-leaks}

abbrev running : StateVector
running = started state_vector_init 5

-- Numbers 6, 8 (over a gap), 7 and 6 again.
abbrev units : List (ℕ × ℕ)
units = (6, 0) ∷ ((8, 0) ∷ ((7, 0) ∷ ((6, 0) ∷ [])))

units-receive_all : receive_all running units ≡ (6 ∷ (8 ∷ (7 ∷ [])), at_edge running 7)
unfolding receive_all dtp_receive
units-receive_all = refl

receive_all-old_dropped_example :
    (5 ≤ (receive_all running units).1.rcv_left_window_edge)
    × (times 3 (receive_all running units).0 ≡ 0)
receive_all-old_dropped_example = receive_all-old_dropped running units 3 refl (omega arith)

receive_all-posted_example : 1 ≤ times 7 (receive_all running units).0
unfolding receive_all dtp_receive
receive_all-posted_example = receive_all-posted running units 7 refl (omega arith) (omega arith)

receive_all-numbers_example :
    receive_all state_vector_init ((5, 128) ∷ (run 5 (0 ∷ (0 ∷ [])) ++ ((6, 0) ∷ ((7, 0) ∷ []))))
    ≡ (5 ∷ (6 ∷ (7 ∷ [])), started state_vector_init 7)
unfolding test_bit
receive_all-numbers_example =
    receive_all-numbers state_vector_init 5 128 (0 ∷ (0 ∷ [])) ((6, 0) ∷ ((7, 0) ∷ [])) refl refl
      (omega arith) (omega arith, (omega arith, tt))

receive_all-gap_example : receive_all running (replicate 3 (9, 0)) ≡ (9 ∷ (9 ∷ (9 ∷ [])), running)
receive_all-gap_example = receive_all-gap running 9 0 3 refl (omega arith)

receive_all-stuck_runs :
    receive_all (started state_vector_init (2 ^ 32 - 1)) ((0, 0) ∷ ((1, 0) ∷ []))
    ≡ ([], started state_vector_init (2 ^ 32 - 1))
receive_all-stuck_runs =
    receive_all-stuck (started state_vector_init (2 ^ 32 - 1)) ((0, 0) ∷ ((1, 0) ∷ [])) refl refl
      (omega arith, (omega arith, tt))

abbrev request : CreateRequest
request = record {
  source_address = 3;
  destination_address = 4;
  port = 33;
  qos_id = 1;
  source_cep = 255;
  destination_cep = 255;
  dtp_config = true;
}

-- A container that knows its RMT, without a connection and with one.
abbrev bound : Container
bound = record zero_container { rmt_set = true }

abbrev connected : Container
connected = record bound {
  imap =
      record { cep_id_key = 1; efcp_value = some 0; uc_valid = 1 }
      ∷ (null_imap_row ∷ (null_imap_row ∷ (null_imap_row ∷ (null_imap_row ∷ []))));
  instances = some (new_instance request false) ∷ [];
}

connected-IsSingle : IsSingle connected
connected-IsSingle = (
  inr (refl, (0, (refl, (new_instance request false, (refl, refl))))),
  ((refl, refl), ((refl, refl), ((refl, refl), ((refl, refl), tt)))),
)

bound-connection_create : connection_create true zeroed true bound request ≡ created 1 connected
unfolding connection_create create_instance imap_add
bound-connection_create = refl

connection_create-no_rmt_runs : cep_id_wrong ≡ cep_id_wrong
unfolding connection_create create_instance
connection_create-no_rmt_runs =
    connection_create-no_rmt true zeroed true zero_container zero_container
      (record request { port = 2 ^ 32 - 1 }) cep_id_wrong refl refl

abbrev replaced : Container
replaced = record connected {
  imap =
      record { cep_id_key = 1; efcp_value = some 1; uc_valid = 1 }
      ∷ (null_imap_row ∷ (null_imap_row ∷ (null_imap_row ∷ (null_imap_row ∷ []))));
  instances = some (new_instance request false) ∷ (some (new_instance request true) ∷ []);
}

connection_create-replaces_example :
    (true ≡ true)
    × (((imap_find 1 replaced.imap).0 ≡ some 1)
        × ((instance_at replaced.instances 1 ≡ some (new_instance request true))
            × IsLive replaced.instances 0))
unfolding connection_create create_instance imap_add imap_find
connection_create-replaces_example =
    connection_create-replaces true stale true connected replaced request 1 0 connected-IsSingle
      refl refl (λ e. absurd (omega (arith, e)))

connection_destroy-leaks_example :
    (c1 : Container) × ((connection_destroy connected 1 ≡ answered false c1 [])
      × (((imap_find 1 c1.imap).0 ≡ none)
          × ((c1.instances ≡ connected.instances) × IsLive c1.instances 0)))
unfolding imap_find
connection_destroy-leaks_example = connection_destroy-leaks connected 1 0 1 connected-IsSingle refl

abbrev payload : Netbuf
payload = record {
  kind = nb_rina_data;
  size = 2;
  buf = 7 ∷ (9 ∷ []);
  buf_start = some 0;
  freed = false;
}

-- A connection in the middle of a transfer, and the next data unit for it.
abbrev transferring : Container
transferring = record connected {
  instances = some (record (new_instance request false) { vector = running }) ∷ [];
}

abbrev next_unit : List ℕ
next_unit =
    1 ∷ (1 ∷ (4 ∷ (1 ∷ (1 ∷ (2 ∷ (128 ∷ (0 ∷ (16 ∷ (0 ∷ (6 ∷ (0 ∷ (0 ∷ (0 ∷ (42 ∷ []))))))))))))))

container_receive-delivered_example :
    (c1 : Container) × ((container_receive transferring 1 next_unit
        ≡ answered true c1 (record { app_port = 33; du = next_unit } ∷ []))
      × ((c2 : Container) × (container_receive c1 1 next_unit ≡ answered false c2 [])))
unfolding imap_find pci_seq_num
container_receive-delivered_example =
    container_receive-delivered transferring 1 0
      (record (new_instance request false) { vector = running }) next_unit 1 6 0 refl refl refl refl
      (refl, (refl, (refl, refl))) refl refl (omega arith)

abbrev first_cep : ℕ
first_cep = 1

-- A container with the numbers that `xEfcpContainerInit` gives it.
abbrev numbered : Container → Container
numbered c = record c { cidm = create_numbers true true max_cep_id }

container_init-found_example : (first_cep ≡ 1) × IsLive (numbered replaced).instances 1
unfolding connection_create create_instance imap_add imap_find container_init
container_init-found_example =
    container_init-found true true bound (numbered replaced) 1 1
      (next (next here (creates _ (numbered connected) true zeroed true request 1 refl))
        (creates (numbered connected) (numbered replaced) true stale true request 1 refl))
      refl
