-- ===== src/Ribd/Connections.antt =====
-- components/Ribd/Ribd_connections.c: the table of application connections.
pub mod Table
pub mod Update
use rinasense.Base.{
  ℕ, zero, suc, ◌+◌, Bool, true, false, not, ◌&&◌, Option, none, some, List, [], ◌∷◌, if◌then◌else◌,
  ◌==◌, set,
}
use rinasense.Common.RinaName.{Name, assign_dup}
use rinasense.Ribd.{
  Connection, ConnectionStatus, connection_released, connection_in_progress, connection_ok,
  RibState, Outcome, returned, blocked, Memory, rib_lock, rib_unlock, success, fail,
  too_many_connections,
}

abbrev pub is_released : ConnectionStatus → Bool
is_released connection_released = true
is_released connection_in_progress = false
is_released connection_ok = false

abbrev zero_name : Name
zero_name = record {
  post_ln = 0;
  process_name = [];
  process_instance = [];
  entity_name = [];
  entity_instance = [];
  block = [];
  owned = false;
}

-- A table entry that `memset` cleared.
abbrev pub zero_connection : Connection
zero_connection = record {
  source_info = zero_name;
  destination_info = zero_name;
  cdap_version = 0;
  rib_version = 0;
  status = connection_released;
  port = 0;
}

-- The body of the loop of `xRibConnectionAdd` on a released entry, and whether both names were
-- copied. A failed copy leaves `pxFree` null.
unfoldable pub fill_connection : Memory → Name → Name → ℕ → Connection → Bool × Connection
fill_connection mem src dst port c =
    let c1 : Connection = record c {
      cdap_version = 1;
      rib_version = 1;
      port = port;
      status = connection_in_progress;
    } in
    elim (assign_dup mem.source_name src) [
      | none ↦ (false, record c1 { source_info = record c.source_info { owned = false } })
      | some s ↦ elim (assign_dup mem.destination_name dst) [
        | none ↦ (
          false,
          record c1 {
            source_info = s;
            destination_info = record c.destination_info { owned = false };
          },
        )
        | some d ↦ (true, record c1 { source_info = s; destination_info = d })
      ]
    ]

-- The loop of `xRibConnectionAdd`; `none` when no entry is released.
unfoldable pub add_connection :
    Memory → Name → Name → ℕ → List Connection → Option (Bool × List Connection)
add_connection mem src dst port [] = none
add_connection mem src dst port (c ∷ rows) = elim (is_released c.status) [
  | true ↦
      some ((fill_connection mem src dst port c).0, (fill_connection mem src dst port c).1 ∷ rows)
  | false ↦ elim (add_connection mem src dst port rows) [
    | none ↦ none
    | some rest ↦ some (rest.0, c ∷ rest.1)
  ]
]

-- `xRibConnectionAdd`; a full table returns without releasing the mutex.
unfoldable pub connection_add : Memory → RibState → Name → Name → ℕ → Outcome
connection_add mem r src dst port = elim (rib_lock r) [
  | none ↦ blocked
  | some r1 ↦ elim (add_connection mem src dst port r1.connections) [
    | none ↦ returned too_many_connections r1
    | some rows ↦
        returned (if rows.0 then success else fail)
          (rib_unlock (record r1 { connections = rows.1 }))
  ]
]

-- The loop of `pxRibConnectionFind`: the index of the entry.
unfoldable pub find_connection : ℕ → List Connection → Option ℕ
find_connection port [] = none
find_connection port (c ∷ rows) =
    if not (is_released c.status) && (c.port == port)
    then some 0
    else elim (find_connection port rows) [ none ↦ none | some i ↦ some (suc i) ]

-- `pxRibConnectionFind`
abbrev pub connection_find : RibState → ℕ → Option ℕ
connection_find r port = find_connection port r.connections

-- `vRibConnectionRelease`
abbrev pub connection_release : RibState → ℕ → RibState
connection_release r i = record r { connections = set r.connections i zero_connection }
