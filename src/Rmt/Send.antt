-- ===== src/Rmt/Send.antt =====
-- components/Rmt/Rmt.c: sending a data unit on a port.
use rinasense.Base.{
  ℕ, ◌+◌, ◌%◌, ◌^◌, Bool, true, false, not, ◌||◌, none, some, List, if◌then◌else◌, ◌==◌,
}
use rinasense.Rmt.{
  FlowState, port_enabled, port_disabled, port_do_not_disable, port_deallocated, N1Port, Rmt, Stack,
  port_find, update_port,
}

abbrev is_disabled : FlowState → Bool
is_disabled port_enabled = false
is_disabled port_disabled = true
is_disabled port_do_not_disable = false
is_disabled port_deallocated = false

-- `stats_inc(tx, ...)` of `xRmtSendPortId`, which is given the result of the write.
abbrev pub count_tx : Bool → N1Port → N1Port
count_tx written p = record p {
  busy = false;
  stats = record p.stats {
    tx_pdus = (p.stats.tx_pdus + 1) % 2 ^ 32;
    tx_bytes = (p.stats.tx_bytes + (if written then 1 else 0)) % 2 ^ 32;
  };
}

abbrev pub count_err : N1Port → N1Port
count_err p = record p { stats = record p.stats { err_pdus = (p.stats.err_pdus + 1) % 2 ^ 32 } }

abbrev pub must_enqueue : N1Port → Bool
must_enqueue p = not (p.stats.plen == 0) || (p.busy || is_disabled p.state)

-- `xRmtSendPortId`, whose policy always sends.
unfoldable pub send_port_id : Stack → Rmt → ℕ → List ℕ → Bool × Rmt
send_port_id stack rmt port du = elim (port_find port rmt.ports) [
  | none ↦ (false, rmt)
  | some p ↦
      if must_enqueue p
      then (false, record rmt { ports = update_port port count_err rmt.ports })
      else (
        true,
        record rmt {
          ports = update_port port (count_tx (stack.du_write p.n1_ipcp port du)) rmt.ports;
        },
      )
]
