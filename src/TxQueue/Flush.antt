-- ===== src/TxQueue/Flush.antt =====
-- CywTxFlush of src/cyw43455/tx_queue.h: close the gate and complete everything, oldest first.
use rpi5_wifi_driver_win11ar.Prelude.{ℕ, zero, suc, ◌+◌, Option, none, some, length}
use rpi5_wifi_driver_win11ar.TxQueue.State.{System}
use rpi5_wifi_driver_win11ar.TxQueue.Release.{
  set_gate, remove_entry, remove_backlog, complete, complete_backlog,
}

-- One round of the loop; `none` is its `break`.
unfoldable pub flush_backlog : (ℕ → ℕ) → System → ℕ → Option System
flush_backlog time s status = elim (remove_backlog time s 0 status) [
  | none ↦ none
  | some (nbl, t) ↦ some (complete_backlog t nbl status)
]

unfoldable pub flush_round : (ℕ → ℕ) → System → ℕ → Option System
unfolding flush_backlog
flush_round time s status = elim (remove_entry s 0 status) [
  | none ↦ flush_backlog time s status
  | some (nbl, t) ↦ some (complete time t nbl status)
]

unfoldable pub flush_while : (ℕ → ℕ) → ℕ → System → ℕ → System
flush_while time zero s status = s
flush_while time (suc fuel) s status = elim (flush_round time s status) [
  | none ↦ s
  | some t ↦ flush_while time fuel t status
]

-- A round completes one list, so there are as many rounds as lists.
unfoldable pub flush : (ℕ → ℕ) → System → ℕ → System
unfolding flush_while set_gate
flush time s status =
    flush_while time (length s.queue.entries + length s.queue.backlog) (set_gate s status) status
