-- ===== src/TxQueue/Pump.antt =====
-- CywTxPump of src/cyw43455/tx_queue.h, as the default build compiles it: RPI5CYW_TX_GLOM2 is 0 and
-- RPI5CYW_TX_SERVICE_BURST4 is 1.
use rpi5_wifi_driver_win11ar.Prelude.{
  ℕ, zero, suc, ◌+◌, Bool, true, false, not, ◌&&◌, List, [], ◌∷◌, Option, none, some, ltb, ◌==◌,
  ◌!=◌, if◌then◌else◌, inc32,
}
use rpi5_wifi_driver_win11ar.TxQueue.State.{
  PendingSend, TxState, System, status_success, service_burst_max,
}
use rpi5_wifi_driver_win11ar.TxQueue.Admission.{adaptive_small_length}
use rpi5_wifi_driver_win11ar.TxQueue.Release.{
  abort_status, remove_entry, remove_backlog, complete, complete_backlog,
}

-- NTSTATUS values of the transfer functions, and NT_SUCCESS.
abbrev pub status_device_busy : ℕ
status_device_busy = 0x80000011

abbrev pub status_insufficient_resources : ℕ
status_insufficient_resources = 0xc000009a

abbrev pub nt_success : ℕ → Bool
nt_success status = ltb status 0x80000000

unfoldable pub tick : System → System
tick s = record s { clock_reads = s.clock_reads + 1 }

-- The first item from an index on that has to be aborted, with its abort status.
pub record Aborted : Type 0 where
  pub index : ℕ
  pub item : PendingSend
  pub status : ℕ

unfoldable pub find_aborted : TxState → ℕ → List PendingSend → ℕ → Option Aborted
find_aborted q now [] index = none
find_aborted q now (item ∷ rest) index =
    let completion = abort_status q item now in
    if completion != status_success
    then some (record { index = index; item = item; status = completion })
    else find_aborted q now rest (index + 1)

unfoldable pub count_expired : System → Aborted → System
count_expired s a =
    if s.queue.gate == status_success && not a.item.cancelled
    then record s { counters = record s.counters { tx_expired = inc32 s.counters.tx_expired } }
    else s

unfoldable pub count_backlog_abort : System → Aborted → System
count_backlog_abort s a =
    if s.queue.gate == status_success
    then (if a.item.cancelled
        then record s {
          counters = record s.counters {
            tx_backlog_cancelled = inc32 s.counters.tx_backlog_cancelled;
          };
        }
        else record s {
          counters = record s.counters {
            tx_expired = inc32 s.counters.tx_expired;
            tx_backlog_expired = inc32 s.counters.tx_backlog_expired;
          };
        })
    else s

-- Removing and completing one list.
unfoldable pub complete_entry : (ℕ → ℕ) → System → ℕ → ℕ → System
complete_entry time s index status = elim (remove_entry s index status) [
  | none ↦ s
  | some (nbl, t) ↦ complete time t nbl status
]

unfoldable pub complete_item : (ℕ → ℕ) → System → ℕ → ℕ → System
complete_item time s index status = elim (remove_backlog time s index status) [
  | none ↦ s
  | some (nbl, t) ↦ complete_backlog t nbl status
]

-- One round of the cleanup loop; `none` is its `break`, with the clock read once.
unfoldable pub sweep_backlog : (ℕ → ℕ) → System → Option Aborted → Option System
unfolding count_backlog_abort complete_item
sweep_backlog time s none = none
sweep_backlog time s (some a) = some (complete_item time (count_backlog_abort s a) a.index a.status)

unfoldable pub sweep_entries : (ℕ → ℕ) → System → ℕ → Option Aborted → Option System
unfolding count_expired complete_entry sweep_backlog find_aborted
sweep_entries time s now none = sweep_backlog time s (find_aborted s.queue now s.queue.backlog 0)
sweep_entries time s now (some a) = some (complete_entry time (count_expired s a) a.index a.status)

unfoldable pub sweep_round : (ℕ → ℕ) → System → Option System
unfolding sweep_entries tick
sweep_round time s =
    let now = time s.clock_reads in
    sweep_entries time (tick s) now (find_aborted s.queue now s.queue.entries 0)

unfoldable pub sweep : (ℕ → ℕ) → ℕ → System → System
sweep time zero s = s
sweep time (suc rounds) s = elim (sweep_round time s) [
  | none ↦ tick s
  | some t ↦ sweep time rounds t
]

-- CywTxBurstPendingFrames: the small frames at the front of the window, up to the cap. The walk
-- stops at the first bulk frame.
unfoldable pub burst_chain : List ℕ → ℕ → ℕ → ℕ × Bool
burst_chain [] cap pending = (pending, true)
burst_chain (len ∷ more) cap pending =
    if not (ltb pending cap)
    then (pending, true)
    else if not (adaptive_small_length len)
    then (pending, false)
    else burst_chain more cap (pending + 1)

unfoldable pub burst_entries : List PendingSend → ℕ → ℕ → ℕ
unfolding burst_chain
burst_entries [] cap pending = pending
burst_entries (item ∷ rest) cap pending =
    let (seen, on) = burst_chain item.next cap pending in
    let tail = burst_entries rest cap seen in
    if not (ltb pending cap) then pending else if on then tail else seen

unfoldable pub burst_pending : TxState → ℕ → ℕ
unfolding burst_entries
burst_pending q left =
    let cap = if ltb service_burst_max left then service_burst_max else left in
    if cap == 0 then 0 else if q.gate == status_success then burst_entries q.entries cap 0 else 0
