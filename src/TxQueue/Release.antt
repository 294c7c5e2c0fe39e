-- ===== src/TxQueue/Release.antt =====
-- src/cyw43455/tx_queue.h: cancellation, removal, promotion from the backlog, and completion. A
-- function that the code calls with the lock held is one critical section; CywTxComplete is three.
use rpi5_wifi_driver_win11ar.Prelude.{
  ℕ, zero, suc, ◌+◌, ◌-◌, ◌/◌, ◌%◌, ◌^◌, true, false, List, [], ◌∷◌, ◌++◌, map, Option, none, some,
  ltb, leb, ◌==◌, ◌!=◌, if◌then◌else◌, length, get_elem?, remove, sub32, inc32, add64, sub64,
}
use rpi5_wifi_driver_win11ar.TxQueue.State.{
  PendingSend, TxState, Counters, System, status_success, status_send_aborted, status_failure,
  tx_max_age,
}
use rpi5_wifi_driver_win11ar.TxQueue.Admission.{active_fits, activate}

-- CywTxSetGate and CywTxOutstanding.
unfoldable pub set_gate : System → ℕ → System
set_gate s status = record s { queue = record s.queue { gate = status } }

unfoldable pub outstanding_total : TxState → ℕ
outstanding_total q = (q.outstanding + length q.backlog + q.completing) % 2 ^ 32

-- CywTxCancel.
unfoldable pub mark_cancelled : ℕ → PendingSend → PendingSend
mark_cancelled id item = if item.cancel_id == id then record item { cancelled = true } else item

unfoldable pub cancel : System → ℕ → System
unfolding mark_cancelled
cancel s id = record s {
  queue = record s.queue {
    entries = map (mark_cancelled id) s.queue.entries;
    backlog = map (mark_cancelled id) s.queue.backlog;
  };
}

-- CywTxAbortStatus; the age is a ULONG64 difference, which wraps.
unfoldable pub abort_status : TxState → PendingSend → ℕ → ℕ
abort_status q item now =
    if q.gate != status_success
    then q.gate
    else if item.cancelled
    then status_send_aborted
    else if leb tx_max_age (sub64 now item.submitted)
    then status_failure
    else status_success

-- Rpi5CywTrafficDrop of src/driver/statistics_ndis.h, as removal calls it.
unfoldable pub count_drop : Counters → ℕ → ℕ → Counters
count_drop c frames status =
    if status == status_success
    then c
    else if status == status_failure
    then record c { drop_errors = add64 c.drop_errors frames }
    else record c { drop_discards = add64 c.drop_discards frames }

-- CywTxRemove of the entry at an index; `none` is an index out of range.
unfoldable pub unlink_entry : TxState → PendingSend → List PendingSend → TxState
unlink_entry q item rest = record q {
  entries = rest;
  frames = sub32 q.frames item.held_frames;
  bytes = sub32 q.bytes item.bytes;
}

unfoldable pub detach_entry : System → PendingSend → ℕ → ℕ → System
unfolding count_drop unlink_entry
detach_entry s item index status =
    let q = unlink_entry s.queue item (remove s.queue.entries index) in
    record s {
      queue = q;
      counters = record (count_drop s.counters item.frames status) { tx_queue_frames = q.frames };
    }

unfoldable pub remove_entry : System → ℕ → ℕ → Option (ℕ × System)
unfolding detach_entry
remove_entry s index status = elim (get_elem? s.queue.entries index) [
  | none ↦ none
  | some item ↦ some (item.nbl, detach_entry s item index status)
]

-- The body of CywTxPromoteOneLocked once it has decided to promote the oldest item.
unfoldable pub backlog_delay : PendingSend → ℕ → ℕ
backlog_delay item now = if leb item.submitted now then (now - item.submitted) / 10000 else 0

unfoldable pub unlink_backlog : TxState → PendingSend → List PendingSend → TxState
unlink_backlog q item rest = record q {
  backlog = rest;
  backlog_frames = sub32 q.backlog_frames item.held_frames;
  backlog_bytes = sub32 q.backlog_bytes item.bytes;
}

unfoldable pub promote_item : (ℕ → ℕ) → System → PendingSend → List PendingSend → System
unfolding backlog_delay unlink_backlog activate
promote_item time s item rest =
    let delay = backlog_delay item (time s.clock_reads) in
    let q = unlink_backlog s.queue item rest in
    let t = activate (record s { queue = q; clock_reads = s.clock_reads + 1 }) item false in
    record t {
      counters = record t.counters {
        tx_backlog_current = q.backlog_frames;
        tx_backlog_nbl_current = length rest;
        tx_backlog_max_delay_ms =
            if ltb t.counters.tx_backlog_max_delay_ms delay
            then (if ltb 0xffffffff delay then 0xffffffff else delay)
            else t.counters.tx_backlog_max_delay_ms;
        tx_backlog_promoted = inc32 t.counters.tx_backlog_promoted;
      };
    }

-- CywTxPromoteOneLocked; `none` is FALSE, and nothing changes.
unfoldable pub promote_head : (ℕ → ℕ) → System → List PendingSend → Option System
unfolding active_fits promote_item
promote_head time s [] = none
promote_head time s (item ∷ rest) =
    if s.queue.gate != status_success
    then none
    else if active_fits s.queue item.held_frames
    then some (promote_item time s item rest)
    else none

unfoldable pub promote_one : (ℕ → ℕ) → System → Option System
unfolding promote_head
promote_one time s = promote_head time s s.queue.backlog

-- `while(CywTxPromoteOneLocked(A,Q))`; each round shortens the backlog, whose length is the fuel.
unfoldable pub promote_while : (ℕ → ℕ) → ℕ → System → System
promote_while time zero s = s
promote_while time (suc fuel) s = elim (promote_one time s) [
  | none ↦ s
  | some t ↦ promote_while time fuel t
]

unfoldable pub promote_all : (ℕ → ℕ) → System → System
unfolding promote_while
promote_all time s = promote_while time (length s.queue.backlog) s

-- `Q->Completing++`, under the lock.
unfoldable pub charge_callback : TxState → TxState
charge_callback q = record q { completing = inc32 q.completing }

-- CywTxBacklogRemove: the metadata goes, the reference moves to Completing, and the window refills.
unfoldable pub detach_backlog : System → PendingSend → ℕ → ℕ → System
unfolding count_drop unlink_backlog charge_callback
detach_backlog s item index status =
    let rest = remove s.queue.backlog index in
    let q = unlink_backlog s.queue item rest in
    record s {
      queue = charge_callback q;
      counters = record (count_drop s.counters item.frames status) {
        tx_backlog_current = q.backlog_frames;
        tx_backlog_nbl_current = length rest;
      };
    }

unfoldable pub remove_backlog : (ℕ → ℕ) → System → ℕ → ℕ → Option (ℕ × System)
unfolding detach_backlog
remove_backlog time s index status = elim (get_elem? s.queue.backlog index) [
  | none ↦ none
  | some item ↦ some (item.nbl, promote_all time (detach_backlog s item index status))
]

-- The counters that both completion functions update first.
unfoldable pub count_failure : System → ℕ → System
count_failure s status = record s {
  counters = record s.counters {
    tx_errors =
        if status == status_success then s.counters.tx_errors else add64 s.counters.tx_errors 1;
    tx_cancelled =
        if status == status_send_aborted
        then inc32 s.counters.tx_cancelled
        else s.counters.tx_cancelled;
  };
}

-- CywTxComplete in its three steps: the first critical section, the callback, and the second one.
unfoldable pub release_charge : System → System
release_charge s = record s { queue = record s.queue { outstanding = sub32 s.queue.outstanding 1 } }

unfoldable pub begin_callback : System → System
unfolding charge_callback
begin_callback s = record s { queue = charge_callback s.queue }

unfoldable pub hand_back : System → ℕ → ℕ → System
hand_back s nbl status = record s {
  returned = s.returned ++ (record { nbl = nbl; status = status } ∷ []);
}

unfoldable pub end_callback : System → System
end_callback s = record s {
  queue = record s.queue { completing = sub32 s.queue.completing 1 };
  counters = record s.counters { tx_nbl_completed = inc32 s.counters.tx_nbl_completed };
}

unfoldable pub complete : (ℕ → ℕ) → System → ℕ → ℕ → System
unfolding count_failure release_charge begin_callback hand_back end_callback
complete time s nbl status =
    let charged = begin_callback (promote_all time (release_charge (count_failure s status))) in
    end_callback (hand_back charged nbl status)

-- CywTxCompleteBacklog.
unfoldable pub complete_backlog : System → ℕ → ℕ → System
unfolding count_failure hand_back end_callback
complete_backlog s nbl status = end_callback (hand_back (count_failure s status) nbl status)
