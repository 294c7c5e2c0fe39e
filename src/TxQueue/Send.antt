-- ===== src/TxQueue/Send.antt =====
-- The sending loop of CywTxPump in src/cyw43455/tx_queue.h, over the transfer functions that the
-- bus owner supplies (src/cyw43455/network.c).
use rpi5_wifi_driver_win11ar.Prelude.{
  ℕ, zero, suc, ◌+◌, ◌-◌, ◌/◌, Bool, true, false, not, ◌&&◌, ◌||◌, List, [], ◌∷◌, Option, none,
  some, ltb, ◌==◌, ◌!=◌, if◌then◌else◌, inc32, add64, sub32, sub64,
}
use rpi5_wifi_driver_win11ar.TxQueue.State.{
  PendingSend, System, status_success, status_failure, tx_limit, tx_backlog_limit,
}
use rpi5_wifi_driver_win11ar.TxQueue.Admission.{adaptive_small_length}
use rpi5_wifi_driver_win11ar.TxQueue.Release.{abort_status, promote_one}
use rpi5_wifi_driver_win11ar.TxQueue.Pump.{
  status_device_busy, status_insufficient_resources, nt_success, tick, complete_entry, sweep,
  burst_pending,
}
use rpi5_wifi_driver_win11ar.TxQueue.World.{World, free, Event, submits, cancels, gates, run}

-- CywTxCanTransfer, NdisGetDataBuffer (whether it maps a buffer of a length), and
-- CywTxTransferBurstStart and CywTxTransferBurstReuse, over the owner's state `B`. A burst start
-- takes the frame's length and the frames wanted, and gives the status and the frames that may
-- follow; a reuse takes the length and the position. `meanwhile` is what senders, cancellers and
-- gate changes do during a transfer.
pub record Sender (B : Type 0) : Type 0 where
  pub can_transfer : B → Bool × B
  pub maps : B → ℕ → Bool
  pub burst_start : B → ℕ → ℕ → ℕ × ℕ × B
  pub burst_reuse : B → ℕ → ℕ → ℕ × B
  pub meanwhile : B → List Event

pub record PumpState (B : Type 0) : Type 0 where
  pub sys : System
  pub accepted : List ℕ
  pub bus : B
  pub sent : ℕ
  pub remaining : ℕ
  pub position : ℕ

-- How a round ends: the pump returns a status, goes round again, or reads a buffer that is not
-- there (an entry with an empty chain).
pub data Round (B : Type 0) : Type 0 where
  done : ℕ → PumpState B → Round B
  again : PumpState B → Round B
  crash : Round B

-- Only the acts of other threads.
unfoldable pub externals : List Event → List Event
externals [] = []
externals (submits l now ∷ es) = submits l now ∷ externals es
externals (cancels id ∷ es) = cancels id ∷ externals es
externals (gates status ∷ es) = gates status ∷ externals es
externals (_ ∷ es) = externals es

unfoldable pub bystanders : (ℕ → ℕ) → System → List ℕ → List Event → World
unfolding externals
bystanders time s accepted es =
    run time (record { sys = s; hand = free; accepted = accepted }) (externals es)

-- `if(!Q->Count)(VOID)CywTxPromoteOneLocked(A,Q)`.
unfoldable pub refill_entries : (ℕ → ℕ) → System → List PendingSend → System
refill_entries time s [] = elim (promote_one time s) [ none ↦ s | some t ↦ t ]
refill_entries time s (item ∷ rest) = s

unfoldable pub refill : (ℕ → ℕ) → System → System
unfolding refill_entries
refill time s = refill_entries time s s.queue.entries

-- The age of the oldest entry, for the diagnostics.
unfoldable pub note_delay : (ℕ → ℕ) → System → PendingSend → System
note_delay time s item =
    let delay = sub64 (time s.clock_reads) item.submitted / 10000 in
    record s {
      clock_reads = s.clock_reads + 1;
      counters = record s.counters {
        tx_queue_max_delay_ms =
            if ltb s.counters.tx_queue_max_delay_ms delay
            then (if ltb 0xffffffff delay then 0xffffffff else delay)
            else s.counters.tx_queue_max_delay_ms;
      };
    }

unfoldable pub count_frame : System → Bool → System
count_frame s small = record s {
  counters = record s.counters {
    tx_packets = add64 s.counters.tx_packets 1;
    tx_adaptive_small_frames =
        if small
        then inc32 s.counters.tx_adaptive_small_frames
        else s.counters.tx_adaptive_small_frames;
    tx_adaptive_bulk_frames =
        if small
        then s.counters.tx_adaptive_bulk_frames
        else inc32 s.counters.tx_adaptive_bulk_frames;
  };
}

unfoldable pub count_start : System → Bool → System
count_start s small = record s {
  counters = record s.counters {
    tx_adaptive_small_burst_starts =
        if small
        then inc32 s.counters.tx_adaptive_small_burst_starts
        else s.counters.tx_adaptive_small_burst_starts;
    tx_adaptive_bulk_fresh_f1_attempts =
        if small
        then s.counters.tx_adaptive_bulk_fresh_f1_attempts
        else inc32 s.counters.tx_adaptive_bulk_fresh_f1_attempts;
  };
}

-- The oldest entry after a transfer: its next buffer, and one frame fewer to send.
unfoldable pub sent_item : PendingSend → List ℕ → PendingSend
sent_item item more = record item { next = more; frames = sub32 item.frames 1 }

unfoldable pub replace_head : System → PendingSend → List PendingSend → System
replace_head s item rest = record s { queue = record s.queue { entries = item ∷ rest } }

-- After a transfer, under the lock: the abort status is read once more, a frame that went is counted
-- and leaves the entry's chain, and an entry that is aborted, failed or finished is removed and
-- completed.
unfoldable pub settle_completion : (ℕ → ℕ) → System → ℕ → PendingSend → ℕ
settle_completion time s status item =
    let aborted = abort_status s.queue item (time s.clock_reads) in
    if nt_success status
    then aborted
    else if aborted == status_success
    then status_failure
    else aborted

unfoldable pub settle_head : System → ℕ → Bool → List ℕ → PendingSend → List PendingSend → System
settle_head s status small more item rest =
    if nt_success status then count_frame (replace_head s (sent_item item more) rest) small else s

unfoldable pub settle_sys :
    (ℕ → ℕ) → System → ℕ → Bool → List ℕ → PendingSend → List PendingSend → System
settle_sys time s status small more item rest =
    let completion = settle_completion time s status item in
    let left = if nt_success status then sub32 item.frames 1 else item.frames in
    let t = settle_head (tick s) status small more item rest in
    if completion != status_success || left == 0 then complete_entry time t 0 completion else t

module _ {B : Type 0} (time : ℕ → ℕ) (sender : Sender B) (budget : ℕ) where
  -- No credit: the burst ends, and the pump returns STATUS_SUCCESS.
  unfoldable pub starve : PumpState B → Round B
  starve p = done status_success (record p {
    remaining = 0;
    sys = record p.sys {
      counters = record p.sys.counters { tx_credit_waits = inc32 p.sys.counters.tx_credit_waits };
    };
  })

  -- The last critical section of a round, on the entry that was sent from, and the exits after it.
  unfoldable pub close_round : PumpState B → ℕ → Bool → ℕ → Round B
  close_round p status mapped completion =
      let q = if completion != status_success then record p { remaining = 0 } else p in
      if not (nt_success status) && mapped
      then done status (record q { remaining = 0 })
      else if not mapped
      then done status_success (record q { remaining = 0 })
      else again q

  unfoldable pub settle_entry : PumpState B → ℕ → Bool → Bool → List ℕ → List PendingSend → Round B
  settle_entry p status mapped small more [] = crash
  settle_entry p status mapped small more (item ∷ rest) =
      close_round
        (record p {
          sys = settle_sys time p.sys status small more item rest;
          sent = if nt_success status then p.sent + 1 else p.sent;
        })
        status mapped (settle_completion time p.sys status item)

  -- Other threads act during the transfer; a busy bus ends the pump.
  unfoldable pub after_transfer : PumpState B → ℕ → Bool → Bool → List ℕ → Round B
  after_transfer p status mapped small more =
      let w = bystanders time p.sys p.accepted (sender.meanwhile p.bus) in
      let q = record p { sys = w.sys; accepted = w.accepted } in
      if status == status_device_busy
      then starve q
      else settle_entry q status mapped small more w.sys.queue.entries

  unfoldable pub reuse_service : PumpState B → ℕ → List ℕ → Round B
  reuse_service p len more =
      let (status, bus) = sender.burst_reuse p.bus (len + 4) p.position in
      after_transfer
        (if nt_success status
          then record p { bus = bus; remaining = p.remaining - 1; position = p.position + 1 }
          else record p { bus = bus })
        status true true more

  unfoldable pub fresh_service : PumpState B → ℕ → Bool → List ℕ → Round B
  fresh_service p len small more =
      let want = if small then burst_pending p.sys.queue (budget - p.sent) else 1 in
      let (status, permit, bus) = sender.burst_start p.bus (len + 4) want in
      after_transfer
        (record p {
          sys = count_start p.sys small;
          bus = bus;
          remaining = permit;
          position = if permit != 0 then 2 else p.position;
        })
        status true small more

  unfoldable pub send_buffer : PumpState B → ℕ → List ℕ → Round B
  send_buffer p len more =
      let small = adaptive_small_length len in
      let q = if small then p else record p { remaining = 0 } in
      if not (sender.maps q.bus len)
      then after_transfer q status_insufficient_resources false small more
      else if small && q.remaining != 0
      then reuse_service q len more
      else fresh_service q len small more

  unfoldable pub transfer_chain : PumpState B → List ℕ → Round B
  transfer_chain p [] = crash
  transfer_chain p (len ∷ more) =
      let (allowed, bus) = sender.can_transfer p.bus in
      let q = record p { bus = bus } in if allowed then send_buffer q len more else starve q

  unfoldable pub transfer_oldest : PumpState B → List PendingSend → Round B
  transfer_oldest p [] = done status_success p
  transfer_oldest p (item ∷ rest) =
      let completion = abort_status p.sys.queue item (time p.sys.clock_reads) in
      if completion != status_success
      then done status_success (record p { sys = complete_entry time (tick p.sys) 0 completion })
      else transfer_chain (record p { sys = note_delay time (tick p.sys) item }) item.next

  unfoldable pub pump_round : PumpState B → Round B
  pump_round p =
      let q = record p { sys = refill time p.sys } in transfer_oldest q q.sys.queue.entries

  -- `while(*Sent<Budget)`; `none` is out of fuel, or the crash of a round.
  unfoldable pub go_on :
      (PumpState B → Option (ℕ × PumpState B)) → Round B → Option (ℕ × PumpState B)
  go_on next (done status q) = some (status, q)
  go_on next (again q) = next q
  go_on next crash = none

  unfoldable pub pump_while : ℕ → PumpState B → Option (ℕ × PumpState B)
  pump_while zero p = none
  pump_while (suc fuel) p =
      if ltb p.sent budget then go_on (pump_while fuel) (pump_round p) else some (status_success, p)

  -- CywTxPump on a queue and a bus; every round but the last sends a frame.
  unfoldable pub pump : System → List ℕ → B → Option (ℕ × PumpState B)
  pump s accepted bus = pump_while (budget + 1) (record {
    sys = sweep time (tx_limit + tx_backlog_limit) s;
    accepted = accepted;
    bus = bus;
    sent = 0;
    remaining = 0;
    position = 2;
  })
