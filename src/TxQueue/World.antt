-- ===== src/TxQueue/World.antt =====
-- The queue of src/cyw43455/tx_queue.h under every interleaving of its critical sections: senders,
-- cancellers and gate changes may run between any two sections of the one worker. A schedule is a
-- list of events; an event that the worker could not make where it stands changes nothing.
use rpi5_wifi_driver_win11ar.Prelude.{
  ℕ, List, [], ◌∷◌, ◌++◌, Option, none, some, if◌then◌else◌, ◌==◌, sub32,
}
use rpi5_wifi_driver_win11ar.TxQueue.State.{
  BufferList, PendingSend, TxState, Counters, System, status_pending, status_success,
}
use rpi5_wifi_driver_win11ar.TxQueue.Admission.{Prepared, refused, prepared, prepare, admit}
use rpi5_wifi_driver_win11ar.TxQueue.Release.{
  set_gate, cancel, remove_entry, promote_one, promote_all, remove_backlog, count_failure,
  release_charge, begin_callback, hand_back, end_callback,
}

-- The worker holds at most one list at a time: `removed` between CywTxRemove and the first section
-- of CywTxComplete, `calling` while NDIS has it.
pub data Hand : Type 0 where
  free : Hand
  removed : ℕ → ℕ → Hand
  calling : ℕ → ℕ → Hand

-- `accepted` records the lists for which a submission returned NDIS_STATUS_PENDING, oldest first.
pub record World : Type 0 where
  pub sys : System
  pub hand : Hand
  pub accepted : List ℕ

pub data Event : Type 0 where
  submits : BufferList → ℕ → Event
  cancels : ℕ → Event
  gates : ℕ → Event
  promotes : Event
  sends_frame : Event
  removes_entry : ℕ → ℕ → Event
  removes_backlog : ℕ → ℕ → Event
  charges : Event
  returns : Event

-- A list prepared at a time `now`, and then the section that admits it.
unfoldable pub arrive : World → Prepared → World
arrive w (refused status) = w
arrive w (prepared item) =
    let (status, s) = admit w.sys item in
    record w {
      sys = s;
      accepted = if status == status_pending then w.accepted ++ (item.nbl ∷ []) else w.accepted;
    }

-- The worker moves on in the chain of the oldest entry, unless this was its last buffer: then the
-- entry is removed in the same section (`removes_entry`).
unfoldable pub advance_entry : PendingSend → List ℕ → PendingSend
advance_entry item (len ∷ (next ∷ others)) = record item {
  next = next ∷ others;
  frames = sub32 item.frames 1;
}
advance_entry item _ = item

unfoldable pub advance_head : System → List PendingSend → System
unfolding advance_entry
advance_head s [] = s
advance_head s (item ∷ rest) = record s {
  queue = record s.queue { entries = advance_entry item item.next ∷ rest };
}

abbrev pub or_stay : World → Option System → World
or_stay w none = w
or_stay w (some s) = record w { sys = s }

abbrev pub take_entry : World → ℕ → Option (ℕ × System) → World
take_entry w status none = w
take_entry w status (some (nbl, s)) = record w { sys = s; hand = removed nbl status }

abbrev pub take_backlog : World → ℕ → Option (ℕ × System) → World
take_backlog w status none = w
take_backlog w status (some (nbl, s)) = record w {
  sys = count_failure s status;
  hand = calling nbl status;
}

-- What the worker does, by what it holds.
unfoldable pub work : (ℕ → ℕ) → World → Hand → Event → World
unfolding advance_head
work time w free promotes = or_stay w (promote_one time w.sys)
work time w free sends_frame = record w { sys = advance_head w.sys w.sys.queue.entries }
work time w free (removes_entry i status) = take_entry w status (remove_entry w.sys i status)
work time w free (removes_backlog i status) =
    take_backlog w status (remove_backlog time w.sys i status)
work time w (removed nbl status) charges = record w {
  sys = begin_callback (promote_all time (release_charge (count_failure w.sys status)));
  hand = calling nbl status;
}
work time w (calling nbl status) returns = record w {
  sys = end_callback (hand_back w.sys nbl status);
  hand = free;
}
work time w h e = w

unfoldable pub step : (ℕ → ℕ) → World → Event → World
unfolding arrive work
step time w (submits l now) = arrive w (prepare l now)
step time w (cancels id) = record w { sys = cancel w.sys id }
step time w (gates status) =
    if status == status_pending then w else record w { sys = set_gate w.sys status }
step time w e = work time w w.hand e

unfoldable pub run : (ℕ → ℕ) → World → List Event → World
run time w [] = w
run time w (e ∷ es) = run time (step time w e) es

-- RtlZeroMemory'd state with an open gate.
abbrev pub empty_queue : TxState
empty_queue = record {
  gate = status_success;
  entries = [];
  frames = 0;
  bytes = 0;
  outstanding = 0;
  completing = 0;
  backlog = [];
  backlog_frames = 0;
  backlog_bytes = 0;
}

abbrev pub start : Counters → World
start counters = record {
  sys = record { queue = empty_queue; counters = counters; returned = []; clock_reads = 0 };
  hand = free;
  accepted = [];
}
