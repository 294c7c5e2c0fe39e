-- ===== src/Transport.antt =====
-- src/cyw43455/transport_protocol.h: the transport state of the SDIO worker, with flow control,
-- receive sequence numbers and the time for which sending was blocked.
pub mod Flow
pub mod Sequences
pub mod Service
pub mod Served
pub mod Tests
use rpi5_wifi_driver_win11ar.Prelude.{
  ℕ, ◌+◌, ◌-◌, ◌^◌, Bool, true, false, not, ◌&&◌, ◌||◌, ltb, leb, ◌==◌, ◌!=◌, if◌then◌else◌, sub64,
  inc32, sub32, bit_and,
}

-- CYW_TRANSPORT_FALLBACK_INTERVAL of src/cyw43455/transport_trace_protocol.h.
abbrev pub fallback_interval : ℕ
fallback_interval = 1000000

-- CYW_TRANSPORT_STATE, less the trace and the counters that other files write.
pub record Transport : Type 0 where
  pub global_flow : Bool
  pub last_interrupt : ℕ
  pub last_mailbox : ℕ
  pub mailbox_version : ℕ
  pub halted : Bool
  pub pending_reads : ℕ
  pub status_reads : ℕ
  pub status_acks : ℕ
  pub fc_changes : ℕ
  pub fc_races : ℕ
  pub fc_stops : ℕ
  pub mail_reads : ℕ
  pub mail_unknown : ℕ
  pub firmware_halts : ℕ
  pub sequence_valid : Bool
  pub sequence_expected : ℕ
  pub sequence_last : ℕ
  pub sequence_mismatches : ℕ
  pub sequence_duplicates : ℕ
  pub frames : ℕ
  pub service_errors : ℕ
  pub priority_stops : ℕ
  pub priority_mask_known : Bool
  pub priority_mask : ℕ
  pub priority_flow : ℕ
  pub priority_blocked : Bool
  pub global_blocked : ℕ
  pub global_started : ℕ
  pub priority_blocked_ticks : ℕ
  pub priority_started : ℕ
  pub last_pending : ℕ
  pub pending_empty : ℕ
  pub status_no_events : ℕ
  pub frame_notifications : ℕ
  pub fallback_reads : ℕ
  pub fallback_frames : ℕ
  pub fallback_mailbox : ℕ
  pub status_clock_valid : Bool
  pub last_status : ℕ

-- CywTransportStatusObserved.
unfoldable pub status_observed : Transport → ℕ → Transport
status_observed t now = record t { status_clock_valid = true; last_status = now }

-- CywTransportFallbackDue.
unfoldable pub fallback_due : Transport → ℕ → Bool × Transport
unfolding status_observed
fallback_due t now =
    if not t.status_clock_valid || ltb now t.last_status
    then (false, status_observed t now)
    else (leb fallback_interval (sub64 now t.last_status), t)

-- CywTransportAddTicks and CywTransportElapsed.
unfoldable pub add_ticks : ℕ → ℕ → ℕ
add_ticks a b = if ltb (2 ^ 64 - 1 - a) b then 2 ^ 64 - 1 else a + b

unfoldable pub elapsed : ℕ → ℕ → ℕ
elapsed start now = if leb start now then now - start else 0

-- CywTransportSetGlobal.
unfoldable pub set_global : Transport → Bool → ℕ → Transport
unfolding add_ticks elapsed
set_global t state now =
    let a =
      if state && not t.global_flow
      then record t { fc_stops = inc32 t.fc_stops; global_started = now }
      else t in
    let b =
      if not state && a.global_flow
      then record a { global_blocked = add_ticks a.global_blocked (elapsed a.global_started now) }
      else a in
    record b { global_flow = state }

-- CywTransportSequence.
unfoldable pub sequence : Transport → ℕ → Transport
sequence t number =
    let mismatch = t.sequence_valid && number != t.sequence_expected in
    record t {
      sequence_mismatches = if mismatch then inc32 t.sequence_mismatches else t.sequence_mismatches;
      sequence_duplicates =
          if mismatch && number == bit_and (sub32 t.sequence_expected 1) 255
          then inc32 t.sequence_duplicates
          else t.sequence_duplicates;
      sequence_last = number;
      sequence_expected = bit_and (number + 1) 255;
      sequence_valid = true;
      frames = inc32 t.frames;
    }

-- CywTransportPriorityAllowed.
unfoldable pub priority_allowed : Transport → ℕ → Bool
priority_allowed t flow =
    if t.priority_mask_known
      && (t.priority_mask != 0
          && (leb t.priority_mask 128 && bit_and t.priority_mask (sub32 t.priority_mask 1) == 0))
    then bit_and flow t.priority_mask == 0
    else flow == 0

-- CywTransportSetPriority.
unfoldable pub set_priority : Transport → ℕ → ℕ → Transport
unfolding priority_allowed add_ticks elapsed
set_priority t flow now =
    let blocked = not (priority_allowed t flow) in
    let a =
      if blocked && not t.priority_blocked
      then record t { priority_stops = inc32 t.priority_stops; priority_started = now }
      else t in
    let b =
      if not blocked && a.priority_blocked
      then record a {
        priority_blocked_ticks =
            add_ticks a.priority_blocked_ticks (elapsed a.priority_started now);
      }
      else a in
    record b { priority_flow = flow; priority_blocked = blocked }

-- CywTransportBlockedTicks.
unfoldable pub blocked_ticks : Transport → Bool → ℕ → ℕ
unfolding add_ticks elapsed
blocked_ticks t global now =
    let total = if global then t.global_blocked else t.priority_blocked_ticks in
    let active = if global then t.global_flow else t.priority_blocked in
    let start = if global then t.global_started else t.priority_started in
    if active then add_ticks total (elapsed start now) else total
