-- ===== src/Transport/Tests.antt =====
-- The transport of src/cyw43455/transport_protocol.h and src/cyw43455/transport_service.h at
-- concrete bus answers.
use rpi5_wifi_driver_win11ar.Prelude.{
  ℕ, ◌+◌, ◌%◌, ◌^◌, ◌≡◌, refl, true, false, ◌||◌, [], ◌∷◌, arith, ◌==◌, if◌then◌else◌,
}
use rpi5_wifi_driver_win11ar.Transport.{Transport, set_global, set_priority, blocked_ticks}
use rpi5_wifi_driver_win11ar.Transport.Flow.{set_global-blocked_ticks, set_priority-blocked_ticks}
use rpi5_wifi_driver_win11ar.Transport.Sequences.{receive, gaps, receive-gaps}
use rpi5_wifi_driver_win11ar.Transport.Service.{nt_success, Bus, Worker, service}
use rpi5_wifi_driver_win11ar.Transport.Served.{stopped, followed, service-stopped}

abbrev pub idle : Transport
idle = record {
  global_flow = false;
  last_interrupt = 0;
  last_mailbox = 0;
  mailbox_version = 0;
  halted = false;
  pending_reads = 0;
  status_reads = 0;
  status_acks = 0;
  fc_changes = 0;
  fc_races = 0;
  fc_stops = 0;
  mail_reads = 0;
  mail_unknown = 0;
  firmware_halts = 0;
  sequence_valid = true;
  sequence_expected = 5;
  sequence_last = 4;
  sequence_mismatches = 0;
  sequence_duplicates = 0;
  frames = 0;
  service_errors = 0;
  priority_stops = 0;
  priority_mask_known = true;
  priority_mask = 4;
  priority_flow = 0;
  priority_blocked = false;
  global_blocked = 0;
  global_started = 0;
  priority_blocked_ticks = 0;
  priority_started = 0;
  last_pending = 0;
  pending_empty = 0;
  status_no_events = 0;
  frame_notifications = 0;
  fallback_reads = 0;
  fallback_frames = 0;
  fallback_mailbox = 0;
  status_clock_valid = false;
  last_status = 0;
}

-- A bus whose second read of the interrupt status fails; its state counts the reads.
abbrev second_read_fails : Bus ℕ
second_read_fails = record {
  cmd52_read = λ n f a. (0, 2, n);
  bp_read = λ n a. (if n == 0 then 0 else 0xc0000185, 0x60, n + 1);
  bp_write = λ n a v. (0, n);
}

abbrev worker : Worker ℕ
worker = record {
  stop = false;
  rx_pending = false;
  tx_flow = 0;
  transport = idle;
  bus = 0;
  clock_reads = 0;
}

abbrev clock : ℕ → ℕ
clock n = n + 100

service-stopped_example :
    let (status, v) = service clock second_read_fails 0x18002000 worker true in
    ((nt_success status || stopped v) ≡ true) × (followed v.transport ≡ true)
service-stopped_example = service-stopped clock second_read_fails 0x18002000 worker true refl

set_global-blocked_ticks_example :
    blocked_ticks (set_global idle true 50) true 50 ≡ blocked_ticks idle true 50
set_global-blocked_ticks_example = set_global-blocked_ticks idle true 50 (omega arith)

set_priority-blocked_ticks_example :
    blocked_ticks (set_priority idle 4 50) false 50 ≡ blocked_ticks idle false 50
set_priority-blocked_ticks_example = set_priority-blocked_ticks idle 4 50 (omega arith)

receive-gaps_example :
    (receive idle (5 ∷ (7 ∷ (8 ∷ [])))).sequence_mismatches
    ≡ (idle.sequence_mismatches + gaps 4 (5 ∷ (7 ∷ (8 ∷ [])))) % 2 ^ 32
receive-gaps_example = receive-gaps idle 4 (5 ∷ (7 ∷ (8 ∷ []))) refl refl (omega arith)
