-- ===== src/Trace/Tests.antt =====
-- The trace of src/cyw43455/transport_trace.h with three calls.
use rpi5_wifi_driver_win11ar.Prelude.{ℕ, ◌≡◌, ◌+◌, ◌^◌, refl, true, false, List, [], ◌∷◌, length}
use rpi5_wifi_driver_win11ar.Trace.{
  Sources, TraceEntry, trace_entry, is_early, start_trace, record_entry, transport_sample,
}
use rpi5_wifi_driver_win11ar.Trace.Ring.{
  Call, Holds, run_samples, recorded, untouched, run_samples-Holds,
}
use rpi5_wifi_driver_win11ar.Transport.Tests.{idle}

abbrev quiet_sources : Sources
quiet_sources = record {
  has_network = true;
  rx_pending = true;
  ready = true;
  authorized = true;
  paused = false;
  network_phase = 500;
  empty_reads = 1;
  tx_packets = 2 ^ 32 + 5;
  rx_packets = 7;
  tx_queue_frames = 0;
  tx_queue_full = 0;
  tx_credit_waits = 0;
  tx_sequence = 3;
  tx_maximum = 9;
  tx_flow = 0;
  echo_late = 0;
  echo_max_ms = 0;
}

abbrev call_at : ℕ → Call
call_at now = record { sources = quiet_sources; transport = idle; now = now }

-- The second call comes too early.
abbrev calls : List Call
calls = call_at 5 ∷ (call_at 10000004 ∷ (call_at 10000005 ∷ []))

abbrev blank : ℕ → TraceEntry
blank i = trace_entry (record quiet_sources { ready = false }) idle 0 0

recorded_test : length (recorded (untouched blank) calls []) ≡ 2
unfolding recorded transport_sample is_early start_trace record_entry
recorded_test = refl

run_samples-Holds_example :
    Holds (run_samples (untouched blank) calls) (recorded (untouched blank) calls [])
run_samples-Holds_example = run_samples-Holds blank calls
