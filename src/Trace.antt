-- ===== src/Trace.antt =====
-- src/cyw43455/transport_trace_protocol.h and src/cyw43455/transport_trace.h: the ring of the last
-- 128 observations of the transport.
pub mod Ring
pub mod Tests
use rpi5_wifi_driver_win11ar.Prelude.{
  ℕ, zero, suc, ◌+◌, ◌-◌, ◌%◌, ◌^◌, Bool, true, false, not, ◌&&◌, ◌||◌, List, [], ◌∷◌, ltb, leb,
  ◌==◌, ◌!=◌, if◌then◌else◌, bit_or,
}
use rpi5_wifi_driver_win11ar.Transport.{Transport}

-- What CywTransportSample reads besides A->Transport.
pub record Sources : Type 0 where
  pub has_network : Bool
  pub rx_pending : Bool
  pub ready : Bool
  pub authorized : Bool
  pub paused : Bool
  pub network_phase : ℕ
  pub empty_reads : ℕ
  pub tx_packets : ℕ
  pub rx_packets : ℕ
  pub tx_queue_frames : ℕ
  pub tx_queue_full : ℕ
  pub tx_credit_waits : ℕ
  pub tx_sequence : ℕ
  pub tx_maximum : ℕ
  pub tx_flow : ℕ
  pub echo_late : ℕ
  pub echo_max_ms : ℕ

-- CYW_TRANSPORT_TRACE_ENTRY.
pub record TraceEntry : Type 0 where
  pub time : ℕ
  pub serial : ℕ
  pub flags : ℕ
  pub network_phase : ℕ
  pub last_pending : ℕ
  pub last_interrupt : ℕ
  pub last_mailbox : ℕ
  pub rx_frames : ℕ
  pub empty_reads : ℕ
  pub tx_packets_low : ℕ
  pub rx_packets_low : ℕ
  pub pending_reads : ℕ
  pub pending_empty : ℕ
  pub status_reads : ℕ
  pub status_no_events : ℕ
  pub frame_notifications : ℕ
  pub mail_reads : ℕ
  pub fallback_reads : ℕ
  pub fallback_frames : ℕ
  pub fallback_mailbox : ℕ
  pub service_errors : ℕ
  pub sequence_mismatches : ℕ
  pub queue_depth : ℕ
  pub queue_full : ℕ
  pub credit_waits : ℕ
  pub tx_sequence : ℕ
  pub tx_maximum : ℕ
  pub tx_flow : ℕ
  pub global_flow : ℕ
  pub echo_late : ℕ
  pub echo_max_ms : ℕ

-- CYW_TRANSPORT_TRACE, whose constant fields follow the version, with TraceLast100ns; the array is
-- a function of the slot.
pub record Trace : Type 0 where
  pub version : ℕ
  pub count : ℕ
  pub next : ℕ
  pub serial : ℕ
  pub origin : ℕ
  pub last : ℕ
  pub slots : ℕ → TraceEntry

abbrev flag : Bool → ℕ → ℕ
flag b n = if b then n else 0

unfoldable pub trace_flags : Sources → Transport → ℕ
trace_flags s t =
    bit_or
      (bit_or (bit_or (bit_or (flag s.rx_pending 1) (flag s.ready 2)) (flag s.authorized 4))
        (flag s.paused 8))
      (flag t.halted 16)

unfoldable pub trace_entry : Sources → Transport → ℕ → ℕ → TraceEntry
trace_entry s t now serial = record {
  time = now;
  serial = serial;
  flags = trace_flags s t;
  network_phase = s.network_phase;
  last_pending = t.last_pending;
  last_interrupt = t.last_interrupt;
  last_mailbox = t.last_mailbox;
  rx_frames = t.frames;
  empty_reads = s.empty_reads;
  tx_packets_low = s.tx_packets % 2 ^ 32;
  rx_packets_low = s.rx_packets % 2 ^ 32;
  pending_reads = t.pending_reads;
  pending_empty = t.pending_empty;
  status_reads = t.status_reads;
  status_no_events = t.status_no_events;
  frame_notifications = t.frame_notifications;
  mail_reads = t.mail_reads;
  fallback_reads = t.fallback_reads;
  fallback_frames = t.fallback_frames;
  fallback_mailbox = t.fallback_mailbox;
  service_errors = t.service_errors;
  sequence_mismatches = t.sequence_mismatches;
  queue_depth = s.tx_queue_frames;
  queue_full = s.tx_queue_full;
  credit_waits = s.tx_credit_waits;
  tx_sequence = s.tx_sequence;
  tx_maximum = s.tx_maximum;
  tx_flow = s.tx_flow;
  global_flow = flag t.global_flow 1;
  echo_late = s.echo_late;
  echo_max_ms = s.echo_max_ms;
}

unfoldable pub is_early : Trace → ℕ → Bool
is_early r now = r.version != 0 && (leb r.last now && ltb (now - r.last) 10000000)

unfoldable pub start_trace : Trace → ℕ → Trace
start_trace r now = if r.version == 0 then record r { version = 1; origin = now } else r

unfoldable pub put_slot : (ℕ → TraceEntry) → ℕ → TraceEntry → ℕ → TraceEntry
put_slot slots i e j = if j == i then e else slots j

unfoldable pub record_entry : Trace → ℕ → (ℕ → TraceEntry) → Trace
record_entry r now entry_of =
    let serial = (r.serial + 1) % 2 ^ 32 in
    record r {
      last = now;
      serial = serial;
      slots = put_slot r.slots r.next (entry_of serial);
      next = (r.next + 1) % 128;
      count = if ltb r.count 128 then r.count + 1 else r.count;
    }

-- CywTransportSample at a time.
unfoldable pub transport_sample : Trace → Sources → Transport → ℕ → Trace
transport_sample r s t now =
    if not s.has_network
    then r
    else if is_early r now
    then r
    else record_entry (start_trace r now) now (trace_entry s t now)
