-- ===== src/TxQueue/Admission.antt =====
-- src/cyw43455/tx_queue.h: preparing a submitted list, the room tests, and admission to the active
-- window or the backlog. The build is the default one (RPI5CYW_TX_ADAPTIVE_HYBRID is 1). A call of
-- KeQueryInterruptTime reads the clock `time` at the number of the call.
use rpi5_wifi_driver_win11ar.Prelude.{
  ℕ, ◌+◌, Bool, true, false, ◌&&◌, List, [], ◌∷◌, ◌++◌, ltb, leb, ◌==◌, ◌!=◌, if◌then◌else◌, length,
  add32, sub32, inc32, raise,
}
use rpi5_wifi_driver_win11ar.TxQueue.State.{
  BufferList, PendingSend, TxState, System, status_success, status_pending, status_resources,
  status_invalid_length, tx_limit, tx_backlog_limit, adaptive_small_max,
}

-- What CywTxPrepare finds in the chain of net buffers.
pub data Scan : Type 0 where
  bad_length : Scan
  oversized : Scan
  scanned : ℕ → ℕ → ℕ → Scan

-- The loop of CywTxPrepare over the chain, with `frames`, `bytes` and `maxLength` so far.
unfoldable pub scan_buffers : List ℕ → ℕ → ℕ → ℕ → Scan
scan_buffers [] frames bytes longest = scanned frames bytes longest
scan_buffers (len ∷ rest) frames bytes longest =
    let tail = scan_buffers rest (inc32 frames) (add32 bytes len) (raise longest len) in
    if ltb len 14
    then bad_length
    else if ltb 1514 len
    then bad_length
    else if ltb tx_limit (inc32 frames)
    then oversized
    else tail

-- CywTxPrepare: a status, and the item if it is NDIS_STATUS_SUCCESS.
pub data Prepared : Type 0 where
  refused : ℕ → Prepared
  prepared : PendingSend → Prepared

unfoldable pub make_item : BufferList → ℕ → ℕ → ℕ → ℕ → PendingSend
make_item l frames bytes longest now = record {
  nbl = l.nbl;
  next = l.buffers;
  cancel_id = l.cancel_id;
  frames = frames;
  held_frames = frames;
  bytes = bytes;
  max_frame_length = longest;
  submitted = now;
  cancelled = false;
}

unfoldable pub finish_prepare : BufferList → ℕ → Scan → Prepared
unfolding make_item
finish_prepare l now bad_length = refused status_invalid_length
finish_prepare l now oversized = refused status_resources
finish_prepare l now (scanned frames bytes longest) =
    if frames == 0
    then refused status_invalid_length
    else prepared (make_item l frames bytes longest now)

unfoldable pub prepare : BufferList → ℕ → Prepared
unfolding scan_buffers finish_prepare
prepare l now = finish_prepare l now (scan_buffers l.buffers 0 0 0)

-- CywTxActiveFits and CywTxBacklogFits.
unfoldable pub active_fits : TxState → ℕ → Bool
active_fits q frames =
    ltb q.outstanding tx_limit
    && (ltb (length q.entries) tx_limit && leb q.frames (sub32 tx_limit frames))

unfoldable pub backlog_fits : TxState → ℕ → Bool
backlog_fits q frames =
    ltb (length q.backlog) tx_backlog_limit && leb q.backlog_frames (sub32 tx_backlog_limit frames)

-- CywTxAdaptiveSmallLength, and CywTxAdaptiveSmallItem.
unfoldable pub adaptive_small_length : ℕ → Bool
adaptive_small_length len = leb len adaptive_small_max

unfoldable pub adaptive_small_item : PendingSend → Bool
unfolding adaptive_small_length
adaptive_small_item item = adaptive_small_length item.max_frame_length

-- CywTxActivateLocked: the queue, and then the counters.
unfoldable pub activate_queue : TxState → PendingSend → TxState
activate_queue q item = record q {
  entries = q.entries ++ (item ∷ []);
  frames = add32 q.frames item.held_frames;
  bytes = add32 q.bytes item.bytes;
  outstanding = inc32 q.outstanding;
}

unfoldable pub activate : System → PendingSend → Bool → System
unfolding activate_queue
activate s item count_accepted =
    let q = activate_queue s.queue item in
    record s {
      queue = q;
      counters = record s.counters {
        tx_queue_frames = q.frames;
        tx_queue_high_water = raise s.counters.tx_queue_high_water q.frames;
        tx_nbl_accepted =
            if count_accepted then inc32 s.counters.tx_nbl_accepted else s.counters.tx_nbl_accepted;
      };
    }

-- CywTxBacklogLocked.
unfoldable pub backlog_queue : TxState → PendingSend → TxState
backlog_queue q item = record q {
  backlog = q.backlog ++ (item ∷ []);
  backlog_frames = add32 q.backlog_frames item.held_frames;
  backlog_bytes = add32 q.backlog_bytes item.bytes;
}

unfoldable pub defer : System → PendingSend → System
unfolding backlog_queue
defer s item =
    let q = backlog_queue s.queue item in
    record s {
      queue = q;
      counters = record s.counters {
        tx_backlog_current = q.backlog_frames;
        tx_backlog_nbl_current = length q.backlog;
        tx_backlog_high_water = raise s.counters.tx_backlog_high_water q.backlog_frames;
        tx_backlog_accepted = inc32 s.counters.tx_backlog_accepted;
        tx_nbl_accepted = inc32 s.counters.tx_nbl_accepted;
      };
    }

-- The second critical section of CywTxSubmitWithBacklog, for a prepared item.
unfoldable pub admit : System → PendingSend → ℕ × System
unfolding active_fits backlog_fits adaptive_small_item activate defer
admit s item =
    let small = adaptive_small_item item in
    if s.queue.gate != status_success
    then (s.queue.gate, s)
    else if length s.queue.backlog == 0 && active_fits s.queue item.held_frames
    then (status_pending, activate s item true)
    else if small && backlog_fits s.queue item.held_frames
    then (let t = defer s item in
        (
          status_pending,
          record t {
            counters = record t.counters {
              tx_adaptive_small_backlog_accepted =
                  inc32 t.counters.tx_adaptive_small_backlog_accepted;
            };
          },
        ))
    else (
      status_resources,
      record s {
        counters = record s.counters {
          tx_queue_full = inc32 s.counters.tx_queue_full;
          tx_backlog_full =
              if small then inc32 s.counters.tx_backlog_full else s.counters.tx_backlog_full;
          tx_adaptive_bulk_backpressure =
              if small
              then s.counters.tx_adaptive_bulk_backpressure
              else inc32 s.counters.tx_adaptive_bulk_backpressure;
        };
      },
    )

-- CywTxPrepare counts an oversized list; the interrupt time is read only for a good one.
unfoldable pub count_oversized : System → ℕ → System
count_oversized s status =
    if status == status_resources
    then record s {
      counters = record s.counters { tx_oversized_nbl = inc32 s.counters.tx_oversized_nbl };
    }
    else s

-- CywTxSubmitWithBacklog, with nothing between its two critical sections.
unfoldable pub submit_with_backlog : (ℕ → ℕ) → System → BufferList → ℕ × System
unfolding prepare count_oversized admit
submit_with_backlog time s l =
    if s.queue.gate != status_success
    then (s.queue.gate, s)
    else elim (prepare l (time s.clock_reads)) [
      | refused status ↦ (status, count_oversized s status)
      | prepared item ↦ admit (record s { clock_reads = s.clock_reads + 1 }) item
    ]
