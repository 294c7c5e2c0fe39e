-- ===== src/TxQueue/State.antt =====
-- The types of src/cyw43455/tx_types.h, the counters of the adapter that the queue updates, and the
-- NDIS status codes. A net buffer is known by its data length, a net buffer list by a number.
use rpi5_wifi_driver_win11ar.Prelude.{ℕ, Bool, List}

abbrev pub status_success : ℕ
status_success = 0

abbrev pub status_pending : ℕ
status_pending = 0x103

abbrev pub status_resources : ℕ
status_resources = 0xc000009a

abbrev pub status_invalid_length : ℕ
status_invalid_length = 0xc0010014

abbrev pub status_send_aborted : ℕ
status_send_aborted = 0xc001000c

abbrev pub status_failure : ℕ
status_failure = 0xc0000001

-- CYW_TX_LIMIT, CYW_TX_BACKLOG_LIMIT and CYW_TX_MAX_AGE (30 seconds in 100 ns units).
abbrev pub tx_limit : ℕ
tx_limit = 64

abbrev pub tx_backlog_limit : ℕ
tx_backlog_limit = 128

abbrev pub tx_max_age : ℕ
tx_max_age = 300000000

-- RPI5CYW_TX_ADAPTIVE_SMALL_MAX and RPI5CYW_TX_SERVICE_BURST_MAX.
abbrev pub adaptive_small_max : ℕ
adaptive_small_max = 512

abbrev pub service_burst_max : ℕ
service_burst_max = 4

-- A NET_BUFFER_LIST as the protocol driver submits it.
pub record BufferList : Type 0 where
  pub nbl : ℕ
  pub cancel_id : ℕ
  pub buffers : List ℕ

-- CYW_PENDING_SEND; `next` is the chain of net buffers from `Next` on.
pub record PendingSend : Type 0 where
  pub nbl : ℕ
  pub next : List ℕ
  pub cancel_id : ℕ
  pub frames : ℕ
  pub held_frames : ℕ
  pub bytes : ℕ
  pub max_frame_length : ℕ
  pub submitted : ℕ
  pub cancelled : Bool

-- CYW_TX_STATE. The lists are Entries[0..Count) and Backlog[0..BacklogCount).
pub record TxState : Type 0 where
  pub gate : ℕ
  pub entries : List PendingSend
  pub frames : ℕ
  pub bytes : ℕ
  pub outstanding : ℕ
  pub completing : ℕ
  pub backlog : List PendingSend
  pub backlog_frames : ℕ
  pub backlog_bytes : ℕ

-- The fields of RPI5CYW_ADAPTER that the queue writes; `drop_errors` and `drop_discards` are
-- Traffic.Errors[TRUE] and Traffic.Discards[TRUE].
pub record Counters : Type 0 where
  pub tx_oversized_nbl : ℕ
  pub tx_queue_frames : ℕ
  pub tx_queue_high_water : ℕ
  pub tx_queue_full : ℕ
  pub tx_queue_max_delay_ms : ℕ
  pub tx_nbl_accepted : ℕ
  pub tx_nbl_completed : ℕ
  pub tx_cancelled : ℕ
  pub tx_errors : ℕ
  pub tx_expired : ℕ
  pub tx_packets : ℕ
  pub tx_credit_waits : ℕ
  pub tx_backlog_current : ℕ
  pub tx_backlog_nbl_current : ℕ
  pub tx_backlog_high_water : ℕ
  pub tx_backlog_accepted : ℕ
  pub tx_backlog_promoted : ℕ
  pub tx_backlog_full : ℕ
  pub tx_backlog_expired : ℕ
  pub tx_backlog_cancelled : ℕ
  pub tx_backlog_max_delay_ms : ℕ
  pub tx_adaptive_small_frames : ℕ
  pub tx_adaptive_bulk_frames : ℕ
  pub tx_adaptive_small_backlog_accepted : ℕ
  pub tx_adaptive_bulk_backpressure : ℕ
  pub tx_adaptive_small_burst_starts : ℕ
  pub tx_adaptive_bulk_fresh_f1_attempts : ℕ
  pub drop_errors : ℕ
  pub drop_discards : ℕ

-- One call of NdisMSendNetBufferListsComplete: the list, and its NET_BUFFER_LIST_STATUS.
pub record Completion : Type 0 where
  pub nbl : ℕ
  pub status : ℕ

-- The queue, the counters, the completions made so far (oldest first), and how often
-- KeQueryInterruptTime was called.
pub record System : Type 0 where
  pub queue : TxState
  pub counters : Counters
  pub returned : List Completion
  pub clock_reads : ℕ
