-- ===== src/TxQueue/Tests.antt =====
-- The queue of src/cyw43455/tx_queue.h at concrete schedules.
use rpi5_wifi_driver_win11ar.Prelude.{
  ℕ, ◌+◌, ◌*◌, ◌≡◌, ◌≢◌, refl, ◌⊎◌, List, [], ◌∷◌, ◌++◌, none, arith, length,
}
use rpi5_wifi_driver_win11ar.TxQueue.State.{
  BufferList, Counters, System, status_success, status_pending, status_failure, status_send_aborted,
}
use rpi5_wifi_driver_win11ar.TxQueue.Admission.{prepare, prepared, admit}
use rpi5_wifi_driver_win11ar.TxQueue.Release.{
  outstanding_total, promote_one, promote_all, set_gate, remove_entry, end_callback, hand_back,
  begin_callback, release_charge, count_failure,
}
use rpi5_wifi_driver_win11ar.TxQueue.Preparation.{good_item, prepare_lem}
use rpi5_wifi_driver_win11ar.TxQueue.Invariant.{IsValid}
use rpi5_wifi_driver_win11ar.TxQueue.Items.{count}
use rpi5_wifi_driver_win11ar.TxQueue.Promotion.{promote_all-none}
use rpi5_wifi_driver_win11ar.TxQueue.Line.{line, line-admit, line-promote_all}
use rpi5_wifi_driver_win11ar.TxQueue.World.{
  World, Event, submits, cancels, gates, sends_frame, removes_entry, charges, returns, step, run,
  start,
}
use rpi5_wifi_driver_win11ar.TxQueue.Ownership.{
  WorldOk, in_hand, detached, callbacks, returned_nbls,
}
use rpi5_wifi_driver_win11ar.TxQueue.Schedules.{
  run-balanced, run-IsValid, outstanding-run, outstanding_zero, run-WorldOk, start-WorldOk,
}
use rpi5_wifi_driver_win11ar.TxQueue.Flush.{flush}
use rpi5_wifi_driver_win11ar.TxQueue.Flushing.{completions}
use rpi5_wifi_driver_win11ar.TxQueue.Flushed.{flush_lem}

abbrev no_counts : Counters
no_counts = record {
  tx_oversized_nbl = 0;
  tx_queue_frames = 0;
  tx_queue_high_water = 0;
  tx_queue_full = 0;
  tx_queue_max_delay_ms = 0;
  tx_nbl_accepted = 0;
  tx_nbl_completed = 0;
  tx_cancelled = 0;
  tx_errors = 0;
  tx_expired = 0;
  tx_packets = 0;
  tx_credit_waits = 0;
  tx_backlog_current = 0;
  tx_backlog_nbl_current = 0;
  tx_backlog_high_water = 0;
  tx_backlog_accepted = 0;
  tx_backlog_promoted = 0;
  tx_backlog_full = 0;
  tx_backlog_expired = 0;
  tx_backlog_cancelled = 0;
  tx_backlog_max_delay_ms = 0;
  tx_adaptive_small_frames = 0;
  tx_adaptive_bulk_frames = 0;
  tx_adaptive_small_backlog_accepted = 0;
  tx_adaptive_bulk_backpressure = 0;
  tx_adaptive_small_burst_starts = 0;
  tx_adaptive_bulk_fresh_f1_attempts = 0;
  drop_errors = 0;
  drop_discards = 0;
}

abbrev two_frames : BufferList
two_frames = record { nbl = 7; cancel_id = 1; buffers = 60 ∷ (1514 ∷ []) }

abbrev many_frames : BufferList
many_frames = record {
  nbl = 8;
  cancel_id = 2;
  buffers = 60 ∷ (60 ∷ (60 ∷ (60 ∷ (60 ∷ (60 ∷ (60 ∷ (60 ∷ [])))))));
}

abbrev clock : ℕ → ℕ
clock n = n * 10000

-- Two lists are accepted, the first is sent and returned; the second stays.
abbrev mixed : List Event
mixed =
    submits two_frames 0
    ∷ (submits many_frames 5
        ∷ (sends_frame
            ∷ (removes_entry 0 status_success ∷ (charges ∷ (returns ∷ (cancels 2 ∷ []))))))

-- And one that is returned whole.
abbrev returned_whole : List Event
returned_whole =
    submits two_frames 0
    ∷ (gates status_failure ∷ (removes_entry 0 status_failure ∷ (charges ∷ (returns ∷ []))))

abbrev two_submissions : List Event
two_submissions = submits two_frames 0 ∷ (submits many_frames 5 ∷ [])

abbrev after_mixed : World
after_mixed = run clock (start no_counts) mixed

abbrev after_return : World
after_return = run clock (start no_counts) returned_whole

run-IsValid_example :
    IsValid after_mixed.sys.queue (detached after_mixed.hand) (callbacks after_mixed.hand)
run-IsValid_example = run-IsValid clock no_counts mixed

run-balanced_example :
    count 8 after_mixed.accepted
    ≡ count 8 (returned_nbls after_mixed.sys.returned)
      + count 8 (in_hand after_mixed.hand)
      + count 8 (line after_mixed.sys.queue)
run-balanced_example = run-balanced clock no_counts mixed 8

outstanding-run_example :
    outstanding_total after_mixed.sys.queue
    ≡ length (in_hand after_mixed.hand)
      + length after_mixed.sys.queue.entries
      + length after_mixed.sys.queue.backlog
outstanding-run_example = outstanding-run clock no_counts mixed

outstanding_zero_example :
    count 7 after_return.accepted ≡ count 7 (returned_nbls after_return.sys.returned)
unfolding run step set_gate prepare remove_entry admit end_callback hand_back begin_callback
    promote_all release_charge count_failure outstanding_total
outstanding_zero_example = outstanding_zero clock no_counts returned_whole 7 refl

prepare_lem_example : prepare two_frames 5 ≡ prepared (good_item two_frames 5)
prepare_lem_example = prepare_lem two_frames 5

full_line : WorldOk (run clock (start no_counts) two_submissions)
full_line = run-WorldOk clock (start no_counts) two_submissions (start-WorldOk no_counts)

abbrev held_two : System
held_two = (run clock (start no_counts) two_submissions).sys

flush_lem_example :
    let t = flush clock held_two status_send_aborted in
    (t.returned ≡ held_two.returned ++ completions status_send_aborted (line held_two.queue))
    × (t.queue.entries ≡ [])
    × (t.queue.backlog ≡ [])
    × (outstanding_total t.queue ≡ 0)
unfolding run step prepare admit
flush_lem_example =
    flush_lem clock held_two status_send_aborted (7 ∷ (8 ∷ [])) full_line (omega arith)

line-promote_all_example :
    (line (promote_all clock held_two).queue ≡ line held_two.queue)
    × ((promote_all clock held_two).returned ≡ held_two.returned)
    × ((promote_all clock held_two).queue.gate ≡ held_two.queue.gate)
line-promote_all_example = line-promote_all clock held_two

line-admit_example :
    let (status, t) = admit held_two (good_item many_frames 9) in
    (t.returned ≡ held_two.returned)
    × (t.queue.gate ≡ held_two.queue.gate)
    × (((status ≡ status_pending) × (line t.queue ≡ line held_two.queue ++ (8 ∷ [])))
        ⊎ ((status ≢ status_pending) × (t.queue ≡ held_two.queue)))
unfolding run step prepare admit
line-admit_example = line-admit held_two (good_item many_frames 9) (omega arith)

promote_all-none_example : promote_one clock (promote_all clock held_two) ≡ none
promote_all-none_example = promote_all-none clock held_two
