-- ===== src/Interrupts/Tests.antt =====
-- The interrupts of src/driver/driver.c over the passes of a worker.
use rpi5_wifi_driver_win11ar.Prelude.{
  ◌≡◌, ◌↔◌, ◌⊎◌, refl, true, false, some, List, ◌∷◌, ◌++◌, replicate,
}
use rpi5_wifi_driver_win11ar.Interrupts.{
  pending_functions, next_empty_wake_streak, use_polling_fallback,
}
use rpi5_wifi_driver_win11ar.Interrupts.Rearm.{
  InterruptState, Pass, reset_runtime, rearm_sync, fall_back_to_polls, note_pending, settle_streak,
  take_pending, is_idle, interrupt_rearm, worker_passes,
}
use rpi5_wifi_driver_win11ar.Interrupts.Verdicts.{HasFailure, HasStorm}
use rpi5_wifi_driver_win11ar.Interrupts.Fallback.{storm_fallback_lem}

abbrev started : InterruptState
started = record {
  needs_rearm = false;
  wake_pending = false;
  rearm_count = 0;
  pending_reads = 0;
  pending_read_failures = 0;
  pending_f1 = 0;
  pending_f2 = 0;
  pending_empty = 0;
  rearm_deferred = 0;
  useful_wakes = 0;
  empty_wakes = 0;
  empty_wake_streak = 7;
  storm_fallback = true;
  storm_fallback_count = 1;
  card_enabled = false;
}

abbrev empty_pass : Pass
empty_pass = record {
  registered = true;
  has_handle = true;
  stopped = false;
  has_network = true;
  needs_rearm = true;
  passive = true;
  interrupt_wake = true;
  useful_work = false;
  answer = some 1;
  sync_has_registers = true;
  sync_stopped = false;
  sync_has_network = true;
}

-- A timer wakes the worker, and function 2 is pending.
abbrev timer_pass : Pass
timer_pass = record empty_pass { interrupt_wake = false; answer = some 4 }

-- 31 empty wakes, a pass that wants the interrupt, and 32 empty wakes.
abbrev passes : List Pass
passes = replicate 31 empty_pass ++ (timer_pass ∷ replicate 32 empty_pass)

fallback_test : (worker_passes (reset_runtime started) passes).storm_fallback ≡ true
unfolding worker_passes reset_runtime interrupt_rearm is_idle take_pending settle_streak
    note_pending rearm_sync fall_back_to_polls pending_functions next_empty_wake_streak
    use_polling_fallback
fallback_test = refl

no_fallback_test :
    (worker_passes
      (reset_runtime started)
      (replicate 31 empty_pass ++ (timer_pass ∷ replicate 31 empty_pass))).storm_fallback
    ≡ false
unfolding worker_passes reset_runtime interrupt_rearm is_idle take_pending settle_streak
    note_pending rearm_sync fall_back_to_polls pending_functions next_empty_wake_streak
    use_polling_fallback
no_fallback_test = refl

storm_fallback_lem_example :
    ((worker_passes (reset_runtime started) passes).storm_fallback ≡ true)
    ↔ (HasFailure passes ⊎ HasStorm passes)
storm_fallback_lem_example = storm_fallback_lem started passes
