-- ===== src/Interrupts/Rearm.antt =====
-- Rpi5CywInterruptRearm of src/driver/driver.c, which the worker calls at the end of a pass, and the
-- reset of its state.
use rpi5_wifi_driver_win11ar.Prelude.{
  ℕ, Bool, true, false, not, ◌&&◌, ◌||◌, Option, none, some, List, [], ◌∷◌, ◌!=◌, if◌then◌else◌,
  has_bit, inc32,
}
use rpi5_wifi_driver_win11ar.Interrupts.{
  pending_functions, next_empty_wake_streak, use_polling_fallback,
}

-- The fields Interrupt* of the adapter that the function uses; `card_enabled` is the switch of
-- Rpi5CywSetCardInterruptEnable.
pub record InterruptState : Type 0 where
  pub needs_rearm : Bool
  pub wake_pending : Bool
  pub rearm_count : ℕ
  pub pending_reads : ℕ
  pub pending_read_failures : ℕ
  pub pending_f1 : ℕ
  pub pending_f2 : ℕ
  pub pending_empty : ℕ
  pub rearm_deferred : ℕ
  pub useful_wakes : ℕ
  pub empty_wakes : ℕ
  pub empty_wake_streak : ℕ
  pub storm_fallback : Bool
  pub storm_fallback_count : ℕ
  pub card_enabled : Bool

-- A call: InterruptNeedsRearm and the rest of the adapter as the call finds them, the level of the
-- caller, its two arguments, what CMD52 answers (none is a failure), and what the synchronized part
-- finds.
pub record Pass : Type 0 where
  pub registered : Bool
  pub has_handle : Bool
  pub stopped : Bool
  pub has_network : Bool
  pub needs_rearm : Bool
  pub passive : Bool
  pub interrupt_wake : Bool
  pub useful_work : Bool
  pub answer : Option ℕ
  pub sync_has_registers : Bool
  pub sync_stopped : Bool
  pub sync_has_network : Bool

-- Rpi5CywInterruptResetRuntime.
unfoldable pub reset_runtime : InterruptState → InterruptState
reset_runtime s = record s {
  storm_fallback = false;
  empty_wake_streak = 0;
  wake_pending = false;
  needs_rearm = true;
}

-- Rpi5CywInterruptRearmSync.
unfoldable pub rearm_sync : InterruptState → Pass → InterruptState
rearm_sync s p =
    if not p.sync_has_registers || (p.sync_stopped || (not p.sync_has_network || s.storm_fallback))
    then s
    else record s { card_enabled = true; needs_rearm = false; rearm_count = inc32 s.rearm_count }

unfoldable pub fall_back_to_polls : InterruptState → ℕ → InterruptState
fall_back_to_polls s streak = record s {
  storm_fallback_count =
      if s.storm_fallback then s.storm_fallback_count else inc32 s.storm_fallback_count;
  storm_fallback = true;
  empty_wake_streak = streak;
}

unfoldable pub count_if : Bool → ℕ → ℕ
count_if b n = if b then inc32 n else n

-- The counters of what the register and the wake have shown.
unfoldable pub note_pending : InterruptState → Pass → ℕ → InterruptState
note_pending s p functions = record s {
  pending_f1 = count_if (has_bit functions 1) s.pending_f1;
  pending_f2 = count_if (has_bit functions 2) s.pending_f2;
  pending_empty = count_if (not (functions != 0)) s.pending_empty;
  useful_wakes = count_if (p.interrupt_wake && p.useful_work) s.useful_wakes;
  empty_wakes =
      count_if (p.interrupt_wake && (not p.useful_work && not (functions != 0))) s.empty_wakes;
}

unfoldable pub settle_streak : InterruptState → Pass → ℕ → ℕ → InterruptState
settle_streak s p functions streak =
    if use_polling_fallback streak
    then fall_back_to_polls s streak
    else if functions != 0
    then record s { rearm_deferred = inc32 s.rearm_deferred; empty_wake_streak = 0 }
    else rearm_sync (record s { empty_wake_streak = streak }) p

unfoldable pub take_pending : InterruptState → Pass → Option ℕ → InterruptState
take_pending s p none =
    fall_back_to_polls (record s { pending_read_failures = inc32 s.pending_read_failures }) 0
take_pending s p (some pending) =
    settle_streak (note_pending s p (pending_functions pending)) p (pending_functions pending)
      (next_empty_wake_streak p.interrupt_wake p.useful_work pending s.empty_wake_streak)

unfoldable pub is_idle : InterruptState → Pass → Bool
is_idle s p =
    not p.registered
    || (not p.has_handle
        || (p.stopped || (not p.has_network || (s.storm_fallback || not s.needs_rearm))))

-- Rpi5CywInterruptRearm.
unfoldable pub interrupt_rearm : InterruptState → Pass → InterruptState
interrupt_rearm s p =
    if is_idle s p
    then s
    else if not p.passive
    then s
    else take_pending (record s { pending_reads = inc32 s.pending_reads }) p p.answer

-- The calls of a run; between two of them, the interrupt and the other callbacks set or clear
-- InterruptNeedsRearm.
unfoldable pub worker_passes : InterruptState → List Pass → InterruptState
worker_passes s [] = s
worker_passes s (p ∷ ps) =
    worker_passes (interrupt_rearm (record s { needs_rearm = p.needs_rearm }) p) ps
