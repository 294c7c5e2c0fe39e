-- ===== src/Interrupts.antt =====
-- src/driver/interrupt_policy.h: when the worker gives up on interrupts and polls.
pub mod Fallback
pub mod Rearm
pub mod Verdicts
mod Tests
use rpi5_wifi_driver_win11ar.Prelude.{
  ℕ, ◌+◌, Bool, true, false, not, ◌||◌, ltb, leb, ◌!=◌, if◌then◌else◌, bit_and,
}

-- CYW_INTERRUPT_EMPTY_WAKE_LIMIT.
abbrev pub empty_wake_limit : ℕ
empty_wake_limit = 32

-- CywInterruptPendingFunctions: the bits of functions 1 and 2.
unfoldable pub pending_functions : ℕ → ℕ
pending_functions pending = bit_and pending 0x06

-- CywInterruptNextEmptyWakeStreak.
unfoldable pub next_empty_wake_streak : Bool → Bool → ℕ → ℕ → ℕ
next_empty_wake_streak interrupt_wake useful_work pending current =
    if not interrupt_wake
    then current
    else if useful_work || pending_functions pending != 0
    then 0
    else if ltb current empty_wake_limit
    then current + 1
    else current

-- CywInterruptUsePollingFallback.
unfoldable pub use_polling_fallback : ℕ → Bool
use_polling_fallback streak = leb empty_wake_limit streak
