-- ===== src/Retry.antt =====
-- src/cyw43455/tx_retry.h: how long the worker waits after a send that ran out of credit. A flag of
-- the source, only ever 0 or 1, is a Bool; times are in ticks of 100 ns.
pub mod Episodes
pub mod Waiting
mod Tests
use rpi5_wifi_driver_win11ar.Prelude.{
  ℕ, ◌+◌, ◌-◌, ◌^◌, Bool, true, false, not, ◌&&◌, ◌||◌, List, [], ◌∷◌, ltb, leb, ◌!=◌,
  if◌then◌else◌, sub64, raise,
}

-- CYW_TX_RETRY_FAST_LIMIT and CYW_TX_RETRY_EPISODE_100NS.
abbrev pub fast_limit : ℕ
fast_limit = 4

abbrev pub episode_100ns : ℕ
episode_100ns = 200000

pub record Retry : Type 0 where
  pub episode_active : Bool
  pub fast_attempts : ℕ
  pub backoff_latched : Bool
  pub have_now : Bool
  pub pending_fast_wait : Bool
  pub follow_up : Bool
  pub episode_start : ℕ
  pub last_now : ℕ
  pub fast_requests : ℕ
  pub backoff_requests : ℕ
  pub idle_requests : ℕ
  pub fast_resumes : ℕ
  pub fast_timeouts : ℕ
  pub fast_wakes : ℕ
  pub actual_fast_wait : ℕ
  pub max_fast_wait : ℕ

-- CywTxRetryIncrement.
unfoldable pub increment : ℕ → ℕ
increment value = if value != 2 ^ 32 - 1 then value + 1 else value

-- CywTxRetryReset; the diagnostics stay.
unfoldable pub reset : Retry → Retry
reset r = record r {
  episode_active = false;
  fast_attempts = 0;
  backoff_latched = false;
  have_now = false;
  pending_fast_wait = false;
  follow_up = false;
  episode_start = 0;
  last_now = 0;
}

-- The head of CywTxRetrySelect: the follow-up of the last wait, the end of an episode, and the clock.
unfoldable pub observe : Retry → ℕ → Bool → Bool → Retry
unfolding increment reset
observe r now tx_progress eligible =
    let rollback = r.have_now && ltb now r.last_now in
    let a = record r {
      fast_resumes =
          if r.follow_up && tx_progress then increment r.fast_resumes else r.fast_resumes;
      follow_up = false;
      pending_fast_wait = false;
    } in
    let b = if tx_progress || not eligible then reset a else a in
    let c = record b { have_now = true; last_now = now } in
    if rollback
    then record c { episode_active = true; backoff_latched = true; episode_start = now }
    else c

-- Its tail, for an eligible queue without progress.
unfoldable pub retry : Retry → ℕ → ℕ × Retry
unfolding increment
retry r now =
    let a =
      if not r.episode_active then record r { episode_active = true; episode_start = now } else r in
    if a.backoff_latched
      || (leb fast_limit a.fast_attempts || leb episode_100ns (sub64 now a.episode_start))
    then (10, record a { backoff_latched = true; backoff_requests = increment a.backoff_requests })
    else (
      1,
      record a {
        fast_attempts = a.fast_attempts + 1;
        pending_fast_wait = true;
        fast_requests = increment a.fast_requests;
      },
    )

-- CywTxRetrySelect: the wait in milliseconds, and the state.
unfoldable pub select : Retry → ℕ → Bool → Bool → Bool → ℕ × Retry
unfolding observe retry increment
select r now tx_progress rx_progress eligible =
    let a = observe r now tx_progress eligible in
    if tx_progress || rx_progress
    then (0, a)
    else if not eligible
    then (10, record a { idle_requests = increment a.idle_requests })
    else retry a now

-- CywTxRetryRecordWait.
unfoldable pub count_wait : Retry → Bool → Retry
unfolding increment
count_wait r timed_out = record r {
  pending_fast_wait = false;
  follow_up = true;
  fast_timeouts = if timed_out then increment r.fast_timeouts else r.fast_timeouts;
  fast_wakes = if timed_out then r.fast_wakes else increment r.fast_wakes;
}

unfoldable pub measure_wait : Retry → ℕ → ℕ → Retry
measure_wait r elapsed stop = record r {
  actual_fast_wait =
      if ltb (2 ^ 64 - 1 - r.actual_fast_wait) elapsed
      then 2 ^ 64 - 1
      else r.actual_fast_wait + elapsed;
  max_fast_wait = raise r.max_fast_wait elapsed;
  have_now = true;
  last_now = stop;
  backoff_latched =
      if r.episode_active
        && (ltb stop r.episode_start || leb episode_100ns (sub64 stop r.episode_start))
      then true
      else r.backoff_latched;
}

unfoldable pub record_wait : Retry → ℕ → ℕ → Bool → Retry
unfolding count_wait measure_wait
record_wait r start stop timed_out =
    let a = count_wait r timed_out in
    if not r.pending_fast_wait
    then r
    else if ltb stop start || (a.have_now && ltb start a.last_now)
    then record a { backoff_latched = true; have_now = true; last_now = stop }
    else measure_wait a (sub64 stop start) stop

-- One pass of the worker: a selection, or the record of a wait.
pub data Act : Type 0 where
  selects : ℕ → Bool → Bool → Bool → Act
  waits : ℕ → ℕ → Bool → Act

unfoldable pub act : Retry → Act → ℕ × Retry
unfolding select record_wait
act r (selects now tx_progress rx_progress eligible) = select r now tx_progress rx_progress eligible
act r (waits start stop timed_out) = (0, record_wait r start stop timed_out)

-- The waits chosen in a run, oldest first.
unfoldable pub acts : Retry → List Act → List ℕ × Retry
unfolding act
acts r [] = ([], r)
acts r (a ∷ rest) =
    let (wait, t) = act r a in let (later, last) = acts t rest in (wait ∷ later, last)
