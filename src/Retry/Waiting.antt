-- ===== src/Retry/Waiting.antt =====
-- src/cyw43455/tx_retry.h: what CywTxRetrySelect answers, and what the record of a wait measures.
use rpi5_wifi_driver_win11ar.Prelude.{
  ℕ, ◌^◌, ◌<◌, ◌≡◌, Bool, true, false, ◌&&◌, ◌||◌, not, arith, ltb, if◌then◌else◌, sub64,
}
use rpi5_wifi_driver_win11ar.Retry.{Retry, fast_limit, episode_100ns, reset, observe, retry, select}

-- The independent description of the fast wait: the queue is eligible, nothing moved, the clock did
-- not run back, no backoff is latched, an attempt is left, and the episode is younger than 20 ms.
abbrev pub fast_allowed : Retry → ℕ → Bool → Bool → Bool → Bool
fast_allowed r now tx_progress rx_progress eligible =
    eligible
    && (not tx_progress
        && (not rx_progress
            && (not (r.have_now && ltb now r.last_now)
                && (not r.backoff_latched
                    && (ltb r.fast_attempts fast_limit
                        && (not r.episode_active
                            || ltb (sub64 now r.episode_start) episode_100ns))))))

-- At a 64-bit time, the wait that CywTxRetrySelect asks for: none after progress of either kind, 1 ms exactly when a
-- fast wait is allowed, and 10 ms otherwise. A fast wait is recorded as pending.
pub select_lem :
    (r : Retry) (now : ℕ) (tx_progress rx_progress eligible : Bool)
    → now < 2 ^ 64
    → ((select r now tx_progress rx_progress eligible).0 ≡ (
        if tx_progress || rx_progress
        then 0
        else if fast_allowed r now tx_progress rx_progress eligible
        then 1
        else 10))
      × ((select r now tx_progress rx_progress eligible).1.pending_fast_wait
          ≡ fast_allowed r now tx_progress rx_progress eligible)
unfolding select observe retry reset
select_lem r now true rx_progress eligible h = ground arith
select_lem r now false true eligible h = ground arith
select_lem r now false false true h = ground arith
select_lem r now false false false h = ground arith
