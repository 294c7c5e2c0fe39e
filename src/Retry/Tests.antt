-- ===== src/Retry/Tests.antt =====
-- The retry policy of src/cyw43455/tx_retry.h at concrete passes of the worker.
use rpi5_wifi_driver_win11ar.Prelude.{
  ◌+◌, ◌≤◌, ◌≡◌, refl, true, false, ◌||◌, List, [], ◌∷◌, arith, if◌then◌else◌,
}
use rpi5_wifi_driver_win11ar.Retry.{Retry, fast_limit, select, Act, selects, waits, act, acts}
use rpi5_wifi_driver_win11ar.Retry.Episodes.{fast_waits, fast_waits-acts, fast_waits-latched}
use rpi5_wifi_driver_win11ar.Retry.Waiting.{fast_allowed, select_lem}

abbrev fresh : Retry
fresh = record {
  episode_active = false;
  fast_attempts = 0;
  backoff_latched = false;
  have_now = false;
  pending_fast_wait = false;
  follow_up = false;
  episode_start = 0;
  last_now = 0;
  fast_requests = 0;
  backoff_requests = 0;
  idle_requests = 0;
  fast_resumes = 0;
  fast_timeouts = 0;
  fast_wakes = 0;
  actual_fast_wait = 0;
  max_fast_wait = 0;
}

-- Two fast waits with a received frame between them.
abbrev passes : List Act
passes =
    selects 1000 false false true
    ∷ (waits 1000 11000 true
        ∷ (selects 11000 false true true ∷ (selects 12000 false false true ∷ [])))

two_waits : fast_waits (acts fresh passes).0 ≡ 2
unfolding acts act
two_waits = refl

fast_waits-acts_example : fresh.fast_attempts + fast_waits (acts fresh passes).0 ≤ fast_limit
fast_waits-acts_example = fast_waits-acts fresh passes refl (omega arith)

fast_waits-latched_example :
    fast_waits (acts (record fresh { backoff_latched = true }) passes).0 ≡ 0
fast_waits-latched_example =
    fast_waits-latched (record fresh { backoff_latched = true }) passes refl refl

select_lem_example :
    ((select fresh 1000 false false true).0
      ≡ (if false || false then 0 else if fast_allowed fresh 1000 false false true then 1 else 10))
    × ((select fresh 1000 false false true).1.pending_fast_wait
        ≡ fast_allowed fresh 1000 false false true)
select_lem_example = select_lem fresh 1000 false false true (omega arith)
