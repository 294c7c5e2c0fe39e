-- ===== src/Retry/Episodes.antt =====
-- src/cyw43455/tx_retry.h: how many fast waits one episode of exhausted credit gets.
use rpi5_wifi_driver_win11ar.Prelude.{
  ℕ, ◌+◌, ◌≤◌, ◌≡◌, ◌≢◌, refl, Bool, true, false, ◌&&◌, not, List, [], ◌∷◌, arith, ◌==◌,
  if◌then◌else◌,
}
use rpi5_wifi_driver_win11ar.Retry.{
  Retry, fast_limit, observe, retry, select, record_wait, count_wait, measure_wait, Act, selects,
  waits, act, acts,
}

-- An act within an episode: the credit is still exhausted.
abbrev pub in_episode : Act → Bool
in_episode (selects now tx_progress rx_progress eligible) = not tx_progress && eligible
in_episode (waits start stop timed_out) = true

abbrev pub all_in_episode : List Act → Bool
all_in_episode [] = true
all_in_episode (a ∷ rest) = in_episode a && all_in_episode rest

abbrev pub fast_waits : List ℕ → ℕ
fast_waits [] = 0
fast_waits (w ∷ ws) = (if w == 1 then 1 else 0) + fast_waits ws

observe-fast_attempts :
    (r : Retry) (now : ℕ) → (observe r now false true).fast_attempts ≡ r.fast_attempts
unfolding observe
observe-fast_attempts r now = ground arith

retry-fast_attempts :
    (r : Retry) (now : ℕ)
    → r.fast_attempts ≤ fast_limit
    → (r.fast_attempts + (if (retry r now).0 == 1 then 1 else 0) ≡ (retry r now).1.fast_attempts)
      × ((retry r now).1.fast_attempts ≤ fast_limit)
unfolding retry
retry-fast_attempts r now h = ground arith

act-fast_attempts :
    (r : Retry) (a : Act)
    → in_episode a ≡ true
    → r.fast_attempts ≤ fast_limit
    → (r.fast_attempts + (if (act r a).0 == 1 then 1 else 0) ≡ (act r a).1.fast_attempts)
      × ((act r a).1.fast_attempts ≤ fast_limit)
unfolding act select record_wait count_wait measure_wait
act-fast_attempts r (selects now false false true) e h =
    ground (arith, retry-fast_attempts (observe r now false true) now, observe-fast_attempts r now)
act-fast_attempts r (selects now false true true) e h = ground (arith, observe-fast_attempts r now)
act-fast_attempts r (selects now false rx false) e h = cc
act-fast_attempts r (selects now true rx el) e h = cc
act-fast_attempts r (waits start stop timed_out) e h = ground arith

-- While the credit stays exhausted (no frame goes out and the queue stays eligible), the policy
-- chooses the 1 ms wait at most four times in all, the attempts made before included, however many
-- passes and waits there are, received frames and clock regressions among them.
pub fast_waits-acts :
    (r : Retry) (passes : List Act)
    → all_in_episode passes ≡ true
    → r.fast_attempts ≤ fast_limit
    → r.fast_attempts + fast_waits (acts r passes).0 ≤ fast_limit
unfolding acts
fast_waits-acts r [] e h = omega (arith, h)
fast_waits-acts r (a ∷ rest) e h =
    ground (arith, act-fast_attempts r a, fast_waits-acts (act r a).1 rest)

latched-retry :
    (r : Retry) (now : ℕ)
    → r.backoff_latched ≡ true
    → ((retry r now).0 ≡ 10) × ((retry r now).1.backoff_latched ≡ true)
unfolding retry
latched-retry r now h = ground arith

latched-observe :
    (r : Retry) (now : ℕ)
    → r.backoff_latched ≡ true
    → (observe r now false true).backoff_latched ≡ true
unfolding observe
latched-observe r now h = ground arith

latched-act :
    (r : Retry) (a : Act)
    → in_episode a ≡ true
    → r.backoff_latched ≡ true
    → ((act r a).0 ≢ 1) × ((act r a).1.backoff_latched ≡ true)
unfolding act select record_wait count_wait measure_wait
latched-act r (selects now false false true) e h =
    ground (arith, latched-retry (observe r now false true) now, latched-observe r now)
latched-act r (selects now false true true) e h = ground (arith, latched-observe r now)
latched-act r (selects now false rx false) e h = cc
latched-act r (selects now true rx el) e h = cc
latched-act r (waits start stop timed_out) e h = ground arith

-- Once the backoff is latched, no fast wait is chosen as long as the credit stays exhausted.
pub fast_waits-latched :
    (r : Retry) (passes : List Act)
    → all_in_episode passes ≡ true
    → r.backoff_latched ≡ true
    → fast_waits (acts r passes).0 ≡ 0
unfolding acts
fast_waits-latched r [] e h = refl
fast_waits-latched r (a ∷ rest) e h =
    ground (arith, latched-act r a, fast_waits-latched (act r a).1 rest)
