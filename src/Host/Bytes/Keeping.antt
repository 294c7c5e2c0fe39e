-- ===== src/Host/Bytes/Keeping.antt =====
-- What the byte mode of CMD53 in src/sdio/sdio.c leaves alone.
use rpi5_wifi_driver_win11ar.Prelude.{ℕ, zero, suc, Bool, ◌+◌}
use rpi5_wifi_driver_win11ar.Task.Rules.{IsError, Keeps}
use rpi5_wifi_driver_win11ar.Host.Registers.{Device, Adapter}
use rpi5_wifi_driver_win11ar.Host.Commands.Keeping.{wait_inhibit_clear-Keeps}
use rpi5_wifi_driver_win11ar.Host.Fifo.Keeping.{
  Loose, loose_rules, interrupt_time-Keeps, delay-Keeps, count_timeout-Keeps, reset_transfer-Keeps,
  zero_if_read-Keeps,
}
use rpi5_wifi_driver_win11ar.Host.Bytes.{
  Transfer, count_poll, count_sleep, sleep_once, pause_byte, poll_phase, check_event, await_phase,
  check_response, move_part, move_parts, start_bytes, run_bytes, fail_bytes, attempt_bytes,
  cmd53_transfer,
}

module _ {D : Type 0} (dev : Device D) (t : Transfer) (operating : Bool) {P : Adapter D → Type 0}
    (free : Loose P) where
  count_poll-Keeps : (function : ℕ) (runs : Bool) → Keeps P (count_poll function runs)
  unfolding count_poll
  count_poll-Keeps function runs = search loose_rules depth 16

  count_sleep-Keeps :
      (function : ℕ) (runs : Bool) (phase ticks : ℕ)
      → Keeps P (count_sleep function runs phase ticks)
  unfolding count_sleep
  count_sleep-Keeps function runs phase ticks = search loose_rules depth 16

  sleep_once-Keeps : (phase : ℕ) → Keeps P (sleep_once dev t operating phase)
  unfolding sleep_once
  sleep_once-Keeps phase =
      search (loose_rules, interrupt_time-Keeps, delay-Keeps, count_sleep-Keeps) depth 16

  pause_byte-Keeps : (phase fast : ℕ) → Keeps P (pause_byte dev t operating phase fast)
  unfolding pause_byte
  pause_byte-Keeps phase fast = search (loose_rules, count_poll-Keeps, sleep_once-Keeps) depth 16

  poll_phase-Keeps :
      (n phase event deadline seen fast : ℕ)
      → Keeps P (poll_phase dev t operating n phase event deadline seen fast)
  unfolding poll_phase
  poll_phase-Keeps zero phase event deadline seen fast = search loose_rules
  poll_phase-Keeps (suc n) phase event deadline seen fast =
      search
        (
          loose_rules,
          interrupt_time-Keeps,
          pause_byte-Keeps,
          λ (s u : ℕ). poll_phase-Keeps n phase event deadline s u,
        )
        depth 24

  check_event-Keeps : (event : ℕ) (o : ℕ × ℕ) → Keeps P (check_event dev t operating event o)
  unfolding check_event
  check_event-Keeps event (seen, fast) = search (loose_rules, count_timeout-Keeps) depth 16

  await_phase-Keeps :
      (phase event fast : ℕ) → Keeps P (await_phase dev t operating phase event fast)
  unfolding await_phase
  await_phase-Keeps phase event fast =
      search (loose_rules, interrupt_time-Keeps, poll_phase-Keeps, check_event-Keeps) depth 16

  check_response-Keeps : Keeps P (check_response dev t operating)
  unfolding check_response
  check_response-Keeps = search loose_rules depth 16

  move_part-Keeps : (at count : ℕ) → Keeps P (move_part dev t operating at count)
  unfolding move_part
  move_part-Keeps at count = search loose_rules depth 16

  move_parts-Keeps : (n offset : ℕ) → Keeps P (move_parts dev t operating n offset)
  unfolding move_parts
  move_parts-Keeps zero offset = search loose_rules
  move_parts-Keeps (suc n) offset =
      search (loose_rules, move_part-Keeps, λ (u : Unit {0}). move_parts-Keeps n (offset + 4)) depth
        16

  start_bytes-Keeps : Keeps P (start_bytes dev t operating)
  unfolding start_bytes
  start_bytes-Keeps = search (loose_rules, wait_inhibit_clear-Keeps) depth 24

  run_bytes-Keeps : Keeps P (run_bytes dev t operating)
  unfolding run_bytes
  run_bytes-Keeps =
      search
        (loose_rules, start_bytes-Keeps, await_phase-Keeps, check_response-Keeps, move_parts-Keeps)
        depth 24

  fail_bytes-Keeps : (status : ℕ) → IsError status → Keeps P (fail_bytes dev t operating status)
  unfolding fail_bytes
  fail_bytes-Keeps status e =
      search (loose_rules, reset_transfer-Keeps, zero_if_read-Keeps) depth 16

  attempt_bytes-Keeps : Keeps P (attempt_bytes dev t operating)
  unfolding attempt_bytes
  attempt_bytes-Keeps =
      search (loose_rules, zero_if_read-Keeps, run_bytes-Keeps, fail_bytes-Keeps) depth 16

module _ {D : Type 0} (dev : Device D) {P : Adapter D → Type 0} (free : Loose P) where
  pub cmd53_transfer-Keeps : (t : Transfer) → Keeps P (cmd53_transfer dev t)
  unfolding cmd53_transfer
  cmd53_transfer-Keeps t = search (loose_rules, attempt_bytes-Keeps) depth 16
