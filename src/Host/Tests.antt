-- ===== src/Host/Tests.antt =====
-- A simulated card behind a simulated controller, and the SDIO code on it.
use rpi5_wifi_driver_win11ar.Prelude.{
  ℕ, ◌+◌, ◌*◌, ◌/◌, ◌%◌, ◌^◌, ◌≤◌, ◌≡◌, refl, true, false, ◌==◌, if◌then◌else◌, bit_or, arith, List,
  [], ◌∷◌,
}
use rpi5_wifi_driver_win11ar.Task.{error, ◌>>=◌, on_error, noting, ignore, outcome_of}
use rpi5_wifi_driver_win11ar.Task.Rules.{Ends}
use rpi5_wifi_driver_win11ar.Host.Registers.{Device, Adapter, io_device_error}
use rpi5_wifi_driver_win11ar.Host.Registers.{
  on_device, change_device, io_stopped, stall, register_read, register_write, read8, read16, read32,
  write8, write16, write32, set_last, set_memory, interrupt_time, set_mode, set_clocks, set_copies,
  set_cmd53, set_fifo, forget_window, forget_blocks,
}
use rpi5_wifi_driver_win11ar.Host.Commands.{
  base_clock_khz, divider_for, divider_bits, clock_rate, reset_wait, reset_host, settle_clock,
  enable_clock, start_clock, start_from_base, set_clock, inhibit_wait, wait_inhibit_clear,
  poll_command, fail_after_reset, finish_busy, finish_command, issue_command, send_command,
  cmd52_read, moves_window, verify_write, cmd52_write,
}
use rpi5_wifi_driver_win11ar.Host.BusMode.{
  forget_bus, accept_high_speed, confirm_rate, refuse_stopped, write_low_speed, lower_speed,
  set_card_width, switch_host, default_expected, settle_width, match_host, lower_then_widen,
  set_default_bus, restore_identification_bus, recover, voltage_changed, refuse_voltage,
  run_default_bus, fall_back, check_voltage, restore_default_operating_bus, transfer_inhibited,
  confirm_registers, confirm_card, confirm_high_speed, run_high_speed, enable_high_speed,
  set_high_speed_bus, check_caps, reach_operating_speed, attempt_high_speed, try_high_speed,
  read_reject_reason, note_reject_reason, begin_negotiation, upgrade_failed,
  negotiate_operating_speed,
}
use rpi5_wifi_driver_win11ar.Sdio.{
  cmd53_argument, is_valid_byte_read, clock_divider, real_divisor, cmd52_argument, r5_has_error,
  mode_reject, clock_reject, actual_khz, reject_reason, can_use_high_speed,
}
use rpi5_wifi_driver_win11ar.Host.Bytes.{
  is_valid_length, fifo_transfer, fifo_loop, move_chunk, chunk_length, cmd53_transfer,
  is_valid_transfer, is_operating, is_mode_clock, attempt_bytes, run_bytes, start_bytes,
  await_phase, poll_phase, fail_bytes, latch_failure,
}
use rpi5_wifi_driver_win11ar.Host.Bytes.Latch.{Latched, fifo_transfer-Latched}
use rpi5_wifi_driver_win11ar.Host.Bytes.Refusal.{
  Request, fifo_transfers, refusals, all_zeroed, fifo_transfer-refused,
}
use rpi5_wifi_driver_win11ar.Host.Fifo.{
  fifo_blocks, zero_if_read, zero_memory, reset_transfer, set_transport_failed,
}
use rpi5_wifi_driver_win11ar.Host.Commands.Rate.{set_clock-le}
use rpi5_wifi_driver_win11ar.Host.Fifo.Prompt.{IsPrompt}
use rpi5_wifi_driver_win11ar.Host.Fifo.Stream.{stream_byte}
use rpi5_wifi_driver_win11ar.Host.Fifo.Delivery.{fifo_blocks-delivered}
use rpi5_wifi_driver_win11ar.Host.BusMode.Recovery.{Recovered}
use rpi5_wifi_driver_win11ar.Host.BusMode.Negotiation.{OnBus, negotiate_operating_speed-Ends}

-- The controller's registers by offset, the card's by address, the argument and the response of a
-- command, a clock, and what the interrupt status shows.
record Card : Type 0 where
  registers : ℕ → ℕ
  cccr : ℕ → ℕ
  argument : ℕ
  response : ℕ
  now : ℕ
  events : ℕ

abbrev update : (ℕ → ℕ) → ℕ → ℕ → ℕ → ℕ
update f at v i = if i == at then v else f i

abbrev answer : ℕ → Card → ℕ
answer offset c =
    if offset == 0x10
    then c.response
    else if offset == 0x30
    then c.events
    else if offset == 0x2c
    then bit_or (c.registers 0x2c) 2
    else c.registers offset

-- The command in the argument: bit 31 writes the low byte to the address in bits 9 to 25.
abbrev execute : Card → Card
execute c =
    let address = c.argument / 2 ^ 9 % 2 ^ 17 in
    if c.argument / 2 ^ 31 == 1
    then record c { cccr = update c.cccr address (c.argument % 256); response = c.argument % 256 }
    else record c { response = c.cccr address }

abbrev accept : ℕ → ℕ → Card → Card
accept offset value c =
    if offset == 8
    then record c { argument = value }
    else if offset == 0x0e
    then execute c
    else if offset == 0x30
    then c
    else if offset == 0x2f
    then c
    else record c { registers = update c.registers offset value }

abbrev simulated : Device Card
simulated = record {
  stopped = λ c. (false, c);
  read = λ width offset c. (answer offset c, c);
  write = λ width offset value c. accept offset value c;
  stall = λ n c. record c { now = c.now + 10 * n };
  delay = λ n c. record c { now = c.now + 10000 * n };
  time = λ c. (c.now, c);
}

-- A card of revision 3 that can run at high speed; the interrupt status is given.
abbrev fresh : ℕ → Card
fresh events = record {
  registers = λ i. if i == 0x28 then 0 else if i == 0x29 then 0x0f else 0;
  cccr = λ i. if i == 0x13 then 1 else 0;
  argument = 0;
  response = 0;
  now = 0;
  events = events;
}

abbrev adapter : ℕ → Adapter Card
adapter events = record {
  device = fresh events;
  memory = λ i. 0xee;
  bp_window_valid = true;
  fifo_block_ready = true;
  fifo_transport_failed = false;
  last = record { command = 0; argument = 0; response = 0; interrupt_status = 0; reset_status = 0 };
  mode = record {
    stage = 1;
    width = 1;
    card_interface = 0;
    card_speed = 0;
    recovery_status = 0;
    upgrade_status = 0;
    high_speed_eligible = false;
    high_speed_attempted = false;
    high_speed_active = false;
    high_speed_reject_mask = 0;
    high_speed_status = 0;
  };
  clock = record { target_khz = 400; actual_khz = 400 };
  copies = record {
    host_version = 2;
    capabilities = 0x0120c800;
    capabilities2 = 0;
    present_state = 0;
    clock_control = 0;
    power_control = 0;
    host_control = 0;
    host_control2 = 0;
    timeout_control = 0;
    software_reset = 0;
    cccr_revision = 3;
  };
  cmd53 = record {
    bytes_transferred = 0;
    reset_status = 0;
    read_count = 0;
    write_count = 0;
    timeouts = 0;
    fast_polls = 0;
    wait_sleeps = 0;
    runtime_f1_fast_polls = 0;
    runtime_f1_wait_sleeps = 0;
    runtime_f2_wait_sleeps = 0;
    sleep_phase = λ i. 0;
    sleep_100ns = 0;
  };
  fifo = record {
    wait_event = 0;
    late_completions = 0;
    block_commands = 0;
    block_bytes = 0;
    block_failures = 0;
    last_failure_status = 0;
    last_failure_write = false;
    last_failure_blocks = 0;
    last_failure_completed_blocks = 0;
    last_failure_wait_event = 0;
    last_failure_interrupt_status = 0;
    last_failure_present_state = 0;
    last_failure_bytes_transferred = 0;
  };
}

negotiate_operating_speed-Ends_example :
    Ends
      (λ u. OnBus 0x0120c800 0)
      (Recovered 0x0120c800)
      (negotiate_operating_speed simulated (adapter 1))
negotiate_operating_speed-Ends_example = negotiate_operating_speed-Ends simulated (adapter 1)

-- The card answers: 50 MHz at high speed.
fast : (negotiate_operating_speed simulated (adapter 1)).1.clock.actual_khz ≡ 50000
unfolding on_device change_device io_stopped stall register_read register_write read8 read16 read32
    write8 write16 write32 set_last set_mode set_clocks set_copies set_cmd53 set_fifo forget_window
    forget_blocks base_clock_khz divider_for divider_bits clock_rate reset_wait reset_host
    settle_clock enable_clock start_clock start_from_base set_clock inhibit_wait wait_inhibit_clear
    poll_command fail_after_reset finish_busy finish_command issue_command send_command cmd52_read
    moves_window verify_write cmd52_write forget_bus accept_high_speed confirm_rate refuse_stopped
    write_low_speed lower_speed set_card_width switch_host default_expected settle_width match_host
    lower_then_widen set_default_bus restore_identification_bus recover voltage_changed
    refuse_voltage run_default_bus fall_back check_voltage restore_default_operating_bus
    transfer_inhibited confirm_registers confirm_card confirm_high_speed run_high_speed
    enable_high_speed set_high_speed_bus check_caps reach_operating_speed attempt_high_speed
    try_high_speed read_reject_reason note_reject_reason begin_negotiation upgrade_failed
    negotiate_operating_speed clock_divider real_divisor cmd52_argument r5_has_error mode_reject
    clock_reject actual_khz reject_reason can_use_high_speed ◌>>=◌ on_error noting ignore outcome_of
fast = refl

-- Every command fails: the width is not known.
lost : (negotiate_operating_speed simulated (adapter 0x8001)).1.mode.stage ≡ 99
unfolding on_device change_device io_stopped stall register_read register_write read8 read16 read32
    write8 write16 write32 set_last set_mode set_clocks set_copies set_cmd53 set_fifo forget_window
    forget_blocks base_clock_khz divider_for divider_bits clock_rate reset_wait reset_host
    settle_clock enable_clock start_clock start_from_base set_clock inhibit_wait wait_inhibit_clear
    poll_command fail_after_reset finish_busy finish_command issue_command send_command cmd52_read
    moves_window verify_write cmd52_write forget_bus accept_high_speed confirm_rate refuse_stopped
    write_low_speed lower_speed set_card_width switch_host default_expected settle_width match_host
    lower_then_widen set_default_bus restore_identification_bus recover voltage_changed
    refuse_voltage run_default_bus fall_back check_voltage restore_default_operating_bus
    transfer_inhibited confirm_registers confirm_card confirm_high_speed run_high_speed
    enable_high_speed set_high_speed_bus check_caps reach_operating_speed attempt_high_speed
    try_high_speed read_reject_reason note_reject_reason begin_negotiation upgrade_failed
    negotiate_operating_speed clock_divider real_divisor cmd52_argument r5_has_error mode_reject
    clock_reject actual_khz reject_reason can_use_high_speed ◌>>=◌ on_error noting ignore outcome_of
lost = refl

half_kilobyte : is_valid_length 512 ≡ true
unfolding is_valid_length
half_kilobyte = refl

fifo_transfer-Latched_example :
    Ends
      (λ u t. t.fifo_transport_failed ≡ false)
      (λ status. Latched false 64 512)
      (fifo_transfer simulated 64 512 false (adapter 1))
fifo_transfer-Latched_example =
    fifo_transfer-Latched simulated (adapter 1) 64 512 false half_kilobyte

-- A device that is always ready; its state is the position in a stream of words.
abbrev numbers : ℕ → ℕ
numbers n = 0x01010101 * n

abbrev ready_at : ℕ → ℕ → ℕ
ready_at offset d =
    if offset == 0x20
    then numbers d
    else if offset == 0x24
    then 0xc00
    else if offset == 0x30
    then 3
    else 0

abbrev ready_device : Device ℕ
ready_device = record {
  stopped = λ d. (false, d);
  read = λ width offset d. (ready_at offset d, if offset == 0x20 then d + 1 else d);
  write = λ width offset value d. d;
  stall = λ n d. d;
  delay = λ n d. d;
  time = λ d. (0, d);
}

ready_device-IsPrompt : IsPrompt ready_device numbers (λ d. d)
ready_device-IsPrompt = record {
  running = λ d. refl;
  done = λ d. (refl, refl, refl);
  free = λ d. (refl, refl, refl);
  accepted = λ d. refl;
  delivered = λ d. refl;
  moved = λ d. refl;
  status_still = λ d. refl;
  present_still = λ d. refl;
  response_still = λ d. refl;
  write_still = λ width offset value d. refl;
  time_still = λ d. refl;
}

-- The same adapter in front of that device, with block mode ready.
abbrev streaming : Adapter ℕ
streaming =
    let a = adapter 1 in
    record {
      device = 7;
      memory = a.memory;
      bp_window_valid = false;
      fifo_block_ready = true;
      fifo_transport_failed = false;
      last = a.last;
      mode = a.mode;
      clock = a.clock;
      copies = a.copies;
      cmd53 = a.cmd53;
      fifo = a.fifo;
    }

fifo_blocks-delivered_example :
    Ends
      (λ u t. (t.device ≡ 7 + 128 * 2) × (t.memory (100 + 517) ≡ stream_byte numbers 7 517))
      (λ status t. ⊥)
      (fifo_blocks ready_device 2 false 100 streaming)
fifo_blocks-delivered_example =
    fifo_blocks-delivered ready_device numbers (λ d. d) streaming 2 100 517 ready_device-IsPrompt
      refl (omega arith) (omega arith) (omega arith)

-- The controller reports an error during the command.
abbrev faulty : Adapter Card
faulty = adapter 0x8000

failing_transfer : (fifo_transfer simulated 64 4 false faulty).0 ≡ error io_device_error
unfolding fifo_transfer fifo_loop move_chunk chunk_length cmd53_transfer is_valid_length
    is_valid_transfer is_operating is_mode_clock attempt_bytes run_bytes start_bytes await_phase
    poll_phase fail_bytes latch_failure zero_if_read zero_memory reset_transfer reset_host
    reset_wait wait_inhibit_clear inhibit_wait set_transport_failed set_memory set_last set_cmd53
    on_device change_device io_stopped stall interrupt_time register_read register_write read8
    read16 read32 write8 write16 write32 is_valid_byte_read cmd53_argument forget_window
    forget_blocks set_fifo on_error noting ignore outcome_of ◌>>=◌
failing_transfer = refl

abbrev later_requests : List Request
later_requests =
    record { at = 64; length = 512; write = false }
    ∷ (record { at = 0; length = 3; write = true }
        ∷ (record { at = 0; length = 4; write = true } ∷ []))

word_length : is_valid_length 4 ≡ true
unfolding is_valid_length
word_length = refl

fifo_transfer-refused_example :
    let t = (fifo_transfer simulated 64 4 false faulty).1 in
    fifo_transfers simulated later_requests t
    ≡ (refusals later_requests, record t { memory = all_zeroed later_requests t.memory })
fifo_transfer-refused_example =
    fifo_transfer-refused simulated faulty 64 4 io_device_error false later_requests word_length
      failing_transfer

set_clock-le_example :
    Ends
      (λ u t.
        (t.clock.target_khz ≡ 25000)
        × (t.clock.actual_khz ≤ 25000)
        × (t.mode ≡ (adapter 1).mode)
        × (t.copies.capabilities ≡ 0x0120c800))
      (λ status t. (t.mode ≡ (adapter 1).mode) × (t.copies.capabilities ≡ 0x0120c800))
      (set_clock simulated 25000 (adapter 1))
set_clock-le_example = set_clock-le simulated (adapter 1) 25000 (omega arith)
