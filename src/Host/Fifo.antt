-- ===== src/Host/Fifo.antt =====
-- src/sdio/fifo_blocks.h: block transfers through the card's FIFO, at an offset of the caller's
-- memory. The caller has mapped the registers and runs at PASSIVE_LEVEL.
pub mod Keeping
pub mod Prompt
pub mod Stream
pub mod Delivery
use rpi5_wifi_driver_win11ar.Prelude.{
  ℕ, zero, suc, ◌+◌, ◌*◌, ◌/◌, ◌%◌, ◌^◌, Bool, true, false, not, ◌&&◌, ◌||◌, ltb, leb, ◌==◌, ◌!=◌,
  if◌then◌else◌, bit_and, bit_or, inc32, add32, add64, sub64,
}
use rpi5_wifi_driver_win11ar.Task.{
  Task, pure, fails, get, modify, ◌>>=◌, ◌>>◌, on_error, outcome_of, status_of,
}
use rpi5_wifi_driver_win11ar.Sdio.{load_le32, cmd53_argument, r5_has_error}
use rpi5_wifi_driver_win11ar.Wire.{Memory, store}
use rpi5_wifi_driver_win11ar.Host.Registers.{
  Device, Adapter, io_stopped, interrupt_time, delay, stall, read32, write16, write32, set_last,
  set_cmd53, set_fifo, set_memory, status_success, invalid_parameter, invalid_device_state,
  io_timeout, io_device_error, device_data_error, device_configuration_error,
}
use rpi5_wifi_driver_win11ar.Host.Commands.{cmd52_read, reset_host, wait_inhibit_clear}

-- SDHCI_INT_ERROR | SDHCI_INT_CMD_ERROR_MASK | SDHCI_INT_DATA_ERROR_MASK.
abbrev pub transfer_errors : ℕ
transfer_errors = 0x087f8000

-- SDHCI_INT_CMD_COMPLETE, SDHCI_INT_XFER_COMPLETE, and the two buffer-ready events.
abbrev pub command_complete : ℕ
command_complete = 1

abbrev pub transfer_complete : ℕ
transfer_complete = 2

abbrev pub write_ready : ℕ
write_ready = 0x10

abbrev pub read_ready : ℕ
read_ready = 0x20

-- RtlZeroMemory.
unfoldable pub zero_memory : ℕ → ℕ → Memory → Memory
zero_memory at length p i = if leb at i && ltb i (at + length) then 0 else p i

-- Four bytes of a word, the lowest first.
unfoldable pub store_word : ℕ → ℕ → Memory → Memory
store_word at w p =
    store (store (store (store p at w) (at + 1) (w / 2 ^ 8)) (at + 2) (w / 2 ^ 16)) (at + 3)
      (w / 2 ^ 24)

unfoldable pub load_word : ℕ → Memory → ℕ
load_word at p = load_le32 (p at) (p (at + 1)) (p (at + 2)) (p (at + 3))

unfoldable pub phase_of : ℕ → ℕ
phase_of event =
    if event == command_complete then 0 else if event == transfer_complete then 2 else 1

-- A transfer that completes before the block is available is short.
unfoldable pub is_short : ℕ → ℕ → Bool
is_short event status = event != transfer_complete && bit_and status transfer_complete != 0

unfoldable pub ready_event : Bool → ℕ
ready_event write = if write then write_ready else read_ready

unfoldable pub transfer_mode : ℕ → Bool → ℕ
transfer_mode blocks write =
    bit_or (bit_or 2 (if ltb 1 blocks then 0x20 else 0)) (if write then 0 else 0x10)

module _ {D : Type 0} where
  unfoldable pub set_block_ready : Bool → Task (Adapter D) (Unit {0})
  set_block_ready ready = modify λ s. record s { fifo_block_ready = ready }

  unfoldable pub set_transport_failed : Bool → Task (Adapter D) (Unit {0})
  set_transport_failed failed = modify λ s. record s { fifo_transport_failed = failed }

  unfoldable pub count_timeout : Task (Adapter D) (Unit {0})
  count_timeout = set_cmd53 λ c. record c { timeouts = inc32 c.timeouts }

  unfoldable pub accept_late : ℕ → ℕ → Task (Adapter D) (Unit {0})
  accept_late now deadline =
      if leb deadline now
      then set_fifo (λ f. record f { late_completions = inc32 f.late_completions })
      else pure tt

  unfoldable pub zero_if_read : Bool → ℕ → ℕ → Task (Adapter D) (Unit {0})
  zero_if_read write at length = if write then pure tt else set_memory (zero_memory at length)

  unfoldable pub note_sleep : ℕ → ℕ → Task (Adapter D) (Unit {0})
  note_sleep event ticks = set_cmd53 λ c. record c {
    wait_sleeps = inc32 c.wait_sleeps;
    runtime_f2_wait_sleeps = inc32 c.runtime_f2_wait_sleeps;
    sleep_phase = λ i. if i == phase_of event then inc32 (c.sleep_phase i) else c.sleep_phase i;
    sleep_100ns = add64 c.sleep_100ns ticks;
  }

  -- What one look decides; `again` is the pause and the rounds that are left.
  unfoldable pub decide :
      Task (Adapter D) (Unit {0}) → ℕ → ℕ → ℕ → ℕ → Bool → Task (Adapter D) (Unit {0})
  decide again event deadline status now seen =
      if seen
      then accept_late now deadline
      else if is_short event status
      then fails device_data_error
      else if leb deadline now
      then count_timeout >> fails io_timeout
      else again

module _ {D : Type 0} (dev : Device D) where
  -- Whether the requested event is there: a buffer event in the present state, any other in the
  -- interrupt status.
  unfoldable pub event_seen : ℕ → ℕ → Task (Adapter D) Bool
  event_seen event status =
      if event == read_ready
      then (do present ← read32 dev 0x24; pure (bit_and present 0x800 != 0))
      else if event == write_ready
      then (do present ← read32 dev 0x24; pure (bit_and present 0x400 != 0))
      else pure (bit_and status event != 0)

  unfoldable pub pause : ℕ → ℕ → Task (Adapter D) (Unit {0})
  pause poll event =
      if ltb poll 5
      then stall dev 10 >> set_cmd53 (λ c. record c { fast_polls = inc32 c.fast_polls })
      else do
        start ← interrupt_time dev
        delay dev 1
        now ← interrupt_time dev
        note_sleep event (sub64 now start)

  unfoldable pub look : Task (Adapter D) (Unit {0}) → ℕ → ℕ → ℕ → Task (Adapter D) (Unit {0})
  look again event deadline status = do
    now ← interrupt_time dev
    seen ← event_seen event status
    decide again event deadline status now seen

  unfoldable pub examine : Task (Adapter D) (Unit {0}) → ℕ → ℕ → ℕ → Task (Adapter D) (Unit {0})
  examine again event deadline status = do
    set_last λ c. record c { interrupt_status = status }
    if bit_and status transfer_errors != 0
        then fails io_device_error
        else look again event deadline status

  unfoldable pub once : Task (Adapter D) (Unit {0}) → ℕ → ℕ → Task (Adapter D) (Unit {0})
  once again event deadline = do status ← read32 dev 0x30; examine again event deadline status

  -- The polls that are left, and how many were made.
  unfoldable pub poll_fifo : ℕ → ℕ → ℕ → ℕ → Task (Adapter D) (Unit {0})
  poll_fifo zero poll event deadline = count_timeout >> fails io_timeout
  poll_fifo (suc n) poll event deadline = do
    stopped ← io_stopped dev
    if stopped
        then fails invalid_device_state
        else once (pause poll event >> poll_fifo n (poll + 1) event deadline) event deadline

  -- SdioFifoWait; waitEvent is set before each call.
  unfoldable pub fifo_wait : ℕ → ℕ → Task (Adapter D) (Unit {0})
  fifo_wait event deadline =
      set_fifo (λ f. record f { wait_event = event }) >> poll_fifo 254 0 event deadline

  unfoldable pub move_word : Bool → ℕ → Task (Adapter D) (Unit {0})
  move_word write at =
      if write
      then (do word ← get (λ s. load_word at s.memory); write32 dev 0x20 word)
      else (do word ← read32 dev 0x20; set_memory (store_word at word))

  -- The words that are left of a block.
  unfoldable pub move_words : ℕ → Bool → ℕ → Task (Adapter D) (Unit {0})
  move_words zero write at = pure tt
  move_words (suc n) write at = do
    stopped ← io_stopped dev
    if stopped
        then fails invalid_device_state
        else do move_word write at; move_words n write (at + 4)

  unfoldable pub move_block : Bool → ℕ → ℕ → Task (Adapter D) (Unit {0})
  move_block write deadline at = do
    fifo_wait (ready_event write) deadline
    write32 dev 0x30 (ready_event write)
    move_words 128 write at
    set_cmd53 λ c. record c { bytes_transferred = add32 c.bytes_transferred 512 }

  unfoldable pub move_blocks : ℕ → Bool → ℕ → ℕ → Task (Adapter D) (Unit {0})
  move_blocks zero write deadline at = pure tt
  move_blocks (suc n) write deadline at = do
    move_block write deadline at
    move_blocks n write deadline (at + 512)

  unfoldable pub start_blocks : ℕ → Bool → Task (Adapter D) (Unit {0})
  start_blocks blocks write = do
    wait_inhibit_clear dev 3
    let argument = cmd53_argument write 2 true false 0x8000 blocks
    set_last λ c. record c { command = 53; argument = argument; response = 0 }
    write32 dev 0x30 0xffffffff
    write16 dev 4 512
    write16 dev 6 blocks
    write16 dev 0x0c (transfer_mode blocks write)
    write32 dev 8 argument
    write16 dev 0x0e 0x353a

  unfoldable pub await_response : ℕ → Task (Adapter D) (Unit {0})
  await_response deadline = do
    fifo_wait command_complete deadline
    response ← read32 dev 0x10
    set_last λ c. record c { response = response }
    if r5_has_error response then fails io_device_error else write32 dev 0x30 command_complete

  unfoldable pub finish_blocks : ℕ → Bool → ℕ → Task (Adapter D) (Unit {0})
  finish_blocks blocks write deadline = do
    fifo_wait transfer_complete deadline
    write32 dev 0x30 transfer_complete
    set_cmd53 λ c. record c {
      write_count = if write then inc32 c.write_count else c.write_count;
      read_count = if write then c.read_count else inc32 c.read_count;
    }
    set_fifo λ f. record f {
      block_commands = inc32 f.block_commands;
      block_bytes = add32 f.block_bytes (blocks * 512);
    }

  unfoldable pub run_blocks : ℕ → Bool → ℕ → Task (Adapter D) (Unit {0})
  run_blocks blocks write at = do
    start_blocks blocks write
    now ← interrupt_time dev
    let deadline = add64 now 2500000
    await_response deadline
    move_blocks blocks write deadline at
    finish_blocks blocks write deadline

  unfoldable pub reset_transfer : Task (Adapter D) (Unit {0})
  reset_transfer = do
    outcome_of (reset_host dev 6) λ o. set_cmd53 λ c. record c { reset_status = status_of o }
    write32 dev 0x30 0xffffffff

  -- `Failed:`.
  unfoldable pub fail_blocks : ℕ → Bool → ℕ → ℕ → Task (Adapter D) (Unit {0})
  fail_blocks blocks write at status = do
    set_block_ready false
    set_transport_failed true
    bytes ← get λ s. s.cmd53.bytes_transferred
    seen ← get λ s. s.last.interrupt_status
    present ← read32 dev 0x24
    set_fifo λ f. record f {
      block_failures = inc32 f.block_failures;
      last_failure_status = status;
      last_failure_write = write;
      last_failure_blocks = blocks;
      last_failure_completed_blocks = bytes / 512;
      last_failure_wait_event = f.wait_event;
      last_failure_interrupt_status = seen;
      last_failure_present_state = present;
      last_failure_bytes_transferred = bytes;
    }
    reset_transfer
    zero_if_read write at (blocks * 512)
    fails status

  unfoldable pub begin_blocks : ℕ → Bool → ℕ → Task (Adapter D) (Unit {0})
  begin_blocks blocks write at = do
    zero_if_read write at (blocks * 512)
    set_cmd53 λ c. record c { bytes_transferred = 0; reset_status = status_success }
    set_fifo λ f. record f { wait_event = 0 }

  unfoldable pub checked_blocks : ℕ → Bool → ℕ → Task (Adapter D) (Unit {0})
  checked_blocks blocks write at = do
    stopped ← io_stopped dev
    if stopped
        then fails invalid_device_state
        else begin_blocks blocks write at
          >> on_error (run_blocks blocks write at) (fail_blocks blocks write at)

  -- SdioFifoBlocksRaw.
  unfoldable pub fifo_blocks : ℕ → Bool → ℕ → Task (Adapter D) (Unit {0})
  fifo_blocks blocks write at = do
    ready ← get λ s. s.fifo_block_ready
    if not ready || (blocks == 0 || ltb 32 blocks)
        then fails invalid_parameter
        else checked_blocks blocks write at

  unfoldable pub check_block_size : Task (Adapter D) (Unit {0})
  check_block_size = do
    low ← cmd52_read dev 0 0x210
    high ← cmd52_read dev 0 0x211
    if low != 0 || high != 2
        then fails device_configuration_error
        else set_block_ready true >> set_transport_failed false

  unfoldable pub arm_fifo : Task (Adapter D) (Unit {0})
  arm_fifo = do
    caps ← cmd52_read dev 0 8
    if bit_and caps 2 == 0 then set_transport_failed false else check_block_size

  -- SdioPrepareRuntimeFifo.
  unfoldable pub prepare_runtime_fifo : Task (Adapter D) (Unit {0})
  prepare_runtime_fifo = do
    set_block_ready false
    usable ← get λ s. s.mode.stage == 6 && (s.mode.width == 4 && ltb 400 s.clock.actual_khz)
    if usable then arm_fifo else fails invalid_device_state
