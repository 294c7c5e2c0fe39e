-- ===== src/Host/Bytes.antt =====
-- CMD53 in byte mode, and SdioFifoTransfer, of src/sdio/sdio.c. The caller has mapped the registers
-- and runs at PASSIVE_LEVEL.
pub mod Keeping
pub mod Latch
pub mod Refusal
use rpi5_wifi_driver_win11ar.Prelude.{
  ℕ, zero, suc, ◌+◌, ◌-◌, ◌*◌, ◌/◌, ◌%◌, ◌^◌, Bool, true, false, not, ◌&&◌, ◌||◌, ltb, leb, ◌==◌,
  ◌!=◌, if◌then◌else◌, bit_and, bit_or, inc32, add64, sub64,
}
use rpi5_wifi_driver_win11ar.Task.{Task, pure, fails, get, ◌>>=◌, ◌>>◌, on_error}
use rpi5_wifi_driver_win11ar.Sdio.{cmd53_argument, is_valid_byte_read, r5_has_error}
use rpi5_wifi_driver_win11ar.Wire.{Memory, store}
use rpi5_wifi_driver_win11ar.Host.Registers.{
  Device, Adapter, BusMode, io_stopped, interrupt_time, delay, stall, read32, write16, write32,
  set_last, set_cmd53, set_memory, status_success, invalid_parameter, invalid_device_state,
  io_timeout, io_device_error,
}
use rpi5_wifi_driver_win11ar.Host.Commands.{wait_inhibit_clear}
use rpi5_wifi_driver_win11ar.Host.Fifo.{
  transfer_errors, command_complete, transfer_complete, ready_event, zero_if_read, reset_transfer,
  set_transport_failed, count_timeout, fifo_blocks,
}

-- What a transfer needs of the adapter at its start.
pub record Transfer : Type 0 where
  pub function : ℕ
  pub address : ℕ
  pub at : ℕ
  pub length : ℕ
  pub write : Bool
  pub increment : Bool

-- Up to four bytes of a word, from the lowest on.
unfoldable pub load_bytes : ℕ → ℕ → ℕ → Memory → ℕ
load_bytes zero shift at p = 0
load_bytes (suc n) shift at p =
    bit_or (p at * 2 ^ shift % 2 ^ 32) (load_bytes n (shift + 8) (at + 1) p)

unfoldable pub store_bytes : ℕ → ℕ → ℕ → Memory → Memory
store_bytes zero at w p = p
store_bytes (suc n) at w p = store_bytes n (at + 1) (w / 2 ^ 8) (store p at w)

-- The clock is within the limit of the verified mode.
unfoldable pub is_mode_clock : BusMode → ℕ → ℕ → Bool
is_mode_clock m actual host_control =
    if m.high_speed_active
    then m.high_speed_status == 0
      && (leb actual 50000 && (bit_and m.card_speed 0x0e == 2 && bit_and host_control 4 != 0))
    else leb actual 25000

-- The bus has been verified for operation: OperatingBus.
unfoldable pub is_operating : BusMode → ℕ → ℕ → ℕ → Bool
is_operating m actual host_control function =
    (function == 1 || function == 2)
    && (m.stage == 6 && (m.width == 4 && (ltb 400 actual && is_mode_clock m actual host_control)))

-- The least of two numbers.
abbrev least : ℕ → ℕ → ℕ
least a b = if leb a b then a else b

module _ {D : Type 0} where
  unfoldable pub count_poll : ℕ → Bool → Task (Adapter D) (Unit {0})
  count_poll function operating = set_cmd53 λ c. record c {
    fast_polls = inc32 c.fast_polls;
    runtime_f1_fast_polls =
        if function == 1 && operating
        then inc32 c.runtime_f1_fast_polls
        else c.runtime_f1_fast_polls;
  }

  unfoldable pub count_sleep : ℕ → Bool → ℕ → ℕ → Task (Adapter D) (Unit {0})
  count_sleep function operating phase ticks =
      if operating
      then set_cmd53 (λ c. record c {
        sleep_phase = λ i. if i == phase then inc32 (c.sleep_phase i) else c.sleep_phase i;
        runtime_f1_wait_sleeps =
            if function == 1 then inc32 c.runtime_f1_wait_sleeps else c.runtime_f1_wait_sleeps;
        runtime_f2_wait_sleeps =
            if function == 1 then c.runtime_f2_wait_sleeps else inc32 c.runtime_f2_wait_sleeps;
        sleep_100ns = add64 c.sleep_100ns ticks;
      })
      else pure tt

module _ {D : Type 0} (dev : Device D) (t : Transfer) (operating : Bool) where
  unfoldable pub sleep_once : ℕ → Task (Adapter D) (Unit {0})
  sleep_once phase = do
    set_cmd53 λ c. record c { wait_sleeps = inc32 c.wait_sleeps }
    start ← interrupt_time dev
    delay dev 1
    now ← interrupt_time dev
    count_sleep t.function operating phase (sub64 now start)

  unfoldable pub fast_limit : ℕ
  fast_limit = if operating then 5 else if t.function == 2 then 4 else 0

  -- A pause between polls, with the short polls used so far.
  unfoldable pub pause_byte : ℕ → ℕ → Task (Adapter D) ℕ
  pause_byte phase fast =
      if ltb fast fast_limit
      then (do stall dev 10; count_poll t.function operating; pure (fast + 1))
      else sleep_once phase >> pure fast

  -- The interrupt status at the end of the polls, and the short polls used.
  unfoldable pub poll_phase : ℕ → ℕ → ℕ → ℕ → ℕ → ℕ → Task (Adapter D) (ℕ × ℕ)
  poll_phase zero phase event deadline seen fast = pure (seen, fast)
  poll_phase (suc n) phase event deadline seen fast = do
    stopped ← io_stopped dev
    if stopped then fails invalid_device_state else do
      status ← read32 dev 0x30
      set_last λ c. record c { interrupt_status = status }
      if bit_and status transfer_errors != 0
          then fails io_device_error
          else if bit_and status event != 0
          then pure (status, fast)
          else do
            now ← interrupt_time dev
            if leb deadline now
                then pure (status, fast)
                else do used ← pause_byte phase fast; poll_phase n phase event deadline status used

  unfoldable pub check_event : ℕ → ℕ × ℕ → Task (Adapter D) ℕ
  check_event event (seen, fast) =
      if bit_and seen event == 0 then count_timeout >> fails io_timeout else pure fast

  unfoldable pub await_phase : ℕ → ℕ → ℕ → Task (Adapter D) ℕ
  await_phase phase event fast = do
    now ← interrupt_time dev
    polled ← poll_phase 254 phase event (add64 now 2500000) 0 (if operating then 0 else fast)
    check_event event polled

  unfoldable pub check_response : Task (Adapter D) (Unit {0})
  check_response = do
    response ← read32 dev 0x10
    set_last λ c. record c { response = response }
    if r5_has_error response then fails io_device_error else pure tt

  unfoldable pub move_part : ℕ → ℕ → Task (Adapter D) (Unit {0})
  move_part at count =
      if t.write
      then (do word ← get (λ s. load_bytes count 0 at s.memory); write32 dev 0x20 word)
      else (do word ← read32 dev 0x20; set_memory (store_bytes count at word))

  -- The words of the transfer, the last one in part; the first number bounds their count.
  unfoldable pub move_parts : ℕ → ℕ → Task (Adapter D) (Unit {0})
  move_parts zero offset = pure tt
  move_parts (suc n) offset =
      if ltb offset t.length
      then move_part (t.at + offset) (least 4 (t.length - offset)) >> move_parts n (offset + 4)
      else pure tt

  unfoldable pub start_bytes : Task (Adapter D) (Unit {0})
  start_bytes = do
    wait_inhibit_clear dev 3
    write32 dev 0x30 0xffffffff
    write16 dev 4 t.length
    write16 dev 6 1
    write16 dev 0x0c (if t.write then 0 else 0x10)
    argument ← get λ s. s.last.argument
    write32 dev 8 argument
    write16 dev 0x0e 0x353a

  unfoldable pub run_bytes : Task (Adapter D) (Unit {0})
  run_bytes = do
    start_bytes
    fast ← await_phase 0 command_complete 0
    check_response
    write32 dev 0x30 command_complete
    used ← await_phase 1 (ready_event t.write) fast
    write32 dev 0x30 (ready_event t.write)
    move_parts t.length 0
    set_cmd53 λ c. record c { bytes_transferred = t.length }
    last ← await_phase 2 transfer_complete used
    write32 dev 0x30 transfer_complete
    set_cmd53 λ c. record c {
      write_count = if t.write then inc32 c.write_count else c.write_count;
      read_count = if t.write then c.read_count else inc32 c.read_count;
    }

  unfoldable pub fail_bytes : ℕ → Task (Adapter D) (Unit {0})
  fail_bytes status = do reset_transfer dev; zero_if_read t.write t.at t.length; fails status

  unfoldable pub attempt_bytes : Task (Adapter D) (Unit {0})
  attempt_bytes = do
    zero_if_read t.write t.at t.length
    set_cmd53 λ c. record c { bytes_transferred = 0; reset_status = status_success }
    set_last λ c. record c {
      command = 53;
      argument = cmd53_argument t.write t.function false t.increment t.address t.length;
      response = 0;
      interrupt_status = 0;
    }
    on_error run_bytes fail_bytes

-- The next part of a transfer: whole blocks where the card takes them, else up to 512 bytes.
unfoldable pub chunk_length : Bool → ℕ → ℕ
chunk_length ready left =
    if ready && leb 512 left then least 32 (left / 512) * 512 else least 512 left

unfoldable pub is_valid_length : ℕ → Bool
is_valid_length length = leb 1 length && (leb length 65536 && bit_and length 3 == 0)

unfoldable pub is_valid_transfer : Transfer → Bool
is_valid_transfer t =
    leb t.function 7
    && (leb t.address 0x1ffff
        && (leb 1 t.length
            && (leb t.length 512
                && (not t.increment || is_valid_byte_read t.function t.address t.length))))

module _ {D : Type 0} where
  unfoldable pub latch_failure : Bool → ℕ → ℕ → ℕ → Task (Adapter D) (Unit {0})
  latch_failure write at length status =
      set_transport_failed true >> zero_if_read write at length >> fails status

  unfoldable pub refuse_failed : Bool → ℕ → ℕ → Task (Adapter D) (Unit {0})
  refuse_failed write at length = zero_if_read write at length >> fails invalid_device_state

module _ {D : Type 0} (dev : Device D) where
  -- SdioCmd53TransferRaw.
  unfoldable pub cmd53_transfer : Transfer → Task (Adapter D) (Unit {0})
  cmd53_transfer t =
      if is_valid_transfer t
      then (do
        operating ← get λ s. is_operating s.mode s.clock.actual_khz s.copies.host_control t.function
        attempt_bytes dev t operating)
      else fails invalid_parameter

  -- SdioCmd53Read and SdioCmd53Write.
  unfoldable pub cmd53_read : ℕ → ℕ → ℕ → ℕ → Task (Adapter D) (Unit {0})
  cmd53_read function address at length = cmd53_transfer (record {
    function = function;
    address = address;
    at = at;
    length = length;
    write = false;
    increment = true;
  })

  unfoldable pub cmd53_write : ℕ → ℕ → ℕ → ℕ → Task (Adapter D) (Unit {0})
  cmd53_write function address at length = cmd53_transfer (record {
    function = function;
    address = address;
    at = at;
    length = length;
    write = true;
    increment = true;
  })

  unfoldable pub move_chunk : Bool → Bool → ℕ → ℕ → Task (Adapter D) (Unit {0})
  move_chunk ready write at left =
      if ready && leb 512 left
      then fifo_blocks dev (least 32 (left / 512)) write at
      else cmd53_transfer (record {
        function = 2;
        address = 0x8000;
        at = at;
        length = least 512 left;
        write = write;
        increment = write;
      })

  -- The loop of SdioFifoTransfer over the bytes that are left; the first number bounds its rounds.
  unfoldable pub fifo_loop : ℕ → Bool → ℕ → ℕ → Task (Adapter D) (Unit {0})
  fifo_loop zero write at left = pure tt
  fifo_loop (suc n) write at left = do
    ready ← get λ s. s.fifo_block_ready
    if left == 0 then pure tt else do
      move_chunk ready write at left
      fifo_loop n write (at + chunk_length ready left) (left - chunk_length ready left)

  -- SdioFifoTransfer.
  unfoldable pub fifo_transfer : ℕ → ℕ → Bool → Task (Adapter D) (Unit {0})
  fifo_transfer at length write =
      if is_valid_length length
      then (do
        failed ← get λ s. s.fifo_transport_failed
        if failed
            then refuse_failed write at length
            else on_error (fifo_loop length write at length) (latch_failure write at length))
      else fails invalid_parameter
