-- ===== src/Host/Commands.antt =====
-- src/sdio/sdio.c: the reset and the clock of the controller, and single commands.
pub mod Keeping
pub mod Clocking
pub mod Rate
use Prim.Native.Nat.{bit_xor}
use rpi5_wifi_driver_win11ar.Prelude.{
  ℕ, zero, suc, ◌+◌, ◌*◌, ◌/◌, ◌%◌, ◌^◌, Bool, true, false, ◌&&◌, ◌||◌, ltb, leb, ◌==◌, ◌!=◌,
  if◌then◌else◌, bit_and, bit_or,
}
use rpi5_wifi_driver_win11ar.Task.{
  Task, pure, fails, get, ◌>>=◌, ◌>>◌, status_of, outcome_of, on_error, ignore,
}
use rpi5_wifi_driver_win11ar.Sdio.{clock_divider, cmd52_argument, r5_has_error}
use rpi5_wifi_driver_win11ar.Host.Registers.{
  Device, Adapter, io_stopped, stall, read8, read16, read32, write8, write16, write32, set_last,
  set_clocks, set_copies, forget_window, forget_blocks, status_success, invalid_parameter,
  invalid_device_state, io_timeout, io_device_error, device_data_error,
}

-- SDHCI_INT_ERROR | SDHCI_INT_CMD_ERROR_MASK.
abbrev pub command_errors : ℕ
command_errors = 0x080f8000

-- The base clock of the capabilities; 200 MHz where they name none.
unfoldable pub base_clock_khz : ℕ → ℕ
base_clock_khz capabilities =
    let mhz = bit_and capabilities 0xff00 / 2 ^ 8 in (if mhz == 0 then 200 else mhz) * 1000

unfoldable pub divider_for : ℕ → ℕ → ℕ
divider_for base target =
    let divider = clock_divider base target in if ltb 0x3ff divider then 0x3ff else divider

-- The divider's fields in SDHCI_CLOCK_CONTROL.
unfoldable pub divider_bits : ℕ → ℕ
divider_bits divider = bit_or (bit_and divider 0xff * 2 ^ 8) (bit_and divider 0x300 / 2 ^ 2)

-- The rate that a divider gives.
unfoldable pub clock_rate : ℕ → ℕ → ℕ
clock_rate base divider = if divider != 0 then base / (2 * divider) else base

module _ {D : Type 0} (dev : Device D) where
  unfoldable pub reset_wait : ℕ → ℕ → Task (Adapter D) (Unit {0})
  reset_wait zero mask = fails io_timeout
  reset_wait (suc n) mask = do
    stopped ← io_stopped dev
    if stopped then fails invalid_device_state else do
      value ← read8 dev 0x2f
      if bit_and value mask == 0 then pure tt else stall dev 100 >> reset_wait n mask

  -- SdioResetHost.
  unfoldable pub reset_host : ℕ → Task (Adapter D) (Unit {0})
  reset_host mask = forget_window >> forget_blocks >> write8 dev 0x2f mask >> reset_wait 1000 mask

  -- The wait for SDHCI_CLK_INT_CLK_STABLE.
  unfoldable pub settle_clock : ℕ → Task (Adapter D) ℕ
  settle_clock zero = fails io_timeout
  settle_clock (suc n) = do
    stopped ← io_stopped dev
    if stopped then fails invalid_device_state else do
      value ← read16 dev 0x2c
      if bit_and value 2 != 0 then pure value else stall dev 100 >> settle_clock n

  -- The clock's output is enabled, read back and recorded.
  unfoldable pub enable_clock : ℕ → ℕ → ℕ → ℕ → Task (Adapter D) (Unit {0})
  enable_clock base divider target value = do
    write16 dev 0x2c (bit_or value 4)
    found ← read16 dev 0x2c
    set_copies λ c. record c { clock_control = found }
    if bit_and found 0xffc7 != bit_or (divider_bits divider) 7
        then fails device_data_error
        else set_clocks λ c. record c { target_khz = target; actual_khz = clock_rate base divider }

  unfoldable pub start_clock : ℕ → ℕ → ℕ → Task (Adapter D) (Unit {0})
  start_clock base divider target = do
    write16 dev 0x2c 0
    write16 dev 0x2c (bit_or (divider_bits divider) 1)
    value ← settle_clock 2000
    enable_clock base divider target value

  unfoldable pub start_from_base : ℕ → Task (Adapter D) (Unit {0})
  start_from_base target = do
    base ← get λ s. base_clock_khz s.copies.capabilities
    start_clock base (divider_for base target) target

  -- SdioSetClock.
  unfoldable pub set_clock : ℕ → Task (Adapter D) (Unit {0})
  set_clock target = do
    forget_window
    if target == 0 then fails invalid_parameter else do
      stopped ← io_stopped dev
      if stopped then fails invalid_device_state else start_from_base target

  unfoldable pub inhibit_wait : ℕ → ℕ → Task (Adapter D) (Unit {0})
  inhibit_wait zero mask = fails io_timeout
  inhibit_wait (suc n) mask = do
    stopped ← io_stopped dev
    if stopped then fails invalid_device_state else do
      value ← read32 dev 0x24
      if bit_and value mask == 0 then pure tt else stall dev 100 >> inhibit_wait n mask

  -- SdioWaitInhibitClear.
  unfoldable pub wait_inhibit_clear : ℕ → Task (Adapter D) (Unit {0})
  wait_inhibit_clear mask = inhibit_wait 10000 mask

  -- The wait of a command: the last interrupt status, and whether the time ran out.
  unfoldable pub poll_command : ℕ → ℕ → Task (Adapter D) (ℕ × Bool)
  poll_command zero seen = pure (seen, true)
  poll_command (suc n) seen = do
    value ← read32 dev 0x30
    if bit_and value (bit_or 1 command_errors) != 0
        then pure (value, false)
        else stall dev 100 >> poll_command n value

  -- The reset after a failed command, with its status.
  unfoldable pub fail_after_reset : {A : Type 0} → ℕ → Task (Adapter D) A
  fail_after_reset status =
      outcome_of (reset_host 2)
        λ o. set_last (λ c. record c { reset_status = status_of o }) >> fails status

  unfoldable pub finish_busy : ℕ → Task (Adapter D) (Unit {0})
  finish_busy flags =
      if bit_and flags 3 == 3
      then on_error (wait_inhibit_clear 2) (λ status. ignore (reset_host 4) >> fails status)
      else pure tt

  -- What follows the wait.
  unfoldable pub finish_command : ℕ → Bool → ℕ × Bool → Task (Adapter D) ℕ
  finish_command flags respond (seen, expired) = do
    set_last λ c. record c { interrupt_status = seen }
    response ← if respond then read32 dev 0x10 else pure 0
    set_last λ c. record c { response = if respond then response else c.response }
    if expired then fail_after_reset io_timeout else do
      if bit_and seen command_errors != 0
          then write32 dev 0x30 seen >> fail_after_reset io_device_error
          else write32 dev 0x30 seen >> finish_busy flags
      pure response

  unfoldable pub issue_command : ℕ → ℕ → ℕ → Bool → Task (Adapter D) ℕ
  issue_command index argument flags respond = do
    write32 dev 0x30 0xffffffff
    write32 dev 8 argument
    write16 dev 0x0e (bit_or (index * 2 ^ 8) flags)
    seen ← poll_command 10000 0
    finish_command flags respond seen

  -- SdioSendCommandRaw; `respond` says that the caller takes the response.
  unfoldable pub send_command : ℕ → ℕ → ℕ → Bool → Task (Adapter D) ℕ
  send_command index argument flags respond = do
    set_last λ c. record c {
      command = index;
      argument = argument;
      interrupt_status = 0;
      response = 0;
      reset_status = status_success;
    }
    on_error (wait_inhibit_clear 1) fail_after_reset
    issue_command index argument flags respond

  -- SdioCmd52Read.
  unfoldable pub cmd52_read : ℕ → ℕ → Task (Adapter D) ℕ
  cmd52_read function address =
      if ltb 7 function || ltb 0x1ffff address then fails invalid_parameter else do
        response ← send_command 52 (cmd52_argument false function false address 0) 0x1a true
        if r5_has_error response then fails io_device_error else pure (bit_and response 0xff)

  -- A write through the backplane window's own registers, or a reset of the card, moves the window.
  unfoldable pub moves_window : ℕ → ℕ → Bool
  moves_window function address =
      function == 1 && (leb 0x1000a address && leb address 0x1000c)
      || function == 0 && (address == 2 || address == 6)

  unfoldable pub verify_write : ℕ → ℕ → ℕ → ℕ → Task (Adapter D) (Unit {0})
  verify_write function address value mask = do
    found ← cmd52_read function address
    if bit_and (bit_xor found value) mask == 0 then pure tt else fails device_data_error

  -- SdioCmd52Write.
  unfoldable pub cmd52_write : ℕ → ℕ → ℕ → ℕ → Task (Adapter D) (Unit {0})
  cmd52_write function address value mask =
      if ltb 7 function || ltb 0x1ffff address then fails invalid_parameter else do
        if moves_window function address then forget_window else pure tt
        response ← send_command 52 (cmd52_argument true function false address value) 0x1a true
        if r5_has_error response
            then fails io_device_error
            else if mask == 0
            then pure tt
            else verify_write function address value mask
