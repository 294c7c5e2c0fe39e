-- ===== src/Host/Registers.antt =====
-- src/sdio/sdio.c and src/driver/driver.h: the controller's registers and the adapter's fields that
-- the SDIO code keeps.
use rpi5_wifi_driver_win11ar.Prelude.{ℕ, ◌%◌, ◌^◌, Bool, false, if◌then◌else◌}
use rpi5_wifi_driver_win11ar.Task.{Outcome, success, Task, pure, modify, ◌>>=◌}
use rpi5_wifi_driver_win11ar.Wire.{Memory}

abbrev pub status_success : ℕ
status_success = 0

abbrev pub invalid_parameter : ℕ
invalid_parameter = 0xc000000d

abbrev pub invalid_device_state : ℕ
invalid_device_state = 0xc0000184

abbrev pub io_timeout : ℕ
io_timeout = 0xc00000b5

abbrev pub io_device_error : ℕ
io_device_error = 0xc0000185

abbrev pub device_data_error : ℕ
device_data_error = 0xc000009c

abbrev pub device_configuration_error : ℕ
device_configuration_error = 0xc0000182

abbrev pub not_supported : ℕ
not_supported = 0xc00000bb

-- The device and the kernel as the driver meets them: a look at IoStopped, which another thread
-- sets; a register read of a width in bits at an offset, a write, a stall in microseconds, a delay
-- in milliseconds, and KeQueryInterruptTime.
pub record Device (D : Type 0) : Type 0 where
  pub stopped : D → Bool × D
  pub read : ℕ → ℕ → D → ℕ × D
  pub write : ℕ → ℕ → ℕ → D → D
  pub stall : ℕ → D → D
  pub delay : ℕ → D → D
  pub time : D → ℕ × D

-- LastCommand and the fields beside it.
pub record LastCommand : Type 0 where
  pub command : ℕ
  pub argument : ℕ
  pub response : ℕ
  pub interrupt_status : ℕ
  pub reset_status : ℕ

-- The fields that name the state of the bus.
pub record BusMode : Type 0 where
  pub stage : ℕ
  pub width : ℕ
  pub card_interface : ℕ
  pub card_speed : ℕ
  pub recovery_status : ℕ
  pub upgrade_status : ℕ
  pub high_speed_eligible : Bool
  pub high_speed_attempted : Bool
  pub high_speed_active : Bool
  pub high_speed_reject_mask : ℕ
  pub high_speed_status : ℕ

-- BusTargetKhz and BusActualKhz.
pub record BusClock : Type 0 where
  pub target_khz : ℕ
  pub actual_khz : ℕ

-- The counters and the last failure of the block transfers; `wait_event` is the local variable
-- waitEvent of SdioFifoBlocksRaw.
pub record FifoCounters : Type 0 where
  pub wait_event : ℕ
  pub late_completions : ℕ
  pub block_commands : ℕ
  pub block_bytes : ℕ
  pub block_failures : ℕ
  pub last_failure_status : ℕ
  pub last_failure_write : Bool
  pub last_failure_blocks : ℕ
  pub last_failure_completed_blocks : ℕ
  pub last_failure_wait_event : ℕ
  pub last_failure_interrupt_status : ℕ
  pub last_failure_present_state : ℕ
  pub last_failure_bytes_transferred : ℕ

-- The CMD53 counters; RuntimeCmd53SleepPhase is a function of the phase.
pub record Cmd53Counters : Type 0 where
  pub bytes_transferred : ℕ
  pub reset_status : ℕ
  pub read_count : ℕ
  pub write_count : ℕ
  pub timeouts : ℕ
  pub fast_polls : ℕ
  pub wait_sleeps : ℕ
  pub runtime_f1_fast_polls : ℕ
  pub runtime_f1_wait_sleeps : ℕ
  pub runtime_f2_wait_sleeps : ℕ
  pub sleep_phase : ℕ → ℕ
  pub sleep_100ns : ℕ

-- The copies of the controller's registers.
pub record RegisterCopies : Type 0 where
  pub host_version : ℕ
  pub capabilities : ℕ
  pub capabilities2 : ℕ
  pub present_state : ℕ
  pub clock_control : ℕ
  pub power_control : ℕ
  pub host_control : ℕ
  pub host_control2 : ℕ
  pub timeout_control : ℕ
  pub software_reset : ℕ
  pub cccr_revision : ℕ

-- The adapter, the device behind it, and the caller's buffer.
pub record Adapter (D : Type 0) : Type 0 where
  pub device : D
  pub memory : Memory
  pub bp_window_valid : Bool
  pub fifo_block_ready : Bool
  pub fifo_transport_failed : Bool
  pub last : LastCommand
  pub mode : BusMode
  pub clock : BusClock
  pub copies : RegisterCopies
  pub cmd53 : Cmd53Counters
  pub fifo : FifoCounters

module _ {D A : Type 0} where
  abbrev put_device : Adapter D → A × D → Outcome A × Adapter D
  put_device s (a, d) = (success a, record s { device = d })

  unfoldable pub on_device : (D → A × D) → Task (Adapter D) A
  on_device f s = put_device s (f s.device)

module _ {D : Type 0} where
  unfoldable pub change_device : (D → D) → Task (Adapter D) (Unit {0})
  change_device f s = (success tt, record s { device = f s.device })

module _ {D : Type 0} (dev : Device D) where
  -- A look at Adapter->IoStopped.
  unfoldable pub io_stopped : Task (Adapter D) Bool
  unfolding on_device
  io_stopped = on_device dev.stopped

  -- KeQueryInterruptTime, and SdioDelayMilliseconds at PASSIVE_LEVEL.
  unfoldable pub interrupt_time : Task (Adapter D) ℕ
  unfolding on_device
  interrupt_time = on_device dev.time

  unfoldable pub delay : ℕ → Task (Adapter D) (Unit {0})
  unfolding change_device
  delay milliseconds = change_device (dev.delay milliseconds)

  unfoldable pub stall : ℕ → Task (Adapter D) (Unit {0})
  unfolding change_device
  stall microseconds = change_device (dev.stall microseconds)

  unfoldable pub register_read : ℕ → ℕ → Task (Adapter D) ℕ
  unfolding on_device ◌>>=◌
  register_read width offset = do
    value ← on_device (dev.read width offset)
    pure (value % 2 ^ width)

  unfoldable pub register_write : ℕ → ℕ → ℕ → Task (Adapter D) (Unit {0})
  unfolding change_device
  register_write width offset value = change_device (dev.write width offset (value % 2 ^ width))

  -- SdioRead8, SdioRead16 and SdioRead32.
  unfoldable pub read8 : ℕ → Task (Adapter D) ℕ
  unfolding io_stopped register_read
  read8 offset = do stopped ← io_stopped; if stopped then pure 0xff else register_read 8 offset

  unfoldable pub read16 : ℕ → Task (Adapter D) ℕ
  unfolding io_stopped register_read
  read16 offset = do stopped ← io_stopped; if stopped then pure 0xffff else register_read 16 offset

  unfoldable pub read32 : ℕ → Task (Adapter D) ℕ
  unfolding io_stopped register_read
  read32 offset = do
    stopped ← io_stopped
    if stopped then pure 0xffffffff else register_read 32 offset

  -- SdioWrite8, SdioWrite16 and SdioWrite32.
  unfoldable pub write8 : ℕ → ℕ → Task (Adapter D) (Unit {0})
  unfolding io_stopped register_write
  write8 offset value = do
    stopped ← io_stopped
    if stopped then pure tt else register_write 8 offset value

  unfoldable pub write16 : ℕ → ℕ → Task (Adapter D) (Unit {0})
  unfolding io_stopped register_write
  write16 offset value = do
    stopped ← io_stopped
    if stopped then pure tt else register_write 16 offset value

  unfoldable pub write32 : ℕ → ℕ → Task (Adapter D) (Unit {0})
  unfolding io_stopped register_write
  write32 offset value = do
    stopped ← io_stopped
    if stopped then pure tt else register_write 32 offset value

-- Changes of one group of the adapter's fields.
module _ {D : Type 0} where
  unfoldable pub set_last : (LastCommand → LastCommand) → Task (Adapter D) (Unit {0})
  set_last f = modify λ s. record s { last = f s.last }

  unfoldable pub set_mode : (BusMode → BusMode) → Task (Adapter D) (Unit {0})
  set_mode f = modify λ s. record s { mode = f s.mode }

  unfoldable pub set_clocks : (BusClock → BusClock) → Task (Adapter D) (Unit {0})
  set_clocks f = modify λ s. record s { clock = f s.clock }

  unfoldable pub set_copies : (RegisterCopies → RegisterCopies) → Task (Adapter D) (Unit {0})
  set_copies f = modify λ s. record s { copies = f s.copies }

  unfoldable pub set_cmd53 : (Cmd53Counters → Cmd53Counters) → Task (Adapter D) (Unit {0})
  set_cmd53 f = modify λ s. record s { cmd53 = f s.cmd53 }

  unfoldable pub set_fifo : (FifoCounters → FifoCounters) → Task (Adapter D) (Unit {0})
  set_fifo f = modify λ s. record s { fifo = f s.fifo }

  unfoldable pub set_memory : (Memory → Memory) → Task (Adapter D) (Unit {0})
  set_memory f = modify λ s. record s { memory = f s.memory }

  -- BpWindowValid and FifoBlockReady are cleared.
  unfoldable pub forget_window : Task (Adapter D) (Unit {0})
  forget_window = modify λ s. record s { bp_window_valid = false }

  unfoldable pub forget_blocks : Task (Adapter D) (Unit {0})
  forget_blocks = modify λ s. record s { fifo_block_ready = false }
