-- ===== src/Host/BusMode.antt =====
-- src/sdio/bus_mode.h: the width and the timing of the bus. The caller has mapped the registers and
-- runs at PASSIVE_LEVEL, as every function checks on entry.
pub mod Defaults
pub mod Recovery
pub mod HighSpeed
pub mod Negotiation
use rpi5_wifi_driver_win11ar.Prelude.{
  ℕ, ◌%◌, ◌^◌, Bool, true, false, ◌&&◌, ◌||◌, ltb, leb, ◌==◌, ◌!=◌, if◌then◌else◌, bit_and, bit_or,
}
use rpi5_wifi_driver_win11ar.Task.{Task, pure, fails, get, ◌>>=◌, ◌>>◌, noting, on_error, ignore}
use rpi5_wifi_driver_win11ar.Sdio.{reject_reason, can_use_high_speed}
use rpi5_wifi_driver_win11ar.Host.Registers.{
  Device, Adapter, BusMode, io_stopped, read8, read16, read32, write8, write16, set_mode,
  set_clocks, set_copies, status_success, invalid_device_state, device_data_error,
  device_configuration_error, not_supported,
}
use rpi5_wifi_driver_win11ar.Host.Commands.{set_clock, cmd52_read, cmd52_write}

-- CYW_SDIO_OPERATING_CLOCK_KHZ and CYW_SDIO_HIGH_SPEED_CLOCK_KHZ.
abbrev pub operating_khz : ℕ
operating_khz = 25000

abbrev pub high_speed_khz : ℕ
high_speed_khz = 50000

-- NT_SUCCESS(A->BusRecoveryStatus)?90:99.
abbrev pub recovered_stage : ℕ → ℕ
recovered_stage status = if ltb status 0x80000000 then 90 else 99

module _ {D : Type 0} where
  -- Zero means unknown.
  unfoldable pub forget_bus : Task (Adapter D) (Unit {0})
  forget_bus = do
    set_mode λ m. record m { width = 0 }
    set_clocks λ c. record c { target_khz = 0; actual_khz = 0 }

  unfoldable pub accept_high_speed : ℕ → ℕ → ℕ → Task (Adapter D) (Unit {0})
  accept_high_speed control2 speed card = do
    set_copies λ c. record c { host_control2 = control2 }
    set_mode λ m. record m { card_speed = speed; card_interface = card; high_speed_active = true }

  unfoldable pub confirm_rate : ℕ → ℕ → ℕ → Task (Adapter D) (Unit {0})
  confirm_rate control2 speed card = do
    actual ← get λ s. s.clock.actual_khz
    if leb actual operating_khz || ltb high_speed_khz actual
        then fails device_data_error
        else accept_high_speed control2 speed card

module _ {D : Type 0} (dev : Device D) where
  unfoldable pub refuse_stopped : Task (Adapter D) (Unit {0})
  refuse_stopped = do
    stopped ← io_stopped dev
    if stopped then fails invalid_device_state else pure tt

  -- The card's speed, where its revision has the register, goes back to the default.
  unfoldable pub write_low_speed : Task (Adapter D) ℕ
  write_low_speed = do
    speed ← cmd52_read dev 0 0x13
    cmd52_write dev 0 0x13 (bit_and speed 0xf1) 0x0e
    pure (bit_and speed 0xf1)

  unfoldable pub lower_speed : ℕ → Task (Adapter D) ℕ
  lower_speed revision = if leb 2 (bit_and revision 15) then write_low_speed else pure 0

  unfoldable pub set_card_width : Bool → Task (Adapter D) ℕ
  set_card_width wide = do
    card ← cmd52_read dev 0 7
    cmd52_write dev 0 7 (bit_or (bit_and card 0xfc) (if wide then 2 else 0)) 3
    pure (bit_or (bit_and card 0xfc) (if wide then 2 else 0))

  -- The host control register changes with the clock's output gated, and is read back.
  unfoldable pub switch_host : ℕ → Task (Adapter D) (Unit {0})
  switch_host expected = do
    clock ← read16 dev 0x2c
    write16 dev 0x2c (bit_and clock 0xfffb)
    write8 dev 0x28 expected
    found ← read8 dev 0x28
    set_copies λ c. record c { host_control = found }
    if found != expected then fails device_data_error else pure tt

  unfoldable pub default_expected : ℕ → Bool → ℕ
  default_expected host wide = bit_or (bit_and host 0xd9) (if wide then 2 else 0)

  unfoldable pub settle_width : Bool → ℕ → ℕ → Task (Adapter D) (Unit {0})
  settle_width wide card speed = do
    set_clock dev 400
    set_mode
        λ m. record m { width = if wide then 4 else 1; card_interface = card; card_speed = speed }

  unfoldable pub match_host : Bool → ℕ → ℕ → Task (Adapter D) (Unit {0})
  match_host wide card speed = do
    refuse_stopped
    host ← read8 dev 0x28
    switch_host (default_expected host wide)
    settle_width wide card speed

  unfoldable pub lower_then_widen : Bool → ℕ → Task (Adapter D) (Unit {0})
  lower_then_widen wide revision = do
    refuse_stopped
    set_clock dev 400
    speed ← lower_speed revision
    card ← set_card_width wide
    match_host wide card speed

  -- SdioSetDefaultBus.
  unfoldable pub set_default_bus : Bool → Task (Adapter D) (Unit {0})
  set_default_bus wide = do
    set_mode λ m. record m { high_speed_active = false }
    revision ← get λ s. s.copies.cccr_revision
    lower_then_widen wide revision

  -- SdioRestoreIdentificationBus.
  unfoldable pub restore_identification_bus : Task (Adapter D) (Unit {0})
  restore_identification_bus = do
    forget_bus
    noting (set_default_bus false)
        λ status s. record s { mode = record s.mode { recovery_status = status } }

  -- The recovery to 400 kHz after a failure.
  unfoldable pub recover : Task (Adapter D) (Unit {0})
  recover = do
    ignore restore_identification_bus
    set_mode λ m. record m { stage = recovered_stage m.recovery_status }

  unfoldable pub voltage_changed : ℕ → ℕ → Task (Adapter D) Bool
  voltage_changed control2 power = do
    found ← read16 dev 0x3e
    if found != control2 % 2 ^ 16
        then pure true
        else do level ← read8 dev 0x29; pure (level != power % 256)

  unfoldable pub refuse_voltage : Task (Adapter D) (Unit {0})
  refuse_voltage = do
    ignore (set_clock dev 400)
    set_mode λ m. record m { recovery_status = device_configuration_error; stage = 99 }
    fails device_configuration_error

  unfoldable pub run_default_bus : Task (Adapter D) (Unit {0})
  run_default_bus = do
    set_default_bus true
    set_clock dev operating_khz
    set_mode λ m. record m { recovery_status = status_success; stage = 4 }

  unfoldable pub fall_back : Bool → Task (Adapter D) (Unit {0})
  fall_back changed =
      if changed then refuse_voltage else on_error run_default_bus λ status. recover >> fails status

  unfoldable pub check_voltage : Bool → ℕ → ℕ → Task (Adapter D) Bool
  check_voltage attempted control2 power =
      if attempted then voltage_changed control2 power else pure false

  -- SdioRestoreDefaultOperatingBus.
  unfoldable pub restore_default_operating_bus : Task (Adapter D) (Unit {0})
  restore_default_operating_bus = do
    set_mode λ m. record m { high_speed_active = false }
    forget_bus
    attempted ← get λ s. s.mode.high_speed_attempted
    control2 ← get λ s. s.copies.host_control2
    power ← get λ s. s.copies.power_control
    changed ← check_voltage attempted control2 power
    fall_back changed

  unfoldable pub transfer_inhibited : Task (Adapter D) Bool
  transfer_inhibited = do
    stopped ← io_stopped dev
    if stopped then pure true else do present ← read32 dev 0x24; pure (bit_and present 3 != 0)

  -- The chain of conditions that accepts the high-speed mode, read back from both sides.
  unfoldable pub confirm_registers : ℕ → ℕ → ℕ → Task (Adapter D) (Unit {0})
  confirm_registers expected control2 power = do
    host ← read8 dev 0x28
    if host != expected then fails device_data_error else do
      found ← read16 dev 0x3e
      if found != control2 then fails device_data_error else do
        level ← read8 dev 0x29
        if level != power then fails device_data_error else pure tt

  unfoldable pub confirm_card : ℕ → ℕ → ℕ → ℕ → ℕ → Task (Adapter D) (Unit {0})
  confirm_card expected control2 power speed card =
      if bit_and speed 0x0f != 3 || bit_and card 3 != 2
      then fails device_data_error
      else confirm_registers expected control2 power >> confirm_rate control2 speed card

  unfoldable pub confirm_high_speed : ℕ → ℕ → ℕ → Task (Adapter D) (Unit {0})
  confirm_high_speed expected control2 power = do
    speed ← cmd52_read dev 0 0x13
    card ← cmd52_read dev 0 7
    confirm_card expected control2 power speed card

  unfoldable pub run_high_speed : ℕ → ℕ → ℕ → Task (Adapter D) (Unit {0})
  run_high_speed host control2 power =
      if bit_and host 0x22 != 2 then fails device_data_error else do
        switch_host (bit_or host 4)
        set_clock dev high_speed_khz
        confirm_high_speed (bit_or host 4) control2 power

  unfoldable pub enable_high_speed : ℕ → ℕ → ℕ → Task (Adapter D) (Unit {0})
  enable_high_speed speed control2 power = do
    cmd52_write dev 0 0x13 (bit_or (bit_and speed 0xf1) 2) 0x0e
    refuse_stopped
    host ← read8 dev 0x28
    run_high_speed host control2 power

  -- SdioSetHighSpeedBus.
  unfoldable pub set_high_speed_bus : Task (Adapter D) (Unit {0})
  set_high_speed_bus = do
    inhibited ← transfer_inhibited
    if inhibited then fails invalid_device_state else do
      control2 ← read16 dev 0x3e
      power ← read8 dev 0x29
      set_clock dev 400
      speed ← cmd52_read dev 0 0x13
      usable ← get λ s.
          can_use_high_speed s.copies.host_version s.copies.capabilities control2
            (s.copies.cccr_revision % 256) speed
      if usable then enable_high_speed speed control2 power else fails device_configuration_error

  unfoldable pub check_caps : Task (Adapter D) (Unit {0})
  check_caps = do
    refuse_stopped
    capabilities ← get λ s. s.copies.capabilities
    if bit_and capabilities 0xff00 == 0 then fails device_configuration_error else do
      caps ← cmd52_read dev 0 8
      if bit_and caps 0x40 != 0 then fails device_configuration_error else pure tt

  -- The way to 25 MHz; its failures recover the identification bus.
  unfoldable pub reach_operating_speed : Task (Adapter D) (Unit {0})
  reach_operating_speed = do
    check_caps
    set_mode λ m. record m { stage = 3 }
    set_default_bus true
    set_mode λ m. record m { stage = 4 }
    set_clock dev operating_khz

  unfoldable pub attempt_high_speed : Task (Adapter D) (Unit {0})
  attempt_high_speed = do
    set_mode λ m. record m { high_speed_eligible = true; high_speed_attempted = true }
    noting set_high_speed_bus
        λ status s. record s { mode = record s.mode { high_speed_status = status } }

  unfoldable pub try_high_speed : Task (Adapter D) (Unit {0})
  try_high_speed = on_error attempt_high_speed λ status.
      on_error restore_default_operating_bus
        λ failure. set_mode (λ m. record m { upgrade_status = failure }) >> fails failure

  unfoldable pub read_reject_reason : Task (Adapter D) ℕ
  read_reject_reason = do
    control2 ← read16 dev 0x3e
    set_copies λ c. record c { host_control2 = control2 }
    power ← read8 dev 0x29
    set_copies λ c. record c { power_control = power }
    reason ← get λ s.
        reject_reason s.copies.host_version s.copies.capabilities (s.copies.host_control2 % 2 ^ 16)
          (s.copies.cccr_revision % 256) (s.mode.card_speed % 256)
    set_mode λ m. record m { high_speed_reject_mask = reason }
    pure reason

  unfoldable pub note_reject_reason : Task (Adapter D) ℕ
  note_reject_reason =
      set_mode (λ m. record m { upgrade_status = status_success }) >> read_reject_reason

  unfoldable pub begin_negotiation : Task (Adapter D) (Unit {0})
  begin_negotiation = set_mode λ m. record m {
    stage = 2;
    high_speed_eligible = false;
    high_speed_attempted = false;
    high_speed_active = false;
    high_speed_reject_mask = 0;
    high_speed_status = not_supported;
  }

  unfoldable pub upgrade_failed : ℕ → Task (Adapter D) (Unit {0})
  upgrade_failed status =
      set_mode (λ m. record m { upgrade_status = status }) >> recover >> fails status

  -- SdioNegotiateOperatingSpeed.
  unfoldable pub negotiate_operating_speed : Task (Adapter D) (Unit {0})
  negotiate_operating_speed = do
    begin_negotiation
    on_error reach_operating_speed upgrade_failed
    reason ← note_reject_reason
    if reason != 0 then pure tt else try_high_speed
