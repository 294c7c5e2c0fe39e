-- ===== src/Host/Initialize.antt =====
-- SdioInitializeHost of src/sdio/sdio.c: the controller from its reset to the first command. The
-- caller has mapped the registers.
use rpi5_wifi_driver_win11ar.Prelude.{ℕ, ◌==◌, ◌!=◌, if◌then◌else◌, bit_and}
use rpi5_wifi_driver_win11ar.Task.{Task, fails, get, ◌>>=◌, ◌>>◌}
use rpi5_wifi_driver_win11ar.Host.Registers.{
  Device, Adapter, delay, read8, read16, read32, write8, write32, set_copies,
  device_configuration_error,
}
use rpi5_wifi_driver_win11ar.Host.Commands.{reset_host, set_clock}

-- The highest voltage that the capabilities name, with the power on; 0 where they name none.
unfoldable pub voltage_for : ℕ → ℕ
voltage_for capabilities =
    if bit_and capabilities 0x01000000 != 0
    then 0x0f
    else if bit_and capabilities 0x02000000 != 0
    then 0x0d
    else if bit_and capabilities 0x04000000 != 0
    then 0x0b
    else 0

module _ {D : Type 0} (dev : Device D) where
  unfoldable pub read_capabilities : Task (Adapter D) (Unit {0})
  read_capabilities = do
    version ← read16 dev 0xfe
    low ← read32 dev 0x40
    high ← read32 dev 0x44
    set_copies λ c. record c { host_version = version; capabilities = low; capabilities2 = high }

  unfoldable pub copy_registers : Task (Adapter D) (Unit {0})
  copy_registers = do
    present ← read32 dev 0x24
    clock ← read16 dev 0x2c
    power ← read8 dev 0x29
    host ← read8 dev 0x28
    host2 ← read16 dev 0x3e
    timeout ← read8 dev 0x2e
    reset ← read8 dev 0x2f
    set_copies λ c. record c {
      present_state = present;
      clock_control = clock;
      power_control = power;
      host_control = host;
      host_control2 = host2;
      timeout_control = timeout;
      software_reset = reset;
    }

  unfoldable pub power_on : ℕ → Task (Adapter D) (Unit {0})
  power_on power = do
    write8 dev 0x29 power
    write8 dev 0x2e 0x0e
    write32 dev 0x30 0xffffffff
    write32 dev 0x34 0x087f8133
    write32 dev 0x38 0
    delay dev 200
    copy_registers

  -- SdioInitializeHost.
  unfoldable pub initialize_host : Task (Adapter D) (Unit {0})
  initialize_host = do
    write32 dev 0x38 0
    reset_host dev 1
    read_capabilities
    set_clock dev 400
    capabilities ← get λ s. s.copies.capabilities
    if voltage_for capabilities == 0
        then fails device_configuration_error
        else power_on (voltage_for capabilities)
