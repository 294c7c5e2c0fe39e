-- ===== src/Host/Reads.antt =====
-- The register accesses of src/sdio/sdio.c return no error.
use rpi5_wifi_driver_win11ar.Prelude.{ℕ}
use rpi5_wifi_driver_win11ar.Task.Unfailing.{Unfailing, unfailing_rules, Unfailing-modify}
use rpi5_wifi_driver_win11ar.Host.Registers.{
  Device, Adapter, on_device, change_device, io_stopped, stall, read8, read16, read32, write8,
  write16, write32, register_read, register_write,
}
use rpi5_wifi_driver_win11ar.Host.Commands.Keeping.{Stable}

module _ {D : Type 0} {P : Adapter D → Type 0} (kept : Stable P) where
  pub on_device-Unfailing : {A : Type 0} (f : D → A × D) → Unfailing P (on_device f)
  unfolding on_device
  on_device-Unfailing f = record {
    done = λ s h. kept.stable s (f s.device).1 s.last s.bp_window_valid s.fifo_block_ready h;
  }

  pub change_device-Unfailing : (f : D → D) → Unfailing P (change_device f)
  unfolding change_device
  change_device-Unfailing f = record {
    done = λ s h. kept.stable s (f s.device) s.last s.bp_window_valid s.fifo_block_ready h;
  }

pub ruleset access_rules = (unfailing_rules, on_device-Unfailing, change_device-Unfailing)

module _ {D : Type 0} (dev : Device D) {P : Adapter D → Type 0} (kept : Stable P) where
  pub read8-Unfailing : (offset : ℕ) → Unfailing P (read8 dev offset)
  unfolding read8 io_stopped register_read
  read8-Unfailing offset = search access_rules depth 16

  pub write8-Unfailing : (offset value : ℕ) → Unfailing P (write8 dev offset value)
  unfolding write8 io_stopped register_write
  write8-Unfailing offset value = search access_rules depth 16

  pub read16-Unfailing : (offset : ℕ) → Unfailing P (read16 dev offset)
  unfolding read16 io_stopped register_read
  read16-Unfailing offset = search access_rules depth 16

  pub write16-Unfailing : (offset value : ℕ) → Unfailing P (write16 dev offset value)
  unfolding write16 io_stopped register_write
  write16-Unfailing offset value = search access_rules depth 16

  pub read32-Unfailing : (offset : ℕ) → Unfailing P (read32 dev offset)
  unfolding read32 io_stopped register_read
  read32-Unfailing offset = search access_rules depth 16

  pub write32-Unfailing : (offset value : ℕ) → Unfailing P (write32 dev offset value)
  unfolding write32 io_stopped register_write
  write32-Unfailing offset value = search access_rules depth 16

  pub io_stopped-Unfailing : Unfailing P (io_stopped dev)
  unfolding io_stopped
  io_stopped-Unfailing = search access_rules

  pub stall-Unfailing : (n : ℕ) → Unfailing P (stall dev n)
  unfolding stall
  stall-Unfailing n = search access_rules

pub ruleset read_rules = (
  access_rules, read8-Unfailing, read16-Unfailing, read32-Unfailing, write8-Unfailing,
  write16-Unfailing, write32-Unfailing, io_stopped-Unfailing, stall-Unfailing,
)
