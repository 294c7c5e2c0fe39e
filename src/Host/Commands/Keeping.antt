-- ===== src/Host/Commands/Keeping.antt =====
-- Single commands of src/sdio/sdio.c change the device, the last command and the window, and no
-- field that names the state of the bus.
use rpi5_wifi_driver_win11ar.Prelude.{ℕ, zero, suc, Bool, false}
use rpi5_wifi_driver_win11ar.Task.Rules.{
  IsError, Keeps, Keeps-bind, Keeps-fails, Keeps-pure, Keeps-modify, keeps_rules,
}
use rpi5_wifi_driver_win11ar.Host.Registers.{
  Device, Adapter, LastCommand, on_device, change_device, io_stopped, stall, read8, read16, read32,
  write8, write16, write32, register_read, register_write, set_last, forget_window, forget_blocks,
}
use rpi5_wifi_driver_win11ar.Host.Commands.{
  reset_wait, reset_host, inhibit_wait, wait_inhibit_clear, poll_command, fail_after_reset,
  finish_busy, finish_command, issue_command, send_command, cmd52_read, cmd52_write, verify_write,
}

-- A predicate that reads none of the fields that a command changes.
pub record Stable {D : Type 0} (P : Adapter D → Type 0) : Type 0 where
  pub stable :
      (s : Adapter D) (device : D) (last : LastCommand) (window blocks : Bool)
      → P s
      → P (record s {
        device = device;
        last = last;
        bp_window_valid = window;
        fifo_block_ready = blocks;
      })

module _ {D : Type 0} {P : Adapter D → Type 0} (kept : Stable P) where
  pub on_device-Keeps : {A : Type 0} (f : D → A × D) → Keeps P (on_device f)
  unfolding on_device
  on_device-Keeps f = record {
    after = λ s h. kept.stable s (f s.device).1 s.last s.bp_window_valid s.fifo_block_ready h;
  }

  pub change_device-Keeps : (f : D → D) → Keeps P (change_device f)
  unfolding change_device
  change_device-Keeps f = record {
    after = λ s h. kept.stable s (f s.device) s.last s.bp_window_valid s.fifo_block_ready h;
  }

  pub set_last-Keeps : (f : LastCommand → LastCommand) → Keeps P (set_last f)
  unfolding set_last
  set_last-Keeps f =
      Keeps-modify _
        (λ s h. kept.stable s s.device (f s.last) s.bp_window_valid s.fifo_block_ready h)

  pub forget_window-Keeps : Keeps P forget_window
  unfolding forget_window
  forget_window-Keeps =
      Keeps-modify _ (λ s h. kept.stable s s.device s.last false s.fifo_block_ready h)

  pub forget_blocks-Keeps : Keeps P forget_blocks
  unfolding forget_blocks
  forget_blocks-Keeps =
      Keeps-modify _ (λ s h. kept.stable s s.device s.last s.bp_window_valid false h)

pub ruleset device_rules = (
  keeps_rules, on_device-Keeps, change_device-Keeps, set_last-Keeps, forget_window-Keeps,
  forget_blocks-Keeps,
)

module _ {D : Type 0} (dev : Device D) {P : Adapter D → Type 0} (kept : Stable P) where
  pub read8-Keeps : (offset : ℕ) → Keeps P (read8 dev offset)
  unfolding read8 io_stopped register_read
  read8-Keeps offset = search device_rules

  pub read16-Keeps : (offset : ℕ) → Keeps P (read16 dev offset)
  unfolding read16 io_stopped register_read
  read16-Keeps offset = search device_rules

  pub read32-Keeps : (offset : ℕ) → Keeps P (read32 dev offset)
  unfolding read32 io_stopped register_read
  read32-Keeps offset = search device_rules

  pub write8-Keeps : (offset value : ℕ) → Keeps P (write8 dev offset value)
  unfolding write8 io_stopped register_write
  write8-Keeps offset value = search device_rules

  pub write16-Keeps : (offset value : ℕ) → Keeps P (write16 dev offset value)
  unfolding write16 io_stopped register_write
  write16-Keeps offset value = search device_rules

  pub write32-Keeps : (offset value : ℕ) → Keeps P (write32 dev offset value)
  unfolding write32 io_stopped register_write
  write32-Keeps offset value = search device_rules

  pub io_stopped-Keeps : Keeps P (io_stopped dev)
  unfolding io_stopped
  io_stopped-Keeps = search device_rules

  pub stall-Keeps : (n : ℕ) → Keeps P (stall dev n)
  unfolding stall
  stall-Keeps n = search device_rules

pub ruleset port_rules = (
  device_rules, read8-Keeps, read16-Keeps, read32-Keeps, write8-Keeps, write16-Keeps, write32-Keeps,
  io_stopped-Keeps, stall-Keeps,
)

module _ {D : Type 0} (dev : Device D) {P : Adapter D → Type 0} (kept : Stable P) where
  reset_wait-Keeps : (n mask : ℕ) → Keeps P (reset_wait dev n mask)
  unfolding reset_wait
  reset_wait-Keeps zero mask = search port_rules
  reset_wait-Keeps (suc n) mask =
      search (port_rules, λ (u : Unit {0}). reset_wait-Keeps n mask) depth 16

  pub reset_host-Keeps : (mask : ℕ) → Keeps P (reset_host dev mask)
  unfolding reset_host
  reset_host-Keeps mask = search (port_rules, reset_wait-Keeps) depth 16

  inhibit_wait-Keeps : (n mask : ℕ) → Keeps P (inhibit_wait dev n mask)
  unfolding inhibit_wait
  inhibit_wait-Keeps zero mask = search port_rules
  inhibit_wait-Keeps (suc n) mask =
      search (port_rules, λ (u : Unit {0}). inhibit_wait-Keeps n mask) depth 16

  pub wait_inhibit_clear-Keeps : (mask : ℕ) → Keeps P (wait_inhibit_clear dev mask)
  unfolding wait_inhibit_clear
  wait_inhibit_clear-Keeps mask = inhibit_wait-Keeps 10000 mask

  poll_command-Keeps : (n seen : ℕ) → Keeps P (poll_command dev n seen)
  unfolding poll_command
  poll_command-Keeps zero seen = search port_rules
  poll_command-Keeps (suc n) seen =
      search (port_rules, λ (value : ℕ). poll_command-Keeps n value) depth 16

  fail_after_reset-Keeps :
      {A : Type 0} (status : ℕ) → IsError status → Keeps P (fail_after_reset dev {A = A} status)
  unfolding fail_after_reset
  fail_after_reset-Keeps status e = search (port_rules, reset_host-Keeps) depth 16

  finish_busy-Keeps : (flags : ℕ) → Keeps P (finish_busy dev flags)
  unfolding finish_busy
  finish_busy-Keeps flags = search (port_rules, wait_inhibit_clear-Keeps, reset_host-Keeps) depth 16

  finish_command-Keeps :
      (flags : ℕ) (respond : Bool) (o : ℕ × Bool) → Keeps P (finish_command dev flags respond o)
  unfolding finish_command
  finish_command-Keeps flags respond (seen, expired) =
      search (port_rules, fail_after_reset-Keeps, finish_busy-Keeps) depth 16

  issue_command-Keeps :
      (index argument flags : ℕ) (respond : Bool)
      → Keeps P (issue_command dev index argument flags respond)
  unfolding issue_command
  issue_command-Keeps index argument flags respond =
      search (port_rules, poll_command-Keeps, finish_command-Keeps) depth 16

  pub send_command-Keeps :
      (index argument flags : ℕ) (respond : Bool)
      → Keeps P (send_command dev index argument flags respond)
  unfolding send_command
  send_command-Keeps index argument flags respond =
      search (port_rules, wait_inhibit_clear-Keeps, fail_after_reset-Keeps, issue_command-Keeps)
        depth 16

  pub cmd52_read-Keeps : (function address : ℕ) → Keeps P (cmd52_read dev function address)
  unfolding cmd52_read
  cmd52_read-Keeps function address = search (port_rules, send_command-Keeps) depth 16

  verify_write-Keeps :
      (function address value mask : ℕ) → Keeps P (verify_write dev function address value mask)
  unfolding verify_write
  verify_write-Keeps function address value mask = search (port_rules, cmd52_read-Keeps) depth 16

  pub cmd52_write-Keeps :
      (function address value mask : ℕ) → Keeps P (cmd52_write dev function address value mask)
  unfolding cmd52_write
  cmd52_write-Keeps function address value mask =
      search (port_rules, send_command-Keeps, verify_write-Keeps) depth 16
