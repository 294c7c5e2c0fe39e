-- ===== src/Host/BusMode/Defaults.antt =====
-- What SdioSetDefaultBus and SdioRestoreIdentificationBus of src/sdio/bus_mode.h leave.
use rpi5_wifi_driver_win11ar.Prelude.{ℕ, ◌≡◌, refl, Bool, false, if◌then◌else◌}
use rpi5_wifi_driver_win11ar.Task.Rules.{
  Ensures, Keeps, Keeps-get, Keeps-modify, ensures_rules, Ensures-modify, Ensures-bind,
  Ensures-after,
}
use rpi5_wifi_driver_win11ar.Host.Registers.{Device, Adapter, BusMode, set_mode, set_copies}
use rpi5_wifi_driver_win11ar.Host.Commands.Keeping.{
  Stable, port_rules, cmd52_read-Keeps, cmd52_write-Keeps,
}
use rpi5_wifi_driver_win11ar.Host.Commands.Clocking.{
  HasMode, HasMode-Stable, Runs, set_clock-Runs, set_clock-Keeps,
}
use rpi5_wifi_driver_win11ar.Host.BusMode.{
  refuse_stopped, write_low_speed, lower_speed, set_card_width, switch_host, settle_width,
  match_host, lower_then_widen, set_default_bus,
}

module _ {D : Type 0} (dev : Device D) {P : Adapter D → Type 0} (kept : Stable P) where
  pub refuse_stopped-Keeps : Keeps P (refuse_stopped dev)
  unfolding refuse_stopped
  refuse_stopped-Keeps = search port_rules depth 16

  lower_speed-Keeps : (revision : ℕ) → Keeps P (lower_speed dev revision)
  unfolding lower_speed write_low_speed
  lower_speed-Keeps revision = search (port_rules, cmd52_read-Keeps, cmd52_write-Keeps) depth 16

  set_card_width-Keeps : (wide : Bool) → Keeps P (set_card_width dev wide)
  unfolding set_card_width
  set_card_width-Keeps wide = search (port_rules, cmd52_read-Keeps, cmd52_write-Keeps) depth 16

module _ {D : Type 0} (dev : Device D) (P : BusMode → Type 0) (capabilities : ℕ) where
  host_control_Keeps :
      (found : ℕ)
      → Keeps (HasMode {D = D} P capabilities) (set_copies λ c. record c { host_control = found })
  unfolding set_copies
  host_control_Keeps found = Keeps-modify _ (λ s h. h)

  pub switch_host-Keeps : (expected : ℕ) → Keeps (HasMode P capabilities) (switch_host dev expected)
  unfolding switch_host
  switch_host-Keeps expected =
      search (port_rules, HasMode-Stable P capabilities, host_control_Keeps) depth 16

-- The stage, the width and the status of the upgrade; `Idle` says that high speed is off.
abbrev pub At : ℕ → ℕ → ℕ → BusMode → Type 0
At stage width upgrade m = (m.stage ≡ stage) × (m.width ≡ width) × (m.upgrade_status ≡ upgrade)

abbrev pub Idle : ℕ → ℕ → ℕ → BusMode → Type 0
Idle stage width upgrade m =
    (m.high_speed_active ≡ false)
    × (m.stage ≡ stage)
    × (m.width ≡ width)
    × (m.upgrade_status ≡ upgrade)

-- The width in lines.
abbrev pub lines : Bool → ℕ
lines wide = if wide then 4 else 1

module _ {D : Type 0} (dev : Device D) (capabilities stage width upgrade : ℕ) where
  settle_width-Runs :
      (wide : Bool) (card speed : ℕ)
      → Ensures
          (HasMode (Idle stage width upgrade) capabilities)
          (settle_width dev wide card speed)
          (λ u. Runs (Idle stage (lines wide) upgrade) capabilities 400)
          (λ status. HasMode (Idle stage width upgrade) capabilities)
  unfolding settle_width set_mode
  settle_width-Runs wide card speed = Ensures-bind (set_clock-Runs dev _ capabilities 400) λ u.
      Ensures-modify _
        (λ s h. let (((off, at, was, up), caps), ran) = h in (((off, at, refl, up), caps), ran))

  match_host-Runs :
      (wide : Bool) (card speed : ℕ)
      → Ensures
          (HasMode (Idle stage width upgrade) capabilities)
          (match_host dev wide card speed)
          (λ u. Runs (Idle stage (lines wide) upgrade) capabilities 400)
          (λ status. HasMode (Idle stage width upgrade) capabilities)
  unfolding match_host
  match_host-Runs wide card speed =
      search
        (
          ensures_rules, port_rules, HasMode-Stable, refuse_stopped-Keeps, switch_host-Keeps,
          settle_width-Runs,
        )
        depth 16

  lower_then_widen-Runs :
      (wide : Bool) (revision : ℕ)
      → Ensures
          (HasMode (Idle stage width upgrade) capabilities)
          (lower_then_widen dev wide revision)
          (λ u. Runs (Idle stage (lines wide) upgrade) capabilities 400)
          (λ status. HasMode (Idle stage width upgrade) capabilities)
  unfolding lower_then_widen
  lower_then_widen-Runs wide revision =
      search
        (
          ensures_rules, port_rules, HasMode-Stable, refuse_stopped-Keeps, set_clock-Keeps,
          lower_speed-Keeps, set_card_width-Keeps, match_host-Runs,
        )
        depth 16

  -- On success the width is the one asked for, at 400 kHz; high speed is off in any case.
  pub set_default_bus-Runs :
      (wide : Bool)
      → Ensures
          (HasMode (At stage width upgrade) capabilities)
          (set_default_bus dev wide)
          (λ u. Runs (Idle stage (lines wide) upgrade) capabilities 400)
          (λ status. HasMode (Idle stage width upgrade) capabilities)
  unfolding set_default_bus set_mode
  set_default_bus-Runs wide =
      Ensures-bind
        (Ensures-modify _ (λ s h. let ((at, was, up), caps) = h in ((refl, at, was, up), caps)))
        λ u.
          Ensures-after (Keeps-get _) (λ status s h. h)
            λ revision. lower_then_widen-Runs wide revision
