-- ===== src/Host/BusMode/HighSpeed.antt =====
-- SdioSetHighSpeedBus of src/sdio/bus_mode.h: what has been read back when it succeeds.
use rpi5_wifi_driver_win11ar.Prelude.{
  ℕ, ◌≡◌, ◌≤◌, ◌<◌, refl, Bool, true, false, ◌||◌, leb, ltb, ◌!=◌, if◌then◌else◌, bit_and, arith,
}
use rpi5_wifi_driver_win11ar.Task.{fails, ◌>>◌}
use rpi5_wifi_driver_win11ar.Task.Rules.{
  Ensures, Keeps, ensures_rules, Ensures-modify, Ensures-bind, Ensures-after, Ensures-fails,
  Ensures-look,
}
use rpi5_wifi_driver_win11ar.Host.Registers.{
  Device, Adapter, set_mode, set_copies, device_data_error,
}
use rpi5_wifi_driver_win11ar.Host.Commands.Keeping.{
  Stable, port_rules, cmd52_read-Keeps, cmd52_write-Keeps,
}
use rpi5_wifi_driver_win11ar.Host.Commands.Clocking.{HasMode, HasMode-Stable, set_clock-Keeps}
use rpi5_wifi_driver_win11ar.Host.BusMode.{
  accept_high_speed, confirm_rate, confirm_card, confirm_registers, confirm_high_speed,
  run_high_speed, enable_high_speed, set_high_speed_bus, transfer_inhibited,
}
use rpi5_wifi_driver_win11ar.Host.BusMode.Defaults.{Idle, refuse_stopped-Keeps, switch_host-Keeps}

-- 4 bits above 25 MHz and at most 50 MHz, with the card's high-speed bits read back.
abbrev pub OnHighSpeed : {D : Type 0} → ℕ → Adapter D → Type 0
OnHighSpeed upgrade s =
    (s.mode.high_speed_active ≡ true)
    × (s.mode.stage ≡ 4)
    × (s.mode.width ≡ 4)
    × (s.mode.upgrade_status ≡ upgrade)
    × (bit_and s.mode.card_speed 0x0f ≡ 3)
    × (bit_and s.mode.card_interface 3 ≡ 2)
    × (25000 < s.clock.actual_khz)
    × (s.clock.actual_khz ≤ 50000)

card_confirmed :
    (speed card : ℕ)
    → (bit_and speed 0x0f != 3 || bit_and card 3 != 2) ≡ false
    → (bit_and speed 0x0f ≡ 3) × (bit_and card 3 ≡ 2)
card_confirmed speed card e = ground arith

rate_confirmed :
    (actual : ℕ)
    → (leb actual 25000 || ltb 50000 actual) ≡ false
    → (25000 < actual) × (actual ≤ 50000)
rate_confirmed actual e = ground arith

module _ {D : Type 0} (dev : Device D) (capabilities upgrade : ℕ) where
  abbrev Before : Adapter D → Type 0
  Before = HasMode (Idle 4 4 upgrade) capabilities

  Before-Stable : Stable Before
  Before-Stable = HasMode-Stable (Idle 4 4 upgrade) capabilities

  accept-OnHighSpeed :
      (control2 speed card : ℕ)
      → (bit_and speed 0x0f ≡ 3) × (bit_and card 3 ≡ 2)
      → Ensures
          (λ s. Before s × (25000 < s.clock.actual_khz) × (s.clock.actual_khz ≤ 50000))
          (accept_high_speed control2 speed card)
          (λ u. OnHighSpeed upgrade)
          (λ status. Before)
  unfolding accept_high_speed set_mode set_copies
  accept-OnHighSpeed control2 speed card (b, c) =
      Ensures-bind
        (Ensures-modify
          {Good = λ u s. Before s × (25000 < s.clock.actual_khz) × (s.clock.actual_khz ≤ 50000)} _
          (λ s h. h))
        λ u.
          Ensures-modify _
            (λ s h. let (((off, at, w, up), caps), lo, hi) = h in (refl, at, w, up, b, c, lo, hi))

  within-OnHighSpeed :
      (control2 speed card actual : ℕ) (wrong : Bool)
      → (bit_and speed 0x0f ≡ 3) × (bit_and card 3 ≡ 2)
      → (wrong ≡ false → (25000 < actual) × (actual ≤ 50000))
      → Ensures
          (λ s. Before s × (s.clock.actual_khz ≡ actual))
          (if wrong then fails device_data_error else accept_high_speed control2 speed card)
          (λ u. OnHighSpeed upgrade)
          (λ status. Before)
  within-OnHighSpeed control2 speed card actual true bits range =
      Ensures-fails device_data_error refl (λ s h. h.0)
  within-OnHighSpeed control2 speed card actual false bits range = record {
    runs = λ s h.
        (accept-OnHighSpeed control2 speed card bits).runs s
          (h.0, rw h.1 (range refl).0, rw h.1 (range refl).1);
  }

  confirm_rate-OnHighSpeed :
      (control2 speed card : ℕ)
      → (bit_and speed 0x0f ≡ 3) × (bit_and card 3 ≡ 2)
      → Ensures Before
          (confirm_rate control2 speed card)
          (λ u. OnHighSpeed upgrade)
          (λ status. Before)
  unfolding confirm_rate
  confirm_rate-OnHighSpeed control2 speed card bits = Ensures-look _ _ λ actual.
      within-OnHighSpeed control2 speed card actual (leb actual 25000 || ltb 50000 actual) bits
        (rate_confirmed actual)

  confirm_registers-Keeps :
      (expected control2 power : ℕ) → Keeps Before (confirm_registers dev expected control2 power)
  unfolding confirm_registers
  confirm_registers-Keeps expected control2 power = search (port_rules, Before-Stable) depth 20

  checked-OnHighSpeed :
      (expected control2 power speed card : ℕ) (wrong : Bool)
      → (wrong ≡ false → (bit_and speed 0x0f ≡ 3) × (bit_and card 3 ≡ 2))
      → Ensures Before
          (if wrong
            then fails device_data_error
            else confirm_registers dev expected control2 power >> confirm_rate control2 speed card)
          (λ u. OnHighSpeed upgrade)
          (λ status. Before)
  checked-OnHighSpeed expected control2 power speed card true bits =
      Ensures-fails device_data_error refl (λ s h. h)
  checked-OnHighSpeed expected control2 power speed card false bits =
      Ensures-after (confirm_registers-Keeps expected control2 power) (λ status s h. h)
        λ u. confirm_rate-OnHighSpeed control2 speed card (bits refl)

  confirm_card-OnHighSpeed :
      (expected control2 power speed card : ℕ)
      → Ensures Before
          (confirm_card dev expected control2 power speed card)
          (λ u. OnHighSpeed upgrade)
          (λ status. Before)
  unfolding confirm_card
  confirm_card-OnHighSpeed expected control2 power speed card =
      checked-OnHighSpeed expected control2 power speed card
        (bit_and speed 0x0f != 3 || bit_and card 3 != 2) (card_confirmed speed card)

  confirm_high_speed-OnHighSpeed :
      (expected control2 power : ℕ)
      → Ensures Before
          (confirm_high_speed dev expected control2 power)
          (λ u. OnHighSpeed upgrade)
          (λ status. Before)
  unfolding confirm_high_speed
  confirm_high_speed-OnHighSpeed expected control2 power =
      search (ensures_rules, cmd52_read-Keeps, Before-Stable, confirm_card-OnHighSpeed) depth 20

  run_high_speed-OnHighSpeed :
      (host control2 power : ℕ)
      → Ensures Before
          (run_high_speed dev host control2 power)
          (λ u. OnHighSpeed upgrade)
          (λ status. Before)
  unfolding run_high_speed
  run_high_speed-OnHighSpeed host control2 power =
      search (ensures_rules, switch_host-Keeps, set_clock-Keeps, confirm_high_speed-OnHighSpeed)
        depth 20

  enable_high_speed-OnHighSpeed :
      (speed control2 power : ℕ)
      → Ensures Before
          (enable_high_speed dev speed control2 power)
          (λ u. OnHighSpeed upgrade)
          (λ status. Before)
  unfolding enable_high_speed
  enable_high_speed-OnHighSpeed speed control2 power =
      search
        (
          ensures_rules, port_rules, cmd52_write-Keeps, refuse_stopped-Keeps, Before-Stable,
          run_high_speed-OnHighSpeed,
        )
        depth 20

  transfer_inhibited-Keeps : Keeps Before (transfer_inhibited dev)
  unfolding transfer_inhibited
  transfer_inhibited-Keeps = search (port_rules, Before-Stable) depth 20

  -- SdioSetHighSpeedBus: an error leaves the mode as it was.
  pub set_high_speed_bus-OnHighSpeed :
      Ensures Before (set_high_speed_bus dev) (λ u. OnHighSpeed upgrade) (λ status. Before)
  unfolding set_high_speed_bus
  set_high_speed_bus-OnHighSpeed =
      search
        (
          ensures_rules, port_rules, cmd52_read-Keeps, transfer_inhibited-Keeps, set_clock-Keeps,
          Before-Stable, enable_high_speed-OnHighSpeed,
        )
        depth 24
