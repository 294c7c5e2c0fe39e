-- ===== src/Host/Commands/Clocking.antt =====
-- What SdioSetClock of src/sdio/sdio.c leaves.
use rpi5_wifi_driver_win11ar.Prelude.{ℕ, zero, suc, ◌≡◌, refl, ap}
use rpi5_wifi_driver_win11ar.Task.Rules.{
  Ensures, Keeps, Keeps-modify, Keeps-weaken, ensures_rules, Ensures-modify, Ensures-get,
}
use rpi5_wifi_driver_win11ar.Host.Registers.{Device, Adapter, BusMode, set_clocks, set_copies}
use rpi5_wifi_driver_win11ar.Host.Commands.{
  settle_clock, enable_clock, start_clock, start_from_base, set_clock, clock_rate, base_clock_khz,
  divider_for,
}
use rpi5_wifi_driver_win11ar.Host.Commands.Keeping.{Stable, port_rules}

module _ {D : Type 0} (dev : Device D) {P : Adapter D → Type 0} (kept : Stable P) where
  settle_clock-Keeps : (n : ℕ) → Keeps P (settle_clock dev n)
  unfolding settle_clock
  settle_clock-Keeps zero = search port_rules
  settle_clock-Keeps (suc n) = search (port_rules, λ (u : Unit {0}). settle_clock-Keeps n) depth 16

-- The mode has `P`, and the capabilities are these.
abbrev pub HasMode : {D : Type 0} → (BusMode → Type 0) → ℕ → Adapter D → Type 0
HasMode P capabilities s = P s.mode × (s.copies.capabilities ≡ capabilities)

pub HasMode-Stable :
    {D : Type 0} (P : BusMode → Type 0) (capabilities : ℕ) → Stable (HasMode {D = D} P capabilities)
HasMode-Stable P capabilities = record { stable = λ s device last window blocks h. h }

-- The mode is as before, and the clock runs for a target at the rate of its divider.
abbrev pub Runs : {D : Type 0} → (BusMode → Type 0) → ℕ → ℕ → Adapter D → Type 0
Runs P capabilities target s =
    let base = base_clock_khz capabilities in
    HasMode P capabilities s
    × (s.clock
        ≡ record { target_khz = target; actual_khz = clock_rate base (divider_for base target) })

module _ {D : Type 0} (dev : Device D) (P : BusMode → Type 0) (capabilities : ℕ) where
  abbrev Clocked : ℕ → ℕ → Adapter D → Type 0
  Clocked target rate s =
      HasMode P capabilities s × (s.clock ≡ record { target_khz = target; actual_khz = rate })

  control_Keeps :
      (found : ℕ)
      → Keeps (HasMode {D = D} P capabilities) (set_copies λ c. record c { clock_control = found })
  unfolding set_copies
  control_Keeps found = Keeps-modify _ (λ s h. h)

  set_clocks-Clocked :
      (target rate : ℕ)
      → Ensures
          (HasMode {D = D} P capabilities)
          (set_clocks λ c. record c { target_khz = target; actual_khz = rate })
          (λ u. Clocked target rate)
          (λ status. HasMode P capabilities)
  unfolding set_clocks
  set_clocks-Clocked target rate = Ensures-modify _ (λ s h. (h, refl))

  enable_clock-Clocked :
      (base divider target value : ℕ)
      → Ensures
          (HasMode P capabilities)
          (enable_clock dev base divider target value)
          (λ u. Clocked target (clock_rate base divider))
          (λ status. HasMode P capabilities)
  unfolding enable_clock
  enable_clock-Clocked base divider target value =
      search
        (
          ensures_rules,
          port_rules,
          HasMode-Stable P capabilities,
          control_Keeps,
          set_clocks-Clocked,
        )
        depth 16

  start_clock-Clocked :
      (base divider target : ℕ)
      → Ensures
          (HasMode P capabilities)
          (start_clock dev base divider target)
          (λ u. Clocked target (clock_rate base divider))
          (λ status. HasMode P capabilities)
  unfolding start_clock
  start_clock-Clocked base divider target =
      search
        (
          ensures_rules,
          port_rules,
          HasMode-Stable P capabilities,
          settle_clock-Keeps,
          enable_clock-Clocked,
        )
        depth 16

  start_from_base-Runs :
      (target : ℕ)
      → Ensures
          (HasMode P capabilities)
          (start_from_base dev target)
          (λ u. Runs P capabilities target)
          (λ status. HasMode P capabilities)
  unfolding start_from_base
  start_from_base-Runs target =
      Ensures-get _ (base_clock_khz capabilities) _ (λ s h. ap base_clock_khz h.1)
        (start_clock-Clocked _ _ _)

  -- On success the clock runs for the target; a failure leaves the mode alone.
  pub set_clock-Runs :
      (target : ℕ)
      → Ensures
          (HasMode P capabilities)
          (set_clock dev target)
          (λ u. Runs P capabilities target)
          (λ status. HasMode P capabilities)
  unfolding set_clock
  set_clock-Runs target =
      search (ensures_rules, port_rules, HasMode-Stable P capabilities, start_from_base-Runs) depth
        16

  pub set_clock-Keeps : (target : ℕ) → Keeps (HasMode P capabilities) (set_clock dev target)
  set_clock-Keeps target = Keeps-weaken (λ u s h. h.0) (set_clock-Runs target)
