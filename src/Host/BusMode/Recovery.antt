-- ===== src/Host/BusMode/Recovery.antt =====
-- What the recoveries of src/sdio/bus_mode.h leave: SdioRestoreIdentificationBus and
-- SdioRestoreDefaultOperatingBus.
use rpi5_wifi_driver_win11ar.Prelude.{
  ℕ, ◌≡◌, refl, ap, Bool, true, false, ◌⊎◌, inl, inr, if◌then◌else◌,
}
use rpi5_wifi_driver_win11ar.Task.{Task}
use rpi5_wifi_driver_win11ar.Task.Rules.{
  IsError, Ensures, Ensures-modify, Ensures-bind, Ensures-noting, Ensures-ignore, Ensures-fails,
  Ensures-on_error, Ensures-weaken,
}
use rpi5_wifi_driver_win11ar.Host.Registers.{Device, Adapter, BusMode, set_mode, set_clocks}
use rpi5_wifi_driver_win11ar.Host.Commands.Keeping.{Stable}
use rpi5_wifi_driver_win11ar.Host.Reads.{read_rules}
use rpi5_wifi_driver_win11ar.Task.Unfailing.{Unfailing, Unfailing-get, Ensures-step}
use rpi5_wifi_driver_win11ar.Host.Commands.Clocking.{HasMode, HasMode-Stable, Runs, set_clock-Runs}
use rpi5_wifi_driver_win11ar.Host.BusMode.{
  forget_bus, restore_identification_bus, recover, voltage_changed, check_voltage, refuse_voltage,
  run_default_bus, fall_back, restore_default_operating_bus, recovered_stage,
}
use rpi5_wifi_driver_win11ar.Host.BusMode.Defaults.{At, Idle, set_default_bus-Runs}

abbrev pub Upgrade : ℕ → BusMode → Type 0
Upgrade upgrade m = m.upgrade_status ≡ upgrade

-- 4 bits at 25 MHz; 1 bit at 400 kHz; a bus whose width is not known.
abbrev pub OnDefault : {D : Type 0} → ℕ → ℕ → Adapter D → Type 0
OnDefault capabilities upgrade s = Runs (Idle 4 4 upgrade) capabilities 25000 s

abbrev pub OnIdentification : {D : Type 0} → ℕ → ℕ → Adapter D → Type 0
OnIdentification capabilities upgrade s = Runs (Idle 90 1 upgrade) capabilities 400 s

abbrev pub BusLost : {D : Type 0} → ℕ → ℕ → Adapter D → Type 0
BusLost capabilities upgrade s = HasMode (Idle 99 0 upgrade) capabilities s

abbrev pub Recovered : {D : Type 0} → ℕ → ℕ → Adapter D → Type 0
Recovered capabilities upgrade s =
    OnIdentification capabilities upgrade s ⊎ BusLost capabilities upgrade s

module _ {D : Type 0} {P : BusMode → Type 0} (Q : BusMode → Type 0) (capabilities : ℕ) where
  forget_bus-HasMode :
      {Bad : ℕ → Adapter D → Type 0}
      → ((m : BusMode) → P m → Q (record m { width = 0 }))
      → Ensures (HasMode {D = D} P capabilities) forget_bus (λ u. HasMode Q capabilities) Bad
  unfolding forget_bus set_mode set_clocks
  forget_bus-HasMode h =
      Ensures-bind
        (Ensures-modify {Good = λ u. HasMode Q capabilities} _ (λ s p. (h s.mode p.0, p.1)))
        λ u. Ensures-modify _ (λ s p. p)

-- What SdioRestoreIdentificationBus leaves, before the stage is set.
abbrev Identified : {D : Type 0} → ℕ → ℕ → ℕ → Adapter D → Type 0
Identified capabilities stage upgrade s =
    Runs (Idle stage 1 upgrade) capabilities 400 s × (s.mode.recovery_status ≡ 0)

abbrev Unidentified : {D : Type 0} → ℕ → ℕ → ℕ → Adapter D → Type 0
Unidentified capabilities stage upgrade s =
    HasMode (Idle stage 0 upgrade) capabilities s × IsError s.mode.recovery_status

module _ {D : Type 0} (dev : Device D) (capabilities stage width upgrade : ℕ) where
  restore_identification_bus-Ends :
      Ensures
        (HasMode (At stage width upgrade) capabilities)
        (restore_identification_bus dev)
        (λ u. Identified capabilities stage upgrade)
        (λ status. Unidentified capabilities stage upgrade)
  unfolding restore_identification_bus
  restore_identification_bus-Ends =
      Ensures-bind
        (forget_bus-HasMode (At stage 0 upgrade) capabilities
          λ m p. let (at, was, up) = p in (at, refl, up))
        λ u.
          Ensures-noting _ (set_default_bus-Runs dev capabilities stage 0 upgrade false)
            (λ a s h. (h, refl)) (λ status s e h. (h, e))

module _ {D : Type 0} (dev : Device D) (capabilities upgrade : ℕ) where
  restore_from :
      Ensures
        (HasMode (Upgrade upgrade) capabilities)
        (restore_identification_bus dev)
        (λ u s. Identified capabilities s.mode.stage upgrade s)
        (λ status s. Unidentified capabilities s.mode.stage upgrade s)
  restore_from = record {
    runs = λ s h.
        (Ensures-weaken
            (λ u t p. let (((off, at, w, up), c), r) = p.0 in ((((off, refl, w, up), c), r), p.1))
            (λ status t p. let ((off, at, w, up), c) = p.0 in (((off, refl, w, up), c), p.1))
            (restore_identification_bus-Ends dev capabilities s.mode.stage s.mode.width
              upgrade)).runs
          s ((refl, refl, h.0), h.1);
  }

  -- The stage tells whether the identification bus was verified, or the width is unknown.
  pub recover-Recovered :
      {Bad : ℕ → Adapter D → Type 0}
      → Ensures
          (HasMode (Upgrade upgrade) capabilities)
          (recover dev)
          (λ u. Recovered capabilities upgrade)
          Bad
  unfolding recover set_mode
  recover-Recovered =
      Ensures-bind
        (Ensures-ignore
          {After = λ s.
            Identified capabilities s.mode.stage upgrade s
            ⊎ Unidentified capabilities s.mode.stage upgrade s}
          restore_from (λ a s h. inl h) (λ status s e h. inr h))
        λ u. Ensures-modify _ λ s h. elim h [
          | inl a ↦
              let (((off, at, w, up), c), r) = a.0 in
              inl (((off, ap recovered_stage a.1, w, up), c), r)
          | inr b ↦
              let ((off, at, w, up), c) = b.0 in
              inr ((off, ap (λ (t : Bool). if t then 90 else 99) b.1, w, up), c)
        ]

  -- The stage and the width before a change of the bus do not matter.
  from_any :
      {m : Task (Adapter D) (Unit {0})} {Good : Unit {0} → Adapter D → Type 0}
      {Bad : ℕ → Adapter D → Type 0}
      → ((stage width : ℕ) → Ensures (HasMode (At stage width upgrade) capabilities) m Good Bad)
      → Ensures (HasMode (Upgrade upgrade) capabilities) m Good Bad
  from_any x = record {
    runs = λ s h. (x s.mode.stage s.mode.width).runs s ((refl, refl, h.0), h.1);
  }

  run_default_bus-OnDefault :
      Ensures
        (HasMode (Upgrade upgrade) capabilities)
        (run_default_bus dev)
        (λ u. OnDefault capabilities upgrade)
        (λ status. HasMode (Upgrade upgrade) capabilities)
  unfolding run_default_bus set_mode
  run_default_bus-OnDefault = from_any λ stage width.
      Ensures-bind
        (Ensures-weaken {Good = λ u. HasMode (Idle stage 4 upgrade) capabilities} (λ u s h. h.0)
          (λ status s h. let ((off, at, w, up), c) = h in (up, c))
          (set_default_bus-Runs dev capabilities stage width upgrade true))
        λ u.
          Ensures-bind
            (Ensures-weaken {Good = λ u. Runs (Idle stage 4 upgrade) capabilities 25000}
              (λ u s h. h) (λ status s h. let ((off, at, w, up), c) = h in (up, c))
              (set_clock-Runs dev (Idle stage 4 upgrade) capabilities 25000))
            λ v.
              Ensures-modify _
                (λ s h. let (((off, at, w, up), c), r) = h in (((off, refl, w, up), c), r))

  refuse_voltage-BusLost :
      {Good : Unit {0} → Adapter D → Type 0} (stage : ℕ)
      → Ensures
          (HasMode (Idle stage 0 upgrade) capabilities)
          (refuse_voltage dev)
          Good
          (λ status. BusLost capabilities upgrade)
  unfolding refuse_voltage set_mode
  refuse_voltage-BusLost stage =
      Ensures-bind
        (Ensures-ignore {After = HasMode (Idle stage 0 upgrade) capabilities}
          (set_clock-Runs dev (Idle stage 0 upgrade) capabilities 400) (λ a s h. h.0)
          (λ status s e h. h))
        λ u.
          Ensures-bind
            (Ensures-modify {Good = λ v. BusLost capabilities upgrade} _
              (λ s h. let ((off, at, w, up), c) = h in ((off, refl, w, up), c)))
            λ v. Ensures-fails _ refl (λ s h. h)

  fall_back-Ends :
      (stage : ℕ) (changed : Bool)
      → Ensures
          (HasMode (Idle stage 0 upgrade) capabilities)
          (fall_back dev changed)
          (λ u. OnDefault capabilities upgrade)
          (λ status. Recovered capabilities upgrade)
  unfolding fall_back
  fall_back-Ends stage true =
      Ensures-weaken (λ u s h. h) (λ status s h. inr h) (refuse_voltage-BusLost stage)
  fall_back-Ends stage false =
      Ensures-on_error
        (record {
          runs = λ s h. let ((off, at, w, up), c) = h in run_default_bus-OnDefault.runs s (up, c);
        })
        λ status e. Ensures-bind recover-Recovered λ u. Ensures-fails status e (λ s h. h)

module _ {D : Type 0} (dev : Device D) {P : Adapter D → Type 0} (kept : Stable P) where
  check_voltage-Unfailing :
      (attempted : Bool) (control2 power : ℕ)
      → Unfailing P (check_voltage dev attempted control2 power)
  unfolding check_voltage voltage_changed
  check_voltage-Unfailing attempted control2 power = search read_rules depth 16

module _ {D : Type 0} (dev : Device D) (capabilities upgrade : ℕ) where
  -- SdioRestoreDefaultOperatingBus: on success 4 bits at 25 MHz.
  pub restore_default_operating_bus-Ends :
      Ensures
        (HasMode (Upgrade upgrade) capabilities)
        (restore_default_operating_bus dev)
        (λ u. OnDefault capabilities upgrade)
        (λ status. Recovered capabilities upgrade)
  unfolding restore_default_operating_bus set_mode
  restore_default_operating_bus-Ends = from_any dev capabilities upgrade λ stage width.
      Ensures-bind
        (Ensures-modify {Good = λ u. HasMode (Idle stage width upgrade) capabilities} _
          (λ s h. let ((at, w, up), c) = h in ((refl, at, w, up), c)))
        λ u.
          Ensures-bind
            (forget_bus-HasMode (Idle stage 0 upgrade) capabilities
              λ m p. let (off, at, w, up) = p in (off, at, refl, up))
            λ v.
              search
                (
                  Ensures-step, Unfailing-get, HasMode-Stable, check_voltage-Unfailing,
                  fall_back-Ends,
                )
                depth 16
