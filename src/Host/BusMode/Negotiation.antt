-- ===== src/Host/BusMode/Negotiation.antt =====
-- SdioNegotiateOperatingSpeed of src/sdio/bus_mode.h: the states in which it can end.
use rpi5_wifi_driver_win11ar.Prelude.{
  ℕ, ◌≡◌, refl, Bool, true, false, ◌⊎◌, inl, inr, ◌!=◌, if◌then◌else◌,
}
use rpi5_wifi_driver_win11ar.Task.{pure}
use rpi5_wifi_driver_win11ar.Task.Rules.{
  IsError, Ends, Ensures, Keeps, Ensures-modify, Ensures-bind, Ensures-after, Ensures-fails,
  Ensures-pure, Ensures-weaken, Ensures-on_error, Ensures-noting,
}
use rpi5_wifi_driver_win11ar.Task.Unfailing.{Unfailing, Unfailing-modify, Ensures-step}
use rpi5_wifi_driver_win11ar.Host.Registers.{Device, Adapter, set_mode, set_copies}
use rpi5_wifi_driver_win11ar.Host.Reads.{read_rules}
use rpi5_wifi_driver_win11ar.Host.Commands.Keeping.{Stable, port_rules, cmd52_read-Keeps}
use rpi5_wifi_driver_win11ar.Host.Commands.Clocking.{HasMode, HasMode-Stable, set_clock-Runs}
use rpi5_wifi_driver_win11ar.Host.BusMode.{
  check_caps, reach_operating_speed, attempt_high_speed, try_high_speed, read_reject_reason,
  note_reject_reason, begin_negotiation, upgrade_failed, negotiate_operating_speed,
}
use rpi5_wifi_driver_win11ar.Host.BusMode.Defaults.{
  At, Idle, refuse_stopped-Keeps, set_default_bus-Runs,
}
use rpi5_wifi_driver_win11ar.Host.BusMode.Recovery.{
  Upgrade, OnDefault, Recovered, recover-Recovered, restore_default_operating_bus-Ends,
}
use rpi5_wifi_driver_win11ar.Host.BusMode.HighSpeed.{OnHighSpeed, set_high_speed_bus-OnHighSpeed}

-- The bus after a successful negotiation.
abbrev pub OnBus : {D : Type 0} → ℕ → ℕ → Adapter D → Type 0
OnBus capabilities upgrade s = OnDefault capabilities upgrade s ⊎ OnHighSpeed upgrade s

module _ {D : Type 0} (dev : Device D) {P : Adapter D → Type 0} (kept : Stable P) where
  check_caps-Keeps : Keeps P (check_caps dev)
  unfolding check_caps
  check_caps-Keeps = search (port_rules, refuse_stopped-Keeps, cmd52_read-Keeps) depth 20

module _ {D : Type 0} (dev : Device D) (capabilities upgrade : ℕ) where
  Idle-Upgrade :
      (stage width status : ℕ) (s : Adapter D)
      → HasMode (Idle stage width upgrade) capabilities s
      → HasMode (Upgrade upgrade) capabilities s
  Idle-Upgrade stage width status s ((off, at, w, up), c) = (up, c)

  reach_operating_speed-OnDefault :
      (stage width : ℕ)
      → Ensures
          (HasMode (At stage width upgrade) capabilities)
          (reach_operating_speed dev)
          (λ u. OnDefault capabilities upgrade)
          (λ status. HasMode (Upgrade upgrade) capabilities)
  unfolding reach_operating_speed set_mode
  reach_operating_speed-OnDefault stage width =
      Ensures-after (check_caps-Keeps dev (HasMode-Stable _ capabilities))
        (λ status s h. let ((at, w, up), c) = h in (up, c))
        λ u.
          Ensures-bind
            (Ensures-modify {Good = λ u. HasMode (At 3 width upgrade) capabilities} _
              (λ s h. let ((at, w, up), c) = h in ((refl, w, up), c)))
            λ v.
              Ensures-bind
                (Ensures-weaken {Good = λ u. HasMode (Idle 3 4 upgrade) capabilities} (λ u s h. h.0)
                  (Idle-Upgrade 3 width)
                  (set_default_bus-Runs dev capabilities 3 width upgrade true))
                λ w.
                  Ensures-bind
                    (Ensures-modify {Good = λ u. HasMode (Idle 4 4 upgrade) capabilities} _
                      (λ s h. let ((off, at, w, up), c) = h in ((off, refl, w, up), c)))
                    λ x.
                      Ensures-weaken (λ u s h. h) (Idle-Upgrade 4 4)
                        (set_clock-Runs dev (Idle 4 4 upgrade) capabilities 25000)

  upgrade_failed-Recovered :
      (status : ℕ) {Good : Unit {0} → Adapter D → Type 0}
      → IsError status
      → Ensures
          (HasMode (Upgrade upgrade) capabilities)
          (upgrade_failed dev status)
          Good
          (Recovered capabilities)
  unfolding upgrade_failed set_mode
  upgrade_failed-Recovered status e =
      Ensures-bind
        (Ensures-bind
          (Ensures-modify {Good = λ u. HasMode (Upgrade status) capabilities} _
            (λ s h. (refl, h.1)))
          λ u. recover-Recovered dev capabilities status)
        λ v. Ensures-fails status e (λ s h. h)

  attempt_high_speed-OnHighSpeed :
      Ensures
        (HasMode (Idle 4 4 upgrade) capabilities)
        (attempt_high_speed dev)
        (λ u. OnHighSpeed upgrade)
        (λ status. HasMode (Upgrade upgrade) capabilities)
  unfolding attempt_high_speed set_mode
  attempt_high_speed-OnHighSpeed =
      Ensures-bind
        (Ensures-modify {Good = λ u. HasMode (Idle 4 4 upgrade) capabilities} _ (λ s h. h))
        λ u.
          Ensures-noting _ (set_high_speed_bus-OnHighSpeed dev capabilities upgrade) (λ a s h. h)
            (λ status s e h. Idle-Upgrade 4 4 status s h)

  try_high_speed-OnBus :
      Ensures
        (HasMode (Idle 4 4 upgrade) capabilities)
        (try_high_speed dev)
        (λ u. OnBus capabilities upgrade)
        (Recovered capabilities)
  unfolding try_high_speed set_mode
  try_high_speed-OnBus =
      Ensures-on_error
        (Ensures-weaken (λ u s h. inr h) (λ status s h. h) attempt_high_speed-OnHighSpeed)
        λ status e.
          Ensures-on_error
            (Ensures-weaken (λ u s h. inl h) (λ failure s h. h)
              (restore_default_operating_bus-Ends dev capabilities upgrade))
            λ failure f.
              Ensures-bind
                (Ensures-modify {Good = λ u. Recovered capabilities failure} _ (λ s h. elim h [
                  | inl a ↦ let (((off, at, w, up), c), r) = a in inl (((off, at, w, refl), c), r)
                  | inr b ↦ let ((off, at, w, up), c) = b in inr ((off, at, w, refl), c)
                ]))
                λ v. Ensures-fails failure f (λ s h. h)

module _ {D : Type 0} (dev : Device D) (capabilities : ℕ) where
  default_Stable : Stable (OnDefault {D = D} capabilities 0)
  default_Stable = record { stable = λ s device last window blocks h. h }

  note_control2_Unfailing :
      (found : ℕ)
      → Unfailing
          (OnDefault {D = D} capabilities 0)
          (set_copies λ c. record c { host_control2 = found })
  unfolding set_copies
  note_control2_Unfailing found = Unfailing-modify _ (λ s h. h)

  note_power_Unfailing :
      (found : ℕ)
      → Unfailing
          (OnDefault {D = D} capabilities 0)
          (set_copies λ c. record c { power_control = found })
  unfolding set_copies
  note_power_Unfailing found = Unfailing-modify _ (λ s h. h)

  note_mask_Unfailing :
      (mask : ℕ)
      → Unfailing
          (OnDefault {D = D} capabilities 0)
          (set_mode λ m. record m { high_speed_reject_mask = mask })
  unfolding set_mode
  note_mask_Unfailing mask = Unfailing-modify _ (λ s h. h)

  keep_default :
      (a : ℕ)
      → Ensures
          (OnDefault {D = D} capabilities 0)
          (pure a)
          (λ r. OnDefault capabilities 0)
          (Recovered capabilities)
  keep_default a = Ensures-pure a (λ s h. h)

  read_reject_reason-OnDefault :
      Ensures
        (OnDefault capabilities 0)
        (read_reject_reason dev)
        (λ reason. OnDefault capabilities 0)
        (Recovered capabilities)
  unfolding read_reject_reason
  read_reject_reason-OnDefault =
      search
        (
          Ensures-step, read_rules, default_Stable, note_control2_Unfailing, note_power_Unfailing,
          note_mask_Unfailing, keep_default,
        )
        depth 24

  note_reject_reason-OnDefault :
      (upgrade : ℕ)
      → Ensures
          (OnDefault capabilities upgrade)
          (note_reject_reason dev)
          (λ reason. OnDefault capabilities 0)
          (Recovered capabilities)
  unfolding note_reject_reason set_mode
  note_reject_reason-OnDefault upgrade =
      Ensures-bind
        (Ensures-modify {Good = λ u. OnDefault capabilities 0} _
          (λ s h. let (((off, at, w, up), c), r) = h in (((off, at, w, refl), c), r)))
        λ u. read_reject_reason-OnDefault

  settle-OnBus :
      (rejected : Bool)
      → Ensures
          (OnDefault capabilities 0)
          (if rejected then pure tt else try_high_speed dev)
          (λ u. OnBus capabilities 0)
          (Recovered capabilities)
  settle-OnBus true = Ensures-pure tt (λ s h. inl h)
  settle-OnBus false = record { runs = λ s h. (try_high_speed-OnBus dev capabilities 0).runs s h.0 }

  negotiation :
      (width upgrade : ℕ)
      → Ensures
          (λ s.
            (s.copies.capabilities ≡ capabilities)
            × (s.mode.width ≡ width)
            × (s.mode.upgrade_status ≡ upgrade))
          (negotiate_operating_speed dev)
          (λ u. OnBus capabilities 0)
          (Recovered capabilities)
  unfolding negotiate_operating_speed begin_negotiation set_mode
  negotiation width upgrade =
      Ensures-bind
        (Ensures-modify {Good = λ u. HasMode (At 2 width upgrade) capabilities} _
          (λ s h. ((refl, h.1, h.2), h.0)))
        λ u.
          Ensures-bind
            (Ensures-on_error (reach_operating_speed-OnDefault dev capabilities upgrade 2 width)
              λ status e. upgrade_failed-Recovered dev capabilities upgrade status e)
            λ v.
              Ensures-bind (note_reject_reason-OnDefault upgrade)
                λ reason. settle-OnBus (reason != 0)

-- Whatever the device answers, a successful negotiation ends on 4 bits at 25 MHz with high speed
-- off, or on 4 bits above 25 MHz and at most 50 MHz with the card's high-speed bits read back; a
-- failure has an error status, which the upgrade status repeats, and ends with high speed off,
-- either at stage 90 on 1 bit at 400 kHz or at stage 99 with the width unknown.
pub negotiate_operating_speed-Ends :
    {D : Type 0} (dev : Device D) (s : Adapter D)
    → Ends
        (λ u. OnBus s.copies.capabilities 0)
        (Recovered s.copies.capabilities)
        (negotiate_operating_speed dev s)
negotiate_operating_speed-Ends dev s =
    (negotiation dev s.copies.capabilities s.mode.width s.mode.upgrade_status).runs s
      (refl, refl, refl)
