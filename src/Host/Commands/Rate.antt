-- ===== src/Host/Commands/Rate.antt =====
-- The rate at which SdioSetClock of src/sdio/sdio.c runs the bus.
use rpi5_wifi_driver_win11ar.Prelude.{
  ℕ, ◌*◌, ◌/◌, ◌%◌, ◌^◌, ◌≤◌, ◌<◌, ◌≡◌, refl, ap, ◌∙◌, inl, inr, bit_and, arith,
}
use rpi5_wifi_driver_win11ar.Prelude.Bits.{bit_and-div, bit_and_mask}
use rpi5_wifi_driver_win11ar.Task.Rules.{Ends, Ensures-weaken}
use rpi5_wifi_driver_win11ar.Sdio.{clock_divider}
use rpi5_wifi_driver_win11ar.Sdio.Clock.{le-or-lt, clock_divider_lem}
use rpi5_wifi_driver_win11ar.Host.Registers.{Device, Adapter}
use rpi5_wifi_driver_win11ar.Host.Commands.{base_clock_khz, divider_for, clock_rate, set_clock}
use rpi5_wifi_driver_win11ar.Host.Commands.Clocking.{set_clock-Runs}

base_clock_khz_bounds :
    (capabilities : ℕ)
    → (1000 ≤ base_clock_khz capabilities) × (base_clock_khz capabilities ≤ 255000)
unfolding base_clock_khz
base_clock_khz_bounds capabilities =
    let e : bit_and capabilities 0xff00 / 2 ^ 8 ≡ capabilities / 2 ^ 8 % 2 ^ 8 =
      bit_and-div 8 capabilities 0xff00 ∙ bit_and_mask 8 (capabilities / 2 ^ 8) in
    ground (arith, e)

div_le : (a t m : ℕ) → 0 < m → a ≤ t * m → a / m ≤ t
div_le a t m pos h = grind arith

slow_divider : (base target : ℕ) → base ≤ target → divider_for base target ≡ 0
unfolding divider_for clock_divider
slow_divider base target h = ground arith

fast_divider :
    (base target : ℕ)
    → 0 < target
    → target < base
    → divider_for base target ≡ clock_divider base target
unfolding divider_for
fast_divider base target pos h = ground (arith, (clock_divider_lem base target pos h).1)

divided_rate : (base target d : ℕ) → 1 ≤ d → base ≤ target * (2 * d) → clock_rate base d ≤ target
unfolding clock_rate
divided_rate base target d lo fits = ground (arith, div_le base target (2 * d) (omega arith) fits)

-- A base clock of at most 255 MHz comes down to any target of 125 kHz or more.
rate-le :
    (base target : ℕ)
    → base ≤ 255000
    → 125 ≤ target
    → clock_rate base (divider_for base target) ≤ target
unfolding clock_rate
rate-le base target small h = elim (le-or-lt base target) [
  | inl slow ↦ rw (slow_divider base target slow) slow
  | inr fast ↦
      let (lo, hi, fits) = clock_divider_lem base target (omega arith) fast in
      rw (fast_divider base target (omega arith) fast) (
        divided_rate base target (clock_divider base target) lo
          (elim fits [ inl within ↦ within | inr last ↦ rw last (omega (arith, small, h)) ]))
]

-- SdioSetClock for a target of 125 kHz or more, whatever the device answers: on success the target is
-- recorded, and the recorded rate is at most the target; the capabilities and the mode
-- are as before in any case, and a failure has an error status.
pub set_clock-le :
    {D : Type 0} (dev : Device D) (s : Adapter D) (target : ℕ)
    → 125 ≤ target
    → Ends
        (λ u t.
          (t.clock.target_khz ≡ target)
          × (t.clock.actual_khz ≤ target)
          × (t.mode ≡ s.mode)
          × (t.copies.capabilities ≡ s.copies.capabilities))
        (λ status t. (t.mode ≡ s.mode) × (t.copies.capabilities ≡ s.copies.capabilities))
        (set_clock dev target s)
set_clock-le dev s target h =
    (Ensures-weaken
        (λ u t r.
          let ((m, c), clock) = r in
          (
            ap (λ k. k.target_khz) clock,
            rw clock (
                rate-le (base_clock_khz s.copies.capabilities) target
                  (base_clock_khz_bounds s.copies.capabilities).1 h),
            m,
            c,
          ))
        (λ status t r. r) (set_clock-Runs dev (λ m. m ≡ s.mode) s.copies.capabilities target)).runs
      s (refl, refl)
