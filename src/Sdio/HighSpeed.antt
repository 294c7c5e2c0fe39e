-- ===== src/Sdio/HighSpeed.antt =====
-- When src/sdio/sdio_protocol.h allows the high-speed mode.
use rpi5_wifi_driver_win11ar.Prelude.{
  ℕ, zero, suc, ◌+◌, ◌*◌, ◌/◌, ◌^◌, ◌≤◌, ◌<◌, ◌≡◌, inl, inr, Bool, ◌&&◌, arith, ltb, leb, ◌==◌,
  ◌!=◌, bit_and,
}
use rpi5_wifi_driver_win11ar.Prelude.Bits.{bit_and_mask}
use rpi5_wifi_driver_win11ar.Sdio.{
  clock_divider, actual_khz, mode_reject, clock_reject, reject_reason, can_use_high_speed,
}
use rpi5_wifi_driver_win11ar.Sdio.Clock.{le-or-lt, clock_divider_lem, clock_divider_least}

-- A base clock above 50 MHz is divided by 2, 4 or 6.
divided_lem :
    (mhz d : ℕ)
    → 50 < mhz
    → mhz ≤ 255
    → 1 ≤ d
    → mhz * 1000 ≤ 100000 * d
    → 100000 * d < mhz * 1000 + 100000
    → (25000 < mhz * 1000 / (2 * d)) × (mhz * 1000 / (2 * d) ≤ 50000)
divided_lem mhz zero a b c e f = absurd (omega arith)
divided_lem mhz (suc zero) a b c e f = omega arith
divided_lem mhz (suc (suc zero)) a b c e f = omega arith
divided_lem mhz (suc (suc (suc zero))) a b c e f = omega arith
divided_lem mhz (suc (suc (suc (suc d)))) a b c e f = absurd (omega arith)

-- What is left of the divider's minimality when the target is 50 MHz.
divider-upper :
    (base d : ℕ)
    → ((k : ℕ) → 1 ≤ k → base ≤ 50000 * (2 * k) → d ≤ k)
    → 50000 < base
    → 1 ≤ d
    → 100000 * d < base + 100000
divider-upper base zero least lt one = omega arith
divider-upper base (suc zero) least lt one = omega arith
divider-upper base (suc (suc d)) least lt one = elim (le-or-lt base (50000 * (2 * suc d))) [
  | inl fits ↦ absurd (omega (arith, least (suc d) (omega arith) fits))
  | inr large ↦ omega (arith, large)
]

slow-actual_khz : (base : ℕ) → base ≤ 50000 → actual_khz base ≡ base
unfolding actual_khz clock_divider
slow-actual_khz base h = ground arith

fast-actual_khz :
    (mhz : ℕ)
    → 50 < mhz
    → mhz ≤ 255
    → (25000 < actual_khz (mhz * 1000)) × (actual_khz (mhz * 1000) ≤ 50000)
unfolding actual_khz
fast-actual_khz mhz lt h =
    let base = mhz * 1000 in
    let bound = clock_divider_lem base 50000 (omega arith) (omega arith) in
    let least = λ (k : ℕ) (p : 1 ≤ k) (q : base ≤ 50000 * (2 * k)).
      clock_divider_least base 50000 k (omega arith) (omega arith) p q in
    let few = least 3 (omega arith) (omega arith) in
    let upper = divider-upper base _ least (omega arith) bound.0 in
    let parts =
      divided_lem mhz (clock_divider base 50000) lt h bound.0 (omega (arith, bound, few)) upper in
    ground (arith, parts, bound.0)

-- With a base clock of `mhz`, up to 255, the high-speed clock is above 25 MHz and at most 50 MHz
-- exactly when the base clock is above 25 MHz.
pub actual_khz_lem :
    (mhz : ℕ)
    → mhz ≤ 255
    → (ltb 25000 (actual_khz (mhz * 1000)) && leb (actual_khz (mhz * 1000)) 50000) ≡ ltb 25 mhz
actual_khz_lem mhz h = elim (le-or-lt mhz 50) [
  | inl slow ↦ ground (arith, slow, slow-actual_khz (mhz * 1000) (omega arith))
  | inr fast ↦ ground (arith, fast, fast-actual_khz mhz fast h)
]

-- The conditions on the host and the card, each a bit field of its register.
abbrev pub mode_allowed : ℕ → ℕ → ℕ → ℕ → ℕ → Bool
mode_allowed host_version capabilities host_control2 cccr_revision card_speed =
    (bit_and host_version 0xff == 2)
    && (bit_and capabilities 0x200000 != 0
        && (bit_and capabilities 0xff00 != 0
            && (bit_and host_control2 0x90cf == 0
                && (leb 2 (bit_and cccr_revision 15)
                    && (leb (bit_and cccr_revision 15) 3
                        && (bit_and card_speed 1 != 0 && bit_and card_speed 14 == 0))))))

mode_reject_lem :
    (hv cap hc cr cs : ℕ) → (mode_reject hv cap hc cr cs == 0) ≡ mode_allowed hv cap hc cr cs
unfolding mode_reject
mode_reject_lem hv cap hc cr cs = ground arith

clock_reject_lem : (cap : ℕ) → (clock_reject cap == 0) ≡ ltb 25 (bit_and (cap / 2 ^ 8) 255)
unfolding clock_reject
clock_reject_lem cap =
    ground (arith, actual_khz_lem (bit_and (cap / 2 ^ 8) 255), bit_and_mask 8 (cap / 2 ^ 8))

-- The high-speed mode is allowed exactly when the host is of version 3.00 and capable, in no newer
-- mode, the card is of CCCR revision 2 or 3 and capable, in no other mode, and the base clock in
-- the capabilities is above 25 MHz: then a divider that gives more than 25 and at most 50 MHz
-- always exists.
pub can_use_high_speed_lem :
    (host_version capabilities host_control2 cccr_revision card_speed : ℕ)
    → can_use_high_speed host_version capabilities host_control2 cccr_revision card_speed ≡ (
        mode_allowed host_version capabilities host_control2 cccr_revision card_speed
        && ltb 25 (bit_and (capabilities / 2 ^ 8) 255))
unfolding can_use_high_speed reject_reason
can_use_high_speed_lem hv cap hc cr cs =
    ground (arith, mode_reject_lem hv cap hc cr cs, clock_reject_lem cap)
