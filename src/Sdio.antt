-- ===== src/Sdio.antt =====
-- src/sdio/sdio_protocol.h: the arguments and responses of SDIO commands, the clock divider, and the
-- conditions of the high-speed mode.
pub mod Arguments
pub mod Clock
pub mod HighSpeed
mod Tests
use rpi5_wifi_driver_win11ar.Prelude.{
  ℕ, zero, suc, ◌+◌, ◌-◌, ◌*◌, ◌/◌, ◌%◌, ◌^◌, Bool, true, false, not, ◌&&◌, ◌||◌, ltb, leb, ◌==◌,
  ◌!=◌, if◌then◌else◌, bit_and, bit_or,
}

-- SdioIsValidByteRead.
unfoldable pub is_valid_byte_read : ℕ → ℕ → ℕ → Bool
is_valid_byte_read function address length =
    leb 1 function
    && (leb function 7
        && (leb 1 length
            && (leb length 512 && (leb address 0x1ffff && leb (length - 1) (0x1ffff - address)))))

-- SdioLoadLe32, of four bytes.
unfoldable pub load_le32 : ℕ → ℕ → ℕ → ℕ → ℕ
load_le32 b0 b1 b2 b3 = bit_or (bit_or (bit_or b0 (b1 * 2 ^ 8)) (b2 * 2 ^ 16)) (b3 * 2 ^ 24)

-- SdioBuildCmd52Argument.
unfoldable pub cmd52_argument : Bool → ℕ → Bool → ℕ → ℕ → ℕ
cmd52_argument write function raw address value =
    bit_or
      (bit_or
        (bit_or (bit_or (if write then 2 ^ 31 else 0) (bit_and function 7 * 2 ^ 28))
          (if raw then 2 ^ 27 else 0))
        (bit_and address 0x1ffff * 2 ^ 9))
      value

-- SdioBuildCmd53Argument.
unfoldable pub cmd53_argument : Bool → ℕ → Bool → Bool → ℕ → ℕ → ℕ
cmd53_argument write function block_mode increment address count =
    bit_or
      (bit_or
        (bit_or
          (bit_or (bit_or (if write then 2 ^ 31 else 0) (bit_and function 7 * 2 ^ 28))
            (if block_mode then 2 ^ 27 else 0))
          (if increment then 2 ^ 26 else 0))
        (bit_and address 0x1ffff * 2 ^ 9))
      (bit_and count 0x1ff)

-- SdioR5HasError, SdioR4HasBasicInfo and SdioR4IsReady.
unfoldable pub r5_has_error : ℕ → Bool
r5_has_error response = bit_and response 0xcb00 != 0

unfoldable pub r4_has_basic_info : ℕ → Bool
r4_has_basic_info response = bit_and response 0x70000000 != 0 && bit_and response 0xff8000 != 0

unfoldable pub r4_is_ready : ℕ → Bool
r4_is_ready response = r4_has_basic_info response && bit_and response 0x80000000 != 0

-- SdioGetCmd5CycleClockKhz.
unfoldable pub cmd5_cycle_clock_khz : ℕ → ℕ
cmd5_cycle_clock_khz cycle =
    let index = cycle / 3 in
    if leb 3 index then 0 else if index == 0 then 400 else if index == 1 then 200 else 100

-- The loop of SdioCalculateClockDivider; it tries 1022 divisors at most.
unfoldable pub real_divisor : ℕ → ℕ → ℕ → ℕ → ℕ
real_divisor zero base target divisor = divisor
real_divisor (suc fuel) base target divisor =
    let later = real_divisor fuel base target (divisor + 2) in
    if ltb divisor 2046 then (if leb base (target * divisor) then divisor else later) else divisor

-- SdioCalculateClockDivider.
unfoldable pub clock_divider : ℕ → ℕ → ℕ
clock_divider base target =
    let found = real_divisor 1022 base target 2 in
    if base == 0 || (target == 0 || leb base target)
    then 0
    else (if leb 2046 found then 2046 else found) / 2

-- SdioHighSpeedRejectReason: the reasons that need no clock, and the clock's.
unfoldable pub mode_reject : ℕ → ℕ → ℕ → ℕ → ℕ → ℕ
mode_reject host_version capabilities host_control2 cccr_revision card_speed =
    let a = if bit_and host_version 0xff != 2 then 0x01 else 0 in
    let b = if bit_and capabilities 0x200000 == 0 then bit_or a 0x02 else a in
    let c = if bit_and capabilities 0xff00 == 0 then bit_or b 0x04 else b in
    let d = if bit_and host_control2 0x90cf != 0 then bit_or c 0x08 else c in
    let e =
      if ltb (bit_and cccr_revision 15) 2 || ltb 3 (bit_and cccr_revision 15)
      then bit_or d 0x10
      else d in
    let f = if bit_and card_speed 1 == 0 then bit_or e 0x20 else e in
    if bit_and card_speed 14 != 0 then bit_or f 0x40 else f

-- The clock that a base clock gives under the limit of 50 MHz.
unfoldable pub actual_khz : ℕ → ℕ
actual_khz base =
    let divider = clock_divider base 50000 in if divider != 0 then base / (2 * divider) else base

unfoldable pub clock_reject : ℕ → ℕ
clock_reject capabilities =
    let actual = actual_khz (bit_and (capabilities / 2 ^ 8) 255 * 1000) in
    if ltb 25000 actual && leb actual 50000 then 0 else 0x80

unfoldable pub reject_reason : ℕ → ℕ → ℕ → ℕ → ℕ → ℕ
reject_reason host_version capabilities host_control2 cccr_revision card_speed =
    let reason = mode_reject host_version capabilities host_control2 cccr_revision card_speed in
    if reason != 0 then reason else clock_reject capabilities

-- SdioCanUseHighSpeed.
unfoldable pub can_use_high_speed : ℕ → ℕ → ℕ → ℕ → ℕ → Bool
can_use_high_speed host_version capabilities host_control2 cccr_revision card_speed =
    reject_reason host_version capabilities host_control2 cccr_revision card_speed == 0
