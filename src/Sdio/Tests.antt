-- ===== src/Sdio/Tests.antt =====
-- The SDIO protocol of src/sdio/sdio_protocol.h at concrete commands and clocks.
use rpi5_wifi_driver_win11ar.Prelude.{
  ◌+◌, ◌*◌, ◌/◌, ◌%◌, ◌^◌, ◌≤◌, ◌≡◌, ◌⊎◌, refl, true, false, ◌&&◌, arith, ltb, ◌==◌, if◌then◌else◌,
  bit_and,
}
use rpi5_wifi_driver_win11ar.Sdio.{
  cmd52_argument, cmd53_argument, is_valid_byte_read, clock_divider, can_use_high_speed,
}
use rpi5_wifi_driver_win11ar.Sdio.Arguments.{flag, cmd52_fields, cmd53_byte_read}
use rpi5_wifi_driver_win11ar.Sdio.Clock.{clock_divider_lem, clock_divider_least}
use rpi5_wifi_driver_win11ar.Sdio.HighSpeed.{mode_allowed, can_use_high_speed_lem}

cmd52_fields_example :
    let argument = cmd52_argument true 1 false 0x1000e 0x28 in
    (argument / 2 ^ 31 ≡ flag true)
    × (argument / 2 ^ 28 % 8 ≡ 1 % 8)
    × (argument / 2 ^ 27 % 2 ≡ flag false)
    × (argument / 2 ^ 9 % 2 ^ 17 ≡ 0x1000e % 2 ^ 17)
    × (argument % 2 ^ 8 ≡ 0x28)
cmd52_fields_example = cmd52_fields true 1 false 0x1000e 0x28 (omega arith)

cmd53_byte_read_example :
    let argument = cmd53_argument false 2 false true 0x8000 512 in
    (argument / 2 ^ 28 ≡ 2)
    × (argument / 2 ^ 26 % 4 ≡ 1)
    × (argument / 2 ^ 9 % 2 ^ 17 ≡ 0x8000)
    × ((if argument % 2 ^ 9 == 0 then 512 else argument % 2 ^ 9) ≡ 512)
    × (0x8000 + 512 ≤ 2 ^ 17)
unfolding is_valid_byte_read
cmd53_byte_read_example = cmd53_byte_read 2 0x8000 512 refl

clock_divider_lem_example :
    (1 ≤ clock_divider 200000 50000)
    × (clock_divider 200000 50000 ≤ 1023)
    × ((200000 ≤ 50000 * (2 * clock_divider 200000 50000)) ⊎ (clock_divider 200000 50000 ≡ 1023))
clock_divider_lem_example = clock_divider_lem 200000 50000 (omega arith) (omega arith)

clock_divider_least_example : clock_divider 200000 50000 ≤ 2
clock_divider_least_example =
    clock_divider_least 200000 50000 2 (omega arith) (omega arith) (omega arith) (omega arith)

can_use_high_speed_lem_example :
    can_use_high_speed 0x1002 0x20c800 0 0x43 1
    ≡ (mode_allowed 0x1002 0x20c800 0 0x43 1 && ltb 25 (bit_and (0x20c800 / 2 ^ 8) 255))
can_use_high_speed_lem_example = can_use_high_speed_lem 0x1002 0x20c800 0 0x43 1
