-- ===== src/Prelude/Words.antt =====
-- Machine words as native numbers: the wrap is written out, and shifts are `/` and `*`.
use Prim.Native.Nat.{ℕ, ◌+◌, ◌-◌, ◌*◌, ◌/◌, ◌%◌, ◌^◌}
use mathlib.Core.Bool.{Bool}
use rpi5_wifi_driver_win11ar.Prelude.Tests.{◌==◌, ltb, if◌then◌else◌}

-- ULONG addition and subtraction; `-` on ℕ stops at 0, so the modulus is added first.
abbrev pub add32 : ℕ → ℕ → ℕ
add32 a b = (a + b) % 2 ^ 32

abbrev pub sub32 : ℕ → ℕ → ℕ
sub32 a b = (a + 2 ^ 32 - b) % 2 ^ 32

abbrev pub inc32 : ℕ → ℕ
inc32 a = (a + 1) % 2 ^ 32

-- ULONG64 addition and subtraction.
abbrev pub add64 : ℕ → ℕ → ℕ
add64 a b = (a + b) % 2 ^ 64

abbrev pub sub64 : ℕ → ℕ → ℕ
sub64 a b = (a + 2 ^ 64 - b) % 2 ^ 64

-- The unsigned char difference a - b.
abbrev pub sub8 : ℕ → ℕ → ℕ
sub8 a b = (a + 256 - b) % 256

-- x >> k, x & (2^k - 1), and the test x & (1 << k).
abbrev pub shr : ℕ → ℕ → ℕ
shr x k = x / 2 ^ k

abbrev pub low_bits : ℕ → ℕ → ℕ
low_bits x k = x % 2 ^ k

abbrev pub has_bit : ℕ → ℕ → Bool
has_bit x k = x / 2 ^ k % 2 == 1

-- x & ~(2^k - 1).
abbrev pub clear_low : ℕ → ℕ → ℕ
clear_low x k = x / 2 ^ k * 2 ^ k

-- if(value > high) high = value.
abbrev pub raise : ℕ → ℕ → ℕ
raise high value = if ltb high value then value else high
