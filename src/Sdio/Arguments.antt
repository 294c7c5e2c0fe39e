-- ===== src/Sdio/Arguments.antt =====
-- The command arguments of src/sdio/sdio_protocol.h: a device that cuts the fields out of an argument
-- finds what the host put in.
use rpi5_wifi_driver_win11ar.Prelude.{
  ℕ, ◌+◌, ◌*◌, ◌/◌, ◌%◌, ◌^◌, ◌≤◌, ◌<◌, ◌≡◌, refl, sym, ap, ◌∙◌, Bool, true, false, arith, ◌==◌,
  if◌then◌else◌, bit_or,
}
use rpi5_wifi_driver_win11ar.Prelude.Bits.{add-bit_or, bit_or-add, bit_and_mask}
use rpi5_wifi_driver_win11ar.Sdio.{is_valid_byte_read, load_le32, cmd52_argument, cmd53_argument}

abbrev pub flag : Bool → ℕ
flag b = if b then 1 else 0

-- Two fields side by side are joined by addition.
or_fields :
    (k high low : ℕ) {word : ℕ} → word ≡ high * 2 ^ k → low < 2 ^ k → bit_or word low ≡ word + low
or_fields k high low {word} e h =
    ap (λ w. bit_or w low) e ∙ bit_or-add k high low h ∙ ap (λ w. w + low) (sym e)

flag-bit : (b : Bool) (n : ℕ) → (if b then n else 0) ≡ flag b * n
flag-bit true n = omega arith
flag-bit false n = omega arith

flag-le : (b : Bool) → flag b ≤ 1
flag-le true = omega arith
flag-le false = omega arith

join52 :
    (w f r a v : ℕ)
    → f < 8
    → r ≤ 1
    → a < 2 ^ 17
    → v < 256
    → bit_or (bit_or (bit_or (bit_or (w * 2 ^ 31) (f * 2 ^ 28)) (r * 2 ^ 27)) (a * 2 ^ 9)) v
      ≡ w * 2 ^ 31 + f * 2 ^ 28 + r * 2 ^ 27 + a * 2 ^ 9 + v
join52 w f r a v lf lr la lv =
    let s1 = or_fields 31 w (f * 2 ^ 28) refl (omega arith) in
    let s2 =
      or_fields 28 (w * 8 + f) (r * 2 ^ 27) {word = w * 2 ^ 31 + f * 2 ^ 28} (omega arith)
        (omega arith) in
    let s3 =
      or_fields 27 (w * 16 + f * 2 + r) (a * 2 ^ 9) {word = w * 2 ^ 31 + f * 2 ^ 28 + r * 2 ^ 27}
        (omega arith) (omega arith) in
    let s4 =
      or_fields 9 (w * 2 ^ 22 + f * 2 ^ 19 + r * 2 ^ 18 + a) v
        {word = w * 2 ^ 31 + f * 2 ^ 28 + r * 2 ^ 27 + a * 2 ^ 9} (omega arith) (omega arith) in
    rw (s1, s2, s3) s4

-- The fields of the argument of CMD52 are the direction, the function modulo 8, the read-after-write
-- flag, the low 17 bits of the address and the data byte: a device that shifts and masks them out
-- of the argument finds exactly these.
pub cmd52_fields :
    (write : Bool) (function : ℕ) (raw : Bool) (address value : ℕ)
    → value < 256
    → let argument = cmd52_argument write function raw address value in
      (argument / 2 ^ 31 ≡ flag write)
      × (argument / 2 ^ 28 % 8 ≡ function % 8)
      × (argument / 2 ^ 27 % 2 ≡ flag raw)
      × (argument / 2 ^ 9 % 2 ^ 17 ≡ address % 2 ^ 17)
      × (argument % 2 ^ 8 ≡ value)
unfolding cmd52_argument
cmd52_fields write function raw address value h =
    rw
      (
        flag-bit write (2 ^ 31),
        flag-bit raw (2 ^ 27),
        bit_and_mask 3 function,
        bit_and_mask 17 address,
      )
      (omega (
        arith,
        join52 (flag write) (function % 8) (flag raw) (address % 2 ^ 17) value (omega arith)
            (flag-le raw) (omega arith) h,
        flag-le write,
        flag-le raw,
      ))

join53 :
    (w f b i a c : ℕ)
    → f < 8
    → b ≤ 1
    → i ≤ 1
    → a < 2 ^ 17
    → c < 2 ^ 9
    → bit_or
        (bit_or
          (bit_or (bit_or (bit_or (w * 2 ^ 31) (f * 2 ^ 28)) (b * 2 ^ 27)) (i * 2 ^ 26))
          (a * 2 ^ 9))
        c
      ≡ w * 2 ^ 31 + f * 2 ^ 28 + b * 2 ^ 27 + i * 2 ^ 26 + a * 2 ^ 9 + c
join53 w f b i a c lf lb li la lc =
    let s1 = or_fields 31 w (f * 2 ^ 28) refl (omega arith) in
    let s2 =
      or_fields 28 (w * 8 + f) (b * 2 ^ 27) {word = w * 2 ^ 31 + f * 2 ^ 28} (omega arith)
        (omega arith) in
    let s3 =
      or_fields 27 (w * 16 + f * 2 + b) (i * 2 ^ 26) {word = w * 2 ^ 31 + f * 2 ^ 28 + b * 2 ^ 27}
        (omega arith) (omega arith) in
    let s4 =
      or_fields 26 (w * 32 + f * 4 + b * 2 + i) (a * 2 ^ 9)
        {word = w * 2 ^ 31 + f * 2 ^ 28 + b * 2 ^ 27 + i * 2 ^ 26} (omega arith) (omega arith) in
    let s5 =
      or_fields 9 (w * 2 ^ 22 + f * 2 ^ 19 + b * 2 ^ 18 + i * 2 ^ 17 + a) c
        {word = w * 2 ^ 31 + f * 2 ^ 28 + b * 2 ^ 27 + i * 2 ^ 26 + a * 2 ^ 9} (omega arith)
        (omega arith) in
    rw (s1, s2, s3, s4) s5

byte_read-sum :
    (function address count : ℕ)
    → cmd53_argument false function false true address count
      ≡ function % 8 * 2 ^ 28 + 2 ^ 26 + address % 2 ^ 17 * 2 ^ 9 + count % 2 ^ 9
unfolding cmd53_argument
byte_read-sum function address count =
    rw (bit_and_mask 3 function, bit_and_mask 17 address, bit_and_mask 9 count)
      (omega (
        arith,
        join53 0 (function % 8) 0 1 (address % 2 ^ 17) (count % 2 ^ 9) (omega arith) (omega arith)
            (omega arith) (omega arith) (omega arith),
      ))

valid_byte_read :
    (function address length : ℕ)
    → is_valid_byte_read function address length ≡ true
    → (function ≤ 7) × (1 ≤ length) × (length ≤ 512) × (address + length ≤ 2 ^ 17)
unfolding is_valid_byte_read
valid_byte_read function address length h = ground arith

-- A valid byte-mode read survives its CMD53 argument: the device reads back the function, the
-- address and the length, where a count of 0 stands for 512; and the last byte of the transfer
-- still has a 17-bit address.
pub cmd53_byte_read :
    (function address length : ℕ)
    → is_valid_byte_read function address length ≡ true
    → let argument = cmd53_argument false function false true address length in
      (argument / 2 ^ 28 ≡ function)
      × (argument / 2 ^ 26 % 4 ≡ 1)
      × (argument / 2 ^ 9 % 2 ^ 17 ≡ address)
      × ((if argument % 2 ^ 9 == 0 then 512 else argument % 2 ^ 9) ≡ length)
      × (address + length ≤ 2 ^ 17)
cmd53_byte_read function address length h =
    let v = valid_byte_read function address length h in
    let e = byte_read-sum function address length in
    (
      omega (arith, v, e),
      omega (arith, v, e),
      omega (arith, v, e),
      ground (arith, v, e),
      omega (arith, v),
    )

-- Four bytes, the lowest first, make the number they stand for.
pub load_le32_lem :
    (b0 b1 b2 b3 : ℕ)
    → b0 < 256
    → b1 < 256
    → b2 < 256
    → load_le32 b0 b1 b2 b3 ≡ b0 + b1 * 2 ^ 8 + b2 * 2 ^ 16 + b3 * 2 ^ 24
unfolding load_le32
load_le32_lem b0 b1 b2 b3 h0 h1 h2 =
    rw (add-bit_or 8 b1 b0 h0, add-bit_or 16 b2 (b0 + b1 * 2 ^ 8) (omega arith))
      (add-bit_or 24 b3 (b0 + b1 * 2 ^ 8 + b2 * 2 ^ 16) (omega arith))
