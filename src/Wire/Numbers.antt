-- ===== src/Wire/Numbers.antt =====
-- Numbers in memory in src/cyw43455/network_protocol.h: what is stored is read back.
use rpi5_wifi_driver_win11ar.Prelude.{
  ℕ, ◌+◌, ◌*◌, ◌/◌, ◌%◌, ◌^◌, ◌≤◌, ◌<◌, ◌≡◌, ap, ◌∙◌, some, arith, bit_or,
}
use rpi5_wifi_driver_win11ar.Prelude.Bits.{add-bit_or}
use rpi5_wifi_driver_win11ar.Wire.{
  Memory, le16, le32, store, put16, put32, sdpcm_header, ethernet_body,
}

-- A 16-bit number is read back as it was stored.
pub le16-put16 : (p : Memory) (v : ℕ) → v < 2 ^ 16 → le16 (put16 p v) ≡ v
unfolding le16 put16 store
le16-put16 p v h = add-bit_or 8 (v / 2 ^ 8 % 256) (v % 256) (omega arith) ∙ omega arith

-- A number below 2^32 is read back as it was stored, the lowest byte first.
pub le32-put32 : (p : Memory) (v : ℕ) → v < 2 ^ 32 → le32 (put32 p v) ≡ v
unfolding le32 put32 store
le32-put32 p v h =
    let b0 = v % 256 in
    let b1 = v / 2 ^ 8 % 256 in
    let b2 = v / 2 ^ 16 % 256 in
    let b3 = v / 2 ^ 24 % 256 in
    ap (λ x. bit_or (bit_or x (b2 * 2 ^ 16)) (b3 * 2 ^ 24)) (add-bit_or 8 b1 b0 (omega arith))
    ∙ ap (λ x. bit_or x (b3 * 2 ^ 24)) (add-bit_or 16 b2 (b0 + b1 * 2 ^ 8) (omega arith))
    ∙ add-bit_or 24 b3 (b0 + b1 * 2 ^ 8 + b2 * 2 ^ 16) (omega arith)
    ∙ omega arith

-- An accepted SDPCM header has a payload at offset 12 or above and within the length of the frame.
pub sdpcm_header-bounds :
    (p : Memory) (available length offset : ℕ)
    → sdpcm_header p available ≡ some (length, offset)
    → (12 ≤ available) × (12 ≤ offset) × (offset ≤ length)
unfolding sdpcm_header
sdpcm_header-bounds p available length offset h = ground (arith, h)

-- An accepted BCDC body is an Ethernet frame of 14 to 1514 bytes that ends with the packet.
pub ethernet_body-bounds :
    (p : Memory) (n offset length : ℕ)
    → ethernet_body p n ≡ some (offset, length)
    → (4 ≤ offset) × (14 ≤ length) × (length ≤ 1514) × (offset + length ≡ n)
unfolding ethernet_body
ethernet_body-bounds p n offset length h = ground (arith, h)
