-- ===== src/Wire.antt =====
-- src/cyw43455/network_protocol.h: numbers in memory, the SDPCM and BCDC headers, and the credit
-- window. Memory is a function from offsets to bytes; `skip` moves its start.
pub mod Numbers
pub mod Credits
mod Tests
use rpi5_wifi_driver_win11ar.Prelude.{
  ℕ, zero, suc, ◌+◌, ◌-◌, ◌*◌, ◌/◌, ◌%◌, ◌^◌, Bool, true, false, not, ◌&&◌, ◌||◌, Option, none,
  some, ltb, leb, ◌==◌, ◌!=◌, if◌then◌else◌, bit_and, bit_or, sub8,
}
use Prim.Native.Nat.{bit_xor}

abbrev pub Memory : Type 0
Memory = ℕ → ℕ

abbrev pub skip : ℕ → Memory → Memory
skip n p i = p (n + i)

-- CywLe16, CywLe32 and CywBe32.
unfoldable pub le16 : Memory → ℕ
le16 p = bit_or (p 0) (p 1 * 2 ^ 8)

unfoldable pub le32 : Memory → ℕ
le32 p = bit_or (bit_or (bit_or (p 0) (p 1 * 2 ^ 8)) (p 2 * 2 ^ 16)) (p 3 * 2 ^ 24)

unfoldable pub be32 : Memory → ℕ
be32 p = bit_or (bit_or (bit_or (p 0 * 2 ^ 24) (p 1 * 2 ^ 16)) (p 2 * 2 ^ 8)) (p 3)

-- A store of one byte, CywPut16 and CywPut32.
unfoldable pub store : Memory → ℕ → ℕ → Memory
store p at value i = if i == at then value % 256 else p i

unfoldable pub put16 : Memory → ℕ → Memory
put16 p v = store (store p 0 v) 1 (v / 2 ^ 8)

unfoldable pub put32 : Memory → ℕ → Memory
put32 p v = store (store (store (store p 0 v) 1 (v / 2 ^ 8)) 2 (v / 2 ^ 16)) 3 (v / 2 ^ 24)

-- CywSdpcmHeader: the length of the frame and the offset of its payload.
unfoldable pub sdpcm_header : Memory → ℕ → Option (ℕ × ℕ)
sdpcm_header p available =
    let n = le16 p in
    if ltb available 12
    then none
    else if ltb n 12
        || (bit_xor (le16 (skip 2 p)) n % 2 ^ 16 != 0xffff
            || (ltb (p 7) 12 || (ltb n (p 7) || ltb 3 (bit_and (p 5) 15))))
    then none
    else some (n, p 7)

-- CywEthernetBody: where the Ethernet frame stands, and its length.
unfoldable pub ethernet_body : Memory → ℕ → Option (ℕ × ℕ)
ethernet_body p n =
    let skipped = 4 + p 3 * 4 in
    if ltb n 4 || (p 0 / 2 ^ 4 != 2 || bit_and (p 2) 15 != 0)
    then none
    else if ltb n skipped || (ltb (n - skipped) 14 || ltb 1514 (n - skipped))
    then none
    else some (skipped, n - skipped)

-- CywTxCredit, of three bytes.
unfoldable pub tx_credit : ℕ → ℕ → ℕ → Bool
tx_credit seq max flow = let n = sub8 max seq in n != 0 && (leb n 0x40 && flow == 0)

-- CywReceiveBudget.
unfoldable pub receive_budget : ℕ → ℕ → Bool
receive_budget frames elapsed = ltb frames 4 && ltb elapsed 20000
