-- ===== src/Wire/Credits.antt =====
-- The credit window of src/cyw43455/network_protocol.h: how many frames it lets through.
use rpi5_wifi_driver_win11ar.Prelude.{
  ℕ, zero, suc, ◌+◌, ◌%◌, ◌≤◌, ◌<◌, ◌≡◌, arith, leb, if◌then◌else◌, sub8,
}
use rpi5_wifi_driver_win11ar.Wire.{tx_credit}

-- A sender that sends as long as it has credit, with sequence numbers modulo 256.
unfoldable pub frames_sent : ℕ → ℕ → ℕ → ℕ
frames_sent zero seq max = 0
frames_sent (suc fuel) seq max =
    let later = frames_sent fuel ((seq + 1) % 256) max in
    if tx_credit seq max 0 then suc later else 0

-- Without flow control, a window of `max - seq` credits modulo 256, if these are 64 at most, lets
-- exactly so many frames through, across the wrap of the sequence number too; a larger window, which
-- only a wrong `max` can give, lets none through.
pub frames_sent_lem :
    (fuel seq max : ℕ)
    → seq < 256
    → max < 256
    → sub8 max seq ≤ fuel
    → frames_sent fuel seq max ≡ (if leb (sub8 max seq) 64 then sub8 max seq else 0)
unfolding frames_sent tx_credit
frames_sent_lem zero seq max hs hm enough = ground arith
frames_sent_lem (suc fuel) seq max hs hm enough =
    let rest = frames_sent_lem fuel ((seq + 1) % 256) max (omega arith) hm in ground (arith, rest)
