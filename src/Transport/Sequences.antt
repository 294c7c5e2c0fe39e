-- ===== src/Transport/Sequences.antt =====
-- The receive sequence numbers of src/cyw43455/transport_protocol.h.
use rpi5_wifi_driver_win11ar.Prelude.{
  ℕ, ◌+◌, ◌%◌, ◌^◌, ◌<◌, ◌≡◌, true, List, [], ◌∷◌, arith, ◌==◌, if◌then◌else◌,
}
use rpi5_wifi_driver_win11ar.Prelude.Bits.{bit_and_mask}
use rpi5_wifi_driver_win11ar.Transport.{Transport, sequence}

-- A run of received numbers.
unfoldable pub receive : Transport → List ℕ → Transport
receive t [] = t
receive t (n ∷ ns) = receive (sequence t n) ns

-- How many of the numbers do not follow the one before.
abbrev pub gaps : ℕ → List ℕ → ℕ
gaps last [] = 0
gaps last (n ∷ ns) = (if n == (last + 1) % 256 then 0 else 1) + gaps n ns

sequence-mismatch :
    (t : Transport) (last n : ℕ)
    → t.sequence_valid ≡ true
    → t.sequence_expected ≡ (last + 1) % 256
    → t.sequence_mismatches < 2 ^ 32
    → ((sequence t n).sequence_mismatches
        ≡ (t.sequence_mismatches + (if n == (last + 1) % 256 then 0 else 1)) % 2 ^ 32)
      × ((sequence t n).sequence_expected ≡ (n + 1) % 256)
      × ((sequence t n).sequence_valid ≡ true)
unfolding sequence
sequence-mismatch t last n v e small = ground (arith, bit_and_mask 8 (n + 1))

-- After a frame with number `last`, SequenceMismatches, a 32-bit counter, counts exactly the received
-- numbers that do not follow the one before them modulo 256.
pub receive-gaps :
    (t : Transport) (last : ℕ) (ns : List ℕ)
    → t.sequence_valid ≡ true
    → t.sequence_expected ≡ (last + 1) % 256
    → t.sequence_mismatches < 2 ^ 32
    → (receive t ns).sequence_mismatches ≡ (t.sequence_mismatches + gaps last ns) % 2 ^ 32
unfolding receive
receive-gaps t last [] v e small = omega arith
receive-gaps t last (n ∷ ns) v e small =
    let a = sequence-mismatch t last n v e small in
    let b = receive-gaps (sequence t n) n ns a.2 a.1 (omega (arith, a.0)) in omega (arith, a.0, b)
