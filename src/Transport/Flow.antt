-- ===== src/Transport/Flow.antt =====
-- The flow control of src/cyw43455/transport_protocol.h: the blocked time, and the priority bit.
use rpi5_wifi_driver_win11ar.Prelude.{
  ℕ, ◌-◌, ◌^◌, ◌≤◌, ◌<◌, ◌≡◌, ap, ◌∙◌, Bool, true, false, not, arith, ◌==◌, has_bit, bit_and, sub32,
  if◌then◌else◌,
}
use rpi5_wifi_driver_win11ar.Prelude.Bits.{bit_and_bit, two_pow_and, two_pow_pos, two_pow_le}
use rpi5_wifi_driver_win11ar.Transport.{
  Transport, add_ticks, elapsed, set_global, priority_allowed, set_priority, blocked_ticks,
}

-- A change of the global flow state moves no time: while the accumulated time is a 64-bit number, the
-- blocked time that is reported at the moment of the change is the same before and after it.
pub set_global-blocked_ticks :
    (t : Transport) (state : Bool) (now : ℕ)
    → t.global_blocked < 2 ^ 64
    → blocked_ticks (set_global t state now) true now ≡ blocked_ticks t true now
unfolding blocked_ticks set_global add_ticks elapsed
set_global-blocked_ticks t state now h = ground arith

-- A change of the priority flow bits moves no time: while the accumulated time is a 64-bit number,
-- the time for which they blocked the sending, as reported at the moment of the change, is the same
-- before and after it.
pub set_priority-blocked_ticks :
    (t : Transport) (flow now : ℕ)
    → t.priority_blocked_ticks < 2 ^ 64
    → blocked_ticks (set_priority t flow now) false now ≡ blocked_ticks t false now
unfolding blocked_ticks set_priority add_ticks elapsed
set_priority-blocked_ticks t flow now h = ground arith

-- While both accumulated times are 64-bit numbers, the reported blocked time never falls as the clock
-- goes on, and is a 64-bit number.
pub blocked_ticks_mono :
    (t : Transport) (global : Bool) (now later : ℕ)
    → t.global_blocked < 2 ^ 64
    → t.priority_blocked_ticks < 2 ^ 64
    → now ≤ later
    → (blocked_ticks t global now ≤ blocked_ticks t global later)
      × (blocked_ticks t global later < 2 ^ 64)
unfolding blocked_ticks add_ticks elapsed
blocked_ticks_mono t true now later g p h = ground arith
blocked_ticks_mono t false now later g p h = ground arith

-- With a priority mask of one bit, of the eight, that flow bit alone decides when the mask is known;
-- when it is not, any set flow bit stops the sending.
pub priority_allowed_lem :
    (t : Transport) (k flow : ℕ)
    → k ≤ 7
    → t.priority_mask ≡ 2 ^ k
    → priority_allowed t flow ≡ (if t.priority_mask_known then not (has_bit flow k) else flow == 0)
unfolding priority_allowed
priority_allowed_lem t k flow h e = rw e (
    let below : sub32 (2 ^ k) 1 ≡ 2 ^ k - 1 = omega (arith, two_pow_pos k, two_pow_le k 7 h) in
    ground (
      arith,
      ap (λ m. bit_and (2 ^ k) m) below ∙ two_pow_and k,
      bit_and_bit k flow,
      two_pow_pos k,
      two_pow_le k 7 h,
    ))
