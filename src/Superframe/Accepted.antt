-- ===== src/Superframe/Accepted.antt =====
-- A superframe of src/cyw43455/rx_performance.h from its descriptor to its frames.
use rpi5_wifi_driver_win11ar.Prelude.{
  ℕ, ◌≤◌, ◌≡◌, refl, Bool, true, false, not, ◌||◌, List, [], ◌∷◌, Option, none, some, arith, length,
  get_or, ltb, ◌==◌, ◌!=◌, bit_and, sub32, each_branch,
}
use rpi5_wifi_driver_win11ar.Wire.{Memory}
use rpi5_wifi_driver_win11ar.Superframe.{
  Glom, wire_capacity, rx_glom_max, round_up, check_super, validate, descriptor,
}
use rpi5_wifi_driver_win11ar.Superframe.Slots.{SlotsFit, slots_sum, GlomOk, descriptor-GlomOk}
use rpi5_wifi_driver_win11ar.Superframe.Frames.{InOrder, Shown, set_frames-Shown}

first_slot :
    (slots : List ℕ)
    → SlotsFit slots
    → slots_sum slots ≤ wire_capacity
    → (length slots == 0) ≡ false
    → (12 ≤ get_or slots 0 0) × (get_or slots 0 0 ≤ wire_capacity)
first_slot [] ok sum e = cc
first_slot (s ∷ ss) ok sum e = omega (arith, ok.0, sum)

-- The first frame starts after the header of the superframe, and still has room.
room_after_header :
    (slot off : ℕ) → 12 ≤ slot → slot ≤ wire_capacity → ltb (sub32 slot 12) off ≡ false → off ≤ slot
room_after_header slot off h le e = ground arith

check_super-Shown :
    (g : Glom) (packet : Memory) (bytes : ℕ) (o : Option (ℕ × ℕ))
    → GlomOk g
    → (length g.slots == 0) ≡ false
    → bytes ≡ g.bytes
    → (check_super g packet bytes o).0 ≡ true
    → Shown g bytes (check_super g packet bytes o).1
unfolding check_super
check_super-Shown g packet bytes none v some_slot eb ok = cc
check_super-Shown g packet bytes (some (len, off)) v some_slot eb ok =
    let first = first_slot g.slots v.each v.sum_le some_slot in
    each_branch (λ (r : Bool × Glom). r.0 ≡ true → Shown g bytes r.1)
      (bit_and (packet 5) 0x8f != 3
        || (round_up len != bytes || ltb (sub32 (get_or g.slots 0 0) 12) off))
      (λ bad e. cc)
      (λ good.
        set_frames-Shown g packet bytes off _ v eb
          (room_after_header _ off first.0 first.1 (ground (arith, good))) refl)
      ok

-- A superframe that is validated against an accepted descriptor shows one frame for each slot; each
-- frame has its SDPCM header of at least 12 bytes before its payload and is at most 2048 bytes
-- long, no two frames overlap, and all lie within the received bytes.
pub validate-InOrder :
    (g : Glom) (sizes : Memory) (count : ℕ) (packet : Memory) (bytes : ℕ)
    → (descriptor g sizes count).0 ≡ true
    → (validate (descriptor g sizes count).1 packet bytes).0 ≡ true
    → InOrder 0 bytes (validate (descriptor g sizes count).1 packet bytes).1.frames
      × (length (validate (descriptor g sizes count).1 packet bytes).1.frames
          ≡ length (descriptor g sizes count).1.slots)
unfolding validate
validate-InOrder g sizes count packet bytes ok valid =
    let d = (descriptor g sizes count).1 in
    let s =
      each_branch (λ (r : Bool × Glom). r.0 ≡ true → Shown d bytes r.1)
        (not d.pending
          || (length d.slots == 0
              || (ltb rx_glom_max (length d.slots)
                  || (bytes != d.bytes || ltb wire_capacity bytes))))
        (λ bad e. cc)
        (λ good.
          check_super-Shown d packet bytes _ (descriptor-GlomOk g sizes count ok)
            (ground (arith, good)) (ground (arith, good)))
        valid in
    (s.order, s.all)
