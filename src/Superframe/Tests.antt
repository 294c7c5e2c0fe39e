-- ===== src/Superframe/Tests.antt =====
-- A superframe of src/cyw43455/rx_performance.h with two frames.
use rpi5_wifi_driver_win11ar.Prelude.{
  ℕ, ◌≡◌, refl, false, List, [], ◌∷◌, length, ◌==◌, if◌then◌else◌,
}
use rpi5_wifi_driver_win11ar.Wire.{Memory, le16, sdpcm_header}
use rpi5_wifi_driver_win11ar.Superframe.{
  Glom, descriptor, validate, read_slots, refused_slot, cons_slot, set_slots, check_super,
  read_frames, slot_size, bad_frame, frame_in, cons_frame, set_frames, next_length_of,
}
use rpi5_wifi_driver_win11ar.Superframe.Frames.{InOrder}
use rpi5_wifi_driver_win11ar.Superframe.Accepted.{validate-InOrder}

abbrev nothing : Glom
nothing = record {
  slots = [];
  index = 0;
  bytes = 0;
  descriptor_bytes = 0;
  next_length = 0;
  pending = false;
  frames = [];
}

abbrev at : List (ℕ × ℕ) → Memory
at [] i = 0
at ((place, value) ∷ rest) i = if place == i then value else at rest i

-- Slots of 60 and 40 bytes.
abbrev sizes : Memory
sizes = at ((0, 60) ∷ ((2, 40) ∷ []))

-- The header of the superframe, and those of a frame of 40 bytes at 12 and of 30 bytes at 60.
abbrev packet : Memory
packet = at (
    (0, 100)
    ∷ ((2, 155)
        ∷ ((3, 255)
            ∷ ((5, 3)
                ∷ ((7, 12)
                    ∷ ((12, 40)
                        ∷ ((14, 215)
                            ∷ ((15, 255)
                                ∷ ((17, 2)
                                    ∷ ((19, 12)
                                        ∷ ((60, 30)
                                            ∷ ((62, 225)
                                                ∷ ((63, 255)
                                                    ∷ ((65, 2) ∷ ((67, 14) ∷ [])))))))))))))))

validate-InOrder_example :
    InOrder 0 512 (validate (descriptor nothing sizes 4).1 packet 512).1.frames
    × (length (validate (descriptor nothing sizes 4).1 packet 512).1.frames
        ≡ length (descriptor nothing sizes 4).1.slots)
unfolding descriptor validate read_slots refused_slot cons_slot set_slots check_super read_frames
    slot_size bad_frame frame_in cons_frame set_frames next_length_of le16 sdpcm_header
validate-InOrder_example = validate-InOrder nothing sizes 4 packet 512 refl refl
