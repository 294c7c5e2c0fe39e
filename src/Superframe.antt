-- ===== src/Superframe.antt =====
-- src/cyw43455/rx_performance.h: the descriptor of a received superframe, and the validation of all
-- its frames before any is shown.
pub mod Slots
pub mod Frames
pub mod Accepted
mod Tests
use rpi5_wifi_driver_win11ar.Prelude.{
  ℕ, zero, suc, ◌+◌, ◌-◌, ◌*◌, ◌/◌, ◌%◌, ◌^◌, Bool, true, false, not, ◌&&◌, ◌||◌, List, [], ◌∷◌,
  Option, none, some, ltb, leb, ◌==◌, ◌!=◌, if◌then◌else◌, bit_and, length, add32, sub32, get_or,
}
use rpi5_wifi_driver_win11ar.Wire.{Memory, skip, le16, sdpcm_header}

-- CYW_WIRE_CAPACITY, CYW_RX_GLOM_MAX and CYW_RX_FRAME_MAX.
abbrev pub wire_capacity : ℕ
wire_capacity = 65536

abbrev pub rx_glom_max : ℕ
rx_glom_max = 32

abbrev pub rx_frame_max : ℕ
rx_frame_max = 2048

-- One validated frame: Start, End and Payload.
pub record Frame : Type 0 where
  pub start : ℕ
  pub stop : ℕ
  pub payload : ℕ

-- CYW_RX_GLOM. Slot[0..Count) and the three arrays of Start, End and Payload are lists, so Count is
-- the length of `slots`.
pub record Glom : Type 0 where
  pub slots : List ℕ
  pub index : ℕ
  pub bytes : ℕ
  pub descriptor_bytes : ℕ
  pub next_length : ℕ
  pub pending : Bool
  pub frames : List Frame

-- (x + 511) & ~511, in 32 bits.
abbrev pub round_up : ℕ → ℕ
round_up x = add32 x 511 / 512 * 512

-- CywRxNextLength.
unfoldable pub next_length_of : Memory → ℕ
next_length_of header = let n = header 6 * 2 ^ 4 in if leb 64 n && leb n rx_frame_max then n else 0

-- CywRxReadAheadValid.
unfoldable pub is_read_ahead_valid : Memory → ℕ → ℕ → Bool
is_read_ahead_valid header hint len =
    leb 64 hint
    && (leb hint rx_frame_max
        && (bit_and hint 15 == 0
            && (leb 12 len && (add32 len 15 / 16 * 16 == hint && bit_and (header 5) 15 != 0))))

unfoldable pub refused_slot : ℕ → ℕ → ℕ → Bool
refused_slot i total n =
    ltb n (if i != 0 then 12 else 24) || (bit_and n 3 != 0 || ltb (sub32 wire_capacity total) n)

unfoldable pub cons_slot : ℕ → Option (List ℕ × ℕ) → Option (List ℕ × ℕ)
cons_slot n none = none
cons_slot n (some (slots, sum)) = some (n ∷ slots, sum)

-- The loop of CywRxGlomDescriptor over the sizes, with the total so far.
unfoldable pub read_slots : Memory → ℕ → ℕ → ℕ → Option (List ℕ × ℕ)
read_slots packet zero i total = some ([], total)
read_slots packet (suc left) i total =
    let n = le16 (skip (2 * i) packet) in
    let rest = read_slots packet left (i + 1) (add32 total n) in
    if refused_slot i total n then none else cons_slot n rest

unfoldable pub set_slots : Glom → Option (List ℕ × ℕ) → Bool × Glom
set_slots g none = (false, g)
set_slots g (some (slots, total)) =
    let h = record g { bytes = round_up total } in
    if ltb wire_capacity (round_up total)
    then (false, h)
    else (true, record h { descriptor_bytes = total; slots = slots; pending = true })

-- CywRxGlomDescriptor.
unfoldable pub descriptor : Glom → Memory → ℕ → Bool × Glom
descriptor g packet bytes =
    let h = record g { slots = []; index = 0; pending = false } in
    if bytes == 0 || (bit_and bytes 1 != 0 || ltb (rx_glom_max * 2) bytes)
    then (false, h)
    else set_slots h (read_slots packet (bytes / 2) 0 0)

-- The test of one frame in its slot, by its header.
unfoldable pub bad_frame : Memory → ℕ → ℕ → ℕ → Bool
bad_frame packet base available n =
    ltb available n
    || (ltb rx_frame_max n
        || (bit_and (packet (base + 5)) 0x80 != 0
            || (bit_and (packet (base + 5)) 15 != 1 && bit_and (packet (base + 5)) 15 != 2)))

unfoldable pub frame_in : Memory → ℕ → ℕ → Option (ℕ × ℕ) → Option Frame
frame_in packet base available none = none
frame_in packet base available (some (n, o)) =
    if bad_frame packet base available n
    then none
    else some (record { start = base; stop = base + n; payload = base + o })

-- The loop of CywRxGlomValidate: the last slot takes the padding, the first one starts after the
-- header of the superframe.
unfoldable pub slot_size : Glom → ℕ → ℕ → List ℕ → ℕ
slot_size g bytes slot [] = add32 slot (sub32 bytes g.descriptor_bytes)
slot_size g bytes slot (next ∷ rest) = slot

unfoldable pub cons_frame : Option Frame → Option (List Frame × ℕ) → Option (List Frame × ℕ)
cons_frame none later = none
cons_frame (some frame) none = none
cons_frame (some frame) (some (frames, last)) = some (frame ∷ frames, last)

unfoldable pub read_frames : Glom → Memory → ℕ → ℕ → ℕ → List ℕ → Option (List Frame × ℕ)
read_frames g packet bytes off pos [] = some ([], pos)
read_frames g packet bytes off pos (slot ∷ rest) =
    let size = slot_size g bytes slot rest in
    let base = add32 pos off in
    let available = sub32 size off in
    let later = read_frames g packet bytes 0 (add32 pos size) rest in
    if ltb (sub32 bytes pos) size
    then none
    else cons_frame (frame_in packet base available (sdpcm_header (skip base packet) available))
        later

unfoldable pub set_frames : Glom → Memory → ℕ → Option (List Frame × ℕ) → Bool × Glom
set_frames g packet bytes none = (false, g)
set_frames g packet bytes (some (frames, pos)) = if pos != bytes then (false, g) else (
  true,
  record g { frames = frames; next_length = next_length_of packet; index = 0; pending = false },
)

-- The header of the superframe.
unfoldable pub check_super : Glom → Memory → ℕ → Option (ℕ × ℕ) → Bool × Glom
check_super g packet bytes none = (false, g)
check_super g packet bytes (some (len, off)) =
    if bit_and (packet 5) 0x8f != 3
      || (round_up len != bytes || ltb (sub32 (get_or g.slots 0 0) 12) off)
    then (false, g)
    else set_frames g packet bytes (read_frames g packet bytes off 0 g.slots)

-- CywRxGlomValidate.
unfoldable pub validate : Glom → Memory → ℕ → Bool × Glom
validate g packet bytes =
    if not g.pending
      || (length g.slots == 0
          || (ltb rx_glom_max (length g.slots) || (bytes != g.bytes || ltb wire_capacity bytes)))
    then (false, g)
    else check_super g packet bytes (sdpcm_header packet bytes)
