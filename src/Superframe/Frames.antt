-- ===== src/Superframe/Frames.antt =====
-- What CywRxGlomValidate of src/cyw43455/rx_performance.h accepts: frames in order, apart, and inside
-- the superframe.
use rpi5_wifi_driver_win11ar.Prelude.{
  ℕ, suc, ◌+◌, ◌-◌, ◌≤◌, ◌≡◌, refl, inl, inr, true, false, List, [], ◌∷◌, Option, none, some, arith,
  length, get_or, Bool-cases, ap, sym, ◌∙◌, subst, ltb, ◌!=◌, add32, sub32, ltb_false→le,
}
use rpi5_wifi_driver_win11ar.Wire.{Memory, skip, sdpcm_header}
use rpi5_wifi_driver_win11ar.Wire.Numbers.{sdpcm_header-bounds}
use rpi5_wifi_driver_win11ar.Superframe.{
  Frame, Glom, wire_capacity, rx_frame_max, bad_frame, frame_in, slot_size, cons_frame, read_frames,
  set_frames,
}
use rpi5_wifi_driver_win11ar.Superframe.Slots.{SlotsFit, slots_sum, GlomOk}

-- Frames from `pos` on, each with a header of at least 12 bytes and at most 2048 bytes long, none
-- overlapping the next, all within `bytes`.
abbrev pub InOrder : ℕ → ℕ → List Frame → Type 0
InOrder pos bytes [] = pos ≤ bytes
InOrder pos bytes (f ∷ fs) =
    (pos ≤ f.start)
    × (f.start + 12 ≤ f.payload)
    × (f.payload ≤ f.stop)
    × (f.stop ≤ f.start + rx_frame_max)
    × InOrder f.stop bytes fs

InOrder-earlier :
    (pos next bytes : ℕ) (fs : List Frame)
    → pos ≤ next
    → InOrder next bytes fs
    → InOrder pos bytes fs
InOrder-earlier pos next bytes [] h v = omega (arith, v)
InOrder-earlier pos next bytes (f ∷ fs) h v = (omega (arith, v.0), v.1, v.2, v.3, v.4)

record FrameOk (pos next : ℕ) (f : Frame) : Type 0 where
  starts : pos ≤ f.start
  header : f.start + 12 ≤ f.payload
  body : f.payload ≤ f.stop
  short : f.stop ≤ f.start + rx_frame_max
  ends : f.stop ≤ next

good_frame :
    (packet : Memory) (base available n : ℕ)
    → bad_frame packet base available n ≡ false
    → (n ≤ available) × (n ≤ rx_frame_max)
unfolding bad_frame
good_frame packet base available n h = ground arith

frame_in-FrameOk :
    (packet : Memory) (pos next base available : ℕ) (o : Option (ℕ × ℕ)) (f : Frame)
    → sdpcm_header (skip base packet) available ≡ o
    → pos ≤ base
    → base + available ≤ next
    → frame_in packet base available o ≡ some f
    → FrameOk pos next f
unfolding frame_in
frame_in-FrameOk packet pos next base available none f eo h le e = cc
frame_in-FrameOk packet pos next base available (some (n, off)) f eo h le e =
    let b = sdpcm_header-bounds (skip base packet) available n off eo in
    elim (Bool-cases (bad_frame packet base available n)) [
      | inl bad ↦ cc (rw (frame_in, bad) at e)
      | inr good ↦
          (let made : record { start = base; stop = base + n; payload = base + off } ≡ f =
              cc (rw (frame_in, good) at e) in
            let g = good_frame packet base available n good in
            subst (FrameOk pos next) made (record {
              starts = h;
              header = omega (arith, b.1);
              body = omega (arith, b.2);
              short = omega (arith, g.1);
              ends = omega (arith, g.0);
            }))
    ]

cons_frame-InOrder :
    (o : Option Frame) (later : Option (List Frame × ℕ)) (pos next bytes k : ℕ)
    (frames : List Frame) (last : ℕ)
    → ((f : Frame) → o ≡ some f → FrameOk pos next f)
    → ((fs : List Frame) (m : ℕ) → later ≡ some (fs, m) → InOrder next bytes fs × (length fs ≡ k))
    → cons_frame o later ≡ some (frames, last)
    → InOrder pos bytes frames × (length frames ≡ suc k)
unfolding cons_frame
cons_frame-InOrder none later pos next bytes k frames last f l e = cc
cons_frame-InOrder (some frame) none pos next bytes k frames last f l e = cc
cons_frame-InOrder (some frame) (some (fs, m)) pos next bytes k frames last f l e =
    let a = f frame refl in
    let b = l fs m refl in
    let list : frame ∷ fs ≡ frames = cc in
    subst (λ xs. InOrder pos bytes xs × (length xs ≡ suc k)) list
      (
        (a.starts, a.header, a.body, a.short, InOrder-earlier frame.stop next bytes fs a.ends b.0),
        ap suc b.1,
      )

slot_size-bounds :
    (g : Glom) (bytes slot : ℕ) (rest : List ℕ)
    → slot ≤ wire_capacity
    → g.descriptor_bytes ≤ bytes
    → bytes ≤ wire_capacity
    → slot ≤ slot_size g bytes slot rest
unfolding slot_size
slot_size-bounds g bytes slot [] h d b = omega arith
slot_size-bounds g bytes slot (next ∷ rest) h d b = omega arith

read_frames-InOrder :
    (g : Glom) (packet : Memory) (bytes off pos : ℕ) (slots : List ℕ) (frames : List Frame)
    (last : ℕ)
    → g.descriptor_bytes ≤ bytes
    → bytes ≤ wire_capacity
    → SlotsFit slots
    → slots_sum slots ≤ wire_capacity
    → off ≤ get_or slots 0 0
    → pos ≤ bytes
    → read_frames g packet bytes off pos slots ≡ some (frames, last)
    → InOrder pos bytes frames × (length frames ≡ length slots)
unfolding read_frames
read_frames-InOrder g packet bytes off pos [] frames last d b ok sum o p e =
    let list : [] ≡ frames = cc in
    subst (λ xs. InOrder pos bytes xs × (length xs ≡ 0)) list (p, refl)
read_frames-InOrder g packet bytes off pos (slot ∷ rest) frames last d b ok sum o p e =
    let size = slot_size g bytes slot rest in
    let large = slot_size-bounds g bytes slot rest (omega (arith, sum)) d b in
    elim (Bool-cases (ltb (sub32 bytes pos) size)) [
      | inl short ↦ cc (rw (read_frames, short) at e)
      | inr room ↦
          (let fits : size ≤ sub32 bytes pos = ltb_false→le _ _ room in
            let next : add32 pos size ≡ pos + size = omega arith in
            let place : add32 pos off ≡ pos + off = omega arith in
            let left : sub32 size off ≡ size - off = omega arith in
            cons_frame-InOrder _ _ pos (pos + size) bytes (length rest) frames last
              (λ f r.
                frame_in-FrameOk packet pos (pos + size) (add32 pos off) (sub32 size off) _ f refl
                  (omega (arith, place)) (omega (arith, place, left, o, large)) r)
              (λ fs m r.
                read_frames-InOrder g packet bytes 0 (pos + size) rest fs m d b ok.1
                  (omega (arith, sum)) (omega arith) (omega (arith, fits))
                  (ap (λ t. read_frames g packet bytes 0 t rest) (sym next) ∙ r))
              (rw (read_frames, room) at e))
    ]

-- What a validated superframe shows.
pub record Shown (g : Glom) (bytes : ℕ) (h : Glom) : Type 0 where
  pub order : InOrder 0 bytes h.frames
  pub all : length h.frames ≡ length g.slots

pub set_frames-Shown :
    (g : Glom) (packet : Memory) (bytes off : ℕ) (o : Option (List Frame × ℕ))
    → GlomOk g
    → bytes ≡ g.bytes
    → off ≤ get_or g.slots 0 0
    → read_frames g packet bytes off 0 g.slots ≡ o
    → (set_frames g packet bytes o).0 ≡ true
    → Shown g bytes (set_frames g packet bytes o).1
unfolding set_frames
set_frames-Shown g packet bytes off none v eb le e ok = cc
set_frames-Shown g packet bytes off (some (frames, pos)) v eb le e ok =
    let r =
      read_frames-InOrder g packet bytes off 0 g.slots frames pos (omega (arith, eb, v.padded))
        (omega (arith, eb, v.bytes_le)) v.each v.sum_le le (omega arith) e in
    elim (Bool-cases (pos != bytes)) [
      | inl bad ↦ cc (rw (set_frames, bad) at ok)
      | inr good ↦ rw (set_frames, good) (record { order = r.0; all = r.1 })
    ]
