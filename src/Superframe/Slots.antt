-- ===== src/Superframe/Slots.antt =====
-- What CywRxGlomDescriptor of src/cyw43455/rx_performance.h accepts.
use rpi5_wifi_driver_win11ar.Prelude.{
  ℕ, zero, suc, ◌+◌, ◌*◌, ◌/◌, ◌≤◌, ◌≡◌, refl, inl, inr, Bool, true, false, List, [], ◌∷◌, Option,
  none, some, arith, length, Bool-cases, ap, sym, ◌∙◌, subst, ltb, ◌!=◌, ◌==◌, ◌||◌, bit_and, add32,
  both_branches,
}
use rpi5_wifi_driver_win11ar.Wire.{Memory, skip, le16}
use rpi5_wifi_driver_win11ar.Superframe.{
  Glom, wire_capacity, rx_glom_max, round_up, refused_slot, cons_slot, read_slots, set_slots,
  descriptor,
}

abbrev pub slots_sum : List ℕ → ℕ
slots_sum [] = 0
slots_sum (s ∷ ss) = s + slots_sum ss

-- Every slot has room for a header.
abbrev pub SlotsFit : List ℕ → Type 0
SlotsFit [] = Unit {0}
SlotsFit (s ∷ ss) = (12 ≤ s) × SlotsFit ss

pub record SlotsOk (left total : ℕ) (slots : List ℕ) (sum : ℕ) : Type 0 where
  pub count : length slots ≡ left
  pub sum_eq : sum ≡ total + slots_sum slots
  pub fits : sum ≤ wire_capacity
  pub each : SlotsFit slots

good_slot :
    (i total n : ℕ)
    → total ≤ wire_capacity
    → refused_slot i total n ≡ false
    → (12 ≤ n) × (total + n ≤ wire_capacity) × (add32 total n ≡ total + n)
unfolding refused_slot
good_slot i total n h e = ground arith

cons_slot-SlotsOk :
    (left total n : ℕ) (rest : Option (List ℕ × ℕ)) (slots : List ℕ) (sum : ℕ)
    → 12 ≤ n
    → ((ss : List ℕ) (m : ℕ) → rest ≡ some (ss, m) → SlotsOk left (total + n) ss m)
    → cons_slot n rest ≡ some (slots, sum)
    → SlotsOk (suc left) total slots sum
unfolding cons_slot
cons_slot-SlotsOk left total n none slots sum h f e = cc
cons_slot-SlotsOk left total n (some (ss, m)) slots sum h f e =
    let r = f ss m refl in
    let list : n ∷ ss ≡ slots = cc in
    let value : m ≡ sum = cc in
    subst (λ xs. SlotsOk (suc left) total xs sum) list
      (subst (λ x. SlotsOk (suc left) total (n ∷ ss) x) value
        (record {
          count = ap suc r.count;
          sum_eq = omega (arith, r.sum_eq);
          fits = r.fits;
          each = (h, r.each);
        }))

read_slots-SlotsOk :
    (packet : Memory) (left i total : ℕ) (slots : List ℕ) (sum : ℕ)
    → total ≤ wire_capacity
    → read_slots packet left i total ≡ some (slots, sum)
    → SlotsOk left total slots sum
unfolding read_slots
read_slots-SlotsOk packet zero i total slots sum h e =
    let list : [] ≡ slots = cc in
    let value : total ≡ sum = cc in
    subst (λ xs. SlotsOk 0 total xs sum) list
      (subst (λ x. SlotsOk 0 total [] x) value
        (record { count = refl; sum_eq = omega arith; fits = h; each = tt }))
read_slots-SlotsOk packet (suc left) i total slots sum h e =
    let n = le16 (skip (2 * i) packet) in
    elim (Bool-cases (refused_slot i total n)) [
      | inl bad ↦ cc (rw (read_slots, bad) at e)
      | inr good ↦
          (let ok = good_slot i total n h good in
            cons_slot-SlotsOk left total n _ slots sum ok.0
              (λ ss m r.
                read_slots-SlotsOk packet left (i + 1) (total + n) ss m ok.1
                  (ap (λ t. read_slots packet left (i + 1) t) (sym ok.2) ∙ r))
              (rw (read_slots, good) at e))
    ]

-- What a descriptor leaves for the validation.
pub record GlomOk (g : Glom) : Type 0 where
  pub each : SlotsFit g.slots
  pub sum_le : slots_sum g.slots ≤ wire_capacity
  pub padded : g.descriptor_bytes ≤ g.bytes
  pub bytes_le : g.bytes ≤ wire_capacity

set_slots-GlomOk :
    (g : Glom) (packet : Memory) (left : ℕ) (o : Option (List ℕ × ℕ))
    → read_slots packet left 0 0 ≡ o
    → (set_slots g o).0 ≡ true
    → GlomOk (set_slots g o).1
unfolding set_slots
set_slots-GlomOk g packet left none e ok = cc
set_slots-GlomOk g packet left (some (slots, total)) e ok =
    let s = read_slots-SlotsOk packet left 0 0 slots total (omega arith) e in
    elim (Bool-cases (ltb wire_capacity (round_up total))) [
      | inl large ↦ cc (rw (set_slots, large) at ok)
      | inr fits ↦
          rw (set_slots, fits)
            (record {
              each = s.each;
              sum_le = omega (arith, s.sum_eq, s.fits);
              padded = omega (arith, s.fits);
              bytes_le = ground (arith, fits);
            })
    ]

pub descriptor-GlomOk :
    (g : Glom) (packet : Memory) (bytes : ℕ)
    → (descriptor g packet bytes).0 ≡ true
    → GlomOk (descriptor g packet bytes).1
unfolding descriptor
descriptor-GlomOk g packet bytes ok =
    both_branches (λ (r : Bool × Glom). r.0 ≡ true → GlomOk r.1)
      (bytes == 0 || (bit_and bytes 1 != 0 || ltb (rx_glom_max * 2) bytes)) (λ e. cc)
      (set_slots-GlomOk (record g { slots = []; index = 0; pending = false }) packet (bytes / 2) _
        refl)
      ok
