-- ===== src/Filter/Accepted.antt =====
-- Which frames the packet filter of src/cyw43455/network_protocol.h lets through, without its loops
-- and its order of tests.
use rpi5_wifi_driver_win11ar.Prelude.{
  ℕ, zero, suc, ◌+◌, ◌*◌, ◌/◌, ◌%◌, ◌≤◌, ◌<◌, ◌≡◌, ◌↔◌, ◌⊎◌, inl, inr, refl, Bool, true, false,
  ◌&&◌, ltb, ◌==◌, if◌then◌else◌, has_bit, arith, Bool-cases, subst,
}
use rpi5_wifi_driver_win11ar.Wire.{Memory, skip}
use rpi5_wifi_driver_win11ar.Filter.{same_address, is_broadcast, in_list, accept_ethernet}

-- Two addresses of six bytes are equal.
abbrev pub Same : Memory → Memory → Type 0
Same p q = (p 0 ≡ q 0) × (p 1 ≡ q 1) × (p 2 ≡ q 2) × (p 3 ≡ q 3) × (p 4 ≡ q 4) × (p 5 ≡ q 5)

abbrev pub ones : Memory
ones j = 255

-- An address is one of `count` addresses that stand one after the other.
abbrev pub Listed : Memory → Memory → ℕ → Type 0
Listed dst multicast count = (i : ℕ) × (i < count) × Same dst (λ j. multicast (i * 6 + j))

-- The bits 1, 2, 4 and 8 of a filter ask for the frames to the own address, to the listed groups, to
-- all groups, and to all stations.
abbrev pub Accepts : Memory → Memory → ℕ → Memory → ℕ → Type 0
Accepts dst mac filter multicast count =
    Same dst ones × (filter / 8 % 2 ≡ 1)
    ⊎ (¬ (Same dst ones))
      × (dst 0 % 2 ≡ 1)
      × (filter / 4 % 2 ≡ 1 ⊎ (filter / 2 % 2 ≡ 1) × Listed dst multicast count)
    ⊎ (dst 0 % 2 ≡ 0) × (filter % 2 ≡ 1) × Same dst mac

same_address-Same : (p q : Memory) → (same_address p q ≡ true) ↔ Same p q
unfolding same_address
same_address-Same p q = ground arith

is_broadcast-Same : (p : Memory) → (is_broadcast p ≡ true) ↔ Same p ones
unfolding is_broadcast
is_broadcast-Same p = ground arith

otherwise : (b x : Bool) → b ≡ false → (if b then true else x) ≡ true → x ≡ true
otherwise b x e h = ground arith

in_list-Listed :
    (dst multicast : Memory) (left i count : ℕ)
    → i + left ≡ count
    → in_list dst multicast left i ≡ true
    → Listed dst multicast count
unfolding in_list
in_list-Listed dst multicast zero i count e h = absurd (ground arith)
in_list-Listed dst multicast (suc left) i count e h =
    elim (Bool-cases (same_address dst (skip (i * 6) multicast))) [
      | inl s ↦ (i, omega arith, (same_address-Same dst (skip (i * 6) multicast)).0 s)
      | inr n ↦ in_list-Listed dst multicast left (i + 1) count (omega arith) (otherwise _ _ n h)
    ]

either_way : (b x : Bool) → x ≡ true → (if b then true else x) ≡ true
either_way b x h = ground arith

Listed-in_list :
    (dst multicast : Memory) (left i k : ℕ)
    → i ≤ k
    → k < i + left
    → Same dst (λ j. multicast (k * 6 + j))
    → in_list dst multicast left i ≡ true
unfolding in_list
Listed-in_list dst multicast zero i k h l s = absurd (omega arith)
Listed-in_list dst multicast (suc left) i k h l s = elim (Bool-cases (i == k)) [
  | inl e ↦
      rw
        ((same_address-Same dst (skip (i * 6) multicast)).1
          (subst (λ n. Same dst (λ j. multicast (n * 6 + j))) (ground arith) s))
        refl
  | inr n ↦
      either_way (same_address dst (skip (i * 6) multicast)) _
        (Listed-in_list dst multicast left (i + 1) k (ground arith) (omega arith) s)
]

-- The tests of the filter, of what they stand for.
tested :
    {B L O : Type 0} (b l o : Bool) (count first filter : ℕ)
    → (b ≡ true) ↔ B
    → (l ≡ true) ↔ L
    → (o ≡ true) ↔ O
    → (B → first ≡ 255)
    → ((if ltb 32 count
          then false
          else if b
          then has_bit filter 3
          else if has_bit first 0
          then (if has_bit filter 2 then true else if has_bit filter 1 then l else false)
          else has_bit filter 0 && o)
        ≡ true)
      ↔ ((count ≤ 32)
          × (B × (filter / 8 % 2 ≡ 1)
              ⊎ (¬ B) × (first % 2 ≡ 1) × (filter / 4 % 2 ≡ 1 ⊎ (filter / 2 % 2 ≡ 1) × L)
              ⊎ (first % 2 ≡ 0) × (filter % 2 ≡ 1) × O))
tested b l o count first filter hb hl ho odd =
    (λ h. ground (arith, hb, hl, ho, odd, h), λ h. ground (arith, hb, hl, ho, odd, h))

-- A frame is let through exactly when the multicast list has 32 addresses at most and the filter asks
-- for its destination: all ones and bit 8; or a group address that is not all ones, and bit 4, or bit
-- 2 and the address is in the list; or an individual address that is the own one, and bit 1.
pub accept_ethernet_lem :
    (dst mac : Memory) (filter : ℕ) (multicast : Memory) (count : ℕ)
    → (accept_ethernet dst mac filter multicast count ≡ true)
      ↔ ((count ≤ 32) × Accepts dst mac filter multicast count)
unfolding accept_ethernet
accept_ethernet_lem dst mac filter multicast count =
    tested (is_broadcast dst) (in_list dst multicast count 0) (same_address dst mac) count (dst 0)
      filter (is_broadcast-Same dst)
      (
        in_list-Listed dst multicast count 0 count (omega arith),
        λ (k, l, s). Listed-in_list dst multicast count 0 k (omega arith) (omega (arith, l)) s,
      )
      (same_address-Same dst mac) (λ s. s.0)
