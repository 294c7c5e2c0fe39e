-- ===== src/Sdio/Clock.antt =====
-- The clock divider of src/sdio/sdio_protocol.h: it is the smallest that keeps the clock within the
-- target.
use rpi5_wifi_driver_win11ar.Prelude.{
  ℕ, zero, suc, ◌+◌, ◌*◌, ◌/◌, ◌%◌, ◌≤◌, ◌<◌, ◌≡◌, ◌⊎◌, refl, inl, inr, subst, sym, arith, ltb, leb,
  ◌==◌, each_branch, Bool-cases,
}
use rpi5_wifi_driver_win11ar.Sdio.{real_divisor, clock_divider}

pub le-or-lt : (a b : ℕ) → (a ≤ b) ⊎ (b < a)
le-or-lt a b = elim (Bool-cases (leb a b)) [
  | inl e ↦ inl (ground (arith, e))
  | inr e ↦ inr (ground (arith, e))
]

le-cases : (a b : ℕ) → a ≤ b → (a ≡ b) ⊎ (a < b)
le-cases a b h = elim (Bool-cases (a == b)) [
  | inl e ↦ inl (ground (arith, e))
  | inr e ↦ inr (ground (arith, e))
]

-- What the loop finds from a divisor on: an even divisor, good or the last, and none before it good.
record Found (base target from divisor : ℕ) : Type 0 where
  after : from ≤ divisor
  parity : divisor % 2 ≡ 0
  last : divisor ≤ 2046
  good : (base ≤ target * divisor) ⊎ (divisor ≡ 2046)
  least : (k : ℕ) → from ≤ 2 * k → 2 * k < divisor → target * (2 * k) < base

Found-next :
    (base target from divisor : ℕ)
    → from % 2 ≡ 0
    → target * from < base
    → Found base target (from + 2) divisor
    → Found base target from divisor
Found-next base target from divisor e large f = record {
  after = omega (arith, f.after);
  parity = f.parity;
  last = f.last;
  good = f.good;
  least = λ k p q. elim (le-cases from (2 * k) p) [
    | inl same ↦ subst (λ n. target * n < base) same large
    | inr more ↦ f.least k (omega arith) q
  ];
}

real_divisor-Found :
    (fuel base target from : ℕ)
    → from % 2 ≡ 0
    → from ≤ 2046
    → 2046 ≤ from + 2 * fuel
    → Found base target from (real_divisor fuel base target from)
unfolding real_divisor
real_divisor-Found zero base target from e le enough = record {
  after = omega arith;
  parity = e;
  last = le;
  good = inr (omega arith);
  least = λ k p q. absurd (omega arith);
}
real_divisor-Found (suc fuel) base target from e le enough =
    each_branch (Found base target from) (ltb from 2046)
      (λ more.
        each_branch (Found base target from) (leb base (target * from))
          (λ fits. record {
            after = omega arith;
            parity = e;
            last = le;
            good = inl (ground arith);
            least = λ k p q. absurd (omega arith);
          })
          (λ large.
            let more' : from < 2046 = ground arith in
            Found-next base target from _ e (ground arith) (
              real_divisor-Found fuel base target (from + 2) (omega arith) (omega arith)
                (omega arith))))
      (λ end. record {
        after = omega arith;
        parity = e;
        last = le;
        good = inr (ground arith);
        least = λ k p q. absurd (omega arith);
      })

divider-Found :
    (base target : ℕ)
    → 0 < target
    → target < base
    → (divisor : ℕ) × Found base target 2 divisor × (clock_divider base target ≡ divisor / 2)
unfolding clock_divider
divider-Found base target h lt =
    let f = real_divisor-Found 1022 base target 2 refl (omega arith) (omega arith) in
    (real_divisor 1022 base target 2, f, ground (arith, f.last))

-- SdioCalculateClockDivider for a base clock above a positive target gives a divider from 1 to 1023, and
-- the divided clock is within the target unless the divider is the last one.
pub clock_divider_lem :
    (base target : ℕ)
    → 0 < target
    → target < base
    → (1 ≤ clock_divider base target)
      × (clock_divider base target ≤ 1023)
      × ((base ≤ target * (2 * clock_divider base target)) ⊎ (clock_divider base target ≡ 1023))
clock_divider_lem base target h lt =
    let (divisor, f, e) = divider-Found base target h lt in
    let twice : 2 * clock_divider base target ≡ divisor = omega (arith, e, f.parity) in
    (
      omega (arith, e, f.after),
      omega (arith, e, f.last),
      elim f.good [
        | inl fits ↦ inl (subst (λ n. base ≤ target * n) (sym twice) fits)
        | inr last ↦ inr (omega (arith, e, last))
      ],
    )

-- For a base clock above a positive target the divider is the smallest that will do: any divider of
-- at least 1 that keeps the clock within the target is no smaller.
pub clock_divider_least :
    (base target k : ℕ)
    → 0 < target
    → target < base
    → 1 ≤ k
    → base ≤ target * (2 * k)
    → clock_divider base target ≤ k
clock_divider_least base target k h lt one fits =
    let (divisor, f, e) = divider-Found base target h lt in
    elim (le-or-lt divisor (2 * k)) [
      | inl enough ↦ omega (arith, e, f.parity, enough)
      | inr before ↦ absurd (omega (arith, fits, f.least k (omega arith) before))
    ]
