-- ===== src/Prelude/Bits.antt =====
-- Laws of `bit_and` and `bit_or` at variables: one binary digit at a time, then fields and masks.
use Prim.Native.Nat.{
  ℕ, zero, suc, ◌+◌, ◌-◌, ◌*◌, ◌/◌, ◌%◌, ◌^◌, ◌≤◌, ◌<◌, min, max, bit_and, bit_or, digits,
  bit_and-bitwise, bit_or-bitwise,
}
use mathlib.Core.Path.{◌≡◌, refl, sym, ap, ap₂, ◌∙◌, subst}
use native.Mathlib.Nat.{
  add-zero, pow-suc, div-eq_of_lt-le, div-mul-le_self, lt-div-mul-add, mod-add-div', mod_self,
}
use native.Mathlib.Omega.{arith}

-- The digitwise operation that both stand for: `base` is its value at a first argument 0, and
-- `join` combines two digits. The count of digits matters only up to the first argument.
module _ (base : ℕ → ℕ) (join : ℕ → ℕ → ℕ) where
  digits_zero : (k y : ℕ) → digits base join k 0 y ≡ base y
  digits_zero zero y = refl
  digits_zero (suc k) y = refl

  digits_enough : (x y k l : ℕ) → x ≤ k → x ≤ l → digits base join k x y ≡ digits base join l x y
  digits_enough zero y k l p q = digits_zero k y ∙ sym (digits_zero l y)
  digits_enough (suc x) y (suc k) (suc l) p q =
      ap (λ high. high * 2 + join (suc x % 2) (y % 2))
        (digits_enough (suc x / 2) (y / 2) k l (omega arith) (omega arith))
  digits_enough (suc x) y zero l p q = absurd (omega arith)
  digits_enough (suc x) y (suc k) zero p q = absurd (omega arith)

-- What does not depend on which of the two it is: an operation that takes one digit at a time.
module _ (op join : ℕ → ℕ → ℕ) (base : ℕ → ℕ) (at_zero : (y : ℕ) → op 0 y ≡ base y)
    (unfolds : (x y : ℕ) → op x y ≡ digits base join x x y)
    (base_step : (y : ℕ) → base y ≡ base (y / 2) * 2 + join 0 (y % 2)) where
  one_digit : (x y : ℕ) → op x y ≡ op (x / 2) (y / 2) * 2 + join (x % 2) (y % 2)
  one_digit zero y =
      at_zero y ∙ base_step y ∙ ap (λ b. b * 2 + join 0 (y % 2)) (sym (at_zero (y / 2)))
  one_digit (suc x) y =
      unfolds (suc x) y
      ∙ ap (λ high. high * 2 + join (suc x % 2) (y % 2))
          (digits_enough base join (suc x / 2) (y / 2) x (suc x / 2) (omega arith) (omega arith)
            ∙ sym (unfolds (suc x / 2) (y / 2)))

-- Induction that halves.
halving_upto {ℓ} :
    (P : ℕ → Type ℓ) → P 0 → ((x : ℕ) → P (x / 2) → P x) → (bound x : ℕ) → x ≤ bound → P x
halving_upto P base step zero x h = subst P (omega arith) base
halving_upto P base step (suc bound) zero h = base
halving_upto P base step (suc bound) (suc x) h =
    step (suc x) (halving_upto P base step bound (suc x / 2) (omega arith))

pub halving {ℓ} : (P : ℕ → Type ℓ) → P 0 → ((x : ℕ) → P (x / 2) → P x) → (x : ℕ) → P x
halving P base step x = halving_upto P base step x x (omega arith)

pub zero-bit_or : (b : ℕ) → bit_or 0 b ≡ b
zero-bit_or b = bit_or-bitwise 0 b

pub zero-bit_and : (b : ℕ) → bit_and 0 b ≡ 0
zero-bit_and b = bit_and-bitwise 0 b

pub bit_or_step : (a b : ℕ) → bit_or a b ≡ bit_or (a / 2) (b / 2) * 2 + max (a % 2) (b % 2)
bit_or_step = one_digit bit_or max (λ y. y) zero-bit_or bit_or-bitwise (λ y. omega arith)

pub bit_and_step : (a b : ℕ) → bit_and a b ≡ bit_and (a / 2) (b / 2) * 2 + min (a % 2) (b % 2)
bit_and_step = one_digit bit_and min (λ y. zero) zero-bit_and bit_and-bitwise (λ y. omega arith)

-- Zero on the right, by halving.
pub bit_or-zero : (a : ℕ) → bit_or a 0 ≡ a
bit_or-zero a = halving (λ x. bit_or x 0 ≡ x) refl (λ x h. omega (arith, h, bit_or_step x 0)) a

pub bit_and-zero : (a : ℕ) → bit_and a 0 ≡ 0
bit_and-zero a = halving (λ x. bit_and x 0 ≡ 0) refl (λ x h. omega (arith, h, bit_and_step x 0)) a

-- Fields that do not overlap are joined by addition.
pub bit_or-add : (k a b : ℕ) → b < 2 ^ k → bit_or (a * 2 ^ k) b ≡ a * 2 ^ k + b
bit_or-add zero a b h = let e : b ≡ 0 = omega arith in rw (e, add-zero) (bit_or-zero (a * 1))
bit_or-add (suc k) a b h =
    let e : a * (2 ^ k * 2) / 2 ≡ a * 2 ^ k = omega arith in
    rw (pow-suc 2 k) (
      omega (
        arith,
        bit_or_step (a * (2 ^ k * 2)) b,
        ap (λ t. bit_or t (b / 2)) e,
        bit_or-add k a (b / 2) (omega (arith, pow-suc 2 k)),
      ))

-- The low field may also stand first.
pub add-bit_or : (k a b : ℕ) → b < 2 ^ k → bit_or b (a * 2 ^ k) ≡ b + a * 2 ^ k
add-bit_or zero a b h = let e : b ≡ 0 = omega arith in rw e (omega (arith, zero-bit_or (a * 1)))
add-bit_or (suc k) a b h =
    let e : a * (2 ^ k * 2) / 2 ≡ a * 2 ^ k = omega arith in
    let r = add-bit_or k a (b / 2) (omega (arith, pow-suc 2 k)) in
    rw (pow-suc 2 k)
      (omega (arith, bit_or_step b (a * (2 ^ k * 2)), ap (λ t. bit_or (b / 2) t) e, r))

pub two_pow_pos : (k : ℕ) → 0 < 2 ^ k
two_pow_pos zero = omega arith
two_pow_pos (suc k) = omega (arith, pow-suc 2 k, two_pow_pos k)

div_twice : (a p : ℕ) → 0 < p → a / (p * 2) ≡ a / 2 / p
div_twice a p h =
    div-eq_of_lt-le (p * 2) (omega (arith, div-mul-le_self (a / 2) p))
      (omega (arith, lt-div-mul-add {a = a / 2} {b = p} h))

mod_twice : (a p : ℕ) → 0 < p → a % (p * 2) ≡ a / 2 % p * 2 + a % 2
mod_twice a p h =
    omega (arith, mod-add-div' a (p * 2), ap (λ t. t * p) (div_twice a p h), mod-add-div' (a / 2) p)

-- A mask of k ones.
pub bit_and_mask : (k a : ℕ) → bit_and a (2 ^ k - 1) ≡ a % 2 ^ k
bit_and_mask zero a = omega (arith, bit_and-zero a)
bit_and_mask (suc k) a =
    let e : (2 ^ k * 2 - 1) / 2 ≡ 2 ^ k - 1 = omega (arith, two_pow_pos k) in
    rw (pow-suc 2 k) (
      omega (
        arith,
        two_pow_pos k,
        mod_twice a (2 ^ k) (two_pow_pos k),
        bit_and_step a (2 ^ k * 2 - 1),
        ap (λ t. bit_and (a / 2) t) e,
        bit_and_mask k (a / 2),
      ))

-- A single bit.
pub bit_and_bit : (k a : ℕ) → bit_and a (2 ^ k) ≡ a / 2 ^ k % 2 * 2 ^ k
bit_and_bit zero a = omega (arith, bit_and_step a 1, bit_and-zero (a / 2))
bit_and_bit (suc k) a =
    let e : 2 ^ k * 2 / 2 ≡ 2 ^ k = omega arith in
    rw (pow-suc 2 k) (
      omega (
        arith,
        bit_and_step a (2 ^ k * 2),
        ap (λ t. bit_and (a / 2) t) e,
        bit_and_bit k (a / 2),
        ap (λ t. t % 2 * 2 ^ k) (div_twice a (2 ^ k) (two_pow_pos k)),
      ))

pub two_pow_le : (j k : ℕ) → j ≤ k → 2 ^ j ≤ 2 ^ k
two_pow_le zero k h = omega (arith, two_pow_pos k)
two_pow_le (suc j) zero h = absurd (omega arith)
two_pow_le (suc j) (suc k) h = omega (arith, pow-suc 2 j, pow-suc 2 k, two_pow_le j k (omega arith))

-- A power of two shares no bit with the number below it.
pub two_pow_and : (k : ℕ) → bit_and (2 ^ k) (2 ^ k - 1) ≡ 0
two_pow_and k = omega (arith, bit_and_mask k (2 ^ k), mod_self (2 ^ k))

-- A shift of a conjunction, and its bits.
pub bit_and-div : (k a b : ℕ) → bit_and a b / 2 ^ k ≡ bit_and (a / 2 ^ k) (b / 2 ^ k)
bit_and-div zero a b =
    let e : a / 1 ≡ a = omega arith in let f : b / 1 ≡ b = omega arith in rw (e, f) (omega arith)
bit_and-div (suc k) a b =
    let e : bit_and a b / 2 ≡ bit_and (a / 2) (b / 2) = omega (arith, bit_and_step a b) in
    let p = two_pow_pos k in
    rw (pow-suc 2 k) (
      div_twice (bit_and a b) (2 ^ k) p
      ∙ ap (λ t. t / 2 ^ k) e
      ∙ bit_and-div k (a / 2) (b / 2)
      ∙ sym (ap₂ bit_and (div_twice a (2 ^ k) p) (div_twice b (2 ^ k) p)))

pub bit_and-bit : (k a b : ℕ) → bit_and a b / 2 ^ k % 2 ≡ min (a / 2 ^ k % 2) (b / 2 ^ k % 2)
bit_and-bit k a b = omega (arith, bit_and-div k a b, bit_and_step (a / 2 ^ k) (b / 2 ^ k))
