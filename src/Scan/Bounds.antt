-- ===== src/Scan/Bounds.antt =====
-- The parser of src/cyw43455/scan_protocol.h reads nothing outside the record that it is given.
use rpi5_wifi_driver_win11ar.Prelude.{
  ℕ, zero, suc, ◌+◌, ◌-◌, ◌*◌, ◌/◌, ◌≤◌, ◌<◌, ◌≡◌, refl, Bool, true, false, ◌||◌, Option, none,
  some, List, [], ◌∷◌, ltb, ◌==◌, ◌!=◌, if◌then◌else◌, length, arith, ltb_false→le,
}
use rpi5_wifi_driver_win11ar.Wire.{Memory}
use rpi5_wifi_driver_win11ar.Scan.{
  ◌>>=◌, read, u16, u32, matches, suite, suites, rsn_end, rsn_management, rsn_pmkids, rsn_caps,
  is_bad_count, rsn_keys, rsn_pairs, rsn,
}

abbrev pub Within : {A : Type 0} → (A → Type 0) → Option A → Type 0
Within P none = ⊥
Within P (some a) = P a

-- Nothing was read outside the buffer, and the result has a property.
pub record Reads {A : Type 0} (P : A → Type 0) (m : Option A) : Type 0 where
  pub held : Within P m

abbrev pub Any : {A : Type 0} → A → Type 0
Any a = Unit {0}

bind-Within :
    {A B : Type 0} {P : A → Type 0} {Q : B → Type 0} (m : Option A) (k : A → Option B)
    → Within P m
    → ((a : A) → P a → Reads Q (k a))
    → Reads Q (m >>= k)
unfolding ◌>>=◌
bind-Within none k h x = absurd h
bind-Within (some a) k h x = x a h

pub bind-Reads :
    {A B : Type 0} {P : A → Type 0} {Q : B → Type 0} {m : Option A} {k : A → Option B}
    → Reads P m
    → ((a : A) → P a → Reads Q (k a))
    → Reads Q (m >>= k)
bind-Reads {m = m} {k = k} h x = bind-Within m k h.held x

pub some-Reads : {A : Type 0} {P : A → Type 0} (a : A) → P a → Reads P (some a)
some-Reads a h = record { held = h }

pub if-Reads :
    {A : Type 0} {P : A → Type 0} (b : Bool) {m n : Option A}
    → (b ≡ true → Reads P m)
    → (b ≡ false → Reads P n)
    → Reads P (if b then m else n)
if-Reads true x y = x refl
if-Reads false x y = y refl

module _ (p : Memory) (size : ℕ) where
  pub read-Reads : (i : ℕ) → i < size → Reads Any (read p size i)
  unfolding read
  read-Reads i h =
      if-Reads (ltb i size) (λ e. some-Reads _ tt)
        (λ e. absurd (omega (arith, ltb_false→le i size e)))

  pub u16-Reads : (at : ℕ) → at + 1 < size → Reads Any (u16 p size at)
  unfolding u16
  u16-Reads at h =
      bind-Reads (read-Reads at (omega arith))
        λ a u. bind-Reads (read-Reads (at + 1) h) λ b v. some-Reads _ tt

  pub u32-Reads : (at : ℕ) → at + 3 < size → Reads Any (u32 p size at)
  unfolding u32
  u32-Reads at h =
      bind-Reads (u16-Reads at (omega arith))
        λ a u. bind-Reads (u16-Reads (at + 2) (omega arith)) λ b v. some-Reads _ tt

  pub matches-Reads :
      (xs : List ℕ) (at : ℕ) → at + length xs ≤ size → Reads Any (matches p size xs at)
  unfolding matches
  matches-Reads [] at h = some-Reads true tt
  matches-Reads (x ∷ xs) at h = bind-Reads (read-Reads at (omega arith)) λ a u.
      if-Reads (a == x) (λ e. matches-Reads xs (at + 1) (omega arith)) (λ e. some-Reads false tt)

  suites-Reads :
      (n at kind : ℕ) (found : Bool) → at + 4 * n ≤ size → Reads Any (suites p size n at kind found)
  unfolding suites suite
  suites-Reads zero at kind found h = some-Reads found tt
  suites-Reads (suc n) at kind found h =
      bind-Reads (matches-Reads (0 ∷ 15 ∷ 172 ∷ kind ∷ []) at (omega arith))
        λ b u. suites-Reads n (at + 4) kind (found || b) (omega arith)

  rsn_end-Reads :
      (at n off caps : ℕ) (group pair psk : Bool) → Reads Any (rsn_end at n off caps group pair psk)
  unfolding rsn_end
  rsn_end-Reads at n off caps group pair psk =
      if-Reads (off != n) (λ e. some-Reads _ tt) (λ e. some-Reads _ tt)

  rsn_management-Reads :
      (at n off caps : ℕ) (group pair psk : Bool)
      → Reads Any (rsn_management p size at n off caps group pair psk)
  unfolding rsn_management
  rsn_management-Reads at n off caps group pair psk =
      if-Reads (ltb off n)
        (λ e.
          if-Reads (n - off != 4) (λ f. some-Reads _ tt)
            (λ f. rsn_end-Reads at n (off + 4) caps group pair psk))
        (λ e. rsn_end-Reads at n off caps group pair psk)

  rsn_pmkids-Reads :
      (at n off caps : ℕ) (group pair psk : Bool)
      → at + n ≤ size
      → Reads Any (rsn_pmkids p size at n off caps group pair psk)
  unfolding rsn_pmkids
  rsn_pmkids-Reads at n off caps group pair psk h =
      if-Reads (ltb off n)
        (λ e.
          if-Reads (ltb (n - off) 2) (λ f. some-Reads _ tt)
            (λ f.
              bind-Reads (u16-Reads (at + off) (omega (arith, ltb_false→le (n - off) 2 f)))
                λ count u.
                  if-Reads (ltb ((n - (off + 2)) / 16) count) (λ g. some-Reads _ tt)
                    (λ g. rsn_management-Reads at n _ caps group pair psk)))
        (λ e. rsn_end-Reads at n off caps group pair psk)

  rsn_caps-Reads :
      (at n off : ℕ) (group pair psk : Bool)
      → at + n ≤ size
      → Reads Any (rsn_caps p size at n off group pair psk)
  unfolding rsn_caps
  rsn_caps-Reads at n off group pair psk h =
      if-Reads (ltb off n)
        (λ e.
          if-Reads (ltb (n - off) 2) (λ f. some-Reads _ tt)
            (λ f.
              bind-Reads (u16-Reads (at + off) (omega (arith, ltb_false→le (n - off) 2 f)))
                λ caps u. rsn_pmkids-Reads at n (off + 2) caps group pair psk h))
        (λ e. rsn_pmkids-Reads at n off 0 group pair psk h)

  fitting_count :
      (n off count : ℕ) → off ≤ n → is_bad_count n off count ≡ false → off + 4 * count ≤ n
  unfolding is_bad_count
  fitting_count n off count h e = ground arith

  rsn_keys-Reads :
      (at n off : ℕ) (group pair : Bool)
      → at + n ≤ size
      → Reads Any (rsn_keys p size at n off group pair)
  unfolding rsn_keys
  rsn_keys-Reads at n off group pair h =
      if-Reads (ltb (n - off) 2) (λ e. some-Reads _ tt)
        λ e.
          let room : 2 ≤ n - off = ltb_false→le (n - off) 2 e in
          bind-Reads (u16-Reads (at + off) (omega arith)) λ count u.
            if-Reads (is_bad_count n (off + 2) count) (λ f. some-Reads _ tt)
              λ f.
                bind-Reads
                  (suites-Reads count (at + (off + 2)) 2 false
                    (omega (arith, fitting_count n (off + 2) count (omega arith) f)))
                  λ psk v. rsn_caps-Reads at n _ group pair psk h

  pub rsn-Reads : (at n : ℕ) → at + n ≤ size → Reads Any (rsn p size at n)
  unfolding rsn rsn_pairs suite
  rsn-Reads at n h =
      if-Reads (ltb n 8) (λ e. some-Reads _ tt)
        λ e.
          let room : 8 ≤ n = ltb_false→le n 8 e in
          bind-Reads (u16-Reads at (omega arith)) λ version u.
            if-Reads (version != 1) (λ f. some-Reads _ tt)
              λ f.
                bind-Reads (matches-Reads (0 ∷ 15 ∷ 172 ∷ 4 ∷ []) (at + 2) (omega arith)) λ group v.
                  bind-Reads (u16-Reads (at + 6) (omega arith)) λ count w.
                    if-Reads (is_bad_count n 8 count) (λ g. some-Reads _ tt)
                      λ g.
                        bind-Reads
                          (suites-Reads count (at + 8) 4 false
                            (omega (arith, fitting_count n 8 count room g)))
                          λ pair x. rsn_keys-Reads at n _ group pair h
