-- ===== src/Country/Requests.antt =====
-- What src/cyw43455/network_protocol.h tells of a country.
use rpi5_wifi_driver_win11ar.Prelude.{
  ℕ, zero, suc, ◌+◌, ◌*◌, ◌≤◌, ◌≡◌, ap, inl, inr, Bool, true, false, ◌&&◌, ◌||◌, Option, none, some,
  arith, ltb, ◌==◌, Bool-cases, subst,
}
use rpi5_wifi_driver_win11ar.Wire.{Memory, skip, le32, store}
use rpi5_wifi_driver_win11ar.Country.{
  ConnectRequest, is_letter, clear12, country_request, country_matches, bad_code, scan_codes,
  with_count, bad_list, country_list, is_valid_connect,
}

abbrev pub matched : ℕ → ℕ → Option Memory → Bool
matched letter0 letter1 none = false
matched letter0 letter1 (some q) = country_matches letter0 letter1 q 12

letters-matched :
    (letter0 letter1 : ℕ) (p : Memory)
    → is_letter letter0 ≡ true
    → is_letter letter1 ≡ true
    → matched letter0 letter1 (country_request letter0 letter1 p) ≡ true
unfolding country_request country_matches is_letter store clear12 le32
letters-matched letter0 letter1 p h k = ground (arith, h, k)

valid-letters :
    (r : ConnectRequest)
    → is_valid_connect r ≡ true
    → (is_letter r.country0 ≡ true) × (is_letter r.country1 ≡ true)
unfolding is_valid_connect
valid-letters r h = ground (arith, h)

-- Each valid connect request has a country request, whatever the buffer held before, and an answer
-- of the radio that repeats it is accepted as the requested country.
pub country_request-matched :
    (r : ConnectRequest) (p : Memory)
    → is_valid_connect r ≡ true
    → matched r.country0 r.country1 (country_request r.country0 r.country1 p) ≡ true
country_request-matched r p h =
    let l = valid-letters r h in letters-matched r.country0 r.country1 p l.0 l.1

-- Whether one of `left` codes from `i` on is the country.
abbrev pub any_code : Memory → ℕ → ℕ → ℕ → ℕ → Bool
any_code p letter0 letter1 zero i = false
any_code p letter0 letter1 (suc left) i =
    (p (16 + 4 * i + 0) == letter0 && (p (16 + 4 * i + 1) == letter1 && p (16 + 4 * i + 2) == 0))
    || any_code p letter0 letter1 left (i + 1)

scan_codes_lem :
    (p : Memory) (letter0 letter1 left i : ℕ) (found listed : Bool)
    → scan_codes p letter0 letter1 left i found ≡ some listed
    → listed ≡ (found || any_code p letter0 letter1 left i)
unfolding scan_codes
scan_codes_lem p letter0 letter1 zero i found listed e =
    let same : found ≡ listed = cc in ground (arith, same)
scan_codes_lem p letter0 letter1 (suc left) i found listed e = elim (Bool-cases (bad_code p i)) [
  | inl bad ↦ cc (rw (scan_codes, bad) at e)
  | inr good ↦
      (let r =
          scan_codes_lem p letter0 letter1 left (i + 1) _ listed (rw (scan_codes, good) at e) in
        ground (arith, r))
]

list_fits :
    (p : Memory) (length count : ℕ)
    → ltb length 16 ≡ false
    → bad_list p length ≡ false
    → le32 (skip 12 p) ≡ count
    → 16 + 4 * count ≤ length
unfolding bad_list
list_fits p length count long good e = ground (arith, long, good, e)

with_count-inverse :
    (n count : ℕ) (o : Option Bool) (listed : Bool)
    → with_count n o ≡ some (count, listed)
    → (n ≡ count) × (o ≡ some listed)
unfolding with_count
with_count-inverse n count none listed e = cc
with_count-inverse n count (some found) listed e =
    let number : n ≡ count = cc in let same : found ≡ listed = cc in (number, ap some same)

-- An accepted country list lies whole within the answer, and the country is listed exactly when one
-- of its codes is the two letters with a zero after them.
pub country_list_lem :
    (p : Memory) (length letter0 letter1 count : ℕ) (listed : Bool)
    → country_list p length letter0 letter1 ≡ some (count, listed)
    → (16 + 4 * count ≤ length) × (listed ≡ any_code p letter0 letter1 count 0)
unfolding country_list
country_list_lem p length letter0 letter1 count listed e = elim (Bool-cases (ltb length 16)) [
  | inl short ↦ cc (rw (country_list, short) at e)
  | inr long ↦ elim (Bool-cases (bad_list p length)) [
    | inl bad ↦ cc (rw (country_list, long, bad) at e)
    | inr good ↦
        (let w = with_count-inverse _ count _ listed (rw (country_list, long, good) at e) in
          let s = scan_codes_lem p letter0 letter1 (le32 (skip 12 p)) 0 false listed w.1 in
          (
            list_fits p length count long good w.0,
            subst (λ n. listed ≡ any_code p letter0 letter1 n 0) w.0 s,
          ))
  ]
]
