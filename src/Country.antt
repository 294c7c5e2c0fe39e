-- ===== src/Country.antt =====
-- The country requests and the connect request of src/cyw43455/network_protocol.h.
pub mod Requests
mod Tests
use rpi5_wifi_driver_win11ar.Prelude.{
  ℕ, zero, suc, ◌+◌, ◌-◌, ◌*◌, ◌/◌, Bool, true, false, not, ◌&&◌, ◌||◌, Option, none, some, ltb,
  leb, ◌==◌, ◌!=◌, if◌then◌else◌, bit_and,
}
use rpi5_wifi_driver_win11ar.Wire.{Memory, skip, le32, store}

-- CywCountryRequest: the buffer with the request, from a buffer `p`; `letter0` and `letter1` are the
-- country code.
unfoldable pub is_letter : ℕ → Bool
is_letter c = leb 65 c && leb c 90

unfoldable pub clear12 : Memory → Memory
clear12 p i = if ltb i 12 then 0 else p i

unfoldable pub country_request : ℕ → ℕ → Memory → Option Memory
country_request letter0 letter1 p =
    if not (is_letter letter0) || not (is_letter letter1)
    then none
    else some (store (store (store (store (clear12 p) 8 letter0) 0 letter0) 9 letter1) 1 letter1)

-- CywCountryMatches.
unfoldable pub country_matches : ℕ → ℕ → Memory → ℕ → Bool
country_matches letter0 letter1 value length =
    length == 12
    && (value 0 == letter0
        && (value 1 == letter1
            && (value 2 == 0
                && (value 3 == 0
                    && (value 8 == letter0
                        && (value 9 == letter1
                            && (value 10 == 0
                                && (value 11 == 0
                                    && bit_and (le32 (skip 4 value)) 0x80000000 == 0))))))))

-- A code without its two letters, or with a fourth byte.
unfoldable pub bad_code : Memory → ℕ → Bool
bad_code p i = let code = skip (16 + 4 * i) p in code 0 == 0 || (code 1 == 0 || code 3 != 0)

-- The loop of CywCountryList over `left` codes from the code `i` on.
unfoldable pub scan_codes : Memory → ℕ → ℕ → ℕ → ℕ → Bool → Option Bool
scan_codes p letter0 letter1 zero i found = some found
scan_codes p letter0 letter1 (suc left) i found =
    let code = skip (16 + 4 * i) p in
    let same = code 0 == letter0 && (code 1 == letter1 && code 2 == 0) in
    let later = scan_codes p letter0 letter1 left (i + 1) (if same then true else found) in
    if bad_code p i then none else later

-- CywCountryList: how many codes there are, and whether the country is among them.
unfoldable pub with_count : ℕ → Option Bool → Option (ℕ × Bool)
with_count n none = none
with_count n (some found) = some (n, found)

unfoldable pub bad_list : Memory → ℕ → Bool
bad_list p length =
    let bytes = le32 p in
    let n = le32 (skip 12 p) in
    ltb bytes 16
    || (le32 (skip 4 p) != 0 || (ltb ((bytes - 16) / 4) n || ltb ((length - 16) / 4) n))

unfoldable pub country_list : Memory → ℕ → ℕ → ℕ → Option (ℕ × Bool)
country_list p length letter0 letter1 =
    let n = le32 (skip 12 p) in
    if ltb length 16
    then none
    else if bad_list p length
    then none
    else with_count n (scan_codes p letter0 letter1 n 0 false)

-- CYW_CONNECT_REQUEST, less the name and the key, and CywValidConnect.
pub record ConnectRequest : Type 0 where
  pub version : ℕ
  pub ssid_length : ℕ
  pub country0 : ℕ
  pub country1 : ℕ
  pub reserved0 : ℕ
  pub reserved1 : ℕ

unfoldable pub is_valid_connect : ConnectRequest → Bool
is_valid_connect r =
    r.version == 1
    && (r.ssid_length != 0
        && (leb r.ssid_length 32
            && (is_letter r.country0
                && (is_letter r.country1 && (r.reserved0 == 0 && r.reserved1 == 0)))))
