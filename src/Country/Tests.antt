-- ===== src/Country/Tests.antt =====
-- The country requests of src/cyw43455/network_protocol.h at concrete bytes.
use rpi5_wifi_driver_win11ar.Prelude.{
  ℕ, ◌+◌, ◌*◌, ◌≤◌, ◌≡◌, refl, true, List, [], ◌∷◌, ◌==◌, if◌then◌else◌,
}
use rpi5_wifi_driver_win11ar.Wire.{Memory, le32}
use rpi5_wifi_driver_win11ar.Country.{
  ConnectRequest, country_request, is_valid_connect, is_letter, country_list, bad_list, scan_codes,
  bad_code, with_count,
}
use rpi5_wifi_driver_win11ar.Country.Requests.{
  matched, any_code, country_request-matched, country_list_lem,
}

abbrev bytes_at : List (ℕ × ℕ) → Memory
bytes_at [] i = 0
bytes_at ((place, value) ∷ rest) i = if place == i then value else bytes_at rest i

-- Two codes, US and DE.
abbrev answer : Memory
answer = bytes_at ((0, 24) ∷ ((12, 2) ∷ ((16, 85) ∷ ((17, 83) ∷ ((20, 68) ∷ ((21, 69) ∷ []))))))

abbrev german : ConnectRequest
german = record {
  version = 1;
  ssid_length = 8;
  country0 = 68;
  country1 = 69;
  reserved0 = 0;
  reserved1 = 0;
}

country_request-matched_example : matched 68 69 (country_request 68 69 answer) ≡ true
unfolding is_valid_connect is_letter
country_request-matched_example = country_request-matched german answer refl

country_list_lem_example : (16 + 4 * 2 ≤ 24) × (true ≡ any_code answer 68 69 2 0)
unfolding country_list bad_list scan_codes bad_code with_count le32
country_list_lem_example = country_list_lem answer 24 68 69 2 true refl
