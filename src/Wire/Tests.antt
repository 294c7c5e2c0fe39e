-- ===== src/Wire/Tests.antt =====
-- The wire formats of src/cyw43455/network_protocol.h at concrete bytes.
use rpi5_wifi_driver_win11ar.Prelude.{
  ℕ, ◌+◌, ◌≤◌, ◌≡◌, refl, List, [], ◌∷◌, arith, leb, if◌then◌else◌, get_or, sub8,
}
use rpi5_wifi_driver_win11ar.Wire.{Memory, le16, put16, sdpcm_header, ethernet_body}
use rpi5_wifi_driver_win11ar.Wire.Numbers.{le16-put16, sdpcm_header-bounds, ethernet_body-bounds}
use rpi5_wifi_driver_win11ar.Wire.Credits.{frames_sent, frames_sent_lem}

abbrev header : List ℕ
header = 40 ∷ (0 ∷ (215 ∷ (255 ∷ (9 ∷ (2 ∷ (0 ∷ (14 ∷ [])))))))

abbrev packet : Memory
packet i = get_or header i 0

abbrev body : Memory
body i = get_or (0x20 ∷ (0 ∷ (0 ∷ (1 ∷ [])))) i 0

le16-put16_example : le16 (put16 packet 0xfedc) ≡ 0xfedc
le16-put16_example = le16-put16 packet 0xfedc (omega arith)

sdpcm_header-bounds_example : (12 ≤ 64) × (12 ≤ 14) × (14 ≤ 40)
unfolding sdpcm_header le16
sdpcm_header-bounds_example = sdpcm_header-bounds packet 64 40 14 refl

ethernet_body-bounds_example : (4 ≤ 8) × (14 ≤ 60) × (60 ≤ 1514) × (8 + 60 ≡ 68)
unfolding ethernet_body
ethernet_body-bounds_example = ethernet_body-bounds body 68 8 60 refl

frames_sent_lem_example : frames_sent 64 250 4 ≡ (if leb (sub8 4 250) 64 then sub8 4 250 else 0)
frames_sent_lem_example = frames_sent_lem 64 250 4 (omega arith) (omega arith) (omega arith)
