-- ===== src/Filter/Tests.antt =====
-- The packet filter of src/cyw43455/network_protocol.h at a concrete frame.
use rpi5_wifi_driver_win11ar.Prelude.{◌≡◌, ◌≤◌, ◌↔◌, refl, true, [], ◌∷◌, get_or}
use rpi5_wifi_driver_win11ar.Wire.{Memory}
use rpi5_wifi_driver_win11ar.Filter.{accept_ethernet, is_broadcast, same_address, in_list}
use rpi5_wifi_driver_win11ar.Filter.Accepted.{Accepts, accept_ethernet_lem}

abbrev group : Memory
group i = get_or (1 ∷ (0 ∷ (94 ∷ (0 ∷ (0 ∷ (251 ∷ [])))))) i 0

abbrev own : Memory
own i = get_or (2 ∷ (0 ∷ (0 ∷ (0 ∷ (0 ∷ (1 ∷ [])))))) i 0

-- The group is in the list, and bit 2 is set.
listed_test : accept_ethernet group own 0x2 group 1 ≡ true
unfolding accept_ethernet is_broadcast same_address in_list
listed_test = refl

accept_ethernet_lem_example :
    (accept_ethernet group own 0x2 group 1 ≡ true) ↔ ((1 ≤ 32) × Accepts group own 0x2 group 1)
accept_ethernet_lem_example = accept_ethernet_lem group own 0x2 group 1
