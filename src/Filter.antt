-- ===== src/Filter.antt =====
-- CywAcceptEthernet of src/cyw43455/network_protocol.h: which received frames the packet filter of
-- NDIS lets through.
pub mod Accepted
mod Tests
use rpi5_wifi_driver_win11ar.Prelude.{
  ℕ, zero, suc, ◌+◌, ◌*◌, Bool, true, false, not, ◌&&◌, ◌||◌, ltb, ◌==◌, if◌then◌else◌, has_bit,
}
use rpi5_wifi_driver_win11ar.Wire.{Memory, skip}

-- memcmp of six bytes.
unfoldable pub same_address : Memory → Memory → Bool
same_address p q =
    p 0 == q 0 && (p 1 == q 1 && (p 2 == q 2 && (p 3 == q 3 && (p 4 == q 4 && p 5 == q 5))))

unfoldable pub is_broadcast : Memory → Bool
is_broadcast p =
    p 0 == 255 && (p 1 == 255 && (p 2 == 255 && (p 3 == 255 && (p 4 == 255 && p 5 == 255))))

-- The loop over the multicast list, `left` addresses from the i-th on.
unfoldable pub in_list : Memory → Memory → ℕ → ℕ → Bool
in_list dst multicast zero i = false
in_list dst multicast (suc left) i =
    let later = in_list dst multicast left (i + 1) in
    if same_address dst (skip (i * 6) multicast) then true else later

-- The filter bits are directed, multicast, all multicast and broadcast.
unfoldable pub accept_ethernet : Memory → Memory → ℕ → Memory → ℕ → Bool
accept_ethernet dst mac filter multicast count =
    if ltb 32 count
    then false
    else if is_broadcast dst
    then has_bit filter 3
    else if has_bit (dst 0) 0
    then (if has_bit filter 2
        then true
        else if has_bit filter 1
        then in_list dst multicast count 0
        else false)
    else has_bit filter 0 && same_address dst mac
