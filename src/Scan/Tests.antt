-- ===== src/Scan/Tests.antt =====
-- The scan of src/cyw43455/scan_protocol.h and src/cyw43455/scan_sequence.h on small inputs.
use rpi5_wifi_driver_win11ar.Prelude.{
  ℕ, ◌≡◌, refl, true, false, none, some, List, [], ◌∷◌, ◌==◌, if◌then◌else◌, arith,
}
use rpi5_wifi_driver_win11ar.Wire.{Memory}
use rpi5_wifi_driver_win11ar.Scan.{
  Entry, accepted, ◌>>=◌, read, u16, u32, matches, suite, suites, rsn_end, rsn_verdict,
  rsn_management, rsn_pmkids, rsn_caps, is_bad_count, rsn_keys, rsn_pairs, rsn, rsn_of, wpa_of,
  walk, scan_security, security_of, security_verdict, bytes, is_zero, is_bad_channel, signed,
  hidden, parse_entry, parse_address, parse_elements, parse_body, parse_partial,
}
use rpi5_wifi_driver_win11ar.Scan.Bounds.{Within}
use rpi5_wifi_driver_win11ar.Scan.Acceptance.{IsParsed, parse_partial-Within}
use rpi5_wifi_driver_win11ar.Scan.Table.{
  Report, is_truncated, scan_add, add_replaced, replace_entry, cons_entry, same_network, same_bytes,
}
use rpi5_wifi_driver_win11ar.Scan.Table.Latest.{lookup, latest, scan_adds, lookup-scan_adds}
use rpi5_wifi_driver_win11ar.Scan.Events.{ScanState, ScanEvent, scan_events}
use rpi5_wifi_driver_win11ar.Scan.Events.Invariant.{IsReport, Kept, scan_events-Kept}

abbrev bytes_at : List (ℕ × ℕ) → Memory
bytes_at [] i = 0
bytes_at ((at, b) ∷ rest) i = if i == at then b else bytes_at rest i

-- An RSN element of WPA2-PSK with CCMP, at offset 140.
abbrev rsn_bytes : List (ℕ × ℕ)
rsn_bytes =
    (140, 48)
    ∷ (141, 20)
    ∷ (142, 1)
    ∷ (145, 15)
    ∷ (146, 172)
    ∷ (147, 4)
    ∷ (148, 1)
    ∷ (151, 15)
    ∷ (152, 172)
    ∷ (153, 4)
    ∷ (154, 1)
    ∷ (157, 15)
    ∷ (158, 172)
    ∷ (159, 2)
    ∷ []

-- A result of sync 1: the network "ab" of channel 6.
abbrev result : Memory
result = bytes_at (
    (0, 162)
    ∷ (8, 1)
    ∷ (10, 1)
    ∷ (12, 109)
    ∷ (16, 150)
    ∷ (20, 2)
    ∷ (25, 7)
    ∷ (28, 17)
    ∷ (30, 2)
    ∷ (31, 97)
    ∷ (32, 98)
    ∷ (90, 200)
    ∷ (91, 255)
    ∷ (100, 6)
    ∷ (128, 128)
    ∷ (132, 22)
    ∷ rsn_bytes)

abbrev network : Entry
network = record {
  ssid = 97 ∷ (98 ∷ []);
  bssid = 2 ∷ (0 ∷ (0 ∷ (0 ∷ (0 ∷ (7 ∷ [])))));
  chanspec = 0;
  rssi = 4294967240;
  security = 2;
  control_channel = 6;
}

result_test : parse_partial result 162 162 1 ≡ some (accepted network)
unfolding parse_partial parse_body parse_elements parse_address parse_entry bytes scan_security walk
    rsn_of wpa_of rsn rsn_pairs rsn_keys rsn_caps rsn_pmkids rsn_management rsn_end rsn_verdict
    suites suite matches u32 u16 read ◌>>=◌ is_bad_count security_of security_verdict is_zero
    is_bad_channel signed hidden
result_test = refl

parse_partial-Within_example : Within IsParsed (parse_partial result 162 162 1)
parse_partial-Within_example = parse_partial-Within result 162 1

abbrev nothing : Report
nothing = record { entries = []; flags = 0 }

abbrev moved : Entry
moved = record network { control_channel = 11 }

abbrev other : Entry
other = record network { ssid = [] }

clear_test : is_truncated (scan_adds nothing (network ∷ (other ∷ (moved ∷ [])))) ≡ false
unfolding scan_adds scan_add add_replaced replace_entry cons_entry same_network same_bytes
    is_truncated
clear_test = refl

lookup-scan_adds_example :
    lookup network (scan_adds nothing (network ∷ (other ∷ (moved ∷ [])))).entries
    ≡ latest network (network ∷ (other ∷ (moved ∷ []))) none
lookup-scan_adds_example =
    lookup-scan_adds network nothing (network ∷ (other ∷ (moved ∷ []))) clear_test

nothing-IsReport : IsReport nothing
nothing-IsReport = record { table = record { count = omega arith; distinct = tt }; entries = tt }

abbrev scanning : ScanState
scanning = record {
  busy = true;
  accepting = true;
  complete = false;
  status = 0;
  sync = 1;
  report = nothing;
}

abbrev events : List ScanEvent
events =
    record { status = 8; payload = some result; length = 162 }
    ∷ (record { status = 0; payload = none; length = 0 } ∷ [])

scan_events-Kept_example : Within Kept (scan_events scanning events)
scan_events-Kept_example = scan_events-Kept scanning events nothing-IsReport
