-- ===== src/Scan/Table.antt =====
-- CywScanAdd of src/cyw43455/scan_protocol.h: the table of the networks found, where a network is
-- known by its address and its name.
pub mod Latest
pub mod Distinct
use rpi5_wifi_driver_win11ar.Prelude.{
  ℕ, Bool, true, false, ◌&&◌, Option, none, some, List, [], ◌∷◌, ◌++◌, ltb, ◌==◌, ◌!=◌,
  if◌then◌else◌, bit_and, bit_or, length,
}
use rpi5_wifi_driver_win11ar.Scan.{Entry}

-- CYW_SCAN_MAX_ENTRIES.
abbrev pub max_entries : ℕ
max_entries = 64

-- Count is the length of `entries`.
pub record Report : Type 0 where
  pub entries : List Entry
  pub flags : ℕ

-- memcmp of two arrays of known lengths, and the comparison of the lengths.
unfoldable pub same_bytes : List ℕ → List ℕ → Bool
same_bytes [] [] = true
same_bytes [] (y ∷ ys) = false
same_bytes (x ∷ xs) [] = false
same_bytes (x ∷ xs) (y ∷ ys) = x == y && same_bytes xs ys

unfoldable pub same_network : Entry → Entry → Bool
same_network a b = same_bytes a.bssid b.bssid && same_bytes a.ssid b.ssid

unfoldable pub cons_entry : Entry → Option (List Entry) → Option (List Entry)
cons_entry x none = none
cons_entry x (some xs) = some (x ∷ xs)

-- The loop over the entries: the first of the same network is replaced.
unfoldable pub replace_entry : Entry → List Entry → Option (List Entry)
replace_entry e [] = none
replace_entry e (x ∷ xs) =
    if same_network x e then some (e ∷ xs) else cons_entry x (replace_entry e xs)

unfoldable pub truncate : Report → Report
truncate r = record { entries = r.entries; flags = bit_or r.flags 1 }

unfoldable pub add_replaced : Report → Entry → Option (List Entry) → Report
add_replaced r e (some xs) = record { entries = xs; flags = r.flags }
add_replaced r e none =
    if length r.entries == max_entries
    then truncate r
    else record { entries = r.entries ++ (e ∷ []); flags = r.flags }

-- CywScanAdd.
unfoldable pub scan_add : Report → Entry → Report
scan_add r e =
    if ltb max_entries (length r.entries)
    then truncate r
    else add_replaced r e (replace_entry e r.entries)

-- The flag CYW_SCAN_TRUNCATED.
unfoldable pub is_truncated : Report → Bool
is_truncated r = bit_and r.flags 1 != 0
