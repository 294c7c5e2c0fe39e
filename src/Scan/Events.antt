-- ===== src/Scan/Events.antt =====
-- CywScanEvent of src/cyw43455/scan_sequence.h: the worker's handler of a scan event of the firmware.
pub mod Invariant
use rpi5_wifi_driver_win11ar.Prelude.{
  ℕ, Bool, true, false, not, ◌||◌, Option, none, some, List, [], ◌∷◌, ltb, ◌==◌, ◌!=◌,
  if◌then◌else◌,
}
use rpi5_wifi_driver_win11ar.Wire.{Memory}
use rpi5_wifi_driver_win11ar.Scan.{
  Entry, Parsed, stale, refused, accepted, ◌>>=◌, u16, u32, parse_partial,
}
use rpi5_wifi_driver_win11ar.Scan.Table.{Report, scan_add}

-- The fields Scan* of CYW_NETWORK that the handler uses: ScanBusy, ScanAcceptEvents, ScanComplete,
-- ScanEventStatus, ScanSyncId and ScanReport.
pub record ScanState : Type 0 where
  pub busy : Bool
  pub accepting : Bool
  pub complete : Bool
  pub status : ℕ
  pub sync : ℕ
  pub report : Report

-- The arguments EventStatus, Payload (none is NULL) and Length.
pub record ScanEvent : Type 0 where
  pub status : ℕ
  pub payload : Option Memory
  pub length : ℕ

-- ScanComplete and ScanEventStatus are set.
unfoldable pub finish_scan : ScanState → ℕ → ScanState
finish_scan s status = record s { complete = true; status = status }

unfoldable pub parse_event : ℕ → Option Memory → ℕ → Option Parsed
parse_event sync none n = some refused
parse_event sync (some p) n = parse_partial p n n sync

unfoldable pub take_parsed : ScanState → Parsed → ScanState
take_parsed s stale = s
take_parsed s refused = finish_scan s 1
take_parsed s (accepted e) = record s { report = scan_add s.report e }

unfoldable pub terminal_status : ℕ → ℕ → ℕ → ℕ
terminal_status declared n status = if ltb declared 12 || ltb n declared then 1 else status

-- An event that ends the scan, with a payload of n bytes.
unfoldable pub take_payload : ScanState → Option Memory → ℕ → ℕ → Option ScanState
take_payload s none n status = some (finish_scan s 1)
take_payload s (some p) n status =
    if ltb n 12
    then some (finish_scan s 1)
    else u16 p n 8 >>= λ found.
        if found != s.sync
        then some s
        else u32 p n 0 >>= λ declared. some (finish_scan s (terminal_status declared n status))

unfoldable pub is_deaf : ScanState → Bool
is_deaf s = not s.busy || (not s.accepting || s.complete)

-- CywScanEvent.
unfoldable pub scan_event : ScanState → ScanEvent → Option ScanState
scan_event s e =
    if is_deaf s
    then some s
    else if e.status == 8
    then (parse_event s.sync e.payload e.length >>= λ result. some (take_parsed s result))
    else if e.length != 0
    then take_payload s e.payload e.length e.status
    else some (finish_scan s e.status)

-- The events of a scan in the order in which the worker decodes them.
unfoldable pub scan_events : ScanState → List ScanEvent → Option ScanState
scan_events s [] = some s
scan_events s (e ∷ es) = scan_event s e >>= λ t. scan_events t es
