-- ===== src/Scan/Events/Invariant.antt =====
-- What holds of a scan of src/cyw43455/scan_sequence.h after any events of the firmware.
use rpi5_wifi_driver_win11ar.Prelude.{
  ℕ, ◌≤◌, Option, none, some, List, [], ◌∷◌, ◌++◌, ltb, ◌==◌, ◌!=◌, length, arith, ltb_false→le,
  each_branch,
}
use rpi5_wifi_driver_win11ar.Wire.{Memory}
use rpi5_wifi_driver_win11ar.Scan.{Entry, Parsed, stale, refused, accepted}
use rpi5_wifi_driver_win11ar.Scan.Bounds.{
  Within, Reads, bind-Reads, some-Reads, if-Reads, u16-Reads, u32-Reads,
}
use rpi5_wifi_driver_win11ar.Scan.Acceptance.{IsEntry, IsParsed, parse_partial-Reads}
use rpi5_wifi_driver_win11ar.Scan.Table.{
  Report, replace_entry, truncate, add_replaced, scan_add, max_entries,
}
use rpi5_wifi_driver_win11ar.Scan.Table.Distinct.{
  Replaced, here, there, Searched, replace_entry-Searched, IsTable, scan_add-IsTable,
}
use rpi5_wifi_driver_win11ar.Scan.Events.{
  ScanState, ScanEvent, finish_scan, parse_event, take_parsed, take_payload, is_deaf, scan_event,
  scan_events,
}

abbrev pub AllEntries : List Entry → Type 0
AllEntries [] = Unit {0}
AllEntries (x ∷ xs) = IsEntry x × AllEntries xs

Replaced-AllEntries :
    {e : Entry} {xs ys : List Entry} → Replaced e xs ys → IsEntry e → AllEntries xs → AllEntries ys
Replaced-AllEntries (here h) i (a, r) = (i, r)
Replaced-AllEntries (there h s) i (a, r) = (a, Replaced-AllEntries s i r)

append-AllEntries :
    (e : Entry) (xs : List Entry) → IsEntry e → AllEntries xs → AllEntries (xs ++ (e ∷ []))
append-AllEntries e [] i a = (i, tt)
append-AllEntries e (x ∷ xs) i (a, r) = (a, append-AllEntries e xs i r)

-- The table is well formed, and each of its networks is one that the parser accepts.
pub record IsReport (r : Report) : Type 0 where
  pub table : IsTable r
  pub entries : AllEntries r.entries

add_replaced-AllEntries :
    (r : Report) (e : Entry) (o : Option (List Entry))
    → Searched e r.entries o
    → IsEntry e
    → AllEntries r.entries
    → AllEntries (add_replaced r e o).entries
unfolding add_replaced truncate
add_replaced-AllEntries r e (some xs) s i a = Replaced-AllEntries s i a
add_replaced-AllEntries r e none s i a =
    each_branch (λ (x : Report). AllEntries x.entries) (length r.entries == max_entries) (λ h. a)
      (λ h. append-AllEntries e r.entries i a)

scan_add-AllEntries :
    (r : Report) (e : Entry) → IsEntry e → AllEntries r.entries → AllEntries (scan_add r e).entries
unfolding scan_add truncate
scan_add-AllEntries r e i a =
    each_branch (λ (x : Report). AllEntries x.entries) (ltb max_entries (length r.entries)) (λ h. a)
      (λ h.
        add_replaced-AllEntries r e (replace_entry e r.entries) (replace_entry-Searched e r.entries)
          i a)

abbrev pub Kept : ScanState → Type 0
Kept s = IsReport s.report

take_parsed-Kept : (s : ScanState) (p : Parsed) → IsParsed p → Kept s → Kept (take_parsed s p)
unfolding take_parsed finish_scan
take_parsed-Kept s stale i k = k
take_parsed-Kept s refused i k = k
take_parsed-Kept s (accepted e) i k = record {
  table = scan_add-IsTable s.report e k.table;
  entries = scan_add-AllEntries s.report e i k.entries;
}

parse_event-Reads : (sync : ℕ) (o : Option Memory) (n : ℕ) → Reads IsParsed (parse_event sync o n)
unfolding parse_event
parse_event-Reads sync none n = some-Reads refused tt
parse_event-Reads sync (some p) n = parse_partial-Reads p n n sync (omega arith)

take_payload-Reads :
    (s : ScanState) (o : Option Memory) (n status : ℕ)
    → Kept s
    → Reads Kept (take_payload s o n status)
unfolding take_payload finish_scan
take_payload-Reads s none n status k = some-Reads _ k
take_payload-Reads s (some p) n status k =
    if-Reads (ltb n 12) (λ a. some-Reads _ k)
      λ a.
        let room : 12 ≤ n = ltb_false→le n 12 a in
        bind-Reads (u16-Reads p n 8 (omega arith)) λ found u.
          if-Reads (found != s.sync) (λ b. some-Reads s k)
            λ b. bind-Reads (u32-Reads p n 0 (omega arith)) λ declared v. some-Reads _ k

scan_event-Reads : (s : ScanState) (e : ScanEvent) → Kept s → Reads Kept (scan_event s e)
unfolding scan_event finish_scan
scan_event-Reads s e k =
    if-Reads (is_deaf s) (λ a. some-Reads s k)
      λ a.
        if-Reads (e.status == 8)
          (λ b.
            bind-Reads (parse_event-Reads s.sync e.payload e.length)
              λ p i. some-Reads _ (take_parsed-Kept s p i k))
          (λ b.
            if-Reads (e.length != 0) (λ c. take_payload-Reads s e.payload e.length e.status k)
              (λ c. some-Reads _ k))

scan_events-Reads : (s : ScanState) (es : List ScanEvent) → Kept s → Reads Kept (scan_events s es)
unfolding scan_events
scan_events-Reads s [] k = some-Reads s k
scan_events-Reads s (e ∷ es) k = bind-Reads (scan_event-Reads s e k) λ t j. scan_events-Reads t es j

-- Whatever events the firmware sends, with whatever payloads, the handler reads nothing outside a
-- payload, and a table that held at most 64 networks, each once and each as the parser accepts it,
-- still does.
pub scan_events-Kept :
    (s : ScanState) (es : List ScanEvent) → IsReport s.report → Within Kept (scan_events s es)
scan_events-Kept s es k = (scan_events-Reads s es k).held
