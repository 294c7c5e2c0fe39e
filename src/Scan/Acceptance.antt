-- ===== src/Scan/Acceptance.antt =====
-- The walk over the information elements of src/cyw43455/scan_protocol.h comes to its end, and what
-- the parser accepts is a network that the table can hold.
use rpi5_wifi_driver_win11ar.Prelude.{
  ℕ, zero, suc, ◌+◌, ◌-◌, ◌%◌, ◌^◌, ◌⊎◌, ◌≤◌, ◌<◌, ◌≡◌, refl, false, ◌&&◌, ◌||◌, List, [], ◌∷◌, ltb,
  leb, ◌==◌, ◌!=◌, bit_and, length, arith, ltb_false→le,
}
use rpi5_wifi_driver_win11ar.Wire.{Memory}
use rpi5_wifi_driver_win11ar.Scan.{
  Entry, Parsed, stale, refused, accepted, Elements, broken, walked, rsn_of, wpa_of, walk,
  scan_security, bytes, is_zero, is_bad_channel, parse_entry, parse_address, parse_elements,
  parse_body, parse_partial,
}
use rpi5_wifi_driver_win11ar.Scan.Bounds.{
  Within, Reads, Any, bind-Reads, some-Reads, if-Reads, read-Reads, u16-Reads, u32-Reads,
  matches-Reads, rsn-Reads,
}

-- A name and an address of the table's sizes, and a channel of the bands of 2.4 and 5 GHz.
pub record IsEntry (e : Entry) : Type 0 where
  pub name : length e.ssid ≤ 32
  pub address : length e.bssid ≡ 6
  pub nonzero : is_zero e.bssid ≡ false
  pub channel :
      (1 ≤ e.control_channel × e.control_channel ≤ 14)
      ⊎ (32 ≤ e.control_channel × e.control_channel ≤ 196)

abbrev pub IsParsed : Parsed → Type 0
IsParsed stale = Unit {0}
IsParsed refused = Unit {0}
IsParsed (accepted e) = IsEntry e

good_channel : (c : ℕ) → is_bad_channel c ≡ false → (1 ≤ c × c ≤ 14) ⊎ (32 ≤ c × c ≤ 196)
unfolding is_bad_channel
good_channel c e = ground arith

module _ (p : Memory) (size : ℕ) where
  rsn_of-Reads :
      (id at len before : ℕ) → at + len ≤ size → Reads Any (rsn_of p size id at len before)
  unfolding rsn_of
  rsn_of-Reads id at len before h =
      if-Reads (id == 48) (λ e. rsn-Reads p size at len h) (λ e. some-Reads before tt)

  wpa_of-Reads : (id at len : ℕ) → at + len ≤ size → Reads Any (wpa_of p size id at len)
  unfolding wpa_of
  wpa_of-Reads id at len h =
      if-Reads (id == 221 && leb 4 len)
        (λ e. matches-Reads p size (0 ∷ 80 ∷ 242 ∷ 1 ∷ []) at (ground arith))
        (λ e. some-Reads false tt)

  walk-Reads :
      (f at n off : ℕ) (e : Elements)
      → off ≤ n
      → n < f + off
      → at + n ≤ size
      → Reads Any (walk p size f at n off e)
  unfolding walk
  walk-Reads zero at n off e o h k = absurd (omega arith)
  walk-Reads (suc f) at n off e o h k =
      if-Reads (leb n off) (λ x. some-Reads (walked e) tt)
        λ x.
          if-Reads (ltb (n - off) 2) (λ y. some-Reads broken tt)
            λ y.
              let room : 2 ≤ n - off = ltb_false→le (n - off) 2 y in
              bind-Reads (read-Reads p size (at + off) (omega arith)) λ id u.
                bind-Reads (read-Reads p size (at + off + 1) (omega arith)) λ len v.
                  if-Reads (ltb (n - (off + 2)) len || id == 48 && e.seen)
                    (λ z. some-Reads broken tt)
                    (λ z.
                      let short : off + 2 + len ≤ n = ground arith in
                      let fits : at + (off + 2) + len ≤ size = omega arith in
                      bind-Reads (rsn_of-Reads id (at + (off + 2)) len e.rsn fits) λ found w.
                        bind-Reads (wpa_of-Reads id (at + (off + 2)) len fits)
                          λ wpa t. walk-Reads f at n (off + 2 + len) _ short (omega arith) k)

  scan_security-Reads :
      (capability at n : ℕ) → at + n ≤ size → Reads Any (scan_security p size capability at n)
  unfolding scan_security
  scan_security-Reads capability at n h =
      bind-Reads (walk-Reads (n + 1) at n 0 _ (omega arith) (omega arith) h) λ w u. some-Reads _ tt

  bytes-Reads : (n at : ℕ) → at + n ≤ size → Reads (λ xs. length xs ≡ n) (bytes p size n at)
  unfolding bytes
  bytes-Reads zero at h = some-Reads [] refl
  bytes-Reads (suc n) at h =
      bind-Reads (read-Reads p size at (omega arith)) λ a u.
        bind-Reads (bytes-Reads n (at + 1) (omega arith)) λ rest v. some-Reads _ (omega arith)

  parse_entry-Reads :
      (ssid_length ie_offset ie_length : ℕ) (bssid : List ℕ)
      → 140 ≤ size
      → ssid_length ≤ 32
      → 12 + ie_offset + ie_length ≤ size
      → length bssid ≡ 6
      → is_zero bssid ≡ false
      → Reads IsParsed (parse_entry p size ssid_length ie_offset ie_length bssid)
  unfolding parse_entry
  parse_entry-Reads ssid_length ie_offset ie_length bssid h s i l z =
      bind-Reads (u16-Reads p size 90 (omega arith)) λ rssi u.
        bind-Reads (bytes-Reads ssid_length 31 (omega arith)) λ ssid name.
          bind-Reads (u16-Reads p size 84 (omega arith)) λ chanspec v.
            bind-Reads (read-Reads p size 100 (omega arith)) λ channel w.
              if-Reads (is_bad_channel channel) (λ b. some-Reads refused tt)
                λ b. bind-Reads (u16-Reads p size 28 (omega arith)) λ capability t.
                  bind-Reads (scan_security-Reads capability (12 + ie_offset) ie_length i)
                    λ flags r. some-Reads (accepted _) (record {
                      name = omega arith;
                      address = l;
                      nonzero = z;
                      channel = good_channel channel b;
                    })

  parse_address-Reads :
      (ssid_length ie_offset ie_length : ℕ)
      → 140 ≤ size
      → ssid_length ≤ 32
      → 12 + ie_offset + ie_length ≤ size
      → Reads IsParsed (parse_address p size ssid_length ie_offset ie_length)
  unfolding parse_address
  parse_address-Reads ssid_length ie_offset ie_length h s i =
      bind-Reads (read-Reads p size 20 (omega arith)) λ first u.
        if-Reads (bit_and first 1 != 0) (λ a. some-Reads refused tt)
          λ a. bind-Reads (bytes-Reads 6 20 (omega arith)) λ bssid l.
            if-Reads (is_zero bssid) (λ b. some-Reads refused tt)
              λ b. parse_entry-Reads ssid_length ie_offset ie_length bssid h s i l b

  parse_elements-Reads :
      (ssid_length body : ℕ)
      → ssid_length ≤ 32
      → 128 ≤ body
      → 12 + body ≤ size
      → Reads IsParsed (parse_elements p size ssid_length body)
  unfolding parse_elements
  parse_elements-Reads ssid_length body s b h =
      bind-Reads (u16-Reads p size 128 (omega arith)) λ ie_offset u.
        bind-Reads (u32-Reads p size 132 (omega arith)) λ ie_length v.
          if-Reads (ltb ie_offset 128 || (ltb body ie_offset || ltb (body - ie_offset) ie_length))
            (λ a. some-Reads refused tt)
            λ a. parse_address-Reads ssid_length ie_offset ie_length (omega arith) s (ground arith)

  parse_body-Reads :
      (total : ℕ) → 140 ≤ total → total ≤ size → Reads IsParsed (parse_body p size total)
  unfolding parse_body
  parse_body-Reads total t h = bind-Reads (u32-Reads p size 16 (omega arith)) λ body u.
      bind-Reads (u32-Reads p size 12 (omega arith)) λ version v.
        if-Reads (version != 109 || body != total - 12) (λ a. some-Reads refused tt)
          λ a. bind-Reads (read-Reads p size 30 (omega arith)) λ ssid_length w.
            if-Reads (ltb 32 ssid_length) (λ b. some-Reads refused tt)
              λ b.
                let exact : body ≡ total - 12 = ground arith in
                parse_elements-Reads ssid_length body (ltb_false→le 32 ssid_length b) (omega arith)
                  (omega arith)

  pub parse_partial-Reads : (n sync : ℕ) → n ≤ size → Reads IsParsed (parse_partial p size n sync)
  unfolding parse_partial
  parse_partial-Reads n sync h =
      if-Reads (ltb n 12) (λ a. some-Reads refused tt)
        λ a.
          let head : 12 ≤ n = ltb_false→le n 12 a in
          bind-Reads (u16-Reads p size 8 (omega arith)) λ found u.
            if-Reads (found != sync % 2 ^ 16) (λ b. some-Reads stale tt)
              λ b. bind-Reads (u32-Reads p size 0 (omega arith)) λ total v.
                if-Reads (ltb total 140 || ltb n total) (λ c. some-Reads refused tt)
                  λ c. bind-Reads (u16-Reads p size 10 (omega arith)) λ count w.
                    if-Reads (count != 1) (λ d. some-Reads refused tt)
                      λ d. parse_body-Reads total (ground arith) (ground arith)

-- The parser reads no byte outside the record of n bytes that it is given, whatever the record
-- holds; it always has a result; and an entry that it accepts has a name of at most 32 bytes, an
-- address of six bytes that are not all zero, and a channel from 1 to 14 or from 32 to 196.
pub parse_partial-Within : (p : Memory) (n sync : ℕ) → Within IsParsed (parse_partial p n n sync)
parse_partial-Within p n sync = (parse_partial-Reads p n n sync (omega arith)).held
