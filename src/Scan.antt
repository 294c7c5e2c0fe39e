-- ===== src/Scan.antt =====
-- src/cyw43455/scan_protocol.h: the parser of a scan result over a buffer of a given size, where a
-- read outside the buffer is a fault, and the table of the networks found.
pub mod Acceptance
pub mod Bounds
pub mod Events
pub mod Tests
pub mod Table
use rpi5_wifi_driver_win11ar.Prelude.{
  ℕ, zero, suc, ◌+◌, ◌-◌, ◌*◌, ◌/◌, ◌%◌, ◌^◌, Bool, true, false, not, ◌&&◌, ◌||◌, Option, none,
  some, List, [], ◌∷◌, ltb, leb, ◌==◌, ◌!=◌, if◌then◌else◌, bit_and, bit_or, length, has_bit,
}
use rpi5_wifi_driver_win11ar.Wire.{Memory}

-- CYW_SCAN_SECURITY_MALFORMED_IE, and the same with CYW_SCAN_SECURITY_UNSUPPORTED.
abbrev pub malformed_ie : ℕ
malformed_ie = 16

abbrev pub wpa2_psk_ccmp : ℕ
wpa2_psk_ccmp = 2

abbrev pub unsupported : ℕ
unsupported = 4

abbrev pub pmf_required : ℕ
pmf_required = 32

-- What a call reads and returns; `none` is a read outside the buffer.
infixl 10 ◌>>=◌
unfoldable pub ◌>>=◌ : {A B : Type 0} → Option A → (A → Option B) → Option B
none >>= k = none
some a >>= k = k a

-- CYW_SCAN_ENTRY. The length of `ssid` is SsidLength; `rssi` is the bit pattern of the int.
pub record Entry : Type 0 where
  pub ssid : List ℕ
  pub bssid : List ℕ
  pub chanspec : ℕ
  pub rssi : ℕ
  pub security : ℕ
  pub control_channel : ℕ

-- The results 0, -1 and 1 of CywScanParsePartial.
pub data Parsed : Type 0 where
  stale : Parsed
  refused : Parsed
  accepted : Entry → Parsed

-- What the walk over the information elements has found.
pub record Elements : Type 0 where
  pub rsn : ℕ
  pub wpa : Bool
  pub seen : Bool

pub data Walk : Type 0 where
  broken : Walk
  walked : Elements → Walk

-- The verdict on the parsed RSN element.
unfoldable pub rsn_verdict : ℕ → Bool → Bool → Bool → ℕ
rsn_verdict caps group pair psk =
    if bit_and caps 64 != 0
    then pmf_required
    else if group && (pair && psk)
    then wpa2_psk_ccmp
    else 0

unfoldable pub security_verdict : ℕ → Elements → ℕ
security_verdict capability e =
    let result =
      if bit_and capability 1 == 0 || bit_and capability 2 != 0
      then unsupported
      else if bit_and capability 16 == 0 && (not e.seen && not e.wpa)
      then 1
      else if bit_and capability 16 != 0 && (e.seen && e.rsn == wpa2_psk_ccmp)
      then wpa2_psk_ccmp
      else unsupported in
    bit_or result (bit_and e.rsn (bit_or malformed_ie pmf_required))

unfoldable pub security_of : ℕ → Walk → ℕ
security_of capability broken = bit_or unsupported malformed_ie
security_of capability (walked e) = security_verdict capability e

-- CywScanRsn, from its last part to its first; `off` counts from the element's start.
unfoldable pub rsn_end : ℕ → ℕ → ℕ → ℕ → Bool → Bool → Bool → Option ℕ
rsn_end at n off caps group pair psk =
    if off != n then some malformed_ie else some (rsn_verdict caps group pair psk)

unfoldable pub is_bad_count : ℕ → ℕ → ℕ → Bool
is_bad_count n off count = count == 0 || ltb ((n - off) / 4) count

unfoldable pub is_zero : List ℕ → Bool
is_zero [] = true
is_zero (x ∷ xs) = x == 0 && is_zero xs

unfoldable pub is_bad_channel : ℕ → Bool
is_bad_channel c = c == 0 || (ltb 196 c || ltb 14 c && ltb c 32)

-- The int of a 16-bit RSSI.
unfoldable pub signed : ℕ → ℕ
signed rssi = if bit_and rssi 32768 != 0 then rssi + 2 ^ 32 - 65536 else rssi

unfoldable pub hidden : ℕ → ℕ → ℕ
hidden ssid_length flags = if ssid_length == 0 then bit_or flags 8 else flags

module _ (p : Memory) (size : ℕ) where
  unfoldable pub read : ℕ → Option ℕ
  read i = if ltb i size then some (p i % 256) else none

  -- CywScanU16 and CywScanU32.
  unfoldable pub u16 : ℕ → Option ℕ
  u16 at = read at >>= λ a. read (at + 1) >>= λ b. some (bit_or a (b * 2 ^ 8))

  unfoldable pub u32 : ℕ → Option ℕ
  u32 at = u16 at >>= λ a. u16 (at + 2) >>= λ b. some (bit_or a (b * 2 ^ 16))

  -- Byte by byte, as `&&` reads them.
  unfoldable pub matches : List ℕ → ℕ → Option Bool
  matches [] at = some true
  matches (x ∷ xs) at = read at >>= λ a. if a == x then matches xs (at + 1) else some false

  -- CywScanSuite.
  unfoldable pub suite : ℕ → ℕ → Option Bool
  suite at kind = matches (0 ∷ 15 ∷ 172 ∷ kind ∷ []) at

  unfoldable pub suites : ℕ → ℕ → ℕ → Bool → Option Bool
  suites zero at kind found = some found
  suites (suc n) at kind found = suite at kind >>= λ b. suites n (at + 4) kind (found || b)

  unfoldable pub rsn_management : ℕ → ℕ → ℕ → ℕ → Bool → Bool → Bool → Option ℕ
  rsn_management at n off caps group pair psk =
      if ltb off n
      then (if n - off != 4 then some malformed_ie else rsn_end at n (off + 4) caps group pair psk)
      else rsn_end at n off caps group pair psk

  unfoldable pub rsn_pmkids : ℕ → ℕ → ℕ → ℕ → Bool → Bool → Bool → Option ℕ
  rsn_pmkids at n off caps group pair psk =
      if ltb off n
      then (if ltb (n - off) 2
          then some malformed_ie
          else u16 (at + off) >>= λ count.
              if ltb ((n - (off + 2)) / 16) count
              then some malformed_ie
              else rsn_management at n (off + 2 + count * 16) caps group pair psk)
      else rsn_end at n off caps group pair psk

  unfoldable pub rsn_caps : ℕ → ℕ → ℕ → Bool → Bool → Bool → Option ℕ
  rsn_caps at n off group pair psk =
      if ltb off n
      then (if ltb (n - off) 2
          then some malformed_ie
          else u16 (at + off) >>= λ caps. rsn_pmkids at n (off + 2) caps group pair psk)
      else rsn_pmkids at n off 0 group pair psk

  unfoldable pub rsn_keys : ℕ → ℕ → ℕ → Bool → Bool → Option ℕ
  rsn_keys at n off group pair =
      if ltb (n - off) 2
      then some malformed_ie
      else u16 (at + off) >>= λ count.
          if is_bad_count n (off + 2) count
          then some malformed_ie
          else suites count (at + (off + 2)) 2 false >>= λ psk.
              rsn_caps at n (off + 2 + 4 * count) group pair psk

  unfoldable pub rsn_pairs : ℕ → ℕ → Bool → Option ℕ
  rsn_pairs at n group = u16 (at + 6) >>= λ count.
      if is_bad_count n 8 count
      then some malformed_ie
      else suites count (at + 8) 4 false >>= λ pair. rsn_keys at n (8 + 4 * count) group pair

  unfoldable pub rsn : ℕ → ℕ → Option ℕ
  rsn at n =
      if ltb n 8
      then some malformed_ie
      else u16 at >>= λ version.
          if version != 1
          then some malformed_ie
          else suite (at + 2) 4 >>= λ group. rsn_pairs at n group

  unfoldable pub rsn_of : ℕ → ℕ → ℕ → ℕ → Option ℕ
  rsn_of id at len before = if id == 48 then rsn at len else some before

  -- The vendor element of WPA.
  unfoldable pub wpa_of : ℕ → ℕ → ℕ → Option Bool
  wpa_of id at len =
      if id == 221 && leb 4 len then matches (0 ∷ 80 ∷ 242 ∷ 1 ∷ []) at else some false

  -- The loop of CywScanSecurity; the first number bounds its rounds, and `none` is also a round too
  -- many.
  unfoldable pub walk : ℕ → ℕ → ℕ → ℕ → Elements → Option Walk
  walk zero at n off e = none
  walk (suc f) at n off e =
      if leb n off
      then some (walked e)
      else if ltb (n - off) 2
      then some broken
      else read (at + off) >>= λ id. read (at + off + 1) >>= λ len.
          if ltb (n - (off + 2)) len || id == 48 && e.seen
          then some broken
          else rsn_of id (at + (off + 2)) len e.rsn >>= λ found.
              wpa_of id (at + (off + 2)) len >>= λ wpa.
              walk f at n (off + 2 + len)
                (record { rsn = found; wpa = e.wpa || wpa; seen = e.seen || id == 48 })

  -- CywScanSecurity.
  unfoldable pub scan_security : ℕ → ℕ → ℕ → Option ℕ
  scan_security capability at n =
      walk (n + 1) at n 0 (record { rsn = 0; wpa = false; seen = false }) >>= λ w.
      some (security_of capability w)

  unfoldable pub bytes : ℕ → ℕ → Option (List ℕ)
  bytes zero at = some []
  bytes (suc n) at = read at >>= λ a. bytes n (at + 1) >>= λ rest. some (a ∷ rest)

  -- The record has passed the checks of its sizes; `b` of the source is at offset 12.
  unfoldable pub parse_entry : ℕ → ℕ → ℕ → List ℕ → Option Parsed
  parse_entry ssid_length ie_offset ie_length bssid = u16 90 >>= λ rssi.
      bytes ssid_length 31 >>= λ ssid. u16 84 >>= λ chanspec. read 100 >>= λ channel.
      if is_bad_channel channel
      then some refused
      else u16 28 >>= λ capability. scan_security capability (12 + ie_offset) ie_length >>= λ flags.
          some (
            accepted (record {
              ssid = ssid;
              bssid = bssid;
              chanspec = chanspec;
              rssi = signed rssi;
              security = hidden ssid_length flags;
              control_channel = channel;
            }))

  unfoldable pub parse_address : ℕ → ℕ → ℕ → Option Parsed
  parse_address ssid_length ie_offset ie_length = read 20 >>= λ first.
      if bit_and first 1 != 0
      then some refused
      else bytes 6 20 >>= λ bssid.
          if is_zero bssid then some refused else parse_entry ssid_length ie_offset ie_length bssid

  unfoldable pub parse_elements : ℕ → ℕ → Option Parsed
  parse_elements ssid_length body = u16 128 >>= λ ie_offset. u32 132 >>= λ ie_length.
      if ltb ie_offset 128 || (ltb body ie_offset || ltb (body - ie_offset) ie_length)
      then some refused
      else parse_address ssid_length ie_offset ie_length

  unfoldable pub parse_body : ℕ → Option Parsed
  parse_body total = u32 16 >>= λ body. u32 12 >>= λ version.
      if version != 109 || body != total - 12
      then some refused
      else read 30 >>= λ ssid_length.
          if ltb 32 ssid_length then some refused else parse_elements ssid_length body

  -- CywScanParsePartial of a record of n bytes.
  unfoldable pub parse_partial : ℕ → ℕ → Option Parsed
  parse_partial n sync =
      if ltb n 12
      then some refused
      else u16 8 >>= λ found.
          if found != sync % 2 ^ 16
          then some stale
          else u32 0 >>= λ total.
              if ltb total 140 || ltb n total
              then some refused
              else u16 10 >>= λ count. if count != 1 then some refused else parse_body total
