-- ===== src/Erom.antt =====
-- src/cyw43455/erom.h: the bounded decoder of the core enumeration ROM, over the caller's word reader.
pub mod Decoded
mod Tests
use rpi5_wifi_driver_win11ar.Prelude.{
  ℕ, zero, suc, ◌+◌, ◌*◌, ◌/◌, ◌^◌, Bool, true, false, not, ◌&&◌, ◌||◌, Option, none, some, ltb,
  leb, ◌==◌, ◌!=◌, if◌then◌else◌, bit_and, inc32,
}

abbrev pub status_success : ℕ
status_success = 0

abbrev pub status_device_data_error : ℕ
status_device_data_error = 0xc000009c

-- NT_SUCCESS.
abbrev pub nt_success : ℕ → Bool
nt_success status = ltb status 0x80000000

-- CYW_CORE_MAP.
pub record CoreMap : Type 0 where
  pub count : ℕ
  pub chip_common : ℕ
  pub sdio : ℕ
  pub d11 : ℕ
  pub cr4 : ℕ
  pub cr4_wrapper : ℕ
  pub d11_wrapper : ℕ

-- RtlZeroMemory of the map.
abbrev pub empty_map : CoreMap
empty_map = record {
  count = 0;
  chip_common = 0;
  sdio = 0;
  d11 = 0;
  cr4 = 0;
  cr4_wrapper = 0;
  d11_wrapper = 0;
}

-- CywValidCoreAddress.
unfoldable pub is_valid_core_address : ℕ → Bool
is_valid_core_address address =
    leb 0x18000000 address && (ltb address 0x18200000 && bit_and address 0xfff == 0)

-- CywRecordCore: where an identifier goes, with what stands there.
unfoldable pub target : CoreMap → ℕ → Option ℕ
target map id =
    if id == 0x83e
    then some map.cr4
    else if id == 0x812
    then some map.d11
    else if id == 0x829
    then some map.sdio
    else if id == 0x800
    then some map.chip_common
    else none

unfoldable pub put_core : CoreMap → ℕ → ℕ → ℕ → CoreMap
put_core map id base wrapper =
    if id == 0x83e
    then record map { cr4 = base; cr4_wrapper = wrapper }
    else if id == 0x812
    then record map { d11 = base; d11_wrapper = wrapper }
    else if id == 0x829
    then record map { sdio = base }
    else record map { chip_common = base }

unfoldable pub record_core : CoreMap → ℕ → ℕ → ℕ → ℕ × CoreMap
record_core map id base wrapper = elim (target map id) [
  | none ↦ (status_success, map)
  | some old ↦
      if old != 0
        || (not (is_valid_core_address base)
            || (not (is_valid_core_address wrapper) || base == wrapper))
      then (status_device_data_error, map)
      else (status_success, put_core map id base wrapper)
]

-- The locals of CywParseErom, with the context of the reader.
pub record Decoder (C : Type 0) : Type 0 where
  pub map : CoreMap
  pub id : ℕ
  pub base : ℕ
  pub wrapper : ℕ
  pub wrapper_type : ℕ
  pub have_core : Bool
  pub context : C

-- A round of the loop ends the decoding or goes on.
pub data Round (C : Type 0) : Type 0 where
  stop : ℕ → CoreMap → Round C
  on : Decoder C → Round C

-- The test of the finished map at the end mark.
unfoldable pub finish : CoreMap → ℕ → ℕ
finish map word =
    if word != 0xf
      || (map.chip_common != 0x18000000 || (map.sdio == 0 || (map.d11 == 0 || map.cr4 == 0)))
    then status_device_data_error
    else if map.chip_common == map.sdio
        || (map.chip_common == map.cr4
            || (map.chip_common == map.d11
                || (map.sdio == map.cr4 || (map.sdio == map.d11 || map.cr4 == map.d11))))
    then status_device_data_error
    else status_success

module _ {C : Type 0} (next : C → ℕ × ℕ × C) where
  -- Component descriptors A and B.
  unfoldable pub start_core : Decoder C → ℕ → Round C
  start_core d word =
      let (status, b, c) = next d.context in
      let map = record d.map { count = inc32 d.map.count } in
      if not (nt_success status)
      then stop status d.map
      else if bit_and b 0xf != 1
      then stop status_device_data_error d.map
      else if ltb 32 map.count
      then stop status_device_data_error map
      else on (record d {
        map = map;
        id = bit_and (word / 2 ^ 8) 0xfff;
        wrapper_type = if bit_and (b / 2 ^ 14) 0x1f != 0 then 3 else 2;
        base = 0;
        wrapper = 0;
        have_core = true;
        context = c;
      })

  unfoldable pub after_record : Decoder C → ℕ → ℕ → ℕ × CoreMap → Round C
  after_record d word kind (status, map) =
      if not (nt_success status)
      then stop status map
      else if kind == 0xf
      then stop (finish map word) map
      else start_core (record d { map = map }) word

  -- A component or the end mark: the core before it is recorded first.
  unfoldable pub close_core : Decoder C → ℕ → ℕ → Round C
  close_core d word kind =
      after_record d word kind
        (if d.have_core then record_core d.map d.id d.base d.wrapper else (status_success, d.map))

  -- The address of a slave port or of a wrapper.
  unfoldable pub take_address : Decoder C → ℕ → ℕ → Round C
  take_address d word upper =
      let slave_type = bit_and (word / 2 ^ 6) 3 in
      let address = bit_and word 0xfffff000 in
      if upper != 0 || ltb 1 (bit_and (word / 2 ^ 4) 3)
      then on d
      else on (record d {
        base = if slave_type == 0 && d.base == 0 then address else d.base;
        wrapper = if slave_type == d.wrapper_type && d.wrapper == 0 then address else d.wrapper;
      })

  -- The size words of an address descriptor.
  unfoldable pub skip_size : Decoder C → ℕ → ℕ → Round C
  skip_size d word upper =
      let (status, size, c) = next d.context in
      let (status', size', c') = next c in
      if bit_and (word / 2 ^ 4) 3 != 3
      then take_address d word upper
      else if not (nt_success status)
      then stop status d.map
      else if bit_and size 8 == 0
      then take_address (record d { context = c }) word upper
      else if not (nt_success status')
      then stop status' d.map
      else take_address (record d { context = c' }) word upper

  unfoldable pub address_descriptor : Decoder C → ℕ → Round C
  address_descriptor d word =
      let (status, upper, c) = next d.context in
      if not d.have_core
      then stop status_device_data_error d.map
      else if bit_and word 8 == 0
      then skip_size d word 0
      else if not (nt_success status)
      then stop status d.map
      else skip_size (record d { context = c }) word upper

  unfoldable pub round : Decoder C → Round C
  round d =
      let (status, word, c) = next d.context in
      let e = record d { context = c } in
      let kind = bit_and word 0xf in
      if not (nt_success status)
      then stop status d.map
      else if bit_and word 1 == 0
      then on e
      else if kind == 1 || kind == 0xf
      then close_core e word kind
      else if bit_and kind 0xfffffff7 != 5
      then on e
      else address_descriptor e word

  unfoldable pub go_on : (Decoder C → ℕ × CoreMap) → Round C → ℕ × CoreMap
  go_on rest (stop status map) = (status, map)
  go_on rest (on d) = rest d

  unfoldable pub rounds : ℕ → Decoder C → ℕ × CoreMap
  rounds zero d = (status_device_data_error, d.map)
  rounds (suc steps) d = go_on (rounds steps) (round d)

  -- CywParseErom.
  unfoldable pub parse_erom : C → ℕ × CoreMap
  parse_erom context = rounds 512 (record {
    map = empty_map;
    id = 0;
    base = 0;
    wrapper = 0;
    wrapper_type = 2;
    have_core = false;
    context = context;
  })
