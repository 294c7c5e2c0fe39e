-- ===== src/Erom/Decoded.antt =====
-- What a map of cores has when CywParseErom of src/cyw43455/erom.h accepts it.
use rpi5_wifi_driver_win11ar.Prelude.{
  ℕ, zero, suc, ◌≡◌, refl, Bool, true, not, ◌&&◌, ◌||◌, arith, ltb, ◌==◌, ◌!=◌, both_branches,
  each_branch, bit_and, inc32, ◌/◌, ◌^◌,
}
use rpi5_wifi_driver_win11ar.Erom.{
  CoreMap, is_valid_core_address, target, put_core, record_core, Decoder, Round, stop, on, finish,
  start_core, after_record, close_core, take_address, skip_size, address_descriptor, round, go_on,
  rounds, parse_erom, nt_success, status_device_data_error,
}

-- A recorded core has a valid base and a valid wrapper apart from it.
abbrev pub free_or_valid : ℕ → Bool
free_or_valid address = address == 0 || is_valid_core_address address

abbrev pub wrapped : ℕ → ℕ → Bool
wrapped base wrapper = base == 0 || (is_valid_core_address wrapper && base != wrapper)

abbrev pub map_ok : CoreMap → Bool
map_ok map =
    free_or_valid map.chip_common
    && (free_or_valid map.sdio
        && (free_or_valid map.d11
            && (free_or_valid map.cr4
                && (wrapped map.cr4 map.cr4_wrapper && wrapped map.d11 map.d11_wrapper))))

record_core-map_ok :
    (map : CoreMap) (id base wrapper : ℕ)
    → map_ok map ≡ true
    → map_ok (record_core map id base wrapper).1 ≡ true
unfolding record_core target put_core
record_core-map_ok map id base wrapper h = ground arith

-- The cores that the driver needs are all there, at different places.
abbrev pub complete : CoreMap → Bool
complete map =
    (map.chip_common == 0x18000000)
    && (map.sdio != 0
        && (map.d11 != 0
            && (map.cr4 != 0
                && (map.sdio != 0x18000000
                    && (map.d11 != 0x18000000
                        && (map.cr4 != 0x18000000
                            && (map.sdio != map.cr4
                                && (map.sdio != map.d11 && map.cr4 != map.d11))))))))

finish-complete :
    (map : CoreMap) (word : ℕ) → (not (nt_success (finish map word)) || complete map) ≡ true
unfolding finish
finish-complete map word = ground arith

abbrev pub end_ok : ℕ → CoreMap → Bool
end_ok status map = map_ok map && (not (nt_success status) || complete map)

end_ok-complete :
    (status : ℕ) (map : CoreMap)
    → nt_success status ≡ true
    → end_ok status map ≡ true
    → (complete map ≡ true)
      × ((is_valid_core_address map.sdio
            && (is_valid_core_address map.d11 && is_valid_core_address map.cr4))
          ≡ true)
      × ((is_valid_core_address map.cr4_wrapper && is_valid_core_address map.d11_wrapper) ≡ true)
      × ((map.cr4 != map.cr4_wrapper && map.d11 != map.d11_wrapper) ≡ true)
end_ok-complete status map ok h = ground (arith, ok, h)

abbrev RoundOk : {C : Type 0} → Round C → Type 0
RoundOk (stop status map) = end_ok status map ≡ true
RoundOk (on d) = map_ok d.map ≡ true

failed-end_ok :
    (status : ℕ) (map : CoreMap)
    → not (nt_success status) ≡ true
    → map_ok map ≡ true
    → end_ok status map ≡ true
failed-end_ok status map f h = ground (arith, f, h)

module _ {C : Type 0} (next : C → ℕ × ℕ × C) where
  start_core-RoundOk :
      (d : Decoder C) (word : ℕ) → map_ok d.map ≡ true → RoundOk (start_core next d word)
  unfolding start_core
  start_core-RoundOk d word h =
      each_branch RoundOk (not (nt_success (next d.context).0))
        (λ f. failed-end_ok (next d.context).0 d.map f h)
        (λ _.
          both_branches RoundOk (bit_and (next d.context).1 0xf != 1)
            (failed-end_ok status_device_data_error d.map refl h)
            (both_branches RoundOk (ltb 32 (inc32 d.map.count))
              (failed-end_ok status_device_data_error (record d.map { count = inc32 d.map.count })
                refl h)
              h))

  after_record-RoundOk :
      (d : Decoder C) (word kind : ℕ) (r : ℕ × CoreMap)
      → map_ok r.1 ≡ true
      → RoundOk (after_record next d word kind r)
  unfolding after_record
  after_record-RoundOk d word kind (status, map) h =
      each_branch RoundOk (not (nt_success status)) (λ f. failed-end_ok status map f h)
        (λ _.
          both_branches RoundOk (kind == 0xf) (ground (arith, h, finish-complete map word))
            (start_core-RoundOk (record d { map = map }) word h))

  close_core-RoundOk :
      (d : Decoder C) (word kind : ℕ) → map_ok d.map ≡ true → RoundOk (close_core next d word kind)
  unfolding close_core
  close_core-RoundOk d word kind h = after_record-RoundOk d word kind _ (
      both_branches (λ (r : ℕ × CoreMap). map_ok r.1 ≡ true) d.have_core
        (record_core-map_ok d.map d.id d.base d.wrapper h) h)

  take_address-RoundOk :
      (d : Decoder C) (word upper : ℕ)
      → map_ok d.map ≡ true
      → RoundOk (take_address next d word upper)
  unfolding take_address
  take_address-RoundOk d word upper h =
      both_branches RoundOk (upper != 0 || ltb 1 (bit_and (word / 2 ^ 4) 3)) h h

  skip_size-RoundOk :
      (d : Decoder C) (word upper : ℕ) → map_ok d.map ≡ true → RoundOk (skip_size next d word upper)
  unfolding skip_size
  skip_size-RoundOk d word upper h =
      let (status, size, c) = next d.context in
      both_branches RoundOk (bit_and (word / 2 ^ 4) 3 != 3) (take_address-RoundOk d word upper h) (
        each_branch RoundOk (not (nt_success status)) (λ f. failed-end_ok status d.map f h)
          (λ _.
            both_branches RoundOk (bit_and size 8 == 0)
              (take_address-RoundOk (record d { context = c }) word upper h)
              (each_branch RoundOk (not (nt_success (next c).0))
                (λ f. failed-end_ok (next c).0 d.map f h)
                (λ _. take_address-RoundOk (record d { context = (next c).2 }) word upper h))))

  address_descriptor-RoundOk :
      (d : Decoder C) (word : ℕ) → map_ok d.map ≡ true → RoundOk (address_descriptor next d word)
  unfolding address_descriptor
  address_descriptor-RoundOk d word h =
      let (status, upper, c) = next d.context in
      both_branches RoundOk (not d.have_core) (failed-end_ok status_device_data_error d.map refl h)
        (both_branches RoundOk (bit_and word 8 == 0) (skip_size-RoundOk d word 0 h) (
          each_branch RoundOk (not (nt_success status)) (λ f. failed-end_ok status d.map f h)
            (λ _. skip_size-RoundOk (record d { context = c }) word upper h)))

  round-RoundOk : (d : Decoder C) → map_ok d.map ≡ true → RoundOk (round next d)
  unfolding round
  round-RoundOk d h =
      let (status, word, c) = next d.context in
      let e = record d { context = c } in
      each_branch RoundOk (not (nt_success status)) (λ f. failed-end_ok status d.map f h)
        (λ _. both_branches RoundOk (bit_and word 1 == 0) h (
          both_branches RoundOk (bit_and word 0xf == 1 || bit_and word 0xf == 0xf)
            (close_core-RoundOk e word (bit_and word 0xf) h)
            (both_branches RoundOk (bit_and (bit_and word 0xf) 0xfffffff7 != 5) h
              (address_descriptor-RoundOk e word h))))

  go_on-end_ok :
      (rest : Decoder C → ℕ × CoreMap) (r : Round C)
      → RoundOk r
      → ((d : Decoder C) → map_ok d.map ≡ true → end_ok (rest d).0 (rest d).1 ≡ true)
      → end_ok (go_on next rest r).0 (go_on next rest r).1 ≡ true
  unfolding go_on
  go_on-end_ok rest (stop status map) h f = h
  go_on-end_ok rest (on d) h f = f d h

  rounds-end_ok :
      (steps : ℕ) (d : Decoder C)
      → map_ok d.map ≡ true
      → end_ok (rounds next steps d).0 (rounds next steps d).1 ≡ true
  unfolding rounds
  rounds-end_ok zero d h = failed-end_ok status_device_data_error d.map refl h
  rounds-end_ok (suc steps) d h =
      go_on-end_ok (rounds next steps) (round next d) (round-RoundOk d h) (rounds-end_ok steps)

  -- Whatever words the reader supplies: when the decoder succeeds, ChipCommon is at 0x18000000,
  -- SDIO, D11 and CR4 are at valid page addresses, the four are pairwise different, and the
  -- wrappers of CR4 and D11 are valid and apart from their cores.
  pub parse_erom-complete :
      (context : C)
      → nt_success (parse_erom next context).0 ≡ true
      → let map = (parse_erom next context).1 in
        (complete map ≡ true)
        × ((is_valid_core_address map.sdio
              && (is_valid_core_address map.d11 && is_valid_core_address map.cr4))
            ≡ true)
        × ((is_valid_core_address map.cr4_wrapper && is_valid_core_address map.d11_wrapper) ≡ true)
        × ((map.cr4 != map.cr4_wrapper && map.d11 != map.d11_wrapper) ≡ true)
  unfolding parse_erom
  parse_erom-complete context ok =
      end_ok-complete (parse_erom next context).0 (parse_erom next context).1 ok
        (rounds-end_ok 512 _ refl)
