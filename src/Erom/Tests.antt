-- ===== src/Erom/Tests.antt =====
-- CywParseErom of src/cyw43455/erom.h on a small ROM with the four cores.
use rpi5_wifi_driver_win11ar.Prelude.{ℕ, ◌≡◌, refl, true, ◌&&◌, List, [], ◌∷◌, ◌!=◌}
use rpi5_wifi_driver_win11ar.Erom.{
  is_valid_core_address, parse_erom, rounds, round, close_core, after_record, start_core,
  address_descriptor, skip_size, take_address, record_core, target, put_core, go_on, finish,
}
use rpi5_wifi_driver_win11ar.Erom.Decoded.{complete, parse_erom-complete}

-- ChipCommon, SDIO, D11 and CR4, each with a slave port and a wrapper, and the end mark.
abbrev rom : List ℕ
rom =
    0x80001
    ∷ (0x1
        ∷ (0x18000005
            ∷ (0x18100085
                ∷ (0x82901
                    ∷ (0x1
                        ∷ (0x18002005
                            ∷ (0x18102085
                                ∷ (0x81201
                                    ∷ (0x1
                                        ∷ (0x18001005
                                            ∷ (0x18101085
                                                ∷ (0x83e01
                                                    ∷ (0x1
                                                        ∷ (0x18003005
                                                            ∷ (0x18103085
                                                            ∷ (0xf ∷ []))))))))))))))))

abbrev read_word : List ℕ → ℕ × ℕ × List ℕ
read_word [] = (0xc0000001, 0, [])
read_word (word ∷ words) = (0, word, words)

parse_erom-complete_example :
    let map = (parse_erom read_word rom).1 in
    (complete map ≡ true)
    × ((is_valid_core_address map.sdio
          && (is_valid_core_address map.d11 && is_valid_core_address map.cr4))
        ≡ true)
    × ((is_valid_core_address map.cr4_wrapper && is_valid_core_address map.d11_wrapper) ≡ true)
    × ((map.cr4 != map.cr4_wrapper && map.d11 != map.d11_wrapper) ≡ true)
unfolding parse_erom rounds round close_core after_record start_core address_descriptor skip_size
    take_address record_core target put_core go_on finish is_valid_core_address
parse_erom-complete_example = parse_erom-complete read_word rom refl
