-- ===== src/Nvram/Tests.antt =====
-- The NVRAM packing of src/cyw43455/network_protocol.h on a small file.
use rpi5_wifi_driver_win11ar.Prelude.{
  ℕ, ◌+◌, ◌*◌, ◌/◌, ◌≡◌, refl, List, [], ◌∷◌, some, arith, length,
}
use rpi5_wifi_driver_win11ar.Nvram.{
  pack_nvram, pack_lines, scan_line, cons_char, is_text, next_line, clean, skip_blanks, cut_comment,
  trim_end, put_line, refused_entry, is_entry, contains_equals, close_pack,
}
use rpi5_wifi_driver_win11ar.Nvram.Packed.{join_with}
use rpi5_wifi_driver_win11ar.Nvram.Contents.{Contents, pack_nvram-entries, pack_nvram-join}

-- "#x", then " ab=1 # y", then "c=2", with line ends.
abbrev file : List ℕ
file =
    35
    ∷ (120
        ∷ (10
            ∷ (32
                ∷ (97
                    ∷ (98
                        ∷ (61
                            ∷ (49
                                ∷ (32 ∷ (35 ∷ (32 ∷ (121 ∷ (10 ∷ (99 ∷ (61 ∷ (50 ∷ [])))))))))))))))

abbrev ab : List ℕ
ab = 97 ∷ (98 ∷ (61 ∷ (49 ∷ [])))

abbrev c : List ℕ
c = 99 ∷ (61 ∷ (50 ∷ []))

abbrev packed : List ℕ
packed = 97 ∷ (98 ∷ (61 ∷ (49 ∷ (0 ∷ (99 ∷ (61 ∷ (50 ∷ (0 ∷ []))))))))

pack_nvram-entries_example : Contents 64 packed 12
unfolding pack_nvram pack_lines scan_line cons_char is_text next_line clean skip_blanks cut_comment
    trim_end put_line refused_entry is_entry contains_equals close_pack
pack_nvram-entries_example = pack_nvram-entries file 64 packed 12 (omega arith) refl

pack_nvram-join_example :
    pack_nvram (join_with 10 (ab ∷ (c ∷ []))) 64
    ≡ some (join_with 0 (ab ∷ (c ∷ [])), (length (join_with 0 (ab ∷ (c ∷ []))) + 4) / 4 * 4)
unfolding is_text clean skip_blanks cut_comment trim_end is_entry contains_equals
pack_nvram-join_example =
    pack_nvram-join ab (c ∷ []) 64 (refl, refl, (refl, refl, tt)) (omega arith) (omega arith)
      (omega arith) (omega arith)
