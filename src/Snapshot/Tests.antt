-- ===== src/Snapshot/Tests.antt =====
-- The snapshot of src/driver/diag_snapshot.h with two values.
use rpi5_wifi_driver_win11ar.Prelude.{◌≡◌, refl, List, [], ◌∷◌, arith, false}
use rpi5_wifi_driver_win11ar.Snapshot.{
  Value, empty_snapshot, diag_append, diag_appends, write_snapshot, is_bad_value, total_bytes,
  align8, encode, put_word, padded,
}
use rpi5_wifi_driver_win11ar.Snapshot.Batches.{AllValues, write_snapshot-diag_appends}

-- The name "a" with a REG_DWORD, and the name "bc" with no data.
abbrev values : List Value
values =
    record { name = 97 ∷ (0 ∷ []); kind = 4; data_bytes = 7 ∷ (0 ∷ (0 ∷ (0 ∷ []))) }
    ∷ (record { name = 98 ∷ (0 ∷ (99 ∷ (0 ∷ []))); kind = 3; data_bytes = [] } ∷ [])

values-AllValues : AllValues values
values-AllValues = (
  record {
    some_name = omega arith;
    even = refl;
    short = omega arith;
    kind = omega arith;
    fits = omega arith;
  },
  (
    record {
      some_name = omega arith;
      even = refl;
      short = omega arith;
      kind = omega arith;
      fits = omega arith;
    },
    tt,
  ),
)

captured_test : (diag_appends empty_snapshot values).failed ≡ false
unfolding diag_appends diag_append is_bad_value total_bytes align8 encode put_word padded
captured_test = refl

write_snapshot-diag_appends_example : write_snapshot (diag_appends empty_snapshot values) ≡ values
write_snapshot-diag_appends_example =
    write_snapshot-diag_appends values values-AllValues captured_test
