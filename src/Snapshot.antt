-- ===== src/Snapshot.antt =====
-- src/driver/diag_snapshot.h: the buffer of registry values that a capture fills, and the loop of
-- src/driver/driver.c that validates the whole buffer before it writes the first value.
pub mod Batches
pub mod Layout
pub mod Tests
use rpi5_wifi_driver_win11ar.Prelude.{
  ℕ, zero, suc, ◌+◌, ◌-◌, ◌*◌, ◌/◌, ◌%◌, ◌^◌, Bool, true, false, ◌||◌, Option, none, some, List, [],
  ◌∷◌, ◌++◌, ltb, ◌==◌, ◌!=◌, if◌then◌else◌, length, take, drop, replicate,
}

-- CYW_DIAG_CAPACITY.
abbrev pub capacity : ℕ
capacity = 131072

-- The bytes of a name, the registry type, and the data. The pointers of the source are there.
pub record Value : Type 0 where
  pub name : List ℕ
  pub kind : ℕ
  pub data_bytes : List ℕ

-- CYW_DIAG_BUFFER: Used is the length of `stored`, the part of Storage in use.
pub record Snapshot : Type 0 where
  pub failed : Bool
  pub stored : List ℕ

-- CYW_DIAG_RECORD.
pub record Header : Type 0 where
  pub name_size : ℕ
  pub kind : ℕ
  pub data_size : ℕ
  pub total_size : ℕ

-- CywDiagReset.
abbrev pub empty_snapshot : Snapshot
empty_snapshot = record { failed = false; stored = [] }

-- `(n+7)&~7`.
unfoldable pub align8 : ℕ → ℕ
align8 n = (n + 7) / 8 * 8

unfoldable pub total_bytes : ℕ → ℕ → ℕ
total_bytes names bytes = 16 + align8 (names + 2) + align8 bytes

-- A ULONG in memory.
unfoldable pub put_word : ℕ → List ℕ → List ℕ
put_word n rest = n % 256 ∷ (n / 2 ^ 8 % 256 ∷ (n / 2 ^ 16 % 256 ∷ (n / 2 ^ 24 % 256 ∷ rest)))

unfoldable pub word_at : List ℕ → ℕ
word_at [] = 0
word_at (a ∷ []) = 0
word_at (a ∷ (b ∷ [])) = 0
word_at (a ∷ (b ∷ (c ∷ []))) = 0
word_at (a ∷ (b ∷ (c ∷ (d ∷ rest)))) = a + b * 2 ^ 8 + c * 2 ^ 16 + d * 2 ^ 24

unfoldable pub padded : List ℕ → ℕ → List ℕ
padded xs n = xs ++ replicate (n - length xs) 0

-- The record, the name and the data of a value.
unfoldable pub encode : Value → List ℕ
encode v =
    let names = length v.name in
    let bytes = length v.data_bytes in
    put_word names (
      put_word v.kind (
        put_word bytes (
          put_word (total_bytes names bytes)
            (padded v.name (align8 (names + 2)) ++ padded v.data_bytes (align8 bytes)))))

unfoldable pub is_bad_value : Value → Bool
is_bad_value v =
    length v.name == 0 || (length v.name % 2 != 0 || ltb capacity (length v.data_bytes))

unfoldable pub fail_snapshot : Snapshot → Snapshot
fail_snapshot b = record { failed = true; stored = b.stored }

-- CywDiagAppend.
unfoldable pub diag_append : Snapshot → Value → Snapshot
diag_append b v =
    let total = total_bytes (length v.name) (length v.data_bytes) in
    if b.failed
    then b
    else if is_bad_value v
    then fail_snapshot b
    else if ltb capacity (length b.stored) || ltb (capacity - length b.stored) total
    then fail_snapshot b
    else record { failed = false; stored = b.stored ++ encode v }

unfoldable pub diag_appends : Snapshot → List Value → Snapshot
diag_appends b [] = b
diag_appends b (v ∷ vs) = diag_appends (diag_append b v) vs

unfoldable pub header_at : List ℕ → Header
header_at xs = record {
  name_size = word_at xs;
  kind = word_at (drop 4 xs);
  data_size = word_at (drop 8 xs);
  total_size = word_at (drop 12 xs);
}

unfoldable pub is_bad_header : Header → ℕ → Bool
is_bad_header h room =
    (h.name_size == 0
      || (h.name_size % 2 != 0 || (ltb 65532 h.name_size || ltb capacity h.data_size)))
    || (h.total_size != total_bytes h.name_size h.data_size || ltb room h.total_size)

unfoldable pub value_at : Header → List ℕ → Value
value_at h xs = record {
  name = take h.name_size (drop 16 xs);
  kind = h.kind;
  data_bytes = take h.data_size (drop (align8 (h.name_size + 2)) (drop 16 xs));
}

-- CywDiagRead: the value at an offset, with its TotalBytes.
unfoldable pub diag_read : Snapshot → ℕ → Option (Value × ℕ)
diag_read b offset =
    let used = length b.stored in
    let xs = drop offset b.stored in
    let h = header_at xs in
    if b.failed || (ltb capacity used || (ltb used offset || ltb (used - offset) 16))
    then none
    else if is_bad_header h (used - offset)
    then none
    else some (value_at h xs, h.total_size)

-- The first loop of Rpi5CywWriteDiagnosticBuffer; the first number bounds its rounds.
unfoldable pub is_valid_batch : ℕ → Snapshot → ℕ → Bool
is_valid_batch zero b offset = false
is_valid_batch (suc f) b offset =
    if ltb offset (length b.stored)
    then elim (diag_read b offset) [ none ↦ false | some r ↦ is_valid_batch f b (offset + r.1) ]
    else true

-- The second loop: the values that are set, in order.
unfoldable pub set_values : ℕ → Snapshot → ℕ → List Value
set_values zero b offset = []
set_values (suc f) b offset = elim (diag_read b offset) [
  | none ↦ []
  | some r ↦ r.0 ∷ set_values f b (offset + r.1)
]

-- Rpi5CywWriteDiagnosticBuffer at PASSIVE_LEVEL with an open key.
unfoldable pub write_snapshot : Snapshot → List Value
write_snapshot b =
    let used = length b.stored in
    if b.failed || used == 0
    then []
    else if is_valid_batch (used + 1) b 0
    then set_values (used + 1) b 0
    else []
