-- ===== src/Snapshot/Batches.antt =====
-- A capture with CywDiagAppend of src/driver/diag_snapshot.h, and Rpi5CywWriteDiagnosticBuffer of
-- src/driver/driver.c after it.
use rpi5_wifi_driver_win11ar.Prelude.{
  ℕ, zero, suc, ◌+◌, ◌-◌, ◌≤◌, ◌<◌, ◌≡◌, refl, sym, ap, ◌∙◌, true, false, ◌||◌, none, List, [], ◌∷◌,
  ◌++◌, ltb, ◌==◌, length, arith, length-append, each_branch, subst,
}
use mathlib.Core.List.{append-nil, append_assoc}
use rpi5_wifi_driver_win11ar.Snapshot.{
  capacity, Value, Snapshot, empty_snapshot, total_bytes, encode, is_bad_value, fail_snapshot,
  diag_append, diag_appends, diag_read, is_valid_batch, set_values, write_snapshot,
}
use rpi5_wifi_driver_win11ar.Snapshot.Layout.{
  IsValue, diag_read-encode, length-encode, total_bytes-large,
}

abbrev pub AllValues : List Value → Type 0
AllValues [] = Unit {0}
AllValues (v ∷ vs) = IsValue v × AllValues vs

abbrev encode_all : List Value → List ℕ
encode_all [] = []
encode_all (v ∷ vs) = encode v ++ encode_all vs

-- What an append that did not fail has done.
record Appended (b : Snapshot) (v : Value) (c : Snapshot) : Type 0 where
  sound : b.failed ≡ false
  added : c.stored ≡ b.stored ++ encode v
  room : length c.stored ≤ capacity

abbrev IfSound : Snapshot → Value → Snapshot → Type 0
IfSound b v c = c.failed ≡ false → Appended b v c

diag_append-IfSound : (b : Snapshot) (v : Value) → IfSound b v (diag_append b v)
unfolding diag_append fail_snapshot
diag_append-IfSound b v =
    let total = total_bytes (length v.name) (length v.data_bytes) in
    each_branch (IfSound b v) b.failed (λ f h. absurd (ground arith))
      (λ f.
        each_branch (IfSound b v) (is_bad_value v) (λ g h. absurd (ground arith))
          (λ g.
            each_branch (IfSound b v)
              (ltb capacity (length b.stored) || ltb (capacity - length b.stored) total)
              (λ k h. absurd (ground arith))
              (λ k h. record {
                sound = f;
                added = refl;
                room = ground (arith, length-append b.stored (encode v), length-encode v);
              })))

diag_appends_sound :
    (b : Snapshot) (vs : List Value) → (diag_appends b vs).failed ≡ false → b.failed ≡ false
unfolding diag_appends
diag_appends_sound b [] h = h
diag_appends_sound b (v ∷ vs) h =
    (diag_append-IfSound b v (diag_appends_sound (diag_append b v) vs h)).sound

diag_appends-stored :
    (b : Snapshot) (vs : List Value)
    → (diag_appends b vs).failed ≡ false
    → length b.stored ≤ capacity
    → ((diag_appends b vs).stored ≡ b.stored ++ encode_all vs)
      × (length (diag_appends b vs).stored ≤ capacity)
unfolding diag_appends
diag_appends-stored b [] h small = (sym (append-nil b.stored), small)
diag_appends-stored b (v ∷ vs) h small =
    let a = diag_append-IfSound b v (diag_appends_sound (diag_append b v) vs h) in
    let rest = diag_appends-stored (diag_append b v) vs h a.room in
    (
      rest.0
          ∙ ap (λ l. l ++ encode_all vs) a.added
          ∙ append_assoc b.stored (encode v) (encode_all vs),
      rest.1,
    )

-- What holds at each value of a buffer of values, the bytes before it given.
module _ (b : Snapshot) (sound : b.failed ≡ false) (small : length b.stored ≤ capacity) where
  next_start :
      (xs : List ℕ) (v : Value)
      → length xs + total_bytes (length v.name) (length v.data_bytes) ≡ length (xs ++ encode v)
  next_start xs v = omega (arith, length-append xs (encode v), length-encode v)

  past_end : (xs : List ℕ) → length b.stored ≡ length xs → diag_read b (length xs) ≡ none
  unfolding diag_read
  past_end xs size =
      let short : (b.failed
            || (ltb capacity (length b.stored)
                || (ltb (length b.stored) (length xs) || ltb (length b.stored - length xs) 16)))
          ≡ true =
        ground (arith, size, small) in
      rw short refl

  end_of_values :
      (f : ℕ) (xs : List ℕ)
      → b.stored ≡ xs ++ []
      → (is_valid_batch (suc f) b (length xs) ≡ true) × (set_values (suc f) b (length xs) ≡ [])
  unfolding is_valid_batch set_values
  end_of_values f xs e =
      let size : length b.stored ≡ length xs = ap length (e ∙ append-nil xs) in
      let over : ltb (length xs) (length b.stored) ≡ false = ground (arith, size) in
      (rw over refl, rw (set_values, past_end xs size) refl)

  whole_batch :
      (vs : List Value) (f : ℕ) (xs : List ℕ)
      → AllValues vs
      → b.stored ≡ xs ++ encode_all vs
      → length (encode_all vs) < f
      → (is_valid_batch f b (length xs) ≡ true) × (set_values f b (length xs) ≡ vs)
  unfolding is_valid_batch set_values
  whole_batch vs zero xs a e h = absurd (omega arith)
  whole_batch [] (suc f) xs a e h = end_of_values f xs e
  whole_batch (v ∷ vs) (suc f) xs (i, a) e h =
      let found = diag_read-encode xs (encode_all vs) v b i sound e small in
      let total = total_bytes (length v.name) (length v.data_bytes) in
      let large = total_bytes-large (length v.name) (length v.data_bytes) in
      let rest : (is_valid_batch f b (length xs + total) ≡ true)
          × (set_values f b (length xs + total) ≡ vs) =
        subst (λ k. (is_valid_batch f b k ≡ true) × (set_values f b k ≡ vs)) (sym (next_start xs v))
          (whole_batch vs f (xs ++ encode v) a
            (e ∙ sym (append_assoc xs (encode v) (encode_all vs)))
            (omega (arith, h, large, length-append (encode v) (encode_all vs), length-encode v))) in
      let inside : ltb (length xs) (length b.stored) ≡ true = ground (
        arith,
        ap length e,
        length-append xs (encode v ++ encode_all vs),
        length-append (encode v) (encode_all vs),
        length-encode v,
        large,
      ) in
      (rw (inside, found) rest.0, rw (set_values, found) (ap (λ l. v ∷ l) rest.1))

nothing_stored : (vs : List Value) → length (encode_all vs) ≡ 0 → [] ≡ vs
nothing_stored [] h = refl
nothing_stored (v ∷ vs) h =
    let large = total_bytes-large (length v.name) (length v.data_bytes) in
    absurd (omega (arith, h, large, length-append (encode v) (encode_all vs), length-encode v))

-- When a capture from an empty buffer has not failed, the writer accepts the whole batch and sets
-- exactly the captured values, in order, with their names, types and data; the values have names of an
-- even length from 2 to 65532 bytes and types of 32 bits.
pub write_snapshot-diag_appends :
    (vs : List Value)
    → AllValues vs
    → (diag_appends empty_snapshot vs).failed ≡ false
    → write_snapshot (diag_appends empty_snapshot vs) ≡ vs
unfolding write_snapshot
write_snapshot-diag_appends vs a h =
    let b = diag_appends empty_snapshot vs in
    let s = diag_appends-stored empty_snapshot vs h (omega arith) in
    let whole =
      whole_batch b h s.1 vs (length b.stored + 1) [] a s.0 (omega (arith, ap length s.0)) in
    each_branch (λ ws. ws ≡ vs) (b.failed || length b.stored == 0)
      (λ g. nothing_stored vs (ground (arith, h, ap length s.0))) (λ g. rw (whole.0) whole.1)
