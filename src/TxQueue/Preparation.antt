-- ===== src/TxQueue/Preparation.antt =====
-- CywTxPrepare of src/cyw43455/tx_queue.h: which lists it takes, and what it records of them.
use native.Mathlib.Nat.{zero-add}
use rpi5_wifi_driver_win11ar.Prelude.{
  ℕ, zero, suc, ◌+◌, ◌*◌, ◌≤◌, ◌≡◌, refl, sym, ◌∙◌, true, false, ◌&&◌, Bool, List, [], ◌∷◌, arith,
  ltb, leb, ◌==◌, if◌then◌else◌, length, take, ap, ltb_false→le, eq_zero_false→pos,
}
use rpi5_wifi_driver_win11ar.TxQueue.State.{
  BufferList, PendingSend, tx_limit, status_resources, status_invalid_length,
}
use rpi5_wifi_driver_win11ar.TxQueue.Admission.{
  bad_length, oversized, scanned, scan_buffers, refused, prepared, finish_prepare, prepare,
}
use rpi5_wifi_driver_win11ar.TxQueue.Items.{ItemOk}

-- The independent description: every buffer is an Ethernet frame of 14 to 1514 bytes.
abbrev pub all_frames : List ℕ → Bool
all_frames [] = true
all_frames (len ∷ rest) = leb 14 len && (leb len 1514 && all_frames rest)

abbrev pub sum : List ℕ → ℕ
sum [] = 0
sum (x ∷ xs) = x + sum xs

abbrev pub longest : ℕ → List ℕ → ℕ
longest m [] = m
longest m (x ∷ xs) = longest (if ltb m x then x else m) xs

sum-le : (xs : List ℕ) → all_frames xs ≡ true → sum xs ≤ 1514 * length xs
sum-le [] h = omega arith
sum-le (x ∷ xs) h = ground (arith, sum-le xs)

-- The scan fails at the first bad buffer or at the 65th, whichever comes first; `k` more buffers
-- may pass.
scan_buffers_lem :
    (xs : List ℕ) (k f b m : ℕ)
    → k + f ≡ tx_limit
    → b ≤ 1514 * f
    → scan_buffers xs f b m ≡ (
        if all_frames (take (suc k) xs)
        then (if ltb tx_limit (f + length xs)
            then oversized
            else scanned (f + length xs) (b + sum xs) (longest m xs))
        else bad_length)
unfolding scan_buffers
scan_buffers_lem [] k f b m e small = ground arith
scan_buffers_lem (x ∷ xs) zero f b m e small = ground arith
scan_buffers_lem (x ∷ xs) (suc k) f b m e small =
    ground (arith, scan_buffers_lem xs k (f + 1) (b + x) (if ltb m x then x else m))

abbrev pub good_item : BufferList → ℕ → PendingSend
good_item l now = record {
  nbl = l.nbl;
  next = l.buffers;
  cancel_id = l.cancel_id;
  frames = length l.buffers;
  held_frames = length l.buffers;
  bytes = sum l.buffers;
  max_frame_length = longest 0 l.buffers;
  submitted = now;
  cancelled = false;
}

finish_if :
    (l : BufferList) (now : ℕ) (a b : Bool)
    → finish_prepare l now (
        if a
        then (if b
            then oversized
            else scanned (length l.buffers) (sum l.buffers) (longest 0 l.buffers))
        else bad_length)
      ≡ (if a
          then (if b
              then refused status_resources
              else if length l.buffers == 0
              then refused status_invalid_length
              else prepared (good_item l now))
          else refused status_invalid_length)
unfolding finish_prepare
finish_if l now true true = refl
finish_if l now true false = refl
finish_if l now false b = refl

-- CywTxPrepare takes exactly the lists of 1 to 64 Ethernet frames, and records their number, bytes
-- and longest frame with the whole chain ahead. A buffer among the first 65 that is no frame, and
-- the empty list, are an invalid length; 65 frames or more are too many.
pub prepare_lem :
    (l : BufferList) (now : ℕ)
    → prepare l now ≡ (
        if all_frames (take 65 l.buffers)
        then (if ltb tx_limit (length l.buffers)
            then refused status_resources
            else if length l.buffers == 0
            then refused status_invalid_length
            else prepared (good_item l now))
        else refused status_invalid_length)
unfolding prepare
prepare_lem l now = rw (scan_buffers_lem l.buffers 64 0 0 0 (omega arith) (omega arith)) (
    simp zero-add
      (finish_if l now (all_frames (take 65 l.buffers)) (ltb tx_limit (length l.buffers))))

take_all : (k : ℕ) (xs : List ℕ) → length xs ≤ k → take k xs ≡ xs
take_all zero [] h = refl
take_all zero (x ∷ xs) h = absurd (omega arith)
take_all (suc k) [] h = refl
take_all (suc k) (x ∷ xs) h = ap (λ t. x ∷ t) (take_all k xs (omega arith))

prepared_if :
    (a b c : Bool) (r i : ℕ) {good item : PendingSend}
    → (if a then (if b then refused r else if c then refused i else prepared good) else refused i)
      ≡ prepared item
    → (a ≡ true) × (b ≡ false) × (c ≡ false) × (good ≡ item)
prepared_if a b c r i e = ground arith

good_item-ItemOk :
    (l : BufferList) (now : ℕ)
    → all_frames l.buffers ≡ true
    → 1 ≤ length l.buffers
    → length l.buffers ≤ tx_limit
    → ItemOk (good_item l now)
good_item-ItemOk l now good some_frame few = omega (arith, sum-le l.buffers good)

-- What is prepared is in order for the queue.
pub prepare-ItemOk :
    (l : BufferList) (now : ℕ) {item : PendingSend} → prepare l now ≡ prepared item → ItemOk item
prepare-ItemOk l now e =
    let p =
      prepared_if (all_frames (take 65 l.buffers)) (ltb tx_limit (length l.buffers))
        (length l.buffers == 0) _ _ (sym (prepare_lem l now) ∙ e) in
    let few : length l.buffers ≤ tx_limit = ltb_false→le _ _ p.1 in
    rw (← p.3) (
      good_item-ItemOk l now (sym (ap all_frames (take_all 65 l.buffers (omega arith))) ∙ p.0)
        (eq_zero_false→pos _ p.2) few)
