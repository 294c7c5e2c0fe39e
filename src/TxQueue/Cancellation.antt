-- ===== src/TxQueue/Cancellation.antt =====
-- CywTxCancel of src/cyw43455/tx_queue.h.
use rpi5_wifi_driver_win11ar.Prelude.{ℕ, suc, ◌≡◌, refl, ap, List, [], ◌∷◌, map, arith, length}
use rpi5_wifi_driver_win11ar.TxQueue.State.{PendingSend, System}
use rpi5_wifi_driver_win11ar.TxQueue.Release.{cancel, mark_cancelled}
use rpi5_wifi_driver_win11ar.TxQueue.Items.{AllOk, held_sum, bytes_sum, nbls}
use rpi5_wifi_driver_win11ar.TxQueue.Invariant.{IsValid}

module _ (id : ℕ) where
  AllOk-mark : (xs : List PendingSend) → AllOk xs → AllOk (map (mark_cancelled id) xs)
  unfolding mark_cancelled
  AllOk-mark [] h = tt
  AllOk-mark (x ∷ xs) h = ground (arith, AllOk-mark xs h.1)

  held_sum-mark : (xs : List PendingSend) → held_sum (map (mark_cancelled id) xs) ≡ held_sum xs
  unfolding mark_cancelled
  held_sum-mark [] = refl
  held_sum-mark (x ∷ xs) = ground (arith, held_sum-mark xs)

  bytes_sum-mark : (xs : List PendingSend) → bytes_sum (map (mark_cancelled id) xs) ≡ bytes_sum xs
  unfolding mark_cancelled
  bytes_sum-mark [] = refl
  bytes_sum-mark (x ∷ xs) = ground (arith, bytes_sum-mark xs)

  length-mark : (xs : List PendingSend) → length (map (mark_cancelled id) xs) ≡ length xs
  length-mark [] = refl
  length-mark (x ∷ xs) = ap suc (length-mark xs)

  pub nbls-mark : (xs : List PendingSend) → nbls (map (mark_cancelled id) xs) ≡ nbls xs
  unfolding mark_cancelled
  nbls-mark [] = refl
  nbls-mark (x ∷ xs) = ground (arith, nbls-mark xs)

  pub cancel-IsValid :
      (s : System) {d c : ℕ} → IsValid s.queue d c → IsValid (cancel s id).queue d c
  unfolding cancel
  cancel-IsValid s v = record {
    entries_ok = AllOk-mark s.queue.entries v.entries_ok;
    backlog_ok = AllOk-mark s.queue.backlog v.backlog_ok;
    frames_sum = omega (arith, held_sum-mark s.queue.entries);
    bytes_total = omega (arith, bytes_sum-mark s.queue.entries);
    window = v.window;
    charged = omega (arith, length-mark s.queue.entries);
    outstanding_le = v.outstanding_le;
    backlog_sum = omega (arith, held_sum-mark s.queue.backlog);
    backlog_total = omega (arith, bytes_sum-mark s.queue.backlog);
    backlog_le = v.backlog_le;
    in_callback = v.in_callback;
    one_callback = v.one_callback;
  }
