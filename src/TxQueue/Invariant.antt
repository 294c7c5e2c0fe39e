-- ===== src/TxQueue/Invariant.antt =====
-- The representation invariant of CYW_TX_STATE in src/cyw43455/tx_queue.h.
use rpi5_wifi_driver_win11ar.Prelude.{
  ℕ, ◌+◌, ◌≤◌, ◌≡◌, true, List, [], ◌∷◌, some, arith, length, get_elem?, remove, length-append,
}
use rpi5_wifi_driver_win11ar.TxQueue.State.{
  PendingSend, TxState, System, tx_limit, tx_backlog_limit,
}
use rpi5_wifi_driver_win11ar.TxQueue.Admission.{
  active_fits, backlog_fits, activate_queue, backlog_queue, admit,
}
use rpi5_wifi_driver_win11ar.TxQueue.Release.{unlink_backlog}
use rpi5_wifi_driver_win11ar.TxQueue.Items.{
  ItemOk, AllOk, held_sum, bytes_sum, held_sum-append, bytes_sum-append, AllOk-append,
  held_sum-remove, bytes_sum-remove, AllOk-remove, bytes_sum-le,
}

-- `detached` lists are out of the window and still charged to Outstanding; `callbacks` of them are
-- in their NDIS callback and charged to Completing.
pub record IsValid (q : TxState) (detached callbacks : ℕ) : Type 0 where
  pub entries_ok : AllOk q.entries
  pub backlog_ok : AllOk q.backlog
  pub frames_sum : q.frames ≡ held_sum q.entries
  pub bytes_total : q.bytes ≡ bytes_sum q.entries
  pub window : q.frames ≤ tx_limit
  pub charged : q.outstanding ≡ length q.entries + detached
  pub outstanding_le : q.outstanding ≤ tx_limit
  pub backlog_sum : q.backlog_frames ≡ held_sum q.backlog
  pub backlog_total : q.backlog_bytes ≡ bytes_sum q.backlog
  pub backlog_le : q.backlog_frames ≤ tx_backlog_limit
  pub in_callback : q.completing ≡ callbacks
  pub one_callback : callbacks ≤ 1

pub activate_queue-IsValid :
    {q : TxState} {d c : ℕ} (item : PendingSend)
    → IsValid q d c
    → ItemOk item
    → active_fits q item.held_frames ≡ true
    → IsValid (activate_queue q item) d c
unfolding activate_queue active_fits
activate_queue-IsValid {q} item v ok fits = record {
  entries_ok = AllOk-append q.entries v.entries_ok ok;
  backlog_ok = v.backlog_ok;
  frames_sum = ground (arith, held_sum-append q.entries (item ∷ []));
  bytes_total =
      ground (arith, bytes_sum-append q.entries (item ∷ []), bytes_sum-le q.entries v.entries_ok);
  window = ground arith;
  charged = ground (arith, length-append q.entries (item ∷ []));
  outstanding_le = ground arith;
  backlog_sum = v.backlog_sum;
  backlog_total = v.backlog_total;
  backlog_le = v.backlog_le;
  in_callback = v.in_callback;
  one_callback = v.one_callback;
}

backlog_queue-IsValid :
    {q : TxState} {d c : ℕ} (item : PendingSend)
    → IsValid q d c
    → ItemOk item
    → backlog_fits q item.held_frames ≡ true
    → IsValid (backlog_queue q item) d c
unfolding backlog_queue backlog_fits
backlog_queue-IsValid {q} item v ok fits = record {
  entries_ok = v.entries_ok;
  backlog_ok = AllOk-append q.backlog v.backlog_ok ok;
  frames_sum = v.frames_sum;
  bytes_total = v.bytes_total;
  window = v.window;
  charged = v.charged;
  outstanding_le = v.outstanding_le;
  backlog_sum = ground (arith, held_sum-append q.backlog (item ∷ []));
  backlog_total =
      ground (arith, bytes_sum-append q.backlog (item ∷ []), bytes_sum-le q.backlog v.backlog_ok);
  backlog_le = ground arith;
  in_callback = v.in_callback;
  one_callback = v.one_callback;
}

-- Admission keeps the invariant, whatever it answers.
pub admit-IsValid :
    (s : System) {d c : ℕ} (item : PendingSend)
    → IsValid s.queue d c
    → ItemOk item
    → IsValid (admit s item).1.queue d c
unfolding admit
admit-IsValid s item v ok = ground (
  arith,
  activate_queue-IsValid {q = s.queue} item v ok,
  backlog_queue-IsValid {q = s.queue} item v ok,
)

pub unlink_backlog-IsValid :
    (q : TxState) {d c : ℕ} (i : ℕ) (item : PendingSend) (rest : List PendingSend)
    → IsValid q d c
    → get_elem? q.backlog i ≡ some item
    → remove q.backlog i ≡ rest
    → IsValid (unlink_backlog q item rest) d c × ItemOk item
unfolding unlink_backlog
unlink_backlog-IsValid q i item rest v e r = rw (← r) (
    let parts = AllOk-remove q.backlog i v.backlog_ok e in
    (
      record {
        entries_ok = v.entries_ok;
        backlog_ok = parts.0;
        frames_sum = v.frames_sum;
        bytes_total = v.bytes_total;
        window = v.window;
        charged = v.charged;
        outstanding_le = v.outstanding_le;
        backlog_sum = omega (arith, held_sum-remove q.backlog i e);
        backlog_total =
            omega (arith, bytes_sum-remove q.backlog i e, bytes_sum-le q.backlog v.backlog_ok);
        backlog_le = omega (arith, held_sum-remove q.backlog i e);
        in_callback = v.in_callback;
        one_callback = v.one_callback;
      },
      parts.1,
    ))
