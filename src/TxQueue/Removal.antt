-- ===== src/TxQueue/Removal.antt =====
-- Removal and completion in src/cyw43455/tx_queue.h: the invariant across their critical sections.
use rpi5_wifi_driver_win11ar.Prelude.{
  ℕ, suc, ◌≡◌, refl, inl, inr, some, arith, get_elem?, remove, Option-cases,
}
use rpi5_wifi_driver_win11ar.TxQueue.State.{PendingSend, TxState, System}
use rpi5_wifi_driver_win11ar.TxQueue.Release.{
  remove_entry, detach_entry, unlink_entry, promote_all, detach_backlog, remove_backlog,
  release_charge, begin_callback, charge_callback, end_callback,
}
use rpi5_wifi_driver_win11ar.TxQueue.Items.{
  held_sum-remove, bytes_sum-remove, length-remove_at, AllOk-remove, bytes_sum-le,
}
use rpi5_wifi_driver_win11ar.TxQueue.Invariant.{IsValid, unlink_backlog-IsValid}
use rpi5_wifi_driver_win11ar.TxQueue.Promotion.{promote_all-IsValid}

-- What a removal from the window does.
pub record RemovedEntry (s t : System) (i status nbl : ℕ) : Type 0 where
  pub item : PendingSend
  pub found : get_elem? s.queue.entries i ≡ some item
  pub nbl_eq : nbl ≡ item.nbl
  pub after : t ≡ detach_entry s item i status

pub remove_entry-RemovedEntry :
    (s t : System) (i status nbl : ℕ)
    → remove_entry s i status ≡ some (nbl, t)
    → RemovedEntry s t i status nbl
unfolding remove_entry
remove_entry-RemovedEntry s t i status nbl e = elim (Option-cases (get_elem? s.queue.entries i)) [
  | inl n ↦ cc (rw (n, remove_entry) at e)
  | inr (item, f) ↦
      (let g = rw (f, remove_entry) at e in
        record { item = item; found = f; nbl_eq = cc g; after = cc g })
]

unlink_entry-IsValid :
    (q : TxState) {d c : ℕ} (i : ℕ) (item : PendingSend)
    → IsValid q d c
    → get_elem? q.entries i ≡ some item
    → IsValid (unlink_entry q item (remove q.entries i)) (suc d) c
unfolding unlink_entry
unlink_entry-IsValid q i item v e = record {
  entries_ok = (AllOk-remove q.entries i v.entries_ok e).0;
  backlog_ok = v.backlog_ok;
  frames_sum = omega (arith, held_sum-remove q.entries i e);
  bytes_total = omega (arith, bytes_sum-remove q.entries i e, bytes_sum-le q.entries v.entries_ok);
  window = omega (arith, held_sum-remove q.entries i e);
  charged = omega (arith, length-remove_at q.entries i e);
  outstanding_le = v.outstanding_le;
  backlog_sum = v.backlog_sum;
  backlog_total = v.backlog_total;
  backlog_le = v.backlog_le;
  in_callback = v.in_callback;
  one_callback = v.one_callback;
}

-- Removing an entry leaves its charge on Outstanding.
pub remove_entry-IsValid :
    (s t : System) {d c : ℕ} (i status nbl : ℕ)
    → IsValid s.queue d c
    → remove_entry s i status ≡ some (nbl, t)
    → IsValid t.queue (suc d) c
unfolding detach_entry
remove_entry-IsValid s t {d} {c} i status nbl v e =
    let r = remove_entry-RemovedEntry s t i status nbl e in
    rw (r.after) (unlink_entry-IsValid s.queue {d = d} {c = c} i r.item v r.found)

-- What a removal from the backlog does, before the window refills.
pub record RemovedBacklog (time : ℕ → ℕ) (s t : System) (i status nbl : ℕ) : Type 0 where
  pub item : PendingSend
  pub found : get_elem? s.queue.backlog i ≡ some item
  pub nbl_eq : nbl ≡ item.nbl
  pub after : t ≡ promote_all time (detach_backlog s item i status)

pub remove_backlog-RemovedBacklog :
    (time : ℕ → ℕ) (s t : System) (i status nbl : ℕ)
    → remove_backlog time s i status ≡ some (nbl, t)
    → RemovedBacklog time s t i status nbl
unfolding remove_backlog
remove_backlog-RemovedBacklog time s t i status nbl e =
    elim (Option-cases (get_elem? s.queue.backlog i)) [
      | inl n ↦ cc (rw (n, remove_backlog) at e)
      | inr (item, f) ↦
          (let g = rw (f, remove_backlog) at e in
            record { item = item; found = f; nbl_eq = cc g; after = cc g })
    ]

charge_callback-IsValid : (q : TxState) {d : ℕ} → IsValid q d 0 → IsValid (charge_callback q) d 1
unfolding charge_callback
charge_callback-IsValid q v = ground arith

detach_backlog-IsValid :
    (s : System) {d : ℕ} (i status : ℕ) (item : PendingSend)
    → IsValid s.queue d 0
    → get_elem? s.queue.backlog i ≡ some item
    → IsValid (detach_backlog s item i status).queue d 1
unfolding detach_backlog
detach_backlog-IsValid s {d} i status item v e =
    charge_callback-IsValid _ (unlink_backlog-IsValid s.queue {d = d} {c = 0} i item _ v e refl).0

-- Removing a backlog item moves its charge to Completing, and the window refills.
pub remove_backlog-IsValid :
    (time : ℕ → ℕ) (s t : System) {d : ℕ} (i status nbl : ℕ)
    → IsValid s.queue d 0
    → remove_backlog time s i status ≡ some (nbl, t)
    → IsValid t.queue d 1
remove_backlog-IsValid time s t {d} i status nbl v e =
    let r = remove_backlog-RemovedBacklog time s t i status nbl e in
    rw r.after
      (promote_all-IsValid time _ (detach_backlog-IsValid s {d = d} i status r.item v r.found))

-- The first critical section of CywTxComplete, and the second one.
release_charge-IsValid :
    (s : System) {d c : ℕ} → IsValid s.queue (suc d) c → IsValid (release_charge s).queue d c
unfolding release_charge
release_charge-IsValid s v = ground arith

begin_callback-IsValid :
    (s : System) {d : ℕ} → IsValid s.queue d 0 → IsValid (begin_callback s).queue d 1
unfolding begin_callback
begin_callback-IsValid s v = charge_callback-IsValid s.queue v

pub charge-IsValid :
    (time : ℕ → ℕ) (s : System) {d : ℕ}
    → IsValid s.queue (suc d) 0
    → IsValid (begin_callback (promote_all time (release_charge s))).queue d 1
charge-IsValid time s {d} v =
    begin_callback-IsValid _ (promote_all-IsValid time _ (release_charge-IsValid s {d = d} v))

pub end_callback-IsValid :
    (s : System) {d : ℕ} → IsValid s.queue d 1 → IsValid (end_callback s).queue d 0
unfolding end_callback
end_callback-IsValid s v = ground arith
