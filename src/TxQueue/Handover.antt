-- ===== src/TxQueue/Handover.antt =====
-- The account of src/cyw43455/tx_queue.h across the worker's sections: sending a frame, taking a
-- list out of the queue, and handing it back to NDIS.
use rpi5_wifi_driver_win11ar.Prelude.{
  ℕ, ◌+◌, ◌≡◌, refl, sym, ◌∙◌, ap, List, [], ◌∷◌, ◌++◌, some, arith, length, remove, ap₂, subst,
}
use rpi5_wifi_driver_win11ar.TxQueue.State.{PendingSend, TxState, Completion, System}
use rpi5_wifi_driver_win11ar.TxQueue.Release.{
  remove_entry, promote_all, detach_entry, detach_backlog, remove_backlog, charge_callback,
  count_failure, release_charge, begin_callback, hand_back, end_callback,
}
use rpi5_wifi_driver_win11ar.TxQueue.Items.{
  ItemOk, AllOk, held_sum, bytes_sum, nbls, count, count-append, count-remove,
}
use rpi5_wifi_driver_win11ar.TxQueue.Invariant.{IsValid}
use rpi5_wifi_driver_win11ar.TxQueue.Removal.{
  remove_entry-RemovedEntry, remove_entry-IsValid, remove_backlog-RemovedBacklog,
  remove_backlog-IsValid, charge-IsValid, end_callback-IsValid,
}
use rpi5_wifi_driver_win11ar.TxQueue.Line.{line, line-promote_all}
use rpi5_wifi_driver_win11ar.TxQueue.World.{
  Hand, free, removed, calling, World, advance_entry, advance_head,
}
use rpi5_wifi_driver_win11ar.TxQueue.Ownership.{
  returned_nbls, Owned, WorldOk, count-line, kept-WorldOk,
}

advance_entry-ItemOk :
    (item : PendingSend) (xs : List ℕ)
    → item.next ≡ xs
    → ItemOk item
    → ItemOk (advance_entry item xs)
      × ((advance_entry item xs).held_frames ≡ item.held_frames)
      × ((advance_entry item xs).bytes ≡ item.bytes)
      × ((advance_entry item xs).nbl ≡ item.nbl)
unfolding advance_entry
advance_entry-ItemOk item [] e ok = (ok, refl, refl, refl)
advance_entry-ItemOk item (len ∷ []) e ok = (ok, refl, refl, refl)
advance_entry-ItemOk item (len ∷ (next ∷ others)) e ok =
    (omega (arith, ok, ap length e), refl, refl, refl)

replace_head-IsValid :
    (q : TxState) (item item' : PendingSend) (rest : List PendingSend) {d c : ℕ}
    → q.entries ≡ item ∷ rest
    → ItemOk item'
    → item'.held_frames ≡ item.held_frames
    → item'.bytes ≡ item.bytes
    → IsValid q d c
    → IsValid (record q { entries = item' ∷ rest }) d c
replace_head-IsValid q item item' rest e ok eh eb v =
    let all : AllOk (item ∷ rest) = subst AllOk e v.entries_ok in
    record {
      entries_ok = (ok, all.1);
      backlog_ok = v.backlog_ok;
      frames_sum = omega (arith, ap held_sum e);
      bytes_total = omega (arith, ap bytes_sum e);
      window = v.window;
      charged = omega (arith, ap length e);
      outstanding_le = v.outstanding_le;
      backlog_sum = v.backlog_sum;
      backlog_total = v.backlog_total;
      backlog_le = v.backlog_le;
      in_callback = v.in_callback;
      one_callback = v.one_callback;
    }

pub advance_head-WorldOk :
    (w : World) (xs : List PendingSend)
    → w.sys.queue.entries ≡ xs
    → WorldOk w
    → WorldOk (record w { sys = advance_head w.sys xs })
unfolding advance_head
advance_head-WorldOk w [] e v = v
advance_head-WorldOk w (item ∷ rest) e v =
    let all : AllOk (item ∷ rest) = subst AllOk e v.valid.entries_ok in
    let a = advance_entry-ItemOk item item.next refl all.0 in
    kept-WorldOk w _
      (replace_head-IsValid w.sys.queue item (advance_entry item item.next) rest e a.0 a.1 a.2
        v.valid)
      (ap (λ t. t ++ nbls w.sys.queue.backlog) (ap₂ ◌∷◌ a.3 refl ∙ sym (ap nbls e))) refl refl v

count-returned :
    (id nbl status : ℕ) (cs : List Completion)
    → count id (returned_nbls (cs ++ (record { nbl = nbl; status = status } ∷ [])))
      ≡ count id (returned_nbls cs) + count id (nbl ∷ [])
count-returned id nbl status [] = omega arith
count-returned id nbl status (c ∷ cs) = omega (arith, count-returned id nbl status cs)

-- The worker takes an entry out of the window into its hand.
pub removes_entry-Owned :
    (s t : System) (acc : List ℕ) (i status nbl : ℕ)
    → remove_entry s i status ≡ some (nbl, t)
    → Owned s free acc
    → Owned t (removed nbl status) acc
unfolding detach_entry
removes_entry-Owned s t acc i status nbl e v =
    let r = remove_entry-RemovedEntry s t i status nbl e in
    record {
      valid = remove_entry-IsValid s t i status nbl v.valid e;
      no_pending = λ g. v.no_pending (sym (ap (λ u. u.queue.gate) r.after) ∙ g);
      balanced = λ id. omega (
        arith,
        v.balanced id,
        ap (λ u. count id (returned_nbls u.returned)) r.after,
        ap (λ u. count id (line u.queue)) r.after,
        ap (λ k. count id (k ∷ [])) r.nbl_eq,
        count-append id (nbls (remove s.queue.entries i)) (nbls s.queue.backlog),
        count-line id s.queue,
        count-remove id s.queue.entries i r.found,
      );
    }

-- An item taken out of the backlog goes straight to its callback.
pub removes_backlog-Owned :
    (time : ℕ → ℕ) (s t : System) (acc : List ℕ) (i status nbl : ℕ)
    → remove_backlog time s i status ≡ some (nbl, t)
    → Owned s free acc
    → Owned t (calling nbl status) acc
unfolding detach_backlog
removes_backlog-Owned time s t acc i status nbl e v =
    let r = remove_backlog-RemovedBacklog time s t i status nbl e in
    let k = line-promote_all time (detach_backlog s r.item i status) in
    record {
      valid = remove_backlog-IsValid time s t i status nbl v.valid e;
      no_pending = λ g. v.no_pending (sym (ap (λ u. u.queue.gate) r.after ∙ k.2) ∙ g);
      balanced = λ id. omega (
        arith,
        v.balanced id,
        ap (λ u. count id (returned_nbls u.returned)) r.after,
        ap (λ u. count id (returned_nbls u)) k.1,
        ap (λ u. count id (line u.queue)) r.after,
        ap (λ u. count id u) k.0,
        ap (λ n. count id (n ∷ [])) r.nbl_eq,
        count-append id (nbls s.queue.entries) (nbls (remove s.queue.backlog i)),
        count-line id s.queue,
        count-remove id s.queue.backlog i r.found,
      );
    }

pub count_failure-Owned :
    (s : System) (h : Hand) (acc : List ℕ) (status : ℕ)
    → Owned s h acc
    → Owned (count_failure s status) h acc
unfolding count_failure
count_failure-Owned s h acc status v = record {
  valid = v.valid;
  no_pending = v.no_pending;
  balanced = v.balanced;
}

pub charges-Owned :
    (time : ℕ → ℕ) (s : System) (acc : List ℕ) (nbl status : ℕ)
    → Owned s (removed nbl status) acc
    → Owned (begin_callback (promote_all time (release_charge s))) (calling nbl status) acc
unfolding begin_callback release_charge charge_callback
charges-Owned time s acc nbl status v =
    let k = line-promote_all time (release_charge s) in
    record {
      valid = charge-IsValid time s v.valid;
      no_pending = λ g. v.no_pending (sym k.2 ∙ g);
      balanced = λ id. rw (k.0, k.1) (v.balanced id);
    }

pub returns-Owned :
    (s : System) (acc : List ℕ) (nbl status : ℕ)
    → Owned s (calling nbl status) acc
    → Owned (end_callback (hand_back s nbl status)) free acc
unfolding end_callback hand_back
returns-Owned s acc nbl status v = record {
  valid = end_callback-IsValid s v.valid;
  no_pending = v.no_pending;
  balanced = λ id. omega (arith, v.balanced id, count-returned id nbl status s.returned);
}
