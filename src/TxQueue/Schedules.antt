-- ===== src/TxQueue/Schedules.antt =====
-- Every schedule of src/cyw43455/tx_queue.h: what holds after any sequence of its critical sections.
use mathlib.Core.Bool.{false≢true}
use rpi5_wifi_driver_win11ar.Prelude.{
  ℕ, ◌+◌, ◌≤◌, ◌≡◌, inl, inr, refl, sym, ◌∙◌, List, [], ◌∷◌, Option, none, some, arith, ◌==◌,
  length, Bool-cases, ==_iff, subst,
}
use rpi5_wifi_driver_win11ar.TxQueue.State.{PendingSend, TxState, Counters, System, status_pending}
use rpi5_wifi_driver_win11ar.TxQueue.Admission.{prepare}
use rpi5_wifi_driver_win11ar.TxQueue.Release.{
  outstanding_total, remove_entry, remove_backlog, count_failure,
}
use rpi5_wifi_driver_win11ar.TxQueue.Items.{length-le-held_sum, nbls, count}
use rpi5_wifi_driver_win11ar.TxQueue.Preparation.{prepare-ItemOk}
use rpi5_wifi_driver_win11ar.TxQueue.Invariant.{IsValid}
use rpi5_wifi_driver_win11ar.TxQueue.Line.{line}
use rpi5_wifi_driver_win11ar.TxQueue.World.{
  Hand, free, removed, calling, World, Event, submits, cancels, gates, promotes, sends_frame,
  removes_entry, removes_backlog, charges, returns, take_entry, take_backlog, work, step, run,
  start,
}
use rpi5_wifi_driver_win11ar.TxQueue.Ownership.{
  in_hand, returned_nbls, detached, callbacks, Owned, WorldOk, count-line, arrive-WorldOk,
  cancel-WorldOk, gate-WorldOk, promotes-WorldOk,
}
use rpi5_wifi_driver_win11ar.TxQueue.Handover.{
  advance_head-WorldOk, removes_entry-Owned, removes_backlog-Owned, count_failure-Owned,
  charges-Owned, returns-Owned,
}

take_entry-WorldOk :
    (w : World) (i status : ℕ) (o : Option (ℕ × System))
    → remove_entry w.sys i status ≡ o
    → Owned w.sys free w.accepted
    → w.hand ≡ free
    → WorldOk (take_entry w status o)
take_entry-WorldOk w i status none e v h = subst (λ k. Owned w.sys k w.accepted) (sym h) v
take_entry-WorldOk w i status (some (nbl, t)) e v h =
    removes_entry-Owned w.sys t w.accepted i status nbl e v

take_backlog-WorldOk :
    (time : ℕ → ℕ) (w : World) (i status : ℕ) (o : Option (ℕ × System))
    → remove_backlog time w.sys i status ≡ o
    → Owned w.sys free w.accepted
    → w.hand ≡ free
    → WorldOk (take_backlog w status o)
take_backlog-WorldOk time w i status none e v h = subst (λ k. Owned w.sys k w.accepted) (sym h) v
take_backlog-WorldOk time w i status (some (nbl, t)) e v h =
    count_failure-Owned t _ w.accepted status
      (removes_backlog-Owned time w.sys t w.accepted i status nbl e v)

pub work-WorldOk :
    (time : ℕ → ℕ) (w : World) (h : Hand) (e : Event)
    → w.hand ≡ h
    → WorldOk w
    → WorldOk (work time w h e)
unfolding work
work-WorldOk time w free promotes eh v = promotes-WorldOk time w _ refl v
work-WorldOk time w free sends_frame eh v = advance_head-WorldOk w _ refl v
work-WorldOk time w free (removes_entry i status) eh v =
    take_entry-WorldOk w i status _ refl (subst (λ k. Owned w.sys k w.accepted) eh v) eh
work-WorldOk time w free (removes_backlog i status) eh v =
    take_backlog-WorldOk time w i status _ refl (subst (λ k. Owned w.sys k w.accepted) eh v) eh
work-WorldOk time w (removed nbl status) charges eh v =
    charges-Owned time (count_failure w.sys status) w.accepted nbl status
      (count_failure-Owned w.sys _ w.accepted status (subst (λ k. Owned w.sys k w.accepted) eh v))
work-WorldOk time w (calling nbl status) returns eh v =
    returns-Owned w.sys w.accepted nbl status (subst (λ k. Owned w.sys k w.accepted) eh v)
work-WorldOk time w h e eh v = v

pub step-WorldOk : (time : ℕ → ℕ) (w : World) (e : Event) → WorldOk w → WorldOk (step time w e)
unfolding step
step-WorldOk time w (submits l now) v =
    arrive-WorldOk w (prepare l now) (λ item e. prepare-ItemOk l now e) v
step-WorldOk time w (cancels id) v = cancel-WorldOk w id v
step-WorldOk time w (gates status) v = elim (Bool-cases (status == status_pending)) [
  | inl e ↦ rw e v
  | inr e ↦
      rw e (gate-WorldOk w status (λ p. false≢true (sym e ∙ (==_iff status status_pending).1 p)) v)
]
step-WorldOk time w e v = work-WorldOk time w w.hand e refl v

pub run-WorldOk : (time : ℕ → ℕ) (w : World) (es : List Event) → WorldOk w → WorldOk (run time w es)
unfolding run
run-WorldOk time w [] v = v
run-WorldOk time w (e ∷ es) v = run-WorldOk time (step time w e) es (step-WorldOk time w e v)

pub start-WorldOk : (counters : Counters) → WorldOk (start counters)
start-WorldOk counters = record {
  valid = omega arith;
  no_pending = omega arith;
  balanced = λ id. omega arith;
}

-- In every schedule of submissions, cancellations, gate changes and worker sections, the window
-- holds at most 64 frames and the backlog at most 128, Frames and Bytes are the sums over their
-- entries, no more than 64 lists are charged to Outstanding, and no counter has wrapped.
pub run-IsValid :
    (time : ℕ → ℕ) (counters : Counters) (es : List Event)
    → let w = run time (start counters) es in
      IsValid w.sys.queue (detached w.hand) (callbacks w.hand)
run-IsValid time counters es = (run-WorldOk time (start counters) es (start-WorldOk counters)).valid

-- No list is lost and none is completed twice: in every schedule, each list was accepted exactly as
-- often as it has been returned to NDIS, is in the worker's hand, or stands in the queue.
pub run-balanced :
    (time : ℕ → ℕ) (counters : Counters) (es : List Event) (id : ℕ)
    → let w = run time (start counters) es in
      count id w.accepted
      ≡ count id (returned_nbls w.sys.returned)
        + count id (in_hand w.hand)
        + count id (line w.sys.queue)
run-balanced time counters es =
    (run-WorldOk time (start counters) es (start-WorldOk counters)).balanced

pub outstanding-held :
    (q : TxState) (h : Hand)
    → IsValid q (detached h) (callbacks h)
    → outstanding_total q ≡ length (in_hand h) + length q.entries + length q.backlog
unfolding outstanding_total
outstanding-held q free v = omega (arith, length-le-held_sum q.backlog v.backlog_ok)
outstanding-held q (removed nbl status) v = omega (arith, length-le-held_sum q.backlog v.backlog_ok)
outstanding-held q (calling nbl status) v = omega (arith, length-le-held_sum q.backlog v.backlog_ok)

-- In every schedule CywTxOutstanding counts the lists that the driver holds, one in its completion
-- callback included.
pub outstanding-run :
    (time : ℕ → ℕ) (counters : Counters) (es : List Event)
    → let w = run time (start counters) es in
      outstanding_total w.sys.queue
      ≡ length (in_hand w.hand) + length w.sys.queue.entries + length w.sys.queue.backlog
outstanding-run time counters es = outstanding-held _ _ (run-IsValid time counters es)

count-nbls-le : (id : ℕ) (xs : List PendingSend) → count id (nbls xs) ≤ length xs
count-nbls-le id [] = omega arith
count-nbls-le id (x ∷ xs) = ground (arith, count-nbls-le id xs)

count_hand_le : (id : ℕ) (h : Hand) → count id (in_hand h) ≤ length (in_hand h)
count_hand_le id free = omega arith
count_hand_le id (removed nbl status) = ground arith
count_hand_le id (calling nbl status) = ground arith

-- In every schedule, when CywTxOutstanding is zero (which Pause and power-down wait for), each list
-- has come back to NDIS exactly as often as it was accepted.
pub outstanding_zero :
    (time : ℕ → ℕ) (counters : Counters) (es : List Event) (id : ℕ)
    → outstanding_total (run time (start counters) es).sys.queue ≡ 0
    → count id (run time (start counters) es).accepted
      ≡ count id (returned_nbls (run time (start counters) es).sys.returned)
outstanding_zero time counters es id z =
    let w = run time (start counters) es in
    omega (
      arith,
      run-balanced time counters es id,
      outstanding-run time counters es,
      count_hand_le id w.hand,
      count-nbls-le id w.sys.queue.entries,
      count-nbls-le id w.sys.queue.backlog,
      count-line id w.sys.queue,
    )
