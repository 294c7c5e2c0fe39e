-- ===== src/TxQueue/Promotion.antt =====
-- CywTxPromoteOneLocked of src/cyw43455/tx_queue.h and the loops over it.
use rpi5_wifi_driver_win11ar.Prelude.{
  ℕ, zero, suc, ◌+◌, ◌≤◌, ◌≡◌, refl, ap, none, ◌∙◌, inl, inr, true, List, [], ◌∷◌, some, arith,
  length, Option-cases,
}
use rpi5_wifi_driver_win11ar.TxQueue.State.{PendingSend, TxState, System, status_success}
use rpi5_wifi_driver_win11ar.TxQueue.Admission.{active_fits, activate_queue}
use rpi5_wifi_driver_win11ar.TxQueue.Release.{
  unlink_backlog, promote_head, promote_one, promote_while, promote_all,
}
use rpi5_wifi_driver_win11ar.TxQueue.Invariant.{
  IsValid, activate_queue-IsValid, unlink_backlog-IsValid,
}

-- What a promotion does to the queue.
pub record Promoted (s t : System) : Type 0 where
  pub item : PendingSend
  pub rest : List PendingSend
  pub oldest : s.queue.backlog ≡ item ∷ rest
  pub open_gate : s.queue.gate ≡ status_success
  pub fits : active_fits s.queue item.held_frames ≡ true
  pub queue_eq : t.queue ≡ activate_queue (unlink_backlog s.queue item rest) item
  pub returned_eq : t.returned ≡ s.returned

promote_head-Promoted :
    (time : ℕ → ℕ) (s t : System) (items : List PendingSend)
    → s.queue.backlog ≡ items
    → promote_head time s items ≡ some t
    → Promoted s t
unfolding promote_head
promote_head-Promoted time s t [] b e = cc
promote_head-Promoted time s t (item ∷ rest) b e = record {
  item = item;
  rest = rest;
  oldest = b;
  open_gate = ground arith;
  fits = ground arith;
  queue_eq = ground arith;
  returned_eq = ground arith;
}

pub promote_one-Promoted :
    (time : ℕ → ℕ) (s t : System) → promote_one time s ≡ some t → Promoted s t
unfolding promote_one
promote_one-Promoted time s t e = promote_head-Promoted time s t s.queue.backlog refl e

active_fits-unlink :
    (q : TxState) (item : PendingSend) (rest : List PendingSend) (frames : ℕ)
    → active_fits (unlink_backlog q item rest) frames ≡ active_fits q frames
unfolding active_fits unlink_backlog
active_fits-unlink q item rest frames = refl

promoted_queue-IsValid :
    (q : TxState) {d c : ℕ} (item : PendingSend) (rest : List PendingSend)
    → IsValid q d c
    → q.backlog ≡ item ∷ rest
    → active_fits q item.held_frames ≡ true
    → IsValid (activate_queue (unlink_backlog q item rest) item) d c
promoted_queue-IsValid q {d} {c} item rest v b fits =
    let u = unlink_backlog-IsValid q {d = d} {c = c} 0 item rest v (rw b) (rw b) in
    activate_queue-IsValid item u.0 u.1 (active_fits-unlink q item rest item.held_frames ∙ fits)

pub promote_one-IsValid :
    (time : ℕ → ℕ) (s t : System) {d c : ℕ}
    → IsValid s.queue d c
    → promote_one time s ≡ some t
    → IsValid t.queue d c
promote_one-IsValid time s t v e =
    let p = promote_one-Promoted time s t e in
    rw p.queue_eq (promoted_queue-IsValid s.queue p.item p.rest v p.oldest p.fits)

-- Refilling the window keeps the invariant.
promote_while-IsValid :
    (time : ℕ → ℕ) (fuel : ℕ) (s : System) {d c : ℕ}
    → IsValid s.queue d c
    → IsValid (promote_while time fuel s).queue d c
unfolding promote_while
promote_while-IsValid time zero s v = v
promote_while-IsValid time (suc fuel) s {d} {c} v = elim (Option-cases (promote_one time s)) [
  | inl e ↦ rw (e, promote_while) v
  | inr (t, e) ↦
      rw (e, promote_while) (promote_while-IsValid time fuel t (promote_one-IsValid time s t v e))
]

pub promote_all-IsValid :
    (time : ℕ → ℕ) (s : System) {d c : ℕ}
    → IsValid s.queue d c
    → IsValid (promote_all time s).queue d c
unfolding promote_all
promote_all-IsValid time s v = promote_while-IsValid time (length s.queue.backlog) s v

empty_head :
    (time : ℕ → ℕ) (s : System) (items : List PendingSend)
    → length items ≡ 0
    → promote_head time s items ≡ none
unfolding promote_head
empty_head time s [] e = refl
empty_head time s (item ∷ rest) e = absurd (omega (arith, e))

promote_one-empty :
    (time : ℕ → ℕ) (s : System) → length s.queue.backlog ≡ 0 → promote_one time s ≡ none
unfolding promote_one
promote_one-empty time s e = empty_head time s s.queue.backlog e

promoted-backlog :
    (q : TxState) (item : PendingSend) (rest : List PendingSend)
    → (activate_queue (unlink_backlog q item rest) item).backlog ≡ rest
unfolding activate_queue unlink_backlog
promoted-backlog q item rest = refl

-- A promotion shortens the backlog by one item.
promote_one-length :
    (time : ℕ → ℕ) (s t : System)
    → promote_one time s ≡ some t
    → length s.queue.backlog ≡ length t.queue.backlog + 1
promote_one-length time s t e =
    let p = promote_one-Promoted time s t e in
    omega (
      arith,
      ap length p.oldest,
      ap (λ q. length q.backlog) p.queue_eq,
      ap length (promoted-backlog s.queue p.item p.rest),
    )

promote_while-none :
    (time : ℕ → ℕ) (fuel : ℕ) (s : System)
    → length s.queue.backlog ≤ fuel
    → promote_one time (promote_while time fuel s) ≡ none
unfolding promote_while
promote_while-none time zero s enough = promote_one-empty time s (omega (arith, enough))
promote_while-none time (suc fuel) s enough = elim (Option-cases (promote_one time s)) [
  | inl e ↦ rw (e, promote_while) e
  | inr (t, e) ↦
      rw (e, promote_while)
        (promote_while-none time fuel t (omega (arith, enough, promote_one-length time s t e)))
]

-- Refilling the window ends, and with nothing left to promote: after the loop over
-- CywTxPromoteOneLocked one more call of it answers FALSE.
pub promote_all-none : (time : ℕ → ℕ) (s : System) → promote_one time (promote_all time s) ≡ none
unfolding promote_all
promote_all-none time s = promote_while-none time (length s.queue.backlog) s (omega arith)
