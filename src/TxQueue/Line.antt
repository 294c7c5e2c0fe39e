-- ===== src/TxQueue/Line.antt =====
-- The line of lists in src/cyw43455/tx_queue.h, the window and then the backlog: promotion and
-- admission keep it in the order of submission.
use mathlib.Core.List.{append-nil, append_assoc}
use rpi5_wifi_driver_win11ar.Prelude.{
  ℕ, zero, suc, ◌≡◌, ◌≢◌, ◌⊎◌, inl, inr, refl, sym, ◌∙◌, ap, true, List, [], ◌∷◌, ◌++◌, some, arith,
  ◌==◌, length, Option-cases,
}
use rpi5_wifi_driver_win11ar.TxQueue.State.{PendingSend, TxState, System, status_pending}
use rpi5_wifi_driver_win11ar.TxQueue.Admission.{activate_queue, backlog_queue, admit}
use rpi5_wifi_driver_win11ar.TxQueue.Release.{
  unlink_backlog, promote_one, promote_while, promote_all,
}
use rpi5_wifi_driver_win11ar.TxQueue.Items.{nbls, nbls-append}
use rpi5_wifi_driver_win11ar.TxQueue.Promotion.{promote_one-Promoted}

-- The lists in the window and then in the backlog, oldest first.
abbrev pub line : TxState → List ℕ
line q = nbls q.entries ++ nbls q.backlog

line-activate_queue :
    (q : TxState) (item : PendingSend)
    → q.backlog ≡ []
    → line (activate_queue q item) ≡ line q ++ (item.nbl ∷ [])
unfolding activate_queue
line-activate_queue q item e = rw (e, append-nil, append-nil) (nbls-append q.entries (item ∷ []))

line-backlog_queue :
    (q : TxState) (item : PendingSend) → line (backlog_queue q item) ≡ line q ++ (item.nbl ∷ [])
unfolding backlog_queue
line-backlog_queue q item =
    rw (nbls-append q.backlog (item ∷ [])) (sym (append_assoc (nbls q.entries) _ _))

-- A promotion leaves the line as it is.
line-promoted :
    (q : TxState) (item : PendingSend) (rest : List PendingSend)
    → q.backlog ≡ item ∷ rest
    → line (activate_queue (unlink_backlog q item rest) item) ≡ line q
unfolding activate_queue unlink_backlog
line-promoted q item rest e =
    rw (e, nbls-append q.entries (item ∷ [])) (append_assoc (nbls q.entries) _ _)

pub line-promote_one :
    (time : ℕ → ℕ) (s t : System) → promote_one time s ≡ some t → line t.queue ≡ line s.queue
line-promote_one time s t e =
    let p = promote_one-Promoted time s t e in
    ap line p.queue_eq ∙ line-promoted s.queue p.item p.rest p.oldest

line-promote_while :
    (time : ℕ → ℕ) (fuel : ℕ) (s : System) → line (promote_while time fuel s).queue ≡ line s.queue
unfolding promote_while
line-promote_while time zero s = refl
line-promote_while time (suc fuel) s = elim (Option-cases (promote_one time s)) [
  | inl e ↦ rw (e, promote_while)
  | inr (t, e) ↦
      rw (e, promote_while) (line-promote_while time fuel t ∙ line-promote_one time s t e)
]

-- Nor does a promotion return a list.
returned-promote_while :
    (time : ℕ → ℕ) (fuel : ℕ) (s : System) → (promote_while time fuel s).returned ≡ s.returned
unfolding promote_while
returned-promote_while time zero s = refl
returned-promote_while time (suc fuel) s = elim (Option-cases (promote_one time s)) [
  | inl e ↦ rw (e, promote_while)
  | inr (t, e) ↦
      rw (e, promote_while)
        (returned-promote_while time fuel t ∙ (promote_one-Promoted time s t e).returned_eq)
]

gate-promoted :
    (q : TxState) (item : PendingSend) (rest : List PendingSend)
    → (activate_queue (unlink_backlog q item rest) item).gate ≡ q.gate
unfolding activate_queue unlink_backlog
gate-promoted q item rest = refl

pub gate-promote_one :
    (time : ℕ → ℕ) (s t : System) → promote_one time s ≡ some t → t.queue.gate ≡ s.queue.gate
gate-promote_one time s t e =
    let p = promote_one-Promoted time s t e in
    ap (λ q. q.gate) p.queue_eq ∙ gate-promoted s.queue p.item p.rest

gate-promote_while :
    (time : ℕ → ℕ) (fuel : ℕ) (s : System) → (promote_while time fuel s).queue.gate ≡ s.queue.gate
unfolding promote_while
gate-promote_while time zero s = refl
gate-promote_while time (suc fuel) s = elim (Option-cases (promote_one time s)) [
  | inl e ↦ rw (e, promote_while)
  | inr (t, e) ↦
      rw (e, promote_while) (gate-promote_while time fuel t ∙ gate-promote_one time s t e)
]

-- Refilling the window never reorders: the lists of the window and then of the backlog stand in the
-- same order as before, nothing is returned, and the gate stays.
pub line-promote_all :
    (time : ℕ → ℕ) (s : System)
    → (line (promote_all time s).queue ≡ line s.queue)
      × ((promote_all time s).returned ≡ s.returned)
      × ((promote_all time s).queue.gate ≡ s.queue.gate)
unfolding promote_all
line-promote_all time s =
    (line-promote_while time _ s, returned-promote_while time _ s, gate-promote_while time _ s)

length-zero : (xs : List PendingSend) → (length xs == 0) ≡ true → xs ≡ []
length-zero [] h = refl
length-zero (x ∷ xs) h = ground arith

-- While the gate is no NDIS_STATUS_PENDING, an accepted submission joins the end of the line, any
-- other leaves the queue as it is, and neither returns a list or moves the gate.
pub line-admit :
    (s : System) (item : PendingSend)
    → s.queue.gate ≢ status_pending
    → let (status, t) = admit s item in
      (t.returned ≡ s.returned)
      × (t.queue.gate ≡ s.queue.gate)
      × (((status ≡ status_pending) × (line t.queue ≡ line s.queue ++ (item.nbl ∷ [])))
          ⊎ ((status ≢ status_pending) × (t.queue ≡ s.queue)))
unfolding admit
line-admit s item ne = ground (
  arith,
  length-zero s.queue.backlog,
  line-activate_queue s.queue item,
  line-backlog_queue s.queue item,
)
