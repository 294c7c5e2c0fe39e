-- ===== src/TxQueue/Ownership.antt =====
-- Who owns a submitted list in src/cyw43455/tx_queue.h: the account of accepted, held and returned
-- lists, and what submitters, cancellers, gate changes and promotions do to it.
use rpi5_wifi_driver_win11ar.Prelude.{
  ℕ, ◌+◌, ◌≡◌, ◌≢◌, ◌⊎◌, inl, inr, refl, sym, ◌∙◌, List, [], ◌∷◌, ◌++◌, Option, none, some, arith,
  if◌then◌else◌, ◌==◌, Bool-cases, ap₂, ==_iff,
}
use rpi5_wifi_driver_win11ar.TxQueue.State.{
  PendingSend, TxState, Completion, System, status_pending,
}
use rpi5_wifi_driver_win11ar.TxQueue.Admission.{Prepared, refused, prepared}
use rpi5_wifi_driver_win11ar.TxQueue.Release.{set_gate, cancel, promote_one}
use rpi5_wifi_driver_win11ar.TxQueue.Items.{ItemOk, nbls, count, count-append}
use rpi5_wifi_driver_win11ar.TxQueue.Invariant.{IsValid, admit-IsValid}
use rpi5_wifi_driver_win11ar.TxQueue.Promotion.{promote_one-Promoted, promote_one-IsValid}
use rpi5_wifi_driver_win11ar.TxQueue.Cancellation.{cancel-IsValid, nbls-mark}
use rpi5_wifi_driver_win11ar.TxQueue.Line.{line, line-promote_one, gate-promote_one, line-admit}
use rpi5_wifi_driver_win11ar.TxQueue.World.{Hand, free, removed, calling, World, arrive, or_stay}

abbrev pub in_hand : Hand → List ℕ
in_hand free = []
in_hand (removed nbl status) = nbl ∷ []
in_hand (calling nbl status) = nbl ∷ []

abbrev pub returned_nbls : List Completion → List ℕ
returned_nbls [] = []
returned_nbls (c ∷ cs) = c.nbl ∷ returned_nbls cs

-- What the hand still charges to Outstanding, and to Completing.
abbrev pub detached : Hand → ℕ
detached free = 0
detached (removed nbl status) = 1
detached (calling nbl status) = 0

abbrev pub callbacks : Hand → ℕ
callbacks free = 0
callbacks (removed nbl status) = 0
callbacks (calling nbl status) = 1

pub record Owned (s : System) (h : Hand) (accepted : List ℕ) : Type 0 where
  pub valid : IsValid s.queue (detached h) (callbacks h)
  pub no_pending : s.queue.gate ≢ status_pending
  pub balanced :
      (id : ℕ)
      → count id accepted
        ≡ count id (returned_nbls s.returned) + count id (in_hand h) + count id (line s.queue)

abbrev pub WorldOk : World → Type 0
WorldOk w = Owned w.sys w.hand w.accepted

pub count-line :
    (id : ℕ) (q : TxState)
    → count id (line q) ≡ count id (nbls q.entries) + count id (nbls q.backlog)
count-line id q = count-append id (nbls q.entries) (nbls q.backlog)

balanced-arrive :
    (id h nbl status : ℕ) (acc : List ℕ) (q q' : TxState) (r r' : List Completion)
    → r' ≡ r
    → ((status ≡ status_pending) × (line q' ≡ line q ++ (nbl ∷ [])))
      ⊎ ((status ≢ status_pending) × (q' ≡ q))
    → count id acc ≡ count id (returned_nbls r) + h + count id (line q)
    → count id (if status == status_pending then acc ++ (nbl ∷ []) else acc)
      ≡ count id (returned_nbls r') + h + count id (line q')
balanced-arrive id h nbl status acc q q' r r' er (inl (es, el)) b =
    rw (es, er, el)
      (omega (arith, count-append id acc (nbl ∷ []), count-append id (line q) (nbl ∷ [])))
balanced-arrive id h nbl status acc q q' r r' er (inr (ne, eq)) b =
    rw (er, eq)
      (elim (Bool-cases (status == status_pending)) [
        | inl e ↦ absurd (ne ((==_iff _ _).0 e))
        | inr e ↦ rw e b
      ])

pub arrive-WorldOk :
    (w : World) (p : Prepared)
    → ((item : PendingSend) → p ≡ prepared item → ItemOk item)
    → WorldOk w
    → WorldOk (arrive w p)
unfolding arrive
arrive-WorldOk w (refused status) ok v = v
arrive-WorldOk w (prepared item) ok v =
    let a = line-admit w.sys item v.no_pending in
    record {
      valid = admit-IsValid w.sys item v.valid (ok item refl);
      no_pending = λ e. v.no_pending (sym a.1 ∙ e);
      balanced = λ id.
          balanced-arrive id (count id (in_hand w.hand)) item.nbl _ w.accepted w.sys.queue _ _ _ a.0
            a.2 (v.balanced id);
    }

-- An operation that keeps the line, the gate and what was returned keeps the balance.
pub kept-WorldOk :
    (w : World) (t : System)
    → IsValid t.queue (detached w.hand) (callbacks w.hand)
    → line t.queue ≡ line w.sys.queue
    → t.returned ≡ w.sys.returned
    → t.queue.gate ≡ w.sys.queue.gate
    → WorldOk w
    → WorldOk (record w { sys = t })
kept-WorldOk w t valid el er eg v = record {
  valid = valid;
  no_pending = λ e. v.no_pending (sym eg ∙ e);
  balanced = λ id. rw (el, er) (v.balanced id);
}

pub cancel-WorldOk : (w : World) (id : ℕ) → WorldOk w → WorldOk (record w { sys = cancel w.sys id })
unfolding cancel
cancel-WorldOk w id v =
    kept-WorldOk w (cancel w.sys id) (cancel-IsValid id w.sys v.valid)
      (ap₂ ◌++◌ (nbls-mark id w.sys.queue.entries) (nbls-mark id w.sys.queue.backlog)) refl refl v

pub gate-WorldOk :
    (w : World) (status : ℕ)
    → status ≢ status_pending
    → WorldOk w
    → WorldOk (record w { sys = set_gate w.sys status })
unfolding set_gate
gate-WorldOk w status ne v = record {
  valid = ground (arith, v.valid);
  no_pending = ne;
  balanced = v.balanced;
}

pub promotes-WorldOk :
    (time : ℕ → ℕ) (w : World) (o : Option System)
    → promote_one time w.sys ≡ o
    → WorldOk w
    → WorldOk (or_stay w o)
promotes-WorldOk time w none e v = v
promotes-WorldOk time w (some t) e v =
    kept-WorldOk w t (promote_one-IsValid time w.sys t v.valid e) (line-promote_one time w.sys t e)
      (promote_one-Promoted time w.sys t e).returned_eq (gate-promote_one time w.sys t e) v
