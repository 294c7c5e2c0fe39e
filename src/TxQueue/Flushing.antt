-- ===== src/TxQueue/Flushing.antt =====
-- CywTxFlush of src/cyw43455/tx_queue.h: what it returns to NDIS, and what it leaves.
use rpi5_wifi_driver_win11ar.Prelude.{
  ℕ, ◌≡◌, inl, inr, refl, sym, ◌∙◌, ap, List, [], ◌∷◌, ◌++◌, none, some, ap₂, get_elem?, remove,
  Option-cases, subst,
}
use rpi5_wifi_driver_win11ar.TxQueue.State.{PendingSend, Completion, System}
use rpi5_wifi_driver_win11ar.TxQueue.Release.{
  remove_entry, remove_backlog, detach_entry, unlink_entry, detach_backlog, unlink_backlog,
  charge_callback, complete, complete_backlog, count_failure, release_charge, begin_callback,
  hand_back, end_callback,
}
use rpi5_wifi_driver_win11ar.TxQueue.Items.{nbls}
use rpi5_wifi_driver_win11ar.TxQueue.Removal.{
  remove_entry-RemovedEntry, remove_backlog-RemovedBacklog,
}
use rpi5_wifi_driver_win11ar.TxQueue.Line.{line, line-promote_all}
use rpi5_wifi_driver_win11ar.TxQueue.World.{free}
use rpi5_wifi_driver_win11ar.TxQueue.Ownership.{Owned}
use rpi5_wifi_driver_win11ar.TxQueue.Handover.{removes_entry-Owned, removes_backlog-Owned}
use rpi5_wifi_driver_win11ar.TxQueue.Completion.{complete-Owned, complete_backlog-Owned}
use rpi5_wifi_driver_win11ar.TxQueue.Flush.{flush_backlog, flush_round}

-- Completions with one status, in the order of a line.
abbrev pub completions : ℕ → List ℕ → List Completion
completions status [] = []
completions status (id ∷ ids) = record { nbl = id; status = status } ∷ completions status ids

line-complete :
    (time : ℕ → ℕ) (s : System) (nbl status : ℕ)
    → (line (complete time s nbl status).queue ≡ line s.queue)
      × ((complete time s nbl status).returned ≡ s.returned ++ completions status (nbl ∷ []))
unfolding complete count_failure release_charge begin_callback charge_callback hand_back
    end_callback
line-complete time s nbl status =
    let k = line-promote_all time (release_charge (count_failure s status)) in
    (k.0, ap (λ r. r ++ completions status (nbl ∷ [])) k.1)

line-complete_backlog :
    (s : System) (nbl status : ℕ)
    → (line (complete_backlog s nbl status).queue ≡ line s.queue)
      × ((complete_backlog s nbl status).returned ≡ s.returned ++ completions status (nbl ∷ []))
unfolding complete_backlog count_failure hand_back end_callback
line-complete_backlog s nbl status = (refl, refl)

-- One round returns the oldest list of the line.
pub record FirstReturned (s t : System) (status : ℕ) : Type 0 where
  pub id : ℕ
  pub oldest : line s.queue ≡ id ∷ line t.queue
  pub returned_eq : t.returned ≡ s.returned ++ completions status (id ∷ [])

first-remove :
    (xs : List PendingSend) {item : PendingSend}
    → get_elem? xs 0 ≡ some item
    → nbls xs ≡ item.nbl ∷ nbls (remove xs 0)
first-remove [] e = cc
first-remove (x ∷ xs) e = cc

no_first : (xs : List PendingSend) → get_elem? xs 0 ≡ none → xs ≡ []
no_first [] e = refl
no_first (x ∷ xs) e = cc

remove_entry-none :
    (s : System) (status : ℕ) → remove_entry s 0 status ≡ none → s.queue.entries ≡ []
unfolding remove_entry
remove_entry-none s status e = elim (Option-cases (get_elem? s.queue.entries 0)) [
  | inl n ↦ no_first s.queue.entries n
  | inr (item, f) ↦ (let g = rw (f, remove_entry) at e in cc g)
]

remove_backlog-none :
    (time : ℕ → ℕ) (s : System) (status : ℕ)
    → remove_backlog time s 0 status ≡ none
    → s.queue.backlog ≡ []
unfolding remove_backlog
remove_backlog-none time s status e = elim (Option-cases (get_elem? s.queue.backlog 0)) [
  | inl n ↦ no_first s.queue.backlog n
  | inr (item, f) ↦ (let g = rw (f, remove_backlog) at e in cc g)
]

complete-FirstReturned :
    (time : ℕ → ℕ) (s t : System) (status nbl : ℕ)
    → remove_entry s 0 status ≡ some (nbl, t)
    → FirstReturned s (complete time t nbl status) status
unfolding detach_entry unlink_entry
complete-FirstReturned time s t status nbl e =
    let r = remove_entry-RemovedEntry s t 0 status nbl e in
    let k = line-complete time t nbl status in
    record {
      id = nbl;
      oldest =
          ap (λ xs. xs ++ nbls s.queue.backlog) (first-remove s.queue.entries r.found)
          ∙ sym (ap₂ ◌∷◌ r.nbl_eq (k.0 ∙ ap (λ u. line u.queue) r.after));
      returned_eq = k.1 ∙ ap (λ u. u.returned ++ completions status (nbl ∷ [])) r.after;
    }

complete_backlog-FirstReturned :
    (time : ℕ → ℕ) (s t : System) (status nbl : ℕ)
    → s.queue.entries ≡ []
    → remove_backlog time s 0 status ≡ some (nbl, t)
    → FirstReturned s (complete_backlog t nbl status) status
unfolding detach_backlog unlink_backlog charge_callback
complete_backlog-FirstReturned time s t status nbl empty e =
    let r = remove_backlog-RemovedBacklog time s t 0 status nbl e in
    let k = line-complete_backlog t nbl status in
    let p = line-promote_all time (detach_backlog s r.item 0 status) in
    let shorter : line t.queue ≡ nbls (remove s.queue.backlog 0) =
      ap (λ u. line u.queue) r.after
      ∙ p.0
      ∙ ap (λ xs. nbls xs ++ nbls (remove s.queue.backlog 0)) empty in
    record {
      id = nbl;
      oldest =
          ap (λ xs. nbls xs ++ nbls s.queue.backlog) empty
          ∙ first-remove s.queue.backlog r.found
          ∙ sym (ap₂ ◌∷◌ r.nbl_eq (k.0 ∙ shorter));
      returned_eq =
          k.1
          ∙ ap (λ u. u.returned ++ completions status (nbl ∷ [])) r.after
          ∙ ap (λ c. c ++ completions status (nbl ∷ [])) p.1;
    }

-- A round of the loop returns the oldest list, or there is none.
pub flush_round-FirstReturned :
    (time : ℕ → ℕ) (s t : System) (status : ℕ)
    → flush_round time s status ≡ some t
    → FirstReturned s t status
unfolding flush_round flush_backlog
flush_round-FirstReturned time s t status e = elim (Option-cases (remove_entry s 0 status)) [
  | inl n ↦
      (let empty = remove_entry-none s status n in
        elim (Option-cases (remove_backlog time s 0 status)) [
          | inl m ↦ cc (rw (n, flush_round, m, flush_backlog) at e)
          | inr ((nbl, u), m) ↦
              (let g = rw (n, flush_round, m, flush_backlog) at e in
                subst (λ x. FirstReturned s x status) (cc g)
                  (complete_backlog-FirstReturned time s u status nbl empty m))
        ])
  | inr ((nbl, u), m) ↦
      (let g = rw (m, flush_round) at e in
        subst (λ x. FirstReturned s x status) (cc g) (complete-FirstReturned time s u status nbl m))
]

pub flush_round-none :
    (time : ℕ → ℕ) (s : System) (status : ℕ)
    → flush_round time s status ≡ none
    → (s.queue.entries ≡ []) × (s.queue.backlog ≡ [])
unfolding flush_round flush_backlog
flush_round-none time s status e = elim (Option-cases (remove_entry s 0 status)) [
  | inl n ↦ elim (Option-cases (remove_backlog time s 0 status)) [
    | inl m ↦ (remove_entry-none s status n, remove_backlog-none time s status m)
    | inr (r, m) ↦ cc (rw (n, flush_round, m, flush_backlog) at e)
  ]
  | inr (r, m) ↦ cc (rw (m, flush_round) at e)
]

pub flush_round-Owned :
    (time : ℕ → ℕ) (s t : System) (acc : List ℕ) (status : ℕ)
    → flush_round time s status ≡ some t
    → Owned s free acc
    → Owned t free acc
unfolding flush_round flush_backlog
flush_round-Owned time s t acc status e v = elim (Option-cases (remove_entry s 0 status)) [
  | inl n ↦ elim (Option-cases (remove_backlog time s 0 status)) [
    | inl m ↦ cc (rw (n, flush_round, m, flush_backlog) at e)
    | inr ((nbl, u), m) ↦
        (let g = rw (n, flush_round, m, flush_backlog) at e in
          subst (λ x. Owned x free acc) (cc g)
            (complete_backlog-Owned time u acc nbl status
              (removes_backlog-Owned time s u acc 0 status nbl m v)))
  ]
  | inr ((nbl, u), m) ↦
      (let g = rw (m, flush_round) at e in
        subst (λ x. Owned x free acc) (cc g)
          (complete-Owned time u acc nbl status (removes_entry-Owned s u acc 0 status nbl m v)))
]
