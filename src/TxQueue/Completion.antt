-- ===== src/TxQueue/Completion.antt =====
-- Completing one list, the cleanup loop and CywTxFlush of src/cyw43455/tx_queue.h: the account of
-- accepted, held and returned lists.
use rpi5_wifi_driver_win11ar.Prelude.{ℕ, ◌≡◌, inl, inr, sym, ◌∙◌, List, none, some, Option-cases}
use rpi5_wifi_driver_win11ar.TxQueue.State.{System}
use rpi5_wifi_driver_win11ar.TxQueue.Release.{
  remove_entry, remove_backlog, promote_one, complete, complete_backlog,
}
use rpi5_wifi_driver_win11ar.TxQueue.Promotion.{promote_one-Promoted, promote_one-IsValid}
use rpi5_wifi_driver_win11ar.TxQueue.Line.{line-promote_one, gate-promote_one}
use rpi5_wifi_driver_win11ar.TxQueue.World.{Hand, free, removed, calling}
use rpi5_wifi_driver_win11ar.TxQueue.Ownership.{Owned}
use rpi5_wifi_driver_win11ar.TxQueue.Handover.{
  removes_entry-Owned, removes_backlog-Owned, count_failure-Owned, charges-Owned, returns-Owned,
}
use rpi5_wifi_driver_win11ar.TxQueue.Pump.{complete_entry, complete_item}

-- The account reads only the queue and what was returned.
pub Owned-same :
    (s t : System) {h : Hand} {acc : List ℕ}
    → t.queue ≡ s.queue
    → t.returned ≡ s.returned
    → Owned s h acc
    → Owned t h acc
Owned-same s t {h} {acc} eq er v = record {
  valid = rw eq v.valid;
  no_pending = rw eq v.no_pending;
  balanced = λ id. rw (eq, er) (v.balanced id);
}

module _ (time : ℕ → ℕ) where
  pub complete-Owned :
      (s : System) (acc : List ℕ) (nbl status : ℕ)
      → Owned s (removed nbl status) acc
      → Owned (complete time s nbl status) free acc
  unfolding complete
  complete-Owned s acc nbl status v =
      returns-Owned _ acc nbl status
        (charges-Owned time _ acc nbl status (count_failure-Owned s _ acc status v))

  pub complete_backlog-Owned :
      (s : System) (acc : List ℕ) (nbl status : ℕ)
      → Owned s (calling nbl status) acc
      → Owned (complete_backlog s nbl status) free acc
  unfolding complete_backlog
  complete_backlog-Owned s acc nbl status v =
      returns-Owned _ acc nbl status (count_failure-Owned s _ acc status v)

  pub complete_entry-Owned :
      (s : System) (acc : List ℕ) (i status : ℕ)
      → Owned s free acc
      → Owned (complete_entry time s i status) free acc
  unfolding complete_entry
  complete_entry-Owned s acc i status v = elim (Option-cases (remove_entry s i status)) [
    | inl e ↦ rw (e, complete_entry) v
    | inr ((nbl, t), e) ↦
        rw (e, complete_entry)
          (complete-Owned t acc nbl status (removes_entry-Owned s t acc i status nbl e v))
  ]

  complete_item-Owned :
      (s : System) (acc : List ℕ) (i status : ℕ)
      → Owned s free acc
      → Owned (complete_item time s i status) free acc
  unfolding complete_item
  complete_item-Owned s acc i status v = elim (Option-cases (remove_backlog time s i status)) [
    | inl e ↦ rw (e, complete_item) v
    | inr ((nbl, t), e) ↦
        rw (e, complete_item)
          (complete_backlog-Owned t acc nbl status
            (removes_backlog-Owned time s t acc i status nbl e v))
  ]

  pub promote_one-Owned :
      (s t : System) (acc : List ℕ)
      → promote_one time s ≡ some t
      → Owned s free acc
      → Owned t free acc
  promote_one-Owned s t acc e v = record {
    valid = promote_one-IsValid time s t v.valid e;
    no_pending = λ g. v.no_pending (sym (gate-promote_one time s t e) ∙ g);
    balanced = λ id.
        rw (line-promote_one time s t e, (promote_one-Promoted time s t e).returned_eq)
          (v.balanced id);
  }

  promote_one_or_self-Owned :
      (s : System) (acc : List ℕ)
      → Owned s free acc
      → Owned (elim (promote_one time s) [ none ↦ s | some t ↦ t ]) free acc
  promote_one_or_self-Owned s acc v = elim (Option-cases (promote_one time s)) [
    | inl e ↦ rw e v
    | inr (t, e) ↦ rw e (promote_one-Owned s t acc e v)
  ]
