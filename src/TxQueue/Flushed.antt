-- ===== src/TxQueue/Flushed.antt =====
-- CywTxFlush of src/cyw43455/tx_queue.h: everything that was held goes back to NDIS.
use mathlib.Core.List.{append-nil, append_assoc}
use rpi5_wifi_driver_win11ar.Prelude.{
  ℕ, zero, suc, ◌+◌, ◌≡◌, ◌≢◌, inl, inr, refl, sym, ◌∙◌, ap, List, [], ◌∷◌, ◌++◌, arith, length,
  length-append, Option-cases,
}
use rpi5_wifi_driver_win11ar.TxQueue.State.{PendingSend, TxState, System, status_pending}
use rpi5_wifi_driver_win11ar.TxQueue.Release.{set_gate, outstanding_total}
use rpi5_wifi_driver_win11ar.TxQueue.Items.{nbls, length-nbls}
use rpi5_wifi_driver_win11ar.TxQueue.Line.{line}
use rpi5_wifi_driver_win11ar.TxQueue.World.{free, World}
use rpi5_wifi_driver_win11ar.TxQueue.Ownership.{Owned, gate-WorldOk}
use rpi5_wifi_driver_win11ar.TxQueue.Schedules.{outstanding-held}
use rpi5_wifi_driver_win11ar.TxQueue.Flush.{flush_round, flush_while, flush}
use rpi5_wifi_driver_win11ar.TxQueue.Flushing.{
  completions, flush_round-FirstReturned, flush_round-none, flush_round-Owned,
}

no_line : (xs : List ℕ) → length xs ≡ 0 → xs ≡ []
no_line [] e = refl
no_line (x ∷ xs) e = absurd (omega (arith, e))

length-line : (q : TxState) → length (line q) ≡ length q.entries + length q.backlog
length-line q = omega (
  arith,
  length-append (nbls q.entries) (nbls q.backlog),
  length-nbls q.entries,
  length-nbls q.backlog,
)

length-zero : (xs : List PendingSend) → length xs ≡ 0 → xs ≡ []
length-zero [] e = refl
length-zero (x ∷ xs) e = absurd (omega (arith, e))

-- What the loop leaves, once its fuel covers the line.
flush_while_lem :
    (time : ℕ → ℕ) (fuel : ℕ) (s : System) (status : ℕ) (acc : List ℕ)
    → fuel ≡ length (line s.queue)
    → Owned s free acc
    → let t = flush_while time fuel s status in
      (t.returned ≡ s.returned ++ completions status (line s.queue))
      × (line t.queue ≡ [])
      × Owned t free acc
unfolding flush_while
flush_while_lem time zero s status acc e v =
    let empty = no_line (line s.queue) (sym e) in (rw empty (sym (append-nil s.returned)), empty, v)
flush_while_lem time (suc fuel) s status acc e v = elim (Option-cases (flush_round time s status)) [
  | inl n ↦
      (let h = flush_round-none time s status n in
        absurd (omega (arith, e, length-line s.queue, ap length h.0, ap length h.1)))
  | inr (t, m) ↦
      (let r = flush_round-FirstReturned time s t status m in
        let k =
          flush_while_lem time fuel t status acc (omega (arith, e, ap length r.oldest))
            (flush_round-Owned time s t acc status m v) in
        rw (m, flush_while)
          (k.0 ∙ rw (r.returned_eq, r.oldest) (append_assoc s.returned _ _), k.1, k.2))
]

-- CywTxFlush, by a worker with nothing in its hand and a closing status: NDIS gets back every held
-- list exactly once, with that status, in the order of submission; the window and the backlog end
-- empty, and CywTxOutstanding is zero.
pub flush_lem :
    (time : ℕ → ℕ) (s : System) (status : ℕ) (acc : List ℕ)
    → Owned s free acc
    → status ≢ status_pending
    → let t = flush time s status in
      (t.returned ≡ s.returned ++ completions status (line s.queue))
      × (t.queue.entries ≡ [])
      × (t.queue.backlog ≡ [])
      × (outstanding_total t.queue ≡ 0)
unfolding flush set_gate
flush_lem time s status acc v ne =
    let w : World = record { sys = s; hand = free; accepted = acc } in
    let (returned, empty, owned) =
      flush_while_lem time _ (set_gate s status) status acc (sym (length-line s.queue))
        (gate-WorldOk w status ne v) in
    let n = ap length empty in
    let held = length-line (flush time s status).queue in
    let entries = length-zero (flush time s status).queue.entries (omega (arith, n, held)) in
    let backlog = length-zero (flush time s status).queue.backlog (omega (arith, n, held)) in
    (
      returned,
      entries,
      backlog,
      omega (arith, outstanding-held _ free owned.valid, ap length entries, ap length backlog),
    )
