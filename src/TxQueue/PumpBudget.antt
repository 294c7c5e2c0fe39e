-- ===== src/TxQueue/PumpBudget.antt =====
-- How many frames CywTxPump of src/cyw43455/tx_queue.h sends, and that it stops.
use rpi5_wifi_driver_win11ar.Prelude.{
  ℕ, zero, suc, ◌+◌, ◌-◌, ◌≤◌, ◌<◌, ◌≡◌, inl, inr, refl, Bool, true, false, List, [], ◌∷◌, Option,
  none, some, arith, ltb, ◌==◌, ◌!=◌, not, ◌&&◌, if◌then◌else◌, Bool-cases, both_branches, subst,
  ltb→lt,
}
use rpi5_wifi_driver_win11ar.TxQueue.State.{PendingSend, status_success}
use rpi5_wifi_driver_win11ar.TxQueue.Admission.{adaptive_small_length}
use rpi5_wifi_driver_win11ar.TxQueue.Pump.{
  nt_success, status_device_busy, status_insufficient_resources, tick,
}
use rpi5_wifi_driver_win11ar.TxQueue.Release.{abort_status}
use rpi5_wifi_driver_win11ar.TxQueue.Send.{
  Sender, PumpState, note_delay, refill, Round, done, again, crash, starve, settle_sys,
  settle_completion, close_round, settle_entry, after_transfer, reuse_service, fresh_service,
  send_buffer, transfer_chain, transfer_oldest, pump_round, go_on, pump_while,
}

-- A round that goes on has sent one frame, and one that ends has sent one at most.
abbrev pub OneFrame : {B : Type 0} → ℕ → Round B → Type 0
OneFrame n (done status q) = (n ≤ q.sent) × (q.sent ≤ n + 1)
OneFrame n (again q) = q.sent ≡ n + 1
OneFrame n crash = Unit {0}

module _ {B : Type 0} (time : ℕ → ℕ) (sender : Sender B) (budget : ℕ) where
  starve-OneFrame : (p : PumpState B) → OneFrame p.sent (starve time sender budget p)
  unfolding starve
  starve-OneFrame p = omega arith

  close_round-OneFrame :
      (n : ℕ) (p : PumpState B) (status : ℕ) (mapped : Bool) (completion : ℕ)
      → p.sent ≡ (if nt_success status then n + 1 else n)
      → OneFrame n (close_round time sender budget p status mapped completion)
  unfolding close_round
  close_round-OneFrame n p status mapped completion e = ground arith

  settle_entry-OneFrame :
      (p : PumpState B) (status : ℕ) (mapped small : Bool) (more : List ℕ) (xs : List PendingSend)
      → OneFrame p.sent (settle_entry time sender budget p status mapped small more xs)
  unfolding settle_entry
  settle_entry-OneFrame p status mapped small more [] = tt
  settle_entry-OneFrame p status mapped small more (item ∷ rest) =
      close_round-OneFrame p.sent
        (record p {
          sys = settle_sys time p.sys status small more item rest;
          sent = if nt_success status then p.sent + 1 else p.sent;
        })
        status mapped (settle_completion time p.sys status item) refl

  after_transfer-OneFrame :
      (p : PumpState B) (status : ℕ) (mapped small : Bool) (more : List ℕ)
      → OneFrame p.sent (after_transfer time sender budget p status mapped small more)
  unfolding after_transfer
  after_transfer-OneFrame p status mapped small more =
      elim (Bool-cases (status == status_device_busy)) [
        | inl e ↦ rw (e, after_transfer) (starve-OneFrame _)
        | inr e ↦ rw (e, after_transfer) (settle_entry-OneFrame _ status mapped small more _)
      ]

  reuse_service-OneFrame :
      (p : PumpState B) (len : ℕ) (more : List ℕ)
      → OneFrame p.sent (reuse_service time sender budget p len more)
  unfolding reuse_service
  reuse_service-OneFrame p len more =
      elim (Bool-cases (nt_success (sender.burst_reuse p.bus (len + 4) p.position).0)) [
        | inl e ↦ rw e (
            after_transfer-OneFrame
              (record p {
                bus = (sender.burst_reuse p.bus (len + 4) p.position).1;
                remaining = p.remaining - 1;
                position = p.position + 1;
              })
              _ true true more)
        | inr e ↦ rw e (
            after_transfer-OneFrame
              (record p { bus = (sender.burst_reuse p.bus (len + 4) p.position).1 }) _ true true
              more)
      ]

  send_buffer-OneFrame :
      (p : PumpState B) (len : ℕ) (more : List ℕ)
      → OneFrame p.sent (send_buffer time sender budget p len more)
  unfolding send_buffer fresh_service
  send_buffer-OneFrame p len more =
      let small = adaptive_small_length len in
      let q = if small then p else record p { remaining = 0 } in
      subst (λ n. OneFrame n (send_buffer time sender budget p len more))
        (both_branches (λ (r : PumpState B). r.sent ≡ p.sent) small refl refl)
        (both_branches (OneFrame q.sent) (not (sender.maps q.bus len))
          (after_transfer-OneFrame q status_insufficient_resources false small more)
          (both_branches (OneFrame q.sent) (small && q.remaining != 0)
            (reuse_service-OneFrame q len more) (after_transfer-OneFrame _ _ true small more)))

  transfer_chain-OneFrame :
      (p : PumpState B) (xs : List ℕ) → OneFrame p.sent (transfer_chain time sender budget p xs)
  unfolding transfer_chain
  transfer_chain-OneFrame p [] = tt
  transfer_chain-OneFrame p (len ∷ more) =
      let q = record p { bus = (sender.can_transfer p.bus).1 } in
      both_branches (OneFrame p.sent) (sender.can_transfer p.bus).0
        (send_buffer-OneFrame q len more) (starve-OneFrame q)

  transfer_oldest-OneFrame :
      (p : PumpState B) (xs : List PendingSend)
      → OneFrame p.sent (transfer_oldest time sender budget p xs)
  unfolding transfer_oldest
  transfer_oldest-OneFrame p [] = omega arith
  transfer_oldest-OneFrame p (item ∷ rest) =
      both_branches (OneFrame p.sent)
        (abort_status p.sys.queue item (time p.sys.clock_reads) != status_success) (omega arith)
        (transfer_chain-OneFrame (record p { sys = note_delay time (tick p.sys) item }) item.next)

  pump_round-OneFrame : (p : PumpState B) → OneFrame p.sent (pump_round time sender budget p)
  unfolding pump_round
  pump_round-OneFrame p = transfer_oldest-OneFrame (record p { sys = refill time p.sys }) _

  -- A result of the loop has sent the budget at most, and fuel above what is left to send runs out
  -- in a crash only.
  abbrev Bounded : Option (ℕ × PumpState B) → Type 0
  Bounded none = Unit {0}
  Bounded (some (status, q)) = q.sent ≤ budget

  go_on-Bounded :
      (p : PumpState B) (next : PumpState B → Option (ℕ × PumpState B)) (r : Round B)
      → p.sent < budget
      → OneFrame p.sent r
      → ((q : PumpState B) → q.sent ≤ budget → Bounded (next q))
      → Bounded (go_on time sender budget next r)
  unfolding go_on
  go_on-Bounded p next (done status q) h one f = omega (arith, one)
  go_on-Bounded p next (again q) h one f = f q (omega (arith, one))
  go_on-Bounded p next crash h one f = tt

  pump_while-Bounded :
      (fuel : ℕ) (p : PumpState B)
      → p.sent ≤ budget
      → Bounded (pump_while time sender budget fuel p)
  unfolding pump_while
  pump_while-Bounded zero p h = tt
  pump_while-Bounded (suc fuel) p h = elim (Bool-cases (ltb p.sent budget)) [
    | inl e ↦
        rw (e, pump_while)
          (go_on-Bounded p (pump_while time sender budget fuel) (pump_round time sender budget p)
            (ltb→lt _ _ e) (pump_round-OneFrame p) (pump_while-Bounded fuel))
    | inr e ↦ rw (e, pump_while) h
  ]
