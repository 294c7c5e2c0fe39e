-- ===== src/Host/Fifo/Prompt.antt =====
-- The waits of src/sdio/fifo_blocks.h on a device that is ready when it is asked.
use rpi5_wifi_driver_win11ar.Prelude.{
  ℕ, suc, ◌+◌, ◌%◌, ◌^◌, ◌≡◌, ap, sym, subst, Bool, true, false, ◌⊎◌, inl, inr, ◌==◌, ◌!=◌, leb,
  if◌then◌else◌, bit_and,
}
use rpi5_wifi_driver_win11ar.Task.{Task, pure, fails, ◌>>◌}
use rpi5_wifi_driver_win11ar.Task.Rules.{
  Ensures, Ensures-weaken, Ensures-pure, Ensures-bind, Ensures-then, Ensures-else,
}
use rpi5_wifi_driver_win11ar.Task.Unfailing.{
  Unfailing, Unfailing-pure, Unfailing-if, Unfailing-modify, Ensures-step, Ensures-fact,
}
use rpi5_wifi_driver_win11ar.Wire.{Memory}
use rpi5_wifi_driver_win11ar.Host.Registers.{
  Device, Adapter, invalid_device_state, LastCommand, FifoCounters, Cmd53Counters, on_device,
  change_device, io_stopped, register_read, register_write, read32, write16, write32,
  interrupt_time, set_last, set_fifo, set_cmd53,
}
use rpi5_wifi_driver_win11ar.Host.Fifo.{
  event_seen, accept_late, decide, look, examine, once, pause, poll_fifo, fifo_wait,
  transfer_errors, command_complete, transfer_complete, read_ready, write_ready,
}

-- An interrupt status without an error, with both completions.
abbrev pub IsDone : ℕ → Type 0
IsDone status =
    ((bit_and status transfer_errors != 0) ≡ false)
    × ((bit_and status command_complete != 0) ≡ true)
    × ((bit_and status transfer_complete != 0) ≡ true)

-- A present state that inhibits nothing, with data and space.
abbrev pub IsFree : ℕ → Type 0
IsFree present =
    ((bit_and present 3 == 0) ≡ true)
    × ((bit_and present 0x800 != 0) ≡ true)
    × ((bit_and present 0x400 != 0) ≡ true)

-- A device that is not stopped and is ready when it is asked; its FIFO gives the words of a stream,
-- one for each read of SDHCI_BUFFER, and nothing else moves the stream.
pub record IsPrompt {D : Type 0} (dev : Device D) (word : ℕ → ℕ) (position : D → ℕ) : Type 0 where
  pub running : (d : D) → dev.stopped d ≡ (false, d)
  pub done : (d : D) → IsDone ((dev.read 32 0x30 d).0 % 2 ^ 32)
  pub free : (d : D) → IsFree ((dev.read 32 0x24 d).0 % 2 ^ 32)
  pub accepted : (d : D) → (bit_and ((dev.read 32 0x10 d).0 % 2 ^ 32) 0xcb00 != 0) ≡ false
  pub delivered : (d : D) → (dev.read 32 0x20 d).0 ≡ word (position d)
  pub moved : (d : D) → position (dev.read 32 0x20 d).1 ≡ position d + 1
  pub status_still : (d : D) → position (dev.read 32 0x30 d).1 ≡ position d
  pub present_still : (d : D) → position (dev.read 32 0x24 d).1 ≡ position d
  pub response_still : (d : D) → position (dev.read 32 0x10 d).1 ≡ position d
  pub write_still :
      (width offset value : ℕ) (d : D) → position (dev.write width offset value d) ≡ position d
  pub time_still : (d : D) → position (dev.time d).1 ≡ position d

module _ {D : Type 0} (dev : Device D) (word : ℕ → ℕ) (position : D → ℕ)
    (prompt : IsPrompt dev word position) (Q : ℕ → Memory → Type 0) where
  -- What is known of the stream's position and of the memory.
  abbrev pub Known : Adapter D → Type 0
  Known s = Q (position s.device) s.memory

  pub on_device-fact :
      {A : Type 0} (F : A → Type 0) (f : D → A × D)
      → ((d : D) → F (f d).0)
      → ((d : D) → position (f d).1 ≡ position d)
      → Ensures Known (on_device f) (λ a s. Known s × F a) (λ status s. ⊥)
  unfolding on_device
  on_device-fact F f fact still = record {
    runs = λ s h. (subst (λ n. Q n s.memory) (sym (still s.device)) h, fact s.device);
  }

  pub io_stopped-fact :
      Ensures Known (io_stopped dev) (λ b s. Known s × (b ≡ false)) (λ status s. ⊥)
  unfolding io_stopped
  io_stopped-fact =
      on_device-fact (λ b. b ≡ false) dev.stopped (λ d. ap (λ r. r.0) (prompt.running d))
        (λ d. ap (λ r. position r.1) (prompt.running d))

  pub register_read-fact :
      (F : ℕ → Type 0) (width offset : ℕ)
      → ((d : D) → F ((dev.read width offset d).0 % 2 ^ width))
      → ((d : D) → position (dev.read width offset d).1 ≡ position d)
      → Ensures Known (register_read dev width offset) (λ a s. Known s × F a) (λ status s. ⊥)
  unfolding register_read
  register_read-fact F width offset fact still =
      Ensures-fact (on_device-fact (λ v. F (v % 2 ^ width)) (dev.read width offset) fact still)
        λ value f. Ensures-pure (value % 2 ^ width) (λ s h. (h, f))

  pub read32-fact :
      (F : ℕ → Type 0) (offset : ℕ)
      → ((d : D) → F ((dev.read 32 offset d).0 % 2 ^ 32))
      → ((d : D) → position (dev.read 32 offset d).1 ≡ position d)
      → Ensures Known (read32 dev offset) (λ a s. Known s × F a) (λ status s. ⊥)
  unfolding read32
  read32-fact F offset fact still =
      Ensures-fact {k = λ stopped. if stopped then pure 0xffffffff else register_read dev 32 offset}
        io_stopped-fact
        λ stopped e.
          Ensures-else stopped (pure 0xffffffff) e (register_read-fact F 32 offset fact still)

  pub change_device-Unfailing :
      (f : D → D) → ((d : D) → position (f d) ≡ position d) → Unfailing Known (change_device f)
  unfolding change_device
  change_device-Unfailing f still = record {
    done = λ s h. subst (λ n. Q n s.memory) (sym (still s.device)) h;
  }

  write_any :
      (m : Task (Adapter D) (Unit {0})) (stopped : Bool)
      → stopped ≡ false
      → Unfailing Known m
      → Ensures Known (if stopped then pure tt else m) (λ u. Known) (λ status s. ⊥)
  write_any m stopped e x = rw e (record { runs = x.done })

  pub register_write-Unfailing :
      (width offset value : ℕ) → Unfailing Known (register_write dev width offset value)
  unfolding register_write
  register_write-Unfailing width offset value =
      change_device-Unfailing _ (prompt.write_still width offset (value % 2 ^ width))

  pub write32-done :
      (offset value : ℕ) → Ensures Known (write32 dev offset value) (λ u. Known) (λ status s. ⊥)
  unfolding write32
  write32-done offset value =
      Ensures-fact io_stopped-fact
        λ stopped e. write_any _ stopped e (register_write-Unfailing 32 offset value)

  pub write16-done :
      (offset value : ℕ) → Ensures Known (write16 dev offset value) (λ u. Known) (λ status s. ⊥)
  unfolding write16
  write16-done offset value =
      Ensures-fact io_stopped-fact
        λ stopped e. write_any _ stopped e (register_write-Unfailing 16 offset value)

  pub interrupt_time-done : Ensures Known (interrupt_time dev) (λ now. Known) (λ status s. ⊥)
  unfolding interrupt_time
  interrupt_time-done =
      Ensures-weaken (λ a s h. h.0) (λ status s h. h)
        (on_device-fact (λ now. Unit {0}) dev.time (λ d. tt) prompt.time_still)

  pub set_last-Unfailing : (f : LastCommand → LastCommand) → Unfailing Known (set_last f)
  unfolding set_last
  set_last-Unfailing f = Unfailing-modify _ (λ s h. h)

  pub set_fifo-Unfailing : (f : FifoCounters → FifoCounters) → Unfailing Known (set_fifo f)
  unfolding set_fifo
  set_fifo-Unfailing f = Unfailing-modify _ (λ s h. h)

  pub set_cmd53-Unfailing : (f : Cmd53Counters → Cmd53Counters) → Unfailing Known (set_cmd53 f)
  unfolding set_cmd53
  set_cmd53-Unfailing f = Unfailing-modify _ (λ s h. h)

  pub accept_late-done :
      (now deadline : ℕ) → Ensures Known (accept_late now deadline) (λ u. Known) (λ status s. ⊥)
  unfolding accept_late
  accept_late-done now deadline = record {
    runs = (Unfailing-if (leb deadline now) (set_fifo-Unfailing _) (Unfailing-pure tt)).done;
  }

  -- The events of a block transfer.
  abbrev pub IsEvent : ℕ → Type 0
  IsEvent event =
      (event ≡ command_complete)
      ⊎ (event ≡ transfer_complete)
      ⊎ (event ≡ read_ready)
      ⊎ (event ≡ write_ready)

  pub event_seen-fact :
      (event status : ℕ)
      → IsEvent event
      → IsDone status
      → Ensures Known (event_seen dev event status) (λ b s. Known s × (b ≡ true)) (λ status s. ⊥)
  unfolding event_seen
  event_seen-fact event status ev done = elim ev [
    | inl e ↦ rw e (Ensures-pure _ (λ s h. (h, done.1)))
    | inr (inl e) ↦ rw e (Ensures-pure _ (λ s h. (h, done.2)))
    | inr (inr (inl e)) ↦ rw e (
        Ensures-fact (read32-fact IsFree 0x24 prompt.free prompt.present_still)
          λ present f. Ensures-pure (bit_and present 0x800 != 0) (λ s h. (h, f.1)))
    | inr (inr (inr e)) ↦ rw e (
        Ensures-fact (read32-fact IsFree 0x24 prompt.free prompt.present_still)
          λ present f. Ensures-pure (bit_and present 0x400 != 0) (λ s h. (h, f.2)))
  ]

  pub decide-done :
      (again : Task (Adapter D) (Unit {0})) (event deadline status now : ℕ) (seen : Bool)
      → seen ≡ true
      → Ensures Known (decide again event deadline status now seen) (λ u. Known) (λ st s. ⊥)
  unfolding decide
  decide-done again event deadline status now seen e =
      Ensures-then seen _ e (accept_late-done now deadline)

  pub look-done :
      (again : Task (Adapter D) (Unit {0})) (event deadline status : ℕ)
      → IsEvent event
      → IsDone status
      → Ensures Known (look dev again event deadline status) (λ u. Known) (λ st s. ⊥)
  unfolding look
  look-done again event deadline status ev done = Ensures-bind interrupt_time-done λ now.
      Ensures-fact (event_seen-fact event status ev done)
        λ seen e. decide-done again event deadline status now seen e

  pub examine-done :
      (again : Task (Adapter D) (Unit {0})) (event deadline status : ℕ)
      → IsEvent event
      → IsDone status
      → Ensures Known (examine dev again event deadline status) (λ u. Known) (λ st s. ⊥)
  unfolding examine
  examine-done again event deadline status ev done =
      Ensures-step (set_last-Unfailing _)
        λ u. Ensures-else _ _ done.0 (look-done again event deadline status ev done)

  pub once-done :
      (again : Task (Adapter D) (Unit {0})) (event deadline : ℕ)
      → IsEvent event
      → Ensures Known (once dev again event deadline) (λ u. Known) (λ st s. ⊥)
  unfolding once
  once-done again event deadline ev =
      Ensures-fact (read32-fact IsDone 0x30 prompt.done prompt.status_still)
        λ status done. examine-done again event deadline status ev done

  pub poll_fifo-done :
      (n poll event deadline : ℕ)
      → IsEvent event
      → Ensures Known (poll_fifo dev (suc n) poll event deadline) (λ u. Known) (λ st s. ⊥)
  unfolding poll_fifo
  poll_fifo-done n poll event deadline ev =
      let again = pause dev poll event >> poll_fifo dev n (poll + 1) event deadline in
      Ensures-fact
        {k = λ stopped.
          if stopped then fails invalid_device_state else once dev again event deadline}
        io_stopped-fact
        λ stopped e.
          Ensures-else stopped (fails invalid_device_state) e (once-done again event deadline ev)

  -- One poll is enough, whatever the deadline: a completion that is there is accepted.
  pub fifo_wait-done :
      (event deadline : ℕ)
      → IsEvent event
      → Ensures Known (fifo_wait dev event deadline) (λ u. Known) (λ st s. ⊥)
  unfolding fifo_wait
  fifo_wait-done event deadline ev =
      Ensures-step (set_fifo-Unfailing _) λ u. poll_fifo-done 253 0 event deadline ev
