-- ===== src/Host/Fifo/Keeping.antt =====
-- What the steps of the transfers in src/sdio/fifo_blocks.h and src/sdio/sdio.c leave alone.
use rpi5_wifi_driver_win11ar.Prelude.{ℕ, zero, suc, Bool, ◌+◌}
use rpi5_wifi_driver_win11ar.Task.{Task}
use rpi5_wifi_driver_win11ar.Task.Rules.{Keeps, Keeps-modify}
use rpi5_wifi_driver_win11ar.Wire.{Memory}
use rpi5_wifi_driver_win11ar.Host.Registers.{
  Device, Adapter, Cmd53Counters, FifoCounters, set_cmd53, set_fifo, set_memory, interrupt_time,
  delay,
}
use rpi5_wifi_driver_win11ar.Host.Commands.Keeping.{
  Stable, port_rules, reset_host-Keeps, wait_inhibit_clear-Keeps,
}
use rpi5_wifi_driver_win11ar.Host.Fifo.{
  count_timeout, accept_late, note_sleep, event_seen, pause, decide, look, examine, once, poll_fifo,
  fifo_wait, move_word, move_words, move_block, move_blocks, start_blocks, await_response,
  finish_blocks, run_blocks, reset_transfer, zero_if_read, begin_blocks,
}

-- A predicate that reads neither the counters nor the memory.
pub record Loose {D : Type 0} (P : Adapter D → Type 0) : Type 0 where
  pub kept : Stable P
  pub loose :
      (s : Adapter D) (cmd53 : Cmd53Counters) (fifo : FifoCounters) (memory : Memory)
      → P s
      → P (record s { cmd53 = cmd53; fifo = fifo; memory = memory })

module _ {D : Type 0} {P : Adapter D → Type 0} (free : Loose P) where
  pub Loose-Stable : Stable P
  Loose-Stable = free.kept

  pub set_cmd53-Keeps : (f : Cmd53Counters → Cmd53Counters) → Keeps P (set_cmd53 f)
  unfolding set_cmd53
  set_cmd53-Keeps f = Keeps-modify _ (λ s h. free.loose s (f s.cmd53) s.fifo s.memory h)

  pub set_fifo-Keeps : (f : FifoCounters → FifoCounters) → Keeps P (set_fifo f)
  unfolding set_fifo
  set_fifo-Keeps f = Keeps-modify _ (λ s h. free.loose s s.cmd53 (f s.fifo) s.memory h)

  pub set_memory-Keeps : (f : Memory → Memory) → Keeps P (set_memory f)
  unfolding set_memory
  set_memory-Keeps f = Keeps-modify _ (λ s h. free.loose s s.cmd53 s.fifo (f s.memory) h)

pub ruleset loose_rules =
    (port_rules, Loose-Stable, set_cmd53-Keeps, set_fifo-Keeps, set_memory-Keeps)

module _ {D : Type 0} (dev : Device D) {P : Adapter D → Type 0} (free : Loose P) where
  pub interrupt_time-Keeps : Keeps P (interrupt_time dev)
  unfolding interrupt_time
  interrupt_time-Keeps = search loose_rules

  pub delay-Keeps : (n : ℕ) → Keeps P (delay dev n)
  unfolding delay
  delay-Keeps n = search loose_rules

  pub count_timeout-Keeps : Keeps P count_timeout
  unfolding count_timeout
  count_timeout-Keeps = search loose_rules

  accept_late-Keeps : (now deadline : ℕ) → Keeps P (accept_late now deadline)
  unfolding accept_late
  accept_late-Keeps now deadline = search loose_rules

  event_seen-Keeps : (event status : ℕ) → Keeps P (event_seen dev event status)
  unfolding event_seen
  event_seen-Keeps event status = search loose_rules depth 16

  note_sleep-Keeps : (event ticks : ℕ) → Keeps P (note_sleep event ticks)
  unfolding note_sleep
  note_sleep-Keeps event ticks = search loose_rules depth 16

  pause-Keeps : (poll event : ℕ) → Keeps P (pause dev poll event)
  unfolding pause
  pause-Keeps poll event =
      search (loose_rules, interrupt_time-Keeps, delay-Keeps, note_sleep-Keeps) depth 16

  examine-Keeps :
      (again : Task (Adapter D) (Unit {0})) (event deadline status : ℕ)
      → Keeps P again
      → Keeps P (examine dev again event deadline status)
  unfolding examine look decide
  examine-Keeps again event deadline status x =
      search
        (
          loose_rules, count_timeout-Keeps, interrupt_time-Keeps, event_seen-Keeps,
          accept_late-Keeps,
        )
        depth 24

  once-Keeps :
      (again : Task (Adapter D) (Unit {0})) (event deadline : ℕ)
      → Keeps P again
      → Keeps P (once dev again event deadline)
  unfolding once
  once-Keeps again event deadline x = search (loose_rules, examine-Keeps) depth 16

  poll_fifo-Keeps : (n poll event deadline : ℕ) → Keeps P (poll_fifo dev n poll event deadline)
  unfolding poll_fifo
  poll_fifo-Keeps zero poll event deadline = search (loose_rules, count_timeout-Keeps) depth 16
  poll_fifo-Keeps (suc n) poll event deadline =
      search
        (
          loose_rules,
          once-Keeps,
          pause-Keeps,
          λ (u : Unit {0}). poll_fifo-Keeps n (poll + 1) event deadline,
        )
        depth 24

  pub fifo_wait-Keeps : (event deadline : ℕ) → Keeps P (fifo_wait dev event deadline)
  unfolding fifo_wait
  fifo_wait-Keeps event deadline = search (loose_rules, poll_fifo-Keeps) depth 16

  move_word-Keeps : (write : Bool) (at : ℕ) → Keeps P (move_word dev write at)
  unfolding move_word
  move_word-Keeps write at = search loose_rules depth 16

  move_words-Keeps : (n : ℕ) (write : Bool) (at : ℕ) → Keeps P (move_words dev n write at)
  unfolding move_words
  move_words-Keeps zero write at = search loose_rules depth 16
  move_words-Keeps (suc n) write at =
      search (loose_rules, move_word-Keeps, λ (u : Unit {0}). move_words-Keeps n write (at + 4))
        depth 16

  move_block-Keeps : (write : Bool) (deadline at : ℕ) → Keeps P (move_block dev write deadline at)
  unfolding move_block
  move_block-Keeps write deadline at =
      search (loose_rules, fifo_wait-Keeps, move_words-Keeps) depth 16

  move_blocks-Keeps :
      (n : ℕ) (write : Bool) (deadline at : ℕ) → Keeps P (move_blocks dev n write deadline at)
  unfolding move_blocks
  move_blocks-Keeps zero write deadline at = search loose_rules depth 16
  move_blocks-Keeps (suc n) write deadline at =
      search
        (
          loose_rules,
          move_block-Keeps,
          λ (u : Unit {0}). move_blocks-Keeps n write deadline (at + 512),
        )
        depth 16

  start_blocks-Keeps : (blocks : ℕ) (write : Bool) → Keeps P (start_blocks dev blocks write)
  unfolding start_blocks
  start_blocks-Keeps blocks write = search (loose_rules, wait_inhibit_clear-Keeps) depth 24

  await_response-Keeps : (deadline : ℕ) → Keeps P (await_response dev deadline)
  unfolding await_response
  await_response-Keeps deadline = search (loose_rules, fifo_wait-Keeps) depth 16

  finish_blocks-Keeps :
      (blocks : ℕ) (write : Bool) (deadline : ℕ) → Keeps P (finish_blocks dev blocks write deadline)
  unfolding finish_blocks
  finish_blocks-Keeps blocks write deadline = search (loose_rules, fifo_wait-Keeps) depth 16

  pub run_blocks-Keeps :
      (blocks : ℕ) (write : Bool) (at : ℕ) → Keeps P (run_blocks dev blocks write at)
  unfolding run_blocks
  run_blocks-Keeps blocks write at =
      search
        (
          loose_rules, interrupt_time-Keeps, start_blocks-Keeps, await_response-Keeps,
          move_blocks-Keeps, finish_blocks-Keeps,
        )
        depth 16

  pub reset_transfer-Keeps : Keeps P (reset_transfer dev)
  unfolding reset_transfer
  reset_transfer-Keeps = search (loose_rules, reset_host-Keeps) depth 16

  pub zero_if_read-Keeps : (write : Bool) (at length : ℕ) → Keeps P (zero_if_read write at length)
  unfolding zero_if_read
  zero_if_read-Keeps write at length = search loose_rules depth 16

  pub begin_blocks-Keeps :
      (blocks : ℕ) (write : Bool) (at : ℕ) → Keeps P (begin_blocks dev blocks write at)
  unfolding begin_blocks
  begin_blocks-Keeps blocks write at = search (loose_rules, zero_if_read-Keeps) depth 16
