-- ===== src/Host/Fifo/Delivery.antt =====
-- A whole block read of src/sdio/fifo_blocks.h on a prompt device.
use rpi5_wifi_driver_win11ar.Prelude.{
  ℕ, suc, ◌+◌, ◌*◌, ◌≤◌, ◌<◌, ◌≡◌, refl, Bool, true, false, not, ◌||◌, inl, inr, ◌==◌, ◌!=◌, ltb,
  if◌then◌else◌, bit_and, arith,
}
use rpi5_wifi_driver_win11ar.Task.{pure, fails, ◌>>=◌, ◌>>◌, on_error}
use rpi5_wifi_driver_win11ar.Task.Rules.{
  Ends, Ensures, Ensures-pure, Ensures-bind, Ensures-then, Ensures-else, Ensures-modify,
  Ensures-on_error, Ensures-weaken, Ensures-get,
}
use rpi5_wifi_driver_win11ar.Task.Unfailing.{Ensures-step, Ensures-fact}
use rpi5_wifi_driver_win11ar.Sdio.{r5_has_error}
use rpi5_wifi_driver_win11ar.Wire.{Memory}
use rpi5_wifi_driver_win11ar.Host.Registers.{
  Device, Adapter, stall, read32, invalid_device_state, io_device_error, invalid_parameter,
  set_memory, set_cmd53, set_fifo,
}
use rpi5_wifi_driver_win11ar.Host.Commands.{inhibit_wait, wait_inhibit_clear}
use rpi5_wifi_driver_win11ar.Host.Fifo.{
  start_blocks, await_response, finish_blocks, run_blocks, begin_blocks, checked_blocks,
  fifo_blocks, zero_if_read, fail_blocks, command_complete, transfer_complete,
}
use rpi5_wifi_driver_win11ar.Host.Fifo.Prompt.{
  IsPrompt, IsFree, Known, io_stopped-fact, fifo_wait-done, write32-done, write16-done, read32-fact,
  interrupt_time-done, set_cmd53-Unfailing, set_last-Unfailing, set_fifo-Unfailing,
}
use rpi5_wifi_driver_win11ar.Host.Fifo.Stream.{stream_byte, Read, Filled, move_blocks-Filled}

module _ {D : Type 0} (dev : Device D) (word : ℕ → ℕ) (position : D → ℕ)
    (prompt : IsPrompt dev word position) (Q : ℕ → Memory → Type 0) where
  abbrev At : Adapter D → Type 0
  At = Known dev word position prompt Q

  uninhibited : (n : ℕ) → Ensures At (inhibit_wait dev (suc n) 3) (λ u. At) (λ status s. ⊥)
  unfolding inhibit_wait
  uninhibited n =
      Ensures-fact
        {k = λ stopped.
          if stopped
          then fails invalid_device_state
          else read32 dev 0x24 >>= λ value.
              if bit_and value 3 == 0 then pure tt else stall dev 100 >> inhibit_wait dev n 3}
        (io_stopped-fact dev word position prompt Q)
        λ stopped e. Ensures-else stopped (fails invalid_device_state) e (
          Ensures-fact
            (read32-fact dev word position prompt Q IsFree 0x24 prompt.free prompt.present_still)
            λ value f. Ensures-then (bit_and value 3 == 0) _ f.0 (Ensures-pure tt (λ s h. h)))

  start_blocks-done :
      (blocks : ℕ) (write : Bool)
      → Ensures At (start_blocks dev blocks write) (λ u. At) (λ status s. ⊥)
  unfolding start_blocks wait_inhibit_clear
  start_blocks-done blocks write = Ensures-bind (uninhibited 9999) λ u.
      Ensures-step (set_last-Unfailing dev word position prompt Q _) λ u1.
        Ensures-bind (write32-done dev word position prompt Q 0x30 _) λ u2.
          Ensures-bind (write16-done dev word position prompt Q 4 _) λ u3.
            Ensures-bind (write16-done dev word position prompt Q 6 _) λ u4.
              Ensures-bind (write16-done dev word position prompt Q 0x0c _) λ u5.
                Ensures-bind (write32-done dev word position prompt Q 8 _)
                  λ u6. write16-done dev word position prompt Q 0x0e _

  await_response-done :
      (deadline : ℕ) → Ensures At (await_response dev deadline) (λ u. At) (λ status s. ⊥)
  unfolding await_response r5_has_error
  await_response-done deadline =
      Ensures-bind (fifo_wait-done dev word position prompt Q command_complete deadline (inl refl))
        λ u.
          Ensures-fact
            (read32-fact dev word position prompt Q (λ r. (bit_and r 0xcb00 != 0) ≡ false) 0x10
              prompt.accepted prompt.response_still)
            λ response ok. Ensures-step (set_last-Unfailing dev word position prompt Q _) λ v.
              Ensures-else (bit_and response 0xcb00 != 0) (fails io_device_error) ok
                (write32-done dev word position prompt Q 0x30 command_complete)

  finish_blocks-done :
      (blocks deadline : ℕ)
      → Ensures At (finish_blocks dev blocks false deadline) (λ u. At) (λ status s. ⊥)
  unfolding finish_blocks
  finish_blocks-done blocks deadline =
      Ensures-bind
        (fifo_wait-done dev word position prompt Q transfer_complete deadline (inr (inl refl)))
        λ u. Ensures-bind (write32-done dev word position prompt Q 0x30 transfer_complete) λ v.
          Ensures-step (set_cmd53-Unfailing dev word position prompt Q _)
            λ w. record { runs = (set_fifo-Unfailing dev word position prompt Q _).done }

in_range : (blocks : ℕ) → 1 ≤ blocks → blocks ≤ 32 → (blocks == 0 || ltb 32 blocks) ≡ false
in_range blocks lo hi = ground arith

module _ {D : Type 0} (dev : Device D) (word : ℕ → ℕ) (position : D → ℕ)
    (prompt : IsPrompt dev word position) (p at : ℕ) where
  abbrev ReadTo : ℕ → Adapter D → Type 0
  ReadTo = Filled dev word position prompt p at

  run_blocks-ReadTo :
      (blocks : ℕ)
      → Ensures
          (ReadTo 0)
          (run_blocks dev blocks false at)
          (λ u. ReadTo (128 * blocks))
          (λ status s. ⊥)
  unfolding run_blocks
  run_blocks-ReadTo blocks =
      Ensures-bind (start_blocks-done dev word position prompt (Read word p at 0) blocks false) λ u.
        Ensures-bind (interrupt_time-done dev word position prompt (Read word p at 0)) λ now.
          Ensures-bind (await_response-done dev word position prompt (Read word p at 0) _) λ v.
            Ensures-bind
              (move_blocks-Filled dev word position prompt p at blocks 0 at (128 * blocks) _
                (omega arith) (omega arith))
              λ w.
                finish_blocks-done dev word position prompt (Read word p at (128 * blocks)) blocks _

  -- The stream stands at a position.
  abbrev Stands : Adapter D → Type 0
  Stands s = position s.device ≡ p

  begin_blocks-ReadTo :
      (blocks : ℕ)
      → Ensures Stands (begin_blocks dev blocks false at) (λ u. ReadTo 0) (λ status s. ⊥)
  unfolding begin_blocks zero_if_read set_memory set_cmd53 set_fifo
  begin_blocks-ReadTo blocks =
      Ensures-bind
        (Ensures-modify {Good = λ u. ReadTo 0} _
          (λ s h. (omega (arith, h), record { byte_at = λ i lt. absurd (omega (arith, lt)) })))
        λ u.
          Ensures-bind (Ensures-modify {Good = λ v. ReadTo 0} _ (λ s h. h))
            λ v. Ensures-modify _ (λ s h. h)

  checked_blocks-ReadTo :
      (blocks : ℕ)
      → Ensures Stands
          (checked_blocks dev blocks false at)
          (λ u. ReadTo (128 * blocks))
          (λ status s. ⊥)
  unfolding checked_blocks
  checked_blocks-ReadTo blocks =
      Ensures-fact
        {k = λ stopped.
          if stopped
          then fails invalid_device_state
          else begin_blocks dev blocks false at
            >> on_error (run_blocks dev blocks false at) (fail_blocks dev blocks false at)}
        (io_stopped-fact dev word position prompt (λ n m. n ≡ p))
        λ stopped e. Ensures-else stopped (fails invalid_device_state) e (
          Ensures-bind (begin_blocks-ReadTo blocks) λ u.
            Ensures-on_error (run_blocks-ReadTo blocks)
              λ status bad. record { runs = λ s h. absurd h })

  fifo_blocks-ReadTo :
      (blocks : ℕ)
      → 1 ≤ blocks
      → blocks ≤ 32
      → Ensures
          (λ s. Stands s × (s.fifo_block_ready ≡ true))
          (fifo_blocks dev blocks false at)
          (λ u. ReadTo (128 * blocks))
          (λ status s. ⊥)
  unfolding fifo_blocks
  fifo_blocks-ReadTo blocks lo hi =
      Ensures-get _ true _ (λ s h. h.1)
        (Ensures-else (not true || (blocks == 0 || ltb 32 blocks)) (fails invalid_parameter)
          (in_range blocks lo hi)
          (record { runs = λ s h. (checked_blocks-ReadTo blocks).runs s h.0 }))

-- On a prompt device a read of 1 to 32 blocks with block mode ready succeeds: the stream has moved
-- by 128 words for each block, and every byte of the buffer is the stream's at its index.
pub fifo_blocks-delivered :
    {D : Type 0} (dev : Device D) (word : ℕ → ℕ) (position : D → ℕ) (s : Adapter D)
    (blocks at i : ℕ)
    → IsPrompt dev word position
    → s.fifo_block_ready ≡ true
    → 1 ≤ blocks
    → blocks ≤ 32
    → i < 512 * blocks
    → Ends
        (λ u t.
          (position t.device ≡ position s.device + 128 * blocks)
          × (t.memory (at + i) ≡ stream_byte word (position s.device) i))
        (λ status t. ⊥)
        (fifo_blocks dev blocks false at s)
fifo_blocks-delivered dev word position s blocks at i prompt ready lo hi lt =
    (Ensures-weaken (λ u t h. (h.0, h.1.byte_at i (omega (arith, lt)))) (λ status t h. h)
        (fifo_blocks-ReadTo dev word position prompt (position s.device) at blocks lo hi)).runs
      s (refl, ready)
