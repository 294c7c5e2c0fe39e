-- ===== src/Host/Fifo/Stream.antt =====
-- A block read of src/sdio/fifo_blocks.h on a prompt device: it succeeds, and the buffer holds the
-- stream.
use rpi5_wifi_driver_win11ar.Prelude.{
  ℕ, zero, suc, ◌+◌, ◌*◌, ◌/◌, ◌%◌, ◌^◌, ◌<◌, ◌≡◌, refl, ap, sym, subst, false, inl, inr, ◌==◌,
  if◌then◌else◌, arith, ◌∙◌,
}
use native.Mathlib.Decide.{dec_lt}
use rpi5_wifi_driver_win11ar.Task.{pure, fails, ◌>>◌}
use rpi5_wifi_driver_win11ar.Task.Rules.{
  Ensures, Ensures-pure, Ensures-bind, Ensures-else, Ensures-modify,
}
use rpi5_wifi_driver_win11ar.Task.Unfailing.{Ensures-fact}
use rpi5_wifi_driver_win11ar.Wire.{Memory, store}
use rpi5_wifi_driver_win11ar.Host.Registers.{
  Device, Adapter, on_device, register_read, read32, set_memory, invalid_device_state,
}
use rpi5_wifi_driver_win11ar.Host.Fifo.{
  store_word, move_word, move_words, move_block, move_blocks, ready_event, read_ready,
}
use rpi5_wifi_driver_win11ar.Host.Fifo.Prompt.{
  IsPrompt, io_stopped-fact, fifo_wait-done, write32-done, set_cmd53-Unfailing,
}

-- The byte at an index of the stream from a position on, the lowest byte of each word first.
abbrev pub stream_byte : (ℕ → ℕ) → ℕ → ℕ → ℕ
stream_byte word p i =
    let w = word (p + i / 4) % 2 ^ 32 in
    if i % 4 == 0
    then w % 256
    else if i % 4 == 1
    then w / 2 ^ 8 % 256
    else if i % 4 == 2
    then w / 2 ^ 16 % 256
    else w / 2 ^ 24 % 256

-- The first words of the stream stand in the memory.
pub record Holds (word : ℕ → ℕ) (p at n : ℕ) (m : Memory) : Type 0 where
  pub byte_at : (i : ℕ) → i < 4 * n → m (at + i) ≡ stream_byte word p i

-- The stream has moved by as many words.
abbrev pub Read : (ℕ → ℕ) → ℕ → ℕ → ℕ → ℕ → Memory → Type 0
Read word p at n position m = (position ≡ p + n) × Holds word p at n m

store_word_lem :
    (at w j : ℕ) (m : Memory)
    → store_word at w m j ≡ (
        if j == at + 3
        then w / 2 ^ 24 % 256
        else if j == at + 2
        then w / 2 ^ 16 % 256
        else if j == at + 1
        then w / 2 ^ 8 % 256
        else if j == at
        then w % 256
        else m j)
unfolding store_word store
store_word_lem at w j m = refl

Holds-store :
    (word : ℕ → ℕ) (p at n w : ℕ) (m : Memory)
    → Holds word p at n m
    → w ≡ word (p + n) % 2 ^ 32
    → Holds word p at (n + 1) (store_word (at + 4 * n) w m)
Holds-store word p at n w m h e = record {
  byte_at = λ i lt. elim (dec_lt i (4 * n)) [
    | yes old ↦ rw (store_word_lem (at + 4 * n) w (at + i) m) (ground (arith, h.byte_at i old))
    | no new ↦
        let q : i / 4 ≡ n = omega arith in
        rw (store_word_lem (at + 4 * n) w (at + i) m)
          (ground (arith, e ∙ ap (λ k. word (p + k) % 2 ^ 32) (sym q)))
  ];
}

module _ {D : Type 0} (dev : Device D) (word : ℕ → ℕ) (position : D → ℕ)
    (prompt : IsPrompt dev word position) (p at : ℕ) where
  abbrev pub Filled : ℕ → Adapter D → Type 0
  Filled n s = Read word p at n (position s.device) s.memory

  -- The next word is taken from the stream; the memory is as before.
  abbrev Taken : ℕ → Adapter D → Type 0
  Taken n s = (position s.device ≡ p + (n + 1)) × Holds word p at n s.memory

  deliver :
      (n : ℕ)
      → Ensures
          (Filled n)
          (on_device (dev.read 32 0x20))
          (λ w s. Taken n s × (w % 2 ^ 32 ≡ word (p + n) % 2 ^ 32))
          (λ status s. ⊥)
  unfolding on_device
  deliver n = record {
    runs = λ s h. (
      (omega (arith, prompt.moved s.device, h.0), h.1),
      ap (λ v. v % 2 ^ 32) (prompt.delivered s.device ∙ ap word h.0),
    );
  }

  read_word :
      (n : ℕ)
      → Ensures
          (Filled n)
          (read32 dev 0x20)
          (λ w s. Taken n s × (w ≡ word (p + n) % 2 ^ 32))
          (λ status s. ⊥)
  unfolding read32 register_read
  read_word n =
      Ensures-fact {k = λ stopped. if stopped then pure 0xffffffff else register_read dev 32 0x20}
        (io_stopped-fact dev word position prompt (Read word p at n))
        λ stopped e.
          Ensures-else stopped (pure 0xffffffff) e
            (Ensures-bind (deliver n) λ w. Ensures-pure (w % 2 ^ 32) (λ s h. h))

  move_word-Filled :
      (n : ℕ)
      → Ensures (Filled n) (move_word dev false (at + 4 * n)) (λ u. Filled (n + 1)) (λ status s. ⊥)
  unfolding move_word set_memory
  move_word-Filled n =
      Ensures-bind (read_word n)
        λ w. Ensures-modify _ (λ s h. (h.0.0, Holds-store word p at n w s.memory h.0.1 h.1))

  one_word :
      (n here : ℕ)
      → here ≡ at + 4 * n
      → Ensures (Filled n) (move_word dev false here) (λ u. Filled (n + 1)) (λ status s. ⊥)
  one_word n here e = rw e (move_word-Filled n)

  move_words-Filled :
      (k n here m : ℕ)
      → here ≡ at + 4 * n
      → m ≡ n + k
      → Ensures (Filled n) (move_words dev k false here) (λ u. Filled m) (λ status s. ⊥)
  unfolding move_words
  move_words-Filled zero n here m e f =
      Ensures-pure tt (λ s h. subst (λ j. Filled j s) (omega arith) h)
  move_words-Filled (suc k) n here m e f =
      Ensures-fact
        {k = λ stopped.
          if stopped
          then fails invalid_device_state
          else move_word dev false here >> move_words dev k false (here + 4)}
        (io_stopped-fact dev word position prompt (Read word p at n))
        λ stopped e'. Ensures-else stopped (fails invalid_device_state) e' (
          Ensures-bind (one_word n here e)
            λ u. move_words-Filled k (n + 1) (here + 4) m (omega arith) (omega arith))

  move_block-Filled :
      (n here deadline : ℕ)
      → here ≡ at + 4 * n
      → Ensures
          (Filled n)
          (move_block dev false deadline here)
          (λ u. Filled (n + 128))
          (λ status s. ⊥)
  unfolding move_block ready_event
  move_block-Filled n here deadline e =
      Ensures-bind
        (fifo_wait-done dev word position prompt (Read word p at n) read_ready deadline
          (inr (inr (inl refl))))
        λ u.
          Ensures-bind (write32-done dev word position prompt (Read word p at n) 0x30 read_ready)
            λ v. Ensures-bind (move_words-Filled 128 n here (n + 128) e refl) λ w. record {
              runs =
                  (set_cmd53-Unfailing dev word position prompt (Read word p at (n + 128)) _).done;
            }

  pub move_blocks-Filled :
      (blocks n here m deadline : ℕ)
      → here ≡ at + 4 * n
      → m ≡ n + 128 * blocks
      → Ensures
          (Filled n)
          (move_blocks dev blocks false deadline here)
          (λ u. Filled m)
          (λ status s. ⊥)
  unfolding move_blocks
  move_blocks-Filled zero n here m deadline e f =
      Ensures-pure tt (λ s h. subst (λ j. Filled j s) (omega arith) h)
  move_blocks-Filled (suc b) n here m deadline e f =
      Ensures-bind (move_block-Filled n here deadline e)
        λ u. move_blocks-Filled b (n + 128) (here + 512) m deadline (omega arith) (omega arith)
