-- ===== src/Host/Bytes/Latch.antt =====
-- SdioFifoTransfer of src/sdio/sdio.c: what a failure leaves.
use rpi5_wifi_driver_win11ar.Prelude.{
  ℕ, zero, suc, ◌+◌, ◌-◌, ◌≡◌, refl, Bool, true, false, not, ◌&&◌, leb, ltb, ◌==◌, if◌then◌else◌,
  arith,
}
use rpi5_wifi_driver_win11ar.Task.{on_error}
use rpi5_wifi_driver_win11ar.Task.Rules.{
  IsError, Ends, Ensures, Keeps, Keeps-Ensures, Keeps-get, Keeps-modify, keeps_rules, ensures_rules,
  Ensures-modify, Ensures-bind, Ensures-after, Ensures-fails, Ensures-pure, Ensures-weaken,
  Ensures-on_error, Ensures-if, Ensures-look,
}
use rpi5_wifi_driver_win11ar.Wire.{Memory}
use rpi5_wifi_driver_win11ar.Host.Registers.{Device, Adapter, set_memory, invalid_device_state}
use rpi5_wifi_driver_win11ar.Host.Fifo.{
  zero_memory, zero_if_read, set_transport_failed, set_block_ready, fail_blocks, run_blocks,
  checked_blocks, fifo_blocks,
}
use rpi5_wifi_driver_win11ar.Host.Fifo.Keeping.{
  Loose, loose_rules, run_blocks-Keeps, begin_blocks-Keeps, reset_transfer-Keeps,
  zero_if_read-Keeps,
}
use rpi5_wifi_driver_win11ar.Host.Bytes.{
  move_chunk, fifo_loop, latch_failure, refuse_failed, fifo_transfer, is_valid_length, chunk_length,
  cmd53_transfer, Transfer,
}
use rpi5_wifi_driver_win11ar.Host.Bytes.Keeping.{cmd53_transfer-Keeps}

abbrev pub Open : {D : Type 0} → Adapter D → Type 0
Open s = s.fifo_transport_failed ≡ false

Open-Loose : {D : Type 0} → Loose (Open {D = D})
Open-Loose = record {
  kept = record { stable = λ s device last window blocks h. h };
  loose = λ s cmd53 fifo memory h. h;
}

abbrev Anything : {D : Type 0} → Adapter D → Type 0
Anything s = Unit {0}

Anything-Loose : {D : Type 0} → Loose (Anything {D = D})
Anything-Loose = record {
  kept = record { stable = λ s device last window blocks h. tt };
  loose = λ s cmd53 fifo memory h. tt;
}

module _ {D : Type 0} (dev : Device D) where
  set_block_ready-Keeps : (b : Bool) → Keeps (Anything {D = D}) (set_block_ready b)
  unfolding set_block_ready
  set_block_ready-Keeps b = Keeps-modify _ (λ s h. tt)

  set_transport_failed-Keeps : (b : Bool) → Keeps (Anything {D = D}) (set_transport_failed b)
  unfolding set_transport_failed
  set_transport_failed-Keeps b = Keeps-modify _ (λ s h. tt)

  failed_blocks :
      (blocks : ℕ) (write : Bool) (at status : ℕ)
      → IsError status
      → Ensures Anything (fail_blocks dev blocks write at status) (λ u. Open) (λ st. Anything)
  unfolding fail_blocks
  failed_blocks blocks write at status e =
      search
        (
          ensures_rules, loose_rules, Anything-Loose, set_block_ready-Keeps,
          set_transport_failed-Keeps, reset_transfer-Keeps, zero_if_read-Keeps,
        )
        depth 24

  ran_blocks :
      (blocks : ℕ) (write : Bool) (at : ℕ)
      → Ensures Open
          (on_error (run_blocks dev blocks write at) (fail_blocks dev blocks write at))
          (λ u. Open)
          (λ status. Anything)
  ran_blocks blocks write at =
      Ensures-on_error
        (Ensures-weaken {Good = λ u. Open} (λ u s h. h) (λ status s h. tt)
          (Keeps-Ensures (run_blocks-Keeps dev Open-Loose blocks write at)))
        (failed_blocks blocks write at)

  checked_blocks-Open :
      (blocks : ℕ) (write : Bool) (at : ℕ)
      → Ensures Open (checked_blocks dev blocks write at) (λ u. Open) (λ status. Anything)
  unfolding checked_blocks
  checked_blocks-Open blocks write at =
      search (ensures_rules, loose_rules, Open-Loose, begin_blocks-Keeps, ran_blocks) depth 24

  fifo_blocks-Open :
      (blocks : ℕ) (write : Bool) (at : ℕ)
      → Ensures Open (fifo_blocks dev blocks write at) (λ u. Open) (λ status. Anything)
  unfolding fifo_blocks
  fifo_blocks-Open blocks write at =
      search (ensures_rules, keeps_rules, checked_blocks-Open) depth 24

  bytes-Open : (t : Transfer) → Ensures Open (cmd53_transfer dev t) (λ u. Open) (λ status. Anything)
  bytes-Open t =
      Ensures-weaken (λ u s h. h) (λ status s h. tt)
        (Keeps-Ensures (cmd53_transfer-Keeps dev Open-Loose t))

  move_chunk-Open :
      (ready write : Bool) (at left : ℕ)
      → Ensures Open (move_chunk dev ready write at left) (λ u. Open) (λ status. Anything)
  unfolding move_chunk
  move_chunk-Open ready write at left =
      search (ensures_rules, fifo_blocks-Open, bytes-Open) depth 24

  fifo_loop-Open :
      (n : ℕ) (write : Bool) (at left : ℕ)
      → Ensures Open (fifo_loop dev n write at left) (λ u. Open) (λ status. Anything)
  unfolding fifo_loop
  fifo_loop-Open zero write at left = search ensures_rules
  fifo_loop-Open (suc n) write at left =
      Ensures-after (Keeps-get _) (λ status s h. tt)
        λ ready.
          Ensures-if (left == 0) (λ e. Ensures-pure tt (λ s h. h))
            λ e. Ensures-bind (move_chunk-Open ready write at left) λ u.
              fifo_loop-Open n write (at + chunk_length ready left) (left - chunk_length ready left)

-- The byte at an index that a read has filled; 0 outside the buffer and after a write.
abbrev pub read_byte : Bool → ℕ → ℕ → Memory → ℕ → ℕ
read_byte write at length p i = if not write && (leb at i && ltb i (at + length)) then p i else 0

-- What a failure leaves: the latch, and zeros in place of what was read.
abbrev pub Latched : {D : Type 0} → Bool → ℕ → ℕ → Adapter D → Type 0
Latched write at length s =
    (s.fifo_transport_failed ≡ true) × ((i : ℕ) → read_byte write at length s.memory i ≡ 0)

zero_memory_lem :
    (at length : ℕ) (p : Memory) (i : ℕ) → read_byte false at length (zero_memory at length p) i ≡ 0
unfolding zero_memory
zero_memory_lem at length p i = ground arith

module _ {D : Type 0} where
  zero_if_read-Latched :
      (write : Bool) (at length : ℕ) {Bad : ℕ → Adapter D → Type 0}
      → Ensures
          (λ s. s.fifo_transport_failed ≡ true)
          (zero_if_read write at length)
          (λ u. Latched write at length)
          Bad
  unfolding zero_if_read set_memory
  zero_if_read-Latched true at length = Ensures-pure tt (λ s h. (h, λ i. refl))
  zero_if_read-Latched false at length =
      Ensures-modify _ (λ s h. (h, zero_memory_lem at length s.memory))

  latch_failure-Latched :
      (write : Bool) (at length status : ℕ)
      → IsError status
      → Ensures
          (Anything {D = D})
          (latch_failure write at length status)
          (λ u. Open)
          (λ st. Latched write at length)
  unfolding latch_failure set_transport_failed
  latch_failure-Latched write at length status e =
      Ensures-bind
        (Ensures-bind
          (Ensures-modify {Good = λ u s. s.fifo_transport_failed ≡ true} _ (λ s h. refl))
          λ u. zero_if_read-Latched write at length)
        λ v. Ensures-fails status e (λ s h. h)

  refuse_failed-Latched :
      (write : Bool) (at length : ℕ)
      → Ensures
          (λ s. s.fifo_transport_failed ≡ true)
          (refuse_failed {D = D} write at length)
          (λ u. Open)
          (λ st. Latched write at length)
  unfolding refuse_failed
  refuse_failed-Latched write at length =
      Ensures-bind (zero_if_read-Latched write at length)
        λ v. Ensures-fails invalid_device_state refl (λ s h. h)

module _ {D : Type 0} (dev : Device D) where
  attempt-Latched :
      (at length : ℕ) (write failed : Bool)
      → Ensures
          (λ s. s.fifo_transport_failed ≡ failed)
          (if failed
            then refuse_failed write at length
            else on_error (fifo_loop dev length write at length) (latch_failure write at length))
          (λ u. Open)
          (λ status. Latched write at length)
  attempt-Latched at length write true = refuse_failed-Latched write at length
  attempt-Latched at length write false =
      Ensures-on_error (fifo_loop-Open dev length write at length)
        (latch_failure-Latched write at length)

  -- The same of the whole call, on a valid length.
  transfer-Latched :
      (at length : ℕ) (write : Bool)
      → is_valid_length length ≡ true
      → Ensures Anything
          (fifo_transfer dev at length write)
          (λ u. Open)
          (λ status. Latched write at length)
  unfolding fifo_transfer
  transfer-Latched at length write valid = rw valid (
      Ensures-look _ _
        λ failed. record { runs = λ s h. (attempt-Latched at length write failed).runs s h.1 })

-- A transfer of a valid length leaves the FIFO in use if it succeeds; if it fails, the status is an
-- error, the FIFO is marked as failed, and the buffer of a read is all zeros.
pub fifo_transfer-Latched :
    {D : Type 0} (dev : Device D) (s : Adapter D) (at length : ℕ) (write : Bool)
    → is_valid_length length ≡ true
    → Ends
        (λ u t. t.fifo_transport_failed ≡ false)
        (λ status. Latched write at length)
        (fifo_transfer dev at length write s)
fifo_transfer-Latched dev s at length write valid =
    (transfer-Latched dev at length write valid).runs s tt
