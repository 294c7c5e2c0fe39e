-- ===== src/Host/Bytes/Refusal.antt =====
-- SdioFifoTransfer of src/sdio/sdio.c after a failure: a caller that goes on gets no data.
use rpi5_wifi_driver_win11ar.Prelude.{
  ℕ, ◌≡◌, refl, ap, Bool, true, false, List, [], ◌∷◌, if◌then◌else◌, Bool-cases, inl, inr,
}
use rpi5_wifi_driver_win11ar.Task.{Outcome, success, error, ◌>>=◌}
use rpi5_wifi_driver_win11ar.Task.Rules.{Ends}
use rpi5_wifi_driver_win11ar.Wire.{Memory}
use rpi5_wifi_driver_win11ar.Host.Registers.{
  Device, Adapter, set_memory, invalid_parameter, invalid_device_state,
}
use rpi5_wifi_driver_win11ar.Host.Fifo.{zero_memory, zero_if_read}
use rpi5_wifi_driver_win11ar.Host.Bytes.{refuse_failed, fifo_transfer, is_valid_length}
use rpi5_wifi_driver_win11ar.Host.Bytes.Latch.{Open, Latched, fifo_transfer-Latched}

-- The arguments of a call: the place in memory, the length and the direction.
pub record Request : Type 0 where
  pub at : ℕ
  pub length : ℕ
  pub write : Bool

-- Calls one after the other, whatever each returns: their results, and the adapter after them.
unfoldable pub fifo_transfers :
    {D : Type 0} → Device D → List Request → Adapter D → List (Outcome (Unit {0})) × Adapter D
fifo_transfers dev [] s = ([], s)
fifo_transfers dev (q ∷ qs) s =
    let first = fifo_transfer dev q.at q.length q.write s in
    let later = fifo_transfers dev qs first.1 in (first.0 ∷ later.0, later.1)

-- What a caller gets from a failed FIFO.
abbrev pub refusal : Request → Outcome (Unit {0})
refusal q = error (if is_valid_length q.length then invalid_device_state else invalid_parameter)

abbrev pub refusals : List Request → List (Outcome (Unit {0}))
refusals [] = []
refusals (q ∷ qs) = refusal q ∷ refusals qs

-- The buffers of the valid reads, zeroed.
abbrev pub zeroed : Request → Memory → Memory
zeroed q p =
    if is_valid_length q.length then (if q.write then p else zero_memory q.at q.length p) else p

abbrev pub all_zeroed : List Request → Memory → Memory
all_zeroed [] p = p
all_zeroed (q ∷ qs) p = all_zeroed qs (zeroed q p)

module _ {D : Type 0} (dev : Device D) where
  one_refused :
      (at length : ℕ) (write : Bool) (t : Adapter D)
      → t.fifo_transport_failed ≡ true
      → let q : Request = record { at = at; length = length; write = write } in
        fifo_transfer dev at length write t ≡ (refusal q, record t { memory = zeroed q t.memory })
  unfolding fifo_transfer refuse_failed zero_if_read set_memory ◌>>=◌
  one_refused at length true t failed = elim (Bool-cases (is_valid_length length)) [
    | inl valid ↦ rw (valid, failed) refl
    | inr bad ↦ rw bad refl
  ]
  one_refused at length false t failed = elim (Bool-cases (is_valid_length length)) [
    | inl valid ↦ rw (valid, failed) refl
    | inr bad ↦ rw bad refl
  ]

  all_refused :
      (qs : List Request) (t : Adapter D)
      → t.fifo_transport_failed ≡ true
      → fifo_transfers dev qs t ≡ (refusals qs, record t { memory = all_zeroed qs t.memory })
  unfolding fifo_transfers
  all_refused [] t failed = refl
  all_refused (q ∷ qs) t failed = rw (one_refused q.at q.length q.write t failed) (
      ap (λ r. (refusal q ∷ r.0, r.1))
        (all_refused qs (record t { memory = zeroed q t.memory }) failed))

failed_from :
    {D : Type 0} (write : Bool) (at length status : ℕ) (r : Outcome (Unit {0}) × Adapter D)
    → r.0 ≡ error status
    → Ends (λ u. Open) (λ st. Latched write at length) r
    → r.1.fifo_transport_failed ≡ true
failed_from write at length status (success u, s) e h = cc
failed_from write at length status (error st, s) e (bad, h) = h.0

-- When a transfer of a valid length has failed, and SdioFifoTransfer is then called any number of
-- times, one call directly after the other and nothing else between them, every call returns
-- STATUS_INVALID_DEVICE_STATE, or STATUS_INVALID_PARAMETER on a length that is not valid, and reaches
-- no register: nothing of the adapter or the device changes but the buffers of the valid reads, which
-- are zeroed.
pub fifo_transfer-refused :
    {D : Type 0} (dev : Device D) (s : Adapter D) (at length status : ℕ) (write : Bool)
    (qs : List Request)
    → is_valid_length length ≡ true
    → (fifo_transfer dev at length write s).0 ≡ error status
    → let t = (fifo_transfer dev at length write s).1 in
      fifo_transfers dev qs t ≡ (refusals qs, record t { memory = all_zeroed qs t.memory })
fifo_transfer-refused dev s at length status write qs valid e =
    all_refused dev qs (fifo_transfer dev at length write s).1 (
      failed_from write at length status (fifo_transfer dev at length write s) e
        (fifo_transfer-Latched dev s at length write valid))
