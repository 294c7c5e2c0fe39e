-- ===== src/Mailbox.antt =====
-- src/driver/diag_mailbox.h: the two buffers between the worker, which captures diagnostics, and the
-- thread of src/cyw43455/diagnostics_worker.h, which writes them. The two threads run as a schedule.
pub mod Fifo
pub mod Loads
pub mod Tests
use rpi5_wifi_driver_win11ar.Prelude.{
  ℕ, suc, ◌+◌, ◌%◌, ◌^◌, Bool, true, false, not, List, [], ◌∷◌, ◌++◌, if◌then◌else◌,
}

-- The values 0 to 3 of State.
pub data Slot : Type 0 where
  free : Slot
  capturing : Slot
  ready : Slot
  writing : Slot

-- An array of two; the index 1 is `true`, and `^=1` is `not`.
pub record Pair (A : Type 0) : Type 0 where
  pub first : A
  pub second : A

unfoldable pub at_index : {A : Type 0} → Pair A → Bool → A
at_index p true = p.second
at_index p false = p.first

unfoldable pub put_index : {A : Type 0} → Pair A → Bool → A → Pair A
put_index p true a = record { first = p.first; second = a }
put_index p false a = record { first = a; second = p.second }

unfoldable pub is_free : Slot → Bool
is_free free = true
is_free capturing = false
is_free ready = false
is_free writing = false

unfoldable pub is_ready : Slot → Bool
is_ready free = false
is_ready capturing = false
is_ready ready = true
is_ready writing = false

-- CYW_DIAG_MAILBOX, with buffers of any type.
pub record Mailbox (T : Type 0) : Type 0 where
  pub states : Pair Slot
  pub produce : Bool
  pub consume : Bool
  pub skipped : ℕ
  pub buffers : Pair T

-- The steps of the two threads. Between CywDiagBegin and CywDiagPublish the producer fills its
-- buffer; between CywDiagTake and CywDiagRelease the consumer writes its buffer out.
pub data Step (T : Type 0) : Type 0 where
  begin_step : Step T
  fill_step : T → Step T
  publish_step : Step T
  take_step : Step T
  release_step : Step T

-- The mailbox, whether each thread has a buffer, and what was published and written out.
pub record Threads (T : Type 0) : Type 0 where
  pub mailbox : Mailbox T
  pub is_producing : Bool
  pub is_writing : Bool
  pub published : List T
  pub written : List T

module _ {T : Type 0} (reset : T → T) where
  -- CywDiagBegin, with whether there is a buffer.
  unfoldable pub diag_begin : Mailbox T → Bool × Mailbox T
  diag_begin m =
      if is_free (at_index m.states m.produce)
      then (
        true,
        record m {
          states = put_index m.states m.produce capturing;
          buffers = put_index m.buffers m.produce (reset (at_index m.buffers m.produce));
        },
      )
      else (false, record m { skipped = (m.skipped + 1) % 2 ^ 32 })

  -- CywDiagPublish.
  unfoldable pub diag_publish : Mailbox T → Mailbox T
  diag_publish m = record m { states = put_index m.states m.produce ready; produce = not m.produce }

  -- CywDiagTake, with whether there is a buffer.
  unfoldable pub diag_take : Mailbox T → Bool × Mailbox T
  diag_take m =
      if is_ready (at_index m.states m.consume)
      then (true, record m { states = put_index m.states m.consume writing })
      else (false, m)

  -- CywDiagRelease.
  unfoldable pub diag_release : Mailbox T → Mailbox T
  diag_release m = record m { states = put_index m.states m.consume free; consume = not m.consume }

  unfoldable pub fill : Mailbox T → T → Mailbox T
  fill m a = record m { buffers = put_index m.buffers m.produce a }

  -- A step that a thread cannot take where it stands changes nothing.
  unfoldable pub mailbox_step : Threads T → Step T → Threads T
  mailbox_step t begin_step =
      if t.is_producing
      then t
      else record t { mailbox = (diag_begin t.mailbox).1; is_producing = (diag_begin t.mailbox).0 }
  mailbox_step t (fill_step a) =
      if t.is_producing then record t { mailbox = fill t.mailbox a } else t
  mailbox_step t publish_step =
      if t.is_producing
      then record t {
        mailbox = diag_publish t.mailbox;
        is_producing = false;
        published = t.published ++ (at_index t.mailbox.buffers t.mailbox.produce ∷ []);
      }
      else t
  mailbox_step t take_step =
      if t.is_writing
      then t
      else record t { mailbox = (diag_take t.mailbox).1; is_writing = (diag_take t.mailbox).0 }
  mailbox_step t release_step =
      if t.is_writing
      then record t {
        mailbox = diag_release t.mailbox;
        is_writing = false;
        written = t.written ++ (at_index t.mailbox.buffers t.mailbox.consume ∷ []);
      }
      else t

  unfoldable pub run_steps : Threads T → List (Step T) → Threads T
  run_steps t [] = t
  run_steps t (s ∷ ss) = run_steps (mailbox_step t s) ss
