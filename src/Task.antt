-- ===== src/Task.antt =====
-- Code that returns NTSTATUS and changes an object: `if(!NT_SUCCESS(status))return status;` after a
-- call is a bind, and what was written before an error stays written.
pub mod Rules
pub mod Unfailing
use rpi5_wifi_driver_win11ar.Prelude.{ℕ}

-- A call succeeds with what it stores through its out parameters, or returns an error status.
pub data Outcome (A : Type 0) : Type 0 where
  success : A → Outcome A
  error : ℕ → Outcome A

abbrev pub Task : Type 0 → Type 0 → Type 0
Task S A = S → Outcome A × S

module _ {S A : Type 0} where
  pub pure : A → Task S A
  pure a s = (success a, s)

  pub fails : ℕ → Task S A
  fails status s = (error status, s)

  pub give : Outcome A → Task S A
  give o s = (o, s)

  pub get : (S → A) → Task S A
  get f s = (success (f s), s)

module _ {S : Type 0} where
  pub modify : (S → S) → Task S (Unit {0})
  modify f s = (success tt, f s)

module _ {S A B : Type 0} where
  abbrev pub next : (A → Task S B) → Outcome A × S → Outcome B × S
  next k (success a, s) = k a s
  next k (error status, s) = (error status, s)

  infixl 10 ◌>>=◌ ◌>>◌
  -- Opening this opens the ways to begin a task as well.
  unfoldable pub ◌>>=◌ : Task S A → (A → Task S B) → Task S B
  unfolding pure fails give get modify
  ◌>>=◌ m k s = next k (m s)

  abbrev pub ◌>>◌ : Task S A → Task S B → Task S B
  m >> n = m >>= λ _. n

  -- `status = m; …; return status;` with code of its own for either result.
  abbrev pub after_outcome : (Outcome A → Task S B) → Outcome A × S → Outcome B × S
  after_outcome k (r, s) = k r s

  unfoldable pub outcome_of : Task S A → (Outcome A → Task S B) → Task S B
  outcome_of m k s = after_outcome k (m s)

-- The status of a call; STATUS_SUCCESS is zero.
abbrev pub status_of : {A : Type 0} → Outcome A → ℕ
status_of (success a) = 0
status_of (error status) = status

module _ {S A : Type 0} where
  abbrev pub note_status : (ℕ → S → S) → Outcome A × S → Outcome A × S
  note_status f (r, s) = (r, f (status_of r) s)

  -- `A->Field=status;` after a call whose status is then returned.
  unfoldable pub noting : Task S A → (ℕ → S → S) → Task S A
  noting m f s = note_status f (m s)

  abbrev pub handle : (ℕ → Task S A) → Outcome A × S → Outcome A × S
  handle k (success a, s) = (success a, s)
  handle k (error status, s) = k status s

  -- Code for the failure alone.
  unfoldable pub on_error : Task S A → (ℕ → Task S A) → Task S A
  on_error m k s = handle k (m s)

  -- A call whose status is thrown away: `(void)f(A);`.
  abbrev forget : Outcome A × S → Outcome (Unit {0}) × S
  forget (r, s) = (success tt, s)

  unfoldable pub ignore : Task S A → Task S (Unit {0})
  ignore m s = forget (m s)
