-- ===== src/Task/Unfailing.antt =====
-- Tasks that return no error, such as register reads.
use rpi5_wifi_driver_win11ar.Prelude.{ℕ, Bool, true, false, if◌then◌else◌}
use rpi5_wifi_driver_win11ar.Task.{Outcome, success, error, Task, pure, get, modify, next, ◌>>=◌}
use rpi5_wifi_driver_win11ar.Task.Rules.{Ends, Ensures, Ensures-bind, Ensures-weaken}

-- `P` still holds, and no error is returned.
pub record Unfailing {S A : Type 0} (P : S → Type 0) (m : Task S A) : Type 0 where
  pub done : (s : S) → P s → Ends (λ a. P) (λ status s'. ⊥) (m s)

module _ {S A : Type 0} {P : S → Type 0} where
  pub Unfailing-pure : (a : A) → Unfailing P (pure a)
  unfolding pure
  Unfailing-pure a = record { done = λ s h. h }

  pub Unfailing-get : (f : S → A) → Unfailing P (get f)
  unfolding get
  Unfailing-get f = record { done = λ s h. h }

  pub Unfailing-if :
      (b : Bool) {m n : Task S A} → Unfailing P m → Unfailing P n → Unfailing P (if b then m else n)
  Unfailing-if true x y = x
  Unfailing-if false x y = y

module _ {S : Type 0} {P : S → Type 0} where
  pub Unfailing-modify : (f : S → S) → ((s : S) → P s → P (f s)) → Unfailing P (modify f)
  unfolding modify
  Unfailing-modify f h = record { done = h }

module _ {S A B : Type 0} {P : S → Type 0} where
  next_done :
      (k : A → Task S B) (r : Outcome A × S)
      → ((a : A) → Unfailing P (k a))
      → Ends (λ a. P) (λ status s. ⊥) r
      → Ends (λ b. P) (λ status s. ⊥) (next k r)
  next_done k (success a, s) x h = (x a).done s h
  next_done k (error status, s) x (e, h) = absurd h

  pub Unfailing-bind :
      {m : Task S A} {k : A → Task S B}
      → Unfailing P m
      → ((a : A) → Unfailing P (k a))
      → Unfailing P (m >>= k)
  unfolding ◌>>=◌
  Unfailing-bind {m} {k} x y = record { done = λ s h. next_done k (m s) y (x.done s h) }

  -- A step that cannot fail asks nothing of the error case.
  pub Ensures-step :
      {Good : B → S → Type 0} {Bad : ℕ → S → Type 0} {m : Task S A} {k : A → Task S B}
      → Unfailing P m
      → ((a : A) → Ensures P (k a) Good Bad)
      → Ensures P (m >>= k) Good Bad
  Ensures-step x y =
      Ensures-bind
        (Ensures-weaken {Fine = λ a. P} {Late = λ status s. ⊥} (λ a s h. h) (λ status s h. absurd h)
          (record { runs = x.done }))
        y

module _ {S A B : Type 0} {P : S → Type 0} {F : A → Type 0} where
  -- A step that finds out a fact about its result.
  pub Ensures-fact :
      {Good : B → S → Type 0} {Bad : ℕ → S → Type 0} {m : Task S A} {k : A → Task S B}
      → Ensures P m (λ a s. P s × F a) Bad
      → ((a : A) → F a → Ensures P (k a) Good Bad)
      → Ensures P (m >>= k) Good Bad
  Ensures-fact x y = Ensures-bind x λ a. record { runs = λ s h. (y a h.1).runs s h.0 }

pub ruleset unfailing_rules = (Unfailing-pure, Unfailing-get, Unfailing-if, Unfailing-bind)
