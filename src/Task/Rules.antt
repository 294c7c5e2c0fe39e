-- ===== src/Task/Rules.antt =====
-- What a task keeps and what it ensures: one rule for each way to build a task.
use rpi5_wifi_driver_win11ar.Prelude.{
  ℕ, ◌≡◌, refl, Bool, true, false, ltb, subst, sym, if◌then◌else◌,
}
use rpi5_wifi_driver_win11ar.Task.{
  Outcome, success, error, Task, pure, fails, get, modify, next, ◌>>=◌, after_outcome, outcome_of,
  ignore, handle, on_error, noting, note_status,
}

-- Not NT_SUCCESS.
abbrev pub IsError : ℕ → Type 0
IsError status = ltb status 0x80000000 ≡ false

module _ {S A : Type 0} where
  abbrev pub Ends : (A → S → Type 0) → (ℕ → S → Type 0) → Outcome A × S → Type 0
  Ends Good Bad (success a, s) = Good a s
  Ends Good Bad (error status, s) = IsError status × Bad status s

-- From a state with `P`, success ends in `Good`, and a failure in `Bad` with an error status.
pub record Ensures {S A : Type 0} (P : S → Type 0) (m : Task S A) (Good : A → S → Type 0)
    (Bad : ℕ → S → Type 0) : Type 0 where
  pub runs : (s : S) → P s → Ends Good Bad (m s)

module _ {S A : Type 0} (P : S → Type 0) where
  ended : (r : Outcome A × S) → Ends (λ a. P) (λ status. P) r → P r.1
  ended (success a, s) h = h
  ended (error status, s) (e, h) = h

-- Whatever the result, `P` still holds, and a failure has an error status.
pub record Keeps {S A : Type 0} (P : S → Type 0) (m : Task S A) : Type 0 where
  pub after : (s : S) → P s → Ends (λ a. P) (λ status. P) (m s)

module _ {S A : Type 0} {P : S → Type 0} where
  pub Keeps-pure : (a : A) → Keeps P (pure a)
  unfolding pure
  Keeps-pure a = record { after = λ s h. h }

  pub Keeps-fails : (status : ℕ) → IsError status → Keeps P (fails {A = A} status)
  unfolding fails
  Keeps-fails status e = record { after = λ s h. (e, h) }

  pub Keeps-get : (f : S → A) → Keeps P (get f)
  unfolding get
  Keeps-get f = record { after = λ s h. h }

  pub Keeps-if : (b : Bool) {m n : Task S A} → Keeps P m → Keeps P n → Keeps P (if b then m else n)
  Keeps-if true x y = x
  Keeps-if false x y = y

  handle-Keeps :
      (k : ℕ → Task S A) (r : Outcome A × S)
      → ((status : ℕ) → IsError status → Keeps P (k status))
      → Ends (λ a. P) (λ status. P) r
      → Ends (λ a. P) (λ status. P) (handle k r)
  handle-Keeps k (success a, s) x h = h
  handle-Keeps k (error status, s) x (e, h) = (x status e).after s h

  pub Keeps-on_error :
      {m : Task S A} {k : ℕ → Task S A}
      → Keeps P m
      → ((status : ℕ) → IsError status → Keeps P (k status))
      → Keeps P (on_error m k)
  unfolding on_error
  Keeps-on_error {m} {k} x y = record { after = λ s h. handle-Keeps k (m s) y (x.after s h) }

  pub Keeps-ignore : {m : Task S A} → Keeps P m → Keeps P (ignore m)
  unfolding ignore
  Keeps-ignore {m} x = record { after = λ s h. ended P (m s) (x.after s h) }

module _ {S : Type 0} {P : S → Type 0} where
  pub Keeps-modify : (f : S → S) → ((s : S) → P s → P (f s)) → Keeps P (modify f)
  unfolding modify
  Keeps-modify f h = record { after = h }

module _ {S A B : Type 0} {P : S → Type 0} where
  next-Keeps :
      (k : A → Task S B) (r : Outcome A × S)
      → ((a : A) → Keeps P (k a))
      → Ends (λ a. P) (λ status. P) r
      → Ends (λ b. P) (λ status. P) (next k r)
  next-Keeps k (success a, s) x h = (x a).after s h
  next-Keeps k (error status, s) x h = h

  pub Keeps-bind :
      {m : Task S A} {k : A → Task S B} → Keeps P m → ((a : A) → Keeps P (k a)) → Keeps P (m >>= k)
  unfolding ◌>>=◌
  Keeps-bind {m} {k} x y = record { after = λ s h. next-Keeps k (m s) y (x.after s h) }

  result-Keeps :
      (k : Outcome A → Task S B) (r : Outcome A × S)
      → ((o : Outcome A) → Keeps P (k o))
      → Ends (λ a. P) (λ status. P) r
      → Ends (λ b. P) (λ status. P) (after_outcome k r)
  result-Keeps k (success a, s) x h = (x (success a)).after s h
  result-Keeps k (error status, s) x (e, h) = (x (error status)).after s h

  pub Keeps-outcome_of :
      {m : Task S A} {k : Outcome A → Task S B}
      → Keeps P m
      → ((o : Outcome A) → Keeps P (k o))
      → Keeps P (outcome_of m k)
  unfolding outcome_of
  Keeps-outcome_of {m} {k} x y = record { after = λ s h. result-Keeps k (m s) y (x.after s h) }

pub ruleset keeps_rules = (
  Keeps-pure, Keeps-fails, Keeps-get, Keeps-if, Keeps-ignore, Keeps-bind, Keeps-outcome_of,
  Keeps-on_error,
)

module _ {S A : Type 0} {P : S → Type 0} where
  -- What is kept may be read as a postcondition.
  pub Keeps-Ensures : {m : Task S A} → Keeps P m → Ensures P m (λ a. P) (λ status. P)
  Keeps-Ensures x = record { runs = x.after }

module _ {S A : Type 0} {P : S → Type 0} {Good : A → S → Type 0} where
  keep-Ends :
      (r : Outcome A × S)
      → ((a : A) (s : S) → Good a s → P s)
      → Ends Good (λ status. P) r
      → Ends (λ a. P) (λ status. P) r
  keep-Ends (success a, s) g h = g a s h
  keep-Ends (error status, s) g h = h

  pub Keeps-weaken :
      {m : Task S A}
      → ((a : A) (s : S) → Good a s → P s)
      → Ensures P m Good (λ status. P)
      → Keeps P m
  Keeps-weaken {m} g x = record { after = λ s h. keep-Ends (m s) g (x.runs s h) }

module _ {S A : Type 0} (Good : A → S → Type 0) (Bad : ℕ → S → Type 0) where
  note-Ends :
      {Fine : A → S → Type 0} {Late : ℕ → S → Type 0} (f : ℕ → S → S) (r : Outcome A × S)
      → ((a : A) (s : S) → Fine a s → Good a (f 0 s))
      → ((status : ℕ) (s : S) → IsError status → Late status s → Bad status (f status s))
      → Ends Fine Late r
      → Ends Good Bad (note_status f r)
  note-Ends f (success a, s) g b h = g a s h
  note-Ends f (error status, s) g b (e, h) = (e, b status s e h)

module _ {S A : Type 0} (After : S → Type 0) where
  forget-Ends :
      {Good : A → S → Type 0} {Bad : ℕ → S → Type 0} (r : Outcome A × S)
      → ((a : A) (s : S) → Good a s → After s)
      → ((status : ℕ) (s : S) → IsError status → Bad status s → After s)
      → Ends Good Bad r
      → After r.1
  forget-Ends (success a, s) g b h = g a s h
  forget-Ends (error status, s) g b (e, h) = b status s e h

module _ {S A : Type 0} {After : S → Type 0} {Bad : ℕ → S → Type 0} where
  pub Ensures-ignore :
      {P : S → Type 0} {Fine : A → S → Type 0} {Late : ℕ → S → Type 0} {m : Task S A}
      → Ensures P m Fine Late
      → ((a : A) (s : S) → Fine a s → After s)
      → ((status : ℕ) (s : S) → IsError status → Late status s → After s)
      → Ensures P (ignore m) (λ u. After) Bad
  unfolding ignore
  Ensures-ignore {m = m} x g b = record { runs = λ s h. forget-Ends After (m s) g b (x.runs s h) }

module _ {S A : Type 0} {Good : A → S → Type 0} {Bad : ℕ → S → Type 0} where
  pub Ensures-fails :
      {P : S → Type 0} (status : ℕ)
      → IsError status
      → ((s : S) → P s → Bad status s)
      → Ensures P (fails status) Good Bad
  unfolding fails
  Ensures-fails status e h = record { runs = λ s p. (e, h s p) }

  pub Ensures-pure :
      {P : S → Type 0} (a : A) → ((s : S) → P s → Good a s) → Ensures P (pure a) Good Bad
  unfolding pure
  Ensures-pure a h = record { runs = h }

  pub Ensures-if :
      {P : S → Type 0} (b : Bool) {m n : Task S A}
      → (b ≡ true → Ensures P m Good Bad)
      → (b ≡ false → Ensures P n Good Bad)
      → Ensures P (if b then m else n) Good Bad
  Ensures-if true x y = x refl
  Ensures-if false x y = y refl

  -- A test whose result is known.
  pub Ensures-else :
      {P : S → Type 0} (b : Bool) (m : Task S A) {n : Task S A}
      → b ≡ false
      → Ensures P n Good Bad
      → Ensures P (if b then m else n) Good Bad
  Ensures-else true m e x = cc
  Ensures-else false m e x = x

  pub Ensures-then :
      {P : S → Type 0} (b : Bool) {m : Task S A} (n : Task S A)
      → b ≡ true
      → Ensures P m Good Bad
      → Ensures P (if b then m else n) Good Bad
  Ensures-then true n e x = x
  Ensures-then false n e x = cc

  handle-Ends :
      {Late : ℕ → S → Type 0} (k : ℕ → Task S A) (r : Outcome A × S)
      → ((status : ℕ) → IsError status → Ensures (Late status) (k status) Good Bad)
      → Ends Good Late r
      → Ends Good Bad (handle k r)
  handle-Ends k (success a, s) x h = h
  handle-Ends k (error status, s) x (e, h) = (x status e).runs s h

  pub Ensures-on_error :
      {P : S → Type 0} {Late : ℕ → S → Type 0} {m : Task S A} {k : ℕ → Task S A}
      → Ensures P m Good Late
      → ((status : ℕ) → IsError status → Ensures (Late status) (k status) Good Bad)
      → Ensures P (on_error m k) Good Bad
  unfolding on_error
  Ensures-on_error {m = m} {k = k} x y = record { runs = λ s h. handle-Ends k (m s) y (x.runs s h) }

  pub Ensures-noting :
      {P : S → Type 0} {Fine : A → S → Type 0} {Late : ℕ → S → Type 0} {m : Task S A}
      (f : ℕ → S → S)
      → Ensures P m Fine Late
      → ((a : A) (s : S) → Fine a s → Good a (f 0 s))
      → ((status : ℕ) (s : S) → IsError status → Late status s → Bad status (f status s))
      → Ensures P (noting m f) Good Bad
  unfolding noting
  Ensures-noting {m = m} f x g b = record {
    runs = λ s h. note-Ends Good Bad f (m s) g b (x.runs s h);
  }

  weaken-Ends :
      {Fine : A → S → Type 0} {Late : ℕ → S → Type 0} (r : Outcome A × S)
      → ((a : A) (s : S) → Fine a s → Good a s)
      → ((status : ℕ) (s : S) → Late status s → Bad status s)
      → Ends Fine Late r
      → Ends Good Bad r
  weaken-Ends (success a, s) g b h = g a s h
  weaken-Ends (error status, s) g b (e, h) = (e, b status s h)

  -- A weaker result follows from a stronger one.
  pub Ensures-weaken :
      {P : S → Type 0} {Fine : A → S → Type 0} {Late : ℕ → S → Type 0} {m : Task S A}
      → ((a : A) (s : S) → Fine a s → Good a s)
      → ((status : ℕ) (s : S) → Late status s → Bad status s)
      → Ensures P m Fine Late
      → Ensures P m Good Bad
  Ensures-weaken {m = m} g b x = record { runs = λ s h. weaken-Ends (m s) g b (x.runs s h) }

module _ {S A B : Type 0} {Middle : A → S → Type 0} {Good : B → S → Type 0}
    {Bad : ℕ → S → Type 0} where
  next-Ends :
      (k : A → Task S B) (r : Outcome A × S)
      → ((a : A) → Ensures (Middle a) (k a) Good Bad)
      → Ends Middle Bad r
      → Ends Good Bad (next k r)
  next-Ends k (success a, s) x h = (x a).runs s h
  next-Ends k (error status, s) x h = h

  pub Ensures-bind :
      {P : S → Type 0} {m : Task S A} {k : A → Task S B}
      → Ensures P m Middle Bad
      → ((a : A) → Ensures (Middle a) (k a) Good Bad)
      → Ensures P (m >>= k) Good Bad
  unfolding ◌>>=◌
  Ensures-bind {m = m} {k = k} x y = record { runs = λ s h. next-Ends k (m s) y (x.runs s h) }

module _ {S A B : Type 0} {Good : B → S → Type 0} {Bad : ℕ → S → Type 0} where
  -- A first step that keeps what is known.
  pub Ensures-after :
      {P : S → Type 0} {m : Task S A} {k : A → Task S B}
      → Keeps P m
      → ((status : ℕ) (s : S) → P s → Bad status s)
      → ((a : A) → Ensures P (k a) Good Bad)
      → Ensures P (m >>= k) Good Bad
  Ensures-after x b y = Ensures-bind (Ensures-weaken (λ a s h. h) b (Keeps-Ensures x)) y

module _ {S : Type 0} {P : S → Type 0} {Good : Unit {0} → S → Type 0} {Bad : ℕ → S → Type 0} where
  pub Ensures-modify : (f : S → S) → ((s : S) → P s → Good tt (f s)) → Ensures P (modify f) Good Bad
  unfolding modify
  Ensures-modify f h = record { runs = h }

module _ {S A B : Type 0} {P : S → Type 0} {Good : B → S → Type 0} {Bad : ℕ → S → Type 0} where
  -- A field whose value is known.
  pub Ensures-get :
      (f : S → A) (a : A) (k : A → Task S B)
      → ((s : S) → P s → f s ≡ a)
      → Ensures P (k a) Good Bad
      → Ensures P (get f >>= k) Good Bad
  unfolding ◌>>=◌
  Ensures-get f a k known x = record {
    runs = λ s h. subst (λ v. Ends Good Bad (k v s)) (sym (known s h)) (x.runs s h);
  }

  -- A field, and what it is.
  pub Ensures-look :
      (f : S → A) (k : A → Task S B)
      → ((a : A) → Ensures (λ s. P s × (f s ≡ a)) (k a) Good Bad)
      → Ensures P (get f >>= k) Good Bad
  unfolding ◌>>=◌
  Ensures-look f k x = record { runs = λ s h. (x (f s)).runs s (h, refl) }

pub ruleset ensures_rules = (Ensures-pure, Ensures-fails, Ensures-if, Ensures-after, Ensures-modify)
