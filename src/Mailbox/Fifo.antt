-- ===== src/Mailbox/Fifo.antt =====
-- The mailbox of src/driver/diag_mailbox.h as a queue of two.
use rpi5_wifi_driver_win11ar.Prelude.{
  ℕ, ◌+◌, ◌%◌, ◌^◌, ◌≡◌, refl, sym, Bool, true, false, List, [], ◌∷◌, ◌++◌, subst,
}
use mathlib.Core.List.{append-nil, append_assoc}
use rpi5_wifi_driver_win11ar.Mailbox.{
  Step, begin_step, fill_step, publish_step, take_step, release_step, Threads, at_index, put_index,
  is_free, is_ready, diag_begin, diag_publish, diag_take, diag_release, fill, mailbox_step,
  run_steps,
}
use rpi5_wifi_driver_win11ar.Mailbox.Loads.{
  waiting, Load, empty, single, full, threads_of, Reached, reach, relisted, waiting-contents,
}

module _ {T : Type 0} (reset : T → T) where
  begin-Reached :
      (l : Load) (c : Bool) (a b : T) (k : ℕ) (ws : List T)
      → Reached (mailbox_step reset (threads_of l c a b k ws) begin_step)
  unfolding mailbox_step diag_begin at_index put_index is_free
  begin-Reached (empty true) c a b k ws = reach (empty true) c a b k ws refl
  begin-Reached (empty false) true a b k ws = reach (empty true) true (reset a) b k ws refl
  begin-Reached (empty false) false a b k ws = reach (empty true) false (reset a) b k ws refl
  begin-Reached (single true w) c a b k ws = reach (single true w) c a b k ws refl
  begin-Reached (single false w) true a b k ws = reach (single true w) true a (reset b) k ws refl
  begin-Reached (single false w) false a b k ws = reach (single true w) false a (reset b) k ws refl
  begin-Reached (full true) true a b k ws = reach (full true) true a b ((k + 1) % 2 ^ 32) ws refl
  begin-Reached (full true) false a b k ws = reach (full true) false a b ((k + 1) % 2 ^ 32) ws refl
  begin-Reached (full false) true a b k ws = reach (full false) true a b ((k + 1) % 2 ^ 32) ws refl
  begin-Reached (full false) false a b k ws =
      reach (full false) false a b ((k + 1) % 2 ^ 32) ws refl

  fill-Reached :
      (x : T) (l : Load) (c : Bool) (a b : T) (k : ℕ) (ws : List T)
      → Reached (mailbox_step reset (threads_of l c a b k ws) (fill_step x))
  unfolding mailbox_step fill put_index
  fill-Reached x (empty true) true a b k ws = reach (empty true) true x b k ws refl
  fill-Reached x (empty true) false a b k ws = reach (empty true) false x b k ws refl
  fill-Reached x (empty false) c a b k ws = reach (empty false) c a b k ws refl
  fill-Reached x (single true w) true a b k ws = reach (single true w) true a x k ws refl
  fill-Reached x (single true w) false a b k ws = reach (single true w) false a x k ws refl
  fill-Reached x (single false w) c a b k ws = reach (single false w) c a b k ws refl
  fill-Reached x (full w) c a b k ws = reach (full w) c a b k ws refl

  publish-Reached :
      (l : Load) (c : Bool) (a b : T) (k : ℕ) (ws : List T)
      → Reached (mailbox_step reset (threads_of l c a b k ws) publish_step)
  unfolding mailbox_step diag_publish at_index put_index
  publish-Reached (empty true) true a b k ws =
      relisted (single false false) true a b k ws (append_assoc ws [] (a ∷ [])) refl
  publish-Reached (empty true) false a b k ws =
      relisted (single false false) false a b k ws (append_assoc ws [] (a ∷ [])) refl
  publish-Reached (empty false) c a b k ws = reach (empty false) c a b k ws refl
  publish-Reached (single true w) true a b k ws =
      relisted (full w) true a b k ws (append_assoc ws (a ∷ []) (b ∷ [])) refl
  publish-Reached (single true w) false a b k ws =
      relisted (full w) false a b k ws (append_assoc ws (a ∷ []) (b ∷ [])) refl
  publish-Reached (single false w) c a b k ws = reach (single false w) c a b k ws refl
  publish-Reached (full w) c a b k ws = reach (full w) c a b k ws refl

  take-Reached :
      (l : Load) (c : Bool) (a b : T) (k : ℕ) (ws : List T)
      → Reached (mailbox_step reset (threads_of l c a b k ws) take_step)
  unfolding mailbox_step diag_take at_index put_index is_ready
  take-Reached (empty true) true a b k ws = reach (empty true) true a b k ws refl
  take-Reached (empty true) false a b k ws = reach (empty true) false a b k ws refl
  take-Reached (empty false) true a b k ws = reach (empty false) true a b k ws refl
  take-Reached (empty false) false a b k ws = reach (empty false) false a b k ws refl
  take-Reached (single p true) c a b k ws = reach (single p true) c a b k ws refl
  take-Reached (single p false) true a b k ws = reach (single p true) true a b k ws refl
  take-Reached (single p false) false a b k ws = reach (single p true) false a b k ws refl
  take-Reached (full true) c a b k ws = reach (full true) c a b k ws refl
  take-Reached (full false) true a b k ws = reach (full true) true a b k ws refl
  take-Reached (full false) false a b k ws = reach (full true) false a b k ws refl

  release-Reached :
      (l : Load) (c : Bool) (a b : T) (k : ℕ) (ws : List T)
      → Reached (mailbox_step reset (threads_of l c a b k ws) release_step)
  unfolding mailbox_step diag_release at_index put_index
  release-Reached (empty p) c a b k ws = reach (empty p) c a b k ws refl
  release-Reached (single p true) true a b k ws =
      relisted (empty p) false b a k (ws ++ (a ∷ [])) (sym (append-nil (ws ++ (a ∷ [])))) refl
  release-Reached (single p true) false a b k ws =
      relisted (empty p) true b a k (ws ++ (a ∷ [])) (sym (append-nil (ws ++ (a ∷ [])))) refl
  release-Reached (single p false) c a b k ws = reach (single p false) c a b k ws refl
  release-Reached (full true) true a b k ws =
      relisted (single false false) false b a k (ws ++ (a ∷ []))
        (sym (append_assoc ws (a ∷ []) (b ∷ []))) refl
  release-Reached (full true) false a b k ws =
      relisted (single false false) true b a k (ws ++ (a ∷ []))
        (sym (append_assoc ws (a ∷ []) (b ∷ []))) refl
  release-Reached (full false) c a b k ws = reach (full false) c a b k ws refl

  step-Reached :
      (s : Step T) (l : Load) (c : Bool) (a b : T) (k : ℕ) (ws : List T)
      → Reached (mailbox_step reset (threads_of l c a b k ws) s)
  step-Reached begin_step = begin-Reached
  step-Reached (fill_step x) = fill-Reached x
  step-Reached publish_step = publish-Reached
  step-Reached take_step = take-Reached
  step-Reached release_step = release-Reached

  run_steps-Reached :
      (ss : List (Step T)) (t : Threads T) → Reached t → Reached (run_steps reset t ss)
  unfolding run_steps
  run_steps-Reached [] t r = r
  run_steps-Reached (s ∷ ss) t r = run_steps-Reached ss (mailbox_step reset t s) (
      subst (λ (x : Threads T). Reached (mailbox_step reset x s)) (sym r.is)
        (step-Reached s r.load r.index r.oldest r.newest r.count r.done))

-- CYW_DIAG_MAILBOX after its allocation, whose buffers hold anything, and two threads without one.
abbrev pub fresh : {T : Type 0} → T → T → Threads T
fresh a b = threads_of (empty false) false a b 0 []

-- Whatever the order of the steps of the two threads, what was written out, followed by the buffers
-- that wait, is what was published, in its order and with its contents.
pub published-run_steps :
    {T : Type 0} (reset : T → T) (a b : T) (ss : List (Step T))
    → let t = run_steps reset (fresh a b) ss in t.published ≡ t.written ++ waiting t.mailbox
published-run_steps reset a b ss =
    let r = run_steps-Reached reset ss (fresh a b) (reach (empty false) false a b 0 [] refl) in
    subst (λ (x : Threads _). x.published ≡ x.written ++ waiting x.mailbox) (sym r.is)
      (waiting-contents r.load r.index r.oldest r.newest r.count r.done)
