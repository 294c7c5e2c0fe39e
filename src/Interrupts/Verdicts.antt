-- ===== src/Interrupts/Verdicts.antt =====
-- What one call of Rpi5CywInterruptRearm of src/driver/driver.c does to the streak, by what the pass
-- has shown.
use rpi5_wifi_driver_win11ar.Prelude.{
  ℕ, ◌+◌, ◌≤◌, ◌<◌, ◌≡◌, inl, inr, refl, ◌∙◌, Bool, true, false, not, ◌&&◌, ◌||◌, Option, none,
  some, List, [], ◌∷◌, ◌++◌, leb, ltb, inc32, ◌!=◌, if◌then◌else◌, arith, Bool-cases, each_branch,
}
use rpi5_wifi_driver_win11ar.Interrupts.{
  pending_functions, next_empty_wake_streak, use_polling_fallback,
}
use rpi5_wifi_driver_win11ar.Interrupts.Rearm.{
  InterruptState, Pass, rearm_sync, fall_back_to_polls, note_pending, settle_streak, take_pending,
  is_idle, interrupt_rearm,
}

-- The register is read at the end of the pass.
abbrev pub is_read : Pass → Bool
is_read p =
    p.registered
    && (p.has_handle && (not p.stopped && (p.has_network && (p.needs_rearm && p.passive))))

-- What a pass says about a storm of interrupts: nothing; that the register cannot be read; that the
-- interrupt is wanted; or that an interrupt woke the worker for nothing.
pub data Verdict : Type 0 where
  neutral : Verdict
  unreadable : Verdict
  wanted : Verdict
  wasted : Verdict

abbrev verdict_of : Bool → Bool → Option ℕ → Verdict
verdict_of interrupt_wake useful_work none = unreadable
verdict_of interrupt_wake useful_work (some pending) =
    if pending_functions pending != 0
    then wanted
    else if not interrupt_wake
    then neutral
    else if useful_work
    then wanted
    else wasted

abbrev pub verdict : Pass → Verdict
verdict p = if is_read p then verdict_of p.interrupt_wake p.useful_work p.answer else neutral

abbrev pub waste : Verdict → ℕ
waste neutral = 0
waste unreadable = 0
waste wanted = 0
waste wasted = 1

abbrev pub Unwanted : Verdict → Type 0
Unwanted neutral = Unit {0}
Unwanted unreadable = ⊥
Unwanted wanted = ⊥
Unwanted wasted = Unit {0}

-- In none of the passes is the interrupt wanted or the register unreadable.
abbrev pub Unbroken : List Pass → Type 0
Unbroken [] = Unit {0}
Unbroken (p ∷ ps) = Unwanted (verdict p) × Unbroken ps

abbrev pub wasted_wakes : List Pass → ℕ
wasted_wakes [] = 0
wasted_wakes (p ∷ ps) = waste (verdict p) + wasted_wakes ps

-- The register could not be read at the end of some pass.
abbrev pub HasFailure : List Pass → Type 0
HasFailure ps =
    (before : List Pass) × (p : Pass) × (after : List Pass) × (ps ≡ before ++ (p ∷ after))
    × (verdict p ≡ unreadable)

-- Some stretch of the passes holds 32 wasted wakes, and none of it wants the interrupt.
abbrev pub HasStorm : List Pass → Type 0
HasStorm ps =
    (before : List Pass) × (stretch : List Pass) × (after : List Pass) × (ps
      ≡ before ++ (stretch ++ after))
    × Unbroken stretch
    × (32 ≤ wasted_wakes stretch)

-- What a pass makes of the streak of a worker that has not fallen back.
unfoldable pub Follows : Verdict → ℕ → InterruptState → Type 0
Follows neutral k t = (t.storm_fallback ≡ false) × (t.empty_wake_streak ≡ k)
Follows unreadable k t = t.storm_fallback ≡ true
Follows wanted k t = (t.storm_fallback ≡ false) × (t.empty_wake_streak ≡ 0)
Follows wasted k t = (t.storm_fallback ≡ leb 32 (k + 1)) × (t.empty_wake_streak ≡ k + 1)

-- The synchronized part leaves the streak and the fallback alone.
abbrev Counted : InterruptState → ℕ → InterruptState → Type 0
Counted s k t = (t.storm_fallback ≡ s.storm_fallback) × (t.empty_wake_streak ≡ k)

rearm_sync-Counted :
    (s : InterruptState) (p : Pass) → Counted s s.empty_wake_streak (rearm_sync s p)
unfolding rearm_sync
rearm_sync-Counted s p =
    each_branch (Counted s s.empty_wake_streak)
      (not p.sync_has_registers || (p.sync_stopped || (not p.sync_has_network || s.storm_fallback)))
      (λ e. (refl, refl)) (λ e. (refl, refl))

-- A streak below the limit: the functions decide.
wanted_from :
    (s : InterruptState) (p : Pass) (functions k streak : ℕ)
    → s.storm_fallback ≡ false
    → streak < 32
    → (functions != 0) ≡ true
    → Follows wanted k (settle_streak s p functions streak)
unfolding Follows settle_streak use_polling_fallback
wanted_from s p functions k streak f l w =
    let below : leb 32 streak ≡ false = ground (arith, l) in rw (below, w) (f, refl)

settle-quiet :
    (s : InterruptState) (p : Pass) (functions streak : ℕ)
    → s.storm_fallback ≡ false
    → streak < 32
    → (functions != 0) ≡ false
    → Follows neutral streak (settle_streak s p functions streak)
unfolding Follows settle_streak use_polling_fallback
settle-quiet s p functions streak f l w =
    let below : leb 32 streak ≡ false = ground (arith, l) in
    let c = rearm_sync-Counted (record s { empty_wake_streak = streak }) p in
    rw (below, w) (c.0 ∙ f, c.1)

-- A streak of zero without functions is what is left when the interrupt was wanted.
zero_from :
    (s : InterruptState) (p : Pass) (functions k : ℕ)
    → s.storm_fallback ≡ false
    → (functions != 0) ≡ false
    → Follows wanted k (settle_streak s p functions 0)
unfolding Follows
zero_from s p functions k f w = settle-quiet s p functions 0 f (omega arith) w

settle-wasted :
    (s : InterruptState) (p : Pass) (functions k : ℕ)
    → s.storm_fallback ≡ false
    → (functions != 0) ≡ false
    → Follows wasted k (settle_streak s p functions (k + 1))
unfolding Follows settle_streak use_polling_fallback fall_back_to_polls
settle-wasted s p functions k f w = elim (Bool-cases (leb 32 (k + 1))) [
  | inl e ↦ rw e (refl, refl)
  | inr e ↦
      let c = rearm_sync-Counted (record s { empty_wake_streak = k + 1 }) p in
      rw (e, w) (c.0 ∙ f, c.1)
]

-- The streak that the policy gives, settled.
judged :
    (s : InterruptState) (p : Pass) (interrupt_wake useful_work : Bool) (pending k : ℕ)
    → s.storm_fallback ≡ false
    → k < 32
    → Follows (verdict_of interrupt_wake useful_work (some pending)) k (
        settle_streak s p
          (pending_functions pending)
          (next_empty_wake_streak interrupt_wake useful_work pending k))
unfolding next_empty_wake_streak
judged s p false useful pending k f l = elim (Bool-cases (pending_functions pending != 0)) [
  | inl w ↦ rw w (wanted_from s p (pending_functions pending) k k f l w)
  | inr w ↦ rw w (settle-quiet s p (pending_functions pending) k f l w)
]
judged s p true true pending k f l = elim (Bool-cases (pending_functions pending != 0)) [
  | inl w ↦ rw w (wanted_from s p (pending_functions pending) k 0 f (omega arith) w)
  | inr w ↦ rw w (zero_from s p (pending_functions pending) k f w)
]
judged s p true false pending k f l = elim (Bool-cases (pending_functions pending != 0)) [
  | inl w ↦ rw w (wanted_from s p (pending_functions pending) k 0 f (omega arith) w)
  | inr w ↦
      let more : ltb k 32 ≡ true = ground (arith, l) in
      rw (w, more) (settle-wasted s p (pending_functions pending) k f w)
]

take_pending-Follows :
    (s : InterruptState) (p : Pass) (o : Option ℕ)
    → s.storm_fallback ≡ false
    → s.empty_wake_streak < 32
    → Follows (verdict_of p.interrupt_wake p.useful_work o) s.empty_wake_streak (take_pending s p o)
unfolding Follows take_pending fall_back_to_polls note_pending
take_pending-Follows s p none f l = refl
take_pending-Follows s p (some pending) f l =
    judged (note_pending s p (pending_functions pending)) p p.interrupt_wake p.useful_work pending
      s.empty_wake_streak f l

left_alone :
    (s : InterruptState) (p : Pass)
    → s.storm_fallback ≡ false
    → is_read p ≡ false
    → s.needs_rearm ≡ p.needs_rearm
    → Follows neutral s.empty_wake_streak (interrupt_rearm s p)
unfolding Follows interrupt_rearm is_idle
left_alone s p f r n =
    each_branch
      (λ (t : InterruptState).
        (t.storm_fallback ≡ false) × (t.empty_wake_streak ≡ s.empty_wake_streak))
      (is_idle s p) (λ e. (f, refl))
      (λ e.
        each_branch
          (λ (t : InterruptState).
            (t.storm_fallback ≡ false) × (t.empty_wake_streak ≡ s.empty_wake_streak))
          (not p.passive) (λ g. (f, refl)) (λ g. absurd (ground (arith, e, g, r, f, n))))

pub interrupt_rearm-Follows :
    (s : InterruptState) (p : Pass)
    → s.storm_fallback ≡ false
    → s.empty_wake_streak < 32
    → s.needs_rearm ≡ p.needs_rearm
    → Follows (verdict p) s.empty_wake_streak (interrupt_rearm s p)
unfolding interrupt_rearm is_idle
interrupt_rearm-Follows s p f l n = elim (Bool-cases (is_read p)) [
  | inl r ↦
      let Judged =
        Follows (verdict_of p.interrupt_wake p.useful_work p.answer) s.empty_wake_streak in
      let read = record s { pending_reads = inc32 s.pending_reads } in
      rw r (
        each_branch Judged (is_idle s p) (λ e. absurd (ground (arith, e, r, f, n)))
          (λ e.
            each_branch Judged (not p.passive) (λ g. absurd (ground (arith, g, r)))
              (λ g. take_pending-Follows read p p.answer f l)))
  | inr r ↦ rw r (left_alone s p f r n)
]

-- A worker that has fallen back stays so.
pub interrupt_rearm-latched :
    (s : InterruptState) (p : Pass)
    → s.storm_fallback ≡ true
    → (interrupt_rearm s p).storm_fallback ≡ true
unfolding interrupt_rearm is_idle
interrupt_rearm-latched s p f = let idle : is_idle s p ≡ true = ground (arith, f) in rw idle f
