-- ===== src/Interrupts/Fallback.antt =====
-- When the worker of src/driver/driver.c gives up on interrupts, told by the calls of
-- Rpi5CywInterruptRearm and without its streak.
use rpi5_wifi_driver_win11ar.Prelude.{
  ℕ, ◌+◌, ◌≤◌, ◌<◌, ◌≡◌, ◌↔◌, ◌⊎◌, inl, inr, refl, sym, ap, ◌∙◌, Bool, true, false, List, [], ◌∷◌,
  ◌++◌, leb, if◌then◌else◌, arith, Bool-cases, subst,
}
use mathlib.Core.List.{append_assoc}
use rpi5_wifi_driver_win11ar.Interrupts.Rearm.{
  InterruptState, Pass, reset_runtime, interrupt_rearm, worker_passes,
}
use rpi5_wifi_driver_win11ar.Interrupts.Verdicts.{
  Verdict, neutral, unreadable, wanted, wasted, verdict, waste, Unwanted, Unbroken, wasted_wakes,
  HasFailure, HasStorm, Follows, interrupt_rearm-Follows, interrupt_rearm-latched,
}

abbrev Reason : List Pass → Type 0
Reason ps = HasFailure ps ⊎ HasStorm ps

-- Whether the passes lead to the fallback, from a streak.
abbrev by_verdict : Verdict → (ℕ → Bool) → ℕ → Bool
by_verdict neutral rest k = rest k
by_verdict unreadable rest k = true
by_verdict wanted rest k = rest 0
by_verdict wasted rest k = if leb 32 (k + 1) then true else rest (k + 1)

abbrev falls : List Pass → ℕ → Bool
falls [] k = false
falls (p ∷ ps) k = by_verdict (verdict p) (falls ps) k

worker_passes-latched :
    (ps : List Pass) (s : InterruptState)
    → s.storm_fallback ≡ true
    → (worker_passes s ps).storm_fallback ≡ true
unfolding worker_passes
worker_passes-latched [] s f = f
worker_passes-latched (p ∷ ps) s f =
    worker_passes-latched ps _
      (interrupt_rearm-latched (record s { needs_rearm = p.needs_rearm }) p f)

-- One pass, and what the later ones make of its result.
after_pass :
    (v : Verdict) (k : ℕ) (t : InterruptState) (ps : List Pass)
    → k < 32
    → Follows v k t
    → (t.storm_fallback ≡ false
        → t.empty_wake_streak < 32
        → (worker_passes t ps).storm_fallback ≡ falls ps t.empty_wake_streak)
    → (worker_passes t ps).storm_fallback ≡ by_verdict v (falls ps) k
unfolding Follows
after_pass neutral k t ps l (f, e) rest = rest f (omega (arith, e)) ∙ ap (falls ps) e
after_pass unreadable k t ps l f rest = worker_passes-latched ps t f
after_pass wanted k t ps l (f, e) rest = rest f (omega (arith, e)) ∙ ap (falls ps) e
after_pass wasted k t ps l (f, e) rest = elim (Bool-cases (leb 32 (k + 1))) [
  | inl b ↦ rw b (worker_passes-latched ps t (f ∙ b))
  | inr b ↦ rw b (rest (f ∙ b) (ground (arith, e, b)) ∙ ap (falls ps) e)
]

worker_passes-falls :
    (ps : List Pass) (s : InterruptState)
    → s.storm_fallback ≡ false
    → s.empty_wake_streak < 32
    → (worker_passes s ps).storm_fallback ≡ falls ps s.empty_wake_streak
unfolding worker_passes
worker_passes-falls [] s f l = f
worker_passes-falls (p ∷ ps) s f l =
    let start = record s { needs_rearm = p.needs_rearm } in
    after_pass (verdict p) s.empty_wake_streak (interrupt_rearm start p) ps l
      (interrupt_rearm-Follows start p f l refl) (worker_passes-falls ps (interrupt_rearm start p))

-- Passes before a stretch that leads to the fallback from any streak do not prevent it.
falls_step :
    (v : Verdict) (rest : ℕ → Bool) (k : ℕ)
    → k < 32
    → ((j : ℕ) → j < 32 → rest j ≡ true)
    → by_verdict v rest k ≡ true
falls_step neutral rest k l h = h k l
falls_step unreadable rest k l h = refl
falls_step wanted rest k l h = h 0 (omega arith)
falls_step wasted rest k l h = elim (Bool-cases (leb 32 (k + 1))) [
  | inl b ↦ rw b refl
  | inr b ↦ rw b (h (k + 1) (ground (arith, b)))
]

falls_later :
    (before rest : List Pass)
    → ((j : ℕ) → j < 32 → falls rest j ≡ true)
    → (k : ℕ) → k < 32
    → falls (before ++ rest) k ≡ true
falls_later [] rest h k l = h k l
falls_later (p ∷ before) rest h k l =
    falls_step (verdict p) (falls (before ++ rest)) k l (falls_later before rest h)

stretch_step :
    (v : Verdict) (rest : ℕ → Bool) (k more : ℕ)
    → Unwanted v
    → k < 32
    → 32 ≤ k + (waste v + more)
    → ((j : ℕ) → j < 32 → 32 ≤ j + more → rest j ≡ true)
    → by_verdict v rest k ≡ true
stretch_step neutral rest k more u l e h = h k l (omega arith)
stretch_step unreadable rest k more u l e h = absurd u
stretch_step wanted rest k more u l e h = absurd u
stretch_step wasted rest k more u l e h = elim (Bool-cases (leb 32 (k + 1))) [
  | inl b ↦ rw b refl
  | inr b ↦ rw b (h (k + 1) (ground (arith, b)) (omega (arith, e)))
]

falls_stretch :
    (stretch after : List Pass) (k : ℕ)
    → Unbroken stretch
    → k < 32
    → 32 ≤ k + wasted_wakes stretch
    → falls (stretch ++ after) k ≡ true
falls_stretch [] after k u l e = absurd (omega arith)
falls_stretch (p ∷ stretch) after k (v, u) l e =
    stretch_step (verdict p) (falls (stretch ++ after)) k (wasted_wakes stretch) v l e
      (λ j m d. falls_stretch stretch after j u m d)

Reason-falls : (ps : List Pass) → Reason ps → falls ps 0 ≡ true
Reason-falls ps (inl (before, p, after, e, v)) =
    ap (λ qs. falls qs 0) e
    ∙ falls_later before (p ∷ after) (λ j l. ap (λ w. by_verdict w (falls after) j) v) 0
        (omega arith)
Reason-falls ps (inr (before, stretch, after, e, u, many)) =
    ap (λ qs. falls qs 0) e
    ∙ falls_later before (stretch ++ after)
        (λ j l. falls_stretch stretch after j u l (omega (arith, many))) 0 (omega arith)

-- The other way: the stretch is what has passed since the interrupt was last wanted.
later_Reason :
    (past : List Pass) (p : Pass) (ps : List Pass) → Reason ps → Reason (past ++ (p ∷ ps))
later_Reason past p ps (inl (before, q, after, e, v)) = inl (
  past ++ (p ∷ before),
  q,
  after,
  ap (λ qs. past ++ (p ∷ qs)) e ∙ sym (append_assoc past (p ∷ before) (q ∷ after)),
  v,
)
later_Reason past p ps (inr (before, stretch, after, e, u, many)) = inr (
  past ++ (p ∷ before),
  stretch,
  after,
  ap (λ qs. past ++ (p ∷ qs)) e ∙ sym (append_assoc past (p ∷ before) (stretch ++ after)),
  u,
  many,
)

Unbroken-append :
    (past : List Pass) (p : Pass)
    → Unbroken past
    → Unwanted (verdict p)
    → Unbroken (past ++ (p ∷ []))
Unbroken-append [] p u v = (v, tt)
Unbroken-append (q ∷ past) p (w, u) v = (w, Unbroken-append past p u v)

wasted_wakes-append :
    (past : List Pass) (p : Pass)
    → wasted_wakes (past ++ (p ∷ [])) ≡ wasted_wakes past + waste (verdict p)
wasted_wakes-append [] p = omega arith
wasted_wakes-append (q ∷ past) p = omega (arith, wasted_wakes-append past p)

-- One more pass that the stretch takes in.
longer :
    (past : List Pass) (p : Pass) (ps : List Pass)
    → Reason ((past ++ (p ∷ [])) ++ ps)
    → Reason (past ++ (p ∷ ps))
longer past p ps r = subst Reason (append_assoc past (p ∷ []) ps) r

otherwise : (b x : Bool) → b ≡ false → (if b then true else x) ≡ true → x ≡ true
otherwise b x e h = ground arith

one_pass :
    (p : Pass) (ps past : List Pass) (k : ℕ) (v : Verdict)
    → verdict p ≡ v
    → Unbroken past
    → wasted_wakes past ≡ k
    → ((qs : List Pass) (j : ℕ)
        → Unbroken qs
        → wasted_wakes qs ≡ j
        → falls ps j ≡ true
        → Reason (qs ++ ps))
    → by_verdict v (falls ps) k ≡ true
    → Reason (past ++ (p ∷ ps))
one_pass p ps past k neutral e u w rest h = longer past p ps (
    rest (past ++ (p ∷ [])) k (Unbroken-append past p u (subst Unwanted (sym e) tt))
      (wasted_wakes-append past p ∙ omega (arith, w, ap waste e)) h)
one_pass p ps past k unreadable e u w rest h = inl (past, p, ps, refl, e)
one_pass p ps past k wanted e u w rest h = later_Reason past p ps (rest [] 0 tt refl h)
one_pass p ps past k wasted e u w rest h =
    let grown = Unbroken-append past p u (subst Unwanted (sym e) tt) in
    let count : wasted_wakes (past ++ (p ∷ [])) ≡ k + 1 =
      wasted_wakes-append past p ∙ omega (arith, w, ap waste e) in
    elim (Bool-cases (leb 32 (k + 1))) [
      | inl b ↦ inr (
        [],
        past ++ (p ∷ []),
        ps,
        sym (append_assoc past (p ∷ []) ps),
        grown,
        ground (arith, count, b),
      )
      | inr b ↦ longer past p ps (rest (past ++ (p ∷ [])) (k + 1) grown count (otherwise _ _ b h))
    ]

falls-Reason :
    (ps past : List Pass) (k : ℕ)
    → Unbroken past
    → wasted_wakes past ≡ k
    → falls ps k ≡ true
    → Reason (past ++ ps)
falls-Reason [] past k u w h = absurd (ground arith)
falls-Reason (p ∷ ps) past k u w h = one_pass p ps past k (verdict p) refl u w (falls-Reason ps) h

-- After Rpi5CywInterruptResetRuntime, and whatever InterruptNeedsRearm is at each later call of
-- Rpi5CywInterruptRearm, InterruptStormFallback is set exactly when the pending register could not be
-- read in some pass, or when some stretch of the passes holds 32 wakes by interrupt that read the
-- register, did no useful work and found no function pending, while no pass of the stretch fails to
-- read, finds a function pending, or is a useful wake by interrupt. A pass reads the register when the
-- interrupt is registered and has a handle, the adapter is not stopped and has a network,
-- InterruptNeedsRearm is set, and the level is PASSIVE_LEVEL; other passes count for nothing.
pub storm_fallback_lem :
    (s : InterruptState) (ps : List Pass)
    → ((worker_passes (reset_runtime s) ps).storm_fallback ≡ true) ↔ (HasFailure ps ⊎ HasStorm ps)
unfolding reset_runtime
storm_fallback_lem s ps =
    let run = worker_passes-falls ps (reset_runtime s) refl (omega arith) in
    (λ h. falls-Reason ps [] 0 tt refl (sym run ∙ h), λ r. run ∙ Reason-falls ps r)
