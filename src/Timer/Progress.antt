-- ===== src/Timer/Progress.antt =====
-- src/timer.c: the steps that a reachable state has.
use os.Prelude.{
  ℕ, ◌<◌, ◌≡◌, ◌≢◌, refl, ◌⊎◌, inl, inr, Bool, true, false, ◌||◌, some, ltb, ltb→lt, Bool-cases,
}
use os.Timer.{
  Phase, running, waiting, left, Device, TimerPc, check, scan, reset, exited, System, ready, pass,
  tick, scan_step, step_at, timer_step, Reach,
}
use os.Timer.Inv.{MarkAt, InvAt}
use os.Timer.Barrier.{Reach-Inv}

-- A device that can take a step by itself: it runs, or its wait in `next_slot` is over.
abbrev pub CanMove : Device → Type 0
CanMove d = (d.phase ≡ running) ⊎ (d.phase ≡ waiting) × (d.done ≡ false)

not_ready :
    (p : Phase) (b f : Bool)
    → (b || f) ≡ false
    → MarkAt p f
    → (p ≡ running) ⊎ (p ≡ waiting) × (b ≡ false)
not_ready running b f e m = inl refl
not_ready waiting true f e m = cc
not_ready waiting false f e m = inr (refl, refl)
not_ready left true f e m = cc
not_ready left false true e m = cc
not_ready left false false e m = cc

progress_at :
    (s : System) (pc : TimerPc)
    → InvAt s pc
    → pc ≢ exited
    → ((t : System) × (step_at s pc ≡ some t)) ⊎ ((i : ℕ) × (i < s.count) × CanMove (s.device i))
unfolding step_at scan_step ready
progress_at s check v n = inl (_, refl)
progress_at s (scan i fsh event) v n = elim (Bool-cases (ltb i s.count)) [
  | inl h ↦ elim (Bool-cases (ready (s.device i))) [
    | inl r ↦ inl (pass s i fsh event, rw (h, r) refl)
    | inr r ↦ inr (
      i,
      ltb→lt _ _ h,
      not_ready (s.device i).phase (s.device i).done (s.device i).fsh r (v.marks i (ltb→lt _ _ h)),
    )
  ]
  | inr h ↦ inl (tick s fsh event, rw h refl)
]
progress_at s (reset i fsh event) v n = inl (_, refl)
progress_at s exited v n = absurd (n refl)

-- As long as the timer thread has not ended, it can take a step, or a device that it waits for can.
pub Reach-progress :
    {s : System}
    → Reach s
    → s.pc ≢ exited
    → ((t : System) × (timer_step s ≡ some t)) ⊎ ((i : ℕ) × (i < s.count) × CanMove (s.device i))
unfolding timer_step
Reach-progress {s} r n = progress_at s s.pc (Reach-Inv r) n
