-- ===== src/Os/Synced/Passes.antt =====
-- src/os.c and src/timer.c: the passes of the processors and the slots of the timer.
use mathlib.Core.Path.{subst}
use os.Prelude.{
  ℕ, suc, ◌+◌, ◌<◌, ◌≡◌, inl, inr, refl, sym, ap, ◌∙◌, Bool-cases, ==_iff, ◌==◌, ltb, arith, none,
  some, some_inj, true, false, update,
}
use os.Loader.{Stdio}
use os.Timer.{
  System, Phase, Device, TimerPc, check, scan, reset, exited, running, waiting, left, tell_done,
  wake, detach_event, stop_timer, timer_step, step_at, scan_step, reset_step, start_timer, ready,
}
use os.Timer.Barrier.{Attached-fresh}
use os.Os.{Machine, Pass, slot_over, stopped}
use os.Os.Synced.{
  Synced, end_pass, after_turn, Step, clock, resume, turn, load, end_load, stop, Reach, begin,
  later,
}

-- What a step of the timer thread leaves of the devices.
record Same (s t : System) : Type 0 where
  count : t.count ≡ s.count
  phase : (k : ℕ) → (t.device k).phase ≡ (s.device k).phase
  slot : (k : ℕ) → (t.device k).slot ≡ (s.device k).slot

let_go_keeps :
    {A : Type 0} (s : System) (i : ℕ) (f : Device → A)
    → f (record (s.device i) { done = false }) ≡ f (s.device i)
    → (k : ℕ) → f (update s.device i (record (s.device i) { done = false }) k) ≡ f (s.device k)
let_go_keeps s i f h k = elim (Bool-cases (i == k)) [
  | inl e ↦ rw e (h ∙ ap (λ j. f (s.device j)) ((==_iff i k).0 e))
  | inr e ↦ rw e refl
]

Same-step_at : (s t : System) (pc : TimerPc) → step_at s pc ≡ some t → Same s t
unfolding step_at scan_step reset_step
Same-step_at s t check e =
    subst (Same s) (some_inj e) (record { count = refl; phase = λ k. refl; slot = λ k. refl })
Same-step_at s t (scan i fsh event) e = elim (Bool-cases (ltb i s.count)) [
  | inl l ↦ elim (Bool-cases (ready (s.device i))) [
    | inl r ↦
        subst (Same s) (some_inj (rw (l, r) at e))
          (record { count = refl; phase = λ k. refl; slot = λ k. refl })
    | inr r ↦ (let waits : none ≡ some t = rw (l, r) at e in cc)
  ]
  | inr l ↦
      subst (Same s) (some_inj (rw l at e))
        (record { count = refl; phase = λ k. refl; slot = λ k. refl })
]
Same-step_at s t (reset i fsh event) e = elim (Bool-cases (ltb i s.count)) [
  | inl l ↦ subst (Same s) (some_inj (rw l at e)) (record {
    count = refl;
    phase = let_go_keeps s i (λ d. d.phase) refl;
    slot = let_go_keeps s i (λ d. d.slot) refl;
  })
  | inr l ↦
      subst (Same s) (some_inj (rw l at e))
        (record { count = refl; phase = λ k. refl; slot = λ k. refl })
]
Same-step_at s t exited e = cc

-- The passes of a processor whose device is in a phase.
abbrev pub CountAt : Phase → ℕ → ℕ → Type 0
CountAt running slot n = n ≡ slot
CountAt waiting slot n = n ≡ slot + 1
CountAt left slot n = Unit

pub record Counted {c : Stdio} (s : Synced c) : Type 0 where
  pub count : s.timer.count ≡ suc s.threads.num_cpus
  pub own :
      (i : ℕ)
      → i < s.threads.num_cpus
      → CountAt (s.timer.device (suc i)).phase (s.timer.device (suc i)).slot (s.passes i)

-- A device other than those of the processors, or one whose count is right again, is replaced.
replaced :
    (n : ℕ) (device : ℕ → Device) (passes : ℕ → ℕ) (k : ℕ) (d : Device)
    → ((i : ℕ) → i < n → CountAt (device (suc i)).phase (device (suc i)).slot (passes i))
    → ((i : ℕ) → suc i ≡ k → CountAt d.phase d.slot (passes i))
    → (i : ℕ) → i < n
    → CountAt (update device k d (suc i)).phase (update device k d (suc i)).slot (passes i)
replaced n device passes k d all new i h = elim (Bool-cases (k == suc i)) [
  | inl e ↦ rw e (new i (sym ((==_iff k (suc i)).0 e)))
  | inr e ↦ rw e (all i h)
]

CountAt-enter : (p : Phase) (slot n : ℕ) → p ≡ running → CountAt p slot n → n + 1 ≡ slot + 1
CountAt-enter running slot n e h = omega arith
CountAt-enter waiting slot n e h = cc
CountAt-enter left slot n e h = cc

CountAt-wake : (p : Phase) (slot n : ℕ) → p ≡ waiting → CountAt p slot n → n ≡ slot + 1
CountAt-wake running slot n e h = cc
CountAt-wake waiting slot n e h = h
CountAt-wake left slot n e h = cc

CountAt-end_pass :
    (pass : Pass) (d : Device) (n : ℕ)
    → d.phase ≡ running
    → CountAt d.phase d.slot n
    → CountAt (end_pass pass d).phase (end_pass pass d).slot (n + 1)
unfolding tell_done detach_event
CountAt-end_pass (slot_over proc t) d n e h = CountAt-enter d.phase d.slot n e h
CountAt-end_pass stopped d n e h = tt

same_suc : (i j : ℕ) → (i == j) ≡ true → (suc i == suc j) ≡ true
same_suc i j e = ground arith

other_suc : (i j : ℕ) → (i == j) ≡ false → (suc i == suc j) ≡ false
other_suc i j e = ground arith

Counted-turn :
    {c : Stdio} (s : Synced c) (i : ℕ) (pass : Pass) (m : Machine)
    → (s.timer.device (suc i)).phase ≡ running
    → i < s.threads.num_cpus
    → Counted s
    → Counted (after_turn s i pass m)
Counted-turn s i pass m e h v = record {
  count = v.count;
  own = λ j l. elim (Bool-cases (i == j)) [
    | inl same ↦
        rw (same, same_suc i j same)
          (CountAt-end_pass pass (s.timer.device (suc i)) (s.passes i) e (v.own i h))
    | inr other ↦ rw (other, other_suc i j other) (v.own j l)
  ];
}

Counted-Step : {c : Stdio} (s t : Synced c) → Counted s → Step c s t → Counted t
unfolding stop_timer tell_done wake detach_event timer_step
Counted-Step s t v (clock u e f) =
    let same = Same-step_at s.timer u s.timer.pc e in
    rw f (record {
      count = same.count ∙ v.count;
      own = λ i h. rw (same.phase (suc i), same.slot (suc i)) (v.own i h);
    })
Counted-Step s t v (resume k l p d f) = rw f (record {
  count = v.count;
  own =
      replaced s.threads.num_cpus s.timer.device s.passes k (wake (s.timer.device k)) v.own (λ i q.
        CountAt-wake (s.timer.device k).phase (s.timer.device k).slot (s.passes i) p (
          subst (λ j. CountAt (s.timer.device j).phase (s.timer.device j).slot (s.passes i)) q
            (v.own i (omega (arith, l, v.count, q)))));
})
Counted-Step s t v (turn i pass m l p g e f) = rw f (Counted-turn s i pass m p l v)
Counted-Step s t v (load pid pc m p u e f) = rw f (record {
  count = v.count;
  own =
      replaced s.threads.num_cpus s.timer.device s.passes 0 (tell_done (s.timer.device 0)) v.own
        (λ i e. absurd (omega arith));
})
Counted-Step s t v (end_load m p u e f) = rw f (record {
  count = v.count;
  own =
      replaced s.threads.num_cpus s.timer.device s.passes 0 (detach_event (s.timer.device 0)) v.own
        (λ i e. absurd (omega arith));
})
Counted-Step s t v (stop f) = rw f (record { count = v.count; own = v.own })

pub Reach-Counted : {c : Stdio} {s : Synced c} → Reach c s → Counted s
unfolding start_timer
Reach-Counted (begin u {s} a n e i p z) = record {
  count = ap (λ t. t.count) e ∙ n;
  own = λ k h. rw (e, (Attached-fresh a).1 (suc k) (omega (arith, h, n)), z k) refl;
}
Reach-Counted (later r h) = Counted-Step _ _ (Reach-Counted r) h
