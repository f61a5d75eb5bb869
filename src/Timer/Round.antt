-- ===== src/Timer/Round.antt =====
-- src/timer.c: one round of the timer thread, once every device is done or has left.
use os.Prelude.{
  ℕ, zero, suc, ◌+◌, ◌<◌, ◌≡◌, refl, sym, ap, ◌∙◌, ◌⊎◌, inl, inr, true, false, Option, none, some,
  arith, ltb, lt→ltb, ◌==◌, Bool-cases, if◌then◌else◌,
}
use mathlib.Core.Path.{subst}
use os.Timer.{
  TimerPc, check, scan, reset, exited, System, ready, pass, tick, let_go, next_loop, scan_step,
  reset_step, step_at, timer_step,
}

-- `n` steps of the timer thread alone; `none` if it has to wait or has ended
unfoldable pub timer_steps : ℕ → System → Option System
timer_steps zero s = some s
timer_steps (suc n) s = elim (timer_step s) [ none ↦ none | some t ↦ timer_steps n t ]

timer_steps_next :
    (n : ℕ) (s t : System) → timer_step s ≡ some t → timer_steps (suc n) s ≡ timer_steps n t
unfolding timer_steps
timer_steps_next n s t e =
    ap (λ o. elim o as (λ _. Option System) [ none ↦ none | some t ↦ timer_steps n t ]) e

-- What the rest of a round comes to: the clock is one slot further, no device waits any longer, and
-- the thread stands at its loop test or has ended.
pub record IsOpen (s t : System) (rounds : ℕ) : Type 0 where
  pub further : t.rounds ≡ rounds
  pub same : t.count ≡ s.count
  pub open_all : (i : ℕ) → i < s.count → (t.device i).done ≡ false
  pub stands_at : (t.pc ≡ check) ⊎ (t.pc ≡ exited)

abbrev Opened : ℕ → System → ℕ → Type 0
Opened n s rounds = (t : System) × (timer_steps n s ≡ some t) × IsOpen s t rounds

at_step :
    (s : System) (pc : TimerPc) {t : System}
    → s.pc ≡ pc
    → step_at s pc ≡ some t
    → timer_step s ≡ some t
unfolding timer_step
at_step s pc {t} e h = subst (λ p. step_at s p ≡ some t) (sym e) h

Opened-next :
    (n : ℕ) (s t : System) (rounds : ℕ)
    → timer_step s ≡ some t
    → t.count ≡ s.count
    → Opened n t rounds
    → Opened (suc n) s rounds
Opened-next n s t rounds e c (u, run, o) = (
  u,
  timer_steps_next n s t e ∙ run,
  record {
    further = o.further;
    same = o.same ∙ c;
    open_all = λ i h. o.open_all i (omega arith);
    stands_at = o.stands_at;
  },
)

-- the second loop from place `i` on
reset_round :
    (n : ℕ) (s : System) (i fsh event : ℕ)
    → s.pc ≡ reset i fsh event
    → i + n ≡ s.count
    → ((k : ℕ) → k < i → (s.device k).done ≡ false)
    → Opened (suc n) s s.rounds
unfolding step_at reset_step timer_steps
reset_round zero s i fsh event e all gone =
    Opened-next 0 s (next_loop s fsh event) s.rounds
      (at_step s (reset i fsh event) e (rw (past i s.count all) refl)) refl
      (
        next_loop s fsh event,
        refl,
        record {
          further = refl;
          same = refl;
          open_all = λ k h. gone k (omega arith);
          stands_at = elim (Bool-cases (fsh == event)) [
            | inl q ↦ inr (rw q refl)
            | inr q ↦ inl (rw q refl)
          ];
        },
      )
  where
    past : (i n : ℕ) → i + 0 ≡ n → ltb i n ≡ false
    past i n e = ground arith
reset_round (suc n) s i fsh event e all gone =
    Opened-next (suc n) s (let_go s i fsh event) s.rounds
      (at_step s (reset i fsh event) e (rw (lt→ltb i s.count (omega arith)) refl)) refl
      (reset_round n (let_go s i fsh event) (i + 1) fsh event refl (omega arith) (λ k h.
        elim (Bool-cases (i == k)) [ inl q ↦ rw q refl | inr q ↦ rw q (gone k (ground arith)) ]))

-- the steps of the first loop with `n` devices to go, and of the second over `c`
scan_length : ℕ → ℕ → ℕ
scan_length zero c = suc (suc c)
scan_length (suc n) c = suc (scan_length n c)

scan_length_lem : (n c : ℕ) → scan_length n c ≡ n + c + 2
unfolding scan_length
scan_length_lem zero c = omega arith
scan_length_lem (suc n) c = omega (arith, scan_length_lem n c)

-- the first loop from place `i` on, and the rest of the round
scan_round :
    (n : ℕ) (s : System) (i fsh event : ℕ)
    → s.pc ≡ scan i fsh event
    → i + n ≡ s.count
    → ((k : ℕ) → k < s.count → ready (s.device k) ≡ true)
    → Opened (scan_length n s.count) s (s.rounds + 1)
unfolding step_at scan_step scan_length
scan_round zero s i fsh event e all done =
    Opened-next (suc s.count) s (tick s fsh event) (s.rounds + 1)
      (at_step s (scan i fsh event) e (rw (past i s.count all) refl)) refl
      (reset_round s.count (tick s fsh event) 0 fsh event refl (omega arith)
        (λ k h. absurd (omega arith)))
  where
    past : (i n : ℕ) → i + 0 ≡ n → ltb i n ≡ false
    past i n e = ground arith
scan_round (suc n) s i fsh event e all done =
    Opened-next (scan_length n s.count) s (pass s i fsh event) (s.rounds + 1)
      (at_step s (scan i fsh event) e
        (rw (lt→ltb i s.count (omega arith), done i (omega arith)) refl))
      refl (scan_round n (pass s i fsh event) (i + 1) _ _ refl (omega arith) done)

-- From its loop test, when `stop_timer` was not called and every device is done with its slot or has
-- left, the timer thread alone reaches the next slot, in two loops over the devices and three more
-- steps, and lets every device go.
pub round_opens :
    (s : System)
    → s.pc ≡ check
    → s.timer_stop ≡ false
    → ((k : ℕ) → k < s.count → ready (s.device k) ≡ true)
    → (t : System) × (timer_steps (s.count + s.count + 3) s ≡ some t) × IsOpen s t (s.rounds + 1)
unfolding step_at
round_opens s e go done =
    subst (λ n. Opened n s (s.rounds + 1)) (omega (arith, scan_length_lem s.count s.count))
      (Opened-next (scan_length s.count s.count) s (record s { pc = scan 0 0 0 }) (s.rounds + 1)
        (at_step s check e (ap (λ b. some (record s { pc = if b then exited else scan 0 0 0 })) go))
        refl (scan_round s.count (record s { pc = scan 0 0 0 }) 0 0 0 refl (omega arith) done))
