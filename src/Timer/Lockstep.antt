-- ===== src/Timer/Lockstep.antt =====
-- src/timer.c: the devices and the clock in every reachable state.
use mathlib.Core.Path.{subst}
use os.Prelude.{
  ℕ, ◌+◌, ◌%◌, ◌≤◌, ◌<◌, ◌≡◌, refl, ap, ◌⊎◌, inl, inr, Bool, true, false, none, some, arith, ltb,
  Bool-cases, some_inj, ltb→lt,
}
use os.Prelude.Words.{u64_mod}
use os.Timer.{
  Phase, running, waiting, left, Device, TimerPc, check, scan, reset, exited, System, ready,
  scan_step, reset_step, step_at, timer_step, Reach,
}
use os.Timer.Inv.{FreeAt, DoneAt, Done, At, AllLeft, Counts, InvAt}
use os.Timer.Barrier.{Reach-Inv}

Free-near :
    (p : Phase) (b : Bool) (slot r : ℕ)
    → FreeAt p b slot r
    → (p ≡ left) ⊎ (slot ≤ r) × (r ≤ slot + 1) × (p ≡ running → slot ≡ r)
Free-near running false slot r h = inr (omega arith, omega arith, λ _. h)
Free-near running true slot r h = absurd h
Free-near waiting true slot r h = inr (omega arith, omega arith, λ _. h)
Free-near waiting false slot r h = inr (omega arith, omega arith, λ e. cc)
Free-near left b slot r h = inl refl

Done-near :
    (p : Phase) (b : Bool) (slot k r : ℕ)
    → k ≤ 1
    → DoneAt p b slot k r
    → (p ≡ left) ⊎ (slot ≤ r) × (r ≤ slot + 1) × (p ≡ running → slot ≡ r)
Done-near running b slot k r l h = absurd h
Done-near waiting true slot k r l h = inr (omega arith, omega arith, λ e. cc)
Done-near waiting false slot k r l h = absurd h
Done-near left b slot k r l h = inl refl

At-near :
    (pc : TimerPc) (i : ℕ) (d : Device) (r : ℕ)
    → At pc i d r
    → (d.phase ≡ left) ⊎ (d.slot ≤ r) × (r ≤ d.slot + 1) × (d.phase ≡ running → d.slot ≡ r)
At-near check i d r a = Free-near d.phase d.done d.slot r a
At-near (scan j fsh event) i d r a = elim (Bool-cases (ltb i j)) [
  | inl h ↦ Done-near d.phase d.done d.slot 0 r (omega arith) (a.0 (ltb→lt _ _ h))
  | inr h ↦ Free-near d.phase d.done d.slot r (a.1 (ground arith))
]
At-near (reset j fsh event) i d r a = elim (Bool-cases (ltb i j)) [
  | inl h ↦ Free-near d.phase d.done d.slot r (a.0 (ltb→lt _ _ h))
  | inr h ↦ Done-near d.phase d.done d.slot 1 r (omega arith) (a.1 (ground arith))
]
At-near exited i d r a = Free-near d.phase d.done d.slot r a

-- In every interleaving, while a device runs, it runs in the timer's current slot, and every other
-- device has left, or has returned from `next_slot` for that slot or is at most one return behind; the
-- time is the number of slots, cut to 64 bits.
pub Reach-lockstep :
    {s : System} (i j : ℕ)
    → Reach s
    → i < s.count
    → j < s.count
    → (s.device i).phase ≡ running
    → ((s.device i).slot ≡ s.rounds)
      × (((s.device j).phase ≡ left)
          ⊎ ((s.device j).slot ≤ (s.device i).slot) × ((s.device i).slot ≤ (s.device j).slot + 1))
      × (s.time ≡ s.rounds % u64_mod)
Reach-lockstep {s} i j r hi hj run =
    let v = Reach-Inv r in
    let at =
      elim (At-near s.pc i (s.device i) s.rounds (v.each i hi))
        as (λ _. (s.device i).slot ≡ s.rounds) [ inl l ↦ cc | inr (a, b, c) ↦ c run ] in
    (
      at,
      elim (At-near s.pc j (s.device j) s.rounds (v.each j hj)) [
        | inl l ↦ inl l
        | inr (a, b, c) ↦ inr (omega arith, omega arith)
      ],
      v.clock,
    )

-- The timer thread ends only when every device has left, or after `stop_timer`.
pub Reach-exited :
    {s : System} → Reach s → s.pc ≡ exited → (s.timer_stop ≡ true) ⊎ AllLeft s.count s.device
Reach-exited {s} r e = subst (λ pc. Counts pc s) e (Reach-Inv r).counts

done_or_left :
    (p : Phase) (b : Bool) (slot r : ℕ)
    → DoneAt p b slot 0 r
    → (p ≡ left) ⊎ (p ≡ waiting) × (b ≡ true) × (slot ≡ r)
done_or_left running b slot r h = absurd h
done_or_left waiting true slot r h = inr (refl, refl, omega arith)
done_or_left waiting false slot r h = absurd h
done_or_left left b slot r h = inl refl

same_rounds : (s : System) (i fsh event : ℕ) → (reset_step s i fsh event).rounds ≡ s.rounds
unfolding reset_step
same_rounds s i fsh event = elim (Bool-cases (ltb i s.count)) [
  | inl e ↦ rw e refl
  | inr e ↦ rw e refl
]

tick_at :
    (s t : System) (pc : TimerPc) (i : ℕ)
    → InvAt s pc
    → step_at s pc ≡ some t
    → s.rounds < t.rounds
    → i < s.count
    → Done (s.device i) 0 s.rounds
unfolding step_at scan_step
tick_at s t check i v e more h = absurd (omega (arith, ap (λ u. u.rounds) (some_inj e)))
tick_at s t (scan j fsh event) i v e more h = elim (Bool-cases (ltb j s.count)) [
  | inl l ↦ elim (Bool-cases (ready (s.device j))) [
    | inl r ↦ absurd (omega (arith, ap (λ u. u.rounds) (some_inj (rw (l, r) at e))))
    | inr r ↦ (let waits : none ≡ some t = rw (l, r) at e in cc)
  ]
  | inr l ↦ (v.each i h).0 (ground arith)
]
tick_at s t (reset j fsh event) i v e more h =
    absurd (omega (arith, ap (λ u. u.rounds) (some_inj e), same_rounds s j fsh event))
tick_at s t exited i v e more h = cc

-- The clock moves on only when every device has left, or waits in `next_slot` and is done with the
-- current slot.
pub tick_waits :
    {s t : System} (i : ℕ)
    → Reach s
    → timer_step s ≡ some t
    → s.rounds < t.rounds
    → i < s.count
    → ((s.device i).phase ≡ left)
      ⊎ ((s.device i).phase ≡ waiting) × ((s.device i).done ≡ true) × ((s.device i).slot ≡ s.rounds)
unfolding timer_step
tick_waits {s} {t} i r e more h =
    done_or_left (s.device i).phase (s.device i).done (s.device i).slot s.rounds
      (tick_at s t s.pc i (Reach-Inv r) e more h)
