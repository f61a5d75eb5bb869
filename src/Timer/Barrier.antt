-- ===== src/Timer/Barrier.antt =====
-- src/timer.c: the steps of the timer thread keep the invariant, and the slots of the devices stay in
-- step with it.
use mathlib.Core.Path.{subst}
use os.Prelude.{
  ℕ, zero, suc, ◌+◌, ◌≤◌, ◌<◌, ◌≡◌, refl, sym, ap, ◌∙◌, inl, inr, Bool, true, false, ◌||◌, none,
  some, arith, ltb, ◌==◌, ==_iff, Bool-cases, some_inj, if◌then◌else◌, ltb→lt,
}
use os.Timer.{
  Phase, running, waiting, left, Device, TimerPc, check, scan, reset, exited, System, ready, pass,
  tick, let_go, next_loop, scan_step, reset_step, step_at, timer_step, push_device, attached,
  attach_event, start_timer, Step, timer, enter, leave, detach, stop, Attached, nobody, one_more,
  Reach, begin, later,
}
use os.Timer.Inv.{
  FreeAt, DoneAt, Done, MarkAt, Mark, AllLeft, InvAt, Inv, update-each, Inv-tell_done, Inv-wake,
  Inv-detach_event, Inv-stop_timer,
}

-- a device that the first loop may pass
passed :
    (slot r : ℕ) (p : Phase) (b f : Bool)
    → (b || f) ≡ true
    → MarkAt p f
    → FreeAt p b slot r
    → DoneAt p b slot 0 r
passed slot r running true f e m h = h
passed slot r running false f e m h = cc
passed slot r waiting true f e m h = omega arith
passed slot r waiting false f e m h = cc
passed slot r left b f e m h = tt

-- a device that the second loop has let go
let_go_Done : (slot r : ℕ) (p : Phase) (b : Bool) → DoneAt p b slot 1 r → FreeAt p false slot r
let_go_Done slot r running b h = absurd h
let_go_Done slot r waiting true h = h
let_go_Done slot r waiting false h = absurd h
let_go_Done slot r left b h = tt

-- the clock moves on
next_round : (slot r : ℕ) (p : Phase) (b : Bool) → DoneAt p b slot 0 r → DoneAt p b slot 1 (r + 1)
next_round slot r running b h = h
next_round slot r waiting true h = omega arith
next_round slot r waiting false h = h
next_round slot r left b h = tt

-- a count that kept up with the devices: the last one has left too
last_left :
    (p : Phase) (f : Bool) (fsh i : ℕ)
    → MarkAt p f
    → fsh ≤ i
    → (if f then fsh + 1 else fsh) ≡ i + 1
    → (p ≡ left) × (fsh ≡ i)
last_left running f fsh i m h e = ground arith
last_left waiting f fsh i m h e = ground arith
last_left left f fsh i m h e = (refl, ground arith)

module _ (s : System) (i fsh event : ℕ) (v : InvAt s (scan i fsh event)) where
  -- The first loop passes a device that is done or has left.
  Inv-pass : i < s.count → ready (s.device i) ≡ true → Inv (pass s i fsh event)
  unfolding ready
  Inv-pass h e = record {
    each = λ k kh. (
      λ lt. elim (Bool-cases (k == i)) [
        | inl same ↦
            subst (λ m. Done (s.device m) 0 s.rounds) (sym ((==_iff k i).0 same))
              (passed (s.device i).slot s.rounds (s.device i).phase (s.device i).done
                (s.device i).fsh e (v.marks i h) ((v.each i h).1 (omega arith)))
        | inr other ↦ (v.each k kh).0 (ground arith)
      ],
      λ le. (v.each k kh).1 (omega arith),
    );
    marks = v.marks;
    counts = (omega arith, omega (arith, v.counts.1), fsh_le, all_left);
    clock = v.clock;
  }
    where
      fsh_le : (if (s.device i).fsh then fsh + 1 else fsh) ≤ i + 1
      fsh_le = ground (arith, v.counts.2)

      all_left : (if (s.device i).fsh then fsh + 1 else fsh) ≡ i + 1 → AllLeft (i + 1) s.device
      all_left q k lt =
          let (gone, same) =
            last_left (s.device i).phase (s.device i).fsh fsh i (v.marks i h) v.counts.2 q in
          elim (Bool-cases (k == i)) [
            | inl eq ↦ subst (λ m. (s.device m).phase ≡ left) (sym ((==_iff k i).0 eq)) gone
            | inr other ↦ v.counts.3 same k (ground arith)
          ]

  -- Behind the first loop the clock moves on.
  Inv-tick : ltb i s.count ≡ false → Inv (tick s fsh event)
  Inv-tick e = record {
    each = λ k kh. (
      λ lt. absurd (omega arith),
      λ le.
          next_round (s.device k).slot s.rounds (s.device k).phase (s.device k).done
            ((v.each k kh).0 (omega (arith, all))),
    );
    marks = v.marks;
    counts = (
      omega (arith, all),
      omega (arith, all),
      λ q. subst (λ n. AllLeft n s.device) all (v.counts.3 (q ∙ sym all)),
    );
    clock = omega (arith, v.clock);
  }
    where
      all : i ≡ s.count
      all = ground (arith, v.counts.0)

module _ (s : System) (i fsh event : ℕ) (v : InvAt s (reset i fsh event)) where
  -- The second loop lets a device go.
  Inv-let_go : i < s.count → Inv (let_go s i fsh event)
  Inv-let_go h = record {
    each = λ k kh. elim (Bool-cases (i == k)) [
      | inl e ↦ rw e (
        λ lt.
            let_go_Done (s.device i).slot s.rounds (s.device i).phase (s.device i).done
              ((v.each i h).1 (omega arith)),
        λ le. absurd (omega (arith, (==_iff i k).0 e)),
      )
      | inr e ↦ rw e (λ lt. (v.each k kh).0 (ground arith), λ le. (v.each k kh).1 (omega arith))
    ];
    marks = update-each (λ _ d. Mark d) s.device i _ v.marks (λ m. m);
    counts = (
      v.counts.0,
      v.counts.1,
      λ q. update-each (λ _ d. d.phase ≡ left) s.device i _ (v.counts.2 q) (λ l. l),
    );
    clock = v.clock;
  }

  -- Behind the second loop every device has been let go.
  Inv-loop_end : ltb i s.count ≡ false → Inv (next_loop s fsh event)
  Inv-loop_end e = elim (Bool-cases (fsh == event)) [
    | inl same ↦ rw same (record {
      each = λ k kh. (v.each k kh).0 (ground arith);
      marks = v.marks;
      counts = inr (v.counts.2 ((==_iff fsh event).0 same ∙ v.counts.0));
      clock = v.clock;
    })
    | inr other ↦ rw other (record {
      each = λ k kh. (v.each k kh).0 (ground arith);
      marks = v.marks;
      counts = tt;
      clock = v.clock;
    })
  ]

Inv-check :
    (s : System)
    → InvAt s check
    → Inv (record s { pc = if s.timer_stop then exited else scan 0 0 0 })
Inv-check s v = elim (Bool-cases s.timer_stop) [
  | inl e ↦
      subst (λ b. Inv (record s { pc = if b then exited else scan 0 0 0 })) (sym e)
        (record { each = v.each; marks = v.marks; counts = inl e; clock = v.clock })
  | inr e ↦
      subst (λ b. Inv (record s { pc = if b then exited else scan 0 0 0 })) (sym e)
        (record {
          each = λ k kh. (λ lt. absurd (omega arith), λ le. v.each k kh);
          marks = v.marks;
          counts = (omega arith, refl, omega arith, λ q k lt. absurd (omega arith));
          clock = v.clock;
        })
]

Inv-step_at : (s t : System) (pc : TimerPc) → InvAt s pc → step_at s pc ≡ some t → Inv t
unfolding step_at scan_step reset_step
Inv-step_at s t check v e = subst Inv (some_inj e) (Inv-check s v)
Inv-step_at s t (scan i fsh event) v e = elim (Bool-cases (ltb i s.count)) [
  | inl h ↦ elim (Bool-cases (ready (s.device i))) [
    | inl r ↦ subst Inv (some_inj (rw (h, r) at e)) (Inv-pass s i fsh event v (ltb→lt _ _ h) r)
    | inr r ↦ (let waits : none ≡ some t = rw (h, r) at e in cc)
  ]
  | inr h ↦ subst Inv (some_inj (rw h at e)) (Inv-tick s i fsh event v h)
]
Inv-step_at s t (reset i fsh event) v e = elim (Bool-cases (ltb i s.count)) [
  | inl h ↦ subst Inv (some_inj (rw h at e)) (Inv-let_go s i fsh event v (ltb→lt _ _ h))
  | inr h ↦ subst Inv (some_inj (rw h at e)) (Inv-loop_end s i fsh event v h)
]
Inv-step_at s t exited v e = cc

pub Inv-Step : {s t : System} → Step s t → Inv s → Inv t
unfolding timer_step
Inv-Step {s} {t} (timer e) v = Inv-step_at s t s.pc v e
Inv-Step {s} {t} (enter i h r e) v = subst Inv (sym e) (Inv-tell_done s i h r v)
Inv-Step {s} {t} (leave i h w d e) v = subst Inv (sym e) (Inv-wake s i h w d v)
Inv-Step {s} {t} (detach i h r e) v = subst Inv (sym e) (Inv-detach_event s i v)
Inv-Step {s} {t} (stop e) v = subst Inv (sym e) (Inv-stop_timer s v)

-- a device that was just attached
abbrev pub fresh : Device
fresh = record { done = false; fsh = false; phase = running; slot = 0 }

pub Attached-fresh :
    {s : System}
    → Attached s
    → (s.timer_started ≡ false) × ((i : ℕ) → i < s.count → s.device i ≡ fresh)
unfolding attach_event
Attached-fresh (nobody s e f) = (f, λ i h. absurd (omega arith))
Attached-fresh (one_more {s} {t} a e) =
    let (idle, all) = Attached-fresh a in
    let same : attached s ≡ t =
      some_inj (ap (λ b. if b then none else some (attached s)) (sym idle) ∙ e) in
    subst (λ t. (t.timer_started ≡ false) × ((i : ℕ) → i < t.count → t.device i ≡ fresh)) same
      (idle, pushed s.count s.device all)
  where
    pushed :
        (n : ℕ) (rest : ℕ → Device)
        → ((i : ℕ) → i < n → rest i ≡ fresh)
        → (i : ℕ) → i < n + 1
        → push_device fresh rest i ≡ fresh
    pushed n rest all zero h = refl
    pushed n rest all (suc i) h = all i (omega arith)

pub Reach-Inv : {s : System} → Reach s → Inv s
unfolding start_timer
Reach-Inv (begin {s} {t} a e) =
    let (idle, all) = Attached-fresh a in
    subst Inv (sym e) (record {
      each = λ i h. rw (all i h) refl;
      marks = λ i h. rw (all i h) refl;
      counts = tt;
      clock = refl;
    })
Reach-Inv (later r st) = Inv-Step st (Reach-Inv r)
