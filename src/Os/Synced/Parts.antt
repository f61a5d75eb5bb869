-- ===== src/Os/Synced/Parts.antt =====
-- src/os.c and src/timer.c: the timer and the threads, each as it is without the other.
use mathlib.Core.Path.{subst}
use os.Prelude.{
  ℕ, suc, ◌+◌, ◌≤◌, ◌<◌, ◌≡◌, ◌⊎◌, inl, inr, refl, sym, ap, ◌∙◌, Bool-cases, ltb, arith, Option,
  none, some, List, [], ◌∷◌, true, Exec, ok, fault, Returns, Returns-bind, Returns-all,
}
use os.Mm.{Mm}
use os.Loader
use os.Loader.{Stdio, Loaded}
use os.Timer
use os.Timer.{
  System, Phase, Device, running, waiting, left, with_device, tell_done, wake, detach_event,
}
use os.Timer.Lockstep.{Reach-lockstep}
use os.Os.{Machine, Pass, slot_over, stopped}
use os.Os.Load.{admit, Job, LdPc, to_load, to_add, ld_add, ld_loaded, ld_turn}
use os.Os.Share
use os.Os.Share.{Threads}
use os.Os.Synced.{
  Synced, end_pass, Unused, Step, clock, resume, turn, load, end_load, stop, Reach, begin, later,
}
use os.Os.Synced.Passes.{CountAt, Reach-Counted}

-- What a pass of the loader does to the machine.
abbrev Loads : Machine → Machine → Type 0
Loads m m' =
    (m' ≡ m)
    ⊎ ((ptr : ℕ) × (fresh : Mm) × (proc : Loaded) × (prio : ℕ) × (m.block ptr ≡ none)
        × (admit m ptr fresh proc prio ≡ ok m'))
    ⊎ (m' ≡ record m { done = true })

Returns-self : {A : Type 0} (e : Exec A) → Returns (λ a. e ≡ ok a) e
Returns-self (ok a) = refl
Returns-self fault = tt

returned : {A : Type 0} {a : A} (P : A → Type 0) (e : Exec A) → e ≡ ok a → Returns P e → P a
returned P e h r = subst (Returns P) h r

module _ (c : Stdio) (m : Machine) (time : ℕ) where
  Loads-ld_add :
      (avail_pid : ℕ) (proc : Loaded) (j : Job c) (js : List (Job c))
      → m.block j.fresh.ptr ≡ none
      → Returns (λ r. Loads m r.1) (ld_add c m time avail_pid proc j js)
  unfolding ld_add
  Loads-ld_add avail_pid proc j js u = elim (Bool-cases (ltb time j.start_time)) [
    | inl e ↦ rw e (inl refl)
    | inr e ↦ rw e (
        Returns-bind _ _ (admit m j.fresh.ptr j.fresh.mm proc j.prio) _ (Returns-self _)
          (λ m' h. inr (inl (j.fresh.ptr, j.fresh.mm, proc, j.prio, u, h))))
  ]

  Loads-ld_loaded :
      (j : Job c) (js : List (Job c)) (loaded : Option Loaded × ℕ)
      → m.block j.fresh.ptr ≡ none
      → Returns (λ r. Loads m r.1) (ld_loaded c m time j js loaded)
  unfolding ld_loaded
  Loads-ld_loaded j js (none, pid) u = inl refl
  Loads-ld_loaded j js (some proc, pid) u = Loads-ld_add pid proc j js u

  Loads-ld_turn :
      (avail_pid : ℕ) (pc : LdPc c)
      → Unused pc m
      → Returns (λ r. Loads m r.1) (ld_turn c m time avail_pid pc)
  unfolding ld_turn
  Loads-ld_turn avail_pid (to_load []) u = inr (inr refl)
  Loads-ld_turn avail_pid (to_load (j ∷ js)) u =
      Returns-bind (λ _. Unit) _
        (Loader.load c j.fresh.text j.fresh.opcode j.fresh.buf avail_pid j.file) _
        (Returns-all _ _ (λ _. tt)) (λ loaded _. Loads-ld_loaded j js loaded u)
  Loads-ld_turn avail_pid (to_add proc j js) u = Loads-ld_add avail_pid proc j js u

loaded :
    (s : Threads) (m : Machine)
    → Loads s.machine m
    → (record s { machine = m } ≡ s) ⊎ Share.Step s (record s { machine = m })
loaded s m (inl e) = inl (ap (λ m. record s { machine = m }) e)
loaded s m (inr (inl (ptr, fresh, proc, prio, u, h))) =
    inr (Share.add ptr fresh proc prio m u h refl)
loaded s m (inr (inr e)) = inr (Share.finish (ap (λ m. record s { machine = m }) e))

-- A step leaves the threads alone or is a step of theirs.
pub Step-threads :
    {c : Stdio} {s t : Synced c}
    → Step c s t
    → (t.threads ≡ s.threads) ⊎ Share.Step s.threads t.threads
Step-threads (clock u e f) = rw f (inl refl)
Step-threads (resume k l p d f) = rw f (inl refl)
Step-threads (turn i pass m l p g e f) = rw f (inr (Share.turn i pass m l g e refl))
Step-threads (load pid pc m p u e f) =
    rw f (loaded _ m (returned _ _ e (Loads-ld_turn _ _ _ _ _ u)))
Step-threads (end_load m p u e f) = rw f (loaded _ m (returned _ _ e (Loads-ld_turn _ _ _ _ _ u)))
Step-threads (stop f) = rw f (inl refl)

-- The threads, as they are in some interleaving of theirs.
pub Reach-threads : {c : Stdio} {s : Synced c} → Reach c s → Share.Reach s.threads
Reach-threads (begin u a n e i p z) = Share.begin i p
Reach-threads (later r step) = elim (Step-threads step) [
  | inl e ↦ rw e (Reach-threads r)
  | inr own ↦ Share.later (Reach-threads r) own
]

turned :
    (s : System) (k : ℕ) (pass : Pass)
    → k < s.count
    → (s.device k).phase ≡ running
    → Timer.Reach s
    → Timer.Reach (with_device s k (end_pass pass (s.device k)))
turned s k (slot_over proc t) l p r = Timer.later r (Timer.enter k l p refl)
turned s k stopped l p r = Timer.later r (Timer.detach k l p refl)

-- The timer, as it is in some interleaving of its devices.
pub Reach-timer : {c : Stdio} {s : Synced c} → Reach c s → Timer.Reach s.timer
Reach-timer (begin u a n e i p z) = Timer.begin a e
Reach-timer (later r (clock u e f)) = rw f (Timer.later (Reach-timer r) (Timer.timer e))
Reach-timer (later r (resume k l p d f)) =
    rw f (Timer.later (Reach-timer r) (Timer.leave k l p d refl))
Reach-timer (later r (turn i pass m l p g e f)) =
    rw f (turned _ (suc i) pass (omega (arith, l, (Reach-Counted r).count)) p (Reach-timer r))
Reach-timer (later r (load pid pc m p u e f)) =
    rw f
      (Timer.later (Reach-timer r) (Timer.enter 0 (omega (arith, (Reach-Counted r).count)) p refl))
Reach-timer (later r (end_load m p u e f)) =
    rw f
      (Timer.later (Reach-timer r) (Timer.detach 0 (omega (arith, (Reach-Counted r).count)) p refl))
Reach-timer (later r (stop f)) = rw f (Timer.later (Reach-timer r) (Timer.stop refl))

passes_near :
    (p : Phase) (slot n r : ℕ)
    → CountAt p slot n
    → (p ≡ left) ⊎ (slot ≤ r) × (r ≤ slot + 1)
    → (p ≡ running → slot ≡ r)
    → (p ≡ left) ⊎ (r ≤ n) × (n ≤ r + 1)
passes_near running slot n r h k e = inr (omega (arith, h, e refl), omega (arith, h, e refl))
passes_near waiting slot n r h (inl k) e = inl k
passes_near waiting slot n r h (inr k) e = inr (omega (arith, h, k), omega (arith, h, k))
passes_near left slot n r h k e = inl refl

run_count : (p : Phase) (slot n : ℕ) → p ≡ running → CountAt p slot n → n ≡ slot
run_count running slot n e h = h
run_count waiting slot n e h = cc
run_count left slot n e h = cc

-- Processors and loader on the timer: when a processor is to make a pass, it has made one pass for each
-- slot of the clock, and every other processor that has not stopped has made as many or one more. The
-- timer and the threads are in states that each reaches by itself.
pub Reach-passes :
    {c : Stdio} {s : Synced c} (i j : ℕ)
    → Reach c s
    → i < s.threads.num_cpus
    → j < s.threads.num_cpus
    → (s.timer.device (suc i)).phase ≡ running
    → (s.passes i ≡ s.timer.rounds)
      × (((s.timer.device (suc j)).phase ≡ left)
          ⊎ (s.passes i ≤ s.passes j) × (s.passes j ≤ s.passes i + 1))
      × Timer.Reach s.timer
      × Share.Reach s.threads
Reach-passes {c} {s} i j r hi hj e =
    let v = Reach-Counted r in
    let t = Reach-timer r in
    let di : suc i < s.timer.count = omega (arith, hi, v.count) in
    let dj : suc j < s.timer.count = omega (arith, hj, v.count) in
    let (now, near, time) = Reach-lockstep (suc i) (suc j) t di dj e in
    let made : s.passes i ≡ s.timer.rounds = run_count _ _ _ e (v.own i hi) ∙ now in
    let bound =
      passes_near (s.timer.device (suc j)).phase _ (s.passes j) _ (v.own j hj) near
        (λ q. (Reach-lockstep (suc j) (suc i) t dj di q).0 ∙ sym now) in
    (
      made,
      subst (λ n. ((s.timer.device (suc j)).phase ≡ left) ⊎ (n ≤ s.passes j) × (s.passes j ≤ n + 1))
          (now ∙ sym made) bound,
      t,
      Reach-threads r,
    )
