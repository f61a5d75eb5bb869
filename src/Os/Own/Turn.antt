-- ===== src/Os/Own/Turn.antt =====
-- src/os.c: the use of blocks in a pass of cpu_routine.
use os.Prelude.{
  ℕ, ◌+◌, ◌≤◌, ◌<◌, ◌≡◌, refl, Bool, true, false, Option, none, some, arith, ◌==◌, Bool-cases, inl,
  inr, update, Returns, Returns-bind, Returns-all,
}
use os.Queue.{Pcb}
use os.Sched.{max_prio, put_proc}
use os.Cpu.{run}
use os.Os.{
  Block, Machine, use_block, finished, next_proc, free_proc, Fetched, skipped, checked, first_load,
  renew_running, renew, world, Pass, slot_over, stopped, run_proc, recheck, cpu_turn,
}
use os.Queue.Count.{is_at, held}
use os.Os.Own.{ready_at, uses}
use os.Os.Own.Counts.{get_proc-Taken, put_proc-Grown}

-- a process that a pass has
abbrev pub proc_of : Pass → Option Pcb
proc_of (slot_over proc t) = proc
proc_of stopped = none

abbrev fetched : Fetched → Option Pcb
fetched (skipped t) = none
fetched (checked proc t) = proc

pub uses_le : (o : Option Block) → uses o ≤ 1
uses_le none = omega arith
uses_le (some b) = omega arith

module _ (ptr rest : ℕ) where
  -- A machine with a process on a processor, when `rest` other processors have one at the address.
  abbrev pub Bounded : Machine → Option Pcb → Type 0
  Bounded m proc =
      (ready_at ptr m.sched.mlq_ready_queue + held ptr proc + rest ≤ uses (m.block ptr))
      × (m.sched.curr_prio < max_prio)

  Bounded-next_proc : (m : Machine) → Bounded m none → Bounded (next_proc m).1 (next_proc m).0
  Bounded-next_proc m (h, c) =
      let (e, c') = get_proc-Taken ptr m.sched c in (omega (arith, e, h), c')

  -- The first load gives a process, or none.
  fetched_first : (proc : Option Pcb) (t : ℕ) → fetched (first_load proc t) ≡ proc
  fetched_first none t = refl
  fetched_first (some p) t = refl

  Bounded-free_proc :
      (m : Machine) (p : Pcb) → Bounded m (some p) → Bounded (free_proc m p.ptr) none
  Bounded-free_proc m p (h, c) = elim (Bool-cases (p.ptr == ptr)) [
    | inl e ↦ rw e (omega (arith, rw e at h, uses_le (m.block ptr)), c)
    | inr e ↦ rw e (omega (arith, rw e at h), c)
  ]

  renew_running-Bounded :
      (m : Machine) (t : ℕ) (p : Pcb) (over : Bool)
      → Bounded m (some p)
      → Returns (λ r. Bounded r.1 (fetched r.0)) (renew_running m t p over)
  unfolding renew_running
  renew_running-Bounded m t p true h =
      Bounded-next_proc (free_proc m p.ptr) (Bounded-free_proc m p h)
  renew_running-Bounded m t p false (h, c) = elim (Bool-cases (t == 0)) [
    | inl e ↦ rw e (
        Returns-bind _ _ (put_proc m.sched p) _ (put_proc-Grown ptr m.sched p) (λ s g.
          Bounded-next_proc (record m { sched = s })
            ((omega (arith, g.0, h)), (omega (arith, g.1, c)))))
    | inr e ↦ rw e (h, c)
  ]

  renew-Bounded :
      (m : Machine) (t : ℕ) (proc : Option Pcb)
      → Bounded m proc
      → Returns (λ r. Bounded r.1 (fetched r.0)) (renew m t proc)
  unfolding renew
  renew-Bounded m t none h = rw (fetched_first (next_proc m).0 t) (Bounded-next_proc m h)
  renew-Bounded m t (some p) h =
      Returns-bind (λ _. Unit) _ (use_block (m.block p.ptr)) _ (Returns-all _ _ (λ _. tt))
        (λ b _. renew_running-Bounded m t p (finished b) h)

  stored :
      (m : Machine) (p : Pcb) (b : Block)
      → ready_at ptr m.sched.mlq_ready_queue + is_at ptr p + rest ≤ uses (m.block ptr)
      → ready_at ptr m.sched.mlq_ready_queue + is_at ptr p + rest
        ≤ uses (update m.block p.ptr (some b) ptr)
  stored m p b h = elim (Bool-cases (p.ptr == ptr)) [
    | inl e ↦ rw e (omega (arith, rw e at h, uses_le (m.block ptr)))
    | inr e ↦ rw e (omega (arith, rw e at h))
  ]

  run_proc-Bounded :
      (m : Machine) (p : Pcb) (t : ℕ)
      → Bounded m (some p)
      → Returns (λ r. Bounded r.1 (proc_of r.0)) (run_proc m p t)
  unfolding run_proc
  run_proc-Bounded m p t (h, c) =
      Returns-bind (λ _. Unit) _ (use_block (m.block p.ptr)) _ (Returns-all _ _ (λ _. tt))
        (λ b _.
          Returns-bind (λ _. Unit) _ (run b.task (world m b)) _ (Returns-all _ _ (λ _. tt))
            (λ r _. (stored m p _ h, c)))

  recheck-Bounded :
      (m : Machine) (f : Fetched)
      → Bounded m (fetched f)
      → Returns (λ r. Bounded r.1 (proc_of r.0)) (recheck m f)
  unfolding recheck
  recheck-Bounded m (skipped t) h = h
  recheck-Bounded m (checked none t) h = elim (Bool-cases m.done) [
    | inl e ↦ rw e h
    | inr e ↦ rw e h
  ]
  recheck-Bounded m (checked (some p) t) h = run_proc-Bounded m p _ h

  -- A pass of a processor keeps the bound.
  pub cpu_turn-Own :
      (m : Machine) (t : ℕ) (proc : Option Pcb)
      → Bounded m proc
      → Returns (λ r. Bounded r.1 (proc_of r.0)) (cpu_turn m t proc)
  unfolding cpu_turn
  cpu_turn-Own m t proc h =
      Returns-bind _ _ (renew m t proc) _ (renew-Bounded m t proc h)
        (λ r k. recheck-Bounded r.1 r.0 k)
