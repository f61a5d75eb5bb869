-- ===== src/Os/Keep.antt =====
-- src/os.c and src/sched.c: the scheduler while processors and loader take their passes.
use mathlib.Core.Path.{subst}
use os.Prelude.{
  Bool, ℕ, inl, inr, Bool-cases, ltb, ltb→lt, ◌==◌, Option, none, some, true, false, Returns,
  Returns-bind, Returns-all,
}
use os.Queue.{Pcb}
use os.Sched.{Sched, max_prio, get_proc, put_mlq_proc, put_proc, add_mlq_proc, add_proc}
use os.Sched.Keep.{IsValid, get_mlq_proc-IsValid, put_add-IsValid}
use os.Mm.{Mm}
use os.Cpu.{run}
use os.Loader.{Loaded}
use os.Os.{
  Machine, use_block, finished, Fetched, skipped, checked, renew_running, renew, world, run_proc,
  recheck, cpu_turn,
}
use os.Os.Load.{admit}
use os.Os.Share.{Threads, Step, turn, add, finish}

get_proc-IsValid : (s : Sched) → IsValid s → IsValid (get_proc s).1
unfolding get_proc
get_proc-IsValid s v = get_mlq_proc-IsValid s v

put_proc-IsValid : (s : Sched) (p : Pcb) → IsValid s → Returns IsValid (put_proc s p)
unfolding put_proc
put_proc-IsValid s p v = elim (Bool-cases (ltb p.prio max_prio)) [
  | inl e ↦ (let (t, run, w) = (put_add-IsValid s p v (ltb→lt _ _ e)).0 in rw run w)
  | inr e ↦ (unfold put_mlq_proc in rw e tt)
]

add_proc-IsValid : (s : Sched) (p : Pcb) → IsValid s → Returns IsValid (add_proc s p)
unfolding add_proc
add_proc-IsValid s p v = elim (Bool-cases (ltb p.prio max_prio)) [
  | inl e ↦ (let (t, run, w) = (put_add-IsValid s p v (ltb→lt _ _ e)).1 in rw run w)
  | inr e ↦ (unfold add_mlq_proc in rw e tt)
]

-- a machine with a valid scheduler
abbrev Valid : Machine → Type 0
Valid m = IsValid m.sched

renew_running-Valid :
    (m : Machine) (t : ℕ) (p : Pcb) (over : Bool)
    → Valid m
    → Returns (λ r. Valid r.1) (renew_running m t p over)
unfolding renew_running
renew_running-Valid m t p true v = get_proc-IsValid m.sched v
renew_running-Valid m t p false v = elim (Bool-cases (t == 0)) [
  | inl e ↦ rw e (
      Returns-bind _ _ (put_proc m.sched p) _ (put_proc-IsValid m.sched p v)
        (λ s w. get_proc-IsValid s w))
  | inr e ↦ rw e v
]

renew-Valid :
    (m : Machine) (t : ℕ) (proc : Option Pcb) → Valid m → Returns (λ r. Valid r.1) (renew m t proc)
unfolding renew
renew-Valid m t none v = get_proc-IsValid m.sched v
renew-Valid m t (some p) v =
    Returns-bind (λ _. Unit) _ (use_block (m.block p.ptr)) _ (Returns-all _ _ (λ _. tt))
      (λ b _. renew_running-Valid m t p (finished b) v)

recheck-Valid : (m : Machine) (f : Fetched) → Valid m → Returns (λ r. Valid r.1) (recheck m f)
unfolding recheck run_proc
recheck-Valid m (skipped t) v = v
recheck-Valid m (checked none t) v = v
recheck-Valid m (checked (some p) t) v =
    Returns-bind (λ _. Unit) _ (use_block (m.block p.ptr)) _ (Returns-all _ _ (λ _. tt))
      (λ b _.
        Returns-bind (λ _. Unit) _ (run b.task (world m b)) _ (Returns-all _ _ (λ _. tt))
          (λ r _. v))

cpu_turn-Valid :
    (m : Machine) (t : ℕ) (proc : Option Pcb)
    → Valid m
    → Returns (λ r. Valid r.1) (cpu_turn m t proc)
unfolding cpu_turn
cpu_turn-Valid m t proc v =
    Returns-bind _ _ (renew m t proc) _ (renew-Valid m t proc v) (λ r w. recheck-Valid r.1 r.0 w)

admit-Valid :
    (m : Machine) (ptr : ℕ) (fresh : Mm) (proc : Loaded) (prio : ℕ)
    → Valid m
    → Returns Valid (admit m ptr fresh proc prio)
unfolding admit
admit-Valid m ptr fresh proc prio v =
    Returns-bind _ _ (add_proc m.sched _) _ (add_proc-IsValid m.sched _ v) (λ s w. w)

-- Every step of a processor or of the loader keeps the scheduler's state valid.
pub Step-IsValid : {s t : Threads} → IsValid s.machine.sched → Step s t → IsValid t.machine.sched
Step-IsValid v (turn i pass m l g e f) =
    rw f (subst (Returns (λ r. Valid r.1)) e (cpu_turn-Valid _ _ _ v))
Step-IsValid v (add ptr fresh proc prio m u e f) =
    rw f (subst (Returns Valid) e (admit-Valid _ ptr fresh proc prio v))
Step-IsValid v (finish f) = rw f v
