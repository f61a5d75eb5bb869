-- ===== src/Os/Turns.antt =====
-- src/os.c: the time slots of a process on a processor.
use os.Prelude.{
  ℕ, ◌+◌, ◌<◌, ◌≤◌, ◌≡◌, refl, ap, ◌∙◌, Bool, true, false, Option, none, some, arith, ◌==◌,
  if◌then◌else◌, ok, ◌>>=◌, Bool-cases, inl, inr, update, Rc, Returns, Returns-bind, Returns-all,
}
use os.Prelude.Words.{u32_mod}
use os.Queue.{Pcb}
use os.Sched.{put_proc}
use os.Process.{World}
use os.Cpu.{Task, run}
use os.Os.{
  Block, Machine, use_block, finished, Fetched, skipped, checked, first_load, renew_running, renew,
  pred32, world, Pass, slot_over, stopped, run_proc, recheck, cpu_turn,
}

-- the machine after the instruction of a process at `ptr`
abbrev pub ran : Machine → ℕ → Task → World → Machine
ran m ptr task w = record m {
  os = w.krnl;
  block = update m.block ptr (some (record { task = task; mm = w.user }));
}

pub run_proc-ok :
    (m : Machine) (p : Pcb) (b : Block) (t : ℕ) (stat : Rc) (task : Task) (w : World)
    → m.block p.ptr ≡ some b
    → run b.task (world m b) ≡ ok (stat, task, w)
    → run_proc m p t ≡ ok (slot_over (some p) (pred32 t), ran m p.ptr task w)
unfolding run_proc use_block
run_proc-ok m p b t stat task w h r =
    ap
      (λ o. use_block o >>= (λ b.
        run b.task (world m b) >>= (λ x. ok (slot_over (some p) (pred32 t), ran m p.ptr x.1 x.2))))
      h
    ∙ ap (λ o. o >>= (λ x. ok (slot_over (some p) (pred32 t), ran m p.ptr x.1 x.2))) r

nonzero : (t : ℕ) → (t + 1 == 0) ≡ false
nonzero t = ground arith

pred32-suc : (t : ℕ) → t + 1 < u32_mod → pred32 (t + 1) ≡ t
pred32-suc t l = omega arith

-- With time left, a process that has not finished stays on its processor: the pass runs its next
-- instruction and takes one from `time_left`, and leaves the scheduler alone.
pub cpu_turn-keeps :
    (m : Machine) (p : Pcb) (b : Block) (t : ℕ) (stat : Rc) (task : Task) (w : World)
    → t + 1 < u32_mod
    → m.block p.ptr ≡ some b
    → finished b ≡ false
    → run b.task (world m b) ≡ ok (stat, task, w)
    → (cpu_turn m (t + 1) (some p) ≡ ok (slot_over (some p) t, ran m p.ptr task w))
      × ((ran m p.ptr task w).sched ≡ m.sched)
unfolding cpu_turn renew recheck use_block renew_running
cpu_turn-keeps m p b t stat task w l h f r = (
  rw (h, f, nonzero t)
      (ap (λ c. run_proc m p (if c then m.time_slot else t + 1)) (nonzero t)
        ∙ run_proc-ok m p b (t + 1) stat task w h r
        ∙ ap (λ k. ok (slot_over (some p) k, ran m p.ptr task w)) (pred32-suc t l)),
  refl,
)

-- `time_left` is below the time slot.
abbrev pub Within : ℕ → Pass → Type 0
Within slot (slot_over proc t) = t < slot
Within slot stopped = Unit

-- The same of a process that was renewed.
abbrev FetchedWithin : ℕ → Fetched × Machine → Type 0
FetchedWithin slot (skipped t, m) = (t < slot) × (m.time_slot ≡ slot)
FetchedWithin slot (checked proc t, m) = (t < slot) × (m.time_slot ≡ slot)

pred32_lt : (t slot : ℕ) → 0 < t → t ≤ slot → slot < u32_mod → pred32 t < slot
pred32_lt t slot l h k = omega arith

run_proc-Within :
    (m : Machine) (p : Pcb) (t slot : ℕ)
    → 0 < t
    → t ≤ slot
    → slot < u32_mod
    → Returns (λ r. Within slot r.0) (run_proc m p t)
unfolding run_proc
run_proc-Within m p t slot l h k =
    Returns-bind (λ _. Unit) _ (use_block (m.block p.ptr)) _ (Returns-all _ _ (λ _. tt))
      (λ b _.
        Returns-bind (λ _. Unit) _ (run b.task (world m b)) _ (Returns-all _ _ (λ _. tt))
          (λ x _. pred32_lt t slot l h k))

first_load-Within :
    (m : Machine) (proc : Option Pcb) (t slot : ℕ)
    → t < slot
    → m.time_slot ≡ slot
    → FetchedWithin slot (first_load proc t, m)
first_load-Within m none t slot h e = (h, e)
first_load-Within m (some p) t slot h e = (h, e)

renew_running-Within :
    (m : Machine) (t slot : ℕ) (p : Pcb) (over : Bool)
    → t < slot
    → m.time_slot ≡ slot
    → Returns (FetchedWithin slot) (renew_running m t p over)
unfolding renew_running
renew_running-Within m t slot p true h e = (omega arith, e)
renew_running-Within m t slot p false h e = elim (Bool-cases (t == 0)) [
  | inl z ↦ rw z (
      Returns-bind (λ _. Unit) _ (put_proc m.sched p) _ (Returns-all _ _ (λ _. tt)) (λ s _. (h, e)))
  | inr z ↦ rw z (h, e)
]

renew-Within :
    (m : Machine) (t slot : ℕ) (proc : Option Pcb)
    → t < slot
    → m.time_slot ≡ slot
    → Returns (FetchedWithin slot) (renew m t proc)
unfolding renew
renew-Within m t slot none h e = first_load-Within _ _ t slot h e
renew-Within m t slot (some p) h e =
    Returns-bind (λ _. Unit) _ (use_block (m.block p.ptr)) _ (Returns-all _ _ (λ _. tt))
      (λ b _. renew_running-Within m t slot p (finished b) h e)

recheck-Within :
    (m : Machine) (f : Fetched) (slot : ℕ)
    → slot < u32_mod
    → FetchedWithin slot (f, m)
    → Returns (λ r. Within slot r.0) (recheck m f)
unfolding recheck
recheck-Within m (skipped t) slot k (h, e) = h
recheck-Within m (checked none t) slot k (h, e) = elim (Bool-cases m.done) [
  | inl d ↦ rw d tt
  | inr d ↦ rw d h
]
recheck-Within m (checked (some p) t) slot k (h, e) = elim (Bool-cases (t == 0)) [
  | inl z ↦ rw z (run_proc-Within m p m.time_slot slot (omega (arith, h, e)) (omega (arith, e)) k)
  | inr z ↦ rw z (run_proc-Within m p t slot (ground (arith, z)) (omega (arith, h)) k)
]

-- A pass that returns leaves `time_left` below the time slot when it was below it, and the slot is
-- below 2 ^ 32, whatever the processor holds and whatever the process does.
pub cpu_turn-Within :
    (m : Machine) (t slot : ℕ) (proc : Option Pcb)
    → slot < u32_mod
    → t < slot
    → m.time_slot ≡ slot
    → Returns (λ r. Within slot r.0) (cpu_turn m t proc)
unfolding cpu_turn
cpu_turn-Within m t slot proc k h e =
    Returns-bind (FetchedWithin slot) _ (renew m t proc) _ (renew-Within m t slot proc h e)
      (λ r h. recheck-Within r.1 r.0 slot k h)
