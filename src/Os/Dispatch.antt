-- ===== src/Os/Dispatch.antt =====
-- src/os.c and src/sched.c: from the loader through the ready queues to a processor.
use os.Prelude.{
  ℕ, ◌+◌, ◌-◌, ◌%◌, ◌<◌, ◌≡◌, refl, ap, ◌∙◌, Option, none, some, [], ◌∷◌, false, arith, lt→ltb,
  ◌==◌, ==_iff, update, ok, Bool-cases, inl, inr, leb, Exec,
}
use os.Prelude.Words.{u32_mod}
use os.Queue.{Pcb, Queue, enqueue, dequeue, find_best, compact}
use os.Sched.{Sched, max_prio, add_mlq_proc, add_proc, get_proc}
use os.Sched.Pick.{level, slots_used, level_after, get_mlq_proc_first}
use os.Mm.{Mm}
use os.Mm64.{init_mm}
use os.Loader.{Loaded}
use os.Os.{Machine, Block, Pass, first_load, renew, recheck, run_proc, cpu_turn}
use os.Os.Load.{admit}
use os.Os.Idle.{Idle}

-- the ready queues with one process, in the queue of its level
abbrev pub with_one : Sched → Pcb → Sched
with_one s p = record s { mlq_ready_queue = update s.mlq_ready_queue p.prio (p ∷ []) }

add_proc-Idle :
    (s : Sched) (p : Pcb) → Idle s → p.prio < max_prio → add_proc s p ≡ ok (with_one s p)
unfolding add_proc add_mlq_proc enqueue
add_proc-Idle s p h l = rw (lt→ltb _ _ l, h.1 p.prio l) refl

-- how many levels the search goes to reach a level
abbrev ahead : Sched → ℕ → ℕ
ahead s p = (p + (max_prio - s.curr_prio)) % max_prio

level-ahead : (s : Sched) (p : ℕ) → s.curr_prio < max_prio → p < max_prio → level s (ahead s p) ≡ p
level-ahead s p c l = omega arith

level_before :
    (s : Sched) (p j : ℕ)
    → s.curr_prio < max_prio
    → p < max_prio
    → j < ahead s p
    → (p == level s j) ≡ false
level_before s p j c l h = ground arith

dequeue_one : (p : Pcb) → dequeue (p ∷ []) ≡ (some p, [])
unfolding dequeue find_best compact
dequeue_one p = refl

level_lt : (s : Sched) (k : ℕ) → level s k < max_prio
level_lt s k = omega arith

-- the scheduler once a process of level `l` was taken from its queue
abbrev taken : Sched → Pcb → ℕ → Option Pcb × Queue → Option Pcb × Sched
taken s p l (proc, q) =
    let (next, used) = level_after s l (slots_used s (ahead s p.prio)) in
    (
      proc,
      record s {
        mlq_ready_queue = update (with_one s p).mlq_ready_queue l q;
        running_list = enqueue s.running_list proc;
        curr_prio = next;
        curr_slot_cnt = used;
      },
    )

level_after_lt : (s : Sched) (l used : ℕ) → l < max_prio → (level_after s l used).0 < max_prio
level_after_lt s l used h = elim (Bool-cases (leb (s.slot l) (used + 1))) [
  | inl e ↦ rw e (omega arith)
  | inr e ↦ rw e h
]

pub get_proc-one :
    (s : Sched) (p : Pcb)
    → Idle s
    → p.prio < max_prio
    → (t : Sched) × (get_proc (with_one s p) ≡ (some p, t))
      × (t.running_list ≡ enqueue s.running_list (some p))
      × Idle t
unfolding get_proc
get_proc-one s p (c, h) l =
    let k = ahead s p.prio in
    let at = level-ahead s p.prio c l in
    let same = (==_iff p.prio p.prio).1 refl in
    let queues = (with_one s p).mlq_ready_queue in
    let here : queues p.prio ≡ p ∷ [] = rw same refl in
    (
      (taken s p p.prio (some p, [])).1,
      get_mlq_proc_first (with_one s p) k c (omega arith)
            (λ j b. rw (level_before s p.prio j c l b) (h (level s j) (level_lt s j)))
            (rw (at, same) (omega arith))
          ∙ ap (λ i. taken s p i (dequeue (queues i))) at
          ∙ ap (λ q. taken s p p.prio (dequeue q)) here
          ∙ ap (taken s p p.prio) (dequeue_one p),
      refl,
      (
        level_after_lt s p.prio _ l,
        λ j b. elim (Bool-cases (p.prio == j)) [ inl e ↦ rw e refl | inr e ↦ rw e (h j b) ],
      ),
    )

-- the control block of a process that was loaded, and what stands behind it
abbrev pub control_block : ℕ → Loaded → ℕ → Pcb
control_block ptr proc prio = record {
  ptr = ptr;
  pid = proc.pid;
  priority = proc.priority;
  prio = prio % u32_mod;
}

abbrev pub new_block : Mm → Loaded → Block
new_block fresh proc = record {
  task = record { pid = proc.pid; pc = proc.pc; text = proc.text };
  mm = init_mm fresh false;
}

-- the machine after a process was admitted while none was ready
abbrev pub with_admitted : Machine → ℕ → Mm → Loaded → ℕ → Machine
with_admitted m ptr fresh proc prio = record m {
  sched = with_one m.sched (control_block ptr proc prio);
  block = update m.block ptr (some (new_block fresh proc));
}

pub admit-Idle :
    (m : Machine) (ptr : ℕ) (fresh : Mm) (proc : Loaded) (prio : ℕ)
    → Idle m.sched
    → prio % u32_mod < max_prio
    → admit m ptr fresh proc prio ≡ ok (with_admitted m ptr fresh proc prio)
unfolding admit
admit-Idle m ptr fresh proc prio h l =
    rw (add_proc-Idle m.sched (control_block ptr proc prio) h l) refl

-- A processor without a process takes the only one that is ready.
pub cpu_turn-one :
    (m : Machine) (s : Sched) (p : Pcb)
    → m.sched ≡ with_one s p
    → Idle s
    → p.prio < max_prio
    → (t : Sched) × (cpu_turn m 0 none ≡ run_proc (record m { sched = t }) p m.time_slot)
      × (t.running_list ≡ enqueue s.running_list (some p))
      × Idle t
unfolding cpu_turn renew recheck
cpu_turn-one m s p e h l =
    let (t, g, r, i) = get_proc-one s p h l in
    (t, ap (λ x. taken_first (get_proc x)) e ∙ ap taken_first g, r, i)
  where
    taken_first : Option Pcb × Sched → Exec (Pass × Machine)
    taken_first (proc, t) = recheck (record m { sched = t }) (first_load proc 0)

-- When no process is ready, the process that the loader admits, at a level below MAX_PRIO, is the one
-- that the next pass of a processor without a process runs, with a whole time slot, in a fresh `mm`;
-- it is then enqueued to the running list, and no process is ready again.
pub admit-cpu_turn :
    (m : Machine) (ptr : ℕ) (fresh : Mm) (proc : Loaded) (prio : ℕ)
    → Idle m.sched
    → prio % u32_mod < max_prio
    → let p = control_block ptr proc prio in
      (m' : Machine) × (m'' : Machine) × (admit m ptr fresh proc prio ≡ ok m')
      × (cpu_turn m' 0 none ≡ run_proc m'' p m.time_slot)
      × (m''.block ptr ≡ some (new_block fresh proc))
      × (m''.sched.running_list ≡ enqueue m.sched.running_list (some p))
      × Idle m''.sched
admit-cpu_turn m ptr fresh proc prio h l =
    let p = control_block ptr proc prio in
    let m' = with_admitted m ptr fresh proc prio in
    let (t, e, r, i) = cpu_turn-one m' m.sched p refl h l in
    (
      m',
      record m' { sched = t },
      admit-Idle m ptr fresh proc prio h l,
      e,
      rw ((==_iff ptr ptr).1 refl) refl,
      r,
      i,
    )
