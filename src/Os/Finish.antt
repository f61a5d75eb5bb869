-- ===== src/Os/Finish.antt =====
-- src/os.c: the passes of a process that only computes.
use os.Prelude.{
  ℕ, zero, suc, ◌+◌, ◌<◌, ◌≡◌, refl, ap, ◌∙◌, true, false, none, some, List, [], ◌∷◌, arith, length,
  get_elem?, ◌==◌, ==_iff, if◌then◌else◌, lt→ltb, Bool-cases, inl, inr, All, ok, success,
}
use os.Queue.{Pcb, enqueue, purgequeue}
use os.Sched.{Sched, max_prio, put_mlq_proc, put_proc}
use os.Process.{World}
use os.Cpu.{Opcode, Inst, Task, execute, run}
use os.Os.{
  Block, Machine, finished, use_block, renew_running, renew, pred32, world, slot_over, stopped,
  recheck, run_proc, cpu_turn, cpu_turns,
}
use os.Os.Turns.{run_proc-ok}
use os.Os.Idle.{Idle, cpu_turn-stops}
use os.Os.Dispatch.{with_one, get_proc-one}

abbrev pub IsCalc : Inst → Type 0
IsCalc i = i.opcode ≡ Opcode.calc

get_elem?-IsCalc :
    (text : List Inst) (k : ℕ)
    → All IsCalc text
    → k < length text
    → (i : Inst) × (get_elem? text k ≡ some i) × IsCalc i
get_elem?-IsCalc [] k h l = absurd (omega arith)
get_elem?-IsCalc (i ∷ text) zero h l = (i, refl, h.0)
get_elem?-IsCalc (i ∷ text) (suc k) h l = get_elem?-IsCalc text k h.1 (omega arith)

run-calc :
    (t : Task) (w : World)
    → All IsCalc t.text
    → t.pc < length t.text
    → run t w ≡ ok (success, record t { pc = t.pc + 1 }, w)
unfolding run execute
run-calc t w h l = let (i, e, c) = get_elem?-IsCalc t.text t.pc h l in rw (e, run, execute, c) refl

put_proc-Idle :
    (s : Sched) (p : Pcb)
    → Idle s
    → p.prio < max_prio
    → put_proc s p
      ≡ ok (with_one (record s { running_list = (purgequeue s.running_list (some p)).1 }) p)
unfolding put_proc put_mlq_proc enqueue
put_proc-Idle s p h l = rw (lt→ltb _ _ l, h.1 p.prio l) refl

-- A machine on which only the process `p` is left, with `n` CALC instructions to go.
pub record IsLast (m : Machine) (p : Pcb) (b : Block) (n : ℕ) : Type 0 where
  pub idle : Idle m.sched
  pub over : m.done ≡ true
  pub level : p.prio < max_prio
  pub block : m.block p.ptr ≡ some b
  pub calcs : All IsCalc b.task.text
  pub to_go : b.task.pc + n ≡ length b.task.text

-- the block after one instruction
abbrev next_block : Block → Block
next_block b = record b { task = record b.task { pc = b.task.pc + 1 } }

unfinished : (b : Block) (n : ℕ) → b.task.pc + suc n ≡ length b.task.text → finished b ≡ false
unfolding finished
unfinished b n h = ground arith

-- The process, once it has been chosen again, runs an instruction and is the last one still.
pub IsLast-run_proc :
    (m : Machine) (p : Pcb) (b : Block) (n t : ℕ)
    → IsLast m p b (suc n)
    → (m' : Machine) × (run_proc m p t ≡ ok (slot_over (some p) (pred32 t), m'))
      × IsLast m' p (next_block b) n
IsLast-run_proc m p b n t v = (
  _,
  run_proc-ok m p b t success _ _ v.block
      (run-calc b.task (world m b) v.calcs (omega (arith, v.to_go))),
  record {
    idle = v.idle;
    over = v.over;
    level = v.level;
    block = rw ((==_iff p.ptr p.ptr).1 refl) refl;
    calcs = v.calcs;
    to_go = omega (arith, v.to_go);
  },
)

-- the machine when the scheduler has changed
with_sched :
    (m : Machine) (p : Pcb) (b : Block) (n : ℕ) (s : Sched)
    → Idle s
    → IsLast m p b n
    → IsLast (record m { sched = s }) p b n
with_sched m p b n s i v = record {
  idle = i;
  over = v.over;
  level = v.level;
  block = v.block;
  calcs = v.calcs;
  to_go = v.to_go;
}

IsLast-cpu_turn :
    (m : Machine) (p : Pcb) (b : Block) (n t : ℕ)
    → IsLast m p b (suc n)
    → (t' : ℕ) × (m' : Machine) × (cpu_turn m t (some p) ≡ ok (slot_over (some p) t', m'))
      × IsLast m' p (next_block b) n
unfolding cpu_turn renew recheck use_block renew_running
IsLast-cpu_turn m p b n t v = elim (Bool-cases (t == 0)) [
  | inl e ↦
      let purged = record m.sched { running_list = (purgequeue m.sched.running_list (some p)).1 } in
      let (s, g, r, i) = get_proc-one purged p v.idle v.level in
      let (m', run, last) =
        IsLast-run_proc (record m { sched = s }) p b n m.time_slot
          (with_sched m p b (suc n) s i v) in
      (
        pred32 m.time_slot,
        m',
        rw (v.block, unfinished b n v.to_go, e, put_proc-Idle m.sched p v.idle v.level, g)
            (ap (λ c. run_proc (record m { sched = s }) p (if c then m.time_slot else t)) e ∙ run),
        last,
      )
  | inr e ↦
      let (m', run, last) = IsLast-run_proc m p b n t v in
      (
        pred32 t,
        m',
        rw (v.block, unfinished b n v.to_go, e)
            (ap (λ c. run_proc m p (if c then m.time_slot else t)) e ∙ run),
        last,
      )
]

at_end : (b : Block) → b.task.pc + 0 ≡ length b.task.text → finished b ≡ true
unfolding finished
at_end b h = ground arith

-- A process of CALC instructions at a level below MAX_PRIO, on a processor, with `n` instructions to go,
-- comes to its end whatever the time slot is, if no other process is ready and `done` is set: in
-- `n + 1` passes of that processor alone it runs its instructions, its block is freed, and the processor
-- stops.
pub cpu_turns-finish :
    (n : ℕ) (m : Machine) (p : Pcb) (b : Block) (t : ℕ)
    → IsLast m p b n
    → (m' : Machine) × (cpu_turns (suc n) m t (some p) ≡ ok (stopped, m')) × (m'.block p.ptr ≡ none)
unfolding cpu_turns
cpu_turns-finish zero m p b t v =
    let (m', run, freed, same) = cpu_turn-stops m t p b v.idle v.over v.block (at_end b v.to_go) in
    (m', rw run refl, freed)
cpu_turns-finish (suc n) m p b t v =
    let (t', m₁, run, last) = IsLast-cpu_turn m p b n t v in
    let (m', rest, freed) = cpu_turns-finish n m₁ p (next_block b) t' last in
    (m', rw run rest, freed)
