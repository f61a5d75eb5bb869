-- ===== src/Os/Load.antt =====
-- src/os.c: the loader thread. A pass of `ld_routine` ends at each call of `next_slot`, of which one
-- stands in the loop that waits for the start time and one behind the call of `add_proc`.
use Prim.Native.String.{String}
use os.Prelude.{
  ℕ, zero, suc, ◌+◌, ◌%◌, Option, none, some, List, [], ◌∷◌, true, false, ltb, if◌then◌else◌, Exec,
  ok, ◌>>=◌, update,
}
use os.Prelude.Words.{u32_mod}
use os.Queue.{Pcb}
use os.Sched.{add_proc}
use os.Mm.{Mm, Krnl}
use os.Mm64.{init_mm}
use os.Memphy.{Memphy}
use os.Cpu.{Inst, Task}
use os.Loader.{Stdio, Loaded, load}
use os.Os.{Block, Machine}

-- what `ld_routine` does to `os` before its loop; `zeroed` is the `mm` that `calloc` gives
unfoldable pub init_os : Krnl → Mm → Memphy → Memphy → Krnl
init_os os zeroed mram active_mswp = record os {
  krnl_pgd = some (λ _. none);
  mm = init_mm zeroed true;
  mram = mram;
  active_mswp = active_mswp;
}

-- a process that was loaded enters the ready queues; `ptr` is the address of its block, and `fresh`
-- the `mm` that `malloc` gives
unfoldable pub admit : Machine → ℕ → Mm → Loaded → ℕ → Exec Machine
admit m ptr fresh proc prio =
    let task : Task = record { pid = proc.pid; pc = proc.pc; text = proc.text } in
    let block : Block = record { task = task; mm = init_mm fresh false } in
    let pcb : Pcb = record {
      ptr = ptr;
      pid = proc.pid;
      priority = proc.priority;
      prio = prio % u32_mod;
    } in
    do
      sched ← add_proc m.sched pcb
      ok (record m { sched = sched; block = update m.block ptr (some block) })

-- the memory that the C library hands out for a process, with what it holds: the address of the
-- block, its `mm`, and what `load` leaves unwritten
pub record Fresh (c : Stdio) : Type 0 where
  pub ptr : ℕ
  pub mm : Mm
  pub text : ℕ → Inst
  pub opcode : String
  pub buf : c.File

-- an entry of `ld_processes`; `file` is what `fopen` of its path gives
pub record Job (c : Stdio) : Type 0 where
  pub file : Option c.File
  pub start_time : ℕ
  pub prio : ℕ
  pub fresh : Fresh c

-- Where the loader stands: before the `load` of the first job, or behind it.
pub data LdPc (c : Stdio) : Type 0 where
  to_load : List (Job c) → LdPc c
  to_add : Loaded → Job c → List (Job c) → LdPc c

-- How a pass ends: with `next_slot`, with `detach_event`, or with `exit(1)`.
pub data LdPass (c : Stdio) : Type 0 where
  ld_slot : ℕ → LdPc c → LdPass c
  ld_stopped ld_exit : LdPass c

module _ (c : Stdio) where
  -- from the test of the start time on
  unfoldable pub ld_add :
      Machine → ℕ → ℕ → Loaded → Job c → List (Job c) → Exec (LdPass c × Machine)
  ld_add m time avail_pid proc j js =
      let added = (do
        m' ← admit m j.fresh.ptr j.fresh.mm proc j.prio
        ok (ld_slot avail_pid (to_load js), m')) in
      if ltb time j.start_time then ok (ld_slot avail_pid (to_add proc j js), m) else added

  unfoldable pub ld_loaded :
      Machine → ℕ → Job c → List (Job c) → Option Loaded × ℕ → Exec (LdPass c × Machine)
  ld_loaded m time j js (none, avail_pid) = ok (ld_exit, m)
  ld_loaded m time j js (some proc, avail_pid) = ld_add m time avail_pid proc j js

  -- one pass of `ld_routine`, at the time that `current_time` gives
  unfoldable pub ld_turn : Machine → ℕ → ℕ → LdPc c → Exec (LdPass c × Machine)
  ld_turn m time avail_pid (to_load []) = ok (ld_stopped, record m { done = true })
  ld_turn m time avail_pid (to_load (j ∷ js)) = do
    loaded ← load c j.fresh.text j.fresh.opcode j.fresh.buf avail_pid j.file
    ld_loaded m time j js loaded
  ld_turn m time avail_pid (to_add proc j js) = ld_add m time avail_pid proc j js

  -- `n` passes, with one step of the clock in each, or fewer when the loader ends
  unfoldable pub ld_turns : ℕ → Machine → ℕ → ℕ → LdPc c → Exec (LdPass c × Machine)
  ld_turns zero m time avail_pid pc = ok (ld_slot avail_pid pc, m)
  ld_turns (suc n) m time avail_pid pc = do
    (pass, m') ← ld_turn m time avail_pid pc
    elim pass [
      | ld_slot avail_pid' pc' ↦ ld_turns n m' (time + 1) avail_pid' pc'
      | ld_stopped ↦ ok (ld_stopped, m')
      | ld_exit ↦ ok (ld_exit, m')
    ]
