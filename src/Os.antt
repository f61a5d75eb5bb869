-- ===== src/Os.antt =====
-- src/os.c: the processor threads. A pass of the loop of `cpu_routine` is one function here; what the
-- other threads do shows between two passes only. The blocks of the processes are a function from
-- addresses, `none` for one that is not allocated, whose use is a fault. The `int` time_left is its
-- bit pattern.
pub mod Turns
pub mod Idle
pub mod Load
pub mod Config
pub mod Boot
pub mod Ready
pub mod Dispatch
pub mod Start
pub mod Reading
pub mod Share
pub mod Own
pub mod Finish
pub mod Synced
pub mod Keep
pub mod Life
use os.Prelude.{
  ℕ, zero, suc, ◌+◌, ◌-◌, ◌%◌, Bool, true, false, Option, none, some, ◌==◌, if◌then◌else◌, Exec, ok,
  fault, ◌>>=◌, length, update,
}
use os.Prelude.Words.{u32_mod}
use os.Queue.{Pcb}
use os.Sched.{Sched, get_proc, put_proc}
use os.Mm.{Mm, Krnl}
use os.Process.{World}
use os.Cpu.{Task, run}

-- what stands behind a `struct pcb_t *` but for the fields of `Pcb`
pub record Block : Type 0 where
  pub task : Task
  pub mm : Mm

-- The static variables of src/os.c that the threads use, and those of the scheduler. The running list
-- of `os` is the scheduler's.
pub record Machine : Type 0 where
  pub sched : Sched
  pub os : Krnl
  pub block : ℕ → Option Block
  pub done : Bool
  pub time_slot : ℕ

unfoldable pub use_block : Option Block → Exec Block
use_block none = fault
use_block (some b) = ok b

-- `proc->pc == proc->code->size`
unfoldable pub finished : Block → Bool
finished b = b.task.pc == length b.task.text

abbrev pub next_proc : Machine → Option Pcb × Machine
next_proc m = let (proc, sched) = get_proc m.sched in (proc, record m { sched = sched })

-- `free(proc)`
abbrev pub free_proc : Machine → ℕ → Machine
free_proc m ptr = record m { block = update m.block ptr none }

-- What the first tests of a pass leave: no process at the first load, which ends the pass, or the
-- process to look at again; with `time_left`.
pub data Fetched : Type 0 where
  skipped : ℕ → Fetched
  checked : Option Pcb → ℕ → Fetched

abbrev pub first_load : Option Pcb → ℕ → Fetched
first_load none time_left = skipped time_left
first_load (some proc) time_left = checked (some proc) time_left

-- the tests of a pass with a process, of which `over` says whether it has finished
unfoldable pub renew_running : Machine → ℕ → Pcb → Bool → Exec (Fetched × Machine)
renew_running m time_left p true =
    let (proc, m') = next_proc (free_proc m p.ptr) in ok (checked proc 0, m')
renew_running m time_left p false =
    let again = (do
      sched ← put_proc m.sched p
      let (proc, m') = next_proc (record m { sched = sched })
      ok (checked proc time_left, m')) in
    if time_left == 0 then again else ok (checked (some p) time_left, m)

unfoldable pub renew : Machine → ℕ → Option Pcb → Exec (Fetched × Machine)
renew m time_left none = let (proc, m') = next_proc m in ok (first_load proc time_left, m')
renew m time_left (some p) = do
  b ← use_block (m.block p.ptr)
  renew_running m time_left p (finished b)

abbrev pub pred32 : ℕ → ℕ
pred32 x = (x + (u32_mod - 1)) % u32_mod

-- `proc->krnl` and `proc->mm`
abbrev pub world : Machine → Block → World
world m b = record { user = b.mm; krnl = record m.os { running_list = m.sched.running_list } }

-- How a pass ends: with `next_slot`, the process and `time_left`, or by `break`, behind which comes
-- `detach_event`.
pub data Pass : Type 0 where
  slot_over : Option Pcb → ℕ → Pass
  stopped : Pass

unfoldable pub run_proc : Machine → Pcb → ℕ → Exec (Pass × Machine)
run_proc m p time_left = do
  b ← use_block (m.block p.ptr)
  (stat, task, w) ← run b.task (world m b)
  ok (
    slot_over (some p) (pred32 time_left),
    record m {
      os = w.krnl;
      block = update m.block p.ptr (some (record { task = task; mm = w.user }));
    },
  )

-- the tests of a pass after the process was renewed, and the run
unfoldable pub recheck : Machine → Fetched → Exec (Pass × Machine)
recheck m (skipped time_left) = ok (slot_over none time_left, m)
recheck m (checked none time_left) = ok (if m.done then stopped else slot_over none time_left, m)
recheck m (checked (some p) time_left) =
    run_proc m p (if time_left == 0 then m.time_slot else time_left)

-- one pass of the loop of `cpu_routine`
unfoldable pub cpu_turn : Machine → ℕ → Option Pcb → Exec (Pass × Machine)
cpu_turn m time_left proc = do (fetched, m') ← renew m time_left proc; recheck m' fetched

-- `n` passes of one processor, or fewer when it stops
unfoldable pub cpu_turns : ℕ → Machine → ℕ → Option Pcb → Exec (Pass × Machine)
cpu_turns zero m time_left proc = ok (slot_over proc time_left, m)
cpu_turns (suc n) m time_left proc = do
  (pass, m') ← cpu_turn m time_left proc
  elim pass [
    | slot_over proc' time_left' ↦ cpu_turns n m' time_left' proc'
    | stopped ↦ ok (stopped, m')
  ]
