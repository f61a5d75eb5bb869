-- ===== src/Os/Share.antt =====
-- src/os.c: the processors and the loader on one machine. A step is a pass of one processor, or what
-- a pass of the loader does to the machine; any order of steps is an interleaving. The loader's
-- process stands in a block that `malloc` gave, which is not in use.
use os.Prelude.{ℕ, ◌<◌, ◌≡◌, Bool, true, false, Option, none, ok, update}
use os.Queue.{Pcb}
use os.Mm.{Mm}
use os.Loader.{Loaded}
use os.Os.{Machine, Pass, slot_over, stopped, cpu_turn}
use os.Os.Load.{admit}
use os.Os.Idle.{Idle}

-- the variables of `cpu_routine`; `gone` after its `break`
pub record Cpu : Type 0 where
  pub proc : Option Pcb
  pub time_left : ℕ
  pub gone : Bool

pub record Threads : Type 0 where
  pub machine : Machine
  pub num_cpus : ℕ
  pub cpu : ℕ → Cpu

abbrev pub after_pass : Pass → Cpu
after_pass (slot_over proc time_left) = record { proc = proc; time_left = time_left; gone = false }
after_pass stopped = record { proc = none; time_left = 0; gone = true }

abbrev pub with_pass : Threads → ℕ → Pass → Machine → Threads
with_pass s i pass m = record s { machine = m; cpu = update s.cpu i (after_pass pass) }

pub data Step (s t : Threads) : Type 0 where
  turn :
      (i : ℕ) (pass : Pass) (m : Machine)
      → i < s.num_cpus
      → (s.cpu i).gone ≡ false
      → cpu_turn s.machine (s.cpu i).time_left (s.cpu i).proc ≡ ok (pass, m)
      → t ≡ with_pass s i pass m
      → Step s t
  add :
      (ptr : ℕ) (fresh : Mm) (proc : Loaded) (prio : ℕ) (m : Machine)
      → s.machine.block ptr ≡ none
      → admit s.machine ptr fresh proc prio ≡ ok m
      → t ≡ record s { machine = m }
      → Step s t
  finish : t ≡ record s { machine = record s.machine { done = true } } → Step s t

-- what any number of steps reaches from the state in which `main` starts the threads
pub data Reach : Threads → Type 0 where
  begin : {s : Threads} → Idle s.machine.sched → ((i : ℕ) → (s.cpu i).proc ≡ none) → Reach s
  later : {s t : Threads} → Reach s → Step s t → Reach t
