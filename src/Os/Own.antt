-- ===== src/Os/Own.antt =====
-- src/os.c: how often the block of a process is in a ready queue or on a processor.
pub mod Counts
pub mod Turn
pub mod Apart
use os.Prelude.{ℕ, zero, suc, ◌+◌, Option, none, some, List, [], ◌∷◌, ◌==◌, if◌then◌else◌}
use os.Queue.{Pcb, Queue}
use os.Queue.Count.{held, count_in}
use os.Sched.{max_prio}
use os.Os.{Block}
use os.Os.Share.{Cpu, Threads}

abbrev pub sum : (ℕ → ℕ) → ℕ → ℕ
sum f zero = 0
sum f (suc n) = sum f n + f n

unfoldable pub ready_at : ℕ → (ℕ → Queue) → ℕ
ready_at ptr queues = sum (λ l. count_in ptr (queues l)) max_prio

abbrev pub running_at : ℕ → Threads → ℕ
running_at ptr s = sum (λ i. held ptr (s.cpu i).proc) s.num_cpus

-- how often a block may be in use
abbrev pub uses : Option Block → ℕ
uses none = 0
uses (some b) = 1
