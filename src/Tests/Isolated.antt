-- ===== src/Tests/Isolated.antt =====
-- src/libmem.c: two processes that start on one RAM.
use os.Prelude.{ℕ, zero, suc, ◌<◌, ◌≡◌, refl, true, false, none, List, [], ◌∷◌, arith, ok}
use os.Memphy.{init_memphy}
use os.Mm64.{init_mm}
use os.Syscall.{find_caller}
use os.Process.Heap.Calls.{Call, alloc_call, free_call, Separate}
use os.Process.Isolation.{Processes, run_calls, Apart}
use os.Process.Isolation.Start.{start-run_calls}
use os.Tests.Together.{blank}
use os.Tests.Heaps.{empty_mm, pcb}

-- the processes 0 and 1, with the pids 1 and 2, on RAM of four frames
abbrev pub starting : Processes
starting = record {
  krnl = record {
    mm = empty_mm;
    mram = init_memphy [] blank 1024 true;
    active_mswp = blank;
    active_mswp_id = 0;
    running_list = pcb 1 ∷ pcb 2 ∷ [];
    krnl_pgd = none;
  };
  mm = λ _. init_mm empty_mm false;
}

-- The first process takes three of the frames, and the second finds too few.
abbrev calls_of_both : List (ℕ × Call)
calls_of_both =
    (0, alloc_call 0 100) ∷ (1, alloc_call 0 5000) ∷ (0, free_call 0) ∷ (1, alloc_call 1 50) ∷ []

pub listed : (i : ℕ) → i < 2 → find_caller starting.krnl.running_list (suc i) ≡ true
unfolding find_caller
listed zero h = refl
listed (suc zero) h = refl
listed (suc (suc i)) h = absurd (omega arith)

start-run_calls_example :
    (s' : Processes) × (run_calls suc calls_of_both starting ≡ ok s')
    × Apart s' 2
    × ((i : ℕ) → i < 2 → Separate (s'.mm i).symrgtbl)
start-run_calls_example =
    start-run_calls starting 2 (λ i h. (empty_mm, refl, refl)) [] blank 1024 refl (omega arith)
      (omega arith) suc calls_of_both listed
      (
        omega arith,
        (omega arith, omega arith),
        (
          omega arith,
          (omega arith, omega arith),
          (omega arith, omega arith, (omega arith, (omega arith, omega arith), tt)),
        ),
      )
      (omega arith)
