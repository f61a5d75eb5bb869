-- ===== src/Tests/Heaps.antt =====
-- src/libmem.c: a process with an empty heap and cleared variables, whose pid is 7.
use os.Prelude.{ℕ, ◌+◌, ◌≤◌, ◌≡◌, refl, none, List, [], ◌∷◌, arith, ok}
use os.Queue.{Pcb}
use os.Memphy.{Memphy}
use os.PageTable.{calloc}
use os.Mm.{Region, Vma, Mm}
use os.Libmem.Cover.{covers}
use os.Mm64.{init_mm, init_vm_rg, enlist_vm_rg_node}
use os.Process.Isolation.Start.{cleared, first_area, init_mm-Heap}
use os.Syscall.{find_caller}
use os.Process
use os.Process.Heap.{Heap}
use os.Process.Heap.Calls.{Call, alloc_call, free_call, run_calls, Separate, run_calls-Separate}
use os.Tests.Together.{blank}

abbrev region : ℕ → ℕ → Region
region s e = record { rg_start = s; rg_end = e }

abbrev pub empty_mm : Mm
empty_mm = record {
  pgd = calloc 4;
  mmap = first_area ∷ [];
  symrgtbl = cleared 30;
  fifo_pgn = [];
  kcpooltbl = none;
}

abbrev pub pcb : ℕ → Pcb
pcb n = record { ptr = n; pid = n; priority = 0; prio = 0 }

-- RAM with four free frames
abbrev ram : Memphy
ram = record blank { free_fp_list = 3 ∷ 4 ∷ 5 ∷ 6 ∷ [] }

abbrev process : Process.World
process = record {
  user = empty_mm;
  krnl = record {
    mm = empty_mm;
    mram = ram;
    active_mswp = blank;
    active_mswp_id = 0;
    running_list = pcb 7 ∷ [];
    krnl_pgd = none;
  };
}

process-Heap : Heap process.user first_area
unfolding init_mm init_vm_rg enlist_vm_rg_node
process-Heap = init_mm-Heap empty_mm refl

-- Variable 2 takes the place of variable 0, and variable 1 is at the break.
abbrev some_calls : List Call
some_calls = alloc_call 0 100 ∷ alloc_call 1 5000 ∷ free_call 0 ∷ alloc_call 2 50 ∷ []

run_calls-Separate_example :
    (w' : Process.World) × (vma' : Vma) × (run_calls 7 some_calls process ≡ ok w')
    × (w'.user.mmap ≡ vma' ∷ [])
    × Separate w'.user.symrgtbl
    × ((a : ℕ) → covers a w'.user.symrgtbl + covers a vma'.vm_freerg_list ≤ 1)
run_calls-Separate_example =
    run_calls-Separate 7 some_calls process first_area process-Heap
      (
        (omega arith, omega arith),
        ((omega arith, omega arith), (omega arith, ((omega arith, omega arith), tt))),
      )
      (omega arith) (unfold find_caller in refl)
