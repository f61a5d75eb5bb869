-- ===== src/Process/Isolation.antt =====
-- src/libmem.c and src/mm64.c: the processes of a system, which share RAM and each have a page table.
pub mod Frames
pub mod Calls
pub mod Bytes
pub mod Start
pub mod Steps
pub mod Runs
pub mod Aliased
use os.Prelude.{
  ℕ, ◌+◌, ◌%◌, ◌^◌, ◌≤◌, ◌<◌, ◌≡◌, Bool, false, List, [], ◌∷◌, ◌==◌, Exec, ok, ◌>>=◌, update,
}
use os.Prelude.Words.{u32_mod}
use os.Pte.{page_present, paging_fpn}
use os.PageTable.{Pgd}
use os.PageTable.Entries.{entry}
use os.Memphy.Times.{times}
use os.Mm.{Mm, Krnl}
use os.Process
use os.Process.Heap.Calls.{Call, alloc_call, free_call}

-- the kernel, and the `mm` of each process
pub record Processes : Type 0 where
  pub krnl : Krnl
  pub mm : ℕ → Mm

abbrev pub process : Processes → ℕ → Process.World
process s i = record { user = s.mm i; krnl = s.krnl }

-- the system after a call of the process `i`
abbrev pub after : Processes → ℕ → Process.World → Processes
after s i w = record { krnl = w.krnl; mm = update s.mm i w.user }

-- a call of the process `i`, whose pid is `pid i`
unfoldable pub call : (ℕ → ℕ) → ℕ → Call → Processes → Exec Processes
call pid i (alloc_call rgid size) s = do
  (addr, w) ← Process.alloc (process s i) (pid i) 0 rgid size
  ok (after s i w)
call pid i (free_call rgid) s = do (rc, w) ← Process.free (process s i) rgid; ok (after s i w)

-- calls of the processes, in the order in which `mmvm_lock` lets them in
unfoldable pub run_calls : (ℕ → ℕ) → List (ℕ × Call) → Processes → Exec Processes
run_calls pid [] s = ok s
run_calls pid ((i, c) ∷ cs) s = do s' ← call pid i c s; run_calls pid cs s'

abbrev pub IsPresent : Pgd → ℕ → Type 0
IsPresent pgd q = (page_present (entry pgd q % u32_mod) == 0) ≡ false

abbrev pub frame_of : Pgd → ℕ → ℕ
frame_of pgd q = paging_fpn (entry pgd q % u32_mod)

-- Each frame is free, or it is that of one page of one of the `n` processes, or neither.
pub record Apart (s : Processes) (n : ℕ) : Type 0 where
  pub small : (f : ℕ) → 2 ^ 13 ≤ f → times f s.krnl.mram.free_fp_list ≡ 0
  pub once : (f : ℕ) → times f s.krnl.mram.free_fp_list ≤ 1
  pub taken :
      (i q : ℕ)
      → i < n
      → q < 2 ^ 45
      → IsPresent (s.mm i).pgd q
      → times (frame_of (s.mm i).pgd q) s.krnl.mram.free_fp_list ≡ 0
  pub own :
      (i j p q : ℕ)
      → i < n
      → j < n
      → p < 2 ^ 45
      → q < 2 ^ 45
      → IsPresent (s.mm i).pgd p
      → IsPresent (s.mm j).pgd q
      → frame_of (s.mm i).pgd p ≡ frame_of (s.mm j).pgd q
      → (i ≡ j) × (p ≡ q)
