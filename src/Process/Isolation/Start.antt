-- ===== src/Process/Isolation/Start.antt =====
-- src/libmem.c, src/mm64.c and src/mm-memphy.c: processes that start with an empty heap each, on RAM
-- whose frames are all free.
use os.Prelude.{
  ℕ, zero, suc, ◌/◌, ◌%◌, ◌^◌, ◌≤◌, ◌<◌, ◌≡◌, refl, ap, sym, ◌∙◌, true, false, List, [], ◌∷◌, arith,
  ok, ◌==◌, All, length,
}
use mathlib.Core.Path.{subst}
use os.Prelude.Words.{u32_mod}
use os.Pte.{page_present}
use os.Pte.Fields.{page_present_lem}
use os.PageTable.{calloc, table_or_new, deref, route_of}
use os.PageTable.Entries.{entry}
use os.Memphy.{Memphy, init_memphy, frames}
use os.Memphy.Frames.{free_list-init_memphy}
use os.Memphy.Times.{times, times-frames}
use os.Mm.{Region, Vma, Mm}
use os.Mm64.{init_mm}
use os.Vm.Grow.{IsHeap}
use os.Libmem.Cover.{covers, cover_empty}
use os.Libmem.FreeList.{IsRegion}
use os.Syscall.{find_caller}
use os.Process.Heap.{Heap}
use os.Process.Heap.Calls.{Call, Separate, Heap-Separate}
use os.Process.Isolation.{Processes, process, run_calls, IsPresent, Apart}
use os.Process.Isolation.Calls.{Sound, AreProper, total, run_calls-Sound}

-- a table of `n` variables that are not allocated
abbrev pub cleared : ℕ → List Region
cleared zero = []
cleared (suc n) = record { rg_start = 0; rg_end = 0 } ∷ cleared n

-- the area that `init_mm` makes for a process
abbrev pub first_area : Vma
first_area = record { vm_id = 0; vm_start = 0; vm_end = 0; sbrk = 0; vm_freerg_list = cleared 1 }

pub covers-cleared : (a n : ℕ) → covers a (cleared n) ≡ 0
covers-cleared a zero = refl
covers-cleared a (suc n) = omega (arith, cover_empty a 0 0 (omega arith), covers-cleared a n)

pub cleared-IsRegion : (n : ℕ) → All IsRegion (cleared n)
cleared-IsRegion zero = tt
cleared-IsRegion (suc n) = ((omega arith, omega arith), cleared-IsRegion n)

init_mm-IsHeap : (fresh : Mm) → IsHeap (init_mm fresh false) first_area
unfolding init_mm os.Mm64.init_vm_rg os.Mm64.enlist_vm_rg_node
init_mm-IsHeap fresh = record { single = refl; full = refl; ordered = omega arith; aligned = refl }

pub init_mm-Heap :
    (fresh : Mm) → fresh.symrgtbl ≡ cleared 30 → Heap (init_mm fresh false) first_area
unfolding init_mm
init_mm-Heap fresh e = record {
  area = init_mm-IsHeap fresh;
  table = ap length e;
  variables = subst (All IsRegion) (sym e) (cleared-IsRegion 30);
  free = cleared-IsRegion 1;
  once = λ a. omega (arith, ap (covers a) e, covers-cleared a 30, covers-cleared a 1);
  unused = λ a l. omega (arith, ap (covers a) e, covers-cleared a 30, covers-cleared a 1);
}

not_present : (x : ℕ) → x ≡ 0 → (page_present (x % u32_mod) == 0) ≡ true
not_present x e = ground (arith, page_present_lem (x % u32_mod))

-- A process starts without a page in RAM.
init_mm-absent : (fresh : Mm) (q : ℕ) → IsPresent (init_mm fresh false).pgd q → ⊥
unfolding init_mm entry calloc deref route_of table_or_new
init_mm-absent fresh q p = cc (p, not_present (entry (calloc 4) q) refl)

-- the processes below `n` as `init_mm` leaves them, with no variable allocated
abbrev pub AreFresh : Processes → ℕ → Type 0
AreFresh s n =
    (i : ℕ) → i < n → (fresh : Mm) × (s.mm i ≡ init_mm fresh false) × (fresh.symrgtbl ≡ cleared 30)

module _ (s : Processes) (n : ℕ) (fresh : AreFresh s n) (stray : List ℕ) (old : Memphy) (size : ℕ)
    (ram : s.krnl.mram ≡ init_memphy stray old size true) (least : 512 ≤ size)
    (most : size ≤ 2 ^ 21) where
  free_at_start : s.krnl.mram.free_fp_list ≡ frames (size / 256) 0
  free_at_start =
      ap (λ (m : Memphy). m.free_fp_list) ram
      ∙ free_list-init_memphy stray old size true (omega arith) (omega arith)

  absent : (i q : ℕ) → i < n → IsPresent (s.mm i).pgd q → ⊥
  absent i q h p =
      let (old_mm, same, table) = fresh i h in
      init_mm-absent old_mm q (subst (λ (mm : Mm). IsPresent mm.pgd q) same p)

  start-Apart : Apart s n
  start-Apart = record {
    small = λ f h.
        omega
          (arith, ap (times f) free_at_start, (times-frames f (size / 256) 0).2 (omega (arith, h)));
    once = λ f. omega (arith, ap (times f) free_at_start, (times-frames f (size / 256) 0).0);
    taken = λ i q h b p. absurd (absent i q h p);
    own = λ i j p q hi hj hp hq x y e. absurd (absent i p hi x);
  }

  start-Sound :
      (pid : ℕ → ℕ)
      → ((i : ℕ) → i < n → find_caller s.krnl.running_list (pid i) ≡ true)
      → Sound pid n s (λ _. first_area)
  start-Sound pid listed = record {
    heaps = λ i h.
        let (old_mm, same, table) = fresh i h in
        subst (λ mm. Heap mm first_area) (sym same) (init_mm-Heap old_mm table);
    listed = listed;
    apart = start-Apart;
  }

  -- Processes start as `init_mm` leaves them, with no variable allocated, on RAM of 512 bytes to 2 MB
  -- that was just initialised, and are in the running list. They allocate and free variables, in any
  -- order and while the sizes, with a page for each, sum up to at most 2 ^ 31. Then every call
  -- returns, with or without free frames, and afterwards no frame is behind two pages, of one process
  -- or of two, or both behind a page and free, and no two variables of a process share an address.
  pub start-run_calls :
      (pid : ℕ → ℕ) (cs : List (ℕ × Call))
      → ((i : ℕ) → i < n → find_caller s.krnl.running_list (pid i) ≡ true)
      → AreProper n cs
      → total cs ≤ 2 ^ 31
      → (s' : Processes) × (run_calls pid cs s ≡ ok s')
        × Apart s' n
        × ((i : ℕ) → i < n → Separate (s'.mm i).symrgtbl)
  start-run_calls pid cs listed proper b =
      let (s', vma, run, sound) =
        run_calls-Sound pid n cs s (λ _. first_area) (start-Sound pid listed) proper
          (λ i h. omega (arith, b)) in
      (s', run, sound.apart, λ i h. Heap-Separate (process s' i) (vma i) (sound.heaps i h))
