-- ===== src/Process/Heap.antt =====
-- src/libmem.c: the heap of a process, as __alloc and __free keep it: one area that ends at its break,
-- the regions of the variables, and the free regions.
pub mod Grant
pub mod Grow
pub mod Alloc
pub mod Keep
pub mod Free
pub mod Calls
use os.Prelude.{ℕ, ◌+◌, ◌≤◌, ◌≡◌, List, All, length}
use os.Mm.{Region, Vma, Mm}
use os.Libmem.Cover.{covers}
use os.Libmem.FreeList.{IsRegion}
use os.Vm.Grow.{IsHeap}

-- how many variables and free regions have the address
abbrev pub uses : ℕ → List Region → Vma → ℕ
uses a table vma = covers a table + covers a vma.vm_freerg_list

pub record Heap (mm : Mm) (vma : Vma) : Type 0 where
  pub area : IsHeap mm vma
  pub table : length mm.symrgtbl ≡ 30
  pub variables : All IsRegion mm.symrgtbl
  pub free : All IsRegion vma.vm_freerg_list
  pub once : (a : ℕ) → uses a mm.symrgtbl vma ≤ 1
  pub unused : (a : ℕ) → vma.sbrk ≤ a → uses a mm.symrgtbl vma ≡ 0
