-- ===== src/Process/Heap/Alloc.antt =====
-- src/libmem.c: __alloc on a heap, from a free region and at the break.
use os.Prelude.{
  ℕ, ◌+◌, ◌-◌, ◌%◌, ◌^◌, ◌≤◌, ◌<◌, ◌≡◌, refl, ap, ◌∙◌, true, false, List, [], ◌∷◌, arith, ok, ◌==◌,
  length, set, lt→ltb,
}
use os.Prelude.Words.{u32_mod, u64_mod, add64, sext32}
use os.Mm.{Region, Vma}
use os.Vm.Overlap.{get_vma_first}
use os.Vm.Grow.{IsHeap, grown}
use os.Syscall.{find_caller}
use os.Libmem.{set_symrg, get_free_vmrg_area, fit_loop}
use os.Libmem.FreeList.{no_fit}
use os.Process
use os.Process.RoundTrip.{inside_call, after_call}
use os.Process.Heap.Grant.{Grant, SameBytes}
use os.Process.Heap.Grow.{call_memmap-Grown}

-- a process whose only area is this one
abbrev pub on_heap : Process.World → Vma → Process.World
on_heap w vma = record w { user = record (w.user) { mmap = vma ∷ [] } }

-- the process after the region of a variable came from the free list
abbrev pub from_free : Process.World → Vma → ℕ → Region → List Region → Process.World
from_free w vma rgid rg left = record w {
  user = record (w.user) {
    symrgtbl = set w.user.symrgtbl rgid rg;
    mmap = record vma { vm_freerg_list = left } ∷ [];
  };
}

-- the process after its area grew for a variable
pub record AtBreak (w : Process.World) (rgid size : ℕ) (vma : Vma) (w' : Process.World)
    : Type 0 where
  pub areas : w'.user.mmap ≡ grown vma size ∷ []
  pub symbols :
      w'.user.symrgtbl
      ≡ set w.user.symrgtbl rgid (record { rg_start = vma.sbrk; rg_end = vma.sbrk + size })
  pub running : w'.krnl.running_list ≡ w.krnl.running_list
  pub granted : Grant w.user.pgd w'.user.pgd w.krnl.mram.free_fp_list w'.krnl.mram.free_fp_list
  pub bytes : SameBytes w.krnl.mram w'.krnl.mram

pub as_int : (n : ℕ) → n < 2 ^ 31 → sext32 (n % u32_mod) ≡ n
as_int n h = ground arith

module _ (w : Process.World) (pid rgid size : ℕ) (vma : Vma) (table : length w.user.symrgtbl ≡ 30)
    (symbol : rgid < 30) (small : size < 2 ^ 31) where
  pub alloc-from_free :
      (rg : Region) (left : List Region)
      → fit_loop vma.vm_freerg_list size ≡ (rg, left)
      → (rg.rg_start == u64_mod - 1) ≡ false
      → Process.alloc (on_heap w vma) pid 0 rgid size
        ≡ ok (rg.rg_start, from_free w vma rgid rg left)
  unfolding Process.alloc Process.alloc_body get_free_vmrg_area set_symrg
  alloc-from_free rg left found e =
      rw
        (
          get_vma_first (on_heap w vma).user vma [] refl,
          as_int size small,
          found,
          e,
          table,
          lt→ltb _ _ symbol,
        )
        refl

  pub alloc-AtBreak :
      fit_loop vma.vm_freerg_list size ≡ (no_fit, vma.vm_freerg_list)
      → IsHeap (on_heap w vma).user vma
      → 0 < size
      → vma.sbrk + size + 4096 ≤ 2 ^ 31
      → find_caller w.krnl.running_list pid ≡ true
      → (w' : Process.World) × (Process.alloc (on_heap w vma) pid 0 rgid size ≡ ok (vma.sbrk, w'))
        × AtBreak w rgid size vma w'
  unfolding Process.alloc Process.alloc_body Process.alloc_at_sbrk get_free_vmrg_area set_symrg
  alloc-AtBreak none_fits v p b listed =
      let krnl = inside_call (on_heap w vma) in
      let (regs, krnl', run, g) = call_memmap-Grown krnl vma size v p b pid listed in
      (
        after_call w (record krnl' {
          mm = record (krnl'.mm) {
            symrgtbl =
                set krnl'.mm.symrgtbl rgid
                  (record { rg_start = vma.sbrk; rg_end = vma.sbrk + size });
          };
        }),
        rw
            (
              get_vma_first (on_heap w vma).user vma [] refl,
              as_int size small,
              none_fits,
              run,
              as_int vma.sbrk (omega (arith, b)),
              no_wrap vma.sbrk b,
              ap length g.table ∙ table,
              lt→ltb _ _ symbol,
            )
            refl,
        record {
          areas = g.areas;
          symbols =
              ap (λ t. set t rgid (record { rg_start = vma.sbrk; rg_end = vma.sbrk + size }))
                g.table;
          running = g.running;
          granted = g.granted;
          bytes = g.bytes;
        },
      )
    where
      no_wrap : (s : ℕ) → s + size + 4096 ≤ 2 ^ 31 → add64 s size ≡ s + size
      no_wrap s b = omega arith
