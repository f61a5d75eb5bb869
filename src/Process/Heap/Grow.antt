-- ===== src/Process/Heap/Grow.antt =====
-- src/mm-vm.c and src/libmem.c: the growth of a heap by a system call, with frames or without.
use os.Prelude.{
  ℕ, ◌+◌, ◌%◌, ◌^◌, ◌≤◌, ◌<◌, ◌≡◌, ◌/◌, ◌⊎◌, inl, inr, refl, ap, ◌∙◌, true, [], ◌∷◌, arith, ok,
  success, leb, Bool-cases, length,
}
use os.Prelude.Words.{u32_mod}
use os.Mm.{Vma, Krnl}
use os.Vm.{inc_vma_limit}
use os.Vm.Grow.{IsHeap, grown, area_grown_list, grow_without_frames, grow_maps_three}
use os.Syscall.{Regs, syscall, sys_memmap, sys_mem_op, find_caller}
use os.Libmem.{call_memmap}
use os.Pte.{paging64_pagesz}
use os.Memphy.Times.{times-reverse, get_elem?-take}
use os.Process.Heap.Grant.{Grant, none_taken, three_taken, SameBytes}

-- the break of a heap before and behind a growth by `size` bytes, the area's list and what stays
pub record Grown (krnl krnl' : Krnl) (vma : Vma) (size : ℕ) : Type 0 where
  pub areas : krnl'.mm.mmap ≡ grown vma size ∷ []
  pub table : krnl'.mm.symrgtbl ≡ krnl.mm.symrgtbl
  pub running : krnl'.running_list ≡ krnl.running_list
  pub granted : Grant krnl.mm.pgd krnl'.mm.pgd krnl.mram.free_fp_list krnl'.mram.free_fp_list
  pub bytes : SameBytes krnl.mram krnl'.mram

enough_or_not : (n : ℕ) → (3 ≤ n) ⊎ (n < 3)
enough_or_not n = elim (Bool-cases (leb 3 n)) [
  | inl e ↦ inl (ground arith)
  | inr e ↦ inr (ground arith)
]

module _ (krnl : Krnl) (vma : Vma) (size : ℕ) (v : IsHeap krnl.mm vma) (p : 0 < size)
    (b : vma.sbrk + size + 4096 ≤ 2 ^ 31) where
  pub inc_vma_limit-Grown :
      (krnl' : Krnl) × (inc_vma_limit krnl 0 size ≡ ok (success, krnl')) × Grown krnl krnl' vma size
  inc_vma_limit-Grown = elim (enough_or_not (length krnl.mram.free_fp_list)) [
    | inl enough ↦
        (let (krnl', run, mapped) =
            grow_maps_three krnl vma size v p (omega (arith, b)) (omega (arith, b)) enough in
          (
            krnl',
            run,
            record {
              areas = ap (λ k. k.mm.mmap) mapped.rest ∙ area_grown_list krnl vma size v p;
              table = ap (λ k. k.mm.symrgtbl) mapped.rest;
              running = ap (λ k. k.running_list) mapped.rest;
              granted =
                  three_taken (vma.sbrk / paging64_pagesz) (omega (arith, b)) enough
                    (ap (λ k. k.mram.free_fp_list) mapped.rest)
                    (λ i f l e.
                      mapped.frame i f l (get_elem?-take 3 krnl.mram.free_fp_list i l ∙ e))
                    mapped.outside;
              bytes = record {
                cells = ap (λ k. k.mram.cells) mapped.rest;
                size = ap (λ k. k.mram.size) mapped.rest;
                random = ap (λ k. k.mram.rdmflg) mapped.rest;
              };
            },
          ))
    | inr short ↦ (
      _,
      grow_without_frames krnl vma size v p (omega (arith, b)) short,
      record {
        areas = area_grown_list krnl vma size v p;
        table = refl;
        running = refl;
        granted = none_taken refl (λ f. times-reverse f krnl.mram.free_fp_list);
        bytes = record { cells = refl; size = refl; random = refl };
      },
    )
  ]

  pub call_memmap-Grown :
      (pid : ℕ)
      → find_caller krnl.running_list pid ≡ true
      → (regs : Regs) × (krnl' : Krnl) × (call_memmap krnl pid 2 0 size ≡ ok (regs, krnl'))
        × Grown krnl krnl' vma size
  unfolding call_memmap syscall sys_memmap sys_mem_op
  call_memmap-Grown pid found =
      let (krnl', run, g) = inc_vma_limit-Grown in
      (record { a1 = 2; a2 = 0; a3 = size }, krnl', rw (found, small, run) refl, g)
    where
      small : size % u32_mod ≡ size
      small = omega (arith, b)
