-- ===== src/Process/Reuse.antt =====
-- src/libmem.c: __alloc after __free.
use os.Prelude.{
  ℕ, ◌+◌, ◌-◌, ◌^◌, ◌<◌, ◌≤◌, ◌≡◌, refl, false, arith, ok, List, ◌∷◌, ◌==◌, set, length, length-set,
  lt→ltb,
}
use os.Prelude.Words.{u32_mod, u64_mod}
use os.Mm.{Region, Vma}
use os.Vm.Overlap.{get_vma_first}
use os.Libmem.{set_symrg, get_free_vmrg_area, use_up}
use os.Libmem.FreeList.{IsRegion, fit_exactly}
use os.Process
use os.Process.Checks.{freed}

-- the process after the region of one variable went to another
abbrev pub moved : Process.World → ℕ → ℕ → Region → Vma → List Vma → Process.World
moved w rgid rgid₂ rg vma others = record w {
  user = record (w.user) {
    symrgtbl = set (set w.user.symrgtbl rgid (record { rg_start = 0; rg_end = 0 })) rgid₂ rg;
    mmap = record vma { vm_freerg_list = use_up rg vma.vm_freerg_list } ∷ others;
  };
}

-- An allocation of the size of the variable that was freed last succeeds at that variable's
-- address, and its region leaves the free list.
pub alloc-free :
    (w : Process.World) (pid rgid rgid₂ : ℕ) (rg : Region) (vma : Vma) (others : List Vma)
    → length w.user.symrgtbl ≡ 30
    → rgid₂ < 30
    → IsRegion rg
    → rg.rg_end - rg.rg_start < 2 ^ 31
    → Process.alloc (freed w rgid rg vma others) pid 0 rgid₂ (rg.rg_end - rg.rg_start)
      ≡ ok (rg.rg_start, moved w rgid rgid₂ rg vma others)
unfolding Process.alloc Process.alloc_body get_free_vmrg_area set_symrg
alloc-free w pid rgid rgid₂ rg vma others table symbol v small =
    rw
      (
        get_vma_first (freed w rgid rg vma others).user
            (record vma { vm_freerg_list = rg ∷ vma.vm_freerg_list }) others refl,
        fit_exactly rg vma.vm_freerg_list v small,
        not_last rg.rg_start rg.rg_end v.0 v.1,
        length-set w.user.symrgtbl rgid (record { rg_start = 0; rg_end = 0 }),
        table,
        lt→ltb _ _ symbol,
      )
      refl
  where
    not_last : (s e : ℕ) → s ≤ e → e + u32_mod < u64_mod → (s == u64_mod - 1) ≡ false
    not_last s e h k = ground arith
