-- ===== src/Process/Heap/Free.antt =====
-- src/libmem.c: __free keeps the heap of a process, whether the variable is allocated or not.
use os.Prelude.{
  ℕ, ◌+◌, ◌≤◌, ◌<◌, ◌≡◌, inl, inr, refl, ap, ◌∙◌, true, false, some, List, [], ◌∷◌, arith, ok,
  success, leb, Bool-cases, length, set, get_elem?, lt→ltb, All, length-set, Rc, failure,
}
use os.Memphy.{Memphy}
use os.Mm.{Region, Vma}
use os.Vm.Grow.{IsHeap}
use os.Libmem.{set_symrg, enlist_vm_freerg_list}
use os.Process.RoundTrip.{symrg_lem}
use os.Process.Checks.{freed, free_at, free-unallocated, free_twice}
use os.Libmem.Cover.{cover, covers, cover_empty, covers-set}
use os.Libmem.FreeList.{IsRegion}
use os.Process
use os.Process.Heap.{Heap}
use os.PageTable.{Pgd}
use os.Process.Heap.Grant.{Grant, none_taken, SameBytes}
use os.Process.Heap.Keep.{entry_of, All-set, All-get}

-- the variable's entry cleared
abbrev cleared : Process.World → ℕ → List Vma → Process.World
cleared w rgid areas = record w {
  user = record (w.user) {
    symrgtbl = set w.user.symrgtbl rgid (record { rg_start = 0; rg_end = 0 });
    mmap = areas;
  };
}

-- A region that is empty but not at address 0 is dropped.
free_dropped :
    (w : Process.World) (rgid : ℕ) (rg : Region) (vma : Vma)
    → w.user.mmap ≡ vma ∷ []
    → length w.user.symrgtbl ≡ 30
    → rgid < 30
    → get_elem? w.user.symrgtbl rgid ≡ some rg
    → Process.unallocated rg ≡ false
    → leb rg.rg_end rg.rg_start ≡ true
    → Process.free w rgid ≡ ok (success, cleared w rgid (vma ∷ []))
unfolding Process.free_body set_symrg enlist_vm_freerg_list
free_dropped w rgid rg vma areas table h e allocated empty =
    free_at w rgid h
    ∙ rw (symrg_lem w.user rgid rg e, allocated, table, lt→ltb _ _ h, areas, empty)
        (ap (λ l. ok (success, cleared w rgid l)) areas)

-- The count without the variable
covers-clear :
    (a : ℕ) (table : List Region) (i : ℕ) (rg : Region)
    → get_elem? table i ≡ some rg
    → covers a (set table i (record { rg_start = 0; rg_end = 0 })) + cover a rg ≡ covers a table
covers-clear a table i rg e = omega (
  arith,
  covers-set a table i rg (record { rg_start = 0; rg_end = 0 }) e,
  cover_empty a 0 0 (omega arith),
)

Heap-cleared :
    (w : Process.World) (rgid : ℕ) (rg : Region) (vma vma' : Vma)
    → Heap w.user vma
    → get_elem? w.user.symrgtbl rgid ≡ some rg
    → IsHeap (cleared w rgid (vma' ∷ [])).user vma'
    → vma'.sbrk ≡ vma.sbrk
    → All IsRegion vma'.vm_freerg_list
    → ((a : ℕ) → covers a vma'.vm_freerg_list ≤ covers a vma.vm_freerg_list + cover a rg)
    → Heap (cleared w rgid (vma' ∷ [])).user vma'
Heap-cleared w rgid rg vma vma' v e area same free more =
    let less = λ (a : ℕ). covers-clear a w.user.symrgtbl rgid rg e in
    record {
      area = area;
      table = length-set w.user.symrgtbl rgid _ ∙ v.table;
      variables = All-set IsRegion w.user.symrgtbl rgid _ (omega arith, omega arith) v.variables;
      free = free;
      once = λ a. omega (arith, less a, more a, v.once a);
      unused = λ a l. omega (arith, less a, more a, v.unused a (omega (arith, l, same)));
    }

-- `__free` returns, with -1 or 0, and leaves a heap in which the variable is not allocated.
pub free-Heap :
    (w : Process.World) (rgid : ℕ) (vma : Vma)
    → Heap w.user vma
    → rgid < 30
    → (rc : Rc) × (w' : Process.World) × (vma' : Vma) × (Process.free w rgid ≡ ok (rc, w'))
      × Heap w'.user vma'
      × (vma'.sbrk ≡ vma.sbrk)
      × (w'.krnl.running_list ≡ w.krnl.running_list)
      × Grant w.user.pgd w'.user.pgd w.krnl.mram.free_fp_list w'.krnl.mram.free_fp_list
      × SameBytes w.krnl.mram w'.krnl.mram
free-Heap w rgid vma v h =
    let (rg, at) = entry_of w.user.symrgtbl rgid 30 v.table h in
    elim (Bool-cases (Process.unallocated rg)) [
      | inl e ↦
          (failure, w, vma, free-unallocated w rgid rg h at e, v, refl, refl, same, same_bytes)
      | inr e ↦ elim (Bool-cases (leb rg.rg_end rg.rg_start)) [
        | inl empty ↦ (
          success,
          cleared w rgid (vma ∷ []),
          vma,
          free_dropped w rgid rg vma v.area.single v.table h at e empty,
          Heap-cleared w rgid rg vma vma v at
              (record {
                single = refl;
                full = v.area.full;
                ordered = v.area.ordered;
                aligned = v.area.aligned;
              })
              refl v.free (λ a. omega arith),
          refl,
          refl,
          same,
          same_bytes,
        )
        | inr nonempty ↦
            (let longer = record vma { vm_freerg_list = rg ∷ vma.vm_freerg_list } in
              (
                success,
                freed w rgid rg vma [],
                longer,
                (free_twice w rgid rg vma [] v.area.single v.table h at (ground arith)).0,
                Heap-cleared w rgid rg vma longer v at
                    (record {
                      single = refl;
                      full = v.area.full;
                      ordered = v.area.ordered;
                      aligned = v.area.aligned;
                    })
                    refl (All-get IsRegion w.user.symrgtbl rgid rg v.variables at, v.free)
                    (λ a. omega arith),
                refl,
                refl,
                same,
                same_bytes,
              ))
      ]
    ]
  where
    same : {pgd : Pgd} {free : List ℕ} → Grant pgd pgd free free
    same = none_taken refl (λ f. refl)

    same_bytes : {mp : Memphy} → SameBytes mp mp
    same_bytes = record { cells = refl; size = refl; random = refl }
