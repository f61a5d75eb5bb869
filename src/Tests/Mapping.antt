-- ===== src/Tests/Mapping.antt =====
-- src/mm64.c and src/mm-vm.c at a process with one area.
use os.Prelude.{ℕ, ◌+◌, ◌/◌, ◌≡◌, refl, true, none, List, [], ◌∷◌, arith, ok, success}
use os.Memphy.{Memphy}
use os.PageTable.{calloc}
use os.Mm.{Region, Vma, Mm, Krnl}
use os.Pte.{paging_pgn, set_fpn}
use os.PageTable.Entries.{entry}
use os.Mm64.PageSize.{vmap_page_range-paging_pgn}
use os.Mm64.{map_loop, vmap_page_range}
use os.Mm64.Range.{IsMapped, map_loop_lem}
use os.Mm64.MapRam.{taken}
use os.Vm.{inc_vma_limit}
use os.Vm.Grow.{IsHeap, area_grown, grow_without_frames, grow_maps_three}

abbrev ram : List ℕ → Memphy
ram free = record {
  cells = λ _. 0;
  size = 1024;
  maxsz = 1024;
  rdmflg = true;
  cursor = 0;
  free_fp_list = free;
}

abbrev heap : Vma
heap = record { vm_id = 0; vm_start = 0; vm_end = 4096; sbrk = 4096; vm_freerg_list = [] }

abbrev mapped_area : Vma
mapped_area = record {
  vm_id = 1;
  vm_start = 0x80000;
  vm_end = 0x90000;
  sbrk = 0x90000;
  vm_freerg_list = [];
}

abbrev mm_of : List Vma → Mm
mm_of areas = record {
  pgd = calloc 4;
  mmap = areas;
  symrgtbl = [];
  fifo_pgn = [];
  kcpooltbl = none;
}

abbrev krnl_of : List ℕ → Krnl
krnl_of free = record {
  mm = mm_of (heap ∷ []);
  mram = ram free;
  active_mswp = ram [];
  active_mswp_id = 0;
  running_list = [];
  krnl_pgd = none;
}

abbrev plenty : Krnl
plenty = krnl_of (5 ∷ 6 ∷ 7 ∷ 8 ∷ [])

abbrev scarce : Krnl
scarce = krnl_of (5 ∷ 6 ∷ [])

map_loop_lem_example :
    (krnl' : Krnl) × (map_loop 2 1 (5 ∷ 6 ∷ []) plenty ≡ ok krnl')
    × IsMapped plenty krnl' 1 2 (5 ∷ 6 ∷ [])
map_loop_lem_example = map_loop_lem 2 1 (5 ∷ 6 ∷ []) plenty (omega arith) (omega arith)

heap-IsHeap : (free : List ℕ) → IsHeap (krnl_of free).mm heap
heap-IsHeap free = record { single = refl; full = refl; ordered = omega arith; aligned = refl }

grow_without_frames_example :
    inc_vma_limit scarce 0 300
    ≡ ok (success, record (area_grown scarce heap 300) { mram = ram (6 ∷ 5 ∷ []) })
grow_without_frames_example =
    grow_without_frames scarce heap 300 (heap-IsHeap (5 ∷ 6 ∷ [])) (omega arith) (omega arith)
      (omega arith)

grow_maps_three_example :
    (krnl' : Krnl) × (inc_vma_limit plenty 0 300 ≡ ok (success, krnl'))
    × IsMapped (taken (area_grown plenty heap 300) 3) krnl' 1 3 (5 ∷ 6 ∷ 7 ∷ [])
grow_maps_three_example =
    grow_maps_three plenty heap 300 (heap-IsHeap (5 ∷ 6 ∷ 7 ∷ 8 ∷ [])) (omega arith) (omega arith)
      (omega arith) (omega arith)

vmap_page_range-paging_pgn_example :
    (rg : Region) × (krnl' : Krnl) × (vmap_page_range plenty 4096 2 (5 ∷ 6 ∷ []) ≡ ok (rg, krnl'))
    × (entry krnl'.mm.pgd (4096 / 4096 + 1) ≡ set_fpn (entry plenty.mm.pgd (4096 / 4096 + 1)) 6)
    × (entry krnl'.mm.pgd (paging_pgn 5000) ≡ entry plenty.mm.pgd (paging_pgn 5000))
vmap_page_range-paging_pgn_example =
    vmap_page_range-paging_pgn plenty 4096 2 (5 ∷ 6 ∷ []) 5000 1 6 (omega arith) (omega arith)
      (omega arith) (omega arith) (omega arith) (omega arith) (omega arith) (omega arith) refl
