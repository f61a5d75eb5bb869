-- ===== src/Tests/Calls.antt =====
-- src/sys_mem.c and src/libmem.c at a process with two variables on one page.
use os.Prelude.{
  zero, suc, ℕ, ◌%◌, ◌≡◌, ◌≢◌, refl, true, false, none, some, List, [], ◌∷◌, arith, ok, success,
  failure, ◌==◌,
}
use os.Prelude.Words.{u32_mod}
use os.Memphy.{Memphy}
use os.Pte.{page_present, paging_fpn, paging_pgn, paging_offst, set_fpn, set_swap}
use os.Pte.Address.{get_pd_from_pagenum, get_pd_from_address}
use os.PageTable.{calloc, pte_set_fpn, table_or_new, deref, assign, walk_create, route_of}
use os.PageTable.Entries.{entry}
use os.Mm.{Region, Vma, Mm, Krnl}
use os.Libmem.Paging.{location}
use os.Libmem.{bring_in}
use os.Libmem.Victim.{enlist_all, victims, victims-enlist_all}
use os.Libmem.Swapping.{KeepsRam, bring_in-ram}
use os.Process
use os.Process.Checks.{freed, write_overruns, free_twice}
use os.Process.Reuse.{moved, alloc-free}
use os.Process.RoundTrip.{IsByte, byte_location, inside_call, read-write_variable}

abbrev ram : Memphy
ram = record {
  cells = λ a. a % 256;
  size = 1024;
  maxsz = 1024;
  rdmflg = true;
  cursor = 0;
  free_fp_list = [];
}

abbrev region : ℕ → ℕ → Region
region s e = record { rg_start = s; rg_end = e }

abbrev no_regions : ℕ → List Region
no_regions zero = []
no_regions (suc n) = region 0 0 ∷ no_regions n

abbrev heap : Vma
heap = record {
  vm_id = 0;
  vm_start = 0;
  vm_end = 256;
  sbrk = 256;
  vm_freerg_list = region 64 256 ∷ [];
}

-- page 0 is on frame 2; variable 0 has the bytes 16 to 31 and variable 1 the bytes 32 to 47
abbrev user : Mm
user = record {
  pgd = pte_set_fpn (calloc 4) 0 2;
  mmap = heap ∷ [];
  symrgtbl = region 16 32 ∷ region 32 48 ∷ no_regions 28;
  fifo_pgn = [];
  kcpooltbl = none;
}

abbrev world : Process.World
world = record {
  user = user;
  krnl = record {
    mm = record user { pgd = calloc 4; symrgtbl = no_regions 30 };
    mram = ram;
    active_mswp = ram;
    active_mswp_id = 0;
    running_list = [];
    krnl_pgd = none;
  };
}

-- where the bytes are, on frame 2
location_20 : location (inside_call world) 20 ≡ 532
unfolding entry pte_set_fpn calloc table_or_new deref assign walk_create route_of
    get_pd_from_pagenum get_pd_from_address paging_pgn paging_offst paging_fpn page_present set_fpn
location_20 = refl

location_40 : location (inside_call world) 40 ≡ 552
unfolding entry pte_set_fpn calloc table_or_new deref assign walk_create route_of
    get_pd_from_pagenum get_pd_from_address paging_pgn paging_offst paging_fpn page_present set_fpn
location_40 = refl

present_20 : (page_present (entry user.pgd (paging_pgn 20) % u32_mod) == 0) ≡ false
unfolding entry pte_set_fpn calloc table_or_new deref assign walk_create route_of
    get_pd_from_pagenum get_pd_from_address paging_pgn paging_offst paging_fpn page_present set_fpn
present_20 = refl

present_40 : (page_present (entry user.pgd (paging_pgn 40) % u32_mod) == 0) ≡ false
unfolding entry pte_set_fpn calloc table_or_new deref assign walk_create route_of
    get_pd_from_pagenum get_pd_from_address paging_pgn paging_offst paging_fpn page_present set_fpn
present_40 = refl

IsByte-20 : IsByte world 0 (region 16 32) 4
IsByte-20 = record {
  vma = heap;
  others = [];
  areas = refl;
  symbol = omega arith;
  region = refl;
  allocated = unfold Process.unallocated in refl;
  within = omega arith;
  resident = record { present = present_20; random = refl; inside = omega (arith, location_20) };
}

IsByte-40 : IsByte world 1 (region 32 48) 8
IsByte-40 = record {
  vma = heap;
  others = [];
  areas = refl;
  symbol = omega arith;
  region = refl;
  allocated = unfold Process.unallocated in refl;
  within = omega arith;
  resident = record { present = present_40; random = refl; inside = omega (arith, location_40) };
}

apart : byte_location world (region 16 32) 4 ≢ byte_location world (region 32 48) 8
apart = omega (arith, location_20, location_40)

read-write_variable_example :
    (w' r r₂ r₃ : Process.World) × (Process.write world 7 0 0 4 300 ≡ ok (success, w'))
    × (Process.read w' 7 0 0 4 ≡ ok ((success, some 44), r))
    × (byte : ℕ) × (Process.read world 7 0 1 8 ≡ ok ((success, some byte), r₂))
    × (Process.read w' 7 0 1 8 ≡ ok ((success, some byte), r₃))
read-write_variable_example =
    read-write_variable world 7 0 (region 16 32) 4 300 1 (region 32 48) 8 IsByte-20 IsByte-40 apart

write_overruns_example :
    (w' r : Process.World) × (Process.read world 7 0 0 24 ≡ ok ((failure, none), world))
    × (Process.write world 7 0 0 24 300 ≡ ok (success, w'))
    × (Process.read w' 7 0 1 8 ≡ ok ((success, some 44), r))
write_overruns_example =
    write_overruns world 7 0 (region 16 32) 24 300 1 (region 32 48) 8 (omega arith) refl
      (omega arith) IsByte-40 refl

free_twice_example :
    (Process.free world 1 ≡ ok (success, freed world 1 (region 32 48) heap []))
    × (Process.free (freed world 1 (region 32 48) heap []) 1
        ≡ ok (failure, freed world 1 (region 32 48) heap []))
free_twice_example =
    free_twice world 1 (region 32 48) heap [] refl refl (omega arith) refl (omega arith)

alloc-free_example :
    Process.alloc (freed world 1 (region 32 48) heap []) 7 0 5 16
    ≡ ok (32, moved world 1 5 (region 32 48) heap [])
alloc-free_example =
    alloc-free world 7 1 5 (region 32 48) heap [] refl (omega arith) (omega arith, omega arith)
      (omega arith)

victims-enlist_all_example : victims 3 (enlist_all (4 ∷ 5 ∷ 6 ∷ []) []) ≡ 4 ∷ 5 ∷ 6 ∷ []
victims-enlist_all_example = victims-enlist_all (4 ∷ 5 ∷ 6 ∷ [])

-- the kernel with a page to swap out and a free swap frame
abbrev swapping : Krnl
swapping = record (world.krnl) {
  running_list = record { ptr = 7; pid = 7; priority = 0; prio = 0 } ∷ [];
  mm = record user { fifo_pgn = 0 ∷ [] };
  active_mswp = record ram { free_fp_list = 1 ∷ [] };
}

bring_in-ram_example : KeepsRam swapping (bring_in swapping 7 1 (set_swap 0 0 3))
bring_in-ram_example = bring_in-ram swapping 7 1 (set_swap 0 0 3) refl
