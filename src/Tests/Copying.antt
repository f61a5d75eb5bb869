-- ===== src/Tests/Copying.antt =====
-- src/libmem.c: bytes copied between a process, whose page is on frame 2, and the kernel, on frame 1.
use os.Prelude.{
  zero, suc, ◌<◌, ◌≢◌, sym, one, ℕ, ◌+◌, ◌%◌, ◌≡◌, refl, true, false, none, [], ◌∷◌, arith, ok,
  success, ◌==◌,
}
use os.Prelude.Words.{add64, u32_mod}
use os.Memphy.{Memphy}
use os.Pte.{page_present, paging_fpn, paging_pgn, paging_offst, set_fpn}
use os.Pte.Address.{get_pd_from_pagenum, get_pd_from_address}
use os.PageTable.{calloc, pte_set_fpn, table_or_new, deref, assign, walk_create, route_of}
use os.PageTable.Entries.{entry}
use os.Mm.{Region, Mm}
use os.Process.{World, unallocated}
use os.Copies.{libkmem_copy_from_user, libkmem_copy_to_user}
use os.Copies.Moving.{Moved}
use os.Copies.Whole.{AllResident, user_place, libkmem_copy-Moved}
use os.Copies.Byte.{place}

abbrev region : Region
region = record { rg_start = 16; rg_end = 32 }

-- a process or a kernel with one region, on page 0, and that page on a frame
abbrev on_frame : ℕ → Mm
on_frame fpn = record {
  pgd = pte_set_fpn (calloc 4) 0 fpn;
  mmap = [];
  symrgtbl = region ∷ [];
  fifo_pgn = [];
  kcpooltbl = none;
}

abbrev ram : Memphy
ram = record {
  cells = λ a. a % 256;
  size = 1024;
  maxsz = 1024;
  rdmflg = true;
  cursor = 0;
  free_fp_list = [];
}

abbrev world : World
world = record {
  user = on_frame 2;
  krnl = record {
    mm = on_frame 1;
    mram = ram;
    active_mswp = ram;
    active_mswp_id = 0;
    running_list = [];
    krnl_pgd = none;
  };
}

user_places : (i : ℕ) → i < 2 → user_place world region 2 i ≡ 530 + i
unfolding entry pte_set_fpn calloc table_or_new deref assign walk_create route_of
    get_pd_from_pagenum get_pd_from_address paging_pgn paging_offst paging_fpn page_present set_fpn
user_places zero h = refl
user_places (suc zero) h = refl
user_places (suc (suc i)) h = absurd (omega arith)

kernel_places : (i : ℕ) → i < 2 → place world.krnl region i ≡ 272 + i
unfolding entry pte_set_fpn calloc table_or_new deref assign walk_create route_of
    get_pd_from_pagenum get_pd_from_address paging_pgn paging_offst paging_fpn page_present set_fpn
kernel_places zero h = refl
kernel_places (suc zero) h = refl
kernel_places (suc (suc i)) h = absurd (omega arith)

user_present :
    (i : ℕ)
    → i < 2
    → (page_present (entry (on_frame 2).pgd (paging_pgn (add64 16 ((2 + i) % u32_mod))) % u32_mod)
        == 0)
      ≡ false
unfolding entry pte_set_fpn calloc table_or_new deref assign walk_create route_of
    get_pd_from_pagenum get_pd_from_address paging_pgn paging_offst paging_fpn page_present set_fpn
user_present zero h = refl
user_present (suc zero) h = refl
user_present (suc (suc i)) h = absurd (omega arith)

kernel_present :
    (i : ℕ)
    → i < 2
    → (page_present (entry (on_frame 1).pgd (paging_pgn (add64 16 i)) % u32_mod) == 0) ≡ false
unfolding entry pte_set_fpn calloc table_or_new deref assign walk_create route_of
    get_pd_from_pagenum get_pd_from_address paging_pgn paging_offst paging_fpn page_present set_fpn
kernel_present zero h = refl
kernel_present (suc zero) h = refl
kernel_present (suc (suc i)) h = absurd (omega arith)

both_sides : AllResident world 0 0 region region 2 2
both_sides i h = (
  record {
    symbol = omega arith;
    region = refl;
    allocated = unfold unallocated in refl;
    within = omega arith;
    resident = record {
      present = user_present i h;
      random = refl;
      inside = omega (arith, user_places i h);
    };
  },
  record {
    symbol = omega arith;
    region = refl;
    allocated = unfold unallocated in refl;
    within = omega arith;
    resident = record {
      present = kernel_present i h;
      random = refl;
      inside = omega (arith, kernel_places i h);
    };
  },
)

-- The places of the process and those of the kernel are on different frames.
places_differ : (a b i j : ℕ) → a ≡ 530 + i → b ≡ 272 + j → i < 2 → j < 2 → a ≢ b
places_differ a b i j p q h k e = absurd (omega (arith, e))

own_places : (a b c i j : ℕ) → a ≡ c + i → b ≡ c + j → i ≢ j → a ≢ b
own_places a b c i j p q d e = d (omega (arith, p, q, e))

libkmem_copy-Moved_example :
    let from = user_place world region 2 in
    let to = place world.krnl region in
    ((w' : World) × (libkmem_copy_from_user world 7 0 0 2 2 ≡ ok (success, w'))
      × Moved from to 2 ram w'.krnl.mram)
    × ((w' : World) × (libkmem_copy_to_user world 7 0 0 2 2 ≡ ok (one, w'))
        × Moved to from 2 ram w'.krnl.mram)
libkmem_copy-Moved_example =
    libkmem_copy-Moved world 7 0 0 region region 2 2 both_sides
      (λ i j h k. (
        (λ e. places_differ _ _ j i (user_places j k) (kernel_places i h) k h (sym e)),
        own_places _ _ 272 i j (kernel_places i h) (kernel_places j k),
      ))
      (λ i j h k. (
        places_differ _ _ i j (user_places i h) (kernel_places j k) h k,
        own_places _ _ 530 i j (user_places i h) (user_places j k),
      ))
