-- ===== src/Mm64/MapRam.antt =====
-- src/mm64.c: `vm_map_ram` allocates frames and maps pages to them.
use os.Prelude.{
  ℕ, zero, suc, ◌+◌, ◌*◌, ◌/◌, ◌%◌, ◌^◌, ◌≤◌, ◌<◌, ◌≡◌, ap, ◌∙◌, some, none, List, [], ◌∷◌, arith,
  ok, success, failure, length, take, drop,
}
use mathlib.Core.List.{reverse}
use os.Pte.{paging64_pagesz}
use os.Memphy.{nonneg}
use os.Mm.{Krnl, Region}
use os.Prelude.Words.{u32_mod, add64, sext32}
use os.Mm64.{init_vm_rg, map_allocated, vm_map_ram, vmap_page_range}
use os.Mm64.Alloc.{with_free, alloc_pages_range_enough, alloc_pages_range_short}
use os.Mm64.Range.{IsMapped, map_loop_lem}

length-take_enough : (n : ℕ) (l : List ℕ) → n ≤ length l → n ≤ length (take n l)
length-take_enough zero l h = omega arith
length-take_enough (suc n) [] h = absurd (omega arith)
length-take_enough (suc n) (x ∷ l) h = omega (arith, length-take_enough n l)

-- the kernel without the first frames of RAM
abbrev pub taken : Krnl → ℕ → Krnl
taken krnl n = record krnl { mram = with_free krnl.mram (drop n krnl.mram.free_fp_list) }

-- Without enough frames the result is -1, no page is mapped and no frame is lost.
pub vm_map_ram_short :
    (krnl : Krnl) (mapstart n : ℕ)
    → length krnl.mram.free_fp_list < nonneg n
    → vm_map_ram krnl mapstart n
      ≡ ok (
        failure,
        none,
        record krnl { mram = with_free krnl.mram (reverse krnl.mram.free_fp_list) },
      )
unfolding vm_map_ram map_allocated
vm_map_ram_short krnl mapstart n h =
    ap (map_allocated krnl mapstart n) (alloc_pages_range_short krnl.mram n h)

-- With enough frames the pages are mapped to the first of them.
pub vm_map_ram_enough :
    (krnl : Krnl) (mapstart n : ℕ)
    → 0 < nonneg n
    → nonneg n ≤ length krnl.mram.free_fp_list
    → mapstart / paging64_pagesz + nonneg n ≤ 2 ^ 45
    → (rg : Region) × (krnl' : Krnl) × (vm_map_ram krnl mapstart n ≡ ok (success, some rg, krnl'))
      × IsMapped
          (taken krnl (nonneg n))
          krnl'
          (mapstart / paging64_pagesz)
          (nonneg n)
          (take (nonneg n) krnl.mram.free_fp_list)
unfolding vm_map_ram map_allocated vmap_page_range
vm_map_ram_enough krnl mapstart n p h b =
    let l = take (nonneg n) krnl.mram.free_fp_list in
    let (krnl', e, m) =
      map_loop_lem (nonneg n) (mapstart / paging64_pagesz) l (taken krnl (nonneg n))
        (length-take_enough (nonneg n) krnl.mram.free_fp_list h) b in
    (
      init_vm_rg mapstart (add64 mapstart (sext32 (n * paging64_pagesz % u32_mod))),
      krnl',
      ap (map_allocated krnl mapstart n) (alloc_pages_range_enough krnl.mram n p h) ∙ rw e,
      m,
    )
