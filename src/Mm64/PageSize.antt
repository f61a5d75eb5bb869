-- ===== src/Mm64/PageSize.antt =====
-- src/mm64.c and include/mm.h: the pages that vmap_page_range maps, and those that reads and writes
-- look up.
use os.Prelude.{
  ℕ, ◌+◌, ◌*◌, ◌/◌, ◌%◌, ◌^◌, ◌≤◌, ◌<◌, ◌≡◌, refl, some, List, arith, length, get_elem?, ok, inr,
}
use os.Prelude.Words.{u32_mod, add64, sext32}
use os.Pte.{set_fpn, paging_pgn, paging64_pagesz}
use os.Pte.Address.{paging_pgn_lem}
use os.PageTable.Entries.{entry}
use os.Memphy.{nonneg}
use os.Mm.{Region, Krnl}
use os.Mm64.{init_vm_rg, vmap_page_range}
use os.Mm64.Range.{map_loop_lem}

-- `vmap_page_range`, at the page-aligned address `addr` from 4096 on, maps up to 15 pages to the
-- frames of a list that is long enough, as the pages from `addr / 4096` on; but at no address `a` of
-- them, below 2 ^ 22, does it change the entry that a read or a write of `a` looks up.
pub vmap_page_range-paging_pgn :
    (krnl : Krnl) (addr n : ℕ) (frames : List ℕ) (a i f : ℕ)
    → addr % 4096 ≡ 0
    → 4096 ≤ addr
    → n ≤ 15
    → n ≤ length frames
    → addr ≤ a
    → a < addr + n * 4096
    → a < 2 ^ 22
    → i < n
    → get_elem? frames i ≡ some f
    → (rg : Region) × (krnl' : Krnl) × (vmap_page_range krnl addr n frames ≡ ok (rg, krnl'))
      × (entry krnl'.mm.pgd (addr / 4096 + i) ≡ set_fpn (entry krnl.mm.pgd (addr / 4096 + i)) f)
      × (entry krnl'.mm.pgd (paging_pgn a) ≡ entry krnl.mm.pgd (paging_pgn a))
unfolding vmap_page_range
vmap_page_range-paging_pgn krnl addr n frames a i f aligned least small enough lo hi top l at =
    let (krnl', run, m) =
      map_loop_lem n (addr / paging64_pagesz) frames krnl enough (omega arith) in
    (
      init_vm_rg addr (add64 addr (sext32 (n * paging64_pagesz % u32_mod))),
      krnl',
      rw (as_it_is n small, run) refl,
      m.frame i f l at,
      m.outside (paging_pgn a)
          (inr (omega (arith, paging_pgn_lem a), omega (arith, paging_pgn_lem a))),
    )
  where
    as_it_is : (n : ℕ) → n ≤ 15 → nonneg n ≡ n
    as_it_is n h = ground arith
