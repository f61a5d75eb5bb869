-- ===== src/Mm64.antt =====
-- src/mm64.c: mapping of pages and frames. Every function works on `caller->krnl`.
pub mod Alloc
pub mod Range
pub mod PageSize
pub mod Copy
pub mod Print
pub mod MapRam
use os.Prelude.{
  ℕ, zero, suc, ◌+◌, ◌*◌, ◌/◌, ◌%◌, ◌^◌, Bool, true, false, ◌&&◌, Option, none, some, List, [], ◌∷◌,
  ◌++◌, ◌==◌, if◌then◌else◌, Exec, ok, fault, ◌>>=◌, Rc, success, failure,
}
use os.Prelude.Words.{u32_mod, u64_mod, add64, sext32}
use os.Pte.{paging_pagesz, paging64_pagesz}
use os.Memphy
use os.Memphy.{Memphy, nonneg, get_freefp, put_freefp}
use os.PageTable.{calloc, pte_set_entry, pte_set_fpn}
use os.Mm.{Region, Vma, Mm, Krnl}

unfoldable pub init_vm_rg : ℕ → ℕ → Region
init_vm_rg rg_start rg_end = record { rg_start = rg_start; rg_end = rg_end }

unfoldable pub enlist_vm_rg_node : List Region → Region → List Region
enlist_vm_rg_node rglist rgnode = rgnode ∷ rglist

unfoldable pub enlist_pgn_node : List ℕ → ℕ → List ℕ
enlist_pgn_node plist pgn = pgn ∷ plist

-- the loop of `vmap_pgd_memset`, from page `i` on, for `n` pages
unfoldable pub memset_loop : ℕ → ℕ → Krnl → Krnl
memset_loop zero pgn krnl = krnl
memset_loop (suc n) pgn krnl =
    memset_loop n (add64 pgn 1)
      (record krnl { mm = record (krnl.mm) { pgd = pte_set_entry krnl.mm.pgd pgn 0xdeadbeef } })

-- `pgnum` is the bit pattern of an `int`.
unfoldable pub vmap_pgd_memset : Krnl → ℕ → ℕ → Krnl
vmap_pgd_memset krnl addr pgnum = memset_loop (nonneg pgnum) (addr / paging64_pagesz) krnl

-- the loop of `vmap_page_range`, from page `pgn` on, for `n` pages; it reads the frame numbers
-- from the list `frames` and faults at its end
unfoldable pub map_loop : ℕ → ℕ → List ℕ → Krnl → Exec Krnl
map_loop zero pgn frames krnl = ok krnl
map_loop (suc n) pgn [] krnl = fault
map_loop (suc n) pgn (fpn ∷ frames) krnl = map_loop n (add64 pgn 1) frames (record krnl {
  mm = record (krnl.mm) {
    pgd = pte_set_fpn krnl.mm.pgd pgn fpn;
    fifo_pgn = enlist_pgn_node krnl.mm.fifo_pgn pgn;
  };
})

-- The region is the one written through `ret_rg`.
unfoldable pub vmap_page_range : Krnl → ℕ → ℕ → List ℕ → Exec (Region × Krnl)
vmap_page_range krnl addr pgnum frames = do
  krnl' ← map_loop (nonneg pgnum) (addr / paging64_pagesz) frames krnl
  ok (init_vm_rg addr (add64 addr (sext32 (pgnum * paging64_pagesz % u32_mod))), krnl')

-- the loop that gives the frames of the list back, from its head
unfoldable pub give_back : List ℕ → Memphy → Memphy
give_back [] mp = mp
give_back (fpn ∷ head) mp = give_back head (put_freefp mp fpn)

-- the loop of `alloc_pages_range`, `n` rounds of it; `head` is the list so far, `none` is -3000
unfoldable pub alloc_loop : ℕ → List ℕ → Memphy → Option (List ℕ) × Memphy
alloc_loop zero head mp = (some head, mp)
alloc_loop (suc n) head mp =
    let (fpn, mp') = get_freefp mp in
    elim fpn [ none ↦ (none, give_back head mp') | some f ↦ alloc_loop n (head ++ f ∷ []) mp' ]

-- The results of `alloc_pages_range`: -1, -3000, and 0 with the list of frames.
pub data Allocated : Type 0 where
  refused out_of_memory : Allocated
  frames : List ℕ → Allocated

unfoldable pub alloc_pages_range : Memphy → ℕ → Allocated × Memphy
alloc_pages_range mram req_pgnum =
    if nonneg req_pgnum == 0
    then (refused, mram)
    else (let (lst, mram') = alloc_loop (nonneg req_pgnum) [] mram in
        elim lst [ none ↦ (out_of_memory, mram') | some l ↦ (frames l, mram') ])

-- `vm_map_ram` after the call of `alloc_pages_range`. The result -1 of the call is not below 0 as an
-- `addr_t`, so that it is not noticed: the mapping goes on with an empty list of frames. The region
-- is `none` where `ret_rg` is not written.
unfoldable pub map_allocated : Krnl → ℕ → ℕ → Allocated × Memphy → Exec (Rc × Option Region × Krnl)
map_allocated krnl mapstart incpgnum (refused, mram) = do
  (rg, k) ← vmap_page_range (record krnl { mram = mram }) mapstart incpgnum []
  ok (success, some rg, k)
map_allocated krnl mapstart incpgnum (out_of_memory, mram) =
    ok (failure, none, record krnl { mram = mram })
map_allocated krnl mapstart incpgnum (frames l, mram) = do
  (rg, k) ← vmap_page_range (record krnl { mram = mram }) mapstart incpgnum l
  ok (success, some rg, k)

unfoldable pub vm_map_ram : Krnl → ℕ → ℕ → Exec (Rc × Option Region × Krnl)
vm_map_ram krnl mapstart incpgnum =
    map_allocated krnl mapstart incpgnum (alloc_pages_range krnl.mram incpgnum)

-- the loop of `__swap_cp_page` from cell `cellidx` on, `n` cells of it: the destination after it;
-- a byte that was not read is not initialised
unfoldable pub cp_loop : ℕ → ℕ → Memphy → ℕ → Memphy → ℕ → Exec (Memphy × Memphy)
cp_loop zero cellidx mpsrc srcfpn mpdst dstfpn = ok (mpsrc, mpdst)
cp_loop (suc n) cellidx mpsrc srcfpn mpdst dstfpn = do
  (value, mpsrc') ← Memphy.read mpsrc ((srcfpn * paging_pagesz + cellidx) % u64_mod)
  byte ← elim value [ none ↦ fault | some v ↦ ok v ]
  (rc, mpdst') ← Memphy.write mpdst ((dstfpn * paging_pagesz + cellidx) % u64_mod) byte
  cp_loop n (cellidx + 1) mpsrc' srcfpn mpdst' dstfpn

-- KERNEL_SPACE_START of include/mm.h
abbrev pub kernel_space_start : ℕ
kernel_space_start = 0x80000000

-- The argument `mm` is what the structure holds before: the symbol table and the page queue are
-- not written. `for_kernel` says that `caller` is NULL.
unfoldable pub init_mm : Mm → Bool → Mm
init_mm mm for_kernel =
    let vm_start = if for_kernel then kernel_space_start else 0 in
    let vma0 : Vma = record {
      vm_id = 0;
      vm_start = vm_start;
      vm_end = vm_start;
      sbrk = vm_start;
      vm_freerg_list = enlist_vm_rg_node [] (init_vm_rg vm_start vm_start);
    } in
    record mm { pgd = calloc 4; mmap = vma0 ∷ []; kcpooltbl = none }

-- `__swap_cp_page`: both devices after it
unfoldable pub swap_cp_page : Memphy → ℕ → Memphy → ℕ → Exec (Memphy × Memphy)
swap_cp_page mpsrc srcfpn mpdst dstfpn = cp_loop paging_pagesz 0 mpsrc srcfpn mpdst dstfpn
