-- ===== src/Libmem.antt =====
-- src/libmem.c: regions, victims, and bytes of a page, on the current `mm`. A region number is the
-- bit pattern of an `int`; a use of `symrgtbl` outside its 30 entries is a fault. `malloc` succeeds.
pub mod Victim
pub mod Cover
pub mod FreeList
pub mod Paging
pub mod Swapping
pub mod Release
use os.Prelude.{
  ℕ, ◌+◌, ◌-◌, ◌*◌, ◌/◌, ◌%◌, ◌^◌, Bool, ◌&&◌, Option, none, some, List, [], ◌∷◌, ltb, leb, ◌==◌,
  if◌then◌else◌, Exec, ok, fault, ◌>>=◌, Rc, success, failure, length, set, get_elem?,
}
use os.Prelude.Words.{u32_mod, u64_mod, add64, sext32, sext8}
use os.Pte.{page_present, paging_fpn, paging_swp, paging_pgn, paging_offst}
use os.Memphy.{Memphy, get_freefp, put_freefp}
use os.PageTable.{Pgd, pte_get_entry, pte_set_fpn, pte_set_swap}
use os.Mm.{Region, Vma, Mm, Krnl}
use os.Mm64.{enlist_pgn_node}
use os.Vm.{get_vma_by_num, with_vma}
use os.Syscall.{Regs, syscall}

-- `enlist_vm_freerg_list` on the free list of the first area
unfoldable pub enlist_vm_freerg_list : Mm → Region → Exec (Rc × Mm)
enlist_vm_freerg_list mm rg_elmt = elim mm.mmap [
  | [] ↦ fault
  | vma ∷ rest ↦
      if leb rg_elmt.rg_end rg_elmt.rg_start
      then ok (failure, mm)
      else ok (
        success,
        record mm { mmap = record vma { vm_freerg_list = rg_elmt ∷ vma.vm_freerg_list } ∷ rest },
      )
]

-- The pointer is the index of an entry; `none` is NULL.
unfoldable pub get_symrg_byid : ℕ → Option ℕ
get_symrg_byid rgid = if ltb 30 rgid then none else some rgid

-- `mm->symrgtbl[rgid]`
unfoldable pub symrg : Mm → ℕ → Exec Region
symrg mm rgid = elim (get_elem? mm.symrgtbl rgid) [ none ↦ fault | some rg ↦ ok rg ]

unfoldable pub set_symrg : Krnl → ℕ → Region → Exec Krnl
set_symrg krnl rgid rg =
    if ltb rgid (length krnl.mm.symrgtbl)
    then ok (record krnl { mm = record (krnl.mm) { symrgtbl = set krnl.mm.symrgtbl rgid rg } })
    else fault

-- The oldest page of the list, its last one, and the list without it.
unfoldable pub victim_loop : ℕ → List ℕ → ℕ × List ℕ
victim_loop pg [] = (pg, [])
victim_loop pg (pg_next ∷ rest) = let found = victim_loop pg_next rest in (found.0, pg ∷ found.1)

unfoldable pub find_victim_page : List ℕ → Option ℕ × List ℕ
find_victim_page [] = (none, [])
find_victim_page (pg ∷ rest) = let found = victim_loop pg rest in (some found.0, found.1)

-- A region that is used up gives its place to the next one, and the last one becomes empty.
unfoldable pub use_up : Region → List Region → List Region
use_up rg [] = record { rg_start = rg.rg_end; rg_end = rg.rg_end } ∷ []
use_up rg (nextrg ∷ rest) = nextrg ∷ rest

-- the loop of `get_free_vmrg_area`: the region found, (-1, -1) if none is, and the free list;
-- `size` is converted to 64 bits
unfoldable pub fit_loop : List Region → ℕ → Region × List Region
fit_loop [] size = (record { rg_start = u64_mod - 1; rg_end = u64_mod - 1 }, [])
fit_loop (rgit ∷ rest) size =
    let next = fit_loop rest size in
    let rg_end = add64 rgit.rg_start size in
    if leb rg_end rgit.rg_end
    then (
      record { rg_start = rgit.rg_start; rg_end = rg_end },
      if ltb rg_end rgit.rg_end then record rgit { rg_start = rg_end } ∷ rest else use_up rgit rest,
    )
    else (next.0, rgit ∷ next.1)

-- `get_free_vmrg_area`: `none` is -1, and then `newrg` is not used by the callers
unfoldable pub get_free_vmrg_area : Krnl → ℕ → ℕ → Exec (Option Region × Krnl)
get_free_vmrg_area krnl vmaid size = do
  cur_vma ← get_vma_by_num krnl.mm vmaid
  elim cur_vma [
    | none ↦ fault
    | some (i, vma) ↦
        let found = fit_loop vma.vm_freerg_list (sext32 (size % u32_mod)) in
        ok (
          if found.0.rg_start == u64_mod - 1 then none else some found.0,
          with_vma krnl i (record vma { vm_freerg_list = found.1 }),
        )
  ]

-- the current page table replaced
abbrev pub with_pgd : Krnl → Pgd → Krnl
with_pgd krnl pgd = record krnl { mm = record (krnl.mm) { pgd = pgd } }

-- system call 17 with three arguments
unfoldable pub call_memmap : Krnl → ℕ → ℕ → ℕ → ℕ → Exec (Regs × Krnl)
call_memmap krnl pid a1 a2 a3 = syscall krnl pid 17 (record { a1 = a1; a2 = a2; a3 = a3 })

-- `pg_getpage` once it has a victim, a free swap frame and the entry of the page
unfoldable pub exchange : Krnl → ℕ → ℕ → ℕ → ℕ → ℕ → Exec Krnl
exchange krnl pid pgn pte vicpgn swpfpn = do
  let vic = pte_get_entry krnl.mm.pgd vicpgn
  let vicfpn = paging_fpn vic.0
  let tgtswpfpn = paging_swp pte
  (regs, krnl₁) ← call_memmap (with_pgd krnl vic.1) pid 3 vicfpn swpfpn
  let krnl₂ = with_pgd krnl₁ (pte_set_swap krnl₁.mm.pgd vicpgn krnl₁.active_mswp_id swpfpn)
  (regs', krnl₃) ← call_memmap krnl₂ pid 3 vicfpn tgtswpfpn
  ok (record krnl₃ {
    mm = record (krnl₃.mm) {
      pgd = pte_set_fpn krnl₃.mm.pgd pgn vicfpn;
      fifo_pgn = enlist_pgn_node krnl₃.mm.fifo_pgn pgn;
    };
    active_mswp = put_freefp krnl₃.active_mswp tgtswpfpn;
  })

-- the page made present: -1 when there is no free swap frame, or no victim
unfoldable pub take_frame : Krnl → ℕ → ℕ → ℕ → ℕ → Option ℕ × Memphy → Exec (Rc × Krnl)
take_frame krnl pid pgn pte vicpgn (none, mswp) = ok (failure, krnl)
take_frame krnl pid pgn pte vicpgn (some swpfpn, mswp) = do
  krnl' ← exchange (record krnl { active_mswp = mswp }) pid pgn pte vicpgn swpfpn
  ok (success, krnl')

unfoldable pub take_victim : Krnl → ℕ → ℕ → ℕ → Option ℕ × List ℕ → Exec (Rc × Krnl)
take_victim krnl pid pgn pte (none, fifo) = ok (failure, krnl)
take_victim krnl pid pgn pte (some vicpgn, fifo) =
    take_frame (record krnl { mm = record (krnl.mm) { fifo_pgn = fifo } }) pid pgn pte vicpgn
      (get_freefp krnl.active_mswp)

unfoldable pub bring_in : Krnl → ℕ → ℕ → ℕ → Exec (Rc × Krnl)
bring_in krnl pid pgn pte = take_victim krnl pid pgn pte (find_victim_page krnl.mm.fifo_pgn)

-- `pg_getpage`: the frame, `none` for -1
unfoldable pub pg_getpage : Krnl → ℕ → ℕ → Exec (Option ℕ × Krnl)
pg_getpage krnl pid pgn = do
  let pte = pte_get_entry krnl.mm.pgd pgn
  (rc, krnl') ←
      (if page_present pte.0 == 0
        then bring_in (with_pgd krnl pte.1) pid pgn pte.0
        else ok (success, with_pgd krnl pte.1))
  elim rc [
    | success ↦
        (let again = pte_get_entry krnl'.mm.pgd pgn in
          ok (some (paging_fpn again.0), with_pgd krnl' again.1))
    | _ ↦ ok (none, krnl')
  ]

-- the physical address of an address on a frame
abbrev pub physical : ℕ → ℕ → ℕ
physical fpn addr = fpn * 2 ^ 8 + paging_offst addr

-- `pg_getval`: the byte, `none` for -1. The `int` that the address is cut to has the bits that the
-- page number and the offset read.
unfoldable pub pg_getval : Krnl → ℕ → ℕ → Exec (Option ℕ × Krnl)
pg_getval krnl pid addr = do
  (fpn, krnl') ← pg_getpage krnl pid (paging_pgn addr)
  elim fpn [
    | none ↦ ok (none, krnl')
    | some fpn ↦ (do
      (regs, krnl'') ← call_memmap krnl' pid 4 (physical fpn addr) 0
      ok (some (regs.a3 % 256), krnl''))
  ]

unfoldable pub pg_setval : Krnl → ℕ → ℕ → ℕ → Exec (Rc × Krnl)
pg_setval krnl pid addr value = do
  (fpn, krnl') ← pg_getpage krnl pid (paging_pgn addr)
  elim fpn [
    | none ↦ ok (failure, krnl')
    | some fpn ↦ (do
      (regs, krnl'') ← call_memmap krnl' pid 5 (physical fpn addr) (sext8 value)
      ok (success, krnl''))
  ]
