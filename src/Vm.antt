-- ===== src/Vm.antt =====
-- src/mm-vm.c: virtual memory areas and their growth.
-- `caller` and the areas are never NULL where the code tests for it, other than an area that
-- `get_vma_by_num` does not find.
pub mod Grow
pub mod Overlap
use os.Prelude.{
  ℕ, ◌+◌, ◌-◌, ◌*◌, ◌/◌, Bool, ◌&&◌, Option, none, some, List, [], ◌∷◌, ltb, leb, ◌==◌,
  if◌then◌else◌, Exec, ok, fault, ◌>>=◌, Rc, success, failure, set,
}
use os.Prelude.Words.{u64_mod, add64}
use os.Pte.{paging64_pagesz}
use os.Memphy.{Memphy, nonneg}
use os.Mm.{Region, Vma, Mm, Krnl}
use os.Mm64.{enlist_vm_rg_node, vm_map_ram, swap_cp_page}

-- the loop of `get_vma_by_num` from the area at index `i` on; past the last area the code reads
-- `vm_id` through NULL. A `vmaid` below 0 is below every `vm_id`, which `init_mm` sets to 0.
unfoldable pub find_vma : List Vma → ℕ → ℕ → Exec (ℕ × Vma)
find_vma [] i vmaid = fault
find_vma (vma ∷ rest) i vmaid =
    let next = find_vma rest (i + 1) vmaid in
    if ltb vma.vm_id (nonneg vmaid) then next else ok (i, vma)

-- `none` is NULL, for a process with no area; else the area and its place in the list. `vmaid` is
-- the bit pattern of an `int`.
unfoldable pub get_vma_by_num : Mm → ℕ → Exec (Option (ℕ × Vma))
get_vma_by_num mm vmaid = elim mm.mmap [
  | [] ↦ ok none
  | vma ∷ rest ↦ (do found ← find_vma (vma ∷ rest) 0 vmaid; ok (some found))
]

-- `__mm_swap_page`: from RAM to the active swap device
unfoldable pub mm_swap_page : Krnl → ℕ → ℕ → Exec Krnl
mm_swap_page krnl vicfpn swpfpn = do
  (mram, mswp) ← swap_cp_page krnl.mram vicfpn krnl.active_mswp swpfpn
  ok (record krnl { mram = mram; active_mswp = mswp })

-- `get_vm_area_node_at_brk`: NULL always
unfoldable pub get_vm_area_node_at_brk : Krnl → ℕ → ℕ → ℕ → Option Region
get_vm_area_node_at_brk caller vmaid size alignedsz = none

-- the macro OVERLAP of include/mm.h, `(x1 < x2 && y1 < y2)`
unfoldable pub overlap : ℕ → ℕ → ℕ → ℕ → Bool
overlap x1 x2 y1 y2 = ltb x1 x2 && ltb y1 y2

-- the loop of `validate_overlap_vm_area`; `cur` is the place of the area that grows
unfoldable pub validate_loop : List Vma → ℕ → ℕ → ℕ → ℕ → Rc
validate_loop [] i cur vmastart vmaend = success
validate_loop (vma ∷ rest) i cur vmastart vmaend =
    let next = validate_loop rest (i + 1) cur vmastart vmaend in
    if i == cur
    then next
    else if overlap vmastart vmaend vma.vm_start vma.vm_end
    then failure
    else next

unfoldable pub validate_overlap_vm_area : Mm → ℕ → ℕ → ℕ → Exec Rc
validate_overlap_vm_area mm vmaid vmastart vmaend = if leb vmaend vmastart then ok failure else (do
  cur ← get_vma_by_num mm vmaid
  elim cur [ none ↦ ok failure | some (i, vma) ↦ ok (validate_loop mm.mmap 0 i vmastart vmaend) ])

-- PAGING64_PAGE_ALIGNSZ in 64 bits
unfoldable pub page_alignsz : ℕ → ℕ
page_alignsz sz = add64 sz (paging64_pagesz - 1) / paging64_pagesz * paging64_pagesz

-- an area of the current `mm` written at its place in the list
abbrev pub with_vma : Krnl → ℕ → Vma → Krnl
with_vma krnl i vma = record krnl { mm = record (krnl.mm) { mmap = set krnl.mm.mmap i vma } }

-- Case 1: `sbrk` moves inside the area, and what is left of the area is put into its free list.
unfoldable pub advance_sbrk : Krnl → ℕ → Vma → ℕ → Krnl
advance_sbrk krnl i vma sbrk =
    let moved = record vma { sbrk = sbrk } in
    with_vma krnl i (
      if ltb sbrk vma.vm_end
      then record moved {
        vm_freerg_list =
            enlist_vm_rg_node vma.vm_freerg_list (record { rg_start = sbrk; rg_end = vma.vm_end });
      }
      else moved)

-- Case 2, after the checks: the area ends at `new_end`, and three pages are mapped. The result of
-- `vm_map_ram` and the region that it fills are not used.
unfoldable pub commit_growth : Krnl → ℕ → Vma → ℕ → Exec (Rc × Krnl)
commit_growth krnl i vma new_end = do
  (rc, rg, krnl') ←
      vm_map_ram (with_vma krnl i (record vma { vm_end = new_end; sbrk = new_end })) vma.sbrk 3
  ok (success, krnl')

-- Case 2: the area grows by whole pages, unless the growth collides with another area.
unfoldable pub extend_vma : Krnl → ℕ → ℕ → Vma → ℕ → Exec (Rc × Krnl)
extend_vma krnl vmaid i vma inc_sz =
    let aligned = page_alignsz inc_sz in
    let new_end = add64 vma.sbrk aligned in
    if aligned == 0 then ok (failure, krnl) else (do
      valid ← validate_overlap_vm_area krnl.mm vmaid vma.vm_start new_end
      elim valid [ failure ↦ ok (failure, krnl) | _ ↦ commit_growth krnl i vma new_end ])

unfoldable pub inc_vma_limit : Krnl → ℕ → ℕ → Exec (Rc × Krnl)
inc_vma_limit krnl vmaid inc_sz = if inc_sz == 0 then ok (failure, krnl) else (do
  cur ← get_vma_by_num krnl.mm vmaid
  elim cur [
    | none ↦ ok (failure, krnl)
    | some (i, vma) ↦
        if leb (add64 vma.sbrk inc_sz) vma.vm_end
        then ok (success, advance_sbrk krnl i vma (add64 vma.sbrk inc_sz))
        else extend_vma krnl vmaid i vma inc_sz
  ])
