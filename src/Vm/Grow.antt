-- ===== src/Vm/Grow.antt =====
-- src/mm-vm.c: what `inc_vma_limit` does to a process with one area, which is what `init_mm` makes.
use os.Prelude.{
  ℕ, ◌+◌, ◌*◌, ◌/◌, ◌%◌, ◌^◌, ◌≤◌, ◌<◌, ◌≡◌, ap, ◌∙◌, false, [], ◌∷◌, arith, ok, success, leb, ◌==◌,
  length, take,
}
use os.Prelude.Words.{u64_mod, add64}
use os.Pte.{paging64_pagesz}
use os.Mm.{Vma, Mm, Krnl}
use os.Mm64.Alloc.{with_free}
use os.Mm64.Range.{IsMapped}
use os.Mm64.MapRam.{taken, vm_map_ram_short, vm_map_ram_enough}
use mathlib.Core.List.{reverse}
use os.Vm.{page_alignsz, with_vma, commit_growth, extend_vma, inc_vma_limit}
use os.Vm.Overlap.{get_vma_first, single_area_valid}

-- A process with one area that is mapped up to its break, at a page boundary.
pub record IsHeap (mm : Mm) (vma : Vma) : Type 0 where
  pub single : mm.mmap ≡ vma ∷ []
  pub full : vma.sbrk ≡ vma.vm_end
  pub ordered : vma.vm_start ≤ vma.sbrk
  pub aligned : vma.sbrk % paging64_pagesz ≡ 0

-- the area after a growth by `inc_sz`
abbrev pub grown : Vma → ℕ → Vma
grown vma inc_sz =
    let new_end = vma.sbrk + (inc_sz + 4095) / 4096 * 4096 in
    record vma { vm_end = new_end; sbrk = new_end }

page_alignsz_lem : (sz : ℕ) → sz + 4096 < u64_mod → page_alignsz sz ≡ (sz + 4095) / 4096 * 4096
unfolding page_alignsz
page_alignsz_lem sz h = ap (λ t. t / 4096 * 4096) (small sz h)
  where
    small : (n : ℕ) → n + 4096 < u64_mod → add64 n 4095 ≡ n + 4095
    small n h = omega arith

-- Growing a heap comes down to committing the growth.
inc_vma_limit-commit :
    (krnl : Krnl) (vma : Vma) (inc_sz : ℕ)
    → IsHeap krnl.mm vma
    → 0 < inc_sz
    → vma.sbrk + inc_sz + 4096 < u64_mod
    → inc_vma_limit krnl 0 inc_sz
      ≡ commit_growth krnl 0 vma (vma.sbrk + (inc_sz + 4095) / 4096 * 4096)
unfolding inc_vma_limit extend_vma
inc_vma_limit-commit krnl vma inc_sz v p b =
    rw
      (
        not_zero inc_sz p,
        get_vma_first krnl.mm vma [] v.single,
        past_end vma.sbrk inc_sz vma.vm_end v.full p (omega arith),
        page_alignsz_lem inc_sz (omega arith),
        grows inc_sz p,
        no_wrap vma.sbrk inc_sz b,
        single_area_valid krnl.mm vma vma.vm_start (vma.sbrk + (inc_sz + 4095) / 4096 * 4096)
            v.single (omega (arith, v.ordered)),
      )
      (ap (commit_growth krnl 0 vma)
        (ap (add64 vma.sbrk) (page_alignsz_lem inc_sz (omega arith)) ∙ no_wrap vma.sbrk inc_sz b))
  where
    not_zero : (n : ℕ) → 0 < n → (n == 0) ≡ false
    not_zero n p = ground arith

    past_end : (s n e : ℕ) → s ≡ e → 0 < n → s + n + 4096 < u64_mod → leb (add64 s n) e ≡ false
    past_end s n e f p b = ground arith

    grows : (n : ℕ) → 0 < n → ((n + 4095) / 4096 * 4096 == 0) ≡ false
    grows n p = ground arith

    no_wrap :
        (s n : ℕ)
        → s + n + 4096 < u64_mod
        → add64 s ((n + 4095) / 4096 * 4096) ≡ s + (n + 4095) / 4096 * 4096
    no_wrap s n b = omega arith

-- the kernel after the area has grown, before the mapping
abbrev pub area_grown : Krnl → Vma → ℕ → Krnl
area_grown krnl vma inc_sz = with_vma krnl 0 (grown vma inc_sz)

module _ (krnl : Krnl) (vma : Vma) (inc_sz : ℕ) (v : IsHeap krnl.mm vma) (p : 0 < inc_sz) where
  -- the area list after the growth
  pub area_grown_list : (area_grown krnl vma inc_sz).mm.mmap ≡ grown vma inc_sz ∷ []
  area_grown_list = rw v.single

  -- Growing a heap with fewer than three frames free reports success all the same: the area ends
  -- further on, no page is mapped, and the free frames are in reverse order.
  pub grow_without_frames :
      vma.sbrk + inc_sz + 4096 < u64_mod
      → length krnl.mram.free_fp_list < 3
      → inc_vma_limit krnl 0 inc_sz
        ≡ ok (
          success,
          record (area_grown krnl vma inc_sz) {
            mram = with_free krnl.mram (reverse krnl.mram.free_fp_list);
          },
        )
  unfolding commit_growth
  grow_without_frames b short =
      inc_vma_limit-commit krnl vma inc_sz v p b
      ∙ rw (vm_map_ram_short (area_grown krnl vma inc_sz) vma.sbrk 3 short)

  -- Growing a heap with three frames free succeeds: the area and its break move to the end of the
  -- last whole page, the three pages at the old break are mapped to the first three free frames
  -- and queued, and no other page, area or device changes.
  pub grow_maps_three :
      vma.sbrk + inc_sz + 4096 < u64_mod
      → vma.sbrk / paging64_pagesz + 3 ≤ 2 ^ 45
      → 3 ≤ length krnl.mram.free_fp_list
      → (krnl' : Krnl) × (inc_vma_limit krnl 0 inc_sz ≡ ok (success, krnl'))
        × IsMapped
            (taken (area_grown krnl vma inc_sz) 3)
            krnl'
            (vma.sbrk / paging64_pagesz)
            3
            (take 3 krnl.mram.free_fp_list)
  unfolding commit_growth
  grow_maps_three b top enough =
      let (rg, krnl', e, m) =
        vm_map_ram_enough (area_grown krnl vma inc_sz) vma.sbrk 3 (omega arith) enough top in
      (krnl', inc_vma_limit-commit krnl vma inc_sz v p b ∙ rw e, m)
