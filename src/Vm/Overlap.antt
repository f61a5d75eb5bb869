-- ===== src/Vm/Overlap.antt =====
-- src/mm-vm.c: `validate_overlap_vm_area` and the macro OVERLAP of include/mm.h.
use os.Prelude.{
  ℕ, ◌≤◌, ◌<◌, ◌≡◌, refl, ap, ◌∙◌, ◌↔◌, true, false, some, List, [], ◌∷◌, arith, ok, success,
  failure, ltb, leb,
}
use os.Mm.{Vma, Mm}
use os.Vm.{find_vma, get_vma_by_num, overlap, validate_loop, validate_overlap_vm_area}

-- Two ranges share an address.
abbrev pub Meet : ℕ → ℕ → ℕ → ℕ → Type 0
Meet x1 x2 y1 y2 = (a : ℕ) × (x1 ≤ a) × (a < x2) × (y1 ≤ a) × (a < y2)

-- The macro OVERLAP is necessary and not sufficient for two ranges to share an address: it holds
-- of every two ranges that are not empty, of disjoint ones too.
pub overlap_lem :
    (x1 x2 y1 y2 : ℕ)
    → ((overlap x1 x2 y1 y2 ≡ true) ↔ ((x1 < x2) × (y1 < y2)))
      × (¬ (overlap x1 x2 y1 y2 ≡ true) → ¬ Meet x1 x2 y1 y2)
unfolding overlap
overlap_lem x1 x2 y1 y2 = (ground arith, λ h m. h (ground (arith, m)))

-- Area number 0 is the first of the list.
pub get_vma_first :
    (mm : Mm) (v : Vma) (rest : List Vma)
    → mm.mmap ≡ v ∷ rest
    → get_vma_by_num mm 0 ≡ ok (some (0, v))
unfolding get_vma_by_num find_vma
get_vma_first mm v rest e = rw (e, get_vma_by_num) (rw (not_below v.vm_id) refl)
  where
    not_below : (n : ℕ) → ltb n 0 ≡ false
    not_below n = ground arith

validate_first :
    (mm : Mm) (v : Vma) (rest : List Vma) (vmastart vmaend : ℕ)
    → mm.mmap ≡ v ∷ rest
    → vmastart < vmaend
    → validate_overlap_vm_area mm 0 vmastart vmaend
      ≡ ok (validate_loop (v ∷ rest) 0 0 vmastart vmaend)
unfolding validate_overlap_vm_area
validate_first mm v rest vmastart vmaend e l =
    rw (not_le vmastart vmaend l, get_vma_first mm v rest e, e) refl
  where
    not_le : (a b : ℕ) → a < b → leb b a ≡ false
    not_le a b l = ground arith

-- A second area that is not empty makes the check of every growth of the first one fail, however
-- far apart the two are.
pub neighbour_blocks_growth :
    (mm : Mm) (v w : Vma) (rest : List Vma) (vmastart vmaend : ℕ)
    → mm.mmap ≡ v ∷ w ∷ rest
    → vmastart < vmaend
    → w.vm_start < w.vm_end
    → validate_overlap_vm_area mm 0 vmastart vmaend ≡ ok failure
unfolding validate_loop overlap
neighbour_blocks_growth mm v w rest vmastart vmaend e l n =
    validate_first mm v (w ∷ rest) vmastart vmaend e l ∙ ap ok (ground arith)

-- With one area, every range that is not empty passes the check.
pub single_area_valid :
    (mm : Mm) (v : Vma) (vmastart vmaend : ℕ)
    → mm.mmap ≡ v ∷ []
    → vmastart < vmaend
    → validate_overlap_vm_area mm 0 vmastart vmaend ≡ ok success
unfolding validate_loop
single_area_valid mm v vmastart vmaend e l = validate_first mm v [] vmastart vmaend e l
