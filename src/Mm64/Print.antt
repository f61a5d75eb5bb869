-- ===== src/Mm64/Print.antt =====
-- src/mm64.c: the functions that print lists, as the result and the calls of printf, each with its
-- format and its numbers.
use Prim.Native.String.{String}
use os.Prelude.{ℕ, ◌≡◌, refl, ap, List, [], ◌∷◌, ◌++◌, Rc, success, failure}
use os.Mm.{Region, Vma}

abbrev Printed : Type 0
Printed = List (String × List ℕ)

-- the loops: a line for each node, and the call behind the loop
unfoldable fp_lines : List ℕ → Printed
fp_lines [] = ("\n", []) ∷ []
fp_lines (fpn ∷ fps) = ("fp[%lu]\n", fpn ∷ []) ∷ fp_lines fps

unfoldable rg_lines : List Region → Printed
rg_lines [] = ("\n", []) ∷ []
rg_lines (rg ∷ rgs) = ("rg[%lu->%lu]\n", rg.rg_start ∷ rg.rg_end ∷ []) ∷ rg_lines rgs

unfoldable vma_lines : List Vma → Printed
vma_lines [] = ("\n", []) ∷ []
vma_lines (vma ∷ vmas) = ("va[%lu->%lu]\n", vma.vm_start ∷ vma.vm_end ∷ []) ∷ vma_lines vmas

-- The last call prints the letter.
unfoldable pgn_lines : List ℕ → Printed
pgn_lines [] = ("n", []) ∷ []
pgn_lines (pgn ∷ pgns) = ("va[%lu]-\n", pgn ∷ []) ∷ pgn_lines pgns

-- the frame around the four loops
abbrev listing : String → Printed → Rc × Printed
listing name lines = (success, (name, []) ∷ ("\n", []) ∷ lines)

abbrev no_listing : String → Rc × Printed
no_listing name = (failure, (name, []) ∷ ("NULL list\n", []) ∷ [])

unfoldable print_list_fp : List ℕ → Rc × Printed
print_list_fp [] = no_listing "print_list_fp: "
print_list_fp (fp ∷ fps) = listing "print_list_fp: " (fp_lines (fp ∷ fps))

unfoldable print_list_rg : List Region → Rc × Printed
print_list_rg [] = no_listing "print_list_rg: "
print_list_rg (rg ∷ rgs) = listing "print_list_rg: " (rg_lines (rg ∷ rgs))

unfoldable print_list_vma : List Vma → Rc × Printed
print_list_vma [] = no_listing "print_list_vma: "
print_list_vma (vma ∷ vmas) = listing "print_list_vma: " (vma_lines (vma ∷ vmas))

unfoldable print_list_pgn : List ℕ → Rc × Printed
print_list_pgn [] = no_listing "print_list_pgn: "
print_list_pgn (pgn ∷ pgns) = listing "print_list_pgn: " (pgn_lines (pgn ∷ pgns))

-- the numbers that were printed, in order
abbrev numbers : Printed → List ℕ
numbers [] = []
numbers ((format, args) ∷ calls) = args ++ numbers calls

abbrev region_bounds : List Region → List ℕ
region_bounds [] = []
region_bounds (rg ∷ rgs) = rg.rg_start ∷ rg.rg_end ∷ region_bounds rgs

abbrev area_bounds : List Vma → List ℕ
area_bounds [] = []
area_bounds (vma ∷ vmas) = vma.vm_start ∷ vma.vm_end ∷ area_bounds vmas

-- Each listing has the numbers of all nodes, in the order of the list, also that of an empty list.
numbers-print_list_fp : (fps : List ℕ) → numbers (print_list_fp fps).1 ≡ fps
unfolding print_list_fp fp_lines
numbers-print_list_fp [] = refl
numbers-print_list_fp (fp ∷ fps) = ap (◌∷◌ fp) (of_lines fps)
  where
    of_lines : (fps : List ℕ) → numbers (fp_lines fps) ≡ fps
    of_lines [] = refl
    of_lines (fp ∷ fps) = ap (◌∷◌ fp) (of_lines fps)

numbers-print_list_rg : (rgs : List Region) → numbers (print_list_rg rgs).1 ≡ region_bounds rgs
unfolding print_list_rg rg_lines
numbers-print_list_rg [] = refl
numbers-print_list_rg (rg ∷ rgs) = ap (λ ns. rg.rg_start ∷ rg.rg_end ∷ ns) (of_lines rgs)
  where
    of_lines : (rgs : List Region) → numbers (rg_lines rgs) ≡ region_bounds rgs
    of_lines [] = refl
    of_lines (rg ∷ rgs) = ap (λ ns. rg.rg_start ∷ rg.rg_end ∷ ns) (of_lines rgs)

numbers-print_list_vma : (vmas : List Vma) → numbers (print_list_vma vmas).1 ≡ area_bounds vmas
unfolding print_list_vma vma_lines
numbers-print_list_vma [] = refl
numbers-print_list_vma (vma ∷ vmas) = ap (λ ns. vma.vm_start ∷ vma.vm_end ∷ ns) (of_lines vmas)
  where
    of_lines : (vmas : List Vma) → numbers (vma_lines vmas) ≡ area_bounds vmas
    of_lines [] = refl
    of_lines (vma ∷ vmas) = ap (λ ns. vma.vm_start ∷ vma.vm_end ∷ ns) (of_lines vmas)

numbers-print_list_pgn : (pgns : List ℕ) → numbers (print_list_pgn pgns).1 ≡ pgns
unfolding print_list_pgn pgn_lines
numbers-print_list_pgn [] = refl
numbers-print_list_pgn (pgn ∷ pgns) = ap (◌∷◌ pgn) (of_lines pgns)
  where
    of_lines : (pgns : List ℕ) → numbers (pgn_lines pgns) ≡ pgns
    of_lines [] = refl
    of_lines (pgn ∷ pgns) = ap (◌∷◌ pgn) (of_lines pgns)
