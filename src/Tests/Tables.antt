-- ===== src/Tests/Tables.antt =====
-- include/mm.h and src/mm64.c at concrete entries, page numbers and addresses.
use Prim.Native.Nat.{bit_and}
use os.Prelude.{refl, List, [], ◌∷◌, ◌+◌, ◌*◌, ◌%◌, ◌^◌, ◌≡◌, arith, if◌then◌else◌}
use os.Prelude.Words.{u32_mod}
use os.Pte.{
  page_present, paging_fpn, paging_swp, set_fpn, set_swap, present_mask, swapped_mask, swptyp_mask,
  getval,
}
use os.Pte.Fields.{set_swap_fields}
use os.PageTable.{
  Pgd, calloc, deref, route_of, pte_get_entry, pte_set_entry, pte_set_fpn, pte_set_swap,
}
use os.PageTable.Entries.{entry, same_page, entries_refine}
use os.Mm32.Agree.{Update, Agree, run64, run32, run64-run32}

set_swap_fields_example :
    (bit_and (set_swap 7 1 300) swapped_mask ≡ swapped_mask)
    × (paging_swp (set_swap 7 1 300) ≡ 300)
    × (getval (set_swap 7 1 300) swptyp_mask 0 ≡ 1)
    × (page_present (set_swap 7 1 300) ≡ present_mask)
    × (paging_fpn (set_swap 7 1 300) ≡ 44 * 2 ^ 5 + 1)
set_swap_fields_example = set_swap_fields 7 1 300

abbrev one_page : Pgd
one_page = pte_set_fpn (calloc 4) 3 17

entries_refine_example :
    ((pte_get_entry one_page 3).0 ≡ entry one_page 3 % u32_mod)
    × (entry (pte_get_entry one_page 3).1 4 ≡ entry one_page 4)
    × (entry (pte_set_entry one_page 3 5) 4
        ≡ (if same_page 3 4 then 5 % u32_mod else entry one_page 4))
    × (entry (pte_set_fpn one_page 3 5) 4
        ≡ (if same_page 3 4 then set_fpn (entry one_page 3) 5 else entry one_page 4))
    × (entry (pte_set_swap one_page 3 1 5) 4
        ≡ (if same_page 3 4 then set_swap (entry one_page 3) 1 5 else entry one_page 4))
entries_refine_example = entries_refine one_page 3 4 5 1

-- tables without a page, and two updates of page 3 and one of page 70000
abbrev updates : List Update
updates = Update.to_fpn 3 9 ∷ Update.to_swap 3 0 5 ∷ Update.to_entry 70000 77 ∷ []

no_pages : Agree (calloc 4) (λ _. 0)
unfolding entry calloc deref route_of os.PageTable.table_or_new
no_pages q h = refl

run64-run32_example : Agree (run64 updates (calloc 4)) (run32 updates (λ _. 0))
run64-run32_example =
    run64-run32 updates (calloc 4) (λ _. 0)
      ((omega arith, omega arith), ((omega arith, omega arith, omega arith), (omega arith, tt)))
      no_pages
