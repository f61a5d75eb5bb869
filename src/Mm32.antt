-- ===== src/Mm32.antt =====
-- src/mm.c: the page table of the build without MM64, which is one array of entries. An `addr_t` has
-- 32 bits there. The functions that are not here print a message and return 0.
pub mod Agree
use os.Prelude.{ℕ, ◌*◌, ◌%◌, ◌^◌, update, ◌==◌, if◌then◌else◌, Rc, success, failure}
use os.Prelude.Words.{u32_mod}
use Prim.Native.Nat.{bit_and, bit_or}
use os.Pte.{
  setbit, clrbit, complement, present_mask, swapped_mask, dirty_mask, fpn_mask, swptyp_mask,
  swpoff_mask,
}

-- `krnl->mm->pgd`, as an array with an entry for each page number that is used. Nothing allocates it in
-- this build; an access outside an array that is smaller is not modelled.
abbrev pub FlatTable : Type 0
FlatTable = ℕ → ℕ

-- SETVAL with an `addr_t` of 32 bits
abbrev pub setval32 : ℕ → ℕ → ℕ → ℕ → ℕ
setval32 v value mask offst =
    bit_or (bit_and v (complement mask)) (bit_and (value * 2 ^ offst % u32_mod) mask)

unfoldable pub flat_set_swap : FlatTable → ℕ → ℕ → ℕ → FlatTable
flat_set_swap pgd pgn swptyp swpoff =
    let pte = setbit (setbit (pgd pgn) present_mask) swapped_mask in
    update pgd pgn (setval32 (setval32 pte swptyp swptyp_mask 0) swpoff swpoff_mask 5)

unfoldable pub flat_set_fpn : FlatTable → ℕ → ℕ → FlatTable
flat_set_fpn pgd pgn fpn =
    let pte = clrbit (setbit (pgd pgn) present_mask) swapped_mask in
    update pgd pgn (setval32 pte fpn fpn_mask 0)

unfoldable pub flat_set_entry : FlatTable → ℕ → ℕ → FlatTable
flat_set_entry pgd pgn pte_val = update pgd pgn (pte_val % u32_mod)

-- `init_pte`: the result and the entry. The arguments `pre` and `swp` are tested against 0.
unfoldable pub flat_init_pte : ℕ → ℕ → ℕ → ℕ → ℕ → ℕ → Rc × ℕ
flat_init_pte pte pre fpn swp swptyp swpoff =
    if pre == 0
    then (success, pte)
    else if swp == 0
    then if fpn == 0 then (failure, pte) else (
      success,
      setval32 (clrbit (clrbit (setbit pte present_mask) swapped_mask) dirty_mask) fpn fpn_mask 0,
    )
    else (
      success,
      setval32
          (setval32 (clrbit (setbit (setbit pte present_mask) swapped_mask) dirty_mask) swptyp
            swptyp_mask 0)
          swpoff swpoff_mask 5,
    )
