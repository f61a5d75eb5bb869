-- ===== src/Pte.antt =====
-- include/mm.h, include/bitops.h, include/mm64.h: the macros on page table entries and addresses;
-- src/mm64.c: what init_pte, pte_set_fpn and pte_set_swap do to the entry that they reach.
-- An entry is an `addr_t`, 64 bits; the masks are 32-bit unsigned numbers, so that `~mask` has 32
-- bits too, and `v & ~mask` clears the upper half of `v`.
pub mod Fields
pub mod Address
use Prim.Native.Nat.{bit_and, bit_or}
use os.Prelude.{
  ℕ, ◌+◌, ◌-◌, ◌*◌, ◌/◌, ◌%◌, ◌^◌, Bool, Exec, ok, fault, ◌==◌, if◌then◌else◌, Rc, success, failure,
}
use os.Prelude.Words.{u32_mod, u64_mod}

abbrev pub genmask : ℕ → ℕ → ℕ
genmask h l = bit_and ((u32_mod - 1) * 2 ^ l % u32_mod) ((u32_mod - 1) / 2 ^ (32 - h - 1))

abbrev pub genmask64 : ℕ → ℕ → ℕ
genmask64 h l = bit_and ((u64_mod - 1) * 2 ^ l % u64_mod) ((u64_mod - 1) / 2 ^ (64 - h - 1))

abbrev pub bit : ℕ → ℕ
bit nr = 2 ^ nr

abbrev pub complement : ℕ → ℕ
complement mask = u32_mod - 1 - mask

abbrev pub setbit : ℕ → ℕ → ℕ
setbit v mask = bit_or v mask

abbrev pub clrbit : ℕ → ℕ → ℕ
clrbit v mask = bit_and v (complement mask)

abbrev pub setval : ℕ → ℕ → ℕ → ℕ → ℕ
setval v value mask offst =
    bit_or (bit_and v (complement mask)) (bit_and (value * 2 ^ offst % u64_mod) mask)

abbrev pub getval : ℕ → ℕ → ℕ → ℕ
getval v mask offst = bit_and v mask / 2 ^ offst

-- the masks of an entry
abbrev pub present_mask : ℕ
present_mask = bit 31

abbrev pub swapped_mask : ℕ
swapped_mask = bit 30

abbrev pub dirty_mask : ℕ
dirty_mask = bit 28

abbrev pub fpn_mask : ℕ
fpn_mask = genmask 12 0

abbrev pub swptyp_mask : ℕ
swptyp_mask = genmask 4 0

abbrev pub swpoff_mask : ℕ
swpoff_mask = genmask 25 5

-- PAGING_PAGE_PRESENT, PAGING_FPN, PAGING_SWP
unfoldable pub page_present : ℕ → ℕ
page_present pte = bit_and pte present_mask

unfoldable pub paging_fpn : ℕ → ℕ
paging_fpn pte = getval pte fpn_mask 0

unfoldable pub paging_swp : ℕ → ℕ
paging_swp pte = bit_and pte swpoff_mask / 2 ^ 5

-- PAGING_PAGESZ of include/mm.h and PAGING64_PAGESZ of include/mm64.h
abbrev pub paging_pagesz : ℕ
paging_pagesz = 256

abbrev pub paging64_pagesz : ℕ
paging64_pagesz = 4096

-- PAGING_PGN and PAGING_OFFST of an `int` address: the page number is in bits 8 to 21.
unfoldable pub paging_pgn : ℕ → ℕ
paging_pgn addr = getval addr (genmask 21 8) 8

unfoldable pub paging_offst : ℕ → ℕ
paging_offst addr = getval addr (genmask 7 0) 0

-- the updates of an entry by `pte_set_fpn` and `pte_set_swap`
unfoldable pub set_fpn : ℕ → ℕ → ℕ
set_fpn pte fpn = setval (clrbit (setbit pte present_mask) swapped_mask) fpn fpn_mask 0

unfoldable pub set_swap : ℕ → ℕ → ℕ → ℕ
set_swap pte swptyp swpoff =
    setval (setval (setbit (setbit pte present_mask) swapped_mask) swptyp swptyp_mask 0) swpoff
      swpoff_mask 5

-- `init_pte`: the result and the entry. The arguments `pre` and `swp` are tested against 0.
unfoldable pub init_pte : ℕ → ℕ → ℕ → ℕ → ℕ → ℕ → Rc × ℕ
init_pte pte pre fpn swp swptyp swpoff =
    if pre == 0
    then (success, pte)
    else if swp == 0
    then if fpn == 0 then (failure, pte) else (
      success,
      setval (clrbit (clrbit (setbit pte present_mask) swapped_mask) dirty_mask) fpn fpn_mask 0,
    )
    else (
      success,
      setval
          (setval (clrbit (setbit (setbit pte present_mask) swapped_mask) dirty_mask) swptyp
            swptyp_mask 0)
          swpoff swpoff_mask 5,
    )
