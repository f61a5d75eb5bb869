-- ===== src/Pte/Fields.antt =====
-- The fields of a page table entry after the updates of src/mm64.c.
use Prim.Native.Nat.{bit_and, bit_or}
use os.Prelude.{ℕ, ◌+◌, ◌-◌, ◌*◌, ◌/◌, ◌%◌, ◌^◌, ◌≡◌, ◌<◌, ◌∙◌, arith}
use os.Prelude.Bits.{
  bit_and-split, bit_or-split, bit_and_mask, bit_or_step, bit_and-zero, bit_or-zero, bit_or_join,
}
use native.Mathlib.Nat.{add-zero}
use os.Prelude.Words.{u32_mod, u64_mod}
use os.Pte.{
  setbit, clrbit, setval, getval, present_mask, swapped_mask, fpn_mask, swptyp_mask, swpoff_mask,
  page_present, paging_fpn, paging_swp, set_fpn, set_swap,
}

bit_or-one : (x : ℕ) → bit_or x 1 ≡ x / 2 * 2 + 1
bit_or-one x = omega (arith, bit_or_step x 1, bit_or-zero (x / 2))

bit_and_two : (x : ℕ) → bit_and x 2 ≡ x / 2 % 2 * 2
bit_and_two x =
    omega (arith, bit_and-split 1 x 1 0 (omega arith), bit_and_mask 1 (x / 2), bit_and-zero (x % 2))

-- Setting and clearing one bit, as arithmetic.
pub setbit_present : (v : ℕ) → setbit v present_mask ≡ v / 2 ^ 32 * 2 ^ 32 + 2 ^ 31 + v % 2 ^ 31
setbit_present v =
    omega (
      arith,
      bit_or-split 31 v 1 0 (omega arith),
      bit_or-one (v / 2 ^ 31),
      bit_or-zero (v % 2 ^ 31),
    )

pub setbit_swapped : (v : ℕ) → setbit v swapped_mask ≡ v / 2 ^ 31 * 2 ^ 31 + 2 ^ 30 + v % 2 ^ 30
setbit_swapped v =
    omega (
      arith,
      bit_or-split 30 v 1 0 (omega arith),
      bit_or-one (v / 2 ^ 30),
      bit_or-zero (v % 2 ^ 30),
    )

pub clrbit_swapped : (v : ℕ) → clrbit v swapped_mask ≡ v / 2 ^ 31 % 2 * 2 ^ 31 + v % 2 ^ 30
clrbit_swapped v = omega (
  arith,
  bit_and-split 30 v 2 (2 ^ 30 - 1) (omega arith),
  bit_and_two (v / 2 ^ 30),
  bit_and_mask 30 (v % 2 ^ 30),
)

-- Writing one field, as arithmetic: the bits below 2 ^ 32 outside the field stay.
pub setval_fpn : (v fpn : ℕ) → setval v fpn fpn_mask 0 ≡ v / 2 ^ 13 % 2 ^ 19 * 2 ^ 13 + fpn % 2 ^ 13
setval_fpn v fpn =
    rw
      (
        bit_and-split 13 v (2 ^ 19 - 1) 0 (omega arith),
        bit_and_mask 19 (v / 2 ^ 13),
        bit_and-zero (v % 2 ^ 13),
        bit_and_mask 13 (fpn * 2 ^ 0 % u64_mod),
        add-zero (v / 2 ^ 13 % 2 ^ 19 * 2 ^ 13),
        bit_or_join 13 (v / 2 ^ 13 % 2 ^ 19) (fpn * 2 ^ 0 % u64_mod % 2 ^ 13) (omega arith),
      )
      (omega arith)

pub setval_swptyp :
    (v typ : ℕ) → setval v typ swptyp_mask 0 ≡ v / 2 ^ 5 % 2 ^ 27 * 2 ^ 5 + typ % 2 ^ 5
setval_swptyp v typ =
    rw
      (
        bit_and-split 5 v (2 ^ 27 - 1) 0 (omega arith),
        bit_and_mask 27 (v / 2 ^ 5),
        bit_and-zero (v % 2 ^ 5),
        bit_and_mask 5 (typ * 2 ^ 0 % u64_mod),
        add-zero (v / 2 ^ 5 % 2 ^ 27 * 2 ^ 5),
        bit_or_join 5 (v / 2 ^ 5 % 2 ^ 27) (typ * 2 ^ 0 % u64_mod % 2 ^ 5) (omega arith),
      )
      (omega arith)

outside_swpoff :
    (v : ℕ) → bit_and v (u32_mod - 1 - swpoff_mask) ≡ v / 2 ^ 26 % 2 ^ 6 * 2 ^ 26 + v % 2 ^ 5
outside_swpoff v = omega (
  arith,
  bit_and-split 26 v (2 ^ 6 - 1) (2 ^ 5 - 1) (omega arith),
  bit_and_mask 6 (v / 2 ^ 26),
  bit_and_mask 5 (v % 2 ^ 26),
)

inside_swpoff : (off : ℕ) → bit_and (off * 2 ^ 5 % u64_mod) swpoff_mask ≡ off % 2 ^ 21 * 2 ^ 5 + 0
inside_swpoff off = omega (
  arith,
  bit_and-split 5 (off * 2 ^ 5 % u64_mod) (2 ^ 21 - 1) 0 (omega arith),
  bit_and_mask 21 (off * 2 ^ 5 % u64_mod / 2 ^ 5),
  bit_and-zero (off * 2 ^ 5 % u64_mod % 2 ^ 5),
)

high_part : (h t : ℕ) → t < 2 ^ 5 → (h * 2 ^ 26 + t) / 2 ^ 5 ≡ h * 2 ^ 21
high_part h t l = omega arith

pub setval_swpoff :
    (v off : ℕ)
    → setval v off swpoff_mask 5 ≡ v / 2 ^ 26 % 2 ^ 6 * 2 ^ 26 + off % 2 ^ 21 * 2 ^ 5 + v % 2 ^ 5
setval_swpoff v off =
    let h = v / 2 ^ 26 % 2 ^ 6 in
    let t = v % 2 ^ 5 in
    let w = off % 2 ^ 21 in
    rw (outside_swpoff v, inside_swpoff off)
      (bit_or-split 5 (h * 2 ^ 26 + t) w 0 (omega arith)
        ∙ rw
            (
              high_part h t (omega arith),
              bit_or_join 21 h w (omega arith),
              bit_or-zero ((h * 2 ^ 26 + t) % 2 ^ 5),
            )
            (omega arith))

-- The macros that read an entry, as arithmetic.
pub page_present_lem : (v : ℕ) → page_present v ≡ v / 2 ^ 31 % 2 * 2 ^ 31
unfolding page_present
page_present_lem v = omega (
  arith,
  bit_and-split 31 v 1 0 (omega arith),
  bit_and_mask 1 (v / 2 ^ 31),
  bit_and-zero (v % 2 ^ 31),
)

pub swapped_lem : (v : ℕ) → bit_and v swapped_mask ≡ v / 2 ^ 30 % 2 * 2 ^ 30
swapped_lem v = omega (
  arith,
  bit_and-split 30 v 1 0 (omega arith),
  bit_and_mask 1 (v / 2 ^ 30),
  bit_and-zero (v % 2 ^ 30),
)

pub paging_fpn_lem : (v : ℕ) → paging_fpn v ≡ v % 2 ^ 13
unfolding paging_fpn
paging_fpn_lem v = omega (arith, bit_and_mask 13 v)

pub paging_swp_lem : (v : ℕ) → paging_swp v ≡ v / 2 ^ 5 % 2 ^ 21
unfolding paging_swp
paging_swp_lem v = omega (
  arith,
  bit_and-split 5 v (2 ^ 21 - 1) 0 (omega arith),
  bit_and_mask 21 (v / 2 ^ 5),
  bit_and-zero (v % 2 ^ 5),
)

pub set_fpn_lem : (v fpn : ℕ) → set_fpn v fpn ≡ 2 ^ 31 + v / 2 ^ 13 % 2 ^ 17 * 2 ^ 13 + fpn % 2 ^ 13
unfolding set_fpn
set_fpn_lem v fpn =
    let a = setbit v present_mask in
    let b = clrbit a swapped_mask in
    omega (arith, setval_fpn b fpn, clrbit_swapped a, setbit_present v)

pub set_swap_lem :
    (v typ off : ℕ)
    → set_swap v typ off
      ≡ 2 ^ 31 + 2 ^ 30 + v / 2 ^ 26 % 2 ^ 4 * 2 ^ 26 + off % 2 ^ 21 * 2 ^ 5 + typ % 2 ^ 5
unfolding set_swap
set_swap_lem v typ off =
    let a = setbit v present_mask in
    let b = setbit a swapped_mask in
    let c = setval b typ swptyp_mask 0 in
    omega (arith, setval_swpoff c off, setval_swptyp b typ, setbit_swapped a, setbit_present v)

-- An entry set by `pte_set_fpn` is present, not swapped, and gives back the frame number in 13
-- bits; it fits 32 bits, and the bits between the two parts stay as they were.
pub set_fpn_fields :
    (v fpn : ℕ)
    → (page_present (set_fpn v fpn) ≡ present_mask)
      × (bit_and (set_fpn v fpn) swapped_mask ≡ 0)
      × (paging_fpn (set_fpn v fpn) ≡ fpn % 2 ^ 13)
      × (set_fpn v fpn < u32_mod)
      × (set_fpn v fpn / 2 ^ 13 % 2 ^ 17 ≡ v / 2 ^ 13 % 2 ^ 17)
set_fpn_fields v fpn =
    let e = set_fpn v fpn in
    (
      omega (arith, page_present_lem e, set_fpn_lem v fpn),
      omega (arith, swapped_lem e, set_fpn_lem v fpn),
      omega (arith, paging_fpn_lem e, set_fpn_lem v fpn),
      omega (arith, set_fpn_lem v fpn),
      omega (arith, set_fpn_lem v fpn),
    )

-- An entry set by `pte_set_swap` is marked swapped and gives back the swap frame in 21 bits and
-- the swap type in 5. It is also still marked present, and read as a frame number it gives the
-- low bits of swap frame and type.
pub set_swap_fields :
    (v typ off : ℕ)
    → (bit_and (set_swap v typ off) swapped_mask ≡ swapped_mask)
      × (paging_swp (set_swap v typ off) ≡ off % 2 ^ 21)
      × (getval (set_swap v typ off) swptyp_mask 0 ≡ typ % 2 ^ 5)
      × (page_present (set_swap v typ off) ≡ present_mask)
      × (paging_fpn (set_swap v typ off) ≡ off % 2 ^ 8 * 2 ^ 5 + typ % 2 ^ 5)
set_swap_fields v typ off =
    let e = set_swap v typ off in
    (
      omega (arith, swapped_lem e, set_swap_lem v typ off),
      omega (arith, paging_swp_lem e, set_swap_lem v typ off),
      omega (arith, bit_and_mask 5 e, set_swap_lem v typ off),
      omega (arith, page_present_lem e, set_swap_lem v typ off),
      omega (arith, paging_fpn_lem e, set_swap_lem v typ off),
    )
