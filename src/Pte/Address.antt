-- ===== src/Pte/Address.antt =====
-- src/mm64.c: get_pd_from_address and get_pd_from_pagenum split an address into the indices of the
-- five page directories; include/mm.h: an `int` address splits into a page number and an offset.
use Prim.Native.Nat.{bit_and}
use os.Prelude.{ℕ, ◌+◌, ◌-◌, ◌*◌, ◌/◌, ◌%◌, ◌^◌, ◌≡◌, ◌<◌, ◌↔◌, arith}
use os.Prelude.Bits.{bit_and-split, bit_and_mask, bit_and-zero}
use os.Prelude.Words.{u64_mod}
use os.Pte.{genmask64, paging_pgn, paging_offst, paging_pagesz, paging64_pagesz}

-- `(addr & GENMASK64(h, l)) >> l`
abbrev pub pd_index : ℕ → ℕ → ℕ → ℕ
pd_index addr h l = bit_and addr (genmask64 h l) / 2 ^ l

-- The results that the two functions write through their pointers.
pub record Indices : Type 0 where
  pub pgd : ℕ
  pub p4d : ℕ
  pub pud : ℕ
  pub pmd : ℕ
  pub pt : ℕ

unfoldable pub get_pd_from_address : ℕ → Indices
get_pd_from_address addr = record {
  pgd = pd_index addr 56 48;
  p4d = pd_index addr 47 39;
  pud = pd_index addr 38 30;
  pmd = pd_index addr 29 21;
  pt = pd_index addr 20 12;
}

unfoldable pub get_pd_from_pagenum : ℕ → Indices
get_pd_from_pagenum pgn = get_pd_from_address (pgn * 2 ^ 12 % u64_mod)

module _ (a : ℕ) where
  index_pgd : pd_index a 56 48 ≡ a / 2 ^ 48 % 2 ^ 9
  index_pgd = omega (
    arith,
    bit_and-split 48 a (2 ^ 9 - 1) 0 (omega arith),
    bit_and_mask 9 (a / 2 ^ 48),
    bit_and-zero (a % 2 ^ 48),
  )

  index_p4d : pd_index a 47 39 ≡ a / 2 ^ 39 % 2 ^ 9
  index_p4d = omega (
    arith,
    bit_and-split 39 a (2 ^ 9 - 1) 0 (omega arith),
    bit_and_mask 9 (a / 2 ^ 39),
    bit_and-zero (a % 2 ^ 39),
  )

  index_pud : pd_index a 38 30 ≡ a / 2 ^ 30 % 2 ^ 9
  index_pud = omega (
    arith,
    bit_and-split 30 a (2 ^ 9 - 1) 0 (omega arith),
    bit_and_mask 9 (a / 2 ^ 30),
    bit_and-zero (a % 2 ^ 30),
  )

  index_pmd : pd_index a 29 21 ≡ a / 2 ^ 21 % 2 ^ 9
  index_pmd = omega (
    arith,
    bit_and-split 21 a (2 ^ 9 - 1) 0 (omega arith),
    bit_and_mask 9 (a / 2 ^ 21),
    bit_and-zero (a % 2 ^ 21),
  )

  index_pt : pd_index a 20 12 ≡ a / 2 ^ 12 % 2 ^ 9
  index_pt = omega (
    arith,
    bit_and-split 12 a (2 ^ 9 - 1) 0 (omega arith),
    bit_and_mask 9 (a / 2 ^ 12),
    bit_and-zero (a % 2 ^ 12),
  )

-- the page number that the indices stand for
abbrev pub page_of : Indices → ℕ
page_of i = (((i.pgd * 512 + i.p4d) * 512 + i.pud) * 512 + i.pmd) * 512 + i.pt

-- Every index lies in its table of 512 entries, and together the five make up the low 45 bits of
-- the page number.
pub get_pd_from_pagenum_lem :
    (pgn : ℕ)
    → let i = get_pd_from_pagenum pgn in
      (i.pgd < 512)
      × (i.p4d < 512)
      × (i.pud < 512)
      × (i.pmd < 512)
      × (i.pt < 512)
      × (page_of i ≡ pgn % 2 ^ 45)
unfolding get_pd_from_pagenum get_pd_from_address
get_pd_from_pagenum_lem pgn =
    let a = pgn * 2 ^ 12 % u64_mod in
    (
      omega (arith, index_pgd a),
      omega (arith, index_p4d a),
      omega (arith, index_pud a),
      omega (arith, index_pmd a),
      omega (arith, index_pt a),
      omega (arith, index_pgd a, index_p4d a, index_pud a, index_pmd a, index_pt a),
    )

pub paging_pgn_lem : (addr : ℕ) → paging_pgn addr ≡ addr / 2 ^ 8 % 2 ^ 14
unfolding paging_pgn
paging_pgn_lem addr = omega (
  arith,
  bit_and-split 8 addr (2 ^ 14 - 1) 0 (omega arith),
  bit_and_mask 14 (addr / 2 ^ 8),
  bit_and-zero (addr % 2 ^ 8),
)

pub paging_offst_lem : (addr : ℕ) → paging_offst addr ≡ addr % 2 ^ 8
unfolding paging_offst
paging_offst_lem addr = omega (arith, bit_and_mask 8 addr)

-- Page number and offset, as reads and writes compute them, give back the low 22 bits of the
-- address; but from address 256 up to the end of the space the page number is not the one of
-- `vmap_page_range`, which divides by 4096.
pub page_size_mismatch :
    (addr : ℕ)
    → addr < 2 ^ 22
    → (paging_pgn addr * paging_pagesz + paging_offst addr ≡ addr)
      × ((paging_pgn addr ≡ addr / paging64_pagesz) ↔ (addr < paging_pagesz))
page_size_mismatch addr h = (
  omega (arith, paging_pgn_lem addr, paging_offst_lem addr),
  (λ e. omega (arith, paging_pgn_lem addr), λ l. omega (arith, paging_pgn_lem addr)),
)
