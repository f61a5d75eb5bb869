-- ===== src/Libmem/Paging.antt =====
-- src/libmem.c: pg_getpage, pg_getval and pg_setval on a page that is in RAM.
use os.Prelude.{
  ℕ, ◌+◌, ◌*◌, ◌%◌, ◌^◌, ◌<◌, ◌≡◌, refl, ◌∙◌, true, false, some, arith, ok, success, ◌==◌,
}
use os.Prelude.Words.{u32_mod, sext8}
use os.Pte.{page_present, paging_fpn, paging_pgn}
use os.Pte.Fields.{paging_fpn_lem}
use os.Pte.Address.{paging_offst_lem}
use os.PageTable.{Pgd, pte_get_entry}
use os.PageTable.Entries.{entry, pte_get_entry_lem}
use os.Memphy.Access.{poke, read_ram, write_ram}
use os.Mm.{Krnl}
use os.Syscall.{syscall, sys_memmap, sys_mem_op, sys_read}
use os.Libmem.{with_pgd, call_memmap, pg_getpage, physical, pg_getval, pg_setval}

-- the page table after two walks for the page
abbrev pub walked : Pgd → ℕ → Pgd
walked pgd pgn = (pte_get_entry (pte_get_entry pgd pgn).1 pgn).1

pub entry-walked : (pgd : Pgd) (p q : ℕ) → entry (walked pgd p) q ≡ entry pgd q
entry-walked pgd p q =
    (pte_get_entry_lem (pte_get_entry pgd p).1 p).1 q ∙ (pte_get_entry_lem pgd p).1 q

-- the kernel after a walk for the address
abbrev pub looked : Krnl → ℕ → Krnl
looked krnl addr = with_pgd krnl (walked krnl.mm.pgd (paging_pgn addr))

-- where the byte of an address is in RAM
abbrev pub location : Krnl → ℕ → ℕ
location krnl addr = physical (paging_fpn (entry krnl.mm.pgd (paging_pgn addr) % u32_mod)) addr

-- The page of the address is present, and its frame lies in the storage of a random access RAM.
pub record IsResident (krnl : Krnl) (addr : ℕ) : Type 0 where
  pub present : (page_present (entry krnl.mm.pgd (paging_pgn addr) % u32_mod) == 0) ≡ false
  pub random : krnl.mram.rdmflg ≡ true
  pub inside : location krnl addr < krnl.mram.size

pg_getpage_present :
    (krnl : Krnl) (pid pgn : ℕ)
    → (page_present (entry krnl.mm.pgd pgn % u32_mod) == 0) ≡ false
    → pg_getpage krnl pid pgn
      ≡ ok (
        some (paging_fpn (entry krnl.mm.pgd pgn % u32_mod)),
        with_pgd krnl (walked krnl.mm.pgd pgn),
      )
unfolding pg_getpage
pg_getpage_present krnl pid pgn h =
    rw
      (
        (pte_get_entry_lem krnl.mm.pgd pgn).0,
        h,
        (pte_get_entry_lem (pte_get_entry krnl.mm.pgd pgn).1 pgn).0,
        (pte_get_entry_lem krnl.mm.pgd pgn).1 pgn,
      )
      refl

location-small : (krnl : Krnl) (addr : ℕ) → location krnl addr % u32_mod ≡ location krnl addr
location-small krnl addr =
    small _ addr _ _ (paging_fpn_lem (entry krnl.mm.pgd (paging_pgn addr) % u32_mod))
      (paging_offst_lem addr)
  where
    small :
        (v a f o : ℕ) → f ≡ v % 2 ^ 13 → o ≡ a % 2 ^ 8 → (f * 2 ^ 8 + o) % u32_mod ≡ f * 2 ^ 8 + o
    small v a f o hf ho = omega arith

byte_sext8 : (v : ℕ) → sext8 v % 256 ≡ v % 256
byte_sext8 v = ground arith

-- The byte of an address whose page is in RAM is read there; RAM, the devices and the areas stay
-- as they are.
pub pg_getval_resident :
    (krnl : Krnl) (pid addr : ℕ)
    → IsResident krnl addr
    → pg_getval krnl pid addr
      ≡ ok (some (krnl.mram.cells (location krnl addr) % 256), looked krnl addr)
unfolding pg_getval call_memmap syscall sys_memmap sys_mem_op sys_read
pg_getval_resident krnl pid addr v =
    rw
      (
        pg_getpage_present krnl pid (paging_pgn addr) v.present,
        location-small krnl addr,
        read_ram krnl.mram (location krnl addr) v.random v.inside,
        byte_sext8 (krnl.mram.cells (location krnl addr)),
      )
      refl

pub pg_setval_resident :
    (krnl : Krnl) (pid addr value : ℕ)
    → IsResident krnl addr
    → pg_setval krnl pid addr value
      ≡ ok (
        success,
        record (looked krnl addr) { mram = poke krnl.mram (location krnl addr) (sext8 value) },
      )
unfolding pg_setval call_memmap syscall sys_memmap sys_mem_op
pg_setval_resident krnl pid addr value v =
    rw
      (
        pg_getpage_present krnl pid (paging_pgn addr) v.present,
        location-small krnl addr,
        write_ram krnl.mram (location krnl addr) (sext8 value) v.random v.inside,
      )
      refl
