-- ===== src/Mm.antt =====
-- include/os-mm.h and include/common.h: the structures of memory management. Linked lists are
-- lists; the fields that no function reads (`vmaid` of a region, `vm_mm`, `used_fp_list`, `p4d` to
-- `pt`) are left out.
use os.Prelude.{ℕ, Option, List}
use os.Memphy.{Memphy}
use os.PageTable.{Pgd, Table}
use os.Queue.{Queue}

-- `struct vm_rg_struct`
pub record Region : Type 0 where
  pub rg_start : ℕ
  pub rg_end : ℕ

-- `struct vm_area_struct`
pub record Vma : Type 0 where
  pub vm_id : ℕ
  pub vm_start : ℕ
  pub vm_end : ℕ
  pub sbrk : ℕ
  pub vm_freerg_list : List Region

-- `struct kcache_pool_struct`; the two `int`s are bit patterns.
pub record KcachePool : Type 0 where
  pub size : ℕ
  pub align : ℕ
  pub storage : ℕ

-- `struct mm_struct`; a NULL `kcpooltbl` is `none`.
pub record Mm : Type 0 where
  pub pgd : Pgd
  pub mmap : List Vma
  pub symrgtbl : List Region
  pub fifo_pgn : List ℕ
  pub kcpooltbl : Option (List KcachePool)

-- `struct krnl_t`, as far as memory management reads it. An entry of `krnl_pgd` is the table that
-- its address led to when it was copied.
pub record Krnl : Type 0 where
  pub mm : Mm
  pub mram : Memphy
  pub active_mswp : Memphy
  pub active_mswp_id : ℕ
  pub running_list : Queue
  pub krnl_pgd : Option (ℕ → Option (Table 3))
