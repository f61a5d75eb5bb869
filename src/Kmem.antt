-- ===== src/Kmem.antt =====
-- src/libmem.c: allocation in the memory of the kernel, cache pools, and copies between a process
-- and the kernel.
pub mod Slots
pub mod Caches
use os.Prelude.{
  ℕ, zero, suc, ◌+◌, ◌-◌, ◌*◌, ◌/◌, ◌%◌, ◌^◌, ◌&&◌, ◌||◌, Option, none, some, ltb, leb, ◌==◌,
  if◌then◌else◌, Exec, ok, fault, ◌>>=◌, Rc, success, failure, length, set, get_elem?,
}
use Prim.Native.Nat.{bit_and}
use os.Prelude.Words.{u32_mod, u64_mod, add64}
use os.Pte.Address.{pd_index}
use os.PageTable.{Table}
use os.Mm.{Region, KcachePool, Krnl}
use os.Vm.{get_vma_by_num}
use os.Libmem.{set_symrg, get_free_vmrg_area, call_memmap}

-- a region written to the kernel's symbol table, for a region number that it has
unfoldable pub register : Krnl → ℕ → Region → Exec Krnl
register krnl rgid rg = if ltb rgid 30 then set_symrg krnl rgid rg else ok krnl

-- `krnl_pgd[i] = mm->pgd[i]`, `n` times
unfoldable pub copy_pgd :
    ℕ → ℕ → (ℕ → Option (Table 3)) → (ℕ → Option (Table 3)) → ℕ → Option (Table 3)
copy_pgd zero i from to = to
copy_pgd (suc n) i from to = copy_pgd n (i + 1) from (λ j. if i == j then from j else to j)

-- the end of `__kmalloc`: the directories of the region copied to `krnl_pgd`, if there is one
unfoldable pub update_krnl_pgd : Krnl → ℕ → ℕ → Krnl
update_krnl_pgd krnl old_sbrk size = elim krnl.krnl_pgd [
  | none ↦ krnl
  | some to ↦
      (let start_pgd = pd_index old_sbrk 56 48 in
        let end_pgd = pd_index ((old_sbrk + size + (u64_mod - 1)) % u64_mod) 56 48 in
        record krnl {
          krnl_pgd = some (copy_pgd (end_pgd + 1 - start_pgd) start_pgd krnl.mm.pgd to);
        })
]

-- `__kmalloc` when no free region fits; the result of the call is not used
unfoldable pub kmalloc_at_sbrk : Krnl → ℕ → ℕ → ℕ → ℕ → ℕ → Exec (Option ℕ × Krnl)
kmalloc_at_sbrk krnl pid vmaid rgid size old_sbrk = do
  (regs, krnl₁) ← call_memmap krnl pid 2 vmaid size
  krnl₂ ← register krnl₁ rgid (record { rg_start = old_sbrk; rg_end = add64 old_sbrk size })
  ok (some old_sbrk, update_krnl_pgd krnl₂ old_sbrk size)

-- `__kmalloc` on the area `vmaid`: the address, `none` for -1
unfoldable pub kmalloc_in : Krnl → ℕ → ℕ → ℕ → ℕ → Exec (Option ℕ × Krnl)
kmalloc_in krnl pid vmaid rgid size = do
  cur_vma ← get_vma_by_num krnl.mm vmaid
  elim cur_vma [
    | none ↦ ok (none, krnl)
    | some (i, vma) ↦ (do
      (newrg, krnl') ← get_free_vmrg_area krnl vmaid size
      elim newrg [
        | some rgnode ↦ (do krnl'' ← register krnl' rgid rgnode; ok (some rgnode.rg_start, krnl''))
        | none ↦ kmalloc_at_sbrk krnl' pid vmaid rgid size vma.sbrk
      ])
  ]

unfoldable pub kmalloc : Krnl → ℕ → ℕ → ℕ → ℕ → Exec (Option ℕ × Krnl)
kmalloc krnl pid vmaid rgid size =
    kmalloc_in krnl pid (if ltb vmaid (2 ^ 31) then vmaid else 0) rgid size

-- 0 for an address, -1 for none
unfoldable pub status : Option ℕ × Krnl → Rc × Krnl
status (none, krnl) = (failure, krnl)
status (some addr, krnl) = (success, krnl)

unfoldable pub libkmem_malloc : Krnl → ℕ → ℕ → ℕ → Exec (Rc × Krnl)
libkmem_malloc krnl pid size reg_index = do
  result ← kmalloc krnl pid 0 reg_index size
  ok (status result)

-- a pool written to the kernel's table of pools
unfoldable pub set_pool : Krnl → ℕ → KcachePool → Exec Krnl
set_pool krnl id pool = elim krnl.mm.kcpooltbl [
  | none ↦ fault
  | some pools ↦
      if ltb id (length pools)
      then ok (record krnl { mm = record (krnl.mm) { kcpooltbl = some (set pools id pool) } })
      else fault
]

unfoldable pub cache_pool_create : Krnl → ℕ → ℕ → ℕ → ℕ → Exec (Rc × Krnl)
cache_pool_create krnl pid size align cache_pool_id = elim krnl.mm.kcpooltbl [
  | none ↦ ok (failure, krnl)
  | some pools ↦ (do
    (addr, krnl') ← kmalloc krnl pid 0 (u32_mod - 1) ((size + 255) % u32_mod / 256 * 256)
    elim addr [
      | none ↦ ok (failure, krnl')
      | some storage_addr ↦ (do
        krnl'' ←
            set_pool krnl' cache_pool_id
              (record { size = size; align = align; storage = storage_addr })
        ok (success, krnl''))
    ])
]

-- the next slot of a pool, at its alignment
unfoldable pub slot_of : KcachePool → ℕ
slot_of pool =
    if ltb 1 pool.align && ltb pool.align (2 ^ 31)
    then bit_and (add64 pool.storage (pool.align - 1)) (u64_mod - 1 - (pool.align - 1))
    else pool.storage

-- `__kmem_cache_alloc` on a pool that has a size
unfoldable pub carve : Krnl → ℕ → ℕ → KcachePool → Exec (Option ℕ × Krnl)
carve krnl rgid cache_pool_id pool = do
  let slot_addr = slot_of pool
  let slot_end = add64 slot_addr pool.size
  krnl₁ ← register krnl rgid (record { rg_start = slot_addr; rg_end = slot_end })
  krnl₂ ← set_pool krnl₁ cache_pool_id (record pool { storage = slot_end })
  ok (some slot_addr, krnl₂)

unfoldable pub kmem_cache_alloc : Krnl → ℕ → ℕ → Exec (Option ℕ × Krnl)
kmem_cache_alloc krnl rgid cache_pool_id = elim krnl.mm.kcpooltbl [
  | none ↦ ok (none, krnl)
  | some pools ↦ elim (get_elem? pools cache_pool_id) [
    | none ↦ fault
    | some pool ↦
        if pool.size == 0 || leb (2 ^ 31) pool.size
        then ok (none, krnl)
        else carve krnl rgid cache_pool_id pool
  ]
]

unfoldable pub libkmem_cache_alloc : Krnl → ℕ → ℕ → Exec (Rc × Krnl)
libkmem_cache_alloc krnl cache_pool_id reg_index = do
  result ← kmem_cache_alloc krnl reg_index cache_pool_id
  ok (status result)
