-- ===== src/Process.antt =====
-- src/libmem.c: allocation, release, read and write in the memory of a process. Each call makes the
-- process's `mm` the kernel's current one, and puts the kernel's own back before it returns.
pub mod Checks
pub mod RoundTrip
pub mod Reuse
pub mod Heap
pub mod Isolation
use os.Prelude.{
  ℕ, ◌+◌, ◌-◌, ◌/◌, ◌%◌, ◌^◌, Bool, ◌&&◌, Option, none, some, List, [], ◌∷◌, ltb, leb, ◌==◌,
  if◌then◌else◌, Exec, ok, fault, ◌>>=◌, Rc, success, failure,
}
use os.Prelude.Words.{u32_mod, add64, sext32}
use os.Mm.{Region, Vma, Mm, Krnl}
use os.Vm.{get_vma_by_num}
use os.Libmem.{
  get_symrg_byid, symrg, set_symrg, get_free_vmrg_area, enlist_vm_freerg_list, call_memmap,
  pg_getval, pg_setval,
}

-- The kernel and the `mm` of the calling process, which is another object than the kernel's.
pub record World : Type 0 where
  pub user : Mm
  pub krnl : Krnl

-- `caller->krnl->mm = caller->mm` before the body and `caller->krnl->mm = os_mm` after it
abbrev pub with_user_mm {ℓ} : {A : Type ℓ} → World → (Krnl → Exec (A × Krnl)) → Exec (A × World)
with_user_mm w body = do
  (a, krnl') ← body (record w.krnl { mm = w.user })
  ok (a, record { user = krnl'.mm; krnl = record krnl' { mm = w.krnl.mm } })

-- `__alloc` when no free region fits. `old_sbrk` is an `int`, and the result of the call is not used.
unfoldable pub alloc_at_sbrk : Krnl → ℕ → ℕ → ℕ → ℕ → ℕ → Exec (ℕ × Krnl)
alloc_at_sbrk krnl pid vmaid rgid size sbrk = do
  let old_sbrk = sext32 (sbrk % u32_mod)
  (regs, krnl₁) ← call_memmap krnl pid 2 vmaid size
  krnl₂ ← set_symrg krnl₁ rgid (record { rg_start = old_sbrk; rg_end = add64 old_sbrk size })
  ok (old_sbrk, krnl₂)

-- the body of `__alloc`: the address allocated; the function returns 0 always
unfoldable pub alloc_body : ℕ → ℕ → ℕ → ℕ → Krnl → Exec (ℕ × Krnl)
alloc_body pid vmaid rgid size krnl = do
  cur_vma ← get_vma_by_num krnl.mm vmaid
  (newrg, krnl') ← get_free_vmrg_area krnl vmaid size
  elim newrg [
    | some rgnode ↦ (do krnl'' ← set_symrg krnl' rgid rgnode; ok (rgnode.rg_start, krnl''))
    | none ↦ elim cur_vma [
      | none ↦ fault
      | some (i, vma) ↦ alloc_at_sbrk krnl' pid vmaid rgid size vma.sbrk
    ]
  ]

unfoldable pub alloc : World → ℕ → ℕ → ℕ → ℕ → Exec (ℕ × World)
alloc w pid vmaid rgid size = with_user_mm w (alloc_body pid vmaid rgid size)

-- whether the region is the one of a variable that is not allocated
unfoldable pub unallocated : Region → Bool
unallocated rg = rg.rg_start == 0 && rg.rg_end == 0

-- the body of `__free`, after the test of `rgid`; the result of `enlist_vm_freerg_list` is not used
unfoldable pub free_body : ℕ → Krnl → Exec (Rc × Krnl)
free_body rgid krnl = do
  rgnode ← symrg krnl.mm rgid
  let freed = (do
    krnl' ← set_symrg krnl rgid (record { rg_start = 0; rg_end = 0 })
    (rc, mm) ← enlist_vm_freerg_list krnl'.mm rgnode
    ok (success, record krnl' { mm = mm }))
  if unallocated rgnode then ok (failure, krnl) else freed

unfoldable pub free : World → ℕ → Exec (Rc × World)
free w rgid = elim (get_symrg_byid rgid) [
  | none ↦ ok (failure, w)
  | some rgid ↦ with_user_mm w (free_body rgid)
]

-- `__read` on a region that exists: the result, and the byte unless nothing is written to `data`;
-- the result of `pg_getval` is not used
unfoldable pub read_at : Krnl → ℕ → Region → ℕ → Exec ((Rc × Option ℕ) × Krnl)
read_at krnl pid currg offset =
    let addr = add64 currg.rg_start offset in
    if unallocated currg
    then ok ((failure, none), krnl)
    else if leb currg.rg_end addr
    then ok ((failure, none), krnl)
    else (do (data_read, krnl') ← pg_getval krnl pid addr; ok ((success, data_read), krnl'))

unfoldable pub read_body : ℕ → ℕ → ℕ → ℕ → Krnl → Exec ((Rc × Option ℕ) × Krnl)
read_body pid vmaid rgid offset krnl = do
  cur_vma ← get_vma_by_num krnl.mm vmaid
  elim (get_symrg_byid rgid) [
    | none ↦ ok ((failure, none), krnl)
    | some rgid ↦ elim cur_vma [
      | none ↦ ok ((failure, none), krnl)
      | some vma ↦ (do currg ← symrg krnl.mm rgid; read_at krnl pid currg offset)
    ]
  ]

unfoldable pub read : World → ℕ → ℕ → ℕ → ℕ → Exec ((Rc × Option ℕ) × World)
read w pid vmaid rgid offset = with_user_mm w (read_body pid vmaid rgid offset)

-- the body of `__write`, which tests neither that the region is allocated nor the offset
unfoldable pub write_body : ℕ → ℕ → ℕ → ℕ → ℕ → Krnl → Exec (Rc × Krnl)
write_body pid vmaid rgid offset value krnl = do
  cur_vma ← get_vma_by_num krnl.mm vmaid
  elim (get_symrg_byid rgid) [
    | none ↦ ok (failure, krnl)
    | some rgid ↦ elim cur_vma [
      | none ↦ ok (failure, krnl)
      | some vma ↦ (do
        currg ← symrg krnl.mm rgid
        (rc, krnl') ← pg_setval krnl pid (add64 currg.rg_start offset) value
        ok (success, krnl'))
    ]
  ]

unfoldable pub write : World → ℕ → ℕ → ℕ → ℕ → ℕ → Exec (Rc × World)
write w pid vmaid rgid offset value = with_user_mm w (write_body pid vmaid rgid offset value)

-- The four calls of a process, on its area 0. `liballoc` returns what `__alloc` does, 0.
unfoldable pub liballoc : World → ℕ → ℕ → ℕ → Exec (Rc × World)
liballoc w pid size reg_index = do (addr, w') ← alloc w pid 0 reg_index size; ok (success, w')

unfoldable pub libfree : World → ℕ → Exec (Rc × World)
libfree w reg_index = free w reg_index

-- `*destination` is an uninitialised byte, `none`, when `__read` writes no `data`.
unfoldable pub libread : World → ℕ → ℕ → ℕ → Exec ((Rc × Option ℕ) × World)
libread w pid source offset = read w pid 0 source offset

unfoldable pub libwrite : World → ℕ → ℕ → ℕ → ℕ → Exec (Rc × World)
libwrite w pid data_written destination offset = write w pid 0 destination offset data_written
