-- ===== src/Syscall.antt =====
-- src/syscall.c, src/libstd.c and src/sys_mem.c: system calls. The table of src/syscall.tbl has
-- call 0, which only prints the table, and call 17.
-- src/sys_mem.c takes `addr_t` as 32 bits: it includes include/os-mm.h before anything defines MM64,
-- so the arguments that it passes on as addresses lose their upper halves.
pub mod Memmap
use os.Prelude.{
  ℕ, ◌+◌, ◌-◌, ◌%◌, ◌^◌, Bool, Option, none, some, List, [], ◌∷◌, ltb, ◌==◌, if◌then◌else◌, Exec,
  ok, fault, ◌>>=◌, Rc, true, false,
}
use os.Prelude.Words.{u32_mod, sext8}
use os.Queue.{Pcb, Queue}
use os.Memphy.{read, write}
use os.Mm.{Krnl}
use os.Mm64.{vmap_pgd_memset}
use os.Vm.{inc_vma_limit, mm_swap_page}

-- `struct sc_regs`, the registers that are used
pub record Regs : Type 0 where
  pub a1 : ℕ
  pub a2 : ℕ
  pub a3 : ℕ

-- `enum sys_mem_ops`, as the `int` that the first register becomes
pub data SysMemOp : Type 0 where
  map_op inc_op swp_op io_read io_write other : SysMemOp

unfoldable pub sys_mem_op : ℕ → SysMemOp
sys_mem_op memop =
    if memop == 1
    then map_op
    else if memop == 2
    then inc_op
    else if memop == 3
    then swp_op
    else if memop == 4
    then io_read
    else if memop == 5
    then io_write
    else other

-- whether a process with the pid is in the running list. The blocks of its processes are allocated: what
-- the code reads through a pointer to a block that os.c has freed is undefined, and not modelled.
unfoldable pub find_caller : Queue → ℕ → Bool
find_caller [] pid = false
find_caller (proc ∷ rest) pid =
    let next = find_caller rest pid in if proc.pid == pid then true else next

-- The byte read goes through the signed `BYTE value`; when nothing was read, `value` is used
-- uninitialised.
unfoldable pub sys_read : Krnl → Regs → Exec (Regs × Krnl)
sys_read krnl regs = do
  (value, mram) ← read krnl.mram (regs.a2 % u32_mod)
  elim value [
    | none ↦ fault
    | some v ↦ ok (record regs { a3 = sext8 v }, record krnl { mram = mram })
  ]

-- A caller that was not found is a stub, allocated with the layout that `struct pcb_t` has in this file,
-- where `addr_t` has 32 bits: MAP and SWP read its `krnl` outside the block.
unfoldable pub sys_memmap : Krnl → ℕ → Regs → Exec (Regs × Krnl)
sys_memmap krnl pid regs = elim (sys_mem_op (regs.a1 % u32_mod)) [
  | map_op ↦
      if find_caller krnl.running_list pid
      then ok (regs, vmap_pgd_memset krnl (regs.a2 % u32_mod) (regs.a3 % u32_mod))
      else fault
  | inc_op ↦
      if find_caller krnl.running_list pid
      then (do
        (rc, krnl') ← inc_vma_limit krnl (regs.a2 % u32_mod) (regs.a3 % u32_mod)
        ok (regs, krnl'))
      else ok (regs, krnl)
  | swp_op ↦
      if find_caller krnl.running_list pid
      then (do krnl' ← mm_swap_page krnl (regs.a2 % u32_mod) (regs.a3 % u32_mod); ok (regs, krnl'))
      else fault
  | io_read ↦ sys_read krnl regs
  | io_write ↦ (do
    (rc, mram) ← write krnl.mram (regs.a2 % u32_mod) regs.a3
    ok (regs, record krnl { mram = mram }))
  | other ↦ ok (regs, krnl)
]

-- `_syscall`: call 0 and the numbers without a call change nothing; every call returns 0
unfoldable pub syscall : Krnl → ℕ → ℕ → Regs → Exec (Regs × Krnl)
syscall krnl pid nr regs = if nr == 17 then sys_memmap krnl pid regs else ok (regs, krnl)

-- `libsyscall`: the registers after the call are dropped
unfoldable pub libsyscall : Krnl → ℕ → ℕ → ℕ → ℕ → ℕ → Exec Krnl
libsyscall krnl pid syscall_idx a1 a2 a3 = do
  (regs, krnl') ← syscall krnl pid syscall_idx (record { a1 = a1; a2 = a2; a3 = a3 })
  ok krnl'
