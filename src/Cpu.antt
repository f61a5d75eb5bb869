-- ===== src/Cpu.antt =====
-- src/cpu.c: the processor runs one instruction of a process. Compiled with MM_PAGING, so `alloc`,
-- `free_data`, `read` and `write` of the same file, which use the older allocator, are not called.
pub mod Steps
use os.Prelude.{
  ℕ, ◌+◌, ◌%◌, Option, none, some, List, [], ◌∷◌, Exec, ok, fault, ◌>>=◌, Rc, success, failure, one,
  get_elem?,
}
use os.Prelude.Words.{u32_mod}
use os.Mm.{Krnl}
use os.Syscall.{libsyscall}
use os.Process.{World, liballoc, libfree, libread, libwrite}
use os.Kmem.{libkmem_malloc, cache_pool_create, libkmem_cache_alloc}
use os.Copies.{with_kernel_mm, libkmem_copy_from_user, libkmem_copy_to_user}

-- `enum ins_opcode_t`; a number that is no opcode is `unknown`
pub data Opcode : Type 0 where
  calc alloc free read write syscall kmalloc kmem_cache_create kmem_cache_alloc copy_from_user
        copy_to_user unknown :
      Opcode

-- `struct inst_t`
pub record Inst : Type 0 where
  pub opcode : Opcode
  pub arg_0 : ℕ
  pub arg_1 : ℕ
  pub arg_2 : ℕ
  pub arg_3 : ℕ

-- what `run` reads of a process: `text` is `code->text`
pub record Task : Type 0 where
  pub pid : ℕ
  pub pc : ℕ
  pub text : List Inst

abbrev uint32 : ℕ → ℕ
uint32 x = x % u32_mod

-- `libread` writes the byte to the copy of the instruction that `run` has, where it is lost.
unfoldable pub status_of : (Rc × Option ℕ) × World → Rc × World
status_of ((rc, destination), w) = (rc, w)

unfoldable pub run_read : World → ℕ → Inst → Exec (Rc × World)
run_read w pid ins = do result ← libread w pid (uint32 ins.arg_0) ins.arg_1; ok (status_of result)

unfoldable pub run_syscall : World → ℕ → Inst → Exec (Rc × World)
run_syscall w pid ins = do
  krnl ← libsyscall w.krnl pid (uint32 ins.arg_0) ins.arg_1 ins.arg_2 ins.arg_3
  ok (success, record w { krnl = krnl })

-- the cases of `run`: the result is the `stat` of the instruction
unfoldable pub execute : World → ℕ → Inst → Exec (Rc × World)
execute w pid ins = elim ins.opcode [
  | calc ↦ ok (success, w)
  | alloc ↦ liballoc w pid ins.arg_0 (uint32 ins.arg_1)
  | kmalloc ↦ with_kernel_mm w (λ k. libkmem_malloc k pid (uint32 ins.arg_0) (uint32 ins.arg_1))
  | kmem_cache_create ↦
      with_kernel_mm w
        (λ k. cache_pool_create k pid (uint32 ins.arg_0) (uint32 ins.arg_1) (uint32 ins.arg_2))
  | kmem_cache_alloc ↦
      with_kernel_mm w (λ k. libkmem_cache_alloc k (uint32 ins.arg_0) (uint32 ins.arg_1))
  | copy_from_user ↦
      libkmem_copy_from_user w pid (uint32 ins.arg_0) (uint32 ins.arg_1) (uint32 ins.arg_2)
        (uint32 ins.arg_3)
  | copy_to_user ↦
      libkmem_copy_to_user w pid (uint32 ins.arg_0) (uint32 ins.arg_1) (uint32 ins.arg_2)
        (uint32 ins.arg_3)
  | free ↦ libfree w (uint32 ins.arg_0)
  | read ↦ run_read w pid ins
  | write ↦ libwrite w pid (ins.arg_0 % 256) (uint32 ins.arg_1) ins.arg_2
  | syscall ↦ run_syscall w pid ins
  | unknown ↦ ok (one, w)
]

-- `run`: past the last instruction the result is 1
unfoldable pub run : Task → World → Exec (Rc × Task × World)
run proc w = elim (get_elem? proc.text proc.pc) [
  | none ↦ ok (one, proc, w)
  | some ins ↦ (do
    (stat, w') ← execute w proc.pid ins
    ok (stat, record proc { pc = proc.pc + 1 }, w'))
]
