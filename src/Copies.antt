-- ===== src/Copies.antt =====
-- src/libmem.c: bytes of the kernel and of a process read and written by region, and the copies
-- between the two.
pub mod Byte
pub mod Kept
pub mod Moving
pub mod Whole
use os.Prelude.{
  ℕ, zero, suc, ◌+◌, ◌%◌, Option, none, some, leb, if◌then◌else◌, Exec, ok, ◌>>=◌, Rc, success,
  failure, one,
}
use os.Prelude.Words.{u32_mod, add64}
use os.Mm.{Mm, Krnl}
use os.Libmem.{get_symrg_byid, symrg, pg_getval, pg_setval}
use os.Process.{World, with_user_mm, unallocated}

-- The tests that the four functions make: the address, or `none` for -1.
unfoldable pub valid_addr : Mm → ℕ → ℕ → Exec (Option ℕ)
valid_addr mm rgid offset = elim (get_symrg_byid rgid) [
  | none ↦ ok none
  | some rgid ↦ (do
    currg ← symrg mm rgid
    let addr = add64 currg.rg_start offset
    if unallocated currg
        then ok none
        else if leb currg.rg_end addr
        then ok none
        else ok (some addr))
]

-- `__read_kernel_mem`: the byte, `none` for -1
unfoldable pub read_kernel_mem : ℕ → ℕ → ℕ → Krnl → Exec (Option ℕ × Krnl)
read_kernel_mem pid rgid offset krnl = do
  addr ← valid_addr krnl.mm rgid offset
  elim addr [ none ↦ ok (none, krnl) | some addr ↦ pg_getval krnl pid addr ]

unfoldable pub write_kernel_mem : ℕ → ℕ → ℕ → ℕ → Krnl → Exec (Rc × Krnl)
write_kernel_mem pid rgid offset value krnl = do
  addr ← valid_addr krnl.mm rgid offset
  elim addr [ none ↦ ok (failure, krnl) | some addr ↦ pg_setval krnl pid addr value ]

-- `__read_user_mem` and `__write_user_mem`: the same on the `mm` of the process
unfoldable pub read_user_mem : World → ℕ → ℕ → ℕ → Exec (Option ℕ × World)
read_user_mem w pid rgid offset = with_user_mm w (read_kernel_mem pid rgid offset)

unfoldable pub write_user_mem : World → ℕ → ℕ → ℕ → ℕ → Exec (Rc × World)
write_user_mem w pid rgid offset value = with_user_mm w (write_kernel_mem pid rgid offset value)

-- a call on the kernel's own `mm`
abbrev pub with_kernel_mm {ℓ} : {A : Type ℓ} → World → (Krnl → Exec (A × Krnl)) → Exec (A × World)
with_kernel_mm w body = do (a, krnl') ← body w.krnl; ok (a, record w { krnl = krnl' })

-- one byte of `libkmem_copy_from_user` and of `libkmem_copy_to_user`, at the index `i`
unfoldable pub copy_byte_in : World → ℕ → ℕ → ℕ → ℕ → ℕ → Exec (Rc × World)
copy_byte_in w pid source destination offset i = do
  (data_read, w') ← read_user_mem w pid source ((offset + i) % u32_mod)
  elim data_read [
    | none ↦ ok (failure, w')
    | some v ↦ with_kernel_mm w' (write_kernel_mem pid destination i v)
  ]

unfoldable pub copy_byte_out : World → ℕ → ℕ → ℕ → ℕ → ℕ → Exec (Rc × World)
copy_byte_out w pid source destination offset i = do
  (data_read, w') ← with_kernel_mm w (read_kernel_mem pid source i)
  elim data_read [
    | none ↦ ok (failure, w')
    | some v ↦ write_user_mem w' pid destination ((offset + i) % u32_mod) v
  ]

-- the loop of the two copies, `n` bytes from the index `i` on, up to the first that fails
unfoldable pub copy_loop : (World → ℕ → Exec (Rc × World)) → ℕ → ℕ → World → Exec (Rc × World)
copy_loop copy_byte zero i w = ok (success, w)
copy_loop copy_byte (suc n) i w = do
  (rc, w') ← copy_byte w i
  elim rc [ success ↦ copy_loop copy_byte n (i + 1) w' | _ ↦ ok (failure, w') ]

unfoldable pub libkmem_copy_from_user : World → ℕ → ℕ → ℕ → ℕ → ℕ → Exec (Rc × World)
libkmem_copy_from_user w pid source destination offset size =
    copy_loop (λ w i. copy_byte_in w pid source destination offset i) size 0 w

-- The result of a copy that succeeds is 1.
unfoldable pub libkmem_copy_to_user : World → ℕ → ℕ → ℕ → ℕ → ℕ → Exec (Rc × World)
libkmem_copy_to_user w pid source destination offset size = do
  (rc, w') ← copy_loop (λ w i. copy_byte_out w pid source destination offset i) size 0 w
  elim rc [ success ↦ ok (one, w') | _ ↦ ok (failure, w') ]
