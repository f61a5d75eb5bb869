-- ===== src/Copies/Byte.antt =====
-- src/libmem.c: one byte of a copy between a process and the kernel, with both pages in RAM.
use os.Prelude.{
  ℕ, ◌+◌, ◌%◌, ◌<◌, ◌≡◌, refl, ap, ◌∙◌, false, some, arith, ok, ◌>>=◌, success, Option, none, Exec,
  Rc, failure, leb, get_elem?,
}
use os.Prelude.Words.{u32_mod, add64, sext8}
use os.Memphy.Access.{poke}
use os.Mm.{Region, Krnl}
use os.Libmem.Paging.{looked, location, IsResident, pg_getval_resident, pg_setval_resident}
use os.Process.{World, unallocated}
use os.Process.RoundTrip.{inside_call, after_call, symrg_lem, symbol_lem}
use os.Copies.{
  valid_addr, read_kernel_mem, write_kernel_mem, read_user_mem, write_user_mem, copy_byte_in,
  copy_byte_out, with_kernel_mm,
}

-- A byte of a region of the current `mm`: the region is allocated and has the offset, and the page of
-- the byte is in RAM.
pub record IsRegionByte (krnl : Krnl) (rgid : ℕ) (rg : Region) (offset : ℕ) : Type 0 where
  pub symbol : rgid < 30
  pub region : get_elem? krnl.mm.symrgtbl rgid ≡ some rg
  pub allocated : unallocated rg ≡ false
  pub within : add64 rg.rg_start offset < rg.rg_end
  pub resident : IsResident krnl (add64 rg.rg_start offset)

not_beyond : (a e : ℕ) → a < e → leb e a ≡ false
not_beyond a e h = ground arith

-- where the byte is in RAM
abbrev pub place : Krnl → Region → ℕ → ℕ
place krnl rg offset = location krnl (add64 rg.rg_start offset)

module _ (krnl : Krnl) (pid rgid : ℕ) (rg : Region) (offset : ℕ)
    (v : IsRegionByte krnl rgid rg offset) where
  valid_addr_inside : valid_addr krnl.mm rgid offset ≡ ok (some (add64 rg.rg_start offset))
  unfolding valid_addr
  valid_addr_inside =
      rw
        (
          symbol_lem rgid v.symbol,
          valid_addr,
          symrg_lem krnl.mm rgid rg v.region,
          v.allocated,
          not_beyond _ _ v.within,
        )
        refl

  read_kernel_mem_lem :
      read_kernel_mem pid rgid offset krnl
      ≡ ok (
        some (krnl.mram.cells (place krnl rg offset) % 256),
        looked krnl (add64 rg.rg_start offset),
      )
  unfolding read_kernel_mem
  read_kernel_mem_lem =
      rw (valid_addr_inside, pg_getval_resident krnl pid (add64 rg.rg_start offset) v.resident) refl

  write_kernel_mem_lem :
      (value : ℕ)
      → write_kernel_mem pid rgid offset value krnl
        ≡ ok (
          success,
          record (looked krnl (add64 rg.rg_start offset)) {
            mram = poke krnl.mram (place krnl rg offset) (sext8 value);
          },
        )
  unfolding write_kernel_mem
  write_kernel_mem_lem value =
      rw
        (valid_addr_inside, pg_setval_resident krnl pid (add64 rg.rg_start offset) value v.resident)
        refl

-- the byte that `pg_setval` stores
abbrev pub stored : ℕ → ℕ
stored value = sext8 (value % 256)

-- the ends of with_user_mm and with_kernel_mm
abbrev leave_user : {A : Type 0} → World → Exec (A × Krnl) → Exec (A × World)
leave_user w r = do (a, krnl) ← r; ok (a, after_call w krnl)

abbrev leave_kernel : {A : Type 0} → World → Exec (A × Krnl) → Exec (A × World)
leave_kernel w r = do (a, krnl) ← r; ok (a, record w { krnl = krnl })

-- a walk for the byte of the process, a walk for the byte of the kernel and a byte of RAM stored
abbrev pub copied_in : World → Region → Region → ℕ → ℕ → World
copied_in w rg rg' at i = record (after_call w (looked (inside_call w) (add64 rg.rg_start at))) {
  krnl = record (looked w.krnl (add64 rg'.rg_start i)) {
    mram =
        poke w.krnl.mram (place w.krnl rg' i)
          (stored (w.krnl.mram.cells (place (inside_call w) rg at)));
  };
}

abbrev pub copied_out : World → Region → Region → ℕ → ℕ → World
copied_out w rg rg' at i =
    after_call (record w { krnl = looked w.krnl (add64 rg'.rg_start i) })
      (record (looked (inside_call w) (add64 rg.rg_start at)) {
        mram =
            poke w.krnl.mram (place (inside_call w) rg at)
              (stored (w.krnl.mram.cells (place w.krnl rg' i)));
      })

-- When the byte of the process and the byte of the kernel both exist and both pages are in RAM, one round
-- of libkmem_copy_from_user puts the first in the place of the second, and one round of
-- libkmem_copy_to_user the second in the place of the first; nothing else of RAM changes.
pub copy_bytes_lem :
    (w : World) (pid user kernel : ℕ) (rg rg' : Region) (offset i : ℕ)
    → IsRegionByte (inside_call w) user rg ((offset + i) % u32_mod)
    → IsRegionByte w.krnl kernel rg' i
    → (copy_byte_in w pid user kernel offset i
        ≡ ok (success, copied_in w rg rg' ((offset + i) % u32_mod) i))
      × (copy_byte_out w pid kernel user offset i
          ≡ ok (success, copied_out w rg rg' ((offset + i) % u32_mod) i))
unfolding copy_byte_in copy_byte_out read_user_mem write_user_mem
copy_bytes_lem w pid user kernel rg rg' offset i u k =
    let at = (offset + i) % u32_mod in
    let value = w.krnl.mram.cells (place (inside_call w) rg at) % 256 in
    let value' = w.krnl.mram.cells (place w.krnl rg' i) % 256 in
    let read : World = after_call w (looked (inside_call w) (add64 rg.rg_start at)) in
    let read' : World = record w { krnl = looked w.krnl (add64 rg'.rg_start i) } in
    (
      ap (λ r. leave_user w r >>= (λ x. copy_in x.0 x.1))
            (read_kernel_mem_lem (inside_call w) pid user rg at u)
          ∙ ap (leave_kernel read) (write_kernel_mem_lem w.krnl pid kernel rg' i k value),
      ap (λ r. leave_kernel w r >>= (λ x. copy_out x.0 x.1))
            (read_kernel_mem_lem w.krnl pid kernel rg' i k)
          ∙ ap (leave_user read') (write_kernel_mem_lem (inside_call w) pid user rg at u value'),
    )
  where
    copy_in : Option ℕ → World → Exec (Rc × World)
    copy_in o w' = elim o [
      | none ↦ ok (failure, w')
      | some v ↦ with_kernel_mm w' (write_kernel_mem pid kernel i v)
    ]

    copy_out : Option ℕ → World → Exec (Rc × World)
    copy_out o w' = elim o [
      | none ↦ ok (failure, w')
      | some v ↦ write_user_mem w' pid user ((offset + i) % u32_mod) v
    ]
