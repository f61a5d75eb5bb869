-- ===== src/Memphy.antt =====
-- src/mm-memphy.c: a physical memory device, RAM or swap, with its list of free frames.
-- The devices are objects on the stack of `main`, so the tests `mp == NULL` have no counterpart.
-- `malloc` succeeds. Where the code leaves a pointer uninitialised, the list that the pointer
-- happens to lead to is an argument, `stray`.
pub mod Frames
pub mod Times
pub mod Access
pub mod Cursor
use os.Prelude.{
  ℕ, zero, suc, ◌+◌, ◌-◌, ◌/◌, ◌%◌, ◌^◌, Bool, true, false, ◌&&◌, Option, none, some, List, [], ◌∷◌,
  ltb, ◌==◌, if◌then◌else◌, Exec, ok, fault, ◌>>=◌, Rc, success, failure,
}
use os.Prelude.Words.{u32_mod}
use os.Pte.{paging_pagesz}

-- `struct memphy_struct`: `cells` is the storage and `size` the bytes allocated for it; `maxsz` is
-- the bit pattern of an `int`. `used_fp_list` is never used.
pub record Memphy : Type 0 where
  pub cells : ℕ → ℕ
  pub size : ℕ
  pub maxsz : ℕ
  pub rdmflg : Bool
  pub cursor : ℕ
  pub free_fp_list : List ℕ

-- an `int`, with 0 for the negative values
abbrev pub nonneg : ℕ → ℕ
nonneg x = if ltb x (2 ^ 31) then x else 0

-- the loop of `MEMPHY_mv_csr`; a round is made for each `numstep` below `maxsz` at most
unfoldable pub mv_csr_loop : ℕ → ℕ → ℕ → Memphy → Memphy
mv_csr_loop zero numstep offset mp = mp
mv_csr_loop (suc n) numstep offset mp = elim (ltb numstep offset && ltb numstep (nonneg mp.maxsz)) [
  | true ↦
      mv_csr_loop n (numstep + 1) offset (record mp { cursor = (mp.cursor + 1) % nonneg mp.maxsz })
  | false ↦ mp
]

unfoldable pub mv_csr : Memphy → ℕ → Memphy
mv_csr mp offset = mv_csr_loop (nonneg mp.maxsz) 0 offset (record mp { cursor = 0 })

-- `mp->storage[addr]` and `mp->storage[addr] = value`
unfoldable pub load : Memphy → ℕ → Exec ℕ
load mp addr = if ltb addr mp.size then ok (mp.cells addr) else fault

unfoldable pub store : Memphy → ℕ → ℕ → Exec Memphy
store mp addr value =
    if ltb addr mp.size
    then ok (record mp { cells = λ a. if addr == a then value % 256 else mp.cells a })
    else fault

-- The result of a read is `none` for -1, else the byte that is written through `value`.
unfoldable pub seq_read : Memphy → ℕ → Exec (Option ℕ × Memphy)
seq_read mp addr =
    if mp.rdmflg
    then (do v ← load (mv_csr mp addr) addr; ok (some v, mv_csr mp addr))
    else ok (none, mp)

unfoldable pub read : Memphy → ℕ → Exec (Option ℕ × Memphy)
read mp addr = if mp.rdmflg then (do v ← load mp addr; ok (some v, mp)) else seq_read mp addr

unfoldable pub seq_write : Memphy → ℕ → ℕ → Exec (Rc × Memphy)
seq_write mp addr value =
    if mp.rdmflg
    then (do mp' ← store (mv_csr mp addr) addr value; ok (success, mp'))
    else ok (failure, mp)

unfoldable pub write : Memphy → ℕ → ℕ → Exec (Rc × Memphy)
write mp addr value =
    if mp.rdmflg then (do mp' ← store mp addr value; ok (success, mp')) else seq_write mp addr value

-- the nodes for the frames `iter`, `iter + 1`, …, `n` of them
unfoldable pub frames : ℕ → ℕ → List ℕ
frames zero iter = []
frames (suc n) iter = iter ∷ frames n (iter + 1)

-- The `fp_next` of the first node is set only when a second one is linked behind it.
unfoldable pub format : List ℕ → Memphy → ℕ → Rc × Memphy
format stray mp pagesz =
    let numfp = nonneg mp.maxsz / pagesz in
    if numfp == 0 then (failure, mp) else (
      success,
      record mp { free_fp_list = 0 ∷ (if numfp == 1 then stray else frames (numfp - 1) 1) },
    )

-- The frame is `none` for -1.
unfoldable pub get_freefp : Memphy → Option ℕ × Memphy
get_freefp mp = elim mp.free_fp_list [
  | [] ↦ (none, mp)
  | fpn ∷ rest ↦ (some fpn, record mp { free_fp_list = rest })
]

unfoldable pub put_freefp : Memphy → ℕ → Memphy
put_freefp mp fpn = record mp { free_fp_list = fpn ∷ mp.free_fp_list }

-- The argument `mp` is what the structure holds before it is initialised.
unfoldable pub init_memphy : List ℕ → Memphy → ℕ → Bool → Memphy
init_memphy stray mp max_size randomflg =
    let made = record mp { cells = λ _. 0; size = max_size; maxsz = max_size % u32_mod } in
    let formatted = (format stray made paging_pagesz).1 in
    record formatted { rdmflg = randomflg; cursor = if randomflg then formatted.cursor else 0 }
