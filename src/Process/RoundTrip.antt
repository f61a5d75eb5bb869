-- ===== src/Process/RoundTrip.antt =====
-- src/libmem.c: __read and __write of a process on a variable whose page is in RAM.
use os.Prelude.{
  ℕ, ◌+◌, ◌*◌, ◌%◌, ◌^◌, ◌<◌, ◌≡◌, ◌≢◌, refl, ap, ◌∙◌, sym, false, some, none, arith, ok, fault,
  success, List, ◌∷◌, ◌==◌, leb, if◌then◌else◌, get_elem?,
}
use os.Prelude.Words.{u32_mod, add64, sext8}
use os.Pte.{page_present, paging_fpn, paging_pgn, paging_offst}
use mathlib.Core.Path.{subst}
use os.Memphy.{Memphy}
use os.Memphy.Access.{poke}
use os.Mm.{Region, Vma, Mm, Krnl}
use os.Vm.Overlap.{get_vma_first}
use os.Libmem.{get_symrg_byid, symrg}
use os.Libmem.Paging.{
  entry-walked, looked, location, IsResident, pg_getval_resident, pg_setval_resident,
}
use os.Process

-- the kernel while the process's `mm` is the current one
abbrev pub inside_call : Process.World → Krnl
inside_call w = record w.krnl { mm = w.user }

-- A byte of a variable of the process: the process has an area, the variable's region is allocated
-- and has the offset, and the page of the byte is in RAM.
pub record IsByte (w : Process.World) (rgid : ℕ) (rg : Region) (offset : ℕ) : Type 0 where
  pub vma : Vma
  pub others : List Vma
  pub areas : w.user.mmap ≡ vma ∷ others
  pub symbol : rgid < 30
  pub region : get_elem? w.user.symrgtbl rgid ≡ some rg
  pub allocated : Process.unallocated rg ≡ false
  pub within : add64 rg.rg_start offset < rg.rg_end
  pub resident : IsResident (inside_call w) (add64 rg.rg_start offset)

-- where the byte is in RAM
abbrev pub byte_location : Process.World → Region → ℕ → ℕ
byte_location w rg offset = location (inside_call w) (add64 rg.rg_start offset)

pub symrg_lem :
    (mm : Mm) (rgid : ℕ) (rg : Region)
    → get_elem? mm.symrgtbl rgid ≡ some rg
    → symrg mm rgid ≡ ok rg
unfolding symrg
symrg_lem mm rgid rg e = ap (λ o. elim o [ none ↦ fault | some rg ↦ ok rg ]) e

-- the process and the kernel after a call that ends with the kernel `krnl`
abbrev pub after_call : Process.World → Krnl → Process.World
after_call w krnl = record { user = krnl.mm; krnl = record krnl { mm = w.krnl.mm } }

pub symbol_lem : (rgid : ℕ) → rgid < 30 → get_symrg_byid rgid ≡ some rgid
unfolding get_symrg_byid
symbol_lem rgid h = ground arith

-- A write to any entry of the symbol table goes to the byte at its offset, if that page is in RAM.
pub write_at :
    (w : Process.World) (pid rgid : ℕ) (rg : Region) (offset value : ℕ) (vma : Vma)
    (others : List Vma)
    → w.user.mmap ≡ vma ∷ others
    → rgid < 30
    → get_elem? w.user.symrgtbl rgid ≡ some rg
    → IsResident (inside_call w) (add64 rg.rg_start offset)
    → Process.write w pid 0 rgid offset value
      ≡ ok (
        success,
        after_call w (record (looked (inside_call w) (add64 rg.rg_start offset)) {
          mram = poke w.krnl.mram (byte_location w rg offset) (sext8 value);
        }),
      )
unfolding Process.write Process.write_body
write_at w pid rgid rg offset value vma others areas symbol region resident =
    rw
      (
        get_vma_first w.user vma others areas,
        symbol_lem rgid symbol,
        symrg_lem w.user rgid rg region,
        pg_setval_resident (inside_call w) pid (add64 rg.rg_start offset) value resident,
      )
      refl

module _ (w : Process.World) (pid rgid : ℕ) (rg : Region) (offset : ℕ)
    (v : IsByte w rgid rg offset) where
  in_bounds : leb rg.rg_end (add64 rg.rg_start offset) ≡ false
  in_bounds = below _ _ v.within
    where
      below : (a e : ℕ) → a < e → leb e a ≡ false
      below a e h = ground arith

  -- A byte of a variable is read from its place in RAM, and the call only walks the page table.
  pub read_lem :
      Process.read w pid 0 rgid offset
      ≡ ok (
        (success, some (w.krnl.mram.cells (byte_location w rg offset) % 256)),
        after_call w (looked (inside_call w) (add64 rg.rg_start offset)),
      )
  unfolding Process.read Process.read_body Process.read_at
  read_lem =
      rw
        (
          get_vma_first w.user v.vma v.others v.areas,
          symbol_lem rgid v.symbol,
          symrg_lem w.user rgid rg v.region,
          v.allocated,
          in_bounds,
          pg_getval_resident (inside_call w) pid (add64 rg.rg_start offset) v.resident,
        )
        refl

-- the process and the kernel after a walk for the address `addr`, with the RAM `mram`
abbrev pub written : Process.World → ℕ → Memphy → Process.World
written w addr mram = after_call w (record (looked (inside_call w) addr) { mram = mram })

-- A walk does not move bytes.
location-written :
    (w : Process.World) (addr : ℕ) (mram : Memphy) (a : ℕ)
    → location (inside_call (written w addr mram)) a ≡ location (inside_call w) a
location-written w addr mram a =
    ap (λ e. paging_fpn (e % u32_mod) * 2 ^ 8 + paging_offst a)
      (entry-walked w.user.pgd (paging_pgn addr) (paging_pgn a))

IsByte-written :
    (w : Process.World) (addr l value rgid : ℕ) (rg : Region) (offset : ℕ)
    → IsByte w rgid rg offset
    → IsByte (written w addr (poke w.krnl.mram l value)) rgid rg offset
IsByte-written w addr l value rgid rg offset v = record {
  vma = v.vma;
  others = v.others;
  areas = v.areas;
  symbol = v.symbol;
  region = v.region;
  allocated = v.allocated;
  within = v.within;
  resident = record {
    present =
        ap (λ e. page_present (e % u32_mod) == 0)
          (entry-walked w.user.pgd (paging_pgn addr) (paging_pgn (add64 rg.rg_start offset)))
        ∙ v.resident.present;
    random = v.resident.random;
    inside =
        subst (λ l. l < w.krnl.mram.size)
          (sym (location-written w addr (poke w.krnl.mram l value) (add64 rg.rg_start offset)))
          v.resident.inside;
  };
}

-- A byte of a variable reads, after a byte was written at the place `l`, as what is there then.
pub read-written :
    (w : Process.World) (pid addr l value rgid : ℕ) (rg : Region) (offset : ℕ)
    → IsByte w rgid rg offset
    → (r : Process.World) × (Process.read
          (written w addr (poke w.krnl.mram l value))
          pid
          0
          rgid
          offset
        ≡ ok (
          (success, some ((poke w.krnl.mram l value).cells (byte_location w rg offset) % 256)),
          r,
        ))
read-written w pid addr l value rgid rg offset v =
    let w' = written w addr (poke w.krnl.mram l value) in
    (
      after_call w' (looked (inside_call w') (add64 rg.rg_start offset)),
      read_lem w' pid rgid rg offset (IsByte-written w addr l value rgid rg offset v)
          ∙ ap
              (λ place. ok (
                (success, some ((poke w.krnl.mram l value).cells place % 256)),
                after_call w' (looked (inside_call w') (add64 rg.rg_start offset)),
              ))
              (location-written w addr (poke w.krnl.mram l value) (add64 rg.rg_start offset)),
    )

-- Two bytes of allocated variables of a process are inside their regions, and the pages of both are
-- in RAM, at two places. When one of them is written, the write succeeds, the byte is read back, cut
-- to 8 bits, and the other byte reads as it did before the write.
pub read-write_variable :
    (w : Process.World) (pid rgid : ℕ) (rg : Region) (offset value rgid₂ : ℕ) (rg₂ : Region)
    (offset₂ : ℕ)
    → IsByte w rgid rg offset
    → IsByte w rgid₂ rg₂ offset₂
    → byte_location w rg offset ≢ byte_location w rg₂ offset₂
    → (w' r r₂ r₃ : Process.World) × (Process.write w pid 0 rgid offset value ≡ ok (success, w'))
      × (Process.read w' pid 0 rgid offset ≡ ok ((success, some (value % 256)), r))
      × (byte : ℕ) × (Process.read w pid 0 rgid₂ offset₂ ≡ ok ((success, some byte), r₂))
      × (Process.read w' pid 0 rgid₂ offset₂ ≡ ok ((success, some byte), r₃))
read-write_variable w pid rgid rg offset value rgid₂ rg₂ offset₂ v v₂ apart =
    let place = byte_location w rg offset in
    let addr = add64 rg.rg_start offset in
    let (r, e) = read-written w pid addr place (sext8 value) rgid rg offset v in
    let (r₃, e₃) = read-written w pid addr place (sext8 value) rgid₂ rg₂ offset₂ v₂ in
    (
      written w addr (poke w.krnl.mram place (sext8 value)),
      r,
      after_call w (looked (inside_call w) (add64 rg₂.rg_start offset₂)),
      r₃,
      write_at w pid rgid rg offset value v.vma v.others v.areas v.symbol v.region v.resident,
      e ∙ ap (λ b. ok ((success, some b), r)) (own place (w.krnl.mram.cells place) value),
      w.krnl.mram.cells (byte_location w rg₂ offset₂) % 256,
      read_lem w pid rgid₂ rg₂ offset₂ v₂,
      e₃
          ∙ ap (λ b. ok ((success, some b), r₃))
              (other place (byte_location w rg₂ offset₂)
                (w.krnl.mram.cells (byte_location w rg₂ offset₂)) (sext8 value) apart),
    )
  where
    own : (p old n : ℕ) → (if p == p then sext8 n % 256 else old) % 256 ≡ n % 256
    own p old n = ground arith

    other : (p q old n : ℕ) → p ≢ q → (if p == q then n % 256 else old) % 256 ≡ old % 256
    other p q old n d = ground arith
