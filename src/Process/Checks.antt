-- ===== src/Process/Checks.antt =====
-- src/libmem.c: what __free, __read and __write test of a region, and what they do not.
use os.Prelude.{
  ℕ, ◌%◌, ◌<◌, ◌≤◌, ◌≡◌, refl, ap, ◌∙◌, sym, true, false, some, none, arith, ok, success, failure,
  List, ◌∷◌, ◌==◌, leb, if◌then◌else◌, get_elem?, set, length, get_elem?-set_self, Bool-cases, inl,
  inr, lt→ltb,
}
use mathlib.Core.Path.{subst}
use os.Libmem.Paging.{IsResident, location}
use os.Prelude.Words.{add64, sext8}
use os.Mm.{Region, Vma, Krnl}
use os.Memphy.Access.{poke}
use os.Vm.Overlap.{get_vma_first}
use os.Libmem.{set_symrg, enlist_vm_freerg_list}
use os.Process
use os.Process.RoundTrip.{
  IsByte, inside_call, byte_location, symrg_lem, symbol_lem, written, read-written, write_at,
}

read_at_outside :
    (krnl : Krnl) (pid : ℕ) (rg : Region) (offset : ℕ)
    → rg.rg_end ≤ add64 rg.rg_start offset
    → Process.read_at krnl pid rg offset ≡ ok ((failure, none), krnl)
unfolding Process.read_at
read_at_outside krnl pid rg offset outside = elim (Bool-cases (Process.unallocated rg)) [
  | inl e ↦ rw e
  | inr e ↦ rw (e, beyond _ _ outside)
]
  where
    beyond : (a e : ℕ) → e ≤ a → leb e a ≡ true
    beyond a e h = ground arith

-- A read past the end of its region returns -1 and changes nothing; a region that is not allocated
-- ends at 0, so each of its reads does.
pub read_outside :
    (w : Process.World) (pid rgid : ℕ) (rg : Region) (offset : ℕ) (vma : Vma) (others : List Vma)
    → w.user.mmap ≡ vma ∷ others
    → rgid < 30
    → get_elem? w.user.symrgtbl rgid ≡ some rg
    → rg.rg_end ≤ add64 rg.rg_start offset
    → Process.read w pid 0 rgid offset ≡ ok ((failure, none), w)
unfolding Process.read Process.read_body
read_outside w pid rgid rg offset vma others areas symbol region outside =
    rw
      (
        get_vma_first w.user vma others areas,
        symbol_lem rgid symbol,
        symrg_lem w.user rgid rg region,
        read_at_outside (inside_call w) pid rg offset outside,
      )
      refl

-- A write is not bounded by its region: past the region's end, where a read is refused, it succeeds
-- and overwrites the byte of another variable at that address.
pub write_overruns :
    (w : Process.World) (pid rgid : ℕ) (rg : Region) (offset value rgid₂ : ℕ) (rg₂ : Region)
    (offset₂ : ℕ)
    → rgid < 30
    → get_elem? w.user.symrgtbl rgid ≡ some rg
    → rg.rg_end ≤ add64 rg.rg_start offset
    → IsByte w rgid₂ rg₂ offset₂
    → add64 rg.rg_start offset ≡ add64 rg₂.rg_start offset₂
    → (w' r : Process.World) × (Process.read w pid 0 rgid offset ≡ ok ((failure, none), w))
      × (Process.write w pid 0 rgid offset value ≡ ok (success, w'))
      × (Process.read w' pid 0 rgid₂ offset₂ ≡ ok ((success, some (value % 256)), r))
write_overruns w pid rgid rg offset value rgid₂ rg₂ offset₂ symbol region outside v same =
    let place = byte_location w rg₂ offset₂ in
    let addr = add64 rg₂.rg_start offset₂ in
    let (r, e) = read-written w pid addr place (sext8 value) rgid₂ rg₂ offset₂ v in
    (
      written w addr (poke w.krnl.mram place (sext8 value)),
      r,
      read_outside w pid rgid rg offset v.vma v.others v.areas symbol region outside,
      write_at w pid rgid rg offset value v.vma v.others v.areas symbol region
            (subst (IsResident (inside_call w)) (sym same) v.resident)
          ∙ ap
              (λ a. ok (
                success,
                written w a (poke w.krnl.mram (location (inside_call w) a) (sext8 value)),
              ))
              same,
      e ∙ ap (λ b. ok ((success, some b), r)) (own place (w.krnl.mram.cells place) value),
    )
  where
    own : (p old n : ℕ) → (if p == p then sext8 n % 256 else old) % 256 ≡ n % 256
    own p old n = ground arith

pub free_at :
    (w : Process.World) (rgid : ℕ)
    → rgid < 30
    → Process.free w rgid ≡ Process.with_user_mm w (Process.free_body rgid)
unfolding Process.free
free_at w rgid symbol =
    ap
      (λ o. elim o as (λ _. Process.Exec (Process.Rc × Process.World)) [
        | none ↦ ok (failure, w)
        | some rgid ↦ Process.with_user_mm w (Process.free_body rgid)
      ])
      (symbol_lem rgid symbol)

pub free-unallocated :
    (w : Process.World) (rgid : ℕ) (rg : Region)
    → rgid < 30
    → get_elem? w.user.symrgtbl rgid ≡ some rg
    → Process.unallocated rg ≡ true
    → Process.free w rgid ≡ ok (failure, w)
unfolding Process.free_body
free-unallocated w rgid rg symbol region e =
    free_at w rgid symbol ∙ rw (symrg_lem w.user rgid rg region, e) refl

-- the process after it freed the variable, and the first area with a longer free list
abbrev pub freed : Process.World → ℕ → Region → Vma → List Vma → Process.World
freed w rgid rg vma others = record w {
  user = record (w.user) {
    symrgtbl = set w.user.symrgtbl rgid (record { rg_start = 0; rg_end = 0 });
    mmap = record vma { vm_freerg_list = rg ∷ vma.vm_freerg_list } ∷ others;
  };
}

-- A variable that is allocated is freed: its region goes to the front of the first area's free
-- list and its entry is cleared. To free it a second time returns -1 and changes nothing.
pub free_twice :
    (w : Process.World) (rgid : ℕ) (rg : Region) (vma : Vma) (others : List Vma)
    → w.user.mmap ≡ vma ∷ others
    → length w.user.symrgtbl ≡ 30
    → rgid < 30
    → get_elem? w.user.symrgtbl rgid ≡ some rg
    → rg.rg_start < rg.rg_end
    → (Process.free w rgid ≡ ok (success, freed w rgid rg vma others))
      × (Process.free (freed w rgid rg vma others) rgid ≡ ok (failure, freed w rgid rg vma others))
unfolding Process.free_body set_symrg enlist_vm_freerg_list
free_twice w rgid rg vma others areas table symbol region nonempty = (
  free_at w rgid symbol
      ∙ rw
          (
            symrg_lem w.user rgid rg region,
            allocated rg.rg_start rg.rg_end nonempty,
            table,
            lt→ltb _ _ symbol,
            areas,
            ordered rg.rg_start rg.rg_end nonempty,
          )
          refl,
  free-unallocated (freed w rgid rg vma others) rgid (record { rg_start = 0; rg_end = 0 }) symbol
      (get_elem?-set_self w.user.symrgtbl rgid _ (omega (arith, table)))
      (unfold Process.unallocated in refl),
)
  where
    allocated :
        (s e : ℕ) → s < e → Process.unallocated (record { rg_start = s; rg_end = e }) ≡ false
    allocated s e h = unfold Process.unallocated in ground arith

    ordered : (s e : ℕ) → s < e → leb e s ≡ false
    ordered s e h = ground arith
