-- ===== src/Process/Heap/Keep.antt =====
-- src/libmem.c: __alloc leaves a heap behind.
use mathlib.Core.Path.{subst}
use os.Prelude.{
  ℕ, zero, suc, ◌+◌, ◌-◌, ◌^◌, ◌≤◌, ◌<◌, ◌≡◌, ◌⊎◌, inl, inr, refl, ap, sym, ◌∙◌, true, false, some,
  List, [], ◌∷◌, arith, ok, ltb, ◌==◌, Bool-cases, length, set, get_elem?, All, some_inj,
  length-set, get_elem?-cases, get_elem?-set_self,
}
use os.Prelude.Words.{u32_mod, u64_mod}
use os.Mm.{Region, Vma}
use os.Vm.Grow.{grown}
use os.Syscall.{find_caller}
use os.Libmem.{fit_loop}
use os.Libmem.Cover.{cover, covers, cover_before, cover_beyond, covers-set}
use os.Libmem.FreeList.{IsRegion, IsFit, fit_loop_lem}
use os.Process
use os.Process.Heap.{Heap}
use os.Process.Heap.Grant.{Grant, none_taken, SameBytes}
use os.Process.Heap.Alloc.{on_heap, from_free, alloc-from_free, AtBreak, alloc-AtBreak}

pub entry_of :
    (rgs : List Region) (i n : ℕ)
    → length rgs ≡ n
    → i < n
    → (rg : Region) × (get_elem? rgs i ≡ some rg)
entry_of rgs i n e h = elim (get_elem?-cases rgs i) [
  | inl (beyond, none_there) ↦ absurd (omega (arith, beyond, e, h))
  | inr (rg, there, q) ↦ (rg, q)
]

pub All-set :
    (P : Region → Type 0) (rgs : List Region) (i : ℕ) (rg : Region)
    → P rg
    → All P rgs
    → All P (set rgs i rg)
All-set P [] i rg h v = v
All-set P (x ∷ rgs) zero rg h v = (h, v.1)
All-set P (x ∷ rgs) (suc i) rg h v = (v.0, All-set P rgs i rg h v.1)

pub All-get :
    (P : Region → Type 0) (rgs : List Region) (i : ℕ) (rg : Region)
    → All P rgs
    → get_elem? rgs i ≡ some rg
    → P rg
All-get P [] i rg v e = cc
All-get P (x ∷ rgs) zero rg v e = subst P (some_inj e) v.0
All-get P (x ∷ rgs) (suc i) rg v e = All-get P rgs i rg v.1 e

pub cover_le : (a : ℕ) (rg : Region) → cover a rg ≤ 1
cover_le a rg = ground arith

-- A variable gets a region: it counts where the region does, and no longer where its own did.
covers-set_le :
    (a : ℕ) (table : List Region) (i : ℕ) (rg : Region)
    → length table ≡ 30
    → i < 30
    → covers a (set table i rg) ≤ covers a table + cover a rg
covers-set_le a table i rg e h =
    let (old, at) = entry_of table i 30 e h in omega (arith, covers-set a table i old rg at)

Heap-from_free :
    (w : Process.World) (vma : Vma) (rgid size : ℕ) (rg : Region) (left : List Region)
    → Heap (on_heap w vma).user vma
    → rgid < 30
    → IsFit vma.vm_freerg_list size rg left
    → Heap (from_free w vma rgid rg left).user (record vma { vm_freerg_list = left })
Heap-from_free w vma rgid size rg left v h f =
    let less = λ (a : ℕ). covers-set_le a w.user.symrgtbl rgid rg v.table h in
    record {
      area = record {
        single = refl;
        full = v.area.full;
        ordered = v.area.ordered;
        aligned = v.area.aligned;
      };
      table = length-set w.user.symrgtbl rgid rg ∙ v.table;
      variables = All-set IsRegion w.user.symrgtbl rgid rg f.found v.variables;
      free = f.regions;
      once = λ a. omega (arith, less a, f.same a, v.once a);
      unused = λ a l. omega (arith, less a, f.same a, v.unused a l);
    }

below_or_not : (a s : ℕ) → (a < s) ⊎ (s ≤ a)
below_or_not a s = elim (Bool-cases (ltb a s)) [
  | inl e ↦ inl (ground arith)
  | inr e ↦ inr (ground arith)
]

Heap-AtBreak :
    (w w' : Process.World) (rgid size : ℕ) (vma : Vma)
    → Heap (on_heap w vma).user vma
    → rgid < 30
    → vma.sbrk + size + 4096 ≤ 2 ^ 31
    → AtBreak w rgid size vma w'
    → Heap w'.user (grown vma size)
Heap-AtBreak w w' rgid size vma v h b g =
    let rg : Region = record { rg_start = vma.sbrk; rg_end = vma.sbrk + size } in
    let less = λ (a : ℕ). covers-set_le a w.user.symrgtbl rgid rg v.table h in
    record {
      area = record {
        single = g.areas;
        full = refl;
        ordered = omega (arith, v.area.ordered);
        aligned = omega (arith, v.area.aligned);
      };
      table = rw g.symbols (length-set w.user.symrgtbl rgid rg ∙ v.table);
      variables =
          rw g.symbols
            (All-set IsRegion w.user.symrgtbl rgid rg (omega arith, omega (arith, b)) v.variables);
      free = v.free;
      once = λ a. rw g.symbols (elim (below_or_not a vma.sbrk) [
        | inl l ↦ omega (arith, less a, v.once a, cover_before a vma.sbrk (vma.sbrk + size) l)
        | inr l ↦ omega (arith, less a, v.unused a l, cover_le a rg)
      ]);
      unused = λ a l. rw g.symbols (
          omega (
            arith,
            less a,
            v.unused a (omega (arith, l)),
            cover_beyond a vma.sbrk (vma.sbrk + size) (omega (arith, l)),
          ));
    }

as_on_heap : (w : Process.World) (vma : Vma) → w.user.mmap ≡ vma ∷ [] → w ≡ on_heap w vma
as_on_heap w vma e = ap (λ areas. record w { user = record (w.user) { mmap = areas } }) e

-- `__alloc` gives the variable a region of the size, and leaves a heap.
pub alloc-Heap :
    (w : Process.World) (pid rgid size : ℕ) (vma : Vma)
    → Heap w.user vma
    → rgid < 30
    → 0 < size
    → vma.sbrk + size + 4096 ≤ 2 ^ 31
    → find_caller w.krnl.running_list pid ≡ true
    → (addr : ℕ) × (w' : Process.World) × (vma' : Vma) × (Process.alloc w pid 0 rgid size
        ≡ ok (addr, w'))
      × Heap w'.user vma'
      × (vma'.sbrk ≤ vma.sbrk + size + 4096)
      × (get_elem? w'.user.symrgtbl rgid ≡ some (record { rg_start = addr; rg_end = addr + size }))
      × (w'.krnl.running_list ≡ w.krnl.running_list)
      × Grant w.user.pgd w'.user.pgd w.krnl.mram.free_fp_list w'.krnl.mram.free_fp_list
      × SameBytes w.krnl.mram w'.krnl.mram
alloc-Heap w pid rgid size vma v h p b listed =
    let same = as_on_heap w vma v.area.single in
    let v' = subst (λ (x : Process.World). Heap x.user vma) same v in
    let small : size < 2 ^ 31 = omega (arith, b) in
    elim (fit_loop_lem vma.vm_freerg_list size v.free (omega (arith, b))) [
      | inl (none_fits, all_small) ↦
          (let (w', run, g) =
              alloc-AtBreak w pid rgid size vma v.table h small none_fits v'.area p b listed in
            (
              vma.sbrk,
              w',
              grown vma size,
              ap (λ x. Process.alloc x pid 0 rgid size) same ∙ run,
              Heap-AtBreak w w' rgid size vma v' h b g,
              omega arith,
              ap (λ t. get_elem? t rgid) g.symbols
                  ∙ get_elem?-set_self w.user.symrgtbl rgid _ (omega (arith, v.table, h)),
              g.running,
              g.granted,
              g.bytes,
            ))
      | inr f ↦
          (let found = fit_loop vma.vm_freerg_list size in
            (
              found.0.rg_start,
              from_free w vma rgid found.0 found.1,
              record vma { vm_freerg_list = found.1 },
              ap (λ x. Process.alloc x pid 0 rgid size) same
                  ∙ alloc-from_free w pid rgid size vma v.table h small found.0 found.1 refl
                      (not_last found.0.rg_start found.0.rg_end f.found.0 f.found.1),
              Heap-from_free w vma rgid size found.0 found.1 v' h f,
              omega arith,
              get_elem?-set_self w.user.symrgtbl rgid _ (omega (arith, v.table, h))
                  ∙ ap (λ e. some (record { rg_start = found.0.rg_start; rg_end = e }))
                      (f.end ∙ ap (λ s. s + size) (sym f.start)),
              refl,
              none_taken refl (λ f. refl),
              record { cells = refl; size = refl; random = refl },
            ))
    ]
  where
    not_last : (s e : ℕ) → s ≤ e → e + u32_mod < u64_mod → (s == u64_mod - 1) ≡ false
    not_last s e h k = ground arith
