-- ===== src/Process/Heap/Calls.antt =====
-- src/libmem.c: calls of __alloc and __free by one process, in any order.
use os.Prelude.{
  ℕ, ◌+◌, ◌≤◌, ◌<◌, ◌≡◌, ◌≢◌, ◌^◌, refl, ap, ◌∙◌, true, some, List, [], ◌∷◌, arith, Exec, ok, ◌>>=◌,
  get_elem?, All,
}
use os.Mm.{Region, Vma}
use os.Syscall.{find_caller}
use os.Libmem.Cover.{cover, covers, covers_two}
use os.Process
use os.Process.Heap.{Heap}
use os.Process.Heap.Keep.{alloc-Heap}
use os.Process.Heap.Free.{free-Heap}

pub data Call : Type 0 where
  alloc_call : ℕ → ℕ → Call
  free_call : ℕ → Call

-- calls by the process with this pid; the results are dropped
unfoldable pub run_calls : ℕ → List Call → Process.World → Exec Process.World
run_calls pid [] w = ok w
run_calls pid (alloc_call rgid size ∷ cs) w = do
  (addr, w') ← Process.alloc w pid 0 rgid size
  run_calls pid cs w'
run_calls pid (free_call rgid ∷ cs) w = do (rc, w') ← Process.free w rgid; run_calls pid cs w'

-- region numbers that exist, and sizes above 0
abbrev pub IsProper : Call → Type 0
IsProper (alloc_call rgid size) = (rgid < 30) × (0 < size)
IsProper (free_call rgid) = rgid < 30

-- by how much the heap grows at most
abbrev pub growth : List Call → ℕ
growth [] = 0
growth (alloc_call rgid size ∷ cs) = size + 4096 + growth cs
growth (free_call rgid ∷ cs) = growth cs

-- No two variables share an address.
abbrev pub Separate : List Region → Type 0
Separate table =
    (i j : ℕ) (x y : Region) (a : ℕ)
    → i ≢ j
    → get_elem? table i ≡ some x
    → get_elem? table j ≡ some y
    → cover a x + cover a y ≤ 1

pub Heap-Separate : (w : Process.World) (vma : Vma) → Heap w.user vma → Separate w.user.symrgtbl
Heap-Separate w vma v i j x y a d e f =
    omega (arith, covers_two a w.user.symrgtbl i j x y d e f, v.once a)

run_calls-Heap :
    (pid : ℕ) (cs : List Call) (w : Process.World) (vma : Vma)
    → Heap w.user vma
    → All IsProper cs
    → vma.sbrk + growth cs ≤ 2 ^ 31
    → find_caller w.krnl.running_list pid ≡ true
    → (w' : Process.World) × (vma' : Vma) × (run_calls pid cs w ≡ ok w') × Heap w'.user vma'
unfolding run_calls
run_calls-Heap pid [] w vma v ps b l = (w, vma, refl, v)
run_calls-Heap pid (alloc_call rgid size ∷ cs) w vma v ((h, p), ps) b l =
    let (addr, w', vma', run, v', top, own, list, granted, bytes) =
      alloc-Heap w pid rgid size vma v h p (omega (arith, b)) l in
    let (w'', vma'', rest, v'') =
      run_calls-Heap pid cs w' vma' v' ps (omega (arith, b, top))
        (ap (λ q. find_caller q pid) list ∙ l) in
    (w'', vma'', rw (run, rest) refl, v'')
run_calls-Heap pid (free_call rgid ∷ cs) w vma v (h, ps) b l =
    let (rc, w', vma', run, v', top, list, granted, bytes) = free-Heap w rgid vma v h in
    let (w'', vma'', rest, v'') =
      run_calls-Heap pid cs w' vma' v' ps (omega (arith, b, top))
        (ap (λ q. find_caller q pid) list ∙ l) in
    (w'', vma'', rw (run, rest) refl, v'')

-- A process in the running list, whose heap ends at its break, allocates and frees variables in any
-- order, with or without free frames, while its heap stays below 2 ^ 31: every call returns, and
-- afterwards no two variables share an address, and no variable an address with a free region.
pub run_calls-Separate :
    (pid : ℕ) (cs : List Call) (w : Process.World) (vma : Vma)
    → Heap w.user vma
    → All IsProper cs
    → vma.sbrk + growth cs ≤ 2 ^ 31
    → find_caller w.krnl.running_list pid ≡ true
    → (w' : Process.World) × (vma' : Vma) × (run_calls pid cs w ≡ ok w')
      × (w'.user.mmap ≡ vma' ∷ [])
      × Separate w'.user.symrgtbl
      × ((a : ℕ) → covers a w'.user.symrgtbl + covers a vma'.vm_freerg_list ≤ 1)
run_calls-Separate pid cs w vma v ps b l =
    let (w', vma', run, v') = run_calls-Heap pid cs w vma v ps b l in
    (w', vma', run, v'.area.single, Heap-Separate w' vma' v', v'.once)
