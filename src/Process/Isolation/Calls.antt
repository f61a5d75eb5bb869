-- ===== src/Process/Isolation/Calls.antt =====
-- src/libmem.c: calls of __alloc and __free by several processes.
use os.Prelude.{
  ℕ, ◌+◌, ◌^◌, ◌≤◌, ◌<◌, ◌≡◌, ◌≢◌, inl, inr, refl, ap, ◌∙◌, true, false, List, [], ◌∷◌, arith, ok,
  ◌==◌, Bool-cases, update,
}
use os.Mm.{Vma}
use os.Syscall.{find_caller}
use os.Process
use os.Process.Heap.{Heap}
use os.Process.Heap.Grant.{SameBytes}
use os.Process.Heap.Keep.{alloc-Heap}
use os.Process.Heap.Free.{free-Heap}
use os.Process.Heap.Calls.{Call, alloc_call, free_call, IsProper, growth}
use os.Process.Isolation.{Processes, process, after, call, run_calls, Apart}
use os.Process.Isolation.Frames.{Apart-granted}

-- `n` processes in the running list, each with a heap, that share no frame
pub record Sound (pid : ℕ → ℕ) (n : ℕ) (s : Processes) (vma : ℕ → Vma) : Type 0 where
  pub heaps : (i : ℕ) → i < n → Heap (s.mm i) (vma i)
  pub listed : (i : ℕ) → i < n → find_caller s.krnl.running_list (pid i) ≡ true
  pub apart : Apart s n

-- by how much a heap grows at most in these calls
abbrev pub total : List (ℕ × Call) → ℕ
total [] = 0
total ((i, c) ∷ cs) = growth (c ∷ []) + total cs

abbrev pub AreProper : ℕ → List (ℕ × Call) → Type 0
AreProper n [] = Unit
AreProper n ((i, c) ∷ cs) = (i < n) × IsProper c × AreProper n cs

-- RAM keeps its bytes, and each process but `i` its `mm`.
abbrev pub Spares : ℕ → Processes → Processes → Type 0
Spares i s s' = SameBytes s.krnl.mram s'.krnl.mram × ((j : ℕ) → i ≢ j → s'.mm j ≡ s.mm j)

pub after-other :
    (s : Processes) (i : ℕ) (w : Process.World) (j : ℕ) → i ≢ j → (after s i w).mm j ≡ s.mm j
after-other s i w j d = rw (differ i j d)
  where
    differ : (i j : ℕ) → i ≢ j → (i == j) ≡ false
    differ i j d = ground arith

module _ (pid : ℕ → ℕ) (n : ℕ) (s : Processes) (vma : ℕ → Vma) (v : Sound pid n s vma) (i : ℕ) where
  pub Sound-after :
      (w : Process.World) (vma' : Vma)
      → Heap w.user vma'
      → w.krnl.running_list ≡ s.krnl.running_list
      → Apart (after s i w) n
      → Sound pid n (after s i w) (update vma i vma')
  Sound-after w vma' h l a = record {
    heaps = λ j b. elim (Bool-cases (i == j)) [ inl e ↦ rw e h | inr e ↦ rw e (v.heaps j b) ];
    listed = λ j b. ap (λ q. find_caller q (pid j)) l ∙ v.listed j b;
    apart = a;
  }

  pub bound_after :
      (vma' : Vma) (grows rest : ℕ)
      → vma'.sbrk ≤ (vma i).sbrk + grows
      → ((j : ℕ) → j < n → (vma j).sbrk + (grows + rest) ≤ 2 ^ 31)
      → i < n
      → (j : ℕ) → j < n
      → (update vma i vma' j).sbrk + rest ≤ 2 ^ 31
  bound_after vma' grows rest t b h j l = elim (Bool-cases (i == j)) [
    | inl e ↦ rw e (omega (arith, t, b i h))
    | inr e ↦ rw e (omega (arith, b j l))
  ]

  -- One call returns and keeps the system sound.
  pub call-Sound :
      (c : Call) (rest : ℕ)
      → i < n
      → IsProper c
      → ((j : ℕ) → j < n → (vma j).sbrk + (growth (c ∷ []) + rest) ≤ 2 ^ 31)
      → (s' : Processes) × (vma' : ℕ → Vma) × (call pid i c s ≡ ok s')
        × Sound pid n s' vma'
        × ((j : ℕ) → j < n → (vma' j).sbrk + rest ≤ 2 ^ 31)
        × Spares i s s'
  unfolding call
  call-Sound (alloc_call rgid size) rest h (k, p) b =
      let (addr, w, vma', run, heap, top, own, list, g, bytes) =
        alloc-Heap (process s i) (pid i) rgid size (vma i) (v.heaps i h) k p (omega (arith, b i h))
          (v.listed i h) in
      (
        after s i w,
        update vma i vma',
        rw run refl,
        Sound-after w vma' heap list (Apart-granted s n i w v.apart g),
        bound_after vma' (growth (alloc_call rgid size ∷ [])) rest (omega (arith, top)) b h,
        (bytes, λ j d. after-other s i w j d),
      )
  call-Sound (free_call rgid) rest h k b =
      let (rc, w, vma', run, heap, top, list, g, bytes) =
        free-Heap (process s i) rgid (vma i) (v.heaps i h) k in
      (
        after s i w,
        update vma i vma',
        rw run refl,
        Sound-after w vma' heap list (Apart-granted s n i w v.apart g),
        bound_after vma' 0 rest (omega (arith, top)) b h,
        (bytes, λ j d. after-other s i w j d),
      )

pub run_calls-Sound :
    (pid : ℕ → ℕ) (n : ℕ) (cs : List (ℕ × Call)) (s : Processes) (vma : ℕ → Vma)
    → Sound pid n s vma
    → AreProper n cs
    → ((j : ℕ) → j < n → (vma j).sbrk + total cs ≤ 2 ^ 31)
    → (s' : Processes) × (vma' : ℕ → Vma) × (run_calls pid cs s ≡ ok s') × Sound pid n s' vma'
unfolding run_calls
run_calls-Sound pid n [] s vma v ps b = (s, vma, refl, v)
run_calls-Sound pid n ((i, c) ∷ cs) s vma v (h, p, ps) b =
    let (s', vma', run, v', b', spares) = call-Sound pid n s vma v i c (total cs) h p b in
    let (s'', vma'', rest, v'') = run_calls-Sound pid n cs s' vma' v' ps b' in
    (s'', vma'', rw (run, rest) refl, v'')
