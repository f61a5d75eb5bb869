-- ===== src/Process/Isolation/Runs.antt =====
-- src/libmem.c: any interleaving of the calls of processes, seen by one that is not running.
use mathlib.Core.Path.{subst}
use os.Prelude.{ℕ, ◌+◌, ◌%◌, ◌^◌, ◌≤◌, ◌<◌, ◌≡◌, ◌≢◌, refl, ap, sym, ◌∙◌, some, arith, ok, success}
use os.Prelude.Words.{add64}
use os.Mm.{Region, Vma}
use os.Libmem.Paging.{looked}
use os.Process
use os.Process.RoundTrip.{IsByte, byte_location, read_lem, after_call, inside_call}
use os.Process.Isolation.{Processes, process}
use os.Process.Isolation.Calls.{Sound}
use os.Process.Isolation.Steps.{
  Step, calls, writes, reads, Keeps, step_keeps, IsByte-kept, place-kept,
}

-- any number of calls, none by the process `j`
pub data Run (pid : ℕ → ℕ) (n j : ℕ) : Processes → ℕ → Processes → Type 0 where
  stop : {s s' : Processes} {grows : ℕ} → s' ≡ s → Run pid n j s grows s'
  next :
      {s t s' : Processes} {grows : ℕ} (i first rest : ℕ)
      → i ≢ j
      → grows ≡ first + rest
      → Step pid n s i first t
      → Run pid n j t rest s'
      → Run pid n j s grows s'

module _ (pid : ℕ → ℕ) (n j rgid : ℕ) (rg : Region) (offset : ℕ) (hj : j < n) where
  Run-Keeps :
      (grows : ℕ) (s s' : Processes) (vma : ℕ → Vma)
      → Sound pid n s vma
      → ((k : ℕ) → k < n → (vma k).sbrk + grows ≤ 2 ^ 31)
      → IsByte (process s j) rgid rg offset
      → Run pid n j s grows s'
      → Keeps j (byte_location (process s j) rg offset) s s'
  Run-Keeps grows s s' vma v b seen (stop e) =
      subst (Keeps j (byte_location (process s j) rg offset) s) (sym e)
        (record { mm = refl; cell = refl; size = refl; random = refl })
  Run-Keeps grows s s' vma v b seen (next {t} i first rest d e step run) =
      let (vma', sound, bound, keeps) =
        step_keeps pid n s vma v i j d (by_member step) hj first rest rgid rg offset t
          (λ k l. omega (arith, b k l, e)) seen step in
      let later =
        Run-Keeps rest t s' vma' sound bound
          (IsByte-kept s t j rgid rg offset (byte_location (process s j) rg offset) seen keeps)
          run in
      joined s t s' keeps (
        subst (λ p. Keeps j p t s')
          (place-kept s t j rg offset (byte_location (process s j) rg offset) keeps) later)
    where
      by_member : {s t : Processes} {i g : ℕ} → Step pid n s i g t → i < n
      by_member (calls c h proper e run) = h
      by_member (writes rgid rg offset value rc w h there run e) = h
      by_member (reads rgid rg offset found w h there run e) = h

      joined : {p : ℕ} (s t s' : Processes) → Keeps j p s t → Keeps j p t s' → Keeps j p s s'
      joined s t s' k l = record {
        mm = l.mm ∙ k.mm;
        cell = l.cell ∙ k.cell;
        size = l.size ∙ k.size;
        random = l.random ∙ k.random;
      }

  -- Each process has a heap and is in the running list, and no two share a frame. One of them has a
  -- byte of a variable in RAM. The others allocate, free, read and write what they have in RAM, in
  -- any order, while no heap can grow above 2 ^ 31. Then the process reads the same byte afterwards
  -- as before.
  pub read-Run :
      (grows : ℕ) (s s' : Processes) (vma : ℕ → Vma)
      → Sound pid n s vma
      → ((k : ℕ) → k < n → (vma k).sbrk + grows ≤ 2 ^ 31)
      → IsByte (process s j) rgid rg offset
      → Run pid n j s grows s'
      → (byte : ℕ) × (r r' : Process.World) × (Process.read (process s j) (pid j) 0 rgid offset
          ≡ ok ((success, some byte), r))
        × (Process.read (process s' j) (pid j) 0 rgid offset ≡ ok ((success, some byte), r'))
  read-Run grows s s' vma v b seen run =
      let p = byte_location (process s j) rg offset in
      let k = Run-Keeps grows s s' vma v b seen run in
      let addr = add64 rg.rg_start offset in
      let r' = after_call (process s' j) (looked (inside_call (process s' j)) addr) in
      (
        s.krnl.mram.cells p % 256,
        after_call (process s j) (looked (inside_call (process s j)) addr),
        r',
        read_lem (process s j) (pid j) rgid rg offset seen,
        read_lem (process s' j) (pid j) rgid rg offset (IsByte-kept s s' j rgid rg offset p seen k)
            ∙ ap (λ x. ok ((success, some x), r'))
                (ap (λ l. s'.krnl.mram.cells l % 256) (place-kept s s' j rg offset p k) ∙ k.cell),
      )
