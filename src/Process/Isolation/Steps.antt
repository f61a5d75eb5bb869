-- ===== src/Process/Isolation/Steps.antt =====
-- src/libmem.c: a call of one process, seen by another one.
use mathlib.Core.Path.{subst}
use os.Prelude.{
  ℕ, ◌+◌, ◌%◌, ◌^◌, ◌≤◌, ◌<◌, ◌≡◌, ◌≢◌, refl, ap, sym, ◌∙◌, Option, [], ◌∷◌, arith, ok, Rc, ◌==◌,
  if◌then◌else◌, update,
}
use os.Prelude.Words.{add64, sext8}
use os.Pte.{paging_pgn}
use os.PageTable.{Pgd}
use os.Memphy.{Memphy}
use os.Memphy.Access.{poke}
use os.Memphy.Times.{times}
use os.Mm.{Region, Vma, Mm}
use os.Libmem.Paging.{entry-walked}
use os.Process
use os.Process.Heap.{Heap}
use os.Process.Heap.Calls.{Call, IsProper, growth}
use os.Process.RoundTrip.{IsByte, byte_location, write_at, written, read_lem}
use os.Process.Isolation.{Processes, process, after, call}
use os.Process.Isolation.Frames.{Apart-same}
use os.Process.Isolation.Calls.{Sound, Sound-after, bound_after, call-Sound, after-other}
use os.Process.Isolation.Bytes.{other_place}

-- A call of the process `i`, by which its heap grows by at most `grows`. What it reads and writes
-- is in RAM.
pub data Step (pid : ℕ → ℕ) (n : ℕ) : Processes → ℕ → ℕ → Processes → Type 0 where
  calls :
      {s s' : Processes} {i grows : ℕ} (c : Call)
      → i < n
      → IsProper c
      → grows ≡ growth (c ∷ [])
      → call pid i c s ≡ ok s'
      → Step pid n s i grows s'
  writes :
      {s s' : Processes} {i grows : ℕ} (rgid : ℕ) (rg : Region) (offset value : ℕ) (rc : Rc)
      (w : Process.World)
      → i < n
      → IsByte (process s i) rgid rg offset
      → Process.write (process s i) (pid i) 0 rgid offset value ≡ ok (rc, w)
      → s' ≡ after s i w
      → Step pid n s i grows s'
  reads :
      {s s' : Processes} {i grows : ℕ} (rgid : ℕ) (rg : Region) (offset : ℕ) (found : Rc × Option ℕ)
      (w : Process.World)
      → i < n
      → IsByte (process s i) rgid rg offset
      → Process.read (process s i) (pid i) 0 rgid offset ≡ ok (found, w)
      → s' ≡ after s i w
      → Step pid n s i grows s'

-- what the process `j` sees of the byte at the place `p` of RAM
pub record Keeps (j p : ℕ) (s s' : Processes) : Type 0 where
  pub mm : s'.mm j ≡ s.mm j
  pub cell : s'.krnl.mram.cells p % 256 ≡ s.krnl.mram.cells p % 256
  pub size : s'.krnl.mram.size ≡ s.krnl.mram.size
  pub random : s'.krnl.mram.rdmflg ≡ s.krnl.mram.rdmflg

Heap-walked : (mm : Mm) (pgd : Pgd) (vma : Vma) → Heap mm vma → Heap (record mm { pgd = pgd }) vma
Heap-walked mm pgd vma v = record {
  area = record {
    single = v.area.single;
    full = v.area.full;
    ordered = v.area.ordered;
    aligned = v.area.aligned;
  };
  table = v.table;
  variables = v.variables;
  free = v.free;
  once = v.once;
  unused = v.unused;
}

ok_inj : {A : Type 0} (a b : A) → ok a ≡ ok b → a ≡ b
ok_inj a b e = cc

module _ (pid : ℕ → ℕ) (n : ℕ) (s : Processes) (vma : ℕ → Vma) (v : Sound pid n s vma) (i j : ℕ)
    (d : i ≢ j) (hi : i < n) (hj : j < n) where
  -- what a step of `i` leaves behind, seen by `j` at the place `p`
  abbrev pub Fine : ℕ → ℕ → Processes → Type 0
  Fine p rest s' =
      (vma' : ℕ → Vma) × Sound pid n s' vma'
      × ((k : ℕ) → k < n → (vma' k).sbrk + rest ≤ 2 ^ 31)
      × Keeps j p s s'

  -- a call that only walks the page table, and may write a byte
  Fine-walked :
      (p rest addr : ℕ) (mram : Memphy)
      → ((k : ℕ) → k < n → (vma k).sbrk + rest ≤ 2 ^ 31)
      → mram.free_fp_list ≡ s.krnl.mram.free_fp_list
      → mram.size ≡ s.krnl.mram.size
      → mram.rdmflg ≡ s.krnl.mram.rdmflg
      → mram.cells p % 256 ≡ s.krnl.mram.cells p % 256
      → Fine p rest (after s i (written (process s i) addr mram))
  Fine-walked p rest addr mram b free size random cell =
      let w = written (process s i) addr mram in
      (
        update vma i (vma i),
        Sound-after pid n s vma v i w (vma i)
            (Heap-walked (s.mm i) w.user.pgd (vma i) (v.heaps i hi)) refl
            (Apart-same s n i w v.apart (entry-walked (s.mm i).pgd (paging_pgn addr))
              (λ f. ap (times f) free)),
        bound_after pid n s vma v i (vma i) 0 rest (omega arith) (λ k h. omega (arith, b k h)) hi,
        record { mm = after-other s i w j d; cell = cell; size = size; random = random },
      )

  other_cell : (l p old value : ℕ) → l ≢ p → (if l == p then value % 256 else old) % 256 ≡ old % 256
  other_cell l p old value h = ground arith

  -- A step of another process leaves the byte of `j` where and what it is.
  pub step_keeps :
      (grows rest rgid : ℕ) (rg : Region) (offset : ℕ) (s' : Processes)
      → ((k : ℕ) → k < n → (vma k).sbrk + (grows + rest) ≤ 2 ^ 31)
      → IsByte (process s j) rgid rg offset
      → Step pid n s i grows s'
      → Fine (byte_location (process s j) rg offset) rest s'
  step_keeps grows rest rgid rg offset s' b seen (calls c h proper e run) =
      let (t, vma', done, sound, bound, (bytes, others)) =
        call-Sound pid n s vma v i c rest hi proper (λ k l. omega (arith, b k l, e)) in
      let p = byte_location (process s j) rg offset in
      subst (Fine p rest) (ok_inj t s' (sym done ∙ run)) (
        vma',
        sound,
        bound,
        record {
          mm = others j d;
          cell = ap (λ f. f p % 256) bytes.cells;
          size = bytes.size;
          random = bytes.random;
        },
      )
  step_keeps grows rest rgid rg offset s' b seen
        (writes rgid₂ rg₂ offset₂ value rc w h there run e) =
      let p = byte_location (process s j) rg offset in
      let l = byte_location (process s i) rg₂ offset₂ in
      let addr = add64 rg₂.rg_start offset₂ in
      let same = ok_inj _ _ (
        sym (
          write_at (process s i) (pid i) rgid₂ rg₂ offset₂ value there.vma there.others there.areas
            there.symbol there.region there.resident)
        ∙ run) in
      subst (Fine p rest) (ap (after s i) (ap (λ x. x.1) same) ∙ sym e) (
        Fine-walked p rest addr (poke s.krnl.mram l (sext8 value)) (λ k h. omega (arith, b k h))
          refl refl refl
          (other_cell l p (s.krnl.mram.cells p) (sext8 value)
            (other_place s n i j v.apart d hi hj rgid₂ rg₂ offset₂ rgid rg offset there seen)))
  step_keeps grows rest rgid rg offset s' b seen (reads rgid₂ rg₂ offset₂ found w h there run e) =
      let p = byte_location (process s j) rg offset in
      let addr = add64 rg₂.rg_start offset₂ in
      let same = ok_inj _ _ (sym (read_lem (process s i) (pid i) rgid₂ rg₂ offset₂ there) ∙ run) in
      subst (Fine p rest) (ap (after s i) (ap (λ x. x.1) same) ∙ sym e)
        (Fine-walked p rest addr s.krnl.mram (λ k h. omega (arith, b k h)) refl refl refl refl)

-- A byte of `j` stays one while the `mm` of `j` and the size of RAM stay.
pub IsByte-same :
    (s s' : Processes) (j rgid : ℕ) (rg : Region) (offset : ℕ)
    → IsByte (process s j) rgid rg offset
    → s'.mm j ≡ s.mm j
    → s'.krnl.mram.size ≡ s.krnl.mram.size
    → s'.krnl.mram.rdmflg ≡ s.krnl.mram.rdmflg
    → IsByte (process s' j) rgid rg offset
IsByte-same s s' j rgid rg offset b same size random =
    subst (λ mm. IsByte (record { user = mm; krnl = s'.krnl }) rgid rg offset) (sym same)
      (record {
        vma = b.vma;
        others = b.others;
        areas = b.areas;
        symbol = b.symbol;
        region = b.region;
        allocated = b.allocated;
        within = b.within;
        resident = record {
          present = b.resident.present;
          random = random ∙ b.resident.random;
          inside =
              subst (λ size. byte_location (process s j) rg offset < size) (sym size)
                b.resident.inside;
        };
      })

pub IsByte-kept :
    (s s' : Processes) (j rgid : ℕ) (rg : Region) (offset p : ℕ)
    → IsByte (process s j) rgid rg offset
    → Keeps j p s s'
    → IsByte (process s' j) rgid rg offset
IsByte-kept s s' j rgid rg offset p b k = IsByte-same s s' j rgid rg offset b k.mm k.size k.random

pub place-kept :
    (s s' : Processes) (j : ℕ) (rg : Region) (offset p : ℕ)
    → Keeps j p s s'
    → byte_location (process s' j) rg offset ≡ byte_location (process s j) rg offset
place-kept s s' j rg offset p k =
    ap (λ mm. byte_location (record { user = mm; krnl = s.krnl }) rg offset) k.mm
