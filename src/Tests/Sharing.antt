-- ===== src/Tests/Sharing.antt =====
-- src/libmem.c: two processes with a page each in RAM.
use os.Prelude.{
  ℕ, ◌*◌, zero, suc, ◌+◌, ◌%◌, ◌^◌, ◌≤◌, ◌<◌, ◌≡◌, inl, inr, refl, ap, sym, ◌∙◌, true, false, some,
  [], ◌∷◌, arith, ok, success, ◌==◌, Bool-cases,
}
use os.Prelude.Words.{u32_mod}
use os.Memphy.Times.{times}
use os.Pte.{page_present, paging_fpn, paging_pgn, paging_offst, set_fpn}
use os.Pte.Address.{get_pd_from_pagenum, get_pd_from_address}
use os.Pte.Fields.{page_present_lem}
use os.PageTable.{Pgd, calloc, pte_set_fpn, table_or_new, deref, assign, walk_create, route_of}
use os.PageTable.Entries.{entry, entry-set_fpn, same_page}
use os.Mm.{Region, Vma, Mm}
use os.Libmem.Paging.{location}
use os.Process
use os.Process.Heap.Calls.{alloc_call}
use os.Process.RoundTrip.{IsByte, inside_call, byte_location, written, write_at}
use os.Process.Isolation.{Processes, process, after, call, IsPresent, frame_of, Apart}
use os.Process.Isolation.Start.{cleared, first_area, covers-cleared, cleared-IsRegion}
use os.Prelude.Words.{sext8}
use os.Memphy.Access.{poke}
use os.Libmem.Cover.{cover_beyond}
use os.Process.Heap.{Heap}
use os.Process.Heap.Keep.{cover_le}
use os.Process.Isolation.Calls.{Sound, Spares, call-Sound}
use os.Process.Isolation.Steps.{Step, calls, writes, Keeps, step_keeps}
use os.Process.Isolation.Runs.{next, stop, read-Run}
use os.Tests.Together.{blank}
use os.Tests.Heaps.{empty_mm}
use os.Tests.Isolated.{starting, listed}

abbrev pub variable : Region
variable = record { rg_start = 16; rg_end = 32 }

-- an area of one page, all of it used or lost but for the bytes 16 to 31
abbrev pub one_page_area : Vma
one_page_area = record first_area { vm_end = 4096; sbrk = 4096 }

-- page 0 of the process 0 is on frame 2, and that of the process 1 on frame 3
abbrev pub with_page : ℕ → Mm
with_page i = record empty_mm {
  pgd = pte_set_fpn (calloc 4) 0 (2 + i);
  mmap = one_page_area ∷ [];
  symrgtbl = variable ∷ cleared 29;
}

abbrev pub sharing : Processes
sharing = record {
  krnl = record (starting.krnl) {
    mram = record blank { size = 1024; maxsz = 1024; rdmflg = true; free_fp_list = 1 ∷ [] };
  };
  mm = with_page;
}

abbrev tables : ℕ → Pgd
tables i = pte_set_fpn (calloc 4) 0 (2 + i)

entry_0 : (q : ℕ) → entry (calloc 4) q ≡ 0
unfolding entry calloc deref route_of table_or_new
entry_0 q = refl

set_of : (i : ℕ) → i < 2 → paging_fpn (set_fpn 0 (2 + i) % u32_mod) ≡ 2 + i
unfolding paging_fpn set_fpn
set_of zero h = refl
set_of (suc zero) h = refl
set_of (suc (suc i)) h = absurd (omega arith)

absent : (x : ℕ) → x ≡ 0 → (page_present (x % u32_mod) == 0) ≡ false → ⊥
absent x e p = ground (arith, page_present_lem (x % u32_mod))

-- Only page 0 is present, on the frame `2 + i`.
one_page :
    (i q : ℕ)
    → i < 2
    → q < 2 ^ 45
    → IsPresent (tables i) q
    → (q ≡ 0) × (frame_of (tables i) q ≡ 2 + i)
one_page i q h b p = elim (Bool-cases (same_page 0 q)) [
  | inl e ↦ (
    zero_page q b e,
    ap (λ x. paging_fpn (x % u32_mod))
          (entry-set_fpn (calloc 4) 0 q (2 + i) ∙ rw e (ap (λ x. set_fpn x (2 + i)) (entry_0 0)))
        ∙ set_of i h,
  )
  | inr e ↦
      absurd
        (absent (entry (tables i) q) (entry-set_fpn (calloc 4) 0 q (2 + i) ∙ rw e (entry_0 q)) p)
]
  where
    zero_page : (q : ℕ) → q < 2 ^ 45 → same_page 0 q ≡ true → q ≡ 0
    zero_page q b e = ground arith

times_other : (f : ℕ) → 1 < f → times f (1 ∷ []) ≡ 0
times_other f h = ground arith

sharing-Apart : Apart sharing 2
sharing-Apart = record {
  small = λ f h. times_other f (omega (arith, h));
  once = λ f. at_most f;
  taken = λ i q h b p. times_other (frame_of (tables i) q) (omega (arith, (one_page i q h b p).1));
  own = λ i j p q hi hj hp hq x y e.
      let (zero_p, on_p) = one_page i p hi hp x in
      let (zero_q, on_q) = one_page j q hj hq y in
      (omega (arith, sym on_p ∙ e ∙ on_q), zero_p ∙ sym zero_q);
}
  where
    at_most : (f : ℕ) → times f (1 ∷ []) ≤ 1
    at_most f = ground arith

place : (i : ℕ) → i < 2 → location (inside_call (process sharing i)) 20 ≡ 532 + 256 * i
unfolding entry pte_set_fpn calloc table_or_new deref assign walk_create route_of
    get_pd_from_pagenum get_pd_from_address paging_pgn paging_offst paging_fpn page_present set_fpn
place zero h = refl
place (suc zero) h = refl
place (suc (suc i)) h = absurd (omega arith)

present : (i : ℕ) → i < 2 → IsPresent (tables i) (paging_pgn 20)
unfolding entry pte_set_fpn calloc table_or_new deref assign walk_create route_of
    get_pd_from_pagenum get_pd_from_address paging_pgn paging_offst paging_fpn page_present set_fpn
present zero h = refl
present (suc zero) h = refl
present (suc (suc i)) h = absurd (omega arith)

IsByte-20 : (i : ℕ) → i < 2 → IsByte (process sharing i) 0 variable 4
IsByte-20 i h = record {
  vma = one_page_area;
  others = [];
  areas = refl;
  symbol = omega arith;
  region = refl;
  allocated = unfold Process.unallocated in refl;
  within = omega arith;
  resident = record { present = present i h; random = refl; inside = omega (arith, h, place i h) };
}

with_page-Heap : (i : ℕ) → Heap (with_page i) one_page_area
with_page-Heap i = record {
  area = record { single = refl; full = refl; ordered = omega arith; aligned = refl };
  table = refl;
  variables = ((omega arith, omega arith), cleared-IsRegion 29);
  free = cleared-IsRegion 1;
  once = λ a. omega (arith, cover_le a variable, covers-cleared a 29, covers-cleared a 1);
  unused = λ a l.
      omega
        (arith, cover_beyond a 16 32 (omega (arith, l)), covers-cleared a 29, covers-cleared a 1);
}

sharing-Sound : Sound suc 2 sharing (λ _. one_page_area)
sharing-Sound = record { heaps = λ i h. with_page-Heap i; listed = listed; apart = sharing-Apart }

-- The process 0 writes to its variable, and then allocates another one.
abbrev write_result : Process.World
write_result =
    written (process sharing 0) 20
      (poke sharing.krnl.mram (byte_location (process sharing 0) variable 4) (sext8 300))

write_step : Step suc 2 sharing 0 0 (after sharing 0 write_result)
write_step =
    writes 0 variable 4 300 success write_result (omega arith) (IsByte-20 0 (omega arith))
      (write_at (process sharing 0) 1 0 variable 4 300 one_page_area [] refl (omega arith) refl
        (IsByte-20 0 (omega arith)).resident)
      refl

abbrev wrote : Processes
wrote = after sharing 0 write_result

behind_write :
    (vma : ℕ → Vma) × Sound suc 2 wrote vma
    × ((k : ℕ) → k < 2 → (vma k).sbrk + 4196 ≤ 2 ^ 31)
    × Keeps 1 (byte_location (process sharing 1) variable 4) sharing wrote
behind_write =
    step_keeps suc 2 sharing (λ _. one_page_area) sharing-Sound 0 1 (omega arith) (omega arith)
      (omega arith) 0 4196 0 variable 4 _ (λ k h. omega arith) (IsByte-20 1 (omega arith))
      write_step

allocated :
    (s' : Processes) × (vma : ℕ → Vma) × (call suc 0 (alloc_call 1 100) wrote ≡ ok s')
    × Sound suc 2 s' vma
    × ((k : ℕ) → k < 2 → (vma k).sbrk + 0 ≤ 2 ^ 31)
    × Spares 0 wrote s'
allocated =
    call-Sound suc 2 wrote behind_write.0 behind_write.1 0 (alloc_call 1 100) 0 (omega arith)
      (omega arith, omega arith) (λ k h. omega (arith, behind_write.2 k h))

read-Run_example :
    (byte : ℕ) × (r r' : Process.World) × (Process.read (process sharing 1) 2 0 0 4
      ≡ ok ((success, some byte), r))
    × (Process.read (process allocated.0 1) 2 0 0 4 ≡ ok ((success, some byte), r'))
read-Run_example =
    read-Run suc 2 1 0 variable 4 (omega arith) 4196 sharing allocated.0 (λ _. one_page_area)
      sharing-Sound (λ k h. omega arith) (IsByte-20 1 (omega arith))
      (next 0 0 4196 (omega arith) (omega arith) write_step (
        next 0 4196 0 (omega arith) (omega arith)
          (calls (alloc_call 1 100) (omega arith) (omega arith, omega arith) refl allocated.2)
          (stop refl)))
