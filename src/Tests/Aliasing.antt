-- ===== src/Tests/Aliasing.antt =====
-- src/libmem.c: two processes whose pages are on the frames 2 and 8194.
use os.Prelude.{ℕ, zero, suc, ◌+◌, ◌*◌, ◌^◌, ◌<◌, ◌≡◌, refl, some, [], arith, ok, success}
use os.Pte.{page_present, paging_fpn, paging_pgn, paging_offst, set_fpn}
use os.Pte.Address.{get_pd_from_pagenum, get_pd_from_address}
use os.PageTable.{calloc, pte_set_fpn, table_or_new, deref, assign, walk_create, route_of}
use os.PageTable.Entries.{entry}
use os.Mm.{Mm}
use os.Libmem.Paging.{location}
use os.Process
use os.Process.RoundTrip.{IsByte, inside_call}
use os.Process.Isolation.{Processes, process, after, IsPresent}
use os.Process.Isolation.Aliased.{write-Aliased}
use os.Tests.Sharing.{with_page, sharing, one_page_area, variable}

abbrev far_page : ℕ → Mm
far_page i = record (with_page i) { pgd = pte_set_fpn (calloc 4) 0 (2 + i * 2 ^ 13) }

abbrev aliasing : Processes
aliasing = record sharing { mm = far_page }

place : (i : ℕ) → i < 2 → location (inside_call (process aliasing i)) 20 ≡ 532
unfolding entry pte_set_fpn calloc table_or_new deref assign walk_create route_of
    get_pd_from_pagenum get_pd_from_address paging_pgn paging_offst paging_fpn page_present set_fpn
place zero h = refl
place (suc zero) h = refl
place (suc (suc i)) h = absurd (omega arith)

present : (i : ℕ) → i < 2 → IsPresent (far_page i).pgd (paging_pgn 20)
unfolding entry pte_set_fpn calloc table_or_new deref assign walk_create route_of
    get_pd_from_pagenum get_pd_from_address paging_pgn paging_offst paging_fpn page_present set_fpn
present zero h = refl
present (suc zero) h = refl
present (suc (suc i)) h = absurd (omega arith)

IsByte-20 : (i : ℕ) → i < 2 → IsByte (process aliasing i) 0 variable 4
IsByte-20 i h = record {
  vma = one_page_area;
  others = [];
  areas = refl;
  symbol = omega arith;
  region = refl;
  allocated = unfold Process.unallocated in refl;
  within = omega arith;
  resident = record { present = present i h; random = refl; inside = omega (arith, h, place i h) };
}

write-Aliased_example :
    (w r : Process.World) × (Process.write (process aliasing 0) 1 0 0 4 300 ≡ ok (success, w))
    × (Process.read (process (after aliasing 0 w) 1) 2 0 0 4 ≡ ok ((success, some 44), r))
write-Aliased_example =
    write-Aliased aliasing 0 1 1 (omega arith) 0 variable 4 300 0 variable 4
      (IsByte-20 0 (omega arith)) (IsByte-20 1 (omega arith)) (calloc 4) (calloc 4) 2 1 2
      (unfold paging_pgn in refl) (unfold paging_pgn in refl) refl
