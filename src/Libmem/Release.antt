-- ===== src/Libmem/Release.antt =====
-- src/libmem.c: free_pcb_memph, which takes each of the 16384 page numbers for an index of the top-level
-- table, an array of 512 pointers. `low` is what the low 32 bits of these pointers are.
use os.Prelude.{
  ℕ, zero, suc, ◌+◌, ◌<◌, ◌≤◌, ◌≡◌, ◌==◌, refl, arith, Bool-cases, inl, inr, true, ltb,
  if◌then◌else◌, Exec, ok, fault,
}
use os.Pte.{page_present, paging_fpn, paging_swp}
use os.Memphy.{put_freefp}
use os.Mm.{Krnl}

abbrev pub paging_max_pgn : ℕ
paging_max_pgn = 16384

-- one round: the frame goes back to RAM or to the swap device
unfoldable pub put_back : Krnl → ℕ → Krnl
put_back krnl pte =
    if page_present pte == 0
    then record krnl { active_mswp = put_freefp krnl.active_mswp (paging_swp pte) }
    else record krnl { mram = put_freefp krnl.mram (paging_fpn pte) }

unfoldable pub put_back_loop : (ℕ → ℕ) → ℕ → ℕ → Krnl → Exec Krnl
put_back_loop low zero pagenum krnl = ok krnl
put_back_loop low (suc n) pagenum krnl =
    let rest = put_back_loop low n (pagenum + 1) (put_back krnl (low pagenum)) in
    if ltb pagenum 512 then rest else fault

unfoldable pub free_pcb_memph : (ℕ → ℕ) → Krnl → Exec Krnl
free_pcb_memph low krnl = put_back_loop low paging_max_pgn 0 krnl

below : (n : ℕ) → ltb n 512 ≡ true → n + 1 ≤ 512
below n e = ground arith

put_back_loop_faults :
    (low : ℕ → ℕ) (n pagenum : ℕ) (krnl : Krnl)
    → pagenum ≤ 512
    → 512 < pagenum + n
    → put_back_loop low n pagenum krnl ≡ fault
unfolding put_back_loop
put_back_loop_faults low zero pagenum krnl k h = absurd (omega arith)
put_back_loop_faults low (suc n) pagenum krnl k h = elim (Bool-cases (ltb pagenum 512)) [
  | inl e ↦
      rw
        (
          e,
          put_back_loop_faults low n (pagenum + 1) (put_back krnl (low pagenum)) (below pagenum e)
              (omega arith),
        )
        refl
  | inr e ↦ rw e refl
]

-- Every call reads past the end of the table.
pub free_pcb_memph_faults : (low : ℕ → ℕ) (krnl : Krnl) → free_pcb_memph low krnl ≡ fault
unfolding free_pcb_memph
free_pcb_memph_faults low krnl =
    put_back_loop_faults low paging_max_pgn 0 krnl (omega arith) (omega arith)
