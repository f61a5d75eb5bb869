-- ===== src/Process/Isolation/Bytes.antt =====
-- src/libmem.c: where the bytes of two processes are in RAM.
use os.Prelude.{ℕ, ◌^◌, ◌<◌, ◌≡◌, ◌≢◌, arith}
use os.Prelude.Words.{add64}
use os.Pte.{paging_pgn}
use os.Pte.Address.{paging_pgn_lem, paging_offst_lem}
use os.Mm.{Region}
use os.Libmem.{physical}
use os.Process.RoundTrip.{IsByte, byte_location}
use os.Process.Isolation.{Processes, process, Apart, frame_of}

-- the page of a byte
abbrev page_at : Region → ℕ → ℕ
page_at rg offset = paging_pgn (add64 rg.rg_start offset)

page_small : (addr : ℕ) → paging_pgn addr < 2 ^ 45
page_small addr = omega (arith, paging_pgn_lem addr)

-- Bytes at one place in RAM are on one frame.
same_frame : (f g a b : ℕ) → physical f a ≡ physical g b → f ≡ g
same_frame f g a b e = omega (arith, paging_offst_lem a, paging_offst_lem b)

-- Bytes of two processes that share no frame are at different places in RAM.
pub other_place :
    (s : Processes) (n i j : ℕ)
    → Apart s n
    → i ≢ j
    → i < n
    → j < n
    → (rgid : ℕ) (rg : Region) (offset rgid₂ : ℕ) (rg₂ : Region) (offset₂ : ℕ)
    → IsByte (process s i) rgid rg offset
    → IsByte (process s j) rgid₂ rg₂ offset₂
    → byte_location (process s i) rg offset ≢ byte_location (process s j) rg₂ offset₂
other_place s n i j v d hi hj rgid rg offset rgid₂ rg₂ offset₂ b b₂ e =
    d
      (v.own i j (page_at rg offset) (page_at rg₂ offset₂) hi hj (page_small _) (page_small _)
        b.resident.present b₂.resident.present
        (same_frame (frame_of (s.mm i).pgd (page_at rg offset))
          (frame_of (s.mm j).pgd (page_at rg₂ offset₂)) (add64 rg.rg_start offset)
          (add64 rg₂.rg_start offset₂) e)).0
