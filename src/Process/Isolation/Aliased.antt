-- ===== src/Process/Isolation/Aliased.antt =====
-- src/libmem.c and include/mm.h: frames beyond the 13 bits of PAGING_PTE_FPN_MASK, which a RAM of
-- more than 2 MB has.
use os.Prelude.{
  ℕ, ◌+◌, ◌*◌, ◌%◌, ◌^◌, ◌≡◌, ◌≢◌, refl, ap, sym, ◌∙◌, some, arith, ok, success, ◌==◌, ==_iff,
  if◌then◌else◌,
}
use os.Prelude.Words.{u32_mod, add64, sext8}
use os.Pte.{paging_pgn, paging_fpn}
use os.Pte.Address.{paging_offst_lem}
use os.PageTable.{Pgd, pte_set_fpn}
use os.PageTable.Entries.{entry, entry-set_fpn}
use os.Memphy.Access.{poke}
use os.Mm.{Region}
use os.Libmem.{physical}
use os.Libmem.Paging.{looked}
use os.Process
use os.Process.RoundTrip.{
  IsByte, byte_location, write_at, written, read_lem, after_call, inside_call,
}
use os.Process.Isolation.{Processes, process, after}
use os.Process.Isolation.Frames.{frame_set}
use os.Process.Isolation.Calls.{after-other}
use os.Process.Isolation.Steps.{IsByte-same}

-- the frame behind a page that was just mapped
frame-mapped :
    (pgd before : Pgd) (p f : ℕ)
    → pgd ≡ pte_set_fpn before p f
    → paging_fpn (entry pgd p % u32_mod) ≡ f % 2 ^ 13
frame-mapped pgd before p f e =
    ap (λ t. paging_fpn (entry t p % u32_mod)) e
    ∙ ap (λ x. paging_fpn (x % u32_mod))
        (entry-set_fpn before p p f ∙ rw ((==_iff (p % 2 ^ 45) (p % 2 ^ 45)).1 refl) refl)
    ∙ frame_set (entry before p) f

same_location :
    (f g a b x k : ℕ)
    → f ≡ x % 2 ^ 13
    → g ≡ (x + k * 2 ^ 13) % 2 ^ 13
    → a % 2 ^ 8 ≡ b % 2 ^ 8
    → physical g b ≡ physical f a
same_location f g a b x k e h o = omega (arith, paging_offst_lem a, paging_offst_lem b)

own_byte : (p q old n : ℕ) → p ≡ q → (if p == q then sext8 n % 256 else old) % 256 ≡ n % 256
own_byte p q old n e = ground arith

module _ (s : Processes) (i j pid : ℕ) (d : i ≢ j) (rgid : ℕ) (rg : Region) (offset value rgid₂ : ℕ)
    (rg₂ : Region) (offset₂ : ℕ) (b : IsByte (process s i) rgid rg offset)
    (b₂ : IsByte (process s j) rgid₂ rg₂ offset₂) where
  abbrev addr : ℕ
  addr = add64 rg.rg_start offset

  abbrev addr₂ : ℕ
  addr₂ = add64 rg₂.rg_start offset₂

  abbrev place : ℕ
  place = byte_location (process s i) rg offset

  abbrev writer : Process.World
  writer = written (process s i) addr (poke s.krnl.mram place (sext8 value))

  -- Two processes map the pages of a byte each to frames whose numbers agree modulo 2 ^ 13, and the
  -- bytes have the same offset in their pages. Then what the one writes the other one reads.
  pub write-Aliased :
      (before before₂ : Pgd) (f k pid₂ : ℕ)
      → (s.mm i).pgd ≡ pte_set_fpn before (paging_pgn (add64 rg.rg_start offset)) f
      → (s.mm j).pgd
        ≡ pte_set_fpn before₂ (paging_pgn (add64 rg₂.rg_start offset₂)) (f + k * 2 ^ 13)
      → add64 rg.rg_start offset % 2 ^ 8 ≡ add64 rg₂.rg_start offset₂ % 2 ^ 8
      → (w r : Process.World) × (Process.write (process s i) pid 0 rgid offset value
          ≡ ok (success, w))
        × (Process.read (process (after s i w) j) pid₂ 0 rgid₂ offset₂
            ≡ ok ((success, some (value % 256)), r))
  write-Aliased before before₂ f k pid₂ e e₂ o =
      let t = after s i writer in
      let there = IsByte-same s t j rgid₂ rg₂ offset₂ b₂ (after-other s i writer j d) refl refl in
      let same_place : byte_location (process t j) rg₂ offset₂ ≡ place =
        ap (λ mm. byte_location (record { user = mm; krnl = s.krnl }) rg₂ offset₂)
          (after-other s i writer j d)
        ∙ same_location _ _ addr addr₂ f k (frame-mapped (s.mm i).pgd before (paging_pgn addr) f e)
            (frame-mapped (s.mm j).pgd before₂ (paging_pgn addr₂) (f + k * 2 ^ 13) e₂) o in
      let r = after_call (process t j) (looked (inside_call (process t j)) addr₂) in
      (
        writer,
        r,
        write_at (process s i) pid rgid rg offset value b.vma b.others b.areas b.symbol b.region
            b.resident,
        read_lem (process t j) pid₂ rgid₂ rg₂ offset₂ there
            ∙ ap (λ x. ok ((success, some x), r))
                (own_byte place _ (s.krnl.mram.cells (byte_location (process t j) rg₂ offset₂))
                  value (sym same_place)),
      )
