-- ===== src/Copies/Kept.antt =====
-- src/libmem.c: what reads and writes of bytes leave as it is, for the copies of many bytes.
use os.Prelude.{ℕ, ◌+◌, ◌%◌, ◌*◌, ◌^◌, ◌≡◌, ◌==◌, refl, ap, ◌∙◌, get_elem?}
use os.Prelude.Words.{u32_mod, add64}
use os.Pte.{page_present, paging_fpn, paging_pgn, paging_offst}
use os.PageTable.Entries.{entry}
use os.Mm.{Region, Krnl}
use os.Process.{World}
use os.Process.RoundTrip.{inside_call}
use os.Copies.Byte.{IsRegionByte, place}

-- the same pages on the same frames, the same variables and the same RAM but for its bytes
pub record Kept (a b : Krnl) : Type 0 where
  pub entries : (p : ℕ) → entry b.mm.pgd p ≡ entry a.mm.pgd p
  pub symbols : b.mm.symrgtbl ≡ a.mm.symrgtbl
  pub random : b.mram.rdmflg ≡ a.mram.rdmflg
  pub size : b.mram.size ≡ a.mram.size

pub Kept-refl : (a : Krnl) → Kept a a
Kept-refl a = record { entries = λ p. refl; symbols = refl; random = refl; size = refl }

pub Kept-trans : (a b c : Krnl) → Kept a b → Kept b c → Kept a c
Kept-trans a b c v w = record {
  entries = λ p. w.entries p ∙ v.entries p;
  symbols = w.symbols ∙ v.symbols;
  random = w.random ∙ v.random;
  size = w.size ∙ v.size;
}

pub place-Kept :
    (a b : Krnl) (rg : Region) (offset : ℕ) → Kept a b → place b rg offset ≡ place a rg offset
place-Kept a b rg offset v =
    ap (λ e. paging_fpn (e % u32_mod) * 2 ^ 8 + paging_offst (add64 rg.rg_start offset))
      (v.entries (paging_pgn (add64 rg.rg_start offset)))

pub IsRegionByte-Kept :
    (a b : Krnl) (rgid : ℕ) (rg : Region) (offset : ℕ)
    → Kept a b
    → IsRegionByte a rgid rg offset
    → IsRegionByte b rgid rg offset
IsRegionByte-Kept a b rgid rg offset k v = record {
  symbol = v.symbol;
  region = ap (λ t. get_elem? t rgid) k.symbols ∙ v.region;
  allocated = v.allocated;
  within = v.within;
  resident = record {
    present =
        ap (λ e. page_present (e % u32_mod) == 0)
          (k.entries (paging_pgn (add64 rg.rg_start offset)))
        ∙ v.resident.present;
    random = k.random ∙ v.resident.random;
    inside = rw (place-Kept a b rg offset k, k.size) v.resident.inside;
  };
}

-- both sides of a copy
pub record BothKept (v w : World) : Type 0 where
  pub user : Kept (inside_call v) (inside_call w)
  pub kernel : Kept v.krnl w.krnl

pub BothKept-refl : (w : World) → BothKept w w
BothKept-refl w = record { user = Kept-refl (inside_call w); kernel = Kept-refl w.krnl }

pub BothKept-trans : (u v w : World) → BothKept u v → BothKept v w → BothKept u w
BothKept-trans u v w a b = record {
  user = Kept-trans (inside_call u) (inside_call v) (inside_call w) a.user b.user;
  kernel = Kept-trans u.krnl v.krnl w.krnl a.kernel b.kernel;
}
