-- ===== src/Process/Heap/Grant.antt =====
-- src/libmem.c and src/mm64.c: what an allocation does to the page table of the process and to the
-- free frames.
use os.Prelude.{ℕ, ◌+◌, ◌^◌, ◌≤◌, ◌<◌, ◌≡◌, ◌⊎◌, some, List, length, get_elem?, drop}
use os.Pte.{set_fpn}
use os.PageTable.{Pgd}
use os.PageTable.Entries.{entry}
use os.Memphy.{Memphy}
use os.Memphy.Times.{times}

-- No frame is taken, or the first three are, for three pages from `pgn` on.
pub data Grant (pgd pgd' : Pgd) (free free' : List ℕ) : Type 0 where
  none_taken : pgd' ≡ pgd → ((f : ℕ) → times f free' ≡ times f free) → Grant pgd pgd' free free'
  three_taken :
      (pgn : ℕ)
      → pgn + 3 ≤ 2 ^ 45
      → 3 ≤ length free
      → free' ≡ drop 3 free
      → ((i f : ℕ)
          → i < 3
          → get_elem? free i ≡ some f
          → entry pgd' (pgn + i) ≡ set_fpn (entry pgd (pgn + i)) f)
      → ((q : ℕ) → q < pgn ⊎ (pgn + 3 ≤ q) × (q < 2 ^ 45) → entry pgd' q ≡ entry pgd q)
      → Grant pgd pgd' free free'

-- A device keeps its bytes and its size.
pub record SameBytes (mp mp' : Memphy) : Type 0 where
  pub cells : mp'.cells ≡ mp.cells
  pub size : mp'.size ≡ mp.size
  pub random : mp'.rdmflg ≡ mp.rdmflg
