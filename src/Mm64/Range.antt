-- ===== src/Mm64/Range.antt =====
-- src/mm64.c: `vmap_page_range` maps a run of pages to the frames of a list.
use os.Prelude.{
  ℕ, zero, suc, ◌+◌, ◌%◌, ◌^◌, ◌≤◌, ◌<◌, ◌≡◌, ◌≢◌, refl, ap, ◌∙◌, ◌⊎◌, false, some, List, [], ◌∷◌,
  arith, length, get_elem?, ok, fault, inl, inr, ==_iff,
}
use native.Mathlib.Nat.{add-zero}
use mathlib.Core.Option.{some-injective}
use os.Prelude.Words.{add64}
use os.Pte.{set_fpn}
use os.PageTable.{pte_set_fpn}
use os.PageTable.Entries.{entry, same_page, entry-set_fpn}
use os.Mm.{Krnl}
use os.Mm64.{enlist_pgn_node, map_loop}

-- the pages from `pgn` on, newest first
abbrev pub pages_before : ℕ → ℕ → List ℕ → List ℕ
pages_before zero pgn fifo = fifo
pages_before (suc n) pgn fifo = pages_before n (pgn + 1) (pgn ∷ fifo)

-- one round of the loop
abbrev mapped : Krnl → ℕ → ℕ → Krnl
mapped krnl pgn fpn = record krnl {
  mm = record (krnl.mm) {
    pgd = pte_set_fpn krnl.mm.pgd pgn fpn;
    fifo_pgn = enlist_pgn_node krnl.mm.fifo_pgn pgn;
  };
}

-- What the loop does: page `pgn + i` gets frame `i`, the pages outside the run keep their entries,
-- the pages are put into the queue in order, and nothing else changes.
pub record IsMapped (krnl krnl' : Krnl) (pgn n : ℕ) (frames : List ℕ) : Type 0 where
  pub frame :
      (i f : ℕ)
      → i < n
      → get_elem? frames i ≡ some f
      → entry krnl'.mm.pgd (pgn + i) ≡ set_fpn (entry krnl.mm.pgd (pgn + i)) f
  pub outside :
      (q : ℕ) → q < pgn ⊎ (pgn + n ≤ q) × (q < 2 ^ 45) → entry krnl'.mm.pgd q ≡ entry krnl.mm.pgd q
  pub queued : krnl'.mm.fifo_pgn ≡ pages_before n pgn krnl.mm.fifo_pgn
  pub rest :
      krnl'
      ≡ record krnl { mm = record (krnl.mm) { pgd = krnl'.mm.pgd; fifo_pgn = krnl'.mm.fifo_pgn } }

entry_at :
    (krnl : Krnl) (pgn f : ℕ)
    → entry (mapped krnl pgn f).mm.pgd pgn ≡ set_fpn (entry krnl.mm.pgd pgn) f
entry_at krnl pgn f =
    entry-set_fpn krnl.mm.pgd pgn pgn f ∙ rw ((==_iff (pgn % 2 ^ 45) (pgn % 2 ^ 45)).1 refl)

entry_ne :
    (krnl : Krnl) (pgn f q : ℕ)
    → pgn < 2 ^ 45
    → q < 2 ^ 45
    → q ≢ pgn
    → entry (mapped krnl pgn f).mm.pgd q ≡ entry krnl.mm.pgd q
entry_ne krnl pgn f q b c d = entry-set_fpn krnl.mm.pgd pgn q f ∙ rw (other pgn q b c d)
  where
    other : (p q : ℕ) → p < 2 ^ 45 → q < 2 ^ 45 → q ≢ p → same_page p q ≡ false
    other p q b c d = ground arith

IsMapped-cons :
    (krnl krnl' : Krnl) (pgn n f : ℕ) (frames : List ℕ)
    → pgn + suc n ≤ 2 ^ 45
    → IsMapped (mapped krnl pgn f) krnl' (pgn + 1) n frames
    → IsMapped krnl krnl' pgn (suc n) (f ∷ frames)
unfolding enlist_pgn_node
IsMapped-cons krnl krnl' pgn n f frames b m = record {
  frame = framed;
  outside = around;
  queued = m.queued;
  rest = m.rest;
}
  where
    framed :
        (i g : ℕ)
        → i < suc n
        → get_elem? (f ∷ frames) i ≡ some g
        → entry krnl'.mm.pgd (pgn + i) ≡ set_fpn (entry krnl.mm.pgd (pgn + i)) g
    framed zero g l e = rw (add-zero pgn) (
        m.outside pgn (inl (omega arith))
        ∙ entry_at krnl pgn f
        ∙ ap (set_fpn (entry krnl.mm.pgd pgn)) (some-injective f g e))
    framed (suc i) g l e = rw (shift_one pgn i) (
        m.frame i g (omega arith) e
        ∙ ap (λ v. set_fpn v g)
            (entry_ne krnl pgn f (pgn + 1 + i) (omega arith) (omega arith) (omega arith)))
      where
        shift_one : (p i : ℕ) → p + suc i ≡ p + 1 + i
        shift_one p i = omega arith

    around :
        (q : ℕ)
        → q < pgn ⊎ (pgn + suc n ≤ q) × (q < 2 ^ 45)
        → entry krnl'.mm.pgd q ≡ entry krnl.mm.pgd q
    around q (inl l) =
        m.outside q (inl (omega arith))
        ∙ entry_ne krnl pgn f q (omega arith) (omega arith) (omega arith)
    around q (inr (l, c)) =
        m.outside q (inr (omega arith, c)) ∙ entry_ne krnl pgn f q (omega arith) c (omega arith)

-- With a frame for each of the `n` pages from `pgn` on, the loop does not fault, and it maps
-- the pages to the frames.
pub map_loop_lem :
    (n pgn : ℕ) (frames : List ℕ) (krnl : Krnl)
    → n ≤ length frames
    → pgn + n ≤ 2 ^ 45
    → (krnl' : Krnl) × (map_loop n pgn frames krnl ≡ ok krnl') × IsMapped krnl krnl' pgn n frames
unfolding map_loop
map_loop_lem zero pgn frames krnl h b = (
  krnl,
  refl,
  record {
    frame = λ i f l e. absurd (omega arith);
    outside = λ q o. refl;
    queued = refl;
    rest = refl;
  },
)
map_loop_lem (suc n) pgn [] krnl h b = absurd (omega arith)
map_loop_lem (suc n) pgn (f ∷ frames) krnl h b =
    let (k', e, m) =
      map_loop_lem n (pgn + 1) frames (mapped krnl pgn f) (omega arith) (omega arith) in
    (k', rw (no_wrap pgn b) e, IsMapped-cons krnl k' pgn n f frames b m)
  where
    no_wrap : (p : ℕ) → p + suc n ≤ 2 ^ 45 → add64 p 1 ≡ p + 1
    no_wrap p b = omega arith

-- A run that has fewer frames than pages faults.
pub map_loop_short :
    (n pgn : ℕ) (frames : List ℕ) (krnl : Krnl)
    → length frames < n
    → map_loop n pgn frames krnl ≡ fault
unfolding map_loop
map_loop_short zero pgn frames krnl h = absurd (omega arith)
map_loop_short (suc n) pgn [] krnl h = refl
map_loop_short (suc n) pgn (f ∷ frames) krnl h =
    map_loop_short n (add64 pgn 1) frames _ (omega arith)
