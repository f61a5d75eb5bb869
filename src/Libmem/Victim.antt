-- ===== src/Libmem/Victim.antt =====
-- src/libmem.c: find_victim_page with enlist_pgn_node of src/mm64.c is a first-in first-out queue.
use os.Prelude.{ℕ, zero, suc, ◌≡◌, refl, ap, ◌∙◌, none, some, List, [], ◌∷◌, ◌++◌, length}
use os.Mm64.{enlist_pgn_node}
use os.Libmem.{victim_loop, find_victim_page}

-- the pages enlisted one after another
unfoldable pub enlist_all : List ℕ → List ℕ → List ℕ
enlist_all [] fifo = fifo
enlist_all (pgn ∷ pgns) fifo = enlist_all pgns (enlist_pgn_node fifo pgn)

-- the victims that `n` searches find, until one finds none
unfoldable pub victims : ℕ → List ℕ → List ℕ
victims zero fifo = []
victims (suc n) fifo =
    let found = find_victim_page fifo in
    let rest = victims n found.1 in elim found.0 [ none ↦ [] | some pgn ↦ pgn ∷ rest ]

victim_last :
    (pg : ℕ) (pgns : List ℕ) (last : ℕ) → victim_loop pg (pgns ++ last ∷ []) ≡ (last, pg ∷ pgns)
unfolding victim_loop
victim_last pg [] last = refl
victim_last pg (next ∷ pgns) last = rw (victim_last next pgns last)

find_last : (pgns : List ℕ) (last : ℕ) → find_victim_page (pgns ++ last ∷ []) ≡ (some last, pgns)
unfolding find_victim_page victim_loop
find_last [] last = refl
find_last (pg ∷ pgns) last = rw (victim_last pg pgns last)

enlist_behind :
    (pgns fifo : List ℕ) (last : ℕ)
    → enlist_all pgns (fifo ++ last ∷ []) ≡ enlist_all pgns fifo ++ last ∷ []
unfolding enlist_all enlist_pgn_node
enlist_behind [] fifo last = refl
enlist_behind (pgn ∷ pgns) fifo last = enlist_behind pgns (pgn ∷ fifo) last

victims-last :
    (n : ℕ) (fifo : List ℕ) (last : ℕ) → victims (suc n) (fifo ++ last ∷ []) ≡ last ∷ victims n fifo
unfolding victims
victims-last n fifo last =
    rw (find_last fifo last, victims) (ap (λ f. last ∷ victims n f.1) (find_last fifo last))

-- The victims are the pages in the order in which they were enlisted.
pub victims-enlist_all : (pgns : List ℕ) → victims (length pgns) (enlist_all pgns []) ≡ pgns
unfolding victims enlist_all enlist_pgn_node
victims-enlist_all [] = refl
victims-enlist_all (pgn ∷ pgns) =
    ap (victims (length (pgn ∷ pgns))) (enlist_behind pgns [] pgn)
    ∙ victims-last (length pgns) (enlist_all pgns []) pgn
    ∙ ap (λ l. pgn ∷ l) (victims-enlist_all pgns)

-- Pages that are enlisted while the list is not empty do not change the next victim: it is the
-- last page of the list, and the rest of the list stays behind the new pages.
pub victim_is_oldest :
    (pgns fifo : List ℕ) (oldest : ℕ)
    → find_victim_page (enlist_all pgns (fifo ++ oldest ∷ [])) ≡ (some oldest, enlist_all pgns fifo)
victim_is_oldest pgns fifo oldest =
    rw (enlist_behind pgns fifo oldest) (find_last (enlist_all pgns fifo) oldest)
