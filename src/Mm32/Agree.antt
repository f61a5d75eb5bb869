-- ===== src/Mm32/Agree.antt =====
-- src/mm.c and src/mm64.c: the page tables of the two builds.
use os.Prelude.{ℕ, ◌*◌, ◌%◌, ◌^◌, ◌<◌, ◌≡◌, refl, ◌∙◌, List, [], ◌∷◌, arith, ◌==◌, All}
use os.Prelude.Words.{u32_mod, u64_mod}
use os.Pte.{set_fpn, set_swap, init_pte}
use os.PageTable.{Pgd, pte_set_entry, pte_set_fpn, pte_set_swap}
use os.PageTable.Entries.{entry, same_page, entries_refine}
use os.Mm32.{FlatTable, flat_set_swap, flat_set_fpn, flat_set_entry, flat_init_pte}

-- the updates that both builds have
pub data Update : Type 0 where
  to_fpn : ℕ → ℕ → Update
  to_swap : ℕ → ℕ → ℕ → Update
  to_entry : ℕ → ℕ → Update

-- page numbers and values that an `addr_t` of 32 bits holds, and swap offsets that stay in it
abbrev pub Small : Update → Type 0
Small (to_fpn pgn fpn) = (pgn < u32_mod) × (fpn < u32_mod)
Small (to_swap pgn swptyp swpoff) = (pgn < u32_mod) × (swptyp < u32_mod) × (swpoff < 2 ^ 27)
Small (to_entry pgn v) = pgn < u32_mod

abbrev pub run64 : List Update → Pgd → Pgd
run64 [] pgd = pgd
run64 (to_fpn pgn fpn ∷ us) pgd = run64 us (pte_set_fpn pgd pgn fpn)
run64 (to_swap pgn swptyp swpoff ∷ us) pgd = run64 us (pte_set_swap pgd pgn swptyp swpoff)
run64 (to_entry pgn v ∷ us) pgd = run64 us (pte_set_entry pgd pgn v)

abbrev pub run32 : List Update → FlatTable → FlatTable
run32 [] pgd = pgd
run32 (to_fpn pgn fpn ∷ us) pgd = run32 us (flat_set_fpn pgd pgn fpn)
run32 (to_swap pgn swptyp swpoff ∷ us) pgd = run32 us (flat_set_swap pgd pgn swptyp swpoff)
run32 (to_entry pgn v ∷ us) pgd = run32 us (flat_set_entry pgd pgn v)

-- the same entries for the pages of 32-bit numbers
abbrev pub Agree : Pgd → FlatTable → Type 0
Agree pgd flat = (q : ℕ) → q < u32_mod → entry pgd q ≡ flat q

same_page_small : (p q : ℕ) → p < u32_mod → q < u32_mod → same_page p q ≡ (p == q)
same_page_small p q a b = ground arith

same_mods : (x : ℕ) → x < u32_mod → x % u64_mod ≡ x % u32_mod
same_mods x h = omega arith

fits : (v off : ℕ) → v * 2 ^ off < u32_mod → (v * 2 ^ off % u64_mod) ≡ (v * 2 ^ off % u32_mod)
fits v off h = same_mods (v * 2 ^ off) h

Agree-fpn :
    (pgd : Pgd) (flat : FlatTable) (p fpn : ℕ)
    → p < u32_mod
    → fpn < u32_mod
    → Agree pgd flat
    → Agree (pte_set_fpn pgd p fpn) (flat_set_fpn flat p fpn)
unfolding flat_set_fpn set_fpn
Agree-fpn pgd flat p fpn hp hf h q hq =
    (entries_refine pgd p q fpn 0).3
    ∙ rw (same_page_small p q hp hq, h p hp, h q hq, fits fpn 0 (omega arith)) refl

Agree-swap :
    (pgd : Pgd) (flat : FlatTable) (p typ off : ℕ)
    → p < u32_mod
    → typ < u32_mod
    → off < 2 ^ 27
    → Agree pgd flat
    → Agree (pte_set_swap pgd p typ off) (flat_set_swap flat p typ off)
unfolding flat_set_swap set_swap
Agree-swap pgd flat p typ off hp ht ho h q hq =
    (entries_refine pgd p q off typ).4
    ∙ rw
        (
          same_page_small p q hp hq,
          h p hp,
          h q hq,
          fits typ 0 (omega arith),
          fits off 5 (omega arith),
        )
        refl

Agree-entry :
    (pgd : Pgd) (flat : FlatTable) (p v : ℕ)
    → p < u32_mod
    → Agree pgd flat
    → Agree (pte_set_entry pgd p v) (flat_set_entry flat p v)
unfolding flat_set_entry
Agree-entry pgd flat p v hp h q hq =
    (entries_refine pgd p q v 0).2 ∙ rw (same_page_small p q hp hq, h q hq) refl

-- The two builds set up an entry in the same way.
flat_init_pte-init_pte :
    (pte pre fpn swp swptyp swpoff : ℕ)
    → fpn < u32_mod
    → swptyp < u32_mod
    → swpoff < 2 ^ 27
    → flat_init_pte pte pre fpn swp swptyp swpoff ≡ init_pte pte pre fpn swp swptyp swpoff
unfolding flat_init_pte init_pte
flat_init_pte-init_pte pte pre fpn swp swptyp swpoff a b d =
    rw (fits fpn 0 (omega arith), fits swptyp 0 (omega arith), fits swpoff 5 (omega arith)) refl

-- The five-level table and the flat table hold the same entries after any updates that have the same
-- entries before, for the pages with 32-bit numbers, when all page numbers, frame numbers and swap
-- types are below 2 ^ 32 and all swap offsets below 2 ^ 27.
pub run64-run32 :
    (us : List Update) (pgd : Pgd) (flat : FlatTable)
    → All Small us
    → Agree pgd flat
    → Agree (run64 us pgd) (run32 us flat)
run64-run32 [] pgd flat hs h = h
run64-run32 (to_fpn p fpn ∷ us) pgd flat ((a, b), hs) h =
    run64-run32 us _ _ hs (Agree-fpn pgd flat p fpn a b h)
run64-run32 (to_swap p typ off ∷ us) pgd flat ((a, b, d), hs) h =
    run64-run32 us _ _ hs (Agree-swap pgd flat p typ off a b d h)
run64-run32 (to_entry p v ∷ us) pgd flat (a, hs) h =
    run64-run32 us _ _ hs (Agree-entry pgd flat p v a h)
