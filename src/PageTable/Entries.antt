-- ===== src/PageTable/Entries.antt =====
-- src/mm64.c: the operations on page table entries implement a map from page numbers to entries.
-- Only the low 45 bits of a page number select an entry.
use os.Prelude.{
  ℕ, ◌%◌, ◌^◌, ◌≡◌, refl, ap, ◌∙◌, Bool, true, false, none, some, arith, ◌==◌, if◌then◌else◌,
  Bool-cases, inl, inr, ◌⊎◌,
}
use os.Prelude.Words.{u32_mod}
use os.Pte.{set_fpn, set_swap}
use os.Pte.Address.{get_pd_from_pagenum_lem}
use os.PageTable.{
  Pgd, route_of, walk_create, walk_finds, deref, assign, mm64_page_walk, pte_get_entry,
  pte_set_entry, pte_set_fpn, pte_set_swap,
}
use os.PageTable.Walk.{
  same_route, deref-walk_create, deref-assign, walk_finds-create, deref_of_not_found,
}

-- the entry of a page; 0 where a table is missing
unfoldable pub entry : Pgd → ℕ → ℕ
entry pgd pgn = deref 4 pgd (route_of pgn)

same_route-pgn : (p q : ℕ) → same_route 4 (route_of p) (route_of q) ≡ (p % 2 ^ 45 == q % 2 ^ 45)
unfolding route_of
same_route-pgn p q = ground (arith, get_pd_from_pagenum_lem p, get_pd_from_pagenum_lem q)

-- The low 45 bits of the page numbers agree.
abbrev pub same_page : ℕ → ℕ → Bool
same_page p q = p % 2 ^ 45 == q % 2 ^ 45

entry-walk :
    (pgd : Pgd) (p q : ℕ) → deref 4 (walk_create 4 pgd (route_of p)) (route_of q) ≡ entry pgd q
unfolding entry
entry-walk pgd p q = deref-walk_create 4 pgd (route_of p) (route_of q)

-- `pte_get_entry` returns the low 32 bits of the entry, and leaves every entry as it is.
pub pte_get_entry_lem :
    (pgd : Pgd) (p : ℕ)
    → ((pte_get_entry pgd p).0 ≡ entry pgd p % u32_mod)
      × ((q : ℕ) → entry (pte_get_entry pgd p).1 q ≡ entry pgd q)
unfolding pte_get_entry
pte_get_entry_lem pgd p =
    (ap (λ v. v % u32_mod) (entry-walk pgd p p), λ q. unfold entry in entry-walk pgd p q)

-- writing an entry behind a walk
write_entry :
    (pgd : Pgd) (p q v : ℕ)
    → entry (assign 4 (walk_create 4 pgd (route_of p)) (route_of p) v) q
      ≡ (if same_page p q then v else entry pgd q)
unfolding entry
write_entry pgd p q v =
    deref-assign 4 (walk_create 4 pgd (route_of p)) (route_of p) (route_of q) v
    ∙ rw (same_route-pgn p q, deref-walk_create 4 pgd (route_of p) (route_of q)) refl

pub entry-set_entry :
    (pgd : Pgd) (p q v : ℕ)
    → entry (pte_set_entry pgd p v) q ≡ (if same_page p q then v % u32_mod else entry pgd q)
unfolding pte_set_entry
entry-set_entry pgd p q v = write_entry pgd p q (v % u32_mod)

pub entry-set_fpn :
    (pgd : Pgd) (p q fpn : ℕ)
    → entry (pte_set_fpn pgd p fpn) q
      ≡ (if same_page p q then set_fpn (entry pgd p) fpn else entry pgd q)
unfolding pte_set_fpn
entry-set_fpn pgd p q fpn = rw (← entry-walk pgd p p) (write_entry pgd p q _)

pub entry-set_swap :
    (pgd : Pgd) (p q typ off : ℕ)
    → entry (pte_set_swap pgd p typ off) q
      ≡ (if same_page p q then set_swap (entry pgd p) typ off else entry pgd q)
unfolding pte_set_swap
entry-set_swap pgd p q typ off = rw (← entry-walk pgd p p) (write_entry pgd p q _)

-- The operations on the five-level table implement a map from page numbers to entries: reading
-- gives the low 32 bits of the page's entry and changes none; each of the three writes changes
-- the entry of the pages with the same low 45 bits, to the value cut to 32 bits, to the entry with
-- the frame number, or to the entry with the swap frame, and no other.
pub entries_refine :
    (pgd : Pgd) (p q v typ : ℕ)
    → ((pte_get_entry pgd p).0 ≡ entry pgd p % u32_mod)
      × (entry (pte_get_entry pgd p).1 q ≡ entry pgd q)
      × (entry (pte_set_entry pgd p v) q ≡ (if same_page p q then v % u32_mod else entry pgd q))
      × (entry (pte_set_fpn pgd p v) q
          ≡ (if same_page p q then set_fpn (entry pgd p) v else entry pgd q))
      × (entry (pte_set_swap pgd p typ v) q
          ≡ (if same_page p q then set_swap (entry pgd p) typ v else entry pgd q))
entries_refine pgd p q v typ = (
  (pte_get_entry_lem pgd p).0,
  (pte_get_entry_lem pgd p).1 q,
  entry-set_entry pgd p q v,
  entry-set_fpn pgd p q v,
  entry-set_swap pgd p q typ v,
)

-- A walk without `create` leaves the table as it is, and returns the entry's place, or NULL and
-- then the entry reads as 0. A walk with `create` returns the place, changes no entry, and after it
-- the walk without `create` returns the place too.
pub page_walk_lem :
    (pgd : Pgd) (p q : ℕ)
    → ((mm64_page_walk pgd p false ≡ (some (route_of p), pgd))
        ⊎ (mm64_page_walk pgd p false ≡ (none, pgd)) × (entry pgd p ≡ 0))
      × ((mm64_page_walk pgd p true).0 ≡ some (route_of p))
      × (entry (mm64_page_walk pgd p true).1 q ≡ entry pgd q)
      × ((mm64_page_walk (mm64_page_walk pgd p true).1 p false).0 ≡ some (route_of p))
unfolding mm64_page_walk entry
page_walk_lem pgd p q = (
  elim (Bool-cases (walk_finds 4 pgd (route_of p))) [
    | inl e ↦ inl (rw e)
    | inr e ↦ inr (rw e, deref_of_not_found 4 pgd (route_of p) e)
  ],
  refl,
  deref-walk_create 4 pgd (route_of p) (route_of q),
  rw (walk_finds-create 4 pgd (route_of p)),
)
