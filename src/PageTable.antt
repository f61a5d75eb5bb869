-- ===== src/PageTable.antt =====
-- src/mm64.c: the five-level page table and `mm64_page_walk`.
-- A table of 512 entries is a function on its indices. An entry of an inner table is NULL or the
-- address of a table of the next level; no two entries hold the same address, since every table
-- comes from `calloc`, which succeeds. So an inner table is a function to optional tables, and the
-- pointer that the walk returns is the indices on its way.
pub mod Walk
pub mod Entries
use os.Prelude.{
  update, ℕ, zero, suc, ◌%◌, Bool, true, false, Option, none, some, List, [], ◌∷◌, ◌==◌,
  if◌then◌else◌,
}
use os.Prelude.Words.{u32_mod}
use os.Pte.{set_fpn, set_swap}
use os.Pte.Address.{Indices, get_pd_from_pagenum}

-- a table with `n` levels of tables below it
abbrev pub Table : ℕ → Type 0
Table zero = ℕ → ℕ
Table (suc n) = ℕ → Option (Table n)

-- `calloc(512, sizeof(addr_t))`
unfoldable pub calloc : (n : ℕ) → Table n
calloc zero = λ _. 0
calloc (suc n) = λ _. none

-- the way of the walk through the tables, from the outermost
abbrev pub Route : ℕ → Type 0
Route zero = ℕ
Route (suc n) = ℕ × Route n

-- the table behind an entry, or a new one
unfoldable pub table_or_new : (n : ℕ) → Option (Table n) → Table n
table_or_new n none = calloc n
table_or_new n (some t) = t

-- the walk with `create`: the missing tables on the way are allocated and linked
unfoldable pub walk_create : (n : ℕ) → Table n → Route n → Table n
walk_create zero t i = t
walk_create (suc n) t (i, path) = update t i (some (walk_create n (table_or_new n (t i)) path))

-- the walk without `create`: whether it reaches an entry, that is, does not return NULL
unfoldable pub walk_finds : (n : ℕ) → Table n → Route n → Bool
walk_finds zero t i = true
walk_finds (suc n) t (i, path) = elim (t i) [ none ↦ false | some next ↦ walk_finds n next path ]

-- `*pte` and `*pte = value`, for a pointer that the walk with `create` returned
unfoldable pub deref : (n : ℕ) → Table n → Route n → ℕ
deref zero t i = t i
deref (suc n) t (i, path) = deref n (table_or_new n (t i)) path

unfoldable pub assign : (n : ℕ) → Table n → Route n → ℕ → Table n
assign zero t i v = update t i v
assign (suc n) t (i, path) v = update t i (some (assign n (table_or_new n (t i)) path v))

-- the indices of a page number
unfoldable pub route_of : ℕ → Route 4
route_of pgn = let i = get_pd_from_pagenum pgn in (i.pgd, (i.p4d, (i.pud, (i.pmd, i.pt))))

abbrev pub Pgd : Type 0
Pgd = Table 4

-- `mm64_page_walk`: the page table after it, and the pointer, `none` for NULL
unfoldable pub mm64_page_walk : Pgd → ℕ → Bool → Option (Route 4) × Pgd
mm64_page_walk pgd pgn create =
    if create
    then (some (route_of pgn), walk_create 4 pgd (route_of pgn))
    else (if walk_finds 4 pgd (route_of pgn) then some (route_of pgn) else none, pgd)

-- The four operations on the entry of a page, each with a walk that creates. The entry that
-- `pte_get_entry` returns is cut to 32 bits, and `pte_set_entry` takes 32 bits.
unfoldable pub pte_get_entry : Pgd → ℕ → ℕ × Pgd
pte_get_entry pgd pgn =
    let walked = walk_create 4 pgd (route_of pgn) in
    (deref 4 walked (route_of pgn) % u32_mod, walked)

unfoldable pub pte_set_entry : Pgd → ℕ → ℕ → Pgd
pte_set_entry pgd pgn pte_val =
    let walked = walk_create 4 pgd (route_of pgn) in
    assign 4 walked (route_of pgn) (pte_val % u32_mod)

unfoldable pub pte_set_fpn : Pgd → ℕ → ℕ → Pgd
pte_set_fpn pgd pgn fpn =
    let walked = walk_create 4 pgd (route_of pgn) in
    assign 4 walked (route_of pgn) (set_fpn (deref 4 walked (route_of pgn)) fpn)

unfoldable pub pte_set_swap : Pgd → ℕ → ℕ → ℕ → Pgd
pte_set_swap pgd pgn swptyp swpoff =
    let walked = walk_create 4 pgd (route_of pgn) in
    assign 4 walked (route_of pgn) (set_swap (deref 4 walked (route_of pgn)) swptyp swpoff)
