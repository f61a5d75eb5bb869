-- ===== src/Kmem/Caches.antt =====
-- src/libmem.c: calls of __kmem_cache_alloc, one after another, on one pool.
use os.Prelude.{
  ℕ, suc, ◌+◌, ◌*◌, ◌%◌, ◌^◌, ◌≤◌, ◌<◌, ◌≡◌, refl, ap, ◌∙◌, arith, false, leb, ◌||◌, ◌==◌, List, [],
  ◌∷◌, Option, some, Exec, ok, ◌>>=◌, length, set, get_elem?, All, length-set, get_elem?-set_self,
  get_elem?-lt, lt→ltb,
}
use mathlib.Core.List.{map}
use mathlib.Core.Path.{subst}
use native.Mathlib.Nat.{suc-mul}
use os.Prelude.Words.{u64_mod, add64}
use os.Mm.{Region, KcachePool, Krnl}
use os.Libmem.{set_symrg}
use os.Kmem.{register, set_pool, slot_of, carve, kmem_cache_alloc}
use os.Kmem.Slots.{aligned_slot}

-- a call for each of the region numbers
unfoldable pub alloc_slots : Krnl → ℕ → List ℕ → Exec (List (Option ℕ) × Krnl)
alloc_slots krnl id [] = ok ([], krnl)
alloc_slots krnl id (rgid ∷ rgids) = do
  (addr, krnl') ← kmem_cache_alloc krnl rgid id
  (addrs, krnl'') ← alloc_slots krnl' id rgids
  ok (addr ∷ addrs, krnl'')

-- the pool `id` of a kernel, with the table of variables that goes with it
pub record HasPool (krnl : Krnl) (id : ℕ) (pool : KcachePool) : Type 0 where
  pub pools : List KcachePool
  pub table : krnl.mm.kcpooltbl ≡ some pools
  pub entry : get_elem? pools id ≡ some pool
  pub symbols : length krnl.mm.symrgtbl ≡ 30

abbrev pub slot_region : KcachePool → Region
slot_region pool = record { rg_start = slot_of pool; rg_end = add64 (slot_of pool) pool.size }

abbrev pub next_pool : KcachePool → KcachePool
next_pool pool = record pool { storage = add64 (slot_of pool) pool.size }

-- the kernel after a slot went to the variable `rgid`
abbrev pub allotted : Krnl → ℕ → ℕ → KcachePool → List KcachePool → Krnl
allotted krnl rgid id pool pools = record krnl {
  mm = record (krnl.mm) {
    symrgtbl = set krnl.mm.symrgtbl rgid (slot_region pool);
    kcpooltbl = some (set pools id (next_pool pool));
  };
}

has_size : (n : ℕ) → 0 < n → n < 2 ^ 31 → (n == 0 || leb (2 ^ 31) n) ≡ false
has_size n p q = ground arith

module _ (krnl : Krnl) (id : ℕ) (pool : KcachePool) (v : HasPool krnl id pool) where
  kmem_cache_alloc_lem :
      (rgid : ℕ)
      → rgid < 30
      → 0 < pool.size
      → pool.size < 2 ^ 31
      → kmem_cache_alloc krnl rgid id ≡ ok (some (slot_of pool), allotted krnl rgid id pool v.pools)
  unfolding kmem_cache_alloc carve register set_symrg set_pool
  kmem_cache_alloc_lem rgid r p q =
      rw
        (
          kmem_cache_alloc,
          v.table,
          v.entry,
          has_size pool.size p q,
          lt→ltb rgid 30 r,
          v.symbols,
          lt→ltb rgid 30 r,
          v.table,
          lt→ltb id (length v.pools) (get_elem?-lt v.pools id pool v.entry),
        )
        refl

  allotted-HasPool : (rgid : ℕ) → HasPool (allotted krnl rgid id pool v.pools) id (next_pool pool)
  allotted-HasPool rgid = record {
    pools = set v.pools id (next_pool pool);
    table = refl;
    entry = get_elem?-set_self v.pools id _ (get_elem?-lt v.pools id pool v.entry);
    symbols = length-set krnl.mm.symrgtbl rgid _ ∙ v.symbols;
  }

-- addresses at multiples of `m`, from `from` on, each `size` bytes or more above the one before it
abbrev pub Apart : ℕ → ℕ → ℕ → List ℕ → Type 0
Apart m size from [] = Unit
Apart m size from (a ∷ addrs) = (a % m ≡ 0) × (from ≤ a) × Apart m size (a + size) addrs

-- a table of symbols after regions of `size` bytes were written to it in turn
abbrev pub registered : ℕ → List ℕ → List ℕ → List Region → List Region
registered size [] addrs table = table
registered size (r ∷ rs) [] table = table
registered size (r ∷ rs) (a ∷ addrs) table =
    registered size rs addrs (set table r (record { rg_start = a; rg_end = a + size }))

-- Calls of kmem_cache_alloc on one pool with an alignment of 2 ^ k bytes, for any list of region
-- numbers below 30: every one of them succeeds, as long as addresses stay below 2 ^ 64, also when the
-- slots go beyond the storage that the pool was created with. The slots are aligned, lie behind
-- the pool's free storage and do not overlap, and each is written to its entry of the symbol table.
pub alloc_slots-Apart :
    (krnl : Krnl) (id k : ℕ) (pool : KcachePool) (rgids : List ℕ)
    → HasPool krnl id pool
    → All (λ r. r < 30) rgids
    → 0 < k
    → k < 31
    → pool.align ≡ 2 ^ k
    → 0 < pool.size
    → pool.size < 2 ^ 31
    → pool.storage + length rgids * (pool.size + 2 ^ k) + 2 ^ k < u64_mod
    → (addrs : List ℕ) × (krnl' : Krnl) × (alloc_slots krnl id rgids ≡ ok (map some addrs, krnl'))
      × (length addrs ≡ length rgids)
      × Apart (2 ^ k) pool.size pool.storage addrs
      × (krnl'.mm.symrgtbl ≡ registered pool.size rgids addrs krnl.mm.symrgtbl)
unfolding alloc_slots
alloc_slots-Apart krnl id k pool [] v rs pk qk al p q b = ([], krnl, refl, refl, tt, refl)
alloc_slots-Apart krnl id k pool (r ∷ rgids) v (h, rs) pk qk al p q b =
    let m = pool.size + 2 ^ k in
    let (aligned, above, near) =
      aligned_slot pool k pk qk al (omega (arith, suc-mul (length rgids) m, b)) in
    let end : add64 (slot_of pool) pool.size ≡ slot_of pool + pool.size =
      exact_end (slot_of pool) near (omega (arith, suc-mul (length rgids) m, b)) in
    let (addrs, krnl', run, len, apart, table) =
      alloc_slots-Apart (allotted krnl r id pool v.pools) id k (next_pool pool) rgids
        (allotted-HasPool krnl id pool v r) rs pk qk al p q
        (omega (arith, suc-mul (length rgids) m, b, end, near)) in
    (
      slot_of pool ∷ addrs,
      krnl',
      rw (kmem_cache_alloc_lem krnl id pool v r h p q, run) refl,
      ap suc len,
      (aligned, above, subst (λ from. Apart (2 ^ k) pool.size from addrs) end apart),
      table
          ∙ ap
              (λ e.
                registered pool.size rgids addrs
                  (set krnl.mm.symrgtbl r (record { rg_start = slot_of pool; rg_end = e })))
              end,
    )
  where
    exact_end :
        (slot : ℕ)
        → slot < pool.storage + 2 ^ k
        → pool.storage + 2 ^ k + pool.size < u64_mod
        → add64 slot pool.size ≡ slot + pool.size
    exact_end slot near room = omega (arith, near, room)
