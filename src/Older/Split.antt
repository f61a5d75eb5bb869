-- ===== src/Older/Split.antt =====
-- src/mem.c: the split of an address.
use os.Prelude.{ℕ, ◌+◌, ◌*◌, ◌^◌, ◌<◌, ◌≡◌, arith}
use os.Prelude.Words.{u64_mod}
use os.Older.{get_offset, get_first_lv, get_second_lv}

-- The three parts of a 64-bit address give it back, and the offset and the second index are below
-- 2 ^ 10 and 2 ^ 5.
pub address_parts :
    (addr : ℕ)
    → addr < u64_mod
    → (get_first_lv addr * 2 ^ 15 + get_second_lv addr * 2 ^ 10 + get_offset addr ≡ addr)
      × (get_second_lv addr < 2 ^ 5)
      × (get_offset addr < 2 ^ 10)
unfolding get_first_lv get_second_lv get_offset
address_parts addr h = (omega arith, omega arith, omega arith)
