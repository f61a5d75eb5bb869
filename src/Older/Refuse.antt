-- ===== src/Older/Refuse.antt =====
-- src/mem.c and src/cpu.c: what the older build does with every allocation and access.
use os.Prelude.{ℕ, ◌<◌, ◌≡◌, refl, lt→ltb, ok, fault, one}
use os.Older.{
  OldProc, get_trans_table, translate, alloc_mem, read_mem, write_mem, reg, old_alloc, store_read,
  old_read, old_write,
}

-- For registers that exist, an allocation and a write are refused and change nothing, and a read uses
-- a byte that it did not read.
pub old_calls_refuse :
    (proc : OldProc) (size r offset destination v : ℕ)
    → r < 10
    → (old_alloc proc size r ≡ ok (one, proc))
      × (old_write proc v r offset ≡ ok one)
      × (old_read proc r offset destination ≡ fault)
unfolding old_alloc old_write old_read alloc_mem read_mem write_mem reg translate get_trans_table
    store_read
old_calls_refuse proc size r offset destination v h =
    (refl, rw (lt→ltb r 10 h) refl, rw (lt→ltb r 10 h) refl)
