-- ===== src/Memphy/Access.antt =====
-- src/mm-memphy.c: reads and writes of one byte.
use os.Prelude.{
  ℕ, ◌%◌, ◌≡◌, ◌<◌, ◌≤◌, ◌≢◌, refl, ◌∙◌, true, false, none, some, arith, lt→ltb, ◌==◌, ok, fault,
  success, failure, ==_iff, if◌then◌else◌,
}
use os.Memphy.{Memphy, load, store, read, write, seq_read, seq_write}

-- the device with one byte written
abbrev pub poke : Memphy → ℕ → ℕ → Memphy
poke mp addr value = record mp { cells = λ a. if addr == a then value % 256 else mp.cells a }

pub write_ram :
    (mp : Memphy) (addr value : ℕ)
    → mp.rdmflg ≡ true
    → addr < mp.size
    → write mp addr value ≡ ok (success, poke mp addr value)
unfolding write store
write_ram mp addr value r h = rw (r, lt→ltb _ _ h)

pub read_ram :
    (mp : Memphy) (addr : ℕ)
    → mp.rdmflg ≡ true
    → addr < mp.size
    → read mp addr ≡ ok (some (mp.cells addr), mp)
unfolding read load
read_ram mp addr r h = rw (r, lt→ltb _ _ h)

-- On a random access device a byte that is written inside the storage is read back, every other
-- byte and the free frames stay, and the write succeeds.
pub read-write :
    (mp : Memphy) (addr value : ℕ)
    → mp.rdmflg ≡ true
    → addr < mp.size
    → (t : Memphy) × (write mp addr value ≡ ok (success, t))
      × (read t addr ≡ ok (some (value % 256), t))
      × ((a : ℕ) → addr ≢ a → t.cells a ≡ mp.cells a)
      × (t.free_fp_list ≡ mp.free_fp_list)
read-write mp addr value r h = (
  poke mp addr value,
  write_ram mp addr value r h,
  read_ram (poke mp addr value) addr r h ∙ rw ((==_iff addr addr).1 refl),
  λ a d. ground arith,
  refl,
)

-- A serial device can be neither read nor written: every access returns -1 and changes nothing,
-- whatever the address.
pub serial_refuses :
    (mp : Memphy) (addr value : ℕ)
    → mp.rdmflg ≡ false
    → (read mp addr ≡ ok (none, mp)) × (write mp addr value ≡ ok (failure, mp))
unfolding read write seq_read seq_write
serial_refuses mp addr value r = (rw r, rw r)

-- A random access outside the storage faults.
pub outside_faults :
    (mp : Memphy) (addr value : ℕ)
    → mp.rdmflg ≡ true
    → mp.size ≤ addr
    → (read mp addr ≡ fault) × (write mp addr value ≡ fault)
unfolding read write load store
outside_faults mp addr value r h = (ground arith, ground arith)
