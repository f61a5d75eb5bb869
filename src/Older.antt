-- ===== src/Older.antt =====
-- src/mem.c, and `alloc`, `free_data`, `read` and `write` of src/cpu.c: the allocator and the memory
-- accesses of the older build, of which only the frame is left: no virtual address is translated.
-- `_ram` is a function from addresses to bytes. `page_table->size`, by which get_trans_table loops over an
-- empty body, is not read here.
pub mod Split
pub mod Refuse
pub mod Dump
use os.Prelude.{
  ℕ, ◌+◌, ◌-◌, ◌*◌, ◌/◌, ◌%◌, ◌^◌, Bool, true, false, Option, none, some, List, [], ◌∷◌, ltb, ◌==◌,
  if◌then◌else◌, Exec, ok, fault, ◌>>=◌, Rc, success, one, update,
}
use os.Prelude.Words.{u32_mod, u64_mod, add64}

abbrev pub offset_len : ℕ
offset_len = 10

abbrev pub page_len : ℕ
page_len = 5

abbrev pub page_size : ℕ
page_size = 2 ^ offset_len

-- the split of an address of 64 bits
unfoldable pub get_offset : ℕ → ℕ
get_offset addr = addr % 2 ^ offset_len

unfoldable pub get_first_lv : ℕ → ℕ
get_first_lv addr = addr / 2 ^ (offset_len + page_len)

unfoldable pub get_second_lv : ℕ → ℕ
get_second_lv addr =
    (addr / 2 ^ offset_len + (u64_mod - get_first_lv addr * 2 ^ page_len % u64_mod)) % u64_mod

-- `struct trans_table_t`: the indices of its entries
abbrev pub TransTable : Type 0
TransTable = List ℕ

unfoldable pub get_trans_table : ℕ → Option TransTable
get_trans_table index = none

-- the loop of `translate` over the entries
unfoldable pub find_index : ℕ → TransTable → Bool
find_index second_lv [] = false
find_index second_lv (v ∷ vs) =
    let rest = find_index second_lv vs in if v == second_lv then true else rest

-- `translate`; `physical_addr` is not written on any path
unfoldable pub translate : ℕ → Bool
translate virtual_addr = elim (get_trans_table (get_first_lv virtual_addr)) [
  | none ↦ false
  | some table ↦ find_index (get_second_lv virtual_addr) table
]

-- the fields of a process that this build uses
pub record OldProc : Type 0 where
  pub regs : ℕ → ℕ
  pub bp : ℕ

unfoldable pub init_mem : (ℕ → ℕ) → ℕ → ℕ
init_mem ram = λ a. if ltb a (2 ^ 20) then 0 else ram a

unfoldable pub num_pages : ℕ → ℕ
num_pages size = if size % page_size == 0 then size / page_size + 1 else size / page_size

-- `alloc_mem`; `mem_avail` is 0 always
unfoldable pub alloc_mem : Bool → ℕ → OldProc → ℕ × OldProc
alloc_mem mem_avail size proc =
    if mem_avail
    then (proc.bp, record proc { bp = (proc.bp + num_pages size * page_size) % u32_mod })
    else (0, proc)

unfoldable pub free_mem : ℕ → OldProc → Rc
free_mem address proc = success

-- The byte at an uninitialised `physical_addr` is a fault.
unfoldable pub read_mem : ℕ → Exec (Rc × Option ℕ)
read_mem address = if translate address then fault else ok (one, none)

unfoldable pub write_mem : ℕ → ℕ → Exec Rc
write_mem address value = if translate address then fault else ok one

-- a register; there are 10
unfoldable pub reg : OldProc → ℕ → Exec ℕ
reg proc i = if ltb i 10 then ok (proc.regs i) else fault

unfoldable pub set_reg : OldProc → ℕ → ℕ → Exec OldProc
set_reg proc i v = if ltb i 10 then ok (record proc { regs = update proc.regs i v }) else fault

unfoldable pub old_alloc : OldProc → ℕ → ℕ → Exec (Rc × OldProc)
old_alloc proc size reg_index =
    let (addr, proc') = alloc_mem false size proc in
    let kept = (do proc'' ← set_reg proc' reg_index addr; ok (success, proc'')) in
    if addr == 0 then ok (one, proc') else kept

unfoldable pub old_free_data : OldProc → ℕ → Exec Rc
old_free_data proc reg_index = do address ← reg proc reg_index; ok (free_mem address proc)

-- The result of `read_mem` is tested for being non-zero, which it is when nothing was read: then
-- `data` is used uninitialised.
unfoldable pub store_read : OldProc → ℕ → Rc × Option ℕ → Exec (Rc × OldProc)
store_read proc destination (success, byte) = ok (one, proc)
store_read proc destination (_, none) = fault
store_read proc destination (_, some byte) = do
  proc' ← set_reg proc destination byte
  ok (success, proc')

unfoldable pub old_read : OldProc → ℕ → ℕ → ℕ → Exec (Rc × OldProc)
old_read proc source offset destination = do
  base ← reg proc source
  result ← read_mem (add64 base offset)
  store_read proc destination result

unfoldable pub old_write : OldProc → ℕ → ℕ → ℕ → Exec Rc
old_write proc value destination offset = do
  base ← reg proc destination
  write_mem (add64 base offset) value
