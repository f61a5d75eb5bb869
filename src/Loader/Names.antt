-- ===== src/Loader/Names.antt =====
-- src/loader.c: the words of the opcodes and the arguments that each one has.
use os.Prelude.{ℕ, ◌%◌, ◌<◌, ◌≡◌, refl, arith, List, [], ◌∷◌, some, false, ltb, All}
use os.Cpu.{Opcode, Inst}
use os.Loader.{long, text_length, get_opcode, set_args}
use os.Loader.Files.{limit, IsWord, name_of, used_args}
use os.Prelude.Words.{u64_mod}

-- The opcodes whose words have at most 9 characters.
abbrev pub IsShort : Opcode → Type 0
IsShort Opcode.kmem_cache_create = ⊥
IsShort Opcode.kmem_cache_alloc = ⊥
IsShort Opcode.copy_from_user = ⊥
IsShort Opcode.copy_to_user = ⊥
IsShort Opcode.unknown = ⊥
IsShort _ = Unit

-- Two programs with the same opcodes and the same arguments, as far as these are used.
abbrev pub Agree : List Inst → List Inst → Type 0
Agree [] [] = Unit
Agree [] (y ∷ ys) = ⊥
Agree (x ∷ xs) [] = ⊥
Agree (x ∷ xs) (y ∷ ys) =
    (x.opcode ≡ y.opcode) × (used_args x x.opcode ≡ used_args y y.opcode) × Agree xs ys

pub get_opcode-name_of : (op : Opcode) → IsShort op → get_opcode (name_of op) ≡ some op
unfolding get_opcode
get_opcode-name_of Opcode.calc h = refl
get_opcode-name_of Opcode.alloc h = refl
get_opcode-name_of Opcode.free h = refl
get_opcode-name_of Opcode.read h = refl
get_opcode-name_of Opcode.write h = refl
get_opcode-name_of Opcode.syscall h = refl
get_opcode-name_of Opcode.kmalloc h = refl
get_opcode-name_of Opcode.kmem_cache_create h = absurd h
get_opcode-name_of Opcode.kmem_cache_alloc h = absurd h
get_opcode-name_of Opcode.copy_from_user h = absurd h
get_opcode-name_of Opcode.copy_to_user h = absurd h
get_opcode-name_of Opcode.unknown h = absurd h

pub short_name : (op : Opcode) → IsShort op → ltb 9 (text_length (name_of op)) ≡ false
short_name Opcode.calc h = refl
short_name Opcode.alloc h = refl
short_name Opcode.free h = refl
short_name Opcode.read h = refl
short_name Opcode.write h = refl
short_name Opcode.syscall h = refl
short_name Opcode.kmalloc h = refl
short_name Opcode.kmem_cache_create h = absurd h
short_name Opcode.kmem_cache_alloc h = absurd h
short_name Opcode.copy_from_user h = absurd h
short_name Opcode.copy_to_user h = absurd h
short_name Opcode.unknown h = absurd h

-- The arguments of an instruction have 64 bits.
abbrev pub IsSmall : Inst → Type 0
IsSmall i = All (λ n. n < limit long) (used_args i i.opcode)

pub name_of-IsWord : (op : Opcode) → 0 < text_length (name_of op) → IsWord (name_of op)
name_of-IsWord Opcode.calc h = (refl, h)
name_of-IsWord Opcode.alloc h = (refl, h)
name_of-IsWord Opcode.free h = (refl, h)
name_of-IsWord Opcode.read h = (refl, h)
name_of-IsWord Opcode.write h = (refl, h)
name_of-IsWord Opcode.syscall h = (refl, h)
name_of-IsWord Opcode.kmalloc h = (refl, h)
name_of-IsWord Opcode.kmem_cache_create h = (refl, h)
name_of-IsWord Opcode.kmem_cache_alloc h = (refl, h)
name_of-IsWord Opcode.copy_from_user h = (refl, h)
name_of-IsWord Opcode.copy_to_user h = (refl, h)
name_of-IsWord Opcode.unknown h = absurd (omega arith)

pub short-IsWord : (op : Opcode) → IsShort op → IsWord (name_of op)
short-IsWord Opcode.calc h = (refl, omega arith)
short-IsWord Opcode.alloc h = (refl, omega arith)
short-IsWord Opcode.free h = (refl, omega arith)
short-IsWord Opcode.read h = (refl, omega arith)
short-IsWord Opcode.write h = (refl, omega arith)
short-IsWord Opcode.syscall h = (refl, omega arith)
short-IsWord Opcode.kmalloc h = (refl, omega arith)
short-IsWord Opcode.kmem_cache_create h = absurd h
short-IsWord Opcode.kmem_cache_alloc h = absurd h
short-IsWord Opcode.copy_from_user h = absurd h
short-IsWord Opcode.copy_to_user h = absurd h
short-IsWord Opcode.unknown h = absurd h

same : (n : ℕ) → n < limit long → n % u64_mod ≡ n
same n h = omega arith

pub set_args-used :
    (op : Opcode) (i s : Inst)
    → IsShort op
    → All (λ n. n < limit long) (used_args i op)
    → let t = set_args (record s { opcode = op }) (used_args i op) in
      (t.opcode ≡ op) × (used_args t t.opcode ≡ used_args i op)
unfolding set_args
set_args-used Opcode.calc i s h k = (refl, refl)
set_args-used Opcode.alloc i s h (a, (b, k)) = (refl, rw (same i.arg_0 a, same i.arg_1 b) refl)
set_args-used Opcode.kmalloc i s h (a, (b, k)) = (refl, rw (same i.arg_0 a, same i.arg_1 b) refl)
set_args-used Opcode.free i s h (a, k) = (refl, rw (same i.arg_0 a) refl)
set_args-used Opcode.read i s h (a, (b, (d, k))) =
    (refl, rw (same i.arg_0 a, same i.arg_1 b, same i.arg_2 d) refl)
set_args-used Opcode.write i s h (a, (b, (d, k))) =
    (refl, rw (same i.arg_0 a, same i.arg_1 b, same i.arg_2 d) refl)
set_args-used Opcode.syscall i s h (a, (b, (d, (e, k)))) =
    (refl, rw (same i.arg_0 a, same i.arg_1 b, same i.arg_2 d, same i.arg_3 e) refl)
set_args-used Opcode.kmem_cache_create i s h k = absurd h
set_args-used Opcode.kmem_cache_alloc i s h k = absurd h
set_args-used Opcode.copy_from_user i s h k = absurd h
set_args-used Opcode.copy_to_user i s h k = absurd h
set_args-used Opcode.unknown i s h k = absurd h
