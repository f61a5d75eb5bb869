-- ===== src/Loader.antt =====
-- src/loader.c: a program file becomes a process. The calls of the C library are the parameter
-- `Stdio`. `malloc` succeeds; what it leaves in the instructions is the argument `stale`. The fields
-- `path`, `page_table` and `bp` of the process, which nothing modelled reads, are left out.
pub mod Files
pub mod Names
pub mod Program
pub mod Whole
use Prim.Native.String.{String}
use text.Mathlib.Text.{◌==◌ as str_eq}
use os.Prelude.{
  ℕ, zero, suc, ◌+◌, ◌%◌, Option, none, some, List, [], ◌∷◌, ltb, if◌then◌else◌, Exec, ok, fault,
  ◌>>=◌,
}
use os.Prelude.Words.{u32_mod, u64_mod}
use mathlib.Core.Option
use os.Cpu
use os.Cpu.{Opcode, Inst}

-- `%d`, `%u` and `%lu`, for an `int`, an `unsigned int` and an `unsigned long`; `arg_t` has the last one
pub data Conversion : Type 0 where
  signed unsigned long : Conversion

-- The reads of the C library on a stream: a word by `%s`, a number by a conversion, the white space
-- that a blank or a newline in a format stands for, and a line of text by `fgets`, which is read as a
-- stream of its own. `none` is a conversion that fails, or no line.
pub record Stdio : Type 1 where
  pub File : Type 0
  pub scan_word : File → Option String × File
  pub scan_num : Conversion → File → Option ℕ × File
  pub skip_space : File → File
  pub fgets : File → Option File × File

abbrev pub text_length : String → ℕ
text_length String.[] = 0
text_length (String.◌∷◌ c s) = suc (text_length s)

-- `get_opcode`; `none` is `exit(1)`
unfoldable pub get_opcode : String → Option Opcode
get_opcode opt =
    if str_eq opt "calc"
    then some Opcode.calc
    else if str_eq opt "alloc"
    then some Opcode.alloc
    else if str_eq opt "free"
    then some Opcode.free
    else if str_eq opt "read"
    then some Opcode.read
    else if str_eq opt "write"
    then some Opcode.write
    else if str_eq opt "kmalloc"
    then some Opcode.kmalloc
    else if str_eq opt "kmem_cache_create"
    then some Opcode.kmem_cache_create
    else if str_eq opt "kmem_cache_alloc"
    then some Opcode.kmem_cache_alloc
    else if str_eq opt "copy_from_user"
    then some Opcode.copy_from_user
    else if str_eq opt "copy_to_user"
    then some Opcode.copy_to_user
    else if str_eq opt "syscall"
    then some Opcode.syscall
    else none

-- the arguments that were read, in order, each an `arg_t` of 64 bits; the others stay as they are
unfoldable pub set_args : Inst → List ℕ → Inst
set_args ins [] = ins
set_args ins (a ∷ []) = record ins { arg_0 = a % u64_mod }
set_args ins (a ∷ b ∷ []) = record ins { arg_0 = a % u64_mod; arg_1 = b % u64_mod }
set_args ins (a ∷ b ∷ c ∷ []) = record ins {
  arg_0 = a % u64_mod;
  arg_1 = b % u64_mod;
  arg_2 = c % u64_mod;
}
set_args ins (a ∷ b ∷ c ∷ d ∷ rest) = record ins {
  arg_0 = a % u64_mod;
  arg_1 = b % u64_mod;
  arg_2 = c % u64_mod;
  arg_3 = d % u64_mod;
}

-- What `load` makes.
pub record Loaded : Type 0 where
  pub pid : ℕ
  pub priority : ℕ
  pub pc : ℕ
  pub text : List Inst

-- one number of a format, and the rest of the format behind it
abbrev pub keep_num : {A : Type 0} → Option ℕ → A → List ℕ × A → List ℕ × A
keep_num none file rest = ([], file)
keep_num (some v) file (vs, file') = (v ∷ vs, file')

module _ (c : Stdio) where
  open c use {File, scan_word, scan_num, skip_space, fgets}

  -- a format of `n` numbers: those read, up to the first conversion that fails
  unfoldable pub scan_nums : Conversion → ℕ → File → List ℕ × File
  scan_nums v zero file = ([], file)
  scan_nums v (suc n) file = let r = scan_num v file in keep_num r.0 r.1 (scan_nums v n r.1)

  -- what `load` keeps from one instruction to the next: the file, and the buffers `opcode` and `buf`
  pub record Buffers : Type 0 where
    pub file : File
    pub opcode : String
    pub buf : File

  -- `fscanf` of `n` numbers and a newline into an instruction
  unfoldable pub args_from_file : ℕ → Inst → Buffers → Inst × Buffers
  args_from_file n ins b =
      let (args, file') = scan_nums long n b.file in
      (set_args ins args, record b { file = skip_space file' })

  -- `fgets` and `sscanf` of four numbers; `buf` keeps its line when there is no other
  unfoldable pub args_from_line : Inst → Buffers → Inst × Buffers
  args_from_line ins b =
      let (line, file') = fgets b.file in
      let buf' : File = elim line [ none ↦ b.buf | some l ↦ l ] in
      (set_args ins (scan_nums long 4 buf').0, record b { file = file'; buf = buf' })

  -- the cases of `load`
  unfoldable pub scan_args : Opcode → Inst → Buffers → Inst × Buffers
  scan_args Opcode.calc ins b = (ins, b)
  scan_args Opcode.kmem_cache_alloc ins b = args_from_file 2 ins b
  scan_args Opcode.kmalloc ins b = args_from_file 2 ins b
  scan_args Opcode.alloc ins b = args_from_file 2 ins b
  scan_args Opcode.free ins b = args_from_file 1 ins b
  scan_args Opcode.kmem_cache_create ins b = args_from_file 3 ins b
  scan_args Opcode.read ins b = args_from_file 3 ins b
  scan_args Opcode.write ins b = args_from_file 3 ins b
  scan_args Opcode.copy_from_user ins b = args_from_line ins b
  scan_args Opcode.copy_to_user ins b = args_from_line ins b
  scan_args Opcode.syscall ins b = args_from_line ins b
  scan_args Opcode.unknown ins b = (ins, b)

  -- the word read by `%s` into `opcode`, an array of 10 bytes with the terminating 0
  unfoldable pub store_opcode : Buffers → Option String × File → Exec Buffers
  store_opcode b (none, file') = ok (record b { file = file' })
  store_opcode b (some word, file') =
      if ltb 9 (text_length word) then fault else ok (record b { file = file'; opcode = word })

  -- one instruction, in a place that holds `stale`; `none` is `exit(1)`
  unfoldable pub load_inst : Inst → Buffers → Option Opcode → Option (Inst × Buffers)
  load_inst stale b none = none
  load_inst stale b (some op) = some (scan_args op (record stale { opcode = op }) b)

  -- the instructions behind one that was read, by `next`
  unfoldable pub load_rest :
      (Buffers → Exec (Option (List Inst))) → Option (Inst × Buffers) → Exec (Option (List Inst))
  load_rest next none = ok none
  load_rest next (some (ins, b)) = do rest ← next b; ok (Option.map (λ text. ins ∷ text) rest)

  -- the loop of `load` from instruction `i` on, `n` of them
  unfoldable pub load_loop : (ℕ → Inst) → ℕ → ℕ → Buffers → Exec (Option (List Inst))
  load_loop stale zero i b = ok (some [])
  load_loop stale (suc n) i b = do
    b' ← store_opcode b (scan_word b.file)
    load_rest (λ b. load_loop stale n (i + 1) b) (load_inst (stale i) b' (get_opcode b'.opcode))

  -- What `load` makes of the text; `none` is `exit(1)`.
  unfoldable pub loaded : ℕ → ℕ → Option (List Inst) → Option Loaded
  loaded avail_pid priority text =
      Option.map (λ t. record { pid = avail_pid; priority = priority; pc = 0; text = t }) text

  -- `load`, from the two numbers of the header on; one that cannot be read is used uninitialised
  unfoldable pub load_text : (ℕ → Inst) → String → File → ℕ → List ℕ × File → Exec (Option Loaded)
  load_text stale opcode buf avail_pid ([], file) = fault
  load_text stale opcode buf avail_pid (priority ∷ [], file) = fault
  load_text stale opcode buf avail_pid (priority ∷ size ∷ _, file) = do
    text ← load_loop stale (size % u32_mod) 0 (record { file = file; opcode = opcode; buf = buf })
    ok (loaded avail_pid (priority % u32_mod) text)

  -- `load`, with the file that `fopen` gives, if it does; `avail_pid` is returned moved on
  unfoldable pub load : (ℕ → Inst) → String → File → ℕ → Option File → Exec (Option Loaded × ℕ)
  load stale opcode buf avail_pid none = ok (none, (avail_pid + 1) % u32_mod)
  load stale opcode buf avail_pid (some file) = do
    proc ← load_text stale opcode buf avail_pid (scan_nums unsigned 2 file)
    ok (proc, (avail_pid + 1) % u32_mod)
