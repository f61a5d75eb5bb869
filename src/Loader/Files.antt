-- ===== src/Loader/Files.antt =====
-- src/loader.c: program files as text, and how the C library reads them back.
use Prim.Native.String.{String}
use Prim.Native.Char.{code}
use os.Prelude.{ℕ, ◌^◌, ◌≤◌, ◌<◌, ◌≡◌, Bool, true, ◌&&◌, ltb, List, [], ◌∷◌, some, All, length}
use os.Cpu.{Opcode, Inst}
use os.Loader.{Conversion, signed, unsigned, long, Stdio, text_length}

-- White space between what is read.
pub data Space : Type 0 where
  blank newline : Space

-- the numbers that a conversion reads as they are written; `%d` is used for numbers that are not negative
abbrev pub limit : Conversion → ℕ
limit signed = 2 ^ 31
limit unsigned = 2 ^ 32
limit long = 2 ^ 64

-- visible characters of ASCII, at least one
abbrev pub are_visible : String → Bool
are_visible String.[] = true
are_visible (String.◌∷◌ c s) = ltb 32 (code c) && ltb (code c) 127 && are_visible s

abbrev pub IsWord : String → Type 0
IsWord w = (are_visible w ≡ true) × (0 < text_length w)

-- Text in front of a stream: the characters of a word, the decimal digits of a number, and white
-- space; `end` is the end of the file.
pub record Printer (c : Stdio) : Type 0 where
  pub end : c.File
  pub put_word : String → c.File → c.File
  pub put_num : ℕ → c.File → c.File
  pub put_space : Space → c.File → c.File

-- numbers, with a blank in front of each
abbrev pub put_nums : {c : Stdio} → Printer c → List ℕ → c.File → c.File
put_nums p [] f = f
put_nums p (n ∷ ns) f = p.put_space blank (p.put_num n (put_nums p ns f))

-- The documented behaviour of `fscanf` and `fgets` on such text: a conversion skips white space in
-- front, and it reads a word of visible characters, or a number in the range of its type, up to the white
-- space behind, which it leaves; a blank or a newline of a format skips all white space; and `fgets`
-- reads a line that the buffer of 200 bytes can hold, with its newline.
pub record IsPrinter (c : Stdio) (p : Printer c) : Type 0 where
  pub word_read :
      (w : String) (s : Space) (f : c.File)
      → IsWord w
      → c.scan_word (p.put_word w (p.put_space s f)) ≡ (some w, p.put_space s f)
  pub num_read :
      (v : Conversion) (n : ℕ) (s : Space) (f : c.File)
      → n < limit v
      → c.scan_num v (p.put_num n (p.put_space s f)) ≡ (some n, p.put_space s f)
  pub word_spaced : (s : Space) (f : c.File) → c.scan_word (p.put_space s f) ≡ c.scan_word f
  pub num_spaced :
      (v : Conversion) (s : Space) (f : c.File) → c.scan_num v (p.put_space s f) ≡ c.scan_num v f
  pub skip_spaced : (s : Space) (f : c.File) → c.skip_space (p.put_space s f) ≡ c.skip_space f
  pub word_starts :
      (w : String) (f : c.File) → IsWord w → c.skip_space (p.put_word w f) ≡ p.put_word w f
  pub num_starts : (n : ℕ) (f : c.File) → c.skip_space (p.put_num n f) ≡ p.put_num n f
  pub end_starts : c.skip_space p.end ≡ p.end
  pub line_read :
      (ns : List ℕ) (f : c.File)
      → length ns ≤ 4
      → All (λ n. n < limit long) ns
      → c.fgets (put_nums p ns (p.put_space newline f))
        ≡ (some (put_nums p ns (p.put_space newline p.end)), f)

-- the word of an opcode in a program file; `unknown` has none
abbrev pub name_of : Opcode → String
name_of Opcode.calc = "calc"
name_of Opcode.alloc = "alloc"
name_of Opcode.free = "free"
name_of Opcode.read = "read"
name_of Opcode.write = "write"
name_of Opcode.syscall = "syscall"
name_of Opcode.kmalloc = "kmalloc"
name_of Opcode.kmem_cache_create = "kmem_cache_create"
name_of Opcode.kmem_cache_alloc = "kmem_cache_alloc"
name_of Opcode.copy_from_user = "copy_from_user"
name_of Opcode.copy_to_user = "copy_to_user"
name_of Opcode.unknown = ""

-- the arguments that an instruction has
abbrev pub used_args : Inst → Opcode → List ℕ
used_args i Opcode.calc = []
used_args i Opcode.alloc = i.arg_0 ∷ i.arg_1 ∷ []
used_args i Opcode.kmalloc = i.arg_0 ∷ i.arg_1 ∷ []
used_args i Opcode.kmem_cache_alloc = i.arg_0 ∷ i.arg_1 ∷ []
used_args i Opcode.free = i.arg_0 ∷ []
used_args i Opcode.read = i.arg_0 ∷ i.arg_1 ∷ i.arg_2 ∷ []
used_args i Opcode.write = i.arg_0 ∷ i.arg_1 ∷ i.arg_2 ∷ []
used_args i Opcode.kmem_cache_create = i.arg_0 ∷ i.arg_1 ∷ i.arg_2 ∷ []
used_args i Opcode.syscall = i.arg_0 ∷ i.arg_1 ∷ i.arg_2 ∷ i.arg_3 ∷ []
used_args i Opcode.copy_from_user = i.arg_0 ∷ i.arg_1 ∷ i.arg_2 ∷ i.arg_3 ∷ []
used_args i Opcode.copy_to_user = i.arg_0 ∷ i.arg_1 ∷ i.arg_2 ∷ i.arg_3 ∷ []
used_args i Opcode.unknown = []

-- a program file, from the first instruction on: a line for each
abbrev pub program : {c : Stdio} → Printer c → List Inst → c.File
program p [] = p.end
program p (i ∷ rest) =
    p.put_word (name_of i.opcode)
      (put_nums p (used_args i i.opcode) (p.put_space newline (program p rest)))
