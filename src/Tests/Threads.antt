-- ===== src/Tests/Threads.antt =====
-- src/loader.c and src/os.c on small files; a file is the list of what stands in it.
use Prim.Native.String.{String}
use os.Prelude.{
  ℕ, ◌+◌, ◌%◌, ◌≡◌, ◌<◌, refl, true, ltb, if◌then◌else◌, Option, none, some, List, [], ◌∷◌, ◌++◌,
  arith, ok, fault,
}
use os.Prelude.Words.{u32_mod}
use os.Cpu.{Opcode, Inst}
use os.Loader.{Conversion, Stdio, load}
use os.Loader.Files.{Space, blank, newline, limit, Printer, IsPrinter, put_nums}
use os.Loader.Names.{Agree}
use os.Os.Config.{Config, read_config}
use os.Os.Reading.{IsConfig, config_file, read_config-config_file}
use os.Loader.Whole.{program_file, load-program_file, load-long_word}

pub data Item : Type 0 where
  word : String → Item
  number : ℕ → Item
  space : Space → Item

-- the white space in front
abbrev pub skip : List Item → List Item
skip (space s ∷ f) = skip f
skip f = f

abbrev pub a_word : List Item → Option String × List Item
a_word (word w ∷ f) = (some w, f)
a_word f = (none, f)

-- a number that the type of the conversion has; the others are not read here
abbrev pub a_number : Conversion → List Item → Option ℕ × List Item
a_number v (number n ∷ f) = if ltb n (limit v) then (some n, f) else (none, f)
a_number v f = (none, f)

-- a line with its newline, and what is behind it
abbrev pub a_line : List Item → List Item × List Item
a_line [] = ([], [])
a_line (space newline ∷ f) = (space newline ∷ [], f)
a_line (space blank ∷ f) = let r = a_line f in (space blank ∷ r.0, r.1)
a_line (word w ∷ f) = let r = a_line f in (word w ∷ r.0, r.1)
a_line (number n ∷ f) = let r = a_line f in (number n ∷ r.0, r.1)

abbrev pub read_line : List Item → Option (List Item) × List Item
read_line [] = (none, [])
read_line (i ∷ f) = let r = a_line (i ∷ f) in (some r.0, r.1)

abbrev pub items : Stdio
items = record {
  File = List Item;
  scan_word = λ f. a_word (skip f);
  scan_num = λ v f. a_number v (skip f);
  skip_space = skip;
  fgets = read_line;
}

abbrev pub printed : Printer items
printed = record {
  end = [];
  put_word = λ w f. word w ∷ f;
  put_num = λ n f. number n ∷ f;
  put_space = λ s f. space s ∷ f;
}

line_of_numbers :
    (ns : List ℕ) (f : List Item)
    → a_line (put_nums printed ns (space newline ∷ f))
      ≡ (put_nums printed ns (space newline ∷ []), f)
line_of_numbers [] f = refl
line_of_numbers (n ∷ ns) f = rw (line_of_numbers ns f) refl

read_numbers :
    (ns : List ℕ) (f : List Item)
    → read_line (put_nums printed ns (space newline ∷ f))
      ≡ (some (put_nums printed ns (space newline ∷ [])), f)
read_numbers [] f = refl
read_numbers (n ∷ ns) f = rw (line_of_numbers ns f) refl

in_range : (n m : ℕ) → n < m → ltb n m ≡ true
in_range n m h = ground arith

pub printed-IsPrinter : IsPrinter items printed
printed-IsPrinter = record {
  word_read = λ w s f h. refl;
  num_read = λ v n s f h. rw (in_range n (limit v) h) refl;
  word_spaced = λ s f. refl;
  num_spaced = λ v s f. refl;
  skip_spaced = λ s f. refl;
  word_starts = λ w f h. refl;
  num_starts = λ n f. refl;
  end_starts = refl;
  line_read = λ ns f l h. read_numbers ns f;
}

abbrev pub inst : Opcode → Inst
inst op = record { opcode = op; arg_0 = 300; arg_1 = 4; arg_2 = 5; arg_3 = 6 }

abbrev pub junk : ℕ → Inst
junk i = inst Opcode.unknown

abbrev short_program : List Inst
short_program = inst Opcode.alloc ∷ inst Opcode.calc ∷ inst Opcode.syscall ∷ []

load-program_file_example :
    (text : List Inst) × (load items junk "" [] 1
        (some (program_file items printed printed-IsPrinter 7 short_program))
      ≡ ok (some (record { pid = 1; priority = 7; pc = 0; text = text }), (1 + 1) % u32_mod))
    × Agree text short_program
load-program_file_example =
    load-program_file items printed printed-IsPrinter junk "" [] 1 7 short_program (omega arith)
      (omega arith) (tt, (tt, (tt, tt)))
      (
        (omega arith, (omega arith, tt)),
        (tt, ((omega arith, (omega arith, (omega arith, (omega arith, tt)))), tt)),
      )

load-long_word_example :
    load items junk "" [] 1 (
      some (
        program_file items printed printed-IsPrinter 7
          ((inst Opcode.calc ∷ []) ++ (inst Opcode.copy_to_user ∷ []))))
    ≡ fault
load-long_word_example =
    load-long_word items printed printed-IsPrinter junk "" [] 1 7 (inst Opcode.calc ∷ []) []
      (inst Opcode.copy_to_user) (omega arith) (omega arith) (tt, tt) (tt, tt) (omega arith)

abbrev config : Config
config = record {
  time_slot = 2;
  num_cpus = 4;
  memramsz = 1048576;
  memswpsz = 16777216 ∷ 0 ∷ 0 ∷ 0 ∷ [];
  processes =
      record { start_time = 1; name = "p0s"; prio = 130 }
      ∷ record { start_time = 2; name = "s3"; prio = 39 }
      ∷ [];
}

config-IsConfig : IsConfig config
config-IsConfig = record {
  slot = omega arith;
  cpus = omega arith;
  count = omega arith;
  ram = omega arith;
  swaps = refl;
  sizes = (omega arith, (omega arith, (omega arith, (omega arith, tt))));
  entries = (
    (omega arith, omega arith, (refl, omega arith), omega arith),
    ((omega arith, omega arith, (refl, omega arith), omega arith), tt),
  );
}

read_config-config_file_example :
    read_config items (config_file items printed printed-IsPrinter config) ≡ ok config
read_config-config_file_example =
    read_config-config_file items printed printed-IsPrinter config config-IsConfig
