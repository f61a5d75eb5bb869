-- ===== src/Os/Config.antt =====
-- src/os.c: `read_config`, compiled with MLQ_SCHED and MM_PAGING and without MM_FIXED_MEMSZ. An `int` is
-- its bit pattern, and there is no round for a count below 0. A field of an entry that cannot be read is used uninitialised: a fault.
use Prim.Native.String.{String}
use os.Prelude.{
  ℕ, zero, suc, ◌%◌, Option, none, some, List, [], ◌∷◌, ltb, if◌then◌else◌, get_elem?, Exec, ok,
  fault, ◌>>=◌,
}
use os.Prelude.Words.{u32_mod, u64_mod}
use os.Memphy.{nonneg}
use os.Loader.{signed, long, Stdio, text_length, scan_nums}

abbrev pub max_mswp : ℕ
max_mswp = 4

-- a line of the configuration: `name` is `proc`, which the path has behind "input/proc/"
pub record Entry : Type 0 where
  pub start_time : ℕ
  pub name : String
  pub prio : ℕ

pub record Config : Type 0 where
  pub time_slot : ℕ
  pub num_cpus : ℕ
  pub memramsz : ℕ
  pub memswpsz : List ℕ
  pub processes : List Entry

-- The path has room for 100 bytes with its terminating 0, as `proc` has.
abbrev pub path_room : ℕ
path_room = 88

-- A static variable that cannot be read is still 0.
abbrev pub read_or_zero : Option ℕ → ℕ
read_or_zero none = 0
read_or_zero (some n) = n

abbrev pub nth : List ℕ → ℕ → ℕ
nth xs i = read_or_zero (get_elem? xs i)

abbrev pub need : {A : Type 0} → Option A → Exec A
need none = fault
need (some a) = ok a

module _ (c : Stdio) where
  open c use {File, scan_word, scan_num, skip_space}

  -- one line
  unfoldable pub read_entry : File → Exec (Entry × File)
  read_entry file = do
    let start = scan_num long file
    let word = scan_word start.1
    let last = scan_num long word.1
    start_time ← need start.0
    name ← need word.0
    prio ← need last.0
    let entry : Entry = record {
      start_time = start_time % u64_mod;
      name = name;
      prio = prio % u64_mod;
    }
    if ltb path_room (text_length name) then fault else ok (entry, skip_space last.1)

  -- the loop over the processes
  unfoldable pub read_entries : ℕ → File → Exec (List Entry)
  read_entries zero file = ok []
  read_entries (suc n) file = do
    (entry, file') ← read_entry file
    rest ← read_entries n file'
    ok (entry ∷ rest)

  -- the loop over the sizes of the swap devices
  unfoldable pub read_sizes : ℕ → File → List ℕ × File
  read_sizes zero file = ([], file)
  read_sizes (suc n) file =
      let size = scan_num long file in
      let rest = read_sizes n size.1 in ((read_or_zero size.0 % u64_mod) ∷ rest.0, rest.1)

  unfoldable pub read_config : File → Exec Config
  read_config file =
      let first = scan_nums c signed 3 file in
      let ram = scan_num long (skip_space first.1) in
      let swap = read_sizes max_mswp (skip_space ram.1) in
      do
        processes ← read_entries (nonneg (nth first.0 2 % u32_mod)) (skip_space swap.1)
        ok (record {
          time_slot = nth first.0 0 % u32_mod;
          num_cpus = nth first.0 1 % u32_mod;
          memramsz = read_or_zero ram.0 % u64_mod;
          memswpsz = swap.0;
          processes = processes;
        })
