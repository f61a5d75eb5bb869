-- ===== src/Os/Reading.antt =====
-- src/os.c: read_config on configuration files.
use os.Prelude.{
  ℕ, suc, ◌%◌, ◌^◌, ◌≤◌, ◌<◌, ◌≡◌, refl, ap, sym, ◌∙◌, List, [], ◌∷◌, false, arith, ltb, ok, All,
  length,
}
use os.Prelude.Words.{u32_mod, u64_mod}
use os.Memphy.{nonneg}
use os.Loader.{signed, long, Stdio, text_length}
use os.Loader.Files.{blank, newline, IsWord, Printer, IsPrinter}
use os.Loader.Program.{line_of, num_in_line, scan_nums-first}
use os.Os.Config.{
  max_mswp, Entry, Config, path_room, read_entry, read_entries, read_sizes, read_config,
}

-- An entry of a configuration: its numbers have 64 bits, and the path has room for its name, which is a
-- word.
abbrev pub IsEntry : Entry → Type 0
IsEntry e =
    (e.start_time < u64_mod) × (e.prio < u64_mod) × IsWord e.name × (text_length e.name ≤ path_room)

-- a configuration whose numbers fit their types
pub record IsConfig (k : Config) : Type 0 where
  pub slot : k.time_slot < 2 ^ 31
  pub cpus : k.num_cpus < 2 ^ 31
  pub count : length k.processes < 2 ^ 31
  pub ram : k.memramsz < u64_mod
  pub swaps : length k.memswpsz ≡ max_mswp
  pub sizes : All (λ n. n < u64_mod) k.memswpsz
  pub entries : All IsEntry k.processes

long_same : (n : ℕ) → n < u64_mod → n % u64_mod ≡ n
long_same n h = omega arith

int_same : (n : ℕ) → n < 2 ^ 31 → n % u32_mod ≡ n
int_same n h = omega arith

rounds : (n : ℕ) → n < 2 ^ 31 → nonneg (n % u32_mod) ≡ n
rounds n h = ground arith

fits : (n : ℕ) → n ≤ path_room → ltb path_room n ≡ false
fits n h = ground arith

module _ (c : Stdio) (p : Printer c) (laws : IsPrinter c p) where
  -- a configuration file, from the processes on, a line for each
  abbrev pub put_entries : List Entry → c.File
  put_entries [] = p.end
  put_entries (e ∷ es) = p.put_num e.start_time (
      p.put_space blank (
        p.put_word e.name
          (p.put_space blank (p.put_num e.prio (p.put_space newline (put_entries es))))))

  -- the whole: a line with the time slot and the two counts, a line with the sizes, and the processes
  abbrev pub config_file : Config → c.File
  config_file k = p.put_num k.time_slot (
      line_of c p laws (k.num_cpus ∷ length k.processes ∷ [])
        (p.put_num k.memramsz (line_of c p laws k.memswpsz (put_entries k.processes))))

  entries_start : (es : List Entry) → c.skip_space (put_entries es) ≡ put_entries es
  entries_start [] = laws.end_starts
  entries_start (e ∷ es) = laws.num_starts e.start_time _

  read_entry-put_entries :
      (e : Entry) (es : List Entry)
      → IsEntry e
      → read_entry c (put_entries (e ∷ es)) ≡ ok (e, put_entries es)
  unfolding read_entry
  read_entry-put_entries e es (hs, hp, hw, hn) =
      let last = p.put_num e.prio (p.put_space newline (put_entries es)) in
      let word = p.put_word e.name (p.put_space blank last) in
      rw
        (
          laws.num_read long e.start_time blank word hs,
          laws.word_spaced blank word,
          laws.word_read e.name blank last hw,
          laws.num_spaced long blank last,
          laws.num_read long e.prio newline (put_entries es) hp,
          fits (text_length e.name) hn,
          laws.skip_spaced newline (put_entries es),
          entries_start es,
          long_same e.start_time hs,
          long_same e.prio hp,
        )
        refl

  read_entries-put_entries :
      (es : List Entry) → All IsEntry es → read_entries c (length es) (put_entries es) ≡ ok es
  unfolding read_entries
  read_entries-put_entries [] h = refl
  read_entries-put_entries (e ∷ es) (h, hs) =
      rw (read_entry-put_entries e es h, read_entries-put_entries es hs) refl

  read_sizes-line_of :
      (ns : List ℕ) (f : c.File)
      → All (λ n. n < u64_mod) ns
      → read_sizes c (length ns) (line_of c p laws ns f) ≡ (ns, p.put_space newline f)
  unfolding read_sizes
  read_sizes-line_of [] f h = refl
  read_sizes-line_of (n ∷ ns) f (h, hs) =
      rw
        (
          laws.num_spaced long blank (p.put_num n (line_of c p laws ns f)),
          num_in_line c p laws long n ns f h,
          read_sizes-line_of ns f hs,
          long_same n h,
        )
        refl

  -- The newline of a format skips the blank in front of the first size.
  read_sizes_skipped :
      (n : ℕ) (ns : List ℕ) (f : c.File)
      → All (λ n. n < u64_mod) (n ∷ ns)
      → read_sizes c (suc (length ns)) (c.skip_space (line_of c p laws (n ∷ ns) f))
        ≡ (n ∷ ns, p.put_space newline f)
  unfolding read_sizes
  read_sizes_skipped n ns f (h, hs) =
      rw
        (
          laws.skip_spaced blank (p.put_num n (line_of c p laws ns f)),
          laws.num_starts n (line_of c p laws ns f),
          num_in_line c p laws long n ns f h,
          read_sizes-line_of ns f hs,
          long_same n h,
        )
        refl

  sizes_read :
      (ns : List ℕ) (f : c.File)
      → length ns ≡ max_mswp
      → All (λ n. n < u64_mod) ns
      → read_sizes c max_mswp (c.skip_space (line_of c p laws ns f)) ≡ (ns, p.put_space newline f)
  sizes_read [] f e h = absurd (omega (arith, e))
  sizes_read (n ∷ ns) f e h =
      ap (λ m. read_sizes c m (c.skip_space (line_of c p laws (n ∷ ns) f))) (sym e)
      ∙ read_sizes_skipped n ns f h

  -- `read_config` reads a configuration file back: one whose numbers are not negative and fit their
  -- types, with four swap sizes, in which each name is a word of 1 to 88 visible ASCII characters.
  pub read_config-config_file : (k : Config) → IsConfig k → read_config c (config_file k) ≡ ok k
  unfolding read_config
  read_config-config_file k v =
      let sizes = line_of c p laws k.memswpsz (put_entries k.processes) in
      rw
        (
          scan_nums-first c p laws signed k.time_slot (k.num_cpus ∷ length k.processes ∷ [])
              (p.put_num k.memramsz sizes) v.slot (v.cpus, (v.count, tt)),
          laws.skip_spaced newline (p.put_num k.memramsz sizes),
          laws.num_starts k.memramsz sizes,
          num_in_line c p laws long k.memramsz k.memswpsz (put_entries k.processes) v.ram,
          sizes_read k.memswpsz (put_entries k.processes) v.swaps v.sizes,
          laws.skip_spaced newline (put_entries k.processes),
          entries_start k.processes,
          rounds (length k.processes) v.count,
          read_entries-put_entries k.processes v.entries,
          int_same k.time_slot v.slot,
          int_same k.num_cpus v.cpus,
          long_same k.memramsz v.ram,
        )
        refl
