-- ===== src/Loader/Program.antt =====
-- src/loader.c: the loop of load on program files.
use Prim.Native.String.{String}
use os.Prelude.{
  ℕ, suc, ◌+◌, ◌<◌, ◌≡◌, refl, ap, sym, ◌∙◌, arith, List, [], ◌∷◌, Option, some, if◌then◌else◌,
  Exec, ok, fault, ◌>>=◌, All, length,
}
use mathlib.Core.Option
use mathlib.Core.Path.{subst}
use os.Cpu.{Opcode, Inst}
use os.Loader.{
  Conversion, long, Stdio, get_opcode, set_args, scan_nums, Buffers, args_from_file, args_from_line,
  scan_args, keep_num, store_opcode, load_inst, load_rest, load_loop,
}
use os.Loader.Files.{
  Space, blank, newline, limit, IsWord, Printer, IsPrinter, put_nums, name_of, used_args, program,
}
use os.Loader.Names.{
  IsShort, Agree, get_opcode-name_of, short_name, IsSmall, short-IsWord, set_args-used,
}

module _ (c : Stdio) (p : Printer c) (laws : IsPrinter c p) where
  abbrev pub buffers : c.File → String → c.File → Buffers c
  buffers f o b = record { file = f; opcode = o; buf = b }

  -- numbers on a line, to its end
  abbrev pub line_of : List ℕ → c.File → c.File
  line_of ns f = put_nums p ns (p.put_space newline f)

  -- White space stands in front of what is left of a line.
  space_behind :
      (ns : List ℕ) (f : c.File) → (s : Space) × (g : c.File) × (line_of ns f ≡ p.put_space s g)
  space_behind [] f = (newline, f, refl)
  space_behind (n ∷ ns) f = (blank, _, refl)

  pub num_in_line :
      (v : Conversion) (n : ℕ) (ns : List ℕ) (f : c.File)
      → n < limit v
      → c.scan_num v (p.put_num n (line_of ns f)) ≡ (some n, line_of ns f)
  num_in_line v n ns f h =
      let (s, g, e) = space_behind ns f in
      subst (λ x. c.scan_num v (p.put_num n x) ≡ (some n, x)) (sym e) (laws.num_read v n s g h)

  pub word_in_line :
      (w : String) (ns : List ℕ) (f : c.File)
      → IsWord w
      → c.scan_word (p.put_word w (line_of ns f)) ≡ (some w, line_of ns f)
  word_in_line w ns f h =
      let (s, g, e) = space_behind ns f in
      subst (λ x. c.scan_word (p.put_word w x) ≡ (some w, x)) (sym e) (laws.word_read w s g h)

  pub scan_nums-line_of :
      (v : Conversion) (ns : List ℕ) (f : c.File)
      → All (λ n. n < limit v) ns
      → scan_nums c v (length ns) (line_of ns f) ≡ (ns, p.put_space newline f)
  unfolding scan_nums
  scan_nums-line_of v [] f h = refl
  scan_nums-line_of v (n ∷ ns) f (h, hs) =
      ap (λ r. keep_num r.0 r.1 (scan_nums c v (length ns) r.1))
        (laws.num_spaced v blank (p.put_num n (line_of ns f)) ∙ num_in_line v n ns f h)
      ∙ ap (keep_num (some n) (line_of ns f)) (scan_nums-line_of v ns f hs)

  -- The first number of a line has no blank in front.
  pub scan_nums-first :
      (v : Conversion) (n : ℕ) (ns : List ℕ) (f : c.File)
      → n < limit v
      → All (λ n. n < limit v) ns
      → scan_nums c v (suc (length ns)) (p.put_num n (line_of ns f))
        ≡ (n ∷ ns, p.put_space newline f)
  unfolding scan_nums
  scan_nums-first v n ns f h hs =
      ap (λ r. keep_num r.0 r.1 (scan_nums c v (length ns) r.1)) (num_in_line v n ns f h)
      ∙ ap (keep_num (some n) (line_of ns f)) (scan_nums-line_of v ns f hs)

  -- No white space stands in front of a word or the end.
  pub program_starts :
      (is : List Inst)
      → All (λ j. IsWord (name_of j.opcode)) is
      → c.skip_space (program p is) ≡ program p is
  program_starts [] h = laws.end_starts
  program_starts (i ∷ is) (h, hs) = laws.word_starts (name_of i.opcode) _ h

  file_args :
      (ins : Inst) (ns : List ℕ) (f : c.File) (o : String) (b : c.File)
      → All (λ n. n < limit long) ns
      → c.skip_space f ≡ f
      → args_from_file c (length ns) ins (buffers (line_of ns f) o b)
        ≡ (set_args ins ns, buffers f o b)
  unfolding args_from_file
  file_args ins ns f o b h e =
      rw (scan_nums-line_of long ns f h, laws.skip_spaced newline f, e) refl

  line_args :
      (ins : Inst) (ns : List ℕ) (f : c.File) (o : String) (b : c.File)
      → length ns ≡ 4
      → All (λ n. n < limit long) ns
      → args_from_line c ins (buffers (line_of ns f) o b)
        ≡ (set_args ins ns, buffers f o (line_of ns p.end))
  unfolding args_from_line
  line_args ins ns f o b e h =
      rw (laws.line_read ns f (omega (arith, e)) h, sym e, scan_nums-line_of long ns p.end h) refl

  -- What the next word is does not change behind the arguments.
  abbrev Scanned : Opcode → Inst → Inst → c.File → String → c.File → Type 0
  Scanned op i ins f o b =
      (b' g : c.File) × (scan_args c op ins (buffers (line_of (used_args i op) f) o b)
        ≡ (set_args ins (used_args i op), buffers g o b'))
      × (c.scan_word g ≡ c.scan_word f)

  -- The arguments of an instruction are read back.
  pub scan_args-used :
      (op : Opcode) (i ins : Inst) (f : c.File) (o : String) (b : c.File)
      → IsShort op
      → All (λ n. n < limit long) (used_args i op)
      → c.skip_space f ≡ f
      → Scanned op i ins f o b
  unfolding scan_args
  scan_args-used Opcode.calc i ins f o b h k e =
      (b, p.put_space newline f, unfold set_args in refl, laws.word_spaced newline f)
  scan_args-used Opcode.alloc i ins f o b h k e =
      (b, f, file_args ins (used_args i Opcode.alloc) f o b k e, refl)
  scan_args-used Opcode.kmalloc i ins f o b h k e =
      (b, f, file_args ins (used_args i Opcode.kmalloc) f o b k e, refl)
  scan_args-used Opcode.free i ins f o b h k e =
      (b, f, file_args ins (used_args i Opcode.free) f o b k e, refl)
  scan_args-used Opcode.read i ins f o b h k e =
      (b, f, file_args ins (used_args i Opcode.read) f o b k e, refl)
  scan_args-used Opcode.write i ins f o b h k e =
      (b, f, file_args ins (used_args i Opcode.write) f o b k e, refl)
  scan_args-used Opcode.syscall i ins f o b h k e =
      (_, f, line_args ins (used_args i Opcode.syscall) f o b refl k, refl)
  scan_args-used Opcode.kmem_cache_create i ins f o b h k e = absurd h
  scan_args-used Opcode.kmem_cache_alloc i ins f o b h k e = absurd h
  scan_args-used Opcode.copy_from_user i ins f o b h k e = absurd h
  scan_args-used Opcode.copy_to_user i ins f o b h k e = absurd h
  scan_args-used Opcode.unknown i ins f o b h k e = absurd h

  store_opcode-word :
      (op : Opcode) (ns : List ℕ) (f g : c.File) (o : String) (b : c.File)
      → IsShort op
      → c.scan_word g ≡ c.scan_word (p.put_word (name_of op) (line_of ns f))
      → store_opcode c (buffers g o b) (c.scan_word g) ≡ ok (buffers (line_of ns f) (name_of op) b)
  unfolding store_opcode
  store_opcode-word op ns f g o b h e =
      ap (store_opcode c (buffers g o b)) (e ∙ word_in_line (name_of op) ns f (short-IsWord op h))
      ∙ ap (λ t. if t then fault else ok (buffers (line_of ns f) (name_of op) b)) (short_name op h)

  -- The loop once the opcode has been read.
  abbrev behind : (ℕ → Inst) → ℕ → ℕ → Opcode → Buffers c → Exec (Option (List Inst))
  behind stale n i op b =
      load_rest c (λ b. load_loop c stale n (i + 1) b)
        (some (scan_args c op (record (stale i) { opcode = op }) b))

  pub load_loop-step :
      (stale : ℕ → Inst) (n i : ℕ) (op : Opcode) (ns : List ℕ) (f g : c.File) (o : String)
      (b : c.File)
      → IsShort op
      → c.scan_word g ≡ c.scan_word (p.put_word (name_of op) (line_of ns f))
      → load_loop c stale (suc n) i (buffers g o b)
        ≡ behind stale n i op (buffers (line_of ns f) (name_of op) b)
  unfolding load_loop load_inst
  load_loop-step stale n i op ns f g o b h e =
      ap
        (λ r. r >>= (λ b.
          load_rest c (λ b. load_loop c stale n (i + 1) b)
            (load_inst c (stale i) b (get_opcode b.opcode))))
        (store_opcode-word op ns f g o b h e)
      ∙ ap
          (λ o.
            load_rest c (λ b. load_loop c stale n (i + 1) b)
              (load_inst c (stale i) (buffers (line_of ns f) (name_of op) b) o))
          (get_opcode-name_of op h)

  pub short-words :
      (is : List Inst) → All (λ j. IsShort j.opcode) is → All (λ j. IsWord (name_of j.opcode)) is
  short-words [] h = tt
  short-words (i ∷ is) (h, hs) = (short-IsWord i.opcode h, short-words is hs)

  pub load_loop-program :
      (is : List Inst) (stale : ℕ → Inst) (i : ℕ) (g : c.File) (o : String) (b : c.File)
      → All (λ j. IsShort j.opcode) is
      → All IsSmall is
      → c.scan_word g ≡ c.scan_word (program p is)
      → (text : List Inst) × (load_loop c stale (length is) i (buffers g o b) ≡ ok (some text))
        × Agree text is
  unfolding load_loop load_rest
  load_loop-program [] stale i g o b h k e = ([], refl, tt)
  load_loop-program (j ∷ is) stale i g o b (h, hs) (k, ks) e =
      let op = j.opcode in
      let (b', g', scanned, next) =
        scan_args-used op j (record (stale i) { opcode = op }) (program p is) (name_of op) b h k
          (program_starts is (short-words is hs)) in
      let (text, run, agree) = load_loop-program is stale (i + 1) g' (name_of op) b' hs ks next in
      let (opcode, args) = set_args-used op j (stale i) h k in
      let ins = set_args (record (stale i) { opcode = op }) (used_args j op) in
      (
        ins ∷ text,
        load_loop-step stale (length is) i op (used_args j op) (program p is) g o b h e
            ∙ ap (λ r. load_rest c (λ b. load_loop c stale (length is) (i + 1) b) (some r)) scanned
            ∙ ap (λ r. r >>= (λ rest. ok (Option.map (λ text. ins ∷ text) rest))) run,
        (opcode, args, agree),
      )
