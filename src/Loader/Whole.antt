-- ===== src/Loader/Whole.antt =====
-- src/loader.c: a whole program file goes through load.
use Prim.Native.String.{String}
use os.Prelude.{
  ℕ, ◌+◌, ◌%◌, ◌≡◌, ◌<◌, refl, ap, ◌∙◌, List, [], ◌∷◌, ◌++◌, some, arith, lt→ltb, if◌then◌else◌, ok,
  fault, ◌>>=◌, All, length,
}
use os.Prelude.Words.{u32_mod}
use os.Cpu.{Inst}
use os.Loader.{
  unsigned, Stdio, text_length, get_opcode, set_args, store_opcode, load_inst, load_rest, load_loop,
  loaded, load_text, load,
}
use os.Loader.Files.{newline, Printer, IsPrinter, name_of, used_args, program}
use os.Loader.Names.{IsShort, IsSmall, Agree, name_of-IsWord, short-IsWord}
use os.Loader.Program.{
  buffers, line_of, word_in_line, scan_args-used, load_loop-step, load_loop-program,
  scan_nums-first,
}

module _ (c : Stdio) (p : Printer c) (laws : IsPrinter c p) where
  -- a program file: a line with the priority and the number of instructions, the instructions
  abbrev pub program_file : ℕ → List Inst → c.File
  program_file priority is = p.put_num priority (line_of c p laws (length is ∷ []) (program p is))

  -- `load` behind the header of a program file
  load-header :
      (stale : ℕ → Inst) (o : String) (b : c.File) (pid priority : ℕ) (is : List Inst)
      → priority < u32_mod
      → length is < u32_mod
      → load c stale o b pid (some (program_file priority is)) ≡ (do
        proc ←
            load_text c stale o b pid
              (priority ∷ length is ∷ [], p.put_space newline (program p is))
        ok (proc, (pid + 1) % u32_mod))
  unfolding load
  load-header stale o b pid priority is hp hn =
      ap (λ r. load_text c stale o b pid r >>= (λ proc. ok (proc, (pid + 1) % u32_mod)))
        (scan_nums-first c p laws unsigned priority (length is ∷ []) (program p is) hp (hn, tt))

  small : (n : ℕ) → n < u32_mod → n % u32_mod ≡ n
  small n h = omega arith

  -- `load` reads a program file back: for a program whose opcodes have words of at most 9 characters
  -- and whose arguments are below 2 ^ 64, with a priority and a number of instructions below 2 ^ 32,
  -- the process has the next pid, that priority, counter 0, and instructions with the same opcodes and
  -- the same arguments, as far as each opcode has them; the pid moves on by one.
  pub load-program_file :
      (stale : ℕ → Inst) (o : String) (b : c.File) (pid priority : ℕ) (is : List Inst)
      → priority < u32_mod
      → length is < u32_mod
      → All (λ j. IsShort j.opcode) is
      → All IsSmall is
      → (text : List Inst) × (load c stale o b pid (some (program_file priority is))
          ≡ ok (
            some (record { pid = pid; priority = priority; pc = 0; text = text }),
            (pid + 1) % u32_mod,
          ))
        × Agree text is
  unfolding load_text loaded
  load-program_file stale o b pid priority is hp hn hs ks =
      let (text, run, agree) =
        load_loop-program c p laws is stale 0 (p.put_space newline (program p is)) o b hs ks
          (laws.word_spaced newline (program p is)) in
      (
        text,
        load-header stale o b pid priority is hp hn
            ∙ (rw (small (length is) hn, small priority hp, run) refl),
        agree,
      )

  store_opcode-long_word :
      (j : Inst) (f g : c.File) (ns : List ℕ) (o : String) (b : c.File)
      → c.scan_word f ≡ c.scan_word (p.put_word (name_of j.opcode) (line_of c p laws ns g))
      → 9 < text_length (name_of j.opcode)
      → store_opcode c (buffers c p laws f o b) (c.scan_word f) ≡ fault
  unfolding store_opcode
  store_opcode-long_word j f g ns o b e hl =
      ap (store_opcode c (buffers c p laws f o b)) (
        e
        ∙ word_in_line c p laws (name_of j.opcode) ns g
            (name_of-IsWord j.opcode (omega (arith, hl))))
      ∙ ap
          (λ t.
            if t then fault else ok (buffers c p laws (line_of c p laws ns g) (name_of j.opcode) b))
          (lt→ltb 9 _ hl)

  -- The loop faults at the first word that is too long.
  load_loop-long_word :
      (before after : List Inst) (j : Inst) (stale : ℕ → Inst) (i : ℕ) (g : c.File) (o : String)
      (b : c.File)
      → All (λ j. IsShort j.opcode) before
      → All IsSmall before
      → 9 < text_length (name_of j.opcode)
      → c.scan_word g ≡ c.scan_word (program p (before ++ (j ∷ after)))
      → load_loop c stale (length (before ++ (j ∷ after))) i (buffers c p laws g o b) ≡ fault
  unfolding load_loop store_opcode load_rest
  load_loop-long_word [] after j stale i g o b hs ks hl e =
      ap
        (λ r. r >>= (λ b.
          load_rest c (λ b. load_loop c stale (length after) (i + 1) b)
            (load_inst c (stale i) b (get_opcode b.opcode))))
        (store_opcode-long_word j g (program p after) (used_args j j.opcode) o b e hl)
  load_loop-long_word (k ∷ before) after j stale i g o b (h, hs) (l, ls) hl e =
      let is = before ++ (j ∷ after) in
      let op = k.opcode in
      let (b', g', scanned, next) =
        scan_args-used c p laws op k (record (stale i) { opcode = op }) (program p is) (name_of op)
          b h l (starts before after j hs hl) in
      load_loop-step c p laws stale (length is) i op (used_args k op) (program p is) g o b h e
      ∙ ap (λ r. load_rest c (λ b. load_loop c stale (length is) (i + 1) b) (some r)) scanned
      ∙ ap
          (λ r. r >>= (λ rest. ok (
            mathlib.Core.Option.map
              (λ text. set_args (record (stale i) { opcode = op }) (used_args k op) ∷ text) rest)))
          (load_loop-long_word before after j stale (i + 1) g' (name_of op) b' hs ls hl next)
    where
      starts :
          (before after : List Inst) (j : Inst)
          → All (λ j. IsShort j.opcode) before
          → 9 < text_length (name_of j.opcode)
          → c.skip_space (program p (before ++ (j ∷ after))) ≡ program p (before ++ (j ∷ after))
      starts [] after j hs hl =
          laws.word_starts (name_of j.opcode) _ (name_of-IsWord j.opcode (omega (arith, hl)))
      starts (k ∷ before) after j (h, hs) hl =
          laws.word_starts (name_of k.opcode) _ (short-IsWord k.opcode h)

  -- `load` overruns its array `opcode` on any program file, with a priority and a number of instructions
  -- below 2 ^ 32, in which an instruction whose word has 10 characters or more stands behind
  -- instructions with shorter words and with arguments below 2 ^ 64.
  pub load-long_word :
      (stale : ℕ → Inst) (o : String) (b : c.File) (pid priority : ℕ) (before after : List Inst)
      (j : Inst)
      → priority < u32_mod
      → length (before ++ (j ∷ after)) < u32_mod
      → All (λ j. IsShort j.opcode) before
      → All IsSmall before
      → 9 < text_length (name_of j.opcode)
      → load c stale o b pid (some (program_file priority (before ++ (j ∷ after)))) ≡ fault
  unfolding load_text
  load-long_word stale o b pid priority before after j hp hn hs ks hl =
      let is = before ++ (j ∷ after) in
      load-header stale o b pid priority is hp hn
      ∙ (rw
          (
            small (length is) hn,
            load_loop-long_word before after j stale 0 (p.put_space newline (program p is)) o b hs
                ks hl (laws.word_spaced newline (program p is)),
          )
          refl)
