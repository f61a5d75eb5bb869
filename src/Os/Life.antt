-- ===== src/Os/Life.antt =====
-- src/loader.c, src/os.c, src/sched.c and src/cpu.c: the way of a program from its file to its end.
use mathlib.Core.Path.{subst}
use os.Prelude.{
  ℕ, suc, ◌+◌, ◌-◌, ◌%◌, ◌<◌, ◌≡◌, refl, ap, sym, ◌∙◌, true, none, some, List, [], ◌∷◌, arith, ok,
  All, length, ==_iff,
}
use os.Prelude.Words.{u32_mod}
use os.Sched.{max_prio}
use os.Mm.{Mm}
use os.Cpu.{Inst}
use os.Loader.{long, Stdio, Loaded, load}
use os.Loader.Files.{Printer, IsPrinter}
use os.Loader.Names.{IsShort, IsSmall, Agree}
use os.Loader.Files.{limit, used_args}
use os.Loader.Whole.{program_file, load-program_file}
use os.Os.{Machine, pred32, stopped, cpu_turns}
use os.Os.Load.{Job, to_load, to_add, ld_stopped, ld_loaded, ld_turn, ld_turns}
use os.Os.Start.{ld_turns-due}
use os.Os.Idle.{Idle}
use os.Os.Dispatch.{control_block, new_block, with_admitted, admit-Idle, cpu_turn-one}
use os.Os.Finish.{IsCalc, IsLast-run_proc, cpu_turns-finish}

IsCalc-IsShort : (is : List Inst) → All IsCalc is → All (λ j. IsShort j.opcode) is
IsCalc-IsShort [] h = tt
IsCalc-IsShort (i ∷ is) h = (subst IsShort (sym h.0) tt, IsCalc-IsShort is h.1)

IsCalc-IsSmall : (is : List Inst) → All IsCalc is → All IsSmall is
IsCalc-IsSmall [] h = tt
IsCalc-IsSmall (i ∷ is) h =
    (subst (λ op. All (λ n. n < limit long) (used_args i op)) (sym h.0) tt, IsCalc-IsSmall is h.1)

Agree-length : (xs ys : List Inst) → Agree xs ys → length xs ≡ length ys
Agree-length [] [] h = refl
Agree-length [] (y ∷ ys) h = absurd h
Agree-length (x ∷ xs) [] h = absurd h
Agree-length (x ∷ xs) (y ∷ ys) h = ap suc (Agree-length xs ys h.2)

Agree-IsCalc : (xs ys : List Inst) → Agree xs ys → All IsCalc ys → All IsCalc xs
Agree-IsCalc [] ys h k = tt
Agree-IsCalc (x ∷ xs) [] h k = absurd h
Agree-IsCalc (x ∷ xs) (y ∷ ys) h k = (h.0 ∙ k.0, Agree-IsCalc xs ys h.2 k.1)

-- One process was admitted, and the loader has ended.
abbrev last_one : Machine → ℕ → Mm → Loaded → ℕ → Machine
last_one m ptr fresh proc prio = record (with_admitted m ptr fresh proc prio) { done = true }

-- The process that was admitted last runs to its end on one processor.
last_one-finish :
    (n : ℕ) (m : Machine) (ptr : ℕ) (fresh : Mm) (proc : Loaded) (prio : ℕ)
    → Idle m.sched
    → prio % u32_mod < max_prio
    → All IsCalc proc.text
    → proc.pc ≡ 0
    → suc n ≡ length proc.text
    → (m' : Machine) × (cpu_turns (suc (suc n)) (last_one m ptr fresh proc prio) 0 none
        ≡ ok (stopped, m'))
      × (m'.block ptr ≡ none)
unfolding cpu_turns
last_one-finish n m ptr fresh proc prio h l k z e =
    let p = control_block ptr proc prio in
    let m₀ = last_one m ptr fresh proc prio in
    let (s, turn, r, i) = cpu_turn-one m₀ m.sched p refl h l in
    let (m₁, run, last) =
      IsLast-run_proc (record m₀ { sched = s }) p (new_block fresh proc) n m.time_slot
        (record {
          idle = i;
          over = refl;
          level = l;
          block = rw ((==_iff ptr ptr).1 refl) refl;
          calcs = k;
          to_go = omega (arith, z, e);
        }) in
    let (m₂, rest, freed) = cpu_turns-finish n m₁ p _ (pred32 m.time_slot) last in
    (m₂, rw (turn, run) rest, freed)

module _ (c : Stdio) (m : Machine) (t : ℕ) where
  ld_turns-load :
      (n pid pid' : ℕ) (proc : Loaded) (j : Job c) (js : List (Job c))
      → load c j.fresh.text j.fresh.opcode j.fresh.buf pid j.file ≡ ok (some proc, pid')
      → ld_turns c (suc n) m t pid (to_load (j ∷ js))
        ≡ ld_turns c (suc n) m t pid' (to_add proc j js)
  unfolding ld_turns ld_turn ld_loaded
  ld_turns-load n pid pid' proc j js e = rw e refl

  ld_turns-end :
      (u pid : ℕ) → ld_turns c 1 m u pid (to_load []) ≡ ok (ld_stopped, record m { done = true })
  unfolding ld_turns ld_turn
  ld_turns-end u pid = refl

ld_turns-whole :
    (c : Stdio) (m : Machine) (t pid pid' : ℕ) (proc : Loaded) (j : Job c)
    → Idle m.sched
    → j.prio % u32_mod < max_prio
    → load c j.fresh.text j.fresh.opcode j.fresh.buf pid j.file ≡ ok (some proc, pid')
    → ld_turns c (suc (suc (j.start_time - t))) m t pid (to_load (j ∷ []))
      ≡ ok (ld_stopped, last_one m j.fresh.ptr j.fresh.mm proc j.prio)
ld_turns-whole c m t pid pid' proc j h l e =
    let n = j.start_time - t in
    ld_turns-load c m t (suc n) pid pid' proc j [] e
    ∙ ap (λ x. ld_turns c x m t pid' (to_add proc j [])) (one_more n)
    ∙ ld_turns-due c m pid' proc j [] n t 1 _ (omega arith) (omega arith)
        (admit-Idle m j.fresh.ptr j.fresh.mm proc j.prio h l)
    ∙ ld_turns-end c (with_admitted m j.fresh.ptr j.fresh.mm proc j.prio) t (t + suc n) pid'
  where
    one_more : (n : ℕ) → suc (suc n) ≡ suc n + 1
    one_more n = omega arith

-- The life of a process, from its program file to its end: the loader, in an idle system whose only
-- process is one with a program of CALC instructions, at least one and fewer than 2 ^ 32, with a
-- priority below 2 ^ 32 in the file and one below 140 in the configuration, reads the program, waits
-- for the start time, admits the process and ends; a processor then dispatches the process, runs it
-- to its end, frees its block and stops, in one pass for each instruction and one more, whatever the
-- time slot is.
pub cpu_turns-ld_turns :
    (c : Stdio) (p : Printer c) (laws : IsPrinter c p) (m : Machine) (t pid priority : ℕ)
    (j : Job c) (is : List Inst)
    → j.file ≡ some (program_file c p laws priority is)
    → Idle m.sched
    → priority < u32_mod
    → j.prio % u32_mod < max_prio
    → 0 < length is
    → length is < u32_mod
    → All IsCalc is
    → (m₁ m₂ : Machine) × (ld_turns c (suc (suc (j.start_time - t))) m t pid (to_load (j ∷ []))
        ≡ ok (ld_stopped, m₁))
      × (cpu_turns (suc (length is)) m₁ 0 none ≡ ok (stopped, m₂))
      × (m₂.block j.fresh.ptr ≡ none)
cpu_turns-ld_turns c p laws m t pid priority j is f h hp l pos small k =
    let (text, run, agree) =
      load-program_file c p laws j.fresh.text j.fresh.opcode j.fresh.buf pid priority is hp small
        (IsCalc-IsShort is k) (IsCalc-IsSmall is k) in
    let proc : Loaded = record { pid = pid; priority = priority; pc = 0; text = text } in
    let size = Agree-length text is agree in
    let (m₂, rest, freed) =
      last_one-finish (length is - 1) m j.fresh.ptr j.fresh.mm proc j.prio h l
        (Agree-IsCalc text is agree k) refl (omega (arith, size, pos)) in
    (
      last_one m j.fresh.ptr j.fresh.mm proc j.prio,
      m₂,
      ld_turns-whole c m t pid _ proc j h l
          (ap (load c j.fresh.text j.fresh.opcode j.fresh.buf pid) f ∙ run),
      ap (λ n. cpu_turns n (last_one m j.fresh.ptr j.fresh.mm proc j.prio) 0 none)
            (passes (length is) pos)
          ∙ rest,
      freed,
    )
  where
    passes : (n : ℕ) → 0 < n → suc n ≡ suc (suc (n - 1))
    passes n h = omega arith
