-- ===== src/Cpu/Steps.antt =====
-- src/cpu.c: the program counter of `run`.
use os.Prelude.{
  ◌+◌, ◌<◌, ◌≤◌, ◌≡◌, ap, ◌∙◌, ◌⊎◌, inl, inr, Option, none, some, Exec, ok, fault, ◌>>=◌, Rc, one,
  get_elem?-cases, Exec-cases, length, get_elem?,
}
use os.Process.{World}
use os.Cpu.{Inst, Task, execute, run}

-- `run` behind the execution of an instruction, and behind the fetch of one
abbrev advance : Task → Exec (Rc × World) → Exec (Rc × Task × World)
advance proc result = do (stat, w') ← result; ok (stat, record proc { pc = proc.pc + 1 }, w')

abbrev run_at : Task → World → Option Inst → Exec (Rc × Task × World)
run_at proc w fetched = elim fetched [
  | none ↦ ok (one, proc, w)
  | some ins ↦ advance proc (execute w proc.pid ins)
]

-- Past the last instruction `run` returns 1 and changes nothing. Before, it runs the instruction at
-- the program counter, which moves on by one whatever the instruction returns, and the program
-- stays as it is.
pub run_lem :
    (proc : Task) (w : World)
    → ((length proc.text ≤ proc.pc) × (run proc w ≡ ok (one, proc, w)))
      ⊎ ((ins : Inst) × (proc.pc < length proc.text)
          × (get_elem? proc.text proc.pc ≡ some ins)
          × ((execute w proc.pid ins ≡ fault) × (run proc w ≡ fault)
              ⊎ ((stat : Rc) × (w' : World) × (execute w proc.pid ins ≡ ok (stat, w'))
                  × (run proc w ≡ ok (stat, record proc { pc = proc.pc + 1 }, w')))))
unfolding run
run_lem proc w = elim (get_elem?-cases proc.text proc.pc) [
  | inl (h, e) ↦ inl (h, ap (run_at proc w) e)
  | inr (ins, h, e) ↦ inr (
    ins,
    h,
    e,
    elim (Exec-cases (execute w proc.pid ins)) [
      | inl f ↦ inl (f, ap (run_at proc w) e ∙ ap (advance proc) f)
      | inr ((stat, w'), f) ↦ inr (stat, w', f, ap (run_at proc w) e ∙ ap (advance proc) f)
    ],
  )
]
