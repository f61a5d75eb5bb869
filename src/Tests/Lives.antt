-- ===== src/Tests/Lives.antt =====
-- src/os.c with one program of two instructions, which starts at time 3.
use os.Prelude.{◌-◌, suc, ◌-◌, ◌≡◌, false, refl, none, some, List, [], ◌∷◌, arith, ok}
use os.Cpu.{Opcode, Inst}
use os.Loader.Whole.{program_file}
use os.Os.{Machine, stopped, cpu_turns}
use os.Os.Load.{Job, to_load, ld_stopped, ld_turns}
use os.Sched.Keep.{IsValid}
use os.Timer.{System, running, check}
use os.Os.Config.{Config}
use os.Os.Boot.{Stray, Booted, boot}
use os.Os.Synced.{Synced, Reach}
use os.Os.Synced.Main.{started, Steps, boot-Steps}
use os.Os.Life.{cpu_turns-ld_turns}
use os.Tests.Threads.{items, printed, printed-IsPrinter, inst, junk}
use os.Tests.Together.{machine, zeroed, blank, nothing_ready}

abbrev program : List Inst
program = inst Opcode.calc ∷ inst Opcode.calc ∷ []

abbrev job : Job items
job = record {
  file = some (program_file items printed printed-IsPrinter 5 program);
  start_time = 3;
  prio = 130;
  fresh = record { ptr = 7; mm = zeroed; text = junk; opcode = ""; buf = [] };
}

cpu_turns-ld_turns_example :
    (m₁ m₂ : Machine) × (ld_turns items (suc (suc (3 - 1))) machine 1 1 (to_load (job ∷ []))
      ≡ ok (ld_stopped, m₁))
    × (cpu_turns 3 m₁ 0 none ≡ ok (stopped, m₂))
    × (m₂.block 7 ≡ none)
cpu_turns-ld_turns_example =
    cpu_turns-ld_turns items printed printed-IsPrinter machine 1 1 5 job program refl nothing_ready
      (omega arith) (omega arith) (omega arith) (omega arith) (refl, (refl, tt))

abbrev config : Config
config = record {
  time_slot = 2;
  num_cpus = 4;
  memramsz = 1048576;
  memswpsz = 16777216 ∷ 0 ∷ 0 ∷ 0 ∷ [];
  processes = [];
}

abbrev timer : System
timer = record {
  count = 0;
  device = λ _. record { done = false; fsh = false; phase = running; slot = 0 };
  time = 0;
  timer_started = false;
  timer_stop = false;
  pc = check;
  rounds = 0;
}

abbrev stray : Stray
stray = record { device = blank; list = [] }

boot-Steps_example :
    (b : Booted) × (boot config machine timer stray (stray ∷ []) zeroed ≡ some b)
    × (b.machine.time_slot ≡ 2)
    × ((t : Synced items)
        → Steps (started config b (job ∷ [])) t
        → IsValid t.threads.machine.sched × Reach items t)
boot-Steps_example =
    boot-Steps items (job ∷ []) config machine timer stray stray [] zeroed 16777216 (0 ∷ 0 ∷ 0 ∷ [])
      refl refl refl refl refl
