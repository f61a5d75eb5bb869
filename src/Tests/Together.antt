-- ===== src/Tests/Together.antt =====
-- src/os.c and src/timer.c: two processors and the loader that share a machine and the timer.
use os.Prelude.{◌≤◌, ◌-◌, ◌+◌, ◌⊎◌, ◌≡◌, refl, none, [], ◌∷◌, true, false, arith}
use os.Sched.{Sched, max_prio}
use os.Sched.Keep.{IsValid}
use os.Memphy.{Memphy}
use os.PageTable.{calloc}
use os.Mm.{Mm}
use os.Cpu.{Opcode, Inst}
use os.Loader.{Stdio, Loaded}
use os.Os.{Machine, slot_over}
use os.Os.Load.{to_load}
use os.Os.Idle.{Idle, cpu_turn-Idle}
use os.Os.Dispatch.{admit-cpu_turn}
use os.Os.Share.{Threads}
use os.Os.Share
use os.Os.Keep.{Step-IsValid}
use os.Timer.{System, running, left, check, attached, start_timer, Attached, nobody, one_more}
use os.Timer
use os.Os.Synced.{Synced, Step, Reach, begin, later, after_turn}
use os.Os.Synced.Parts.{Reach-passes}

abbrev pub blank : Memphy
blank = record { cells = λ _. 0; size = 0; maxsz = 0; rdmflg = true; cursor = 0; free_fp_list = [] }

abbrev pub zeroed : Mm
zeroed = record { pgd = calloc 4; mmap = []; symrgtbl = []; fifo_pgn = []; kcpooltbl = none }

abbrev pub fresh_sched : Sched
fresh_sched = record {
  ready_queue = [];
  run_queue = [];
  running_list = [];
  mlq_ready_queue = λ _. [];
  slot = λ p. max_prio - p;
  curr_prio = 0;
  curr_slot_cnt = 0;
}

abbrev pub machine : Machine
machine = record {
  sched = fresh_sched;
  os = record {
    mm = zeroed;
    mram = blank;
    active_mswp = blank;
    active_mswp_id = 0;
    running_list = [];
    krnl_pgd = none;
  };
  block = λ _. none;
  done = false;
  time_slot = 2;
}

abbrev threads : Threads
threads = record {
  machine = machine;
  num_cpus = 2;
  cpu = λ _. record { proc = none; time_left = 0; gone = false };
}

abbrev calc : Inst
calc = record { opcode = Opcode.calc; arg_0 = 0; arg_1 = 0; arg_2 = 0; arg_3 = 0 }

abbrev proc : Loaded
proc = record { pid = 1; priority = 5; pc = 0; text = calc ∷ [] }

fresh_sched-IsValid : IsValid fresh_sched
fresh_sched-IsValid = record {
  exists = omega arith;
  budgets = λ p h. refl;
  budget_left = omega arith;
  levels = λ p h. record { fits = omega arith; belongs = tt };
}

pub nothing_ready : Idle fresh_sched
nothing_ready = (omega arith, λ p h. refl)

-- the machine once the loader has added the process
abbrev admitted : Machine
admitted = (admit-cpu_turn machine 7 zeroed proc 130 nothing_ready (omega arith)).0

abbrev with_admitted : Threads
with_admitted = record threads { machine = admitted }

Step-IsValid_example : IsValid admitted.sched
Step-IsValid_example = Step-IsValid {s = threads} {t = with_admitted} fresh_sched-IsValid (
    Share.add 7 zeroed proc 130 admitted refl
      (admit-cpu_turn machine 7 zeroed proc 130 nothing_ready (omega arith)).2 refl)

abbrev no_files : Stdio
no_files = record {
  File = Unit;
  scan_word = λ f. (none, f);
  scan_num = λ v f. (none, f);
  skip_space = λ f. f;
  fgets = λ f. (none, f);
}

abbrev no_device : System
no_device = record {
  count = 0;
  device = λ _. record { done = false; fsh = false; phase = running; slot = 0 };
  time = 0;
  timer_started = false;
  timer_stop = false;
  pc = check;
  rounds = 0;
}

abbrev three_devices : System
three_devices = attached (attached (attached no_device))

three_devices-Attached : Attached three_devices
unfolding os.Timer.attach_event
three_devices-Attached = one_more (one_more (one_more (nobody no_device refl refl) refl) refl) refl

abbrev at_start : Synced no_files
at_start = record {
  timer = start_timer three_devices;
  threads = threads;
  avail_pid = 1;
  loader = to_load [];
  passes = λ _. 0;
}

-- what the second processor's pass leaves, which finds no process
abbrev idled : Machine
idled = record machine { sched = (cpu_turn-Idle machine 0 nothing_ready).0 }

abbrev one_pass : Synced no_files
one_pass = after_turn at_start 1 (slot_over none 0) idled

one_pass-Reach : Reach no_files one_pass
one_pass-Reach =
    later
      (begin three_devices three_devices-Attached refl refl nothing_ready (λ i. refl) (λ i. refl))
      (Step.turn 1 (slot_over none 0) idled (omega arith) (unfold start_timer in refl) refl
        (cpu_turn-Idle machine 0 nothing_ready).1 refl)

Reach-passes_example :
    (one_pass.passes 0 ≡ one_pass.timer.rounds)
    × (((one_pass.timer.device 2).phase ≡ left)
        ⊎ (one_pass.passes 0 ≤ one_pass.passes 1) × (one_pass.passes 1 ≤ one_pass.passes 0 + 1))
    × Timer.Reach one_pass.timer
    × Share.Reach one_pass.threads
Reach-passes_example =
    Reach-passes 0 1 one_pass-Reach (omega arith) (omega arith) (unfold start_timer in refl)
