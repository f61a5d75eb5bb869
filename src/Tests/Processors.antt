-- ===== src/Tests/Processors.antt =====
-- src/os.c: one processor and the loader, with processes of two instructions.
use os.Prelude.{
  ◌<◌, ◌∙◌, ◌≢◌, ℕ, suc, ◌-◌, ◌≤◌, ◌≡◌, refl, none, some, [], ◌∷◌, true, false, arith, ok, success,
  Returns, update,
}
use os.Queue.{Pcb, enqueue}
use os.Sched.{Sched, max_prio}
use os.Memphy.{Memphy}
use os.PageTable.{calloc}
use os.Mm.{Mm}
use os.Cpu.{Opcode, Inst, Task, run}
use os.Loader.{Stdio, Loaded}
use os.Os.{pred32, Block, Machine, world, slot_over, run_proc, cpu_turn, cpu_turns}
use os.Os.Share.{Threads, with_pass, Step, Reach as Reach_threads}
use os.Queue.Count.{count_in}
use os.Os.Own.Apart.{Reach-apart}
use os.Os.Turns.{run_proc-ok, ran, Within, cpu_turn-Within}
use os.Os.Idle.{Idle, cpu_turns-Idle}
use os.Os.Load.{admit, Job, to_load, to_add, ld_slot, ld_turns}
use os.Os.Dispatch.{control_block, new_block, admit-cpu_turn}
use os.Os.Start.{ld_turns-start_time}

abbrev blank : Memphy
blank = record { cells = λ _. 0; size = 0; maxsz = 0; rdmflg = true; cursor = 0; free_fp_list = [] }

abbrev zeroed : Mm
zeroed = record { pgd = calloc 4; mmap = []; symrgtbl = []; fifo_pgn = []; kcpooltbl = none }

abbrev static_sched : Sched
static_sched = record {
  ready_queue = [];
  run_queue = [];
  running_list = [];
  mlq_ready_queue = λ _. [];
  slot = λ _. 0;
  curr_prio = 0;
  curr_slot_cnt = 0;
}

abbrev calc : Inst
calc = record { opcode = Opcode.calc; arg_0 = 0; arg_1 = 0; arg_2 = 0; arg_3 = 0 }

abbrev at_pc : ℕ → Task
at_pc n = record { pid = 1; pc = n; text = calc ∷ calc ∷ [] }

-- the process at address 1 has run `n` of its instructions
abbrev machine : ℕ → Machine
machine n = record {
  sched = static_sched;
  os = record {
    mm = zeroed;
    mram = blank;
    active_mswp = blank;
    active_mswp_id = 0;
    running_list = [];
    krnl_pgd = none;
  };
  block = update (λ _. none) 1 (some (record { task = at_pc n; mm = zeroed }));
  done = true;
  time_slot = 2;
}

abbrev block : ℕ → Block
block n = record { task = at_pc n; mm = zeroed }

abbrev pcb : Pcb
pcb = record { ptr = 1; pid = 1; priority = 0; prio = 0 }

calc_runs :
    run (at_pc 1) (world (machine 1) (block 1)) ≡ ok (success, at_pc 2, world (machine 1) (block 1))
unfolding run os.Cpu.execute
calc_runs = refl

cpu_turn-Within_example : Returns (λ r. Within 2 r.0) (cpu_turn (machine 1) 0 (some pcb))
cpu_turn-Within_example =
    cpu_turn-Within (machine 1) 0 2 (some pcb) (omega arith) (omega arith) refl

nothing_ready : Idle static_sched
nothing_ready = (omega arith, λ p h. refl)

cpu_turns-Idle_example :
    (sched : Sched) × (cpu_turns 1000 (machine 1) 0 none
      ≡ ok (slot_over none 0, record (machine 1) { sched = sched }))
    × Idle sched
cpu_turns-Idle_example = cpu_turns-Idle 1000 (machine 1) 0 nothing_ready

abbrev proc : Loaded
proc = record { pid = 1; priority = 5; pc = 0; text = calc ∷ calc ∷ [] }

admit-cpu_turn_example :
    let p = control_block 7 proc 130 in
    (m' : Machine) × (m'' : Machine) × (admit (machine 1) 7 zeroed proc 130 ≡ ok m')
    × (cpu_turn m' 0 none ≡ run_proc m'' p 2)
    × (m''.block 7 ≡ some (new_block zeroed proc))
    × (m''.sched.running_list ≡ enqueue [] (some p))
    × Idle m''.sched
admit-cpu_turn_example = admit-cpu_turn (machine 1) 7 zeroed proc 130 nothing_ready (omega arith)

abbrev no_files : Stdio
no_files = record {
  File = Unit;
  scan_word = λ f. (none, f);
  scan_num = λ v f. (none, f);
  skip_space = λ f. f;
  fgets = λ f. (none, f);
}

abbrev job : Job no_files
job = record {
  file = none;
  start_time = 3;
  prio = 130;
  fresh = record { ptr = 7; mm = zeroed; text = λ _. calc; opcode = ""; buf = tt };
}

-- the machine once the process was admitted
abbrev admitted : Machine
admitted = (admit-cpu_turn (machine 1) 7 zeroed proc 130 nothing_ready (omega arith)).0

ld_turns-start_time_example :
    ((n : ℕ)
      → n ≤ 3 - 1
      → ld_turns no_files n (machine 1) 1 2 (to_add proc job [])
        ≡ ok (ld_slot 2 (to_add proc job []), machine 1))
    × (ld_turns no_files (suc (3 - 1)) (machine 1) 1 2 (to_add proc job [])
        ≡ ok (ld_slot 2 (to_load []), admitted))
ld_turns-start_time_example =
    ld_turns-start_time no_files (machine 1) 2 proc job [] 1 admitted
      (admit-cpu_turn (machine 1) 7 zeroed proc 130 nothing_ready (omega arith)).2

-- two processors, the first of which takes the process that the loader added
abbrev started : Threads
started = record {
  machine = machine 1;
  num_cpus = 2;
  cpu = λ _. record { proc = none; time_left = 0; gone = false };
}

abbrev added : Threads
added = record started { machine = admitted }

-- the machine at the dispatch of the process, and what its first instruction leaves
abbrev dispatched : Machine
dispatched = (admit-cpu_turn (machine 1) 7 zeroed proc 130 nothing_ready (omega arith)).1

abbrev first_run : Machine
first_run = ran dispatched 7 (at_pc 1) (world dispatched (new_block zeroed proc))

first_turn :
    cpu_turn admitted 0 none
    ≡ ok (slot_over (some (control_block 7 proc 130)) (pred32 2), first_run)
unfolding run os.Cpu.execute
first_turn =
    let d = admit-cpu_turn (machine 1) 7 zeroed proc 130 nothing_ready (omega arith) in
    d.3
    ∙ run_proc-ok dispatched (control_block 7 proc 130) (new_block zeroed proc) 2 success (at_pc 1)
        (world dispatched (new_block zeroed proc)) d.4 refl

abbrev both_ran : Threads
both_ran = with_pass added 0 (slot_over (some (control_block 7 proc 130)) (pred32 2)) first_run

both_ran-Reach : Reach_threads both_ran
both_ran-Reach =
    Reach_threads.later
      (Reach_threads.later (Reach_threads.begin {s = started} nothing_ready (λ i. refl)) (
        Step.add 7 zeroed proc 130 admitted refl
          (admit-cpu_turn (machine 1) 7 zeroed proc 130 nothing_ready (omega arith)).2 refl))
      (Step.turn 0 _ first_run (omega arith) refl first_turn refl)

Reach-apart_example :
    ((b : Block) × (both_ran.machine.block 7 ≡ some b))
    × ((j : ℕ) (q : Pcb) → j < 2 → 0 ≢ j → (both_ran.cpu j).proc ≡ some q → q.ptr ≢ 7)
    × ((l : ℕ) → l < max_prio → count_in 7 (both_ran.machine.sched.mlq_ready_queue l) ≡ 0)
Reach-apart_example = Reach-apart 0 (control_block 7 proc 130) both_ran-Reach (omega arith) refl
