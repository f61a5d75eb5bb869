-- ===== src/Sched.antt =====
-- src/sched.c with MLQ_SCHED (defined in include/os-cfg.h): the multi-level queue scheduler.
-- Each function runs under `queue_lock`, so a call is one step. The array of ready queues is a
-- function of the priority level. `ready_queue` and `run_queue` are used on the other path only:
-- nothing is put into them here.
pub mod Pick
pub mod Keep
pub mod Waiting
pub mod Single
use os.Prelude.{
  update, ℕ, zero, suc, ◌+◌, ◌-◌, ◌%◌, Bool, true, false, ◌&&◌, Option, none, some, List, [], ltb,
  leb, ◌==◌, if◌then◌else◌, Exec, ok, fault,
}
use os.Queue.{Pcb, Queue, empty, enqueue, dequeue, purgequeue}

abbrev pub max_prio : ℕ
max_prio = 140

-- The static variables; the last two are those of `get_mlq_proc`.
pub record Sched : Type 0 where
  pub ready_queue : Queue
  pub run_queue : Queue
  pub running_list : Queue
  pub mlq_ready_queue : ℕ → Queue
  pub slot : ℕ → ℕ
  pub curr_prio : ℕ
  pub curr_slot_cnt : ℕ

-- `init_scheduler` leaves the static variables of `get_mlq_proc` alone.
unfoldable pub init_scheduler : Sched → Sched
init_scheduler s = record s {
  mlq_ready_queue = λ i. if ltb i max_prio then [] else s.mlq_ready_queue i;
  slot = λ i. if ltb i max_prio then max_prio - i else s.slot i;
  ready_queue = [];
  run_queue = [];
  running_list = [];
}

-- the loop of `queue_empty` over the levels below `n`
unfoldable pub levels_empty : (ℕ → Queue) → ℕ → Bool
levels_empty q zero = true
levels_empty q (suc n) = levels_empty q n && empty (q n)

-- `queue_empty`: -1 if a level has a process, else the conjunction of the two tests.
pub data Emptiness : Type 0 where
  level_busy : Emptiness
  others_empty : Bool → Emptiness

unfoldable pub queue_empty : Sched → Emptiness
queue_empty s =
    if levels_empty s.mlq_ready_queue max_prio
    then others_empty (empty s.ready_queue && empty s.run_queue)
    else level_busy

-- on to the next level with a full budget
unfoldable pub next_level : Sched → Sched
next_level s = record s { curr_prio = (s.curr_prio + 1) % max_prio; curr_slot_cnt = 0 }

-- the process of the current level, charged to its budget
unfoldable pub serve : Sched → Option Pcb × Sched
serve s =
    let (proc, q) = dequeue (s.mlq_ready_queue s.curr_prio) in
    let t = record s {
      mlq_ready_queue = update s.mlq_ready_queue s.curr_prio q;
      curr_slot_cnt = s.curr_slot_cnt + 1;
    } in
    (proc, if leb (s.slot s.curr_prio) (s.curr_slot_cnt + 1) then next_level t else t)

-- the loop over at most `n` levels
unfoldable pub search_levels : ℕ → Sched → Option Pcb × Sched
search_levels zero s = (none, s)
search_levels (suc n) s = elim (empty (s.mlq_ready_queue s.curr_prio)) [
  | true ↦ search_levels n (next_level s)
  | false ↦ serve s
]

unfoldable pub get_mlq_proc : Sched → Option Pcb × Sched
get_mlq_proc s =
    let (proc, t) = search_levels max_prio s in
    (proc, record t { running_list = enqueue t.running_list proc })

-- A `prio` of MAX_PRIO or more indexes outside the array.
unfoldable pub put_mlq_proc : Sched → Pcb → Exec Sched
put_mlq_proc s proc =
    if ltb proc.prio max_prio
    then ok (record s {
      running_list = (purgequeue s.running_list (some proc)).1;
      mlq_ready_queue =
          update s.mlq_ready_queue proc.prio (enqueue (s.mlq_ready_queue proc.prio) (some proc));
    })
    else fault

unfoldable pub add_mlq_proc : Sched → Pcb → Exec Sched
add_mlq_proc s proc =
    if ltb proc.prio max_prio
    then ok (record s {
      mlq_ready_queue =
          update s.mlq_ready_queue proc.prio (enqueue (s.mlq_ready_queue proc.prio) (some proc));
    })
    else fault

-- the wrappers of the MLQ path
unfoldable pub get_proc : Sched → Option Pcb × Sched
get_proc s = get_mlq_proc s

unfoldable pub put_proc : Sched → Pcb → Exec Sched
put_proc s proc = put_mlq_proc s proc

unfoldable pub add_proc : Sched → Pcb → Exec Sched
add_proc s proc = add_mlq_proc s proc
