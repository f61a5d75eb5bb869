-- ===== src/Tests/Scheduling.antt =====
-- src/queue.c and src/sched.c at small queues.
use os.Prelude.{
  ◌≤◌, ◌*◌, ℕ, ◌-◌, ◌+◌, ◌<◌, ◌≡◌, refl, some, [], ◌∷◌, ◌++◌, arith, ◌==◌, if◌then◌else◌, update,
  inl, inr, sym, ==_iff, Bool-cases,
}
use os.Queue.{Pcb, Queue, enqueue, dequeue, purgequeue}
use os.Queue.Count.{count_in}
use os.Sched.Single.{get, put, add, calls, calls-added}
use os.Queue.Dequeue.{IsBest, dequeue-IsBest}
use os.Sched.{Sched, max_prio, get_mlq_proc, put_mlq_proc, add_mlq_proc}
use os.Sched.Pick.{level, slots_used, level_after, get_mlq_proc_first}
use os.Sched.Waiting.{none_yet, call, get_mlq_proc-Passed}
use os.Sched.Keep.{IsLevel, IsValid}

abbrev proc_a : Pcb
proc_a = record { ptr = 1; pid = 1; priority = 4; prio = 2 }

abbrev proc_b : Pcb
proc_b = record { ptr = 2; pid = 2; priority = 3; prio = 2 }

abbrev proc_c : Pcb
proc_c = record { ptr = 3; pid = 3; priority = 4; prio = 2 }

dequeue-IsBest_example :
    (p : Pcb) × (before : Queue) × (after : Queue) × IsBest
      (proc_a ∷ proc_b ∷ proc_c ∷ [])
      p
      before
      after
    × (dequeue (proc_a ∷ proc_b ∷ proc_c ∷ []) ≡ (some p, before ++ after))
dequeue-IsBest_example = dequeue-IsBest (proc_a ∷ proc_b ∷ proc_c ∷ []) (omega arith)

dequeue_picks_b : dequeue (proc_a ∷ proc_b ∷ proc_c ∷ []) ≡ (some proc_b, proc_a ∷ proc_c ∷ [])
unfolding dequeue os.Queue.find_best os.Queue.compact os.Queue.shift_left
dequeue_picks_b = refl

-- a scheduler whose processes are all at level 2
abbrev queues : ℕ → Queue
queues p = if p == 2 then proc_a ∷ proc_b ∷ [] else []

abbrev with_queues : (ℕ → Queue) → Sched
with_queues q = record {
  ready_queue = [];
  run_queue = [];
  running_list = [];
  mlq_ready_queue = q;
  slot = λ p. 140 - p;
  curr_prio = 0;
  curr_slot_cnt = 0;
}

below_two : (j : ℕ) → j < 2 → queues (level (with_queues queues) j) ≡ []
below_two j h = ground arith

get_mlq_proc_first_example :
    let (proc, q) = dequeue (queues (level (with_queues queues) 2)) in
    let (p, used) =
      level_after
        (with_queues queues)
        (level (with_queues queues) 2)
        (slots_used (with_queues queues) 2) in
    get_mlq_proc (with_queues queues) ≡ (
      proc,
      record (with_queues queues) {
        mlq_ready_queue = update queues (level (with_queues queues) 2) q;
        running_list = enqueue [] proc;
        curr_prio = p;
        curr_slot_cnt = used;
      },
    )
get_mlq_proc_first_example =
    get_mlq_proc_first (with_queues queues) 2 (omega arith) (omega arith) below_two (omega arith)

queues-IsLevel : (p : ℕ) → p < max_prio → IsLevel p (queues p)
queues-IsLevel p h = elim (Bool-cases (p == 2)) [
  | inl e ↦ rw e (record {
    fits = omega arith;
    belongs = (sym ((==_iff p 2).0 e), (sym ((==_iff p 2).0 e), tt));
  })
  | inr e ↦ rw e (record { fits = omega arith; belongs = tt })
]

with_queues-IsValid : IsValid (with_queues queues)
with_queues-IsValid = record {
  exists = omega arith;
  budgets = λ p h. refl;
  budget_left = omega arith;
  levels = queues-IsLevel;
}

-- a process at level 0 beside those at level 2, and a call that takes it
abbrev two_levels : Sched
two_levels =
    with_queues
      (λ p. if p == 0 then record { ptr = 9; pid = 9; priority = 1; prio = 0 } ∷ [] else queues p)

two_levels-IsLevel : (p : ℕ) → p < max_prio → IsLevel p (two_levels.mlq_ready_queue p)
two_levels-IsLevel p h = elim (Bool-cases (p == 0)) [
  | inl e ↦ rw e (record { fits = omega arith; belongs = (sym ((==_iff p 0).0 e), tt) })
  | inr e ↦ rw e (queues-IsLevel p h)
]

two_levels-IsValid : IsValid two_levels
two_levels-IsValid = record {
  exists = omega arith;
  budgets = λ p h. refl;
  budget_left = omega arith;
  levels = two_levels-IsLevel;
}

first_passes : (get_mlq_proc two_levels).1.mlq_ready_queue 2 ≡ two_levels.mlq_ready_queue 2
unfolding get_mlq_proc os.Sched.search_levels os.Sched.serve os.Sched.next_level os.Queue.empty
    dequeue os.Queue.compact os.Queue.find_best
first_passes = refl

get_mlq_proc-Passed_example : 1 ≤ 139 * max_prio
get_mlq_proc-Passed_example =
    get_mlq_proc-Passed two_levels-IsValid (omega arith) (omega arith) (call none_yet first_passes)

-- the single-queue scheduler with no process
abbrev one_queue : Sched
one_queue = with_queues (λ p. [])

calls-added_example :
    count_in 1 (calls (add proc_a ∷ get ∷ put proc_a ∷ get ∷ []) one_queue).0
      + count_in 1 (calls (add proc_a ∷ get ∷ put proc_a ∷ get ∷ []) one_queue).1.ready_queue
    ≤ 1
calls-added_example = calls-added 1 (add proc_a ∷ get ∷ put proc_a ∷ get ∷ []) one_queue
