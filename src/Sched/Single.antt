-- ===== src/Sched/Single.antt =====
-- src/sched.c without MLQ_SCHED: the scheduler with one ready queue. Each function runs under
-- `queue_lock`, so a call is one step.
use os.Prelude.{ℕ, ◌+◌, ◌≤◌, ◌≡◌, Option, none, some, List, [], ◌∷◌, arith, refl, ◌∙◌, Bool, ◌&&◌}
use os.Queue.{Pcb, Queue, empty, enqueue, dequeue, purgequeue}
use os.Queue.Count.{is_at, held, count_in, count_in-dequeue, count_in-enqueue}
use os.Sched.{Sched}

unfoldable init_scheduler : Sched → Sched
init_scheduler s = record s { ready_queue = []; run_queue = []; running_list = [] }

unfoldable queue_empty : Sched → Bool
queue_empty s = empty s.ready_queue && empty s.run_queue

-- the process that was dequeued, tracked in `running_list`
abbrev pub picked : Sched → Queue → Option Pcb → Option Pcb × Sched
picked s q none = (none, record s { ready_queue = q })
picked s q (some p) =
    (some p, record s { ready_queue = q; running_list = enqueue s.running_list (some p) })

unfoldable pub get_proc : Sched → Option Pcb × Sched
get_proc s = let (proc, q) = dequeue s.ready_queue in picked s q proc

unfoldable pub put_proc : Sched → Pcb → Sched
put_proc s proc = record s {
  running_list = (purgequeue s.running_list (some proc)).1;
  run_queue = enqueue s.run_queue (some proc);
}

unfoldable pub add_proc : Sched → Pcb → Sched
add_proc s proc = record s { ready_queue = enqueue s.ready_queue (some proc) }

-- a call of one of the three functions
pub data Call : Type 0 where
  get : Call
  put : Pcb → Call
  add : Pcb → Call

-- the processes that a list of calls gets, in order, and the state after it
abbrev pub calls : List Call → Sched → Queue × Sched
calls [] s = ([], s)
calls (get ∷ cs) s =
    let (proc, s') = get_proc s in
    let (got, t) = calls cs s' in (elim proc [ none ↦ got | some p ↦ p ∷ got ], t)
calls (put p ∷ cs) s = calls cs (put_proc s p)
calls (add p ∷ cs) s = calls cs (add_proc s p)

-- how often a list of calls adds the process at the address
abbrev pub added : ℕ → List Call → ℕ
added ptr [] = 0
added ptr (add p ∷ cs) = is_at ptr p + added ptr cs
added ptr (get ∷ cs) = added ptr cs
added ptr (put p ∷ cs) = added ptr cs

counted :
    (ptr : ℕ) (proc : Option Pcb) (got : Queue)
    → count_in ptr (elim proc [ none ↦ got | some p ↦ p ∷ got ]) ≡ held ptr proc + count_in ptr got
counted ptr none got = omega arith
counted ptr (some p) got = omega arith

picked-counts :
    (ptr : ℕ) (s : Sched) (q : Queue) (proc : Option Pcb)
    → count_in ptr (picked s q proc).1.ready_queue + held ptr (picked s q proc).0
      ≡ count_in ptr q + held ptr proc
picked-counts ptr s q none = refl
picked-counts ptr s q (some p) = refl

get_proc-counts :
    (ptr : ℕ) (s : Sched)
    → count_in ptr (get_proc s).1.ready_queue + held ptr (get_proc s).0 ≡ count_in ptr s.ready_queue
unfolding get_proc
get_proc-counts ptr s =
    let (proc, q) = dequeue s.ready_queue in
    picked-counts ptr s q proc ∙ count_in-dequeue ptr s.ready_queue

-- In the build with one queue, whatever the calls: a process is picked at most as often as it was
-- added, so a process that `put_proc` gave back is not picked again.
pub calls-added :
    (ptr : ℕ) (cs : List Call) (s : Sched)
    → count_in ptr (calls cs s).0 + count_in ptr (calls cs s).1.ready_queue
      ≤ count_in ptr s.ready_queue + added ptr cs
unfolding put_proc add_proc
calls-added ptr [] s = omega arith
calls-added ptr (get ∷ cs) s = omega (
  arith,
  calls-added ptr cs (get_proc s).1,
  get_proc-counts ptr s,
  counted ptr (get_proc s).0 (calls cs (get_proc s).1).0,
)
calls-added ptr (put p ∷ cs) s = calls-added ptr cs (put_proc s p)
calls-added ptr (add p ∷ cs) s =
    omega (arith, calls-added ptr cs (add_proc s p), count_in-enqueue ptr s.ready_queue p)
