-- ===== src/Os/Idle.antt =====
-- src/os.c: processors without a process.
use os.Prelude.{==_iff, ℕ, zero, suc, ◌<◌, ◌≡◌, refl, ap, ◌∙◌, true, none, some, [], arith, ok}
use os.Queue.{Pcb, empty, enqueue}
use os.Sched.{Sched, max_prio, next_level, search_levels, get_mlq_proc, get_proc}
use os.Os.{
  Block, Machine, use_block, finished, free_proc, renew_running, renew, recheck, cpu_turn,
  cpu_turns, slot_over, stopped,
}

-- No process is ready.
abbrev pub Idle : Sched → Type 0
Idle s = (s.curr_prio < max_prio) × ((p : ℕ) → p < max_prio → s.mlq_ready_queue p ≡ [])

search_levels-Idle :
    (n : ℕ) (s : Sched)
    → Idle s
    → ((search_levels n s).0 ≡ none)
      × Idle (search_levels n s).1
      × ((search_levels n s).1.running_list ≡ s.running_list)
unfolding search_levels next_level empty
search_levels-Idle zero s h = (refl, h, refl)
search_levels-Idle (suc n) s (l, h) =
    rw (h s.curr_prio l, search_levels) (search_levels-Idle n (next_level s) ((omega arith), h))

get_proc-Idle :
    (s : Sched)
    → Idle s
    → ((get_proc s).0 ≡ none) × Idle (get_proc s).1 × ((get_proc s).1.running_list ≡ s.running_list)
unfolding get_proc get_mlq_proc enqueue
get_proc-Idle s h =
    let (e, (l, q), r) = search_levels-Idle max_prio s h in
    (e, (l, q), ap (enqueue (search_levels max_prio s).1.running_list) e ∙ r)

-- A pass of a processor without a process, while none is ready, ends with `next_slot` and no process,
-- even after `done` was set.
pub cpu_turn-Idle :
    (m : Machine) (t : ℕ)
    → Idle m.sched
    → (sched : Sched) × (cpu_turn m t none ≡ ok (slot_over none t, record m { sched = sched }))
      × Idle sched
unfolding cpu_turn renew recheck
cpu_turn-Idle m t h =
    let (e, i, r) = get_proc-Idle m.sched h in ((get_proc m.sched).1, rw e refl, i)

-- A processor that has no process while none is ready never stops, even after the loader has set
-- `done`: each of its passes ends with `next_slot`, however many there are.
pub cpu_turns-Idle :
    (n : ℕ) (m : Machine) (t : ℕ)
    → Idle m.sched
    → (sched : Sched) × (cpu_turns n m t none ≡ ok (slot_over none t, record m { sched = sched }))
      × Idle sched
unfolding cpu_turns
cpu_turns-Idle zero m t h = (m.sched, refl, h)
cpu_turns-Idle (suc n) m t h =
    let (sched, e, i) = cpu_turn-Idle m t h in
    let (sched', e', i') = cpu_turns-Idle n (record m { sched = sched }) t i in
    (sched', rw e e', i')

-- A processor whose process has finished stops if `done` is set and no process is ready; the block
-- of the process is freed, and the running list is as it was, so it still holds the process if it did.
pub cpu_turn-stops :
    (m : Machine) (t : ℕ) (p : Pcb) (b : Block)
    → Idle m.sched
    → m.done ≡ true
    → m.block p.ptr ≡ some b
    → finished b ≡ true
    → (m' : Machine) × (cpu_turn m t (some p) ≡ ok (stopped, m'))
      × (m'.block p.ptr ≡ none)
      × (m'.sched.running_list ≡ m.sched.running_list)
unfolding cpu_turn renew recheck renew_running use_block
cpu_turn-stops m t p b h d e f =
    let (none_left, i, r) = get_proc-Idle m.sched h in
    (
      record (free_proc m p.ptr) { sched = (get_proc m.sched).1 },
      rw (e, f, none_left, d) refl,
      rw ((==_iff p.ptr p.ptr).1 refl) refl,
      r,
    )
