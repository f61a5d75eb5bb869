-- ===== src/Sched/Pick.antt =====
-- src/sched.c: which process `get_mlq_proc` picks.
use os.Prelude.{
  update, ℕ, zero, suc, ◌+◌, ◌%◌, ◌<◌, ◌≡◌, refl, ap, ◌∙◌, sym, true, false, none, [], arith,
  length, leb, if◌then◌else◌, Bool-cases, inl, inr,
}
use os.Queue.{Queue, empty, enqueue, dequeue}
use os.Sched.{Sched, max_prio, next_level, serve, search_levels, get_mlq_proc}

-- the level that the search reaches after `k` steps
abbrev pub level : Sched → ℕ → ℕ
level s k = (s.curr_prio + k) % max_prio

-- the slots counted at the level where the search ends: the budget is fresh but at the first level
abbrev pub slots_used : Sched → ℕ → ℕ
slots_used s zero = s.curr_slot_cnt
slots_used s (suc k) = 0

-- the state with the search `k` levels on
abbrev pub at_level : Sched → ℕ → Sched
at_level s k = record s { curr_prio = level s k; curr_slot_cnt = slots_used s k }

level-next : (s : Sched) (k : ℕ) → level (next_level s) k ≡ level s (suc k)
unfolding next_level
level-next s k = omega arith

level_zero : (s : Sched) → s.curr_prio < max_prio → level s 0 ≡ s.curr_prio
level_zero s c = omega arith

at_level-next : (s : Sched) (k : ℕ) → at_level (next_level s) k ≡ at_level s (suc k)
unfolding next_level
at_level-next s zero = ap (λ c. record s { curr_prio = c; curr_slot_cnt = 0 }) (level-next s zero)
at_level-next s (suc k) =
    ap (λ c. record s { curr_prio = c; curr_slot_cnt = 0 }) (level-next s (suc k))

at_level_zero : (s : Sched) → s.curr_prio < max_prio → at_level s 0 ≡ s
at_level_zero s c = ap (λ c. record s { curr_prio = c }) (level_zero s c)

empty-nil : (q : Queue) → q ≡ [] → empty q ≡ true
unfolding empty
empty-nil q e = rw e

empty-ne-nil : (q : Queue) → 0 < length q → empty q ≡ false
unfolding empty
empty-ne-nil q h = ground arith

next_level_lt : (s : Sched) → (next_level s).curr_prio < max_prio
unfolding next_level
next_level_lt s = omega arith

next_queues : (s : Sched) → (next_level s).mlq_ready_queue ≡ s.mlq_ready_queue
unfolding next_level
next_queues s = refl

module _ (s : Sched) (c : s.curr_prio < max_prio) where
  current_empty : s.mlq_ready_queue (level s 0) ≡ [] → empty (s.mlq_ready_queue s.curr_prio) ≡ true
  current_empty h = empty-nil _ (ap s.mlq_ready_queue (sym (level_zero s c)) ∙ h)

  current_busy :
      0 < length (s.mlq_ready_queue (level s 0)) → empty (s.mlq_ready_queue s.curr_prio) ≡ false
  current_busy h = empty-ne-nil _ (rw (level_zero s c) at h)

queues-next :
    (s : Sched) (k : ℕ)
    → s.mlq_ready_queue (level s (suc k)) ≡ (next_level s).mlq_ready_queue (level (next_level s) k)
unfolding next_level
queues-next s k = ap s.mlq_ready_queue (sym (level-next s k))

search_none :
    (n : ℕ) (s : Sched)
    → s.curr_prio < max_prio
    → ((k : ℕ) → k < n → s.mlq_ready_queue (level s k) ≡ [])
    → (search_levels n s).0 ≡ none
unfolding search_levels
search_none zero s c h = refl
search_none (suc n) s c h =
    rw (current_empty s c (h 0 (omega arith)), search_levels)
      (search_none n (next_level s) (next_level_lt s)
        (λ k l. sym (queues-next s k) ∙ h (suc k) (omega arith)))

search_first :
    (n k : ℕ) (s : Sched)
    → s.curr_prio < max_prio
    → k < n
    → ((j : ℕ) → j < k → s.mlq_ready_queue (level s j) ≡ [])
    → 0 < length (s.mlq_ready_queue (level s k))
    → search_levels n s ≡ serve (at_level s k)
unfolding search_levels
search_first zero k s c l h e = absurd (omega arith)
search_first (suc n) zero s c l h e =
    rw (current_busy s c e, search_levels) (ap serve (sym (at_level_zero s c)))
search_first (suc n) (suc k) s c l h e =
    rw (current_empty s c (h 0 (omega arith)), search_levels)
      (search_first n k (next_level s) (next_level_lt s) (omega arith)
          (λ j b. sym (queues-next s j) ∙ h (suc j) (omega arith)) (rw (queues-next s k) at e)
        ∙ ap serve (at_level-next s k))

-- No process is returned if every level is empty.
pub get_mlq_proc_idle :
    (s : Sched)
    → s.curr_prio < max_prio
    → ((k : ℕ) → k < max_prio → s.mlq_ready_queue (level s k) ≡ [])
    → (get_mlq_proc s).0 ≡ none
unfolding get_mlq_proc
get_mlq_proc_idle s c h = search_none max_prio s c h

-- the level that is current after a process of level `p` was served as number `used + 1`
abbrev pub level_after : Sched → ℕ → ℕ → ℕ × ℕ
level_after s p used = if leb (s.slot p) (used + 1) then ((p + 1) % max_prio, 0) else (p, used + 1)

-- If the first level that is not empty, counting round from the current one, is `k` levels on,
-- `get_mlq_proc` dequeues from that level, appends the process to the running list, and moves to
-- the next level exactly if the budget of the level is used up; no other queue changes.
pub get_mlq_proc_first :
    (s : Sched) (k : ℕ)
    → s.curr_prio < max_prio
    → k < max_prio
    → ((j : ℕ) → j < k → s.mlq_ready_queue (level s j) ≡ [])
    → 0 < length (s.mlq_ready_queue (level s k))
    → let (proc, q) = dequeue (s.mlq_ready_queue (level s k)) in
      let (p, used) = level_after s (level s k) (slots_used s k) in
      get_mlq_proc s ≡ (
        proc,
        record s {
          mlq_ready_queue = update s.mlq_ready_queue (level s k) q;
          running_list = enqueue s.running_list proc;
          curr_prio = p;
          curr_slot_cnt = used;
        },
      )
unfolding get_mlq_proc serve next_level
get_mlq_proc_first s k c l h e = elim (Bool-cases (leb (s.slot (level s k)) (slots_used s k + 1))) [
  | inl spent ↦ rw (search_first max_prio k s c l h e, spent)
  | inr left ↦ rw (search_first max_prio k s c l h e, left)
]
