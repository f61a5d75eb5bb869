-- ===== src/Os/Own/Counts.antt =====
-- src/sched.c: what the calls of the scheduler do to the number of ready processes at an address.
use os.Prelude.{
  ℕ, zero, suc, ◌+◌, ◌≤◌, ◌<◌, ◌≡◌, refl, ap, false, Option, some, arith, ltb, leb, ltb→lt, ◌==◌,
  ==_iff, Bool-cases, inl, inr, update, Returns,
}
use os.Queue.{Pcb, Queue, empty, enqueue, dequeue}
use os.Sched.{
  Sched, max_prio, next_level, serve, search_levels, get_mlq_proc, get_proc, put_mlq_proc, put_proc,
  add_mlq_proc, add_proc,
}
use os.Queue.Count.{is_at, held, count_in, count_in-dequeue, count_in-enqueue}
use os.Os.Own.{sum, ready_at}

pub apart : {i n : ℕ} → (i == n) ≡ false → i < suc n → i < n
apart e h = ground arith

module _ {A : Type 0} (g : A → ℕ) (f : ℕ → A) where
  sum-update_beyond :
      (i n : ℕ) (a : A) → n ≤ i → sum (λ j. g (update f i a j)) n ≡ sum (λ j. g (f j)) n
  sum-update_beyond i zero a h = refl
  sum-update_beyond i (suc n) a h = elim (Bool-cases (i == n)) [
    | inl e ↦ absurd (ground arith)
    | inr e ↦ rw (e, sum-update_beyond i n a (omega arith)) refl
  ]

  -- One summand is replaced.
  pub sum-update :
      (i n : ℕ) (a : A)
      → i < n
      → sum (λ j. g (update f i a j)) n + g (f i) ≡ sum (λ j. g (f j)) n + g a
  sum-update i zero a h = absurd (omega arith)
  sum-update i (suc n) a h = elim (Bool-cases (i == n)) [
    | inl e ↦
        let same = (==_iff i n).0 e in
        rw e (omega (arith, sum-update_beyond i n a (omega (arith, same)), ap (λ k. g (f k)) same))
    | inr e ↦ rw e (omega (arith, sum-update i n a (apart e h)))
  ]

-- A queue of one level is replaced.
ready_at-update :
    (ptr l : ℕ) (s : Sched) (q : Queue)
    → l < max_prio
    → ready_at ptr (update s.mlq_ready_queue l q) + count_in ptr (s.mlq_ready_queue l)
      ≡ ready_at ptr s.mlq_ready_queue + count_in ptr q
unfolding ready_at
ready_at-update ptr l s q h = sum-update (count_in ptr) s.mlq_ready_queue l max_prio q h

abbrev pub Taken : ℕ → Sched → Option Pcb × Sched → Type 0
Taken ptr s (proc, t) =
    (ready_at ptr t.mlq_ready_queue + held ptr proc ≡ ready_at ptr s.mlq_ready_queue)
    × (t.curr_prio < max_prio)

next_level_lt : (s : Sched) → (next_level s).curr_prio < max_prio
unfolding next_level
next_level_lt s = omega arith

serve-Taken : (ptr : ℕ) (s : Sched) → s.curr_prio < max_prio → Taken ptr s (serve s)
unfolding serve next_level
serve-Taken ptr s c =
    let q = s.mlq_ready_queue s.curr_prio in
    let moved : ready_at ptr (update s.mlq_ready_queue s.curr_prio (dequeue q).1)
          + held ptr (dequeue q).0
        ≡ ready_at ptr s.mlq_ready_queue =
      omega (arith, ready_at-update ptr s.curr_prio s (dequeue q).1 c, count_in-dequeue ptr q) in
    elim (Bool-cases (leb (s.slot s.curr_prio) (s.curr_slot_cnt + 1))) [
      | inl e ↦ rw e (moved, omega arith)
      | inr e ↦ rw e (moved, c)
    ]

search_levels-Taken :
    (ptr n : ℕ) (s : Sched) → s.curr_prio < max_prio → Taken ptr s (search_levels n s)
unfolding search_levels next_level
search_levels-Taken ptr zero s c = ((omega arith), c)
search_levels-Taken ptr (suc n) s c = elim (Bool-cases (empty (s.mlq_ready_queue s.curr_prio))) [
  | inl e ↦ rw (e, search_levels) (search_levels-Taken ptr n (next_level s) (next_level_lt s))
  | inr e ↦ rw (e, search_levels) (serve-Taken ptr s c)
]

-- `get_proc` takes the process that it returns from the ready queues, and no other.
pub get_proc-Taken : (ptr : ℕ) (s : Sched) → s.curr_prio < max_prio → Taken ptr s (get_proc s)
unfolding get_proc get_mlq_proc
get_proc-Taken ptr s c = search_levels-Taken ptr max_prio s c

-- the scheduler with a process in addition, at most
abbrev pub Grown : ℕ → Sched → Pcb → Sched → Type 0
Grown ptr s p t =
    (ready_at ptr t.mlq_ready_queue ≤ ready_at ptr s.mlq_ready_queue + is_at ptr p)
    × (t.curr_prio ≡ s.curr_prio)

queued :
    (ptr : ℕ) (s : Sched) (p : Pcb)
    → p.prio < max_prio
    → ready_at ptr (update s.mlq_ready_queue p.prio (enqueue (s.mlq_ready_queue p.prio) (some p)))
      ≤ ready_at ptr s.mlq_ready_queue + is_at ptr p
queued ptr s p h =
    let q = s.mlq_ready_queue p.prio in
    omega (arith, ready_at-update ptr p.prio s (enqueue q (some p)) h, count_in-enqueue ptr q p)

pub put_proc-Grown : (ptr : ℕ) (s : Sched) (p : Pcb) → Returns (Grown ptr s p) (put_proc s p)
unfolding put_proc put_mlq_proc
put_proc-Grown ptr s p = elim (Bool-cases (ltb p.prio max_prio)) [
  | inl e ↦ rw e (queued ptr s p (ltb→lt _ _ e), refl)
  | inr e ↦ rw e tt
]

pub add_proc-Grown : (ptr : ℕ) (s : Sched) (p : Pcb) → Returns (Grown ptr s p) (add_proc s p)
unfolding add_proc add_mlq_proc
add_proc-Grown ptr s p = elim (Bool-cases (ltb p.prio max_prio)) [
  | inl e ↦ rw e (queued ptr s p (ltb→lt _ _ e), refl)
  | inr e ↦ rw e tt
]
