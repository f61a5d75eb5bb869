-- ===== src/Sched/Keep.antt =====
-- src/sched.c: what every call of the scheduler keeps.
use os.Prelude.{
  update, ℕ, zero, suc, ◌+◌, ◌-◌, ◌≤◌, ◌<◌, ◌≡◌, refl, ap, ==_iff, none, some, List, [], ◌∷◌, ◌++◌,
  arith, length, ◌==◌, leb, lt→ltb, Bool-cases, inl, inr, All, ok, length-append, List-cases,
}
use mathlib.Core.Path.{subst}
use os.Queue.{Pcb, Queue, max_queue_size, empty, enqueue, dequeue, purgequeue}
use os.Queue.Dequeue.{dequeue-IsBest}
use os.Sched.{
  Sched, max_prio, init_scheduler, next_level, serve, search_levels, get_mlq_proc, put_mlq_proc,
  add_mlq_proc,
}

-- A ready queue of one level: it fits its array, and its processes belong to the level.
pub record IsLevel (p : ℕ) (q : Queue) : Type 0 where
  pub fits : length q ≤ max_queue_size
  pub belongs : All (λ x. x.prio ≡ p) q

-- The scheduler's state: a level that exists, with budget left, and well-formed ready queues.
pub record IsValid (s : Sched) : Type 0 where
  pub exists : s.curr_prio < max_prio
  pub budgets : (p : ℕ) → p < max_prio → s.slot p ≡ max_prio - p
  pub budget_left : s.curr_slot_cnt < max_prio - s.curr_prio
  pub levels : (p : ℕ) → p < max_prio → IsLevel p (s.mlq_ready_queue p)

All-append {ℓ κ} :
    {A : Type ℓ} (P : A → Type κ) (xs ys : List A) → All P xs → All P ys → All P (xs ++ ys)
All-append P [] ys h k = k
All-append P (x ∷ xs) ys h k = (h.0, All-append P xs ys h.1 k)

All-remove {ℓ κ} :
    {A : Type ℓ} (P : A → Type κ) (xs ys : List A) (x : A) → All P (xs ++ x ∷ ys) → All P (xs ++ ys)
All-remove P [] ys x h = h.1
All-remove P (y ∷ xs) ys x h = (h.0, All-remove P xs ys x h.1)

dequeue_nil : dequeue [] ≡ (none, [])
unfolding dequeue
dequeue_nil = refl

dequeue-IsLevel : (p : ℕ) (q : Queue) → IsLevel p q → IsLevel p (dequeue q).1
dequeue-IsLevel p q v = elim (List-cases q) [
  | inl e ↦ rw e (rw (dequeue_nil) (record { fits = omega arith; belongs = tt }))
  | inr (x, r, e) ↦
      let (b, bef, aft, best, d) = dequeue-IsBest q (omega (arith, ap length e)) in
      rw d (record {
        fits = omega (
          arith,
          ap length best.splits,
          length-append bef (b ∷ aft),
          length-append bef aft,
          v.fits,
        );
        belongs = All-remove _ bef aft b (subst (All (λ y. y.prio ≡ p)) best.splits v.belongs);
      })
]

enqueue-IsLevel : (q : Queue) (x : Pcb) → IsLevel x.prio q → IsLevel x.prio (enqueue q (some x))
unfolding enqueue
enqueue-IsLevel q x v = elim (Bool-cases (length q == max_queue_size)) [
  | inl full ↦ rw full v
  | inr room ↦ rw room (record {
    fits = ground (arith, length-append q (x ∷ []));
    belongs = All-append _ q (x ∷ []) v.belongs (refl, tt);
  })
]

update-levels :
    (queues : ℕ → Queue) (i : ℕ) (q : Queue)
    → ((p : ℕ) → p < max_prio → IsLevel p (queues p))
    → IsLevel i q
    → (p : ℕ) → p < max_prio
    → IsLevel p (update queues i q p)
update-levels queues i q v w p l = elim (Bool-cases (i == p)) [
  | inl e ↦ rw e (subst (λ j. IsLevel j q) ((==_iff i p).0 e) w)
  | inr e ↦ rw e (v p l)
]

next_level-IsValid :
    (s : Sched)
    → ((p : ℕ) → p < max_prio → s.slot p ≡ max_prio - p)
    → ((p : ℕ) → p < max_prio → IsLevel p (s.mlq_ready_queue p))
    → IsValid (next_level s)
unfolding next_level
next_level-IsValid s b v = record {
  exists = omega arith;
  budgets = b;
  budget_left = omega arith;
  levels = v;
}

serve-IsValid : (s : Sched) → IsValid s → IsValid (serve s).1
unfolding serve
serve-IsValid s v =
    let cur = s.curr_prio in
    let q = (dequeue (s.mlq_ready_queue cur)).1 in
    let after =
      update-levels s.mlq_ready_queue cur q v.levels
        (dequeue-IsLevel cur (s.mlq_ready_queue cur) (v.levels cur v.exists)) in
    elim (Bool-cases (leb (s.slot cur) (s.curr_slot_cnt + 1))) [
      | inl spent ↦ rw spent (next_level-IsValid _ v.budgets after)
      | inr left ↦ rw left (record {
        exists = v.exists;
        budgets = v.budgets;
        budget_left = ground (arith, v.budgets cur v.exists);
        levels = after;
      })
    ]

search_levels-IsValid : (n : ℕ) (s : Sched) → IsValid s → IsValid (search_levels n s).1
unfolding search_levels
search_levels-IsValid zero s v = v
search_levels-IsValid (suc n) s v = elim (Bool-cases (empty (s.mlq_ready_queue s.curr_prio))) [
  | inl e ↦
      rw (e, search_levels)
        (search_levels-IsValid n (next_level s) (next_level-IsValid s v.budgets v.levels))
  | inr e ↦ rw (e, search_levels) (serve-IsValid s v)
]

-- `get_mlq_proc` keeps the state valid: the current level exists and has budget left, and the
-- ready queues fit their arrays and hold the processes of their level.
pub get_mlq_proc-IsValid : (s : Sched) → IsValid s → IsValid (get_mlq_proc s).1
unfolding get_mlq_proc
get_mlq_proc-IsValid s v =
    let r = search_levels-IsValid max_prio s v in
    record {
      exists = r.exists;
      budgets = r.budgets;
      budget_left = r.budget_left;
      levels = r.levels;
    }

-- `put_mlq_proc` and `add_mlq_proc` of a process with a level below MAX_PRIO do not fault and keep
-- the state valid.
pub put_add-IsValid :
    (s : Sched) (proc : Pcb)
    → IsValid s
    → proc.prio < max_prio
    → ((t : Sched) × (put_mlq_proc s proc ≡ ok t) × IsValid t)
      × ((t : Sched) × (add_mlq_proc s proc ≡ ok t) × IsValid t)
unfolding put_mlq_proc add_mlq_proc
put_add-IsValid s proc v l =
    let q = enqueue (s.mlq_ready_queue proc.prio) (some proc) in
    let after =
      update-levels s.mlq_ready_queue proc.prio q v.levels
        (enqueue-IsLevel _ proc (v.levels proc.prio l)) in
    let queues = update s.mlq_ready_queue proc.prio q in
    let keep = λ (r : Queue).
      let t : IsValid (record s { running_list = r; mlq_ready_queue = queues }) = record {
        exists = v.exists;
        budgets = v.budgets;
        budget_left = v.budget_left;
        levels = after;
      } in
      t in
    (
      (_, rw (lt→ltb _ _ l), keep (purgequeue s.running_list (some proc)).1),
      (_, rw (lt→ltb _ _ l), keep s.running_list),
    )

-- `init_scheduler` establishes the invariant, at the values that the static variables of
-- `get_mlq_proc` start with.
pub init_scheduler-IsValid :
    (s : Sched) → s.curr_prio ≡ 0 → s.curr_slot_cnt ≡ 0 → IsValid (init_scheduler s)
unfolding init_scheduler
init_scheduler-IsValid s c n = record {
  exists = omega arith;
  budgets = λ p l. rw (lt→ltb _ _ l);
  budget_left = omega arith;
  levels = λ p l. rw (lt→ltb _ _ l) (record { fits = omega arith; belongs = tt });
}
