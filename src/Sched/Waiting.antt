-- ===== src/Sched/Waiting.antt =====
-- src/sched.c: how long a level waits for get_mlq_proc.
pub mod Span
use mathlib.Core.Path.{subst}
use os.Prelude.{
  update, ℕ, zero, suc, ◌+◌, ◌-◌, ◌*◌, ◌%◌, ◌≤◌, ◌<◌, ◌≡◌, ◌⊎◌, inl, inr, refl, sym, ap, ◌∙◌, false,
  [], ◌∷◌, arith, length, leb, ◌==◌, Bool-cases, List-cases, ==_iff, length-append, Option,
  if◌then◌else◌,
}
use os.Queue.{Pcb, Queue, dequeue, enqueue}
use os.Queue.Dequeue.{dequeue-IsBest}
use os.Sched.{Sched, max_prio, get_mlq_proc}
use os.Sched.Pick.{level, slots_used, level_after, get_mlq_proc_first}
use os.Sched.Keep.{IsValid, get_mlq_proc-IsValid}
use os.Sched.Waiting.Span.{
  span, distance, waits_at, waits, step_of, level-distance, waits_first, waits_later,
}

-- The levels up to `n` on are empty, or there is a first one that is not.
first_busy :
    (s : Sched) (n : ℕ)
    → ((j : ℕ) → j < n → s.mlq_ready_queue (level s j) ≡ [])
      ⊎ ((k : ℕ) × (k < n)
          × ((j : ℕ) → j < k → s.mlq_ready_queue (level s j) ≡ [])
          × (0 < length (s.mlq_ready_queue (level s k))))
first_busy s zero = inl (λ j h. absurd (omega arith))
first_busy s (suc n) = elim (first_busy s n) [
  | inr (k, h, below, busy) ↦ inr (k, omega arith, below, busy)
  | inl below ↦ elim (List-cases (s.mlq_ready_queue (level s n))) [
    | inr (x, r, e) ↦ inr (n, omega arith, below, omega (arith, ap length e))
    | inl e ↦ inl (λ j h. elim (Bool-cases (j == n)) [
      | inl same ↦ ap (λ i. s.mlq_ready_queue (level s i)) ((==_iff j n).0 same) ∙ e
      | inr other ↦ below j (ground arith)
    ])
  ]
]

length-dequeue : (q : Queue) → 0 < length q → length (dequeue q).1 + 1 ≡ length q
length-dequeue q h =
    let (b, bef, aft, best, d) = dequeue-IsBest q h in
    rw d (omega (arith, ap length best.splits, length-append bef (b ∷ aft), length-append bef aft))

-- What a call does for a level that is not empty: it takes a process of the level, or another one
-- while the level waits for less.
abbrev Moves : Sched → ℕ → Option Pcb × Sched → Type 0
Moves s l (proc, t) =
    ((proc ≡ (dequeue (s.mlq_ready_queue l)).0)
      × (length (t.mlq_ready_queue l) + 1 ≡ length (s.mlq_ready_queue l)))
    ⊎ ((t.mlq_ready_queue l ≡ s.mlq_ready_queue l) × (waits t l < waits s l))

level_zero : (s : Sched) → s.curr_prio < max_prio → level s 0 ≡ s.curr_prio
level_zero s c = omega arith

level_other :
    (l c k r : ℕ)
    → c < max_prio
    → l < max_prio
    → distance l c ≡ k + suc r
    → ((c + k) % max_prio == l) ≡ false
level_other l c k r hc hl e = ground arith

level_after-step_of :
    (s : Sched) (p used : ℕ) → s.slot p ≡ max_prio - p → level_after s p used ≡ step_of p used
level_after-step_of s p used e =
    ap (λ b. if leb b (used + 1) then ((p + 1) % max_prio, 0) else (p, used + 1)) e

module _ (s : Sched) (l : ℕ) (v : IsValid s) (h : l < max_prio)
    (busy : 0 < length (s.mlq_ready_queue l)) where
  -- the result when the level `k` levels on is the first that is not empty
  abbrev served : ℕ → Option Pcb × Sched
  served k =
      let (proc, q) = dequeue (s.mlq_ready_queue (level s k)) in
      let (p, used) = level_after s (level s k) (slots_used s k) in
      (
        proc,
        record s {
          mlq_ready_queue = update s.mlq_ready_queue (level s k) q;
          running_list = enqueue s.running_list proc;
          curr_prio = p;
          curr_slot_cnt = used;
        },
      )

  Moves-own : (k : ℕ) → level s k ≡ l → Moves s l (served k)
  Moves-own k e = inl (
    ap (λ i. (dequeue (s.mlq_ready_queue i)).0) e,
    rw ((==_iff (level s k) l).1 e) (
        length-dequeue _ (subst (λ i. 0 < length (s.mlq_ready_queue i)) (sym e) busy)
        ∙ ap (λ i. length (s.mlq_ready_queue i)) e),
  )

  waits-served : (k r : ℕ) → distance l s.curr_prio ≡ k + suc r → waits (served k).1 l < waits s l
  waits-served zero r e =
      subst (λ x. waits_at l x.0 x.1 < waits s l)
        (sym (
          ap (λ p. level_after s p s.curr_slot_cnt) (level_zero s v.exists)
          ∙ level_after-step_of s _ _ (v.budgets _ v.exists)))
        (waits_first l s.curr_prio s.curr_slot_cnt r v.exists h v.budget_left (e ∙ omega arith))
  waits-served (suc k) r e =
      subst (λ x. waits_at l x.0 x.1 < waits s l)
        (sym (level_after-step_of s (level s (suc k)) 0 (v.budgets _ (omega arith))))
        (waits_later l s.curr_prio s.curr_slot_cnt k r v.exists h v.budget_left e)

  Moves-other : (k r : ℕ) → distance l s.curr_prio ≡ k + suc r → Moves s l (served k)
  Moves-other k r e = inr (rw (level_other l s.curr_prio k r v.exists h e) refl, waits-served k r e)

  get_mlq_proc-Moves : Moves s l (get_mlq_proc s)
  get_mlq_proc-Moves = elim (first_busy s (suc (distance l s.curr_prio))) [
    | inl below ↦ absurd (
        omega (
          arith,
          busy,
          ap length (
              sym (ap s.mlq_ready_queue (level-distance s l v.exists h))
              ∙ below (distance l s.curr_prio) (omega arith)),
        ))
    | inr (k, c, below, found) ↦
        subst (Moves s l) (sym (get_mlq_proc_first s k v.exists (omega arith) below found))
          (elim (Bool-cases (k == distance l s.curr_prio)) [
            | inl e ↦ Moves-own k (ap (level s) ((==_iff k _).0 e) ∙ level-distance s l v.exists h)
            | inr e ↦ Moves-other k (distance l s.curr_prio - suc k) (ground arith)
          ])
  ]

-- A run of calls of get_mlq_proc, `n` of them that take no process of the level `l`, from one state
-- to another; between the calls the queues change as other threads will, but the level stays busy.
pub data Passed (l : ℕ) (s : Sched) : ℕ → Sched → Type 0 where
  none_yet : Passed l s 0 s
  call :
      {n : ℕ} {t : Sched}
      → Passed l s n t
      → (get_mlq_proc t).1.mlq_ready_queue l ≡ t.mlq_ready_queue l
      → Passed l s (suc n) (get_mlq_proc t).1
  others :
      {n : ℕ} {t u : Sched}
      → Passed l s n t
      → IsValid u
      → u.curr_prio ≡ t.curr_prio
      → u.curr_slot_cnt ≡ t.curr_slot_cnt
      → 0 < length (u.mlq_ready_queue l)
      → Passed l s n u

-- What holds of the state that a run reaches.
record Waits (l n : ℕ) (s t : Sched) : Type 0 where
  valid : IsValid t
  busy : 0 < length (t.mlq_ready_queue l)
  less : n + waits t l ≤ waits s l

Waits-call :
    {l n : ℕ} {s t : Sched}
    → l < max_prio
    → Waits l n s t
    → (get_mlq_proc t).1.mlq_ready_queue l ≡ t.mlq_ready_queue l
    → Waits l (suc n) s (get_mlq_proc t).1
Waits-call {l} {n} {s} {t} h w e = elim (get_mlq_proc-Moves t l w.valid h w.busy) [
  | inl (p, q) ↦ absurd (omega (arith, ap length e, q))
  | inr (same, fewer) ↦ record {
    valid = get_mlq_proc-IsValid t w.valid;
    busy = omega (arith, ap length e, w.busy);
    less = omega (arith, fewer, w.less);
  }
]

waits_same : (l : ℕ) {p p' c c' : ℕ} → p ≡ p' → c ≡ c' → waits_at l p c ≡ waits_at l p' c'
waits_same l {p} {p'} {c} e f = ap (λ i. waits_at l i c) e ∙ ap (waits_at l p') f

Passed-Waits :
    {l : ℕ} {s : Sched} {n : ℕ} {t : Sched}
    → IsValid s
    → l < max_prio
    → 0 < length (s.mlq_ready_queue l)
    → Passed l s n t
    → Waits l n s t
Passed-Waits v h b none_yet = record { valid = v; busy = b; less = omega arith }
Passed-Waits v h b (call r e) = Waits-call h (Passed-Waits v h b r) e
Passed-Waits {l} v h b (others r u p c q) =
    let w = Passed-Waits v h b r in
    record { valid = u; busy = q; less = omega (arith, waits_same l p c, w.less) }

span-le : (n p : ℕ) → span n p ≤ max_prio * n
span-le zero p = omega arith
span-le (suc n) p = omega (arith, span-le n ((p + 1) % max_prio))

-- No level waits for ever: while a level has a process, at most 139 * 140 calls of `get_mlq_proc` pass
-- before one takes a process of that level, whatever is put into the queues between the calls.
pub get_mlq_proc-Passed :
    {l n : ℕ} {s t : Sched}
    → IsValid s
    → l < max_prio
    → 0 < length (s.mlq_ready_queue l)
    → Passed l s n t
    → n ≤ 139 * max_prio
get_mlq_proc-Passed {l} {n} {s} {t} v h b r = omega (
  arith,
  (Passed-Waits v h b r).less,
  span-le (distance l s.curr_prio) s.curr_prio,
  far l s.curr_prio,
)
  where
    far : (l p : ℕ) → distance l p ≤ 139
    far l p = omega arith
