-- ===== src/Queue/Count.antt =====
-- src/queue.c: how often a process, known by its address, is in a queue.
use os.Prelude.{
  ℕ, ◌+◌, ◌≤◌, ◌≡◌, refl, ap, Option, none, some, [], ◌∷◌, ◌++◌, arith, length, ◌==◌, if◌then◌else◌,
  Bool-cases, inl, inr, List-cases,
}
use os.Queue.{Pcb, Queue, enqueue, dequeue, max_queue_size}
use os.Queue.Dequeue.{dequeue-IsBest}

abbrev pub is_at : ℕ → Pcb → ℕ
is_at ptr p = if p.ptr == ptr then 1 else 0

-- the processes at an address: those in a queue, the one that a processor has, those that are ready
abbrev pub held : ℕ → Option Pcb → ℕ
held ptr none = 0
held ptr (some p) = is_at ptr p

abbrev pub count_in : ℕ → Queue → ℕ
count_in ptr [] = 0
count_in ptr (p ∷ q) = is_at ptr p + count_in ptr q

count_in-append :
    (ptr : ℕ) (xs ys : Queue) → count_in ptr (xs ++ ys) ≡ count_in ptr xs + count_in ptr ys
count_in-append ptr [] ys = omega arith
count_in-append ptr (x ∷ xs) ys = omega (arith, count_in-append ptr xs ys)

dequeue-none : dequeue [] ≡ (none, [])
unfolding dequeue
dequeue-none = refl

pub count_in-dequeue :
    (ptr : ℕ) (q : Queue) → count_in ptr (dequeue q).1 + held ptr (dequeue q).0 ≡ count_in ptr q
count_in-dequeue ptr q = elim (List-cases q) [
  | inl e ↦ rw (e, dequeue-none) refl
  | inr (x, r, e) ↦
      let (b, bef, aft, best, d) = dequeue-IsBest q (omega (arith, ap length e)) in
      rw d (
        omega (
          arith,
          ap (count_in ptr) best.splits,
          count_in-append ptr bef (b ∷ aft),
          count_in-append ptr bef aft,
        ))
]

pub count_in-enqueue :
    (ptr : ℕ) (q : Queue) (p : Pcb)
    → count_in ptr (enqueue q (some p)) ≤ count_in ptr q + is_at ptr p
unfolding enqueue
count_in-enqueue ptr q p = elim (Bool-cases (length q == max_queue_size)) [
  | inl e ↦ rw e (omega arith)
  | inr e ↦ rw e (omega (arith, count_in-append ptr q (p ∷ [])))
]
