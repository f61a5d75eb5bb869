-- ===== src/Queue/Dequeue.antt =====
-- src/queue.c: `dequeue` takes the process of the smallest priority value, the oldest of them.
use os.Prelude.{
  ℕ, suc, ◌+◌, ◌≤◌, ◌<◌, ◌≡◌, refl, ap, ◌∙◌, some, List, [], ◌∷◌, ◌++◌, arith, length, ltb,
  Bool-cases, inl, inr, All, length-append, sym, ltb→lt,
}
use mathlib.Core.List.{append_assoc, append-nil}
use os.Queue.{Pcb, Queue, max_queue_size, find_best, dequeue, enqueue}
use os.Queue.Remove.{take_out}

-- Where the best process stands: all before it have a larger priority value, none behind it a
-- smaller one.
pub record IsBest (q : Queue) (p : Pcb) (before after : Queue) : Type 0 where
  pub splits : q ≡ before ++ p ∷ after
  pub above : All (λ x. p.priority < x.priority) before
  pub below : All (λ x. p.priority ≤ x.priority) after

All-append {ℓ κ} :
    {A : Type ℓ} (P : A → Type κ) (xs ys : List A) → All P xs → All P ys → All P (xs ++ ys)
All-append P [] ys h k = k
All-append P (x ∷ xs) ys h k = (h.0, All-append P xs ys h.1 k)

All-lt :
    (m n : ℕ) (xs : Queue) → m < n → All (λ x. n ≤ x.priority) xs → All (λ x. m < x.priority) xs
All-lt m n [] h k = tt
All-lt m n (x ∷ xs) h k = (omega arith, All-lt m n xs h k.1)

All-lt_lt :
    (m n : ℕ) (xs : Queue) → m < n → All (λ x. n < x.priority) xs → All (λ x. m < x.priority) xs
All-lt_lt m n [] h k = tt
All-lt_lt m n (x ∷ xs) h k = (omega arith, All-lt_lt m n xs h k.1)

-- What `find_best` returns on the list `q`: the index of the best process.
abbrev Found : Queue → ℕ → Type 0
Found q best = (b : Pcb) × (bef : Queue) × (aft : Queue) × IsBest q b bef aft × (best ≡ length bef)

find_best-Found :
    (p : Pcb) (before mid rest q : Queue) (best i : ℕ)
    → q ≡ before ++ p ∷ (mid ++ rest)
    → best ≡ length before
    → i ≡ length before + 1 + length mid
    → All (λ x. p.priority < x.priority) before
    → All (λ x. p.priority ≤ x.priority) mid
    → Found q (find_best p best i rest)
unfolding find_best
find_best-Found p before mid [] q best i s b e above below =
    (p, before, mid, record { splits = rw append-nil at s; above = above; below = below }, b)
find_best-Found p before mid (x ∷ rest) q best i s b e above below =
    elim (Bool-cases (ltb x.priority p.priority)) [
      | inl better ↦ rw better (
          find_best-Found x (before ++ p ∷ mid) [] rest q i (i + 1)
            (s ∙ sym (append_assoc before (p ∷ mid) (x ∷ rest)))
            (omega (arith, length-append before (p ∷ mid)))
            (omega (arith, length-append before (p ∷ mid)))
            (All-append _ before (p ∷ mid)
              (All-lt_lt x.priority p.priority before (ltb→lt _ _ better) above)
              (ltb→lt _ _ better, All-lt x.priority p.priority mid (ltb→lt _ _ better) below))
            tt)
      | inr worse ↦ rw worse (
          find_best-Found p before (mid ++ x ∷ []) rest q best (i + 1)
            (s ∙ ap (λ r. before ++ p ∷ r) (sym (append_assoc mid (x ∷ []) rest))) b
            (omega (arith, length-append mid (x ∷ []))) above
            (All-append _ mid (x ∷ []) below (ground arith, tt)))
    ]

-- `dequeue` of a queue that is not empty takes one process out of the slots and keeps the order
-- of the others: before it stand only larger priority values, and behind it none smaller.
pub dequeue-IsBest :
    (q : Queue)
    → 0 < length q
    → (p : Pcb) × (before : Queue) × (after : Queue) × IsBest q p before after
      × (dequeue q ≡ (some p, before ++ after))
unfolding dequeue
dequeue-IsBest [] h = absurd (omega arith)
dequeue-IsBest (x ∷ q) h =
    let (b, bef, aft, best, e) = find_best-Found x [] [] q (x ∷ q) 0 1 refl refl refl tt tt in
    (b, bef, aft, best, take_out (x ∷ q) _ b bef aft best.splits e)

find_best_same :
    (p : Pcb) (xs : Queue) (best i : ℕ)
    → All (λ y. p.priority ≤ y.priority) xs
    → find_best p best i xs ≡ best
unfolding find_best
find_best_same p [] best i h = refl
find_best_same p (x ∷ xs) best i h = elim (Bool-cases (ltb x.priority p.priority)) [
  | inl better ↦ absurd (omega (arith, ltb→lt _ _ better))
  | inr worse ↦ rw worse (find_best_same p xs best (i + 1) h.1)
]

All-le_of_eq : (n : ℕ) (xs : Queue) → All (λ y. y.priority ≡ n) xs → All (λ y. n ≤ y.priority) xs
All-le_of_eq n [] h = tt
All-le_of_eq n (x ∷ xs) h = (omega arith, All-le_of_eq n xs h.1)

enqueue_room : (q : Queue) (x : Pcb) → length q < max_queue_size → enqueue q (some x) ≡ q ++ x ∷ []
unfolding enqueue
enqueue_room q x h = ground arith

-- Among processes of one priority value the queue is first in, first out: with room for one more,
-- enqueueing `x` and dequeueing gives the oldest process and leaves `x` at the end.
pub dequeue-enqueue_fifo :
    (p x : Pcb) (q : Queue)
    → All (λ y. y.priority ≡ p.priority) q
    → x.priority ≡ p.priority
    → suc (length q) < max_queue_size
    → dequeue (enqueue (p ∷ q) (some x)) ≡ (some p, q ++ x ∷ [])
unfolding dequeue
dequeue-enqueue_fifo p x q h e room = rw (enqueue_room (p ∷ q) x room) (
    take_out (p ∷ (q ++ x ∷ [])) _ p [] (q ++ x ∷ []) refl (
      find_best_same p (q ++ x ∷ []) 0 1
        (All-append _ q (x ∷ []) (All-le_of_eq p.priority q h) (omega arith, tt))))
