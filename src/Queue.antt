-- ===== src/Queue.antt =====
-- src/queue.c: the array queues of process control blocks.
-- A queue is the list of its first `size` slots; the code reads no slot from `size` on. The
-- queues are static objects, so the tests `q == NULL` have no counterpart; a NULL `proc` is `none`.
pub mod Remove
pub mod Dequeue
pub mod Purge
pub mod Count
use os.Prelude.{
  ℕ, zero, suc, ◌+◌, ◌-◌, Bool, Option, none, some, List, [], ◌∷◌, ◌++◌, ltb, ◌==◌, if◌then◌else◌,
  length, get_elem?, set, take,
}

-- `struct pcb_t`, as far as queues and scheduler read it; `ptr` is the address of the block.
pub record Pcb : Type 0 where
  pub ptr : ℕ
  pub pid : ℕ
  pub priority : ℕ
  pub prio : ℕ

abbrev pub Queue : Type 0
Queue = List Pcb

abbrev pub max_queue_size : ℕ
max_queue_size = 50

unfoldable pub empty : Queue → Bool
empty q = length q == 0

unfoldable pub enqueue : Queue → Option Pcb → Queue
enqueue q none = q
enqueue q (some proc) = if length q == max_queue_size then q else q ++ proc ∷ []

-- `q->proc[i] = q->proc[j]`
abbrev pub assign : Queue → ℕ → ℕ → Queue
assign q i j = elim (get_elem? q j) [ none ↦ q | some p ↦ set q i p ]

-- the loop that moves the slots behind `i` one to the left, `n` rounds of it
unfoldable pub shift_left : ℕ → ℕ → Queue → Queue
shift_left zero i q = q
shift_left (suc n) i q = shift_left n (i + 1) (assign q i (i + 1))

-- the loop from `i` to `size - 1`, and `size--`
unfoldable pub compact : ℕ → Queue → Queue
compact i q = take (length q - 1) (shift_left (length q - 1 - i) i q)

-- the search of `dequeue`: `best` is the index of `p`, and the list is the slots from `i` on
unfoldable pub find_best : Pcb → ℕ → ℕ → List Pcb → ℕ
find_best p best i [] = best
find_best p best i (x ∷ xs) =
    find_best (if ltb x.priority p.priority then x else p)
      (if ltb x.priority p.priority then i else best) (i + 1) xs

unfoldable pub dequeue : Queue → Option Pcb × Queue
dequeue [] = (none, [])
dequeue (p ∷ q) = let best = find_best p 0 1 q in (get_elem? (p ∷ q) best, compact best (p ∷ q))

-- the search of `purgequeue`: the first slot that holds this block
unfoldable pub find_ptr : ℕ → ℕ → List Pcb → Option ℕ
find_ptr ptr i [] = none
find_ptr ptr i (x ∷ xs) =
    let rest = find_ptr ptr (i + 1) xs in if x.ptr == ptr then some i else rest

unfoldable pub purgequeue : Queue → Option Pcb → Option Pcb × Queue
purgequeue q none = (none, q)
purgequeue q (some proc) = elim (find_ptr proc.ptr 0 q) [
  | none ↦ (none, q)
  | some i ↦ (some proc, compact i q)
]
