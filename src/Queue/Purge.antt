-- ===== src/Queue/Purge.antt =====
-- src/queue.c: `purgequeue` removes the first slot that holds a given block.
use os.Prelude.{ℕ, ◌+◌, ◌≡◌, refl, ◌≢◌, ap, none, some, [], ◌∷◌, ◌++◌, arith, length, All}
use os.Queue.{Pcb, Queue, find_ptr, purgequeue}
use os.Queue.Remove.{compact-append}
use native.Mathlib.Nat.{zero-add}

-- the first block of this address, with what stands before it and behind it
abbrev pub FirstAt : Queue → ℕ → Pcb → Queue → Queue → Type 0
FirstAt q ptr x before after =
    (q ≡ before ++ x ∷ after) × (x.ptr ≡ ptr) × All (λ y. y.ptr ≢ ptr) before

find_ptr-none : (ptr i : ℕ) (q : Queue) → All (λ y. y.ptr ≢ ptr) q → find_ptr ptr i q ≡ none
unfolding find_ptr
find_ptr-none ptr i [] h = refl
find_ptr-none ptr i (x ∷ q) h = ground (arith, find_ptr-none ptr (i + 1) q)

find_ptr_first :
    (ptr i : ℕ) (x : Pcb) (before after : Queue)
    → x.ptr ≡ ptr
    → All (λ y. y.ptr ≢ ptr) before
    → find_ptr ptr i (before ++ x ∷ after) ≡ some (i + length before)
unfolding find_ptr
find_ptr_first ptr i x [] after e h = ground arith
find_ptr_first ptr i x (y ∷ before) after e h =
    ground (arith, find_ptr_first ptr (i + 1) x before after)

-- Where the queue holds the block, purging it takes out its first slot and keeps the order of the
-- others, and returns the block.
pub purgequeue_removes :
    (proc x : Pcb) (before after : Queue)
    → x.ptr ≡ proc.ptr
    → All (λ y. y.ptr ≢ proc.ptr) before
    → purgequeue (before ++ x ∷ after) (some proc) ≡ (some proc, before ++ after)
unfolding purgequeue
purgequeue_removes proc x before after e h =
    rw (find_ptr_first proc.ptr 0 x before after e h, purgequeue)
      (ap (λ r. (some proc, r)) (rw zero-add (compact-append before after x)))

-- A queue without the block is left as it is, and purging returns NULL.
pub purgequeue_absent :
    (proc : Pcb) (q : Queue) → All (λ y. y.ptr ≢ proc.ptr) q → purgequeue q (some proc) ≡ (none, q)
unfolding purgequeue
purgequeue_absent proc q h = rw (find_ptr-none proc.ptr 0 q h, purgequeue)
