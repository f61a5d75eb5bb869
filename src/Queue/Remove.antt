-- ===== src/Queue/Remove.antt =====
-- src/queue.c: the loops that shift the slots remove exactly one slot.
use os.Prelude.{
  ℕ, zero, suc, ◌+◌, ◌-◌, ◌<◌, ◌≡◌, refl, ap, ◌∙◌, List, [], ◌∷◌, ◌++◌, arith, length, get_elem?,
  take, Option, some, length-append,
}
use native.Mathlib.Numerals.{add-one}
use os.Queue.{Pcb, Queue, assign, shift_left, compact}

-- The list without its element at an index.
abbrev pub remove_at {ℓ} : {A : Type ℓ} → ℕ → List A → List A
remove_at i [] = []
remove_at zero (x ∷ xs) = xs
remove_at (suc i) (x ∷ xs) = x ∷ remove_at i xs

assign-cons : (x : Pcb) (q : Queue) (i j : ℕ) → assign (x ∷ q) (suc i) (suc j) ≡ x ∷ assign q i j
assign-cons x q i j = ground arith

shift_left-cons :
    (n i : ℕ) (x : Pcb) (q : Queue) → shift_left n (suc i) (x ∷ q) ≡ x ∷ shift_left n i q
unfolding shift_left
shift_left-cons zero i x q = refl
shift_left-cons (suc n) i x q =
    simp add-one (rw (assign-cons x q i (suc i)) (shift_left-cons n (suc i) x (assign q i (suc i))))

shift_left_lem :
    (k i n : ℕ) (q : Queue)
    → length q ≡ suc k
    → n + i ≡ k
    → take k (shift_left n i q) ≡ remove_at i q
unfolding shift_left
shift_left_lem k i n [] h e = absurd (omega arith)
shift_left_lem zero zero n (x ∷ []) h e = refl
shift_left_lem zero zero n (x ∷ y ∷ q) h e = absurd (omega arith)
shift_left_lem zero (suc i) n (x ∷ q) h e = absurd (omega arith)
shift_left_lem (suc k) (suc i) n (x ∷ q) h e =
    rw (shift_left-cons n i x q)
      (ap (λ r. x ∷ r) (shift_left_lem k i n q (omega arith) (omega arith)))
shift_left_lem (suc k) zero n (x ∷ []) h e = absurd (omega arith)
shift_left_lem (suc k) zero zero (x ∷ y ∷ q) h e = absurd (omega arith)
shift_left_lem (suc k) zero (suc n) (x ∷ y ∷ q) h e =
    rw (shift_left-cons n 0 y (y ∷ q))
      (ap (λ r. y ∷ r) (shift_left_lem k zero n (y ∷ q) (omega arith) (omega arith)))

-- Shifting the slots behind `i` and dropping the last one removes slot `i`.
pub compact_lem : (i : ℕ) (q : Queue) → i < length q → compact i q ≡ remove_at i q
unfolding compact
compact_lem i q h = shift_left_lem (length q - 1) i (length q - 1 - i) q (omega arith) (omega arith)

-- Removing the element between two parts leaves the parts.
pub remove_at-append {ℓ} :
    {A : Type ℓ} (before after : List A) (x : A)
    → remove_at (length before) (before ++ x ∷ after) ≡ before ++ after
remove_at-append [] after x = refl
remove_at-append (y ∷ before) after x = ap (λ r. y ∷ r) (remove_at-append before after x)

pub get_elem?-append {ℓ} :
    {A : Type ℓ} (before after : List A) (x : A)
    → get_elem? (before ++ x ∷ after) (length before) ≡ some x
get_elem?-append [] after x = refl
get_elem?-append (y ∷ before) after x = get_elem?-append before after x

pub compact-append :
    (before after : Queue) (x : Pcb)
    → compact (length before) (before ++ x ∷ after) ≡ before ++ after
compact-append before after x =
    compact_lem _ _ (omega (arith, length-append before (x ∷ after)))
    ∙ remove_at-append before after x

-- An index that splits the queue: the element there, and what is left without it.
pub take_out :
    (q : Queue) (best : ℕ) (b : Pcb) (before after : Queue)
    → q ≡ before ++ b ∷ after
    → best ≡ length before
    → ◌≡◌ {A = Option Pcb × Queue} (get_elem? q best, compact best q) (some b, before ++ after)
take_out q best b before after s e =
    rw (e, s)
      (rw (get_elem?-append before after b) (ap (λ r. (some b, r)) (compact-append before after b)))
