-- ===== src/Copies/Moving.antt =====
-- src/libmem.c: RAM while bytes go from some places to others, for the copies of many bytes.
use os.Prelude.{
  ℕ, zero, suc, ◌+◌, ◌%◌, ◌<◌, ◌≤◌, ◌≡◌, ◌≢◌, ◌==◌, if◌then◌else◌, refl, sym, ap, ◌∙◌, arith, false,
  Bool-cases, ==_iff, inl, inr,
}
use os.Prelude.Words.{sext8}
use os.Memphy.{Memphy}
use os.Memphy.Access.{poke}
use os.Copies.Byte.{stored}

-- RAM after the bytes at the places `from i`, `from (i + 1)`, … went to the places `to i`, …
abbrev pub moved : (ℕ → ℕ) → (ℕ → ℕ) → ℕ → ℕ → Memphy → Memphy
moved from to zero i ram = ram
moved from to (suc n) i ram =
    moved from to n (i + 1) (poke ram (to i) (stored (ram.cells (from i))))

-- `size` bytes go to places of their own, none of which is read.
abbrev pub Separate : (ℕ → ℕ) → (ℕ → ℕ) → ℕ → Type 0
Separate from to size = (i j : ℕ) → i < size → j < size → (to i ≢ from j) × (i ≢ j → to i ≢ to j)

pub moved_elsewhere :
    (from to : ℕ → ℕ) (n i : ℕ) (ram : Memphy) (a : ℕ)
    → ((j : ℕ) → i ≤ j → j < i + n → to j ≢ a)
    → (moved from to n i ram).cells a ≡ ram.cells a
moved_elsewhere from to zero i ram a d = refl
moved_elsewhere from to (suc n) i ram a d =
    moved_elsewhere from to n (i + 1) _ a (λ j h k. d j (omega arith) (omega arith))
    ∙ other (to i) a (stored (ram.cells (from i)) % 256) (ram.cells a)
        (d i (omega arith) (omega arith))
  where
    other : (p q v old : ℕ) → p ≢ q → (if p == q then v else old) ≡ old
    other p q v old d = ground arith

pub moved_there :
    (from to : ℕ → ℕ) (size n i : ℕ) (ram : Memphy) (j : ℕ)
    → Separate from to size
    → i + n ≤ size
    → i ≤ j
    → j < i + n
    → (moved from to n i ram).cells (to j) ≡ ram.cells (from j) % 256
moved_there from to size zero i ram j s b h k = absurd (omega arith)
moved_there from to size (suc n) i ram j s b h k =
    let ram' = poke ram (to i) (stored (ram.cells (from i))) in
    elim (Bool-cases (i == j)) [
      | inl e ↦
          (let here : i ≡ j = (==_iff i j).0 e in
            ap (λ x. (moved from to n (i + 1) ram').cells (to x)) (sym here)
            ∙ moved_elsewhere from to n (i + 1) ram' (to i)
                (λ x l m. (s x i (omega arith) (omega arith)).1 (λ q. absurd (omega (arith, q, l))))
            ∙ own (to i) (ram.cells (from i)) (ram.cells (to i))
            ∙ ap (λ x. ram.cells (from x) % 256) here)
      | inr e ↦
          (let later : i < j = further e in
            moved_there from to size n (i + 1) ram' j s (omega arith) (omega (arith, later))
              (omega arith)
            ∙ ap (λ x. x % 256)
                (other (to i) (from j) (stored (ram.cells (from i)) % 256) (ram.cells (from j))
                  (s i j (omega (arith, later)) (omega arith)).0))
    ]
  where
    own : (p v old : ℕ) → (if p == p then sext8 (v % 256) % 256 else old) ≡ v % 256
    own p v old = ground arith

    other : (p q v old : ℕ) → p ≢ q → (if p == q then v else old) ≡ old
    other p q v old d = ground arith

    further : (i == j) ≡ false → i < j
    further e = ground arith

-- RAM before and after bytes went from some places to others
abbrev pub Moved : (ℕ → ℕ) → (ℕ → ℕ) → ℕ → Memphy → Memphy → Type 0
Moved from to size ram ram' =
    ((i : ℕ) → i < size → ram'.cells (to i) ≡ ram.cells (from i) % 256)
    × ((a : ℕ) → ((i : ℕ) → i < size → to i ≢ a) → ram'.cells a ≡ ram.cells a)
