-- ===== src/Mm64/Alloc.antt =====
-- src/mm64.c: `alloc_pages_range` takes frames from the front of the free list, or none at all.
use os.Prelude.{
  ℕ, zero, suc, ◌≤◌, ◌<◌, ◌≡◌, refl, ap, ◌∙◌, sym, none, some, List, [], ◌∷◌, ◌++◌, arith, length,
  take, drop, ◌==◌, false,
}
use mathlib.Core.List.{reverse, reverse_aux, append_assoc, append-nil}
use os.Memphy.{Memphy, nonneg, get_freefp, put_freefp}
use os.Mm64.{give_back, alloc_loop, alloc_pages_range, out_of_memory, frames}

-- a device with another list of free frames
abbrev pub with_free : Memphy → List ℕ → Memphy
with_free mp l = record mp { free_fp_list = l }

give_back_lem :
    (head : List ℕ) (mp : Memphy)
    → give_back head mp ≡ with_free mp (reverse_aux head mp.free_fp_list)
unfolding give_back put_freefp
give_back_lem [] mp = refl
give_back_lem (f ∷ head) mp = give_back_lem head (put_freefp mp f)

alloc_loop_enough :
    (n : ℕ) (head free : List ℕ) (mp : Memphy)
    → n ≤ length free
    → alloc_loop n head (with_free mp free)
      ≡ (some (head ++ take n free), with_free mp (drop n free))
unfolding alloc_loop get_freefp
alloc_loop_enough zero head free mp h =
    ap (λ l. (some l, with_free mp free)) (sym (append-nil head))
alloc_loop_enough (suc n) head [] mp h = absurd (omega arith)
alloc_loop_enough (suc n) head (f ∷ free) mp h =
    alloc_loop_enough n (head ++ f ∷ []) free mp (omega arith)
    ∙ ap (λ l. (some l, with_free mp (drop n free))) (append_assoc head (f ∷ []) (take n free))

alloc_loop_short :
    (n : ℕ) (head free : List ℕ) (mp : Memphy)
    → length free < n
    → alloc_loop n head (with_free mp free) ≡ (none, with_free mp (reverse (head ++ free)))
unfolding alloc_loop get_freefp
alloc_loop_short zero head free mp h = absurd (omega arith)
alloc_loop_short (suc n) head [] mp h =
    ap (λ t. (none, t)) (give_back_lem head (with_free mp []))
    ∙ ap (λ l. (none, with_free mp (reverse l))) (sym (append-nil head))
alloc_loop_short (suc n) head (f ∷ free) mp h =
    alloc_loop_short n (head ++ f ∷ []) free mp (omega arith)
    ∙ ap (λ l. (none, with_free mp (reverse l))) (append_assoc head (f ∷ []) free)

-- With enough free frames, `alloc_pages_range` returns the first `n` of them in order and leaves
-- the rest.
pub alloc_pages_range_enough :
    (mram : Memphy) (n : ℕ)
    → 0 < nonneg n
    → nonneg n ≤ length mram.free_fp_list
    → alloc_pages_range mram n ≡ (
      frames (take (nonneg n) mram.free_fp_list),
      with_free mram (drop (nonneg n) mram.free_fp_list),
    )
unfolding alloc_pages_range
alloc_pages_range_enough mram n p h =
    rw
      (
        not_zero (nonneg n) p,
        alloc_loop_enough (nonneg n) [] mram.free_fp_list mram h,
        alloc_pages_range,
      )
      (ap (λ r. (frames (take (nonneg n) mram.free_fp_list), r.1))
        (alloc_loop_enough (nonneg n) [] mram.free_fp_list mram h))
  where
    not_zero : (m : ℕ) → 0 < m → (m == 0) ≡ false
    not_zero m p = ground arith

-- With too few free frames it fails, and every frame that it took goes back: the free list is the
-- old one in reverse order.
pub alloc_pages_range_short :
    (mram : Memphy) (n : ℕ)
    → length mram.free_fp_list < nonneg n
    → alloc_pages_range mram n ≡ (out_of_memory, with_free mram (reverse mram.free_fp_list))
unfolding alloc_pages_range
alloc_pages_range_short mram n h =
    rw
      (
        not_zero (nonneg n) h,
        alloc_loop_short (nonneg n) [] mram.free_fp_list mram h,
        alloc_pages_range,
      )
      (ap (λ r. (out_of_memory, r.1)) (alloc_loop_short (nonneg n) [] mram.free_fp_list mram h))
  where
    not_zero : (m : ℕ) → length mram.free_fp_list < m → (m == 0) ≡ false
    not_zero m p = ground arith
