-- ===== src/Memphy/Cursor.antt =====
-- src/mm-memphy.c: `MEMPHY_mv_csr` moves the cursor by single steps.
use os.Prelude.{
  ℕ, zero, suc, ◌+◌, ◌%◌, ◌≡◌, ◌≤◌, ap, ◌∙◌, arith, lt→ltb, ltb→lt, sym, ltb, false, Bool-cases,
  inl, inr,
}
use Prim.Native.Nat.{min}
use native.Mathlib.Nat.{mod-add-mod, zero-mod}
use os.Memphy.{Memphy, nonneg, mv_csr_loop, mv_csr}

-- After `n` rounds from step `k`, with the cursor at `k % max`.
mv_csr_loop_lem :
    (n k offset : ℕ) (mp : Memphy)
    → k + n ≡ nonneg mp.maxsz
    → k ≤ offset
    → mp.cursor ≡ k % nonneg mp.maxsz
    → mv_csr_loop n k offset mp
      ≡ record mp { cursor = min offset (nonneg mp.maxsz) % nonneg mp.maxsz }
unfolding mv_csr_loop
mv_csr_loop_lem zero k offset mp e l c =
    ap (λ r. record mp { cursor = r }) (c ∙ ap (λ m. m % nonneg mp.maxsz) (omega arith))
mv_csr_loop_lem (suc n) k offset mp e l c = elim (Bool-cases (ltb k offset)) [
  | inl more ↦
      rw (more, lt→ltb k (nonneg mp.maxsz) (omega arith), mv_csr_loop)
        (mv_csr_loop_lem n (k + 1) offset (record mp { cursor = (mp.cursor + 1) % nonneg mp.maxsz })
          (omega arith) (omega (arith, ltb→lt _ _ more))
          (step_cursor mp.cursor k (nonneg mp.maxsz) c))
  | inr done ↦
      rw (done, mv_csr_loop)
        (ap (λ r. record mp { cursor = r })
          (c
            ∙ ap (λ m. m % nonneg mp.maxsz)
                (reached k offset (nonneg mp.maxsz) l (omega arith) done)))
]
  where
    step_cursor : (cur k max : ℕ) → cur ≡ k % max → (cur + 1) % max ≡ (k + 1) % max
    step_cursor cur k max c = rw (c, mod-add-mod)

    reached : (k offset max : ℕ) → k ≤ offset → k ≤ max → ltb k offset ≡ false → k ≡ min offset max
    reached k offset max l b done = ground arith

-- The cursor ends at the offset, or at the start if the offset is not below the device's size, and
-- nothing else of the device changes.
pub mv_csr_lem :
    (mp : Memphy) (offset : ℕ)
    → mv_csr mp offset ≡ record mp { cursor = min offset (nonneg mp.maxsz) % nonneg mp.maxsz }
unfolding mv_csr
mv_csr_lem mp offset =
    mv_csr_loop_lem (nonneg mp.maxsz) 0 offset (record mp { cursor = 0 }) (omega arith)
      (omega arith) (sym (zero-mod _))
