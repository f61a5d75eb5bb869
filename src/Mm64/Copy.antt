-- ===== src/Mm64/Copy.antt =====
-- src/mm64.c: `__swap_cp_page` copies one page of 256 bytes between two devices.
use os.Prelude.{
  ℕ, zero, suc, ◌+◌, ◌*◌, ◌%◌, ◌≤◌, ◌<◌, ◌≡◌, refl, ◌∙◌, true, arith, ok, ◌⊎◌, inl, inr,
}
use native.Mathlib.Decide.{dec_lt}
use os.Prelude.Words.{u64_mod}
use os.Pte.{paging_pagesz}
use os.Memphy.{Memphy}
use os.Memphy.Access.{poke, read_ram, write_ram}
use os.Mm64.{cp_loop, swap_cp_page}

-- A random access device whose storage reaches up to `top`.
pub record IsRam (mp : Memphy) (top : ℕ) : Type 0 where
  pub random : mp.rdmflg ≡ true
  pub room : top ≤ mp.size
  pub small : mp.size < u64_mod
  pub bytes : (a : ℕ) → mp.cells a < 256

-- What the copy of the cells `i` to `j` of a page does to the destination.
pub record IsCopied (src dst dst' : Memphy) (s d i j : ℕ) : Type 0 where
  pub copied :
      (k : ℕ)
      → i ≤ k
      → k < j
      → dst'.cells (d * paging_pagesz + k) ≡ src.cells (s * paging_pagesz + k)
  pub others :
      (a : ℕ) → a < d * paging_pagesz + i ⊎ (d * paging_pagesz + j ≤ a) → dst'.cells a ≡ dst.cells a
  pub frames : dst'.free_fp_list ≡ dst.free_fp_list

-- one round of the loop, without the wrap of the addresses
abbrev copied_one : Memphy → Memphy → ℕ → ℕ → ℕ → Memphy
copied_one src dst s d i = poke dst (d * paging_pagesz + i) (src.cells (s * paging_pagesz + i))

no_wrap : (a top size : ℕ) → a < top → top ≤ size → size < u64_mod → a % u64_mod ≡ a
no_wrap a top size l r b = omega arith

IsRam-copied_one :
    (src dst : Memphy) (s d i top : ℕ) → IsRam dst top → IsRam (copied_one src dst s d i) top
IsRam-copied_one src dst s d i top v = record {
  random = v.random;
  room = v.room;
  small = v.small;
  bytes = λ a. ground (arith, v.bytes a);
}

IsRam-top : (mp : Memphy) (top top' : ℕ) → top' ≤ top → IsRam mp top → IsRam mp top'
IsRam-top mp top top' l v = record {
  random = v.random;
  room = omega arith;
  small = v.small;
  bytes = v.bytes;
}

module _ (n i : ℕ) (src dst : Memphy) (s d : ℕ) where
  cp_loop_step :
      IsRam src (s * paging_pagesz + (i + suc n))
      → IsRam dst (d * paging_pagesz + (i + suc n))
      → cp_loop (suc n) i src s dst d ≡ cp_loop n (i + 1) src s (copied_one src dst s d i) d
  unfolding cp_loop
  cp_loop_step vs vd = rw (
    no_wrap (s * paging_pagesz + i) _ src.size (omega arith) vs.room vs.small,
    no_wrap (d * paging_pagesz + i) _ dst.size (omega arith) vd.room vd.small,
    read_ram src (s * paging_pagesz + i) vs.random (omega (arith, vs.room)),
    write_ram dst (d * paging_pagesz + i) (src.cells (s * paging_pagesz + i)) vd.random
        (omega (arith, vd.room)),
  )

  IsCopied-step :
      (dst' : Memphy)
      → IsRam src (s * paging_pagesz + (i + suc n))
      → IsCopied src (copied_one src dst s d i) dst' s d (i + 1) (i + 1 + n)
      → IsCopied src dst dst' s d i (i + suc n)
  IsCopied-step dst' vs c = record { copied = here; others = elsewhere; frames = c.frames }
    where
      first :
          (k : ℕ) → k ≡ i → dst'.cells (d * paging_pagesz + k) ≡ src.cells (s * paging_pagesz + k)
      first k e = rw e (
          c.others (d * paging_pagesz + i) (inl (omega arith))
          ∙ ground (arith, vs.bytes (s * paging_pagesz + i)))

      here :
          (k : ℕ)
          → i ≤ k
          → k < i + suc n
          → dst'.cells (d * paging_pagesz + k) ≡ src.cells (s * paging_pagesz + k)
      here k l m = elim (dec_lt i k) [
        | yes p ↦ c.copied k (omega arith) (omega arith)
        | no p ↦ first k (omega arith)
      ]

      elsewhere :
          (a : ℕ)
          → a < d * paging_pagesz + i ⊎ (d * paging_pagesz + (i + suc n) ≤ a)
          → dst'.cells a ≡ dst.cells a
      elsewhere a (inl o) = c.others a (inl (omega arith)) ∙ ground arith
      elsewhere a (inr o) = c.others a (inr (omega arith)) ∙ ground arith

-- Between two random access devices the loop copies the cells of the page and nothing else.
cp_loop_lem :
    (n i : ℕ) (src dst : Memphy) (s d : ℕ)
    → IsRam src (s * paging_pagesz + (i + n))
    → IsRam dst (d * paging_pagesz + (i + n))
    → (dst' : Memphy) × (cp_loop n i src s dst d ≡ ok (src, dst'))
      × IsCopied src dst dst' s d i (i + n)
unfolding cp_loop
cp_loop_lem zero i src dst s d vs vd = (
  dst,
  refl,
  record { copied = λ k a b. absurd (omega arith); others = λ a o. refl; frames = refl },
)
cp_loop_lem (suc n) i src dst s d vs vd =
    let next = copied_one src dst s d i in
    let (dst', e, c) =
      cp_loop_lem n (i + 1) src next s d (IsRam-top src _ _ (omega arith) vs)
        (IsRam-copied_one src dst s d i _ (IsRam-top dst _ _ (omega arith) vd)) in
    (dst', cp_loop_step n i src dst s d vs vd ∙ e, IsCopied-step n i src dst s d dst' vs c)

-- `__swap_cp_page` between two random access devices that hold the two pages copies the page byte
-- by byte, leaves every other byte and the free frames, and leaves the source as it is.
pub swap_cp_page_lem :
    (src dst : Memphy) (s d : ℕ)
    → IsRam src (s * paging_pagesz + paging_pagesz)
    → IsRam dst (d * paging_pagesz + paging_pagesz)
    → (dst' : Memphy) × (swap_cp_page src s dst d ≡ ok (src, dst'))
      × IsCopied src dst dst' s d 0 paging_pagesz
unfolding swap_cp_page
swap_cp_page_lem src dst s d vs vd = cp_loop_lem paging_pagesz 0 src dst s d vs vd
