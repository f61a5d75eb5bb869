-- ===== src/Memphy/Frames.antt =====
-- src/mm-memphy.c: the list of free frames.
use os.Prelude.{
  ℕ, zero, suc, ◌+◌, ◌-◌, ◌*◌, ◌/◌, ◌%◌, ◌^◌, ◌<◌, ◌≤◌, ◌≡◌, refl, ap, ◌∙◌, Bool, some, List, ◌∷◌,
  arith, ◌==◌, if◌then◌else◌, length, get_elem?, success, false,
}
use os.Prelude.Words.{u32_mod}
use os.Pte.{paging_pagesz}
use os.Memphy.{Memphy, nonneg, frames, format, get_freefp, put_freefp, init_memphy}

length-frames : (n i : ℕ) → length (frames n i) ≡ n
unfolding frames
length-frames zero i = refl
length-frames (suc n) i = ap suc (length-frames n (i + 1))

get_elem?-frames : (n i k : ℕ) → k < n → get_elem? (frames n i) k ≡ some (i + k)
unfolding frames
get_elem?-frames zero i k h = absurd (omega arith)
get_elem?-frames (suc n) i zero h = ap some (omega arith)
get_elem?-frames (suc n) i (suc k) h =
    get_elem?-frames n (i + 1) k (omega arith) ∙ ap some (omega arith)

-- what `format` links, for `n` frames
abbrev linked : List ℕ → ℕ → List ℕ
linked stray n = 0 ∷ (if n == 1 then stray else frames (n - 1) 1)

linked_lem : (stray : List ℕ) (n : ℕ) → 2 ≤ n → linked stray n ≡ frames n 0
unfolding frames
linked_lem stray zero h = absurd (omega arith)
linked_lem stray (suc zero) h = absurd (omega arith)
linked_lem stray (suc (suc n)) h = rw (ne_one n, pred_two n)
  where
    ne_one : (n : ℕ) → (suc (suc n) == 1) ≡ false
    ne_one n = ground arith

    pred_two : (n : ℕ) → suc (suc n) - 1 ≡ suc n
    pred_two n = omega arith

format_lem :
    (stray : List ℕ) (mp : Memphy) (pagesz n : ℕ)
    → nonneg mp.maxsz / pagesz ≡ n
    → 2 ≤ n
    → format stray mp pagesz ≡ (success, record mp { free_fp_list = frames n 0 })
unfolding format
format_lem stray mp pagesz n e h =
    rw e (
      rw (not_zero n h)
        (ap (λ l. (success, record mp { free_fp_list = l })) (linked_lem stray n h)))
  where
    not_zero : (n : ℕ) → 2 ≤ n → (n == 0) ≡ false
    not_zero n h = ground arith

-- what `format` lists for a device of this size
init_memphy-frames :
    (stray : List ℕ) (mp : Memphy) (max_size : ℕ) (randomflg : Bool)
    → 2 * paging_pagesz ≤ max_size
    → max_size < 2 ^ 31
    → format stray
        (record mp { cells = λ _. 0; size = max_size; maxsz = max_size % u32_mod })
        paging_pagesz
      ≡ (
        success,
        record mp {
          cells = λ _. 0;
          size = max_size;
          maxsz = max_size % u32_mod;
          free_fp_list = frames (max_size / paging_pagesz) 0;
        },
      )
init_memphy-frames stray mp max_size randomflg lo hi =
    format_lem stray _ paging_pagesz (max_size / paging_pagesz) (ground arith) (omega arith)

-- the free list of a device that starts
pub free_list-init_memphy :
    (stray : List ℕ) (mp : Memphy) (max_size : ℕ) (randomflg : Bool)
    → 2 * paging_pagesz ≤ max_size
    → max_size < 2 ^ 31
    → (init_memphy stray mp max_size randomflg).free_fp_list ≡ frames (max_size / paging_pagesz) 0
unfolding init_memphy
free_list-init_memphy stray mp max_size randomflg lo hi =
    ap (λ r. r.1.free_fp_list) (init_memphy-frames stray mp max_size randomflg lo hi)

-- A device of at least two frames, below 2 GB, starts with the frames 0, 1, 2, … in its free
-- list, one for each whole page, and with every byte 0.
pub init_memphy_frames :
    (stray : List ℕ) (mp : Memphy) (max_size : ℕ) (randomflg : Bool) (k a : ℕ)
    → 2 * paging_pagesz ≤ max_size
    → max_size < 2 ^ 31
    → k < max_size / paging_pagesz
    → let t = init_memphy stray mp max_size randomflg in
      (length t.free_fp_list ≡ max_size / paging_pagesz)
      × (get_elem? t.free_fp_list k ≡ some k)
      × (t.cells a ≡ 0)
unfolding init_memphy
init_memphy_frames stray mp max_size randomflg k a lo hi h =
    let l = free_list-init_memphy stray mp max_size randomflg lo hi in
    (
      ap length l ∙ length-frames (max_size / paging_pagesz) 0,
      ap (λ f. get_elem? f k) l
          ∙ get_elem?-frames (max_size / paging_pagesz) 0 k h
          ∙ ap some (omega arith),
      ap (λ r. r.1.cells a) (init_memphy-frames stray mp max_size randomflg lo hi),
    )

-- A freed frame is the next one that is handed out, and the device is then as it was.
pub get-put_freefp : (mp : Memphy) (fpn : ℕ) → get_freefp (put_freefp mp fpn) ≡ (some fpn, mp)
unfolding get_freefp put_freefp
get-put_freefp mp fpn = refl
