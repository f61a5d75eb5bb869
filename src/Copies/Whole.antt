-- ===== src/Copies/Whole.antt =====
-- src/libmem.c: libkmem_copy_from_user and libkmem_copy_to_user on all their bytes.
use os.Prelude.{
  ℕ, zero, suc, ◌+◌, ◌%◌, ◌<◌, ◌≤◌, ◌≡◌, refl, ap, ◌∙◌, arith, ok, one, Exec, Rc, success,
}
use os.Prelude.Words.{u32_mod, add64}
use os.Memphy.Access.{poke}
use os.Pte.{paging_pgn}
use os.Mm.{Region}
use os.Libmem.Paging.{entry-walked}
use os.Process.{World}
use os.Process.RoundTrip.{inside_call}
use os.Copies.{copy_byte_in, copy_byte_out, copy_loop, libkmem_copy_from_user, libkmem_copy_to_user}
use os.Copies.Byte.{IsRegionByte, place, stored, copied_in, copied_out, copy_bytes_lem}
use os.Copies.Moving.{moved, Separate, moved_elsewhere, moved_there, Moved}
use os.Copies.Kept.{place-Kept, IsRegionByte-Kept, BothKept, BothKept-refl, BothKept-trans}

copied_in-BothKept : (w : World) (rg rg' : Region) (at i : ℕ) → BothKept w (copied_in w rg rg' at i)
copied_in-BothKept w rg rg' at i = record {
  user = record {
    entries = entry-walked w.user.pgd (paging_pgn (add64 rg.rg_start at));
    symbols = refl;
    random = refl;
    size = refl;
  };
  kernel = record {
    entries = entry-walked w.krnl.mm.pgd (paging_pgn (add64 rg'.rg_start i));
    symbols = refl;
    random = refl;
    size = refl;
  };
}

copied_out-BothKept :
    (w : World) (rg rg' : Region) (at i : ℕ) → BothKept w (copied_out w rg rg' at i)
copied_out-BothKept w rg rg' at i = record {
  user = record {
    entries = entry-walked w.user.pgd (paging_pgn (add64 rg.rg_start at));
    symbols = refl;
    random = refl;
    size = refl;
  };
  kernel = record {
    entries = entry-walked w.krnl.mm.pgd (paging_pgn (add64 rg'.rg_start i));
    symbols = refl;
    random = refl;
    size = refl;
  };
}

-- a round that moves one byte and keeps the rest
abbrev Moves : World → (World → ℕ → Exec (Rc × World)) → (ℕ → ℕ) → (ℕ → ℕ) → ℕ → Type 0
Moves w₀ copy_byte from to n =
    (i : ℕ) (w : World)
    → i < n
    → BothKept w₀ w
    → (w' : World) × (copy_byte w i ≡ ok (success, w'))
      × BothKept w w'
      × (w'.krnl.mram ≡ poke w.krnl.mram (to i) (stored (w.krnl.mram.cells (from i))))

copy_loop-Moves :
    (w₀ : World) (copy_byte : World → ℕ → Exec (Rc × World)) (from to : ℕ → ℕ) (size : ℕ)
    → Moves w₀ copy_byte from to size
    → (n i : ℕ) (w : World) → i + n ≤ size
    → BothKept w₀ w
    → (w' : World) × (copy_loop copy_byte n i w ≡ ok (success, w'))
      × BothKept w w'
      × (w'.krnl.mram ≡ moved from to n i w.krnl.mram)
unfolding copy_loop
copy_loop-Moves w₀ copy_byte from to size step zero i w h k = (w, refl, BothKept-refl w, refl)
copy_loop-Moves w₀ copy_byte from to size step (suc n) i w h k =
    let (w', e, k', m) = step i w (omega arith) k in
    let (w'', e', k'', m') =
      copy_loop-Moves w₀ copy_byte from to size step n (i + 1) w' (omega arith)
        (BothKept-trans w₀ w w' k k') in
    (w'', rw (e, e') refl, BothKept-trans w w' w'' k' k'', m' ∙ ap (moved from to n (i + 1)) m)

-- Every byte of the copy exists on both sides with its page in RAM.
abbrev pub AllResident : World → ℕ → ℕ → Region → Region → ℕ → ℕ → Type 0
AllResident w user kernel rg rg' offset size =
    (i : ℕ)
    → i < size
    → IsRegionByte (inside_call w) user rg ((offset + i) % u32_mod)
      × IsRegionByte w.krnl kernel rg' i

abbrev pub user_place : World → Region → ℕ → ℕ → ℕ
user_place w rg offset i = place (inside_call w) rg ((offset + i) % u32_mod)

same_move :
    (x : World) {a b c d : ℕ}
    → a ≡ b
    → c ≡ d
    → poke x.krnl.mram a (stored (x.krnl.mram.cells c))
      ≡ poke x.krnl.mram b (stored (x.krnl.mram.cells d))
same_move x p q = rw (p, q) refl

module _ (w : World) (pid user kernel : ℕ) (rg rg' : Region) (offset size : ℕ)
    (v : AllResident w user kernel rg rg' offset size) where
  in_Moves :
      Moves w
        (λ x i. copy_byte_in x pid user kernel offset i)
        (user_place w rg offset)
        (place w.krnl rg')
        size
  in_Moves i x h k =
      let at = (offset + i) % u32_mod in
      let run =
        (copy_bytes_lem x pid user kernel rg rg' offset i
          (IsRegionByte-Kept _ _ user rg at k.user (v i h).0)
          (IsRegionByte-Kept _ _ kernel rg' i k.kernel (v i h).1)).0 in
      (
        copied_in x rg rg' at i,
        run,
        copied_in-BothKept x rg rg' at i,
        same_move x (place-Kept _ _ rg' i k.kernel) (place-Kept _ _ rg at k.user),
      )

  out_Moves :
      Moves w
        (λ x i. copy_byte_out x pid kernel user offset i)
        (place w.krnl rg')
        (user_place w rg offset)
        size
  out_Moves i x h k =
      let at = (offset + i) % u32_mod in
      let run =
        (copy_bytes_lem x pid user kernel rg rg' offset i
          (IsRegionByte-Kept _ _ user rg at k.user (v i h).0)
          (IsRegionByte-Kept _ _ kernel rg' i k.kernel (v i h).1)).1 in
      (
        copied_out x rg rg' at i,
        run,
        copied_out-BothKept x rg rg' at i,
        same_move x (place-Kept _ _ rg at k.user) (place-Kept _ _ rg' i k.kernel),
      )

  copy_loop-Moved :
      (copy_byte : World → ℕ → Exec (Rc × World)) (from to : ℕ → ℕ)
      → Moves w copy_byte from to size
      → Separate from to size
      → (w' : World) × (copy_loop copy_byte size 0 w ≡ ok (success, w'))
        × Moved from to size w.krnl.mram w'.krnl.mram
  copy_loop-Moved copy_byte from to step s =
      let (w', run, k, m) =
        copy_loop-Moves w copy_byte from to size step size 0 w (omega arith) (BothKept-refl w) in
      (
        w',
        run,
        (
          (λ i h.
              ap (λ ram. ram.cells (to i)) m
              ∙ moved_there from to size size 0 w.krnl.mram i s (omega arith) (omega arith)
                  (omega arith)),
          (λ a d.
              ap (λ ram. ram.cells a) m
              ∙ moved_elsewhere from to size 0 w.krnl.mram a (λ j h l. d j (omega arith))),
        ),
      )

  -- When every byte of a copy exists on both sides with its page in RAM, and no two of them share a
  -- place, libkmem_copy_from_user returns 0 and libkmem_copy_to_user returns 1; the first puts each byte of
  -- the process in the place of the kernel's byte, the second each byte of the kernel in
  -- the place of the process's byte, and both leave the rest of RAM as it was.
  pub libkmem_copy-Moved :
      Separate (user_place w rg offset) (place w.krnl rg') size
      → Separate (place w.krnl rg') (user_place w rg offset) size
      → ((w' : World) × (libkmem_copy_from_user w pid user kernel offset size ≡ ok (success, w'))
          × Moved (user_place w rg offset) (place w.krnl rg') size w.krnl.mram w'.krnl.mram)
        × ((w' : World) × (libkmem_copy_to_user w pid kernel user offset size ≡ ok (one, w'))
            × Moved (place w.krnl rg') (user_place w rg offset) size w.krnl.mram w'.krnl.mram)
  unfolding libkmem_copy_from_user libkmem_copy_to_user
  libkmem_copy-Moved s s' =
      let (w', run, m) = copy_loop-Moved _ _ _ in_Moves s in
      let (w'', run', m') = copy_loop-Moved _ _ _ out_Moves s' in
      ((w', run, m), (w'', rw run' refl, m'))
