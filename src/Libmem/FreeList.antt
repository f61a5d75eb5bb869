-- ===== src/Libmem/FreeList.antt =====
-- src/libmem.c: the first fit of get_free_vmrg_area.
use os.Prelude.{
  ℕ, ◌+◌, ◌-◌, ◌%◌, ◌^◌, ◌≤◌, ◌<◌, ◌≡◌, refl, ap, ◌∙◌, ◌⊎◌, inl, inr, true, false, List, [], ◌∷◌,
  ◌++◌, arith, All, leb, ltb, Bool-cases, if◌then◌else◌,
}
use os.Prelude.Words.{u64_mod, u32_mod, add64, sext32}
use mathlib.Core.Path.{subst, sym}
use os.Mm.{Region}
use os.Libmem.{use_up, fit_loop}
use os.Libmem.Cover.{cover, covers, cover_split, cover_empty, covers-use_up}

-- A region between two addresses from which no size of 32 bits leads over the end of memory.
abbrev pub IsRegion : Region → Type 0
IsRegion rg = (rg.rg_start ≤ rg.rg_end) × (rg.rg_end + u32_mod < u64_mod)

-- the bytes of the regions
abbrev pub bytes : List Region → ℕ
bytes [] = 0
bytes (rg ∷ rgs) = rg.rg_end - rg.rg_start + bytes rgs

abbrev pub IsTooSmall : ℕ → Region → Type 0
IsTooSmall size rg = rg.rg_end < rg.rg_start + size

-- What a search that succeeds does: it takes the first `size` bytes of the first region that has
-- them, and no other byte leaves the list.
pub record IsFit (free : List Region) (size : ℕ) (newrg : Region) (left : List Region)
    : Type 0 where
  pub before : List Region
  pub chosen : Region
  pub after : List Region
  pub split : free ≡ before ++ chosen ∷ after
  pub first : All (IsTooSmall size) before
  pub start : newrg.rg_start ≡ chosen.rg_start
  pub end : newrg.rg_end ≡ chosen.rg_start + size
  pub inside : chosen.rg_start + size ≤ chosen.rg_end
  pub kept : bytes left + size ≡ bytes free
  pub regions : All IsRegion left
  pub found : IsRegion newrg
  pub same : (a : ℕ) → cover a newrg + covers a left ≡ covers a free

abbrev pub no_fit : Region
no_fit = record { rg_start = u64_mod - 1; rg_end = u64_mod - 1 }

bytes-use_up : (rg : Region) (rest : List Region) → bytes (use_up rg rest) ≡ bytes rest
unfolding use_up
bytes-use_up rg [] = omega arith
bytes-use_up rg (next ∷ rest) = refl

use_up-All :
    (rg : Region) (rest : List Region)
    → IsRegion rg
    → All IsRegion rest
    → All IsRegion (use_up rg rest)
unfolding use_up
use_up-All rg [] v vs = ((omega arith, v.1), tt)
use_up-All rg (next ∷ rest) v vs = vs

add64-region :
    (rg : Region) (size : ℕ)
    → IsRegion rg
    → size < u32_mod
    → add64 rg.rg_start size ≡ rg.rg_start + size
add64-region rg size v b = no_wrap rg.rg_start rg.rg_end v.0 v.1
  where
    no_wrap : (s e : ℕ) → s ≤ e → e + u32_mod < u64_mod → add64 s size ≡ s + size
    no_wrap s e h k = omega arith

-- what is left of a region that fits
abbrev left_of : Region → List Region → ℕ → List Region
left_of rg rest size =
    if ltb (rg.rg_start + size) rg.rg_end
    then record rg { rg_start = rg.rg_start + size } ∷ rest
    else use_up rg rest

left_of_lem :
    (rg : Region) (rest : List Region) (size : ℕ)
    → All IsRegion (rg ∷ rest)
    → rg.rg_start + size ≤ rg.rg_end
    → (bytes (left_of rg rest size) + size ≡ bytes (rg ∷ rest))
      × All IsRegion (left_of rg rest size)
left_of_lem rg rest size (v, vs) fits = elim (Bool-cases (ltb (rg.rg_start + size) rg.rg_end)) [
  | inl e ↦ rw e (omega arith, ((omega arith, v.1), vs))
  | inr e ↦ rw e (used e (bytes-use_up rg rest), use_up-All rg rest v vs)
]
  where
    used :
        ltb (rg.rg_start + size) rg.rg_end ≡ false
        → bytes (use_up rg rest) ≡ bytes rest
        → bytes (use_up rg rest) + size ≡ bytes (rg ∷ rest)
    used e b = ground arith

covers-left_of :
    (rg : Region) (rest : List Region) (size a : ℕ)
    → rg.rg_start + size ≤ rg.rg_end
    → cover a (record { rg_start = rg.rg_start; rg_end = rg.rg_start + size })
        + covers a (left_of rg rest size)
      ≡ covers a (rg ∷ rest)
covers-left_of rg rest size a fits =
    let parts = cover_split a rg.rg_start (rg.rg_start + size) rg.rg_end (omega arith) fits in
    elim (Bool-cases (ltb (rg.rg_start + size) rg.rg_end)) [
      | inl e ↦ rw e (omega (arith, parts))
      | inr e ↦ rw e (
          omega (
            arith,
            parts,
            covers-use_up a rg rest,
            cover_empty a (rg.rg_start + size) rg.rg_end (all e),
          ))
    ]
  where
    all : ltb (rg.rg_start + size) rg.rg_end ≡ false → rg.rg_end ≤ rg.rg_start + size
    all e = ground arith

fit_takes :
    (rg : Region) (rest : List Region) (size : ℕ)
    → IsRegion rg
    → size < u32_mod
    → rg.rg_start + size ≤ rg.rg_end
    → fit_loop (rg ∷ rest) size
      ≡ (record { rg_start = rg.rg_start; rg_end = rg.rg_start + size }, left_of rg rest size)
unfolding fit_loop
fit_takes rg rest size v b fits =
    rw (add64-region rg size v b, within rg.rg_start size rg.rg_end fits) refl
  where
    within : (s n e : ℕ) → s + n ≤ e → leb (s + n) e ≡ true
    within s n e h = ground arith

fit_skips :
    (rg : Region) (rest : List Region) (size : ℕ)
    → IsRegion rg
    → size < u32_mod
    → IsTooSmall size rg
    → fit_loop (rg ∷ rest) size ≡ ((fit_loop rest size).0, rg ∷ (fit_loop rest size).1)
unfolding fit_loop
fit_skips rg rest size v b small =
    rw (add64-region rg size v b, beyond rg.rg_start size rg.rg_end small) refl
  where
    beyond : (s n e : ℕ) → e < s + n → leb (s + n) e ≡ false
    beyond s n e h = ground arith

-- A search for `size` bytes in a list of regions takes the first `size` bytes of the first region that
-- has them: each address is then in the region found and the list together as often as it was in
-- the list. Or no region has them, the list stays as it is, and the region found is (-1, -1).
pub fit_loop_lem :
    (free : List Region) (size : ℕ)
    → All IsRegion free
    → size < u32_mod
    → ((fit_loop free size ≡ (no_fit, free)) × All (IsTooSmall size) free)
      ⊎ IsFit free size (fit_loop free size).0 (fit_loop free size).1
fit_loop_lem [] size vs b = inl (unfold fit_loop in refl, tt)
fit_loop_lem (rg ∷ rest) size (v, vs) b = elim (fits_or_not (rg.rg_start + size) rg.rg_end) [
  | inl fits ↦ inr (
      subst (λ r. IsFit (rg ∷ rest) size r.0 r.1) (sym (fit_takes rg rest size v b fits))
        (record {
          before = [];
          chosen = rg;
          after = rest;
          split = refl;
          first = tt;
          start = refl;
          end = refl;
          inside = fits;
          kept = (left_of_lem rg rest size (v, vs) fits).0;
          regions = (left_of_lem rg rest size (v, vs) fits).1;
          found = (omega arith, omega (arith, v.1, fits));
          same = λ a. covers-left_of rg rest size a fits;
        }))
  | inr small ↦ elim (fit_loop_lem rest size vs b) [
    | inl (same, all_small) ↦
        inl (fit_skips rg rest size v b small ∙ ap (λ r. (r.0, rg ∷ r.1)) same, (small, all_small))
    | inr f ↦ inr (
        subst (λ r. IsFit (rg ∷ rest) size r.0 r.1) (sym (fit_skips rg rest size v b small))
          (record {
            before = rg ∷ f.before;
            chosen = f.chosen;
            after = f.after;
            split = ap (λ l. rg ∷ l) f.split;
            first = (small, f.first);
            start = f.start;
            end = f.end;
            inside = f.inside;
            kept = omega (arith, f.kept);
            regions = (v, f.regions);
            found = f.found;
            same = λ a. omega (arith, f.same a);
          }))
  ]
]
  where
    fits_or_not : (a b : ℕ) → (a ≤ b) ⊎ (b < a)
    fits_or_not a b = elim (Bool-cases (leb a b)) [
      | inl e ↦ inl (ground arith)
      | inr e ↦ inr (ground arith)
    ]

-- A search for the size of the first region takes it whole.
pub fit_exactly :
    (rg : Region) (rest : List Region)
    → IsRegion rg
    → rg.rg_end - rg.rg_start < 2 ^ 31
    → fit_loop (rg ∷ rest) (sext32 ((rg.rg_end - rg.rg_start) % u32_mod)) ≡ (rg, use_up rg rest)
fit_exactly rg rest v b =
    ap (fit_loop (rg ∷ rest)) (as_int (rg.rg_end - rg.rg_start) b)
    ∙ fit_takes rg rest (rg.rg_end - rg.rg_start) v (omega arith) (omega (arith, v.0))
    ∙ ap
        (λ e. (
          record { rg_start = rg.rg_start; rg_end = e },
          if ltb e rg.rg_end then record rg { rg_start = e } ∷ rest else use_up rg rest,
        ))
        (whole rg.rg_start rg.rg_end v.0)
    ∙ ap (λ c. (rg, if c then record rg { rg_start = rg.rg_end } ∷ rest else use_up rg rest))
        (not_below rg.rg_end)
  where
    as_int : (n : ℕ) → n < 2 ^ 31 → sext32 (n % u32_mod) ≡ n
    as_int n h = ground arith

    whole : (s e : ℕ) → s ≤ e → s + (e - s) ≡ e
    whole s e h = omega arith

    not_below : (e : ℕ) → ltb e e ≡ false
    not_below e = ground arith
