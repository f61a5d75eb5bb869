-- ===== src/Libmem/Cover.antt =====
-- src/libmem.c: how many regions of a list have an address.
use os.Prelude.{
  ℕ, zero, suc, ◌+◌, ◌≤◌, ◌<◌, ◌≡◌, ◌≢◌, refl, ap, some, List, [], ◌∷◌, ◌&&◌, leb, ltb,
  if◌then◌else◌, arith, set, get_elem?, some_inj,
}
use os.Mm.{Region}
use os.Libmem.{use_up}

abbrev pub cover : ℕ → Region → ℕ
cover a rg = if leb rg.rg_start a && ltb a rg.rg_end then 1 else 0

abbrev pub covers : ℕ → List Region → ℕ
covers a [] = 0
covers a (rg ∷ rgs) = cover a rg + covers a rgs

pub cover_empty : (a s e : ℕ) → e ≤ s → cover a (record { rg_start = s; rg_end = e }) ≡ 0
cover_empty a s e h = ground arith

pub cover_split :
    (a s m e : ℕ)
    → s ≤ m
    → m ≤ e
    → cover a (record { rg_start = s; rg_end = m }) + cover a (record { rg_start = m; rg_end = e })
      ≡ cover a (record { rg_start = s; rg_end = e })
cover_split a s m e h k = ground arith

pub cover_within : (a s e : ℕ) → s ≤ a → a < e → cover a (record { rg_start = s; rg_end = e }) ≡ 1
cover_within a s e h k = ground arith

pub cover_beyond : (a s e : ℕ) → e ≤ a → cover a (record { rg_start = s; rg_end = e }) ≡ 0
cover_beyond a s e h = ground arith

pub cover_before : (a s e : ℕ) → a < s → cover a (record { rg_start = s; rg_end = e }) ≡ 0
cover_before a s e h = ground arith

-- A region of a list is replaced.
pub covers-set :
    (a : ℕ) (rgs : List Region) (i : ℕ) (old rg : Region)
    → get_elem? rgs i ≡ some old
    → covers a (set rgs i rg) + cover a old ≡ covers a rgs + cover a rg
covers-set a [] i old rg e = cc
covers-set a (x ∷ rgs) zero old rg e = omega (arith, ap (cover a) (some_inj e))
covers-set a (x ∷ rgs) (suc i) old rg e = omega (arith, covers-set a rgs i old rg e)

pub covers_one :
    (a : ℕ) (rgs : List Region) (i : ℕ) (x : Region)
    → get_elem? rgs i ≡ some x
    → cover a x ≤ covers a rgs
covers_one a [] i x e = cc
covers_one a (r ∷ rgs) zero x e = omega (arith, ap (cover a) (some_inj e))
covers_one a (r ∷ rgs) (suc i) x e = omega (arith, covers_one a rgs i x e)

-- Two regions of a list both count.
pub covers_two :
    (a : ℕ) (rgs : List Region) (i j : ℕ) (x y : Region)
    → i ≢ j
    → get_elem? rgs i ≡ some x
    → get_elem? rgs j ≡ some y
    → cover a x + cover a y ≤ covers a rgs
covers_two a [] i j x y d e f = cc
covers_two a (r ∷ rgs) zero zero x y d e f = absurd (d refl)
covers_two a (r ∷ rgs) zero (suc j) x y d e f =
    omega (arith, ap (cover a) (some_inj e), covers_one a rgs j y f)
covers_two a (r ∷ rgs) (suc i) zero x y d e f =
    omega (arith, ap (cover a) (some_inj f), covers_one a rgs i x e)
covers_two a (r ∷ rgs) (suc i) (suc j) x y d e f =
    omega (arith, covers_two a rgs i j x y (λ q. d (ap suc q)) e f)

pub covers-use_up :
    (a : ℕ) (rg : Region) (rest : List Region) → covers a (use_up rg rest) ≡ covers a rest
unfolding use_up
covers-use_up a rg [] = ground arith
covers-use_up a rg (next ∷ rest) = refl
