-- ===== src/Memphy/Times.antt =====
-- src/mm-memphy.c: how often a frame is in a list of free frames.
use mathlib.Core.List.{reverse, reverse_aux}
use os.Prelude.{
  ℕ, zero, suc, ◌+◌, ◌≤◌, ◌<◌, ◌≡◌, ◌≢◌, ◌⊎◌, refl, ap, some, List, [], ◌∷◌, arith, ◌==◌, ==_iff,
  if◌then◌else◌, Bool-cases, inl, inr, false, get_elem?, take, drop, some_inj,
}
use os.Memphy.{frames}

abbrev pub is_frame : ℕ → ℕ → ℕ
is_frame x f = if x == f then 1 else 0

abbrev pub times : ℕ → List ℕ → ℕ
times f [] = 0
times f (x ∷ xs) = is_frame x f + times f xs

is_one : (x f : ℕ) → x ≡ f → is_frame x f ≡ 1
is_one x f e = ground arith

is_other : (x f : ℕ) → (x < f) ⊎ (f < x) → is_frame x f ≡ 0
is_other x f (inl h) = ground arith
is_other x f (inr h) = ground arith

pub times_elem : (f : ℕ) (l : List ℕ) (k : ℕ) → get_elem? l k ≡ some f → 1 ≤ times f l
times_elem f [] k e = cc
times_elem f (x ∷ l) zero e = omega (arith, is_one x f (some_inj e))
times_elem f (x ∷ l) (suc k) e = omega (arith, times_elem f l k e)

times_two :
    (f : ℕ) (l : List ℕ) (k m : ℕ)
    → k ≢ m
    → get_elem? l k ≡ some f
    → get_elem? l m ≡ some f
    → 2 ≤ times f l
times_two f [] k m d e g = cc
times_two f (x ∷ l) zero zero d e g = absurd (d refl)
times_two f (x ∷ l) zero (suc m) d e g = omega (arith, is_one x f (some_inj e), times_elem f l m g)
times_two f (x ∷ l) (suc k) zero d e g = omega (arith, is_one x f (some_inj g), times_elem f l k e)
times_two f (x ∷ l) (suc k) (suc m) d e g = omega (arith, times_two f l k m (λ q. d (ap suc q)) e g)

pub times-drop : (f n : ℕ) (l : List ℕ) → times f (drop n l) ≤ times f l
times-drop f zero l = omega arith
times-drop f (suc n) [] = omega arith
times-drop f (suc n) (x ∷ l) = omega (arith, times-drop f n l)

-- A frame that is dropped is there once less.
pub times_dropped :
    (f n : ℕ) (l : List ℕ) (k : ℕ)
    → k < n
    → get_elem? l k ≡ some f
    → times f (drop n l) + 1 ≤ times f l
times_dropped f zero l k h e = absurd (omega arith)
times_dropped f (suc n) [] k h e = cc
times_dropped f (suc n) (x ∷ l) zero h e = omega (arith, is_one x f (some_inj e), times-drop f n l)
times_dropped f (suc n) (x ∷ l) (suc k) h e = omega (arith, times_dropped f n l k (omega arith) e)

times-reverse_aux : (f : ℕ) (l r : List ℕ) → times f (reverse_aux l r) ≡ times f l + times f r
times-reverse_aux f [] r = omega arith
times-reverse_aux f (x ∷ l) r = omega (arith, times-reverse_aux f l (x ∷ r))

pub times-reverse : (f : ℕ) (l : List ℕ) → times f (reverse l) ≡ times f l
times-reverse f l = omega (arith, times-reverse_aux f l [])

pub get_elem?-take : (n : ℕ) (l : List ℕ) (k : ℕ) → k < n → get_elem? (take n l) k ≡ get_elem? l k
get_elem?-take zero l k h = absurd (omega arith)
get_elem?-take (suc n) [] k h = refl
get_elem?-take (suc n) (x ∷ l) zero h = refl
get_elem?-take (suc n) (x ∷ l) (suc k) h = get_elem?-take n l k (omega arith)

-- A frame that is once in a list is at one place.
pub same_place :
    (f : ℕ) (l : List ℕ) (k m : ℕ)
    → times f l ≤ 1
    → get_elem? l k ≡ some f
    → get_elem? l m ≡ some f
    → k ≡ m
same_place f l k m h e g = elim (Bool-cases (k == m)) [
  | inl q ↦ (==_iff k m).0 q
  | inr q ↦ absurd (omega (arith, h, times_two f l k m (λ s. differ q s) e g))
]
  where
    differ : (k == m) ≡ false → k ≡ m → ⊥
    differ q s = ground arith

-- the frames that a device starts with
pub times-frames :
    (f n i : ℕ)
    → (times f (frames n i) ≤ 1)
      × (f < i → times f (frames n i) ≡ 0)
      × (i + n ≤ f → times f (frames n i) ≡ 0)
unfolding frames
times-frames f zero i = (omega arith, λ h. refl, λ h. refl)
times-frames f (suc n) i =
    let (once, before, behind) = times-frames f n (i + 1) in
    (
      elim (Bool-cases (i == f)) [
        | inl e ↦
            (let same = (==_iff i f).0 e in
              omega (arith, is_one i f same, before (omega (arith, same))))
        | inr e ↦
            (let none_here : is_frame i f ≡ 0 = ground arith in omega (arith, none_here, once))
      ],
      λ h. omega (arith, is_other i f (inr h), before (omega (arith, h))),
      λ h. omega (arith, is_other i f (inl (omega (arith, h))), behind (omega (arith, h))),
    )
