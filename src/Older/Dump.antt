-- ===== src/Older/Dump.antt =====
-- src/mem.c: dump, as the lines that it prints.
use mathlib.Core.Path.{subst}
use os.Prelude.{
  ℕ, zero, suc, ◌+◌, ◌-◌, ◌*◌, ◌≤◌, ◌<◌, ◌≡◌, ◌⊎◌, inl, inr, refl, ap, sym, ◌∙◌, true, false, List,
  [], ◌∷◌, ◌++◌, ◌==◌, ==_iff, if◌then◌else◌, Bool-cases, arith,
}
use os.Older.{page_size}

-- an entry of `_mem_stat`
pub record PageStat : Type 0 where
  pub proc : ℕ
  pub index : ℕ
  pub next : ℕ

-- A line for a page, with its number, its first and its last address and its entry, and a line
-- for a byte, with its address. The sign of the byte is extended when it is printed.
pub data Line : Type 0 where
  page_line : ℕ → ℕ → ℕ → PageStat → Line
  byte_line : ℕ → ℕ → Line

-- the inner loop, `n` rounds from the address `j` on
unfoldable pub dump_bytes : (ℕ → ℕ) → ℕ → ℕ → List Line
dump_bytes ram zero j = []
dump_bytes ram (suc n) j =
    let rest = dump_bytes ram n (j + 1) in if ram j == 0 then rest else byte_line j (ram j) ∷ rest

-- the outer loop, `n` rounds from the page `i` on
unfoldable pub dump_pages : (ℕ → PageStat) → (ℕ → ℕ) → ℕ → ℕ → List Line
dump_pages stat ram zero i = []
dump_pages stat ram (suc n) i =
    let rest = dump_pages stat ram n (i + 1) in
    let page = page_line i (i * page_size) ((i + 1) * page_size - 1) (stat i) in
    if (stat i).proc == 0
    then rest
    else page ∷ dump_bytes ram (page_size - 1) (i * page_size) ++ rest

unfoldable pub dump : (ℕ → PageStat) → (ℕ → ℕ) → List Line
dump stat ram = dump_pages stat ram 1024 0

-- whether a byte has this value
abbrev pub is_value : ℕ → ℕ → ℕ
is_value x v = if x == v then 1 else 0

-- how many lines show the value `v` at the address `a`
abbrev pub shown : ℕ → ℕ → List Line → ℕ
shown v a [] = 0
shown v a (page_line i start end s ∷ ls) = shown v a ls
shown v a (byte_line j x ∷ ls) = (if j == a then is_value x v else 0) + shown v a ls

shown-append : (v a : ℕ) (xs ys : List Line) → shown v a (xs ++ ys) ≡ shown v a xs + shown v a ys
shown-append v a [] ys = omega arith
shown-append v a (page_line i start end s ∷ xs) ys = shown-append v a xs ys
shown-append v a (byte_line j x ∷ xs) ys = omega (arith, shown-append v a xs ys)

-- one line with the value of a byte that is not 0
abbrev pub if_not_zero : ℕ → ℕ → ℕ
if_not_zero v x = if x == 0 then 0 else is_value x v

apart : (j a : ℕ) → (a < j) ⊎ (j < a) → (j == a) ≡ false
apart j a (inl h) = ground arith
apart j a (inr h) = ground arith

module _ (ram : ℕ → ℕ) (v : ℕ) where
  shown_outside : (a n j : ℕ) → (a < j) ⊎ (j + n ≤ a) → shown v a (dump_bytes ram n j) ≡ 0
  unfolding dump_bytes
  shown_outside a zero j h = refl
  shown_outside a (suc n) j h = elim (Bool-cases (ram j == 0)) [
    | inl e ↦ rw e (shown_outside a n (j + 1) (next h))
    | inr e ↦ rw (e, apart j a (differ h)) (omega (arith, shown_outside a n (j + 1) (next h)))
  ]
    where
      next : (a < j) ⊎ (j + suc n ≤ a) → (a < j + 1) ⊎ (j + 1 + n ≤ a)
      next (inl l) = inl (omega arith)
      next (inr l) = inr (omega arith)

      differ : (a < j) ⊎ (j + suc n ≤ a) → (a < j) ⊎ (j < a)
      differ (inl l) = inl l
      differ (inr l) = inr (omega arith)

  shown_first : (n j : ℕ) → shown v j (dump_bytes ram (suc n) j) ≡ if_not_zero v (ram j)
  unfolding dump_bytes
  shown_first n j =
      let none_behind = shown_outside j n (j + 1) (inl (omega arith)) in
      elim (Bool-cases (ram j == 0)) [
        | inl e ↦ rw e none_behind
        | inr e ↦ rw (e, (==_iff j j).1 refl) (omega (arith, none_behind))
      ]

  shown_next :
      (a n j : ℕ)
      → (j == a) ≡ false
      → shown v a (dump_bytes ram (suc n) j) ≡ shown v a (dump_bytes ram n (j + 1))
  unfolding dump_bytes
  shown_next a n j e = elim (Bool-cases (ram j == 0)) [
    | inl z ↦ rw z refl
    | inr z ↦ rw (z, e) (omega arith)
  ]

  shown_inside :
      (a n j : ℕ) → j ≤ a → a < j + n → shown v a (dump_bytes ram n j) ≡ if_not_zero v (ram a)
  shown_inside a zero j h l = absurd (omega arith)
  shown_inside a (suc n) j h l = elim (Bool-cases (j == a)) [
    | inl e ↦
        subst (λ a. shown v a (dump_bytes ram (suc n) j) ≡ if_not_zero v (ram a)) ((==_iff j a).0 e)
          (shown_first n j)
    | inr e ↦ shown_next a n j e ∙ shown_inside a n (j + 1) (further e) (omega arith)
  ]
    where
      further : (j == a) ≡ false → j + 1 ≤ a
      further e = ground arith

  module _ (stat : ℕ → PageStat) where
    -- the byte `r` of the page `p`, in the lines of one page
    in_page :
        (p r i : ℕ)
        → r < page_size
        → shown v (p * page_size + r) (dump_bytes ram (page_size - 1) (i * page_size)) ≡ (
            if i == p
            then (if r == page_size - 1 then 0 else if_not_zero v (ram (p * page_size + r)))
            else 0)
    in_page p r i h = elim (Bool-cases (i == p)) [
      | inl e ↦ elim (Bool-cases (r == page_size - 1)) [
        | inl l ↦ rw (e, l) (shown_outside _ _ _ (inr (last e l)))
        | inr l ↦ rw (e, l) (shown_inside _ _ _ (omega (arith, (==_iff i p).0 e)) (before e l))
      ]
      | inr e ↦ rw e (shown_outside _ _ _ (elsewhere e))
    ]
      where
        last :
            (i == p) ≡ true
            → (r == page_size - 1) ≡ true
            → i * page_size + (page_size - 1) ≤ p * page_size + r
        last e l = ground arith

        before :
            (i == p) ≡ true
            → (r == page_size - 1) ≡ false
            → p * page_size + r < i * page_size + (page_size - 1)
        before e l = ground arith

        elsewhere :
            (i == p) ≡ false
            → (p * page_size + r < i * page_size)
              ⊎ (i * page_size + (page_size - 1) ≤ p * page_size + r)
        elsewhere e = ground arith

    -- the lines for the byte: one if the page is in use, the byte is not the last of its page and not 0
    abbrev pub lines : ℕ → ℕ → ℕ
    lines p r =
        if (stat p).proc == 0
        then 0
        else if r == page_size - 1
        then 0
        else if_not_zero v (ram (p * page_size + r))

    pages_step :
        (p r n i : ℕ)
        → r < page_size
        → shown v (p * page_size + r) (dump_pages stat ram (suc n) i)
          ≡ (if i == p then lines p r else 0)
            + shown v (p * page_size + r) (dump_pages stat ram n (i + 1))
    unfolding dump_pages
    pages_step p r n i h = elim (Bool-cases (i == p)) [
      | inl e ↦ elim (Bool-cases ((stat i).proc == 0)) [
        | inl z ↦ rw (z, e, ap (λ i. (stat i).proc == 0) (sym ((==_iff i p).0 e)) ∙ z) (omega arith)
        | inr z ↦
            rw (z, e, ap (λ i. (stat i).proc == 0) (sym ((==_iff i p).0 e)) ∙ z)
              (shown-append v _ (dump_bytes ram (page_size - 1) (i * page_size))
                  (dump_pages stat ram n (i + 1))
                ∙ ap (λ x. x + shown v (p * page_size + r) (dump_pages stat ram n (i + 1)))
                    (in_page p r i h ∙ rw e refl))
      ]
      | inr e ↦ elim (Bool-cases ((stat i).proc == 0)) [
        | inl z ↦ rw (z, e) (omega arith)
        | inr z ↦
            rw (z, e)
              (shown-append v _ (dump_bytes ram (page_size - 1) (i * page_size))
                  (dump_pages stat ram n (i + 1))
                ∙ ap (λ x. x + shown v (p * page_size + r) (dump_pages stat ram n (i + 1)))
                    (in_page p r i h ∙ rw e refl))
      ]
    ]

    pages_behind :
        (p r n i : ℕ)
        → r < page_size
        → p < i
        → shown v (p * page_size + r) (dump_pages stat ram n i) ≡ 0
    unfolding dump_pages
    pages_behind p r zero i h l = refl
    pages_behind p r (suc n) i h l =
        pages_step p r n i h
        ∙ rw (apart i p (inl l)) (omega (arith, pages_behind p r n (i + 1) h (omega arith)))

    pages_from :
        (p r n i : ℕ)
        → r < page_size
        → i ≤ p
        → p < i + n
        → shown v (p * page_size + r) (dump_pages stat ram n i) ≡ lines p r
    pages_from p r zero i h l k = absurd (omega arith)
    pages_from p r (suc n) i h l k = elim (Bool-cases (i == p)) [
      | inl e ↦
          pages_step p r n i h
          ∙ rw e (omega (arith, pages_behind p r n (i + 1) h (omega (arith, (==_iff i p).0 e))))
      | inr e ↦
          pages_step p r n i h
          ∙ rw e (omega (arith, pages_from p r n (i + 1) h (further e) (omega arith)))
    ]
      where
        further : (i == p) ≡ false → i + 1 ≤ p
        further e = ground arith

    -- `dump` prints, of the 1024 pages, the bytes of those that are in use: for each byte that is not 0
    -- one line with its address and its value, and none with another value, but no line for the last
    -- byte of a page, whatever it is.
    pub shown-dump :
        (p r : ℕ)
        → p < 1024
        → r < page_size
        → shown v (p * page_size + r) (dump stat ram) ≡ (
            if (stat p).proc == 0
            then 0
            else if r == page_size - 1
            then 0
            else if ram (p * page_size + r) == 0
            then 0
            else if ram (p * page_size + r) == v
            then 1
            else 0)
    unfolding dump
    shown-dump p r l h = pages_from p r 1024 0 h (omega arith) (omega arith)
