-- ===== src/Process/Isolation/Frames.antt =====
-- src/libmem.c and src/mm64.c: an allocation gives a process frames of its own.
use os.Prelude.{
  ℕ, ◌+◌, ◌-◌, ◌%◌, ◌^◌, ◌≤◌, ◌<◌, ◌≡◌, ◌⊎◌, inl, inr, refl, ap, sym, ◌∙◌, false, some, List, arith,
  ltb, ◌==◌, ==_iff, Bool-cases, length, get_elem?, get_elem?-cases, drop,
}
use mathlib.Core.Path.{subst}
use os.Prelude.Words.{u32_mod}
use os.Pte.{page_present, paging_fpn, set_fpn}
use os.Pte.Fields.{set_fpn_fields}
use os.PageTable.{Pgd}
use os.PageTable.Entries.{entry}
use os.Memphy.Times.{times, times_elem, times-drop, times_dropped, same_place}
use os.Process
use os.Process.Heap.Grant.{Grant, none_taken, three_taken}
use os.Process.Isolation.{Processes, after, IsPresent, frame_of, Apart}

pub frame_set : (e f : ℕ) → paging_fpn (set_fpn e f % u32_mod) ≡ f % 2 ^ 13
frame_set e f =
    let (present, plain, fpn, fits, others) = set_fpn_fields e f in
    ap paging_fpn (small _ fits) ∙ fpn
  where
    small : (x : ℕ) → x < u32_mod → x % u32_mod ≡ x
    small x h = omega arith

new_or_old :
    (q pgn : ℕ)
    → q < 2 ^ 45
    → ((k : ℕ) × (k < 3) × (q ≡ pgn + k)) ⊎ (q < pgn) ⊎ (pgn + 3 ≤ q) × (q < 2 ^ 45)
new_or_old q pgn h = elim (Bool-cases (ltb q pgn)) [
  | inl e ↦ inr (inl (ground arith))
  | inr e ↦ elim (Bool-cases (ltb q (pgn + 3))) [
    | inl l ↦ inl (q - pgn, ground arith, ground arith)
    | inr l ↦ inr (inr (ground arith, h))
  ]
]

-- A present page of a process after the process `i` took three frames: one of the three new pages,
-- or a page with the frame that it had.
data Status (s : Processes) (i pgn j q f : ℕ) : Type 0 where
  new :
      (k : ℕ)
      → k < 3
      → i ≡ j
      → q ≡ pgn + k
      → get_elem? s.krnl.mram.free_fp_list k ≡ some f
      → Status s i pgn j q f
  old : IsPresent (s.mm j).pgd q → frame_of (s.mm j).pgd q ≡ f → Status s i pgn j q f

third : (l : List ℕ) (k : ℕ) → 3 ≤ length l → k < 3 → (f : ℕ) × (get_elem? l k ≡ some f)
third l k h b = elim (get_elem?-cases l k) [
  | inl (beyond, e) ↦ absurd (omega (arith, beyond, h, b))
  | inr (f, there, e) ↦ (f, e)
]

-- the laws of a grant of three frames
record Three (pgd pgd' : Pgd) (free : List ℕ) (pgn : ℕ) : Type 0 where
  enough : 3 ≤ length free
  frame :
      (i f : ℕ)
      → i < 3
      → get_elem? free i ≡ some f
      → entry pgd' (pgn + i) ≡ set_fpn (entry pgd (pgn + i)) f
  outside : (q : ℕ) → q < pgn ⊎ (pgn + 3 ≤ q) × (q < 2 ^ 45) → entry pgd' q ≡ entry pgd q

module _ (s : Processes) (n i : ℕ) (w : Process.World) (v : Apart s n) where
  abbrev free : List ℕ
  free = s.krnl.mram.free_fp_list

  thirteen_bits : (f k : ℕ) → get_elem? free k ≡ some f → f % 2 ^ 13 ≡ f
  thirteen_bits f k e = elim (Bool-cases (ltb f (2 ^ 13))) [
    | inl h ↦ ground arith
    | inr h ↦ absurd (omega (arith, times_elem f free k e, v.small f (big h)))
  ]
    where
      big : ltb f (2 ^ 13) ≡ false → 2 ^ 13 ≤ f
      big h = ground arith

  status_own :
      (pgn q : ℕ)
      → Three (s.mm i).pgd w.user.pgd free pgn
      → q < 2 ^ 45
      → IsPresent w.user.pgd q
      → Status s i pgn i q (frame_of w.user.pgd q)
  status_own pgn q t b p = elim (new_or_old q pgn b) [
    | inl (k, l, e) ↦
        (let (f, at) = third free k t.enough l in
          new k l refl e (
            at
            ∙ ap some (
                sym (
                  ap (λ q. frame_of w.user.pgd q) e
                  ∙ ap (λ x. paging_fpn (x % u32_mod)) (t.frame k f l at)
                  ∙ frame_set (entry (s.mm i).pgd (pgn + k)) f
                  ∙ thirteen_bits f k at))))
    | inr o ↦
        (let same = t.outside q o in
          old (ap (λ x. page_present (x % u32_mod) == 0) (sym same) ∙ p)
            (ap (λ x. paging_fpn (x % u32_mod)) (sym same)))
  ]

  status :
      (pgn j q : ℕ)
      → Three (s.mm i).pgd w.user.pgd free pgn
      → q < 2 ^ 45
      → IsPresent ((after s i w).mm j).pgd q
      → Status s i pgn j q (frame_of ((after s i w).mm j).pgd q)
  status pgn j q t b = elim (Bool-cases (i == j)) [
    | inl e ↦ rw e (λ p.
        subst (λ j. Status s i pgn j q (frame_of w.user.pgd q)) ((==_iff i j).0 e)
          (status_own pgn q t b p))
    | inr e ↦ rw e (λ p. old p refl)
  ]

  taken_by : (pgn j q f : ℕ) → j < n → q < 2 ^ 45 → Status s i pgn j q f → times f (drop 3 free) ≡ 0
  taken_by pgn j q f h b (new k l e g at) = omega (arith, times_dropped f 3 free k l at, v.once f)
  taken_by pgn j q f h b (old p e) =
      omega (arith, times-drop f 3 free, ap (λ f. times f free) e, v.taken j q h b p)

  own_by :
      (pgn j k p q f : ℕ)
      → j < n
      → k < n
      → p < 2 ^ 45
      → q < 2 ^ 45
      → Status s i pgn j p f
      → Status s i pgn k q f
      → (j ≡ k) × (p ≡ q)
  own_by pgn j k p q f hj hk hp hq (new a l e g at) (new b m e' g' at') =
      (sym e ∙ e', omega (arith, g, g', same_place f free a b (v.once f) at at'))
  own_by pgn j k p q f hj hk hp hq (new a l e g at) (old r same) =
      absurd
        (omega (arith, times_elem f free a at, ap (λ f. times f free) same, v.taken k q hk hq r))
  own_by pgn j k p q f hj hk hp hq (old r same) (new b m e' g' at') =
      absurd
        (omega (arith, times_elem f free b at', ap (λ f. times f free) same, v.taken j p hj hp r))
  own_by pgn j k p q f hj hk hp hq (old r same) (old r' same') =
      v.own j k p q hj hk hp hq r r' (same ∙ sym same')

  -- Whatever a call of the process `i` does to its memory, if it moves no page and no free frame.
  pub Apart-same :
      ((q : ℕ) → entry w.user.pgd q ≡ entry (s.mm i).pgd q)
      → ((f : ℕ) → times f w.krnl.mram.free_fp_list ≡ times f free)
      → Apart (after s i w) n
  Apart-same e t = record {
    small = λ f h. t f ∙ v.small f h;
    once = λ f. omega (arith, t f, v.once f);
    taken = λ j q h b p.
        t (frame_of ((after s i w).mm j).pgd q)
        ∙ ap (λ x. times (paging_fpn (x % u32_mod)) free) (same j q)
        ∙ v.taken j q h b (back j q p);
    own = λ j k p q hj hk hp hq x y z. v.own j k p q hj hk hp hq (back j p x) (back k q y) (
        ap (λ x. paging_fpn (x % u32_mod)) (sym (same j p))
        ∙ z
        ∙ ap (λ x. paging_fpn (x % u32_mod)) (same k q));
  }
    where
      same : (j q : ℕ) → entry ((after s i w).mm j).pgd q ≡ entry (s.mm j).pgd q
      same j q = elim (Bool-cases (i == j)) [
        | inl l ↦ rw l (e q ∙ ap (λ k. entry (s.mm k).pgd q) ((==_iff i j).0 l))
        | inr l ↦ rw l refl
      ]

      back : (j q : ℕ) → IsPresent ((after s i w).mm j).pgd q → IsPresent (s.mm j).pgd q
      back j q p = ap (λ x. page_present (x % u32_mod) == 0) (sym (same j q)) ∙ p

  Apart-Three :
      (pgn : ℕ)
      → Three (s.mm i).pgd w.user.pgd free pgn
      → w.krnl.mram.free_fp_list ≡ drop 3 free
      → Apart (after s i w) n
  Apart-Three pgn t e = record {
    small = λ f h. omega (arith, ap (times f) e, times-drop f 3 free, v.small f h);
    once = λ f. omega (arith, ap (times f) e, times-drop f 3 free, v.once f);
    taken = λ j q h b p. ap (times _) e ∙ taken_by pgn j q _ h b (status pgn j q t b p);
    own = λ j k p q hj hk hp hq x y z.
        own_by pgn j k p q _ hj hk hp hq (status pgn j p t hp x)
          (subst (Status s i pgn k q) (sym z) (status pgn k q t hq y));
  }

  -- However an allocation of the process `i` goes, the frames stay apart.
  pub Apart-granted :
      Grant (s.mm i).pgd w.user.pgd free w.krnl.mram.free_fp_list → Apart (after s i w) n
  Apart-granted (none_taken e t) = Apart-same (λ q. ap (λ pgd. entry pgd q) e) t
  Apart-granted (three_taken pgn top enough e frame outside) =
      Apart-Three pgn (record { enough = enough; frame = frame; outside = outside }) e
