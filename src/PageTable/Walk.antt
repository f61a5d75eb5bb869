-- ===== src/PageTable/Walk.antt =====
-- src/mm64.c: the walk over tables of any depth, and the entries behind it.
use os.Prelude.{
  ℕ, zero, suc, ◌≡◌, refl, ap, ◌∙◌, Bool, true, false, ◌&&◌, ◌==◌, if◌then◌else◌, Bool-cases,
  Option-cases, inl, inr, ==_iff, update,
}
use os.PageTable.{Table, Route, calloc, table_or_new, walk_create, walk_finds, deref, assign}

-- whether two routes lead to one entry
abbrev pub same_route : (n : ℕ) → Route n → Route n → Bool
same_route zero i j = i == j
same_route (suc n) (i, p) (j, q) = (i == j) && same_route n p q

deref-calloc : (n : ℕ) (p : Route n) → deref n (calloc n) p ≡ 0
unfolding deref calloc table_or_new
deref-calloc zero i = refl
deref-calloc (suc n) (i, p) = deref-calloc n p

-- The walk with `create` changes no entry: a table that was missing reads as zeroes.
pub deref-walk_create :
    (n : ℕ) (t : Table n) (p q : Route n) → deref n (walk_create n t p) q ≡ deref n t q
unfolding deref walk_create table_or_new
deref-walk_create zero t i j = refl
deref-walk_create (suc n) t (i, p) (j, q) = elim (Bool-cases (i == j)) [
  | inl e ↦
      rw (e, update)
        (deref-walk_create n (table_or_new n (t i)) p q
          ∙ ap (λ k. deref n (table_or_new n (t k)) q) ((==_iff i j).0 e))
  | inr e ↦ rw (e, update)
]

pub deref-assign :
    (n : ℕ) (t : Table n) (p q : Route n) (v : ℕ)
    → deref n (assign n t p v) q ≡ (if same_route n p q then v else deref n t q)
unfolding deref assign table_or_new
deref-assign zero t i j v = refl
deref-assign (suc n) t (i, p) (j, q) v = elim (Bool-cases (i == j)) [
  | inl e ↦
      rw (e, update)
        (deref-assign n (table_or_new n (t i)) p q v
          ∙ ap (λ k. if same_route n p q then v else deref n (table_or_new n (t k)) q)
              ((==_iff i j).0 e))
  | inr e ↦ rw e
]

-- After a walk with `create` the walk without it finds the entry.
pub walk_finds-create :
    (n : ℕ) (t : Table n) (p : Route n) → walk_finds n (walk_create n t p) p ≡ true
unfolding walk_finds walk_create
walk_finds-create zero t i = refl
walk_finds-create (suc n) t (i, p) =
    rw ((==_iff i i).1 refl, update, walk_finds) (walk_finds-create n (table_or_new n (t i)) p)

-- Where the walk finds no entry, the entry reads as zero.
pub deref_of_not_found :
    (n : ℕ) (t : Table n) (p : Route n) → walk_finds n t p ≡ false → deref n t p ≡ 0
unfolding walk_finds deref table_or_new
deref_of_not_found zero t i h = cc
deref_of_not_found (suc n) t (i, p) h = elim (Option-cases (t i)) [
  | inl e ↦ rw e (deref-calloc n p)
  | inr (next, e) ↦ rw e (deref_of_not_found n next p (rw (e, walk_finds) at h))
]
