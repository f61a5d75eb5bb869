-- ===== src/Os/Start.antt =====
-- src/os.c: when the loader lets a process in.
use os.Prelude.{
  ℕ, zero, suc, ◌+◌, ◌-◌, ◌≤◌, ◌<◌, ◌≡◌, refl, ap, sym, ◌∙◌, List, false, arith, ltb, lt→ltb, ok,
}
use os.Loader.{Stdio, Loaded}
use os.Os.{Machine}
use os.Os.Load.{admit, Job, LdPc, to_load, to_add, ld_slot, ld_add, ld_turn, ld_turns}

not_before : (t s : ℕ) → s ≤ t → ltb t s ≡ false
not_before t s h = ground arith

-- `suc n + k`
abbrev passes : ℕ → ℕ → ℕ
passes zero k = suc k
passes (suc n) k = suc (passes n k)

passes_lem : (n k : ℕ) → passes n k ≡ suc n + k
passes_lem zero k = omega arith
passes_lem (suc n) k = omega (arith, passes_lem n k)

module _ (c : Stdio) (m : Machine) (pid : ℕ) (proc : Loaded) (j : Job c) (js : List (Job c)) where
  -- the loader as it waits for the start time of `j`
  abbrev waiting : LdPc c
  waiting = to_add proc j js

  ld_turn-early :
      (t : ℕ) → t < j.start_time → ld_turn c m t pid waiting ≡ ok (ld_slot pid waiting, m)
  unfolding ld_turn ld_add
  ld_turn-early t h = rw (lt→ltb _ _ h) refl

  ld_turns-early :
      (n t : ℕ) → t + n ≤ j.start_time → ld_turns c n m t pid waiting ≡ ok (ld_slot pid waiting, m)
  unfolding ld_turns
  ld_turns-early zero t h = refl
  ld_turns-early (suc n) t h =
      rw (ld_turn-early t (omega arith)) (ld_turns-early n (t + 1) (omega arith))

  ld_turn-due :
      (t : ℕ) (m' : Machine)
      → j.start_time ≤ t
      → admit m j.fresh.ptr j.fresh.mm proc j.prio ≡ ok m'
      → ld_turn c m t pid waiting ≡ ok (ld_slot pid (to_load js), m')
  unfolding ld_turn ld_add
  ld_turn-due t m' h e = rw (not_before t j.start_time h, e) refl

  due :
      (n t k : ℕ) (m' : Machine)
      → j.start_time ≤ t + n
      → n ≤ j.start_time - t
      → admit m j.fresh.ptr j.fresh.mm proc j.prio ≡ ok m'
      → ld_turns c (passes n k) m t pid waiting ≡ ld_turns c k m' (t + suc n) pid (to_load js)
  unfolding ld_turns
  due zero t k m' h l e = rw (ld_turn-due t m' (omega arith) e) refl
  due (suc n) t k m' h l e = rw (ld_turn-early t (omega arith)) (
      due n (t + 1) k m' (omega arith) (omega arith) e
      ∙ ap (λ x. ld_turns c k m' x pid (to_load js)) (later t n))
    where
      later : (t n : ℕ) → t + 1 + suc n ≡ t + suc (suc n)
      later t n = omega arith

  -- the passes up to the start time and the one that admits the process, with `k` passes behind them
  pub ld_turns-due :
      (n t k : ℕ) (m' : Machine)
      → j.start_time ≤ t + n
      → n ≤ j.start_time - t
      → admit m j.fresh.ptr j.fresh.mm proc j.prio ≡ ok m'
      → ld_turns c (suc n + k) m t pid waiting ≡ ld_turns c k m' (t + suc n) pid (to_load js)
  ld_turns-due n t k m' h l e =
      ap (λ x. ld_turns c x m t pid waiting) (sym (passes_lem n k)) ∙ due n t k m' h l e

  early :
      (n t : ℕ) → n ≤ j.start_time - t → ld_turns c n m t pid waiting ≡ ok (ld_slot pid waiting, m)
  unfolding ld_turns
  early zero t h = refl
  early (suc n) t h = ld_turns-early (suc n) t (omega arith)

  -- A process that was loaded enters the ready queues in the first pass at or after its start time,
  -- and in no earlier one: with one step of the clock in each pass, up to the start time nothing
  -- changes, and the pass behind that admits it and goes on to the next process.
  pub ld_turns-start_time :
      (t : ℕ) (m' : Machine)
      → admit m j.fresh.ptr j.fresh.mm proc j.prio ≡ ok m'
      → ((n : ℕ)
          → n ≤ j.start_time - t
          → ld_turns c n m t pid (to_add proc j js) ≡ ok (ld_slot pid (to_add proc j js), m))
        × (ld_turns c (suc (j.start_time - t)) m t pid (to_add proc j js)
            ≡ ok (ld_slot pid (to_load js), m'))
  unfolding ld_turns
  ld_turns-start_time t m' e = (
    λ n h. early n t h,
    ap (λ x. ld_turns c x m t pid waiting) (whole (j.start_time - t))
        ∙ ld_turns-due (j.start_time - t) t 0 m' (omega arith) (omega arith) e,
  )
    where
      whole : (n : ℕ) → suc n ≡ suc n + 0
      whole n = omega arith
