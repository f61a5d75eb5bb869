-- ===== src/Os/Own/Apart.antt =====
-- src/os.c: the use of blocks in every interleaving.
use mathlib.Core.Path.{subst}
use os.Prelude.{
  ℕ, zero, suc, ◌+◌, ◌-◌, ◌≤◌, ◌<◌, ◌≡◌, ◌≢◌, refl, sym, ap, ◌∙◌, Option, none, some, arith, ◌==◌,
  ==_iff, Bool-cases, inl, inr, Returns, Returns-bind, ok, Exec,
}
use os.Queue.{Pcb}
use os.Sched.{max_prio, add_proc}
use os.Mm.{Mm}
use os.Loader.{Loaded}
use os.Os.{Block, Machine, Pass, slot_over, stopped, cpu_turn}
use os.Os.Load.{admit}
use os.Os.Idle.{Idle}
use os.Os.Share.{Cpu, Threads, after_pass, with_pass, Step, turn, add, finish, Reach, begin, later}
use os.Queue.Count.{is_at, held, count_in}
use os.Os.Own.{sum, ready_at, running_at, uses}
use os.Os.Own.Counts.{apart, sum-update, add_proc-Grown}
use os.Os.Own.Turn.{uses_le, proc_of, cpu_turn-Own}

-- Each address is in use as often as its block allows.
abbrev pub Own : ℕ → Threads → Type 0
Own ptr s =
    (ready_at ptr s.machine.sched.mlq_ready_queue + running_at ptr s ≤ uses (s.machine.block ptr))
    × (s.machine.sched.curr_prio < max_prio)

sum_zero : (f : ℕ → ℕ) (n : ℕ) → ((i : ℕ) → i < n → f i ≡ 0) → sum f n ≡ 0
sum_zero f zero h = refl
sum_zero f (suc n) h = omega (arith, sum_zero f n (λ i l. h i (omega arith)), h n (omega arith))

-- A summand, and two of them, are at most the sum.
le-sum : (f : ℕ → ℕ) (i n : ℕ) → i < n → f i ≤ sum f n
le-sum f i zero h = absurd (omega arith)
le-sum f i (suc n) h = elim (Bool-cases (i == n)) [
  | inl e ↦ omega (arith, ap f ((==_iff i n).0 e))
  | inr e ↦ omega (arith, le-sum f i n (ground arith))
]

proc_of-after_pass : (pass : Pass) → (after_pass pass).proc ≡ proc_of pass
proc_of-after_pass (slot_over proc t) = refl
proc_of-after_pass stopped = refl

Own-begin :
    (ptr : ℕ) (s : Threads) → Idle s.machine.sched → ((i : ℕ) → (s.cpu i).proc ≡ none) → Own ptr s
unfolding ready_at
Own-begin ptr s (c, h) k = (
  omega (
    arith,
    sum_zero (λ l. count_in ptr (s.machine.sched.mlq_ready_queue l)) max_prio
        (λ l b. ap (count_in ptr) (h l b)),
    sum_zero (λ i. held ptr (s.cpu i).proc) s.num_cpus (λ i b. ap (held ptr) (k i)),
  ),
  c,
)

returned : {A : Type 0} {a : A} (P : A → Type 0) (e : Exec A) → e ≡ ok a → Returns P e → P a
returned P e h r = subst (Returns P) h r

Own-turn :
    (ptr : ℕ) (s : Threads) (i : ℕ) (pass : Pass) (m : Machine)
    → i < s.num_cpus
    → cpu_turn s.machine (s.cpu i).time_left (s.cpu i).proc ≡ ok (pass, m)
    → Own ptr s
    → Own ptr (with_pass s i pass m)
Own-turn ptr s i pass m l e (h, c) =
    let mine = le-sum (λ j. held ptr (s.cpu j).proc) i s.num_cpus l in
    let rest = running_at ptr s - held ptr (s.cpu i).proc in
    let (k, c') = returned _ _ e (
      cpu_turn-Own ptr rest s.machine (s.cpu i).time_left (s.cpu i).proc
        (omega (arith, h, mine), c)) in
    let changed =
      sum-update (λ (u : Cpu). held ptr u.proc) s.cpu i s.num_cpus (after_pass pass) l in
    (omega (arith, k, mine, changed, ap (held ptr) (proc_of-after_pass pass)), c')

Own-admit :
    (ptr : ℕ) (s : Threads) (at : ℕ) (fresh : Mm) (proc : Loaded) (prio : ℕ)
    → s.machine.block at ≡ none
    → Own ptr s
    → Returns (λ m. Own ptr (record s { machine = m })) (admit s.machine at fresh proc prio)
unfolding admit
Own-admit ptr s at fresh proc prio free (h, c) =
    Returns-bind _ _ (add_proc s.machine.sched _) _ (add_proc-Grown ptr s.machine.sched _)
      (λ sched g. elim (Bool-cases (at == ptr)) [
        | inl e ↦
            let unused = ap uses (sym (ap s.machine.block ((==_iff at ptr).0 e)) ∙ free) in
            rw e (omega (arith, rw e at (g.0), h, unused), omega (arith, g.1, c))
        | inr e ↦ rw e (omega (arith, rw e at (g.0), h), omega (arith, g.1, c))
      ])

Own-Step : (ptr : ℕ) {s t : Threads} → Own ptr s → Step s t → Own ptr t
Own-Step ptr {s} h (turn i pass m l g e f) = rw f (Own-turn ptr s i pass m l e h)
Own-Step ptr {s} h (add at fresh proc prio m free e f) =
    rw f (returned _ _ e (Own-admit ptr s at fresh proc prio free h))
Own-Step ptr h (finish f) = rw f h

pub Reach-Own : {s : Threads} (ptr : ℕ) → Reach s → Own ptr s
Reach-Own {s} ptr (begin i k) = Own-begin ptr s i k
Reach-Own ptr (later r h) = Own-Step ptr (Reach-Own ptr r) h

both-le-sum : (f : ℕ → ℕ) (i j n : ℕ) → i < n → j < n → i ≢ j → f i + f j ≤ sum f n
both-le-sum f i j zero a b d = absurd (omega arith)
both-le-sum f i j (suc n) a b d = elim (Bool-cases (i == n)) [
  | inl e ↦ elim (Bool-cases (j == n)) [
    | inl k ↦ absurd (d ((==_iff i n).0 e ∙ sym ((==_iff j n).0 k)))
    | inr k ↦ omega (arith, ap f ((==_iff i n).0 e), le-sum f j n (apart k b))
  ]
  | inr e ↦ elim (Bool-cases (j == n)) [
    | inl k ↦ omega (arith, ap f ((==_iff j n).0 k), le-sum f i n (apart e a))
    | inr k ↦ omega (arith, both-le-sum f i j n (apart e a) (apart k b) d)
  ]
]

used : (b : Option Block) → 0 < uses b → (a : Block) × (b ≡ some a)
used none h = absurd (omega arith)
used (some a) h = (a, refl)

at_same : (q p : Pcb) → q.ptr ≡ p.ptr → is_at p.ptr q ≡ 1
at_same q p e = rw ((==_iff q.ptr p.ptr).1 e) refl

here : (p : Pcb) → is_at p.ptr p ≡ 1
here p = at_same p p refl

-- In every interleaving of the passes of the processors with the loader, which adds processes in blocks
-- that are not allocated, the process that a processor has stands in a block that is allocated, no
-- other processor has a process in that block, and no ready queue holds one.
pub Reach-apart :
    {s : Threads} (i : ℕ) (p : Pcb)
    → Reach s
    → i < s.num_cpus
    → (s.cpu i).proc ≡ some p
    → ((b : Block) × (s.machine.block p.ptr ≡ some b))
      × ((j : ℕ) (q : Pcb) → j < s.num_cpus → i ≢ j → (s.cpu j).proc ≡ some q → q.ptr ≢ p.ptr)
      × ((l : ℕ) → l < max_prio → count_in p.ptr (s.machine.sched.mlq_ready_queue l) ≡ 0)
unfolding ready_at
Reach-apart {s} i p r l e =
    let holders = λ (i : ℕ). held p.ptr (s.cpu i).proc in
    let (h, c) = Reach-Own p.ptr r in
    let one = ap (held p.ptr) e ∙ here p in
    let runs = le-sum holders i s.num_cpus l in
    let most = uses_le (s.machine.block p.ptr) in
    (
      used (s.machine.block p.ptr) (omega (arith, h, one, runs)),
      λ j q k d g same.
          let two = ap (held p.ptr) g ∙ at_same q p same in
          absurd (omega (arith, h, one, two, both-le-sum holders i j s.num_cpus l k d, most)),
      λ v k. omega (
        arith,
        h,
        one,
        runs,
        most,
        le-sum (λ l. count_in p.ptr (s.machine.sched.mlq_ready_queue l)) v max_prio k,
      ),
    )
