-- ===== src/Sched/Waiting/Span.antt =====
-- src/sched.c: the slots that stand between the current level and another one.
use os.Prelude.{
  ℕ, zero, suc, ◌+◌, ◌-◌, ◌%◌, ◌≤◌, ◌<◌, ◌≡◌, inl, inr, ap, ◌∙◌, arith, leb, Bool-cases,
  if◌then◌else◌,
}
use os.Sched.{Sched, max_prio}
use os.Sched.Pick.{level}

-- the slots of `n` levels from `p` on
abbrev pub span : ℕ → ℕ → ℕ
span zero p = 0
span (suc n) p = (max_prio - p) + span n ((p + 1) % max_prio)

-- how many levels the search is from the level `l`, at the level `p`
abbrev pub distance : ℕ → ℕ → ℕ
distance l p = (l + (max_prio - p)) % max_prio

-- the slots that the levels before `l` still have, at the level `p` with `used` slots gone
abbrev pub waits_at : ℕ → ℕ → ℕ → ℕ
waits_at l p used = span (distance l p) p - used

abbrev pub waits : Sched → ℕ → ℕ
waits s l = waits_at l s.curr_prio s.curr_slot_cnt

-- One level and those behind it, out of `n` levels.
pub span_from :
    (n k r p : ℕ)
    → p < max_prio
    → n ≡ k + suc r
    → (max_prio - (p + k) % max_prio) + span r ((p + k + 1) % max_prio) ≤ span n p
span_from zero k r p c e = absurd (omega arith)
span_from (suc n) zero r p c e =
    let same : span r ((p + 0 + 1) % max_prio) ≡ span n ((p + 1) % max_prio) =
      ap (span r) (omega arith) ∙ ap (λ m. span m ((p + 1) % max_prio)) (omega arith) in
    omega (arith, same)
span_from (suc n) (suc k) r p c e =
    let next = (p + 1) % max_prio in
    let here : (next + k) % max_prio ≡ (p + suc k) % max_prio = omega arith in
    let behind : span r ((next + k + 1) % max_prio) ≡ span r ((p + suc k + 1) % max_prio) =
      ap (span r) (omega arith) in
    omega (arith, span_from n k r next (omega arith) (omega arith), here, behind)

-- The same behind a first level.
pub span_behind :
    (n k r p : ℕ)
    → p < max_prio
    → n ≡ suc k + suc r
    → (max_prio - p) + (max_prio - (p + suc k) % max_prio) + span r ((p + suc k + 1) % max_prio)
      ≤ span n p
span_behind zero k r p c e = absurd (omega arith)
span_behind (suc n) k r p c e =
    let next = (p + 1) % max_prio in
    let here : (next + k) % max_prio ≡ (p + suc k) % max_prio = omega arith in
    let behind : span r ((next + k + 1) % max_prio) ≡ span r ((p + suc k + 1) % max_prio) =
      ap (span r) (omega arith) in
    omega (arith, span_from n k r next (omega arith) (omega arith), here, behind)

pub distance-level :
    (l c k r : ℕ)
    → c < max_prio
    → l < max_prio
    → distance l c ≡ k + suc r
    → distance l ((c + k) % max_prio) ≡ suc r
distance-level l c k r hc hl e = omega arith

pub distance_next :
    (l c k r : ℕ)
    → c < max_prio
    → l < max_prio
    → distance l c ≡ k + suc r
    → distance l (((c + k) % max_prio + 1) % max_prio) ≡ r
distance_next l c k r hc hl e = omega arith

pub level-distance :
    (s : Sched) (l : ℕ)
    → s.curr_prio < max_prio
    → l < max_prio
    → level s (distance l s.curr_prio) ≡ l
level-distance s l c h = omega arith

-- the level and the slots gone after one more slot at the level `p`
abbrev pub step_of : ℕ → ℕ → ℕ × ℕ
step_of p used = if leb (max_prio - p) (used + 1) then ((p + 1) % max_prio, 0) else (p, used + 1)

-- The spans that `l` waits for, by its distance.
waits_span : (l p : ℕ) {n : ℕ} → distance l p ≡ n → span (distance l p) p ≡ span n p
waits_span l p e = ap (λ d. span d p) e

distance-suc :
    (l c r : ℕ)
    → c < max_prio
    → l < max_prio
    → distance l c ≡ suc r
    → distance l ((c + 1) % max_prio) ≡ r
distance-suc l c r hc hl e = omega arith

-- A slot at a level before `l` is one that `l` does not wait for any longer.
pub waits_first :
    (l c cnt r : ℕ)
    → c < max_prio
    → l < max_prio
    → cnt < max_prio - c
    → distance l c ≡ suc r
    → let (p, used) = step_of c cnt in waits_at l p used < waits_at l c cnt
waits_first l c cnt r hc hl hb e = elim (Bool-cases (leb (max_prio - c) (cnt + 1))) [
  | inl spent ↦ rw spent (
      omega (
        arith,
        waits_span l c e,
        waits_span l ((c + 1) % max_prio) (distance-suc l c r hc hl e),
        hb,
      ))
  | inr left ↦ rw left (omega (arith, waits_span l c e, hb))
]

pub waits_later :
    (l c cnt k r : ℕ)
    → c < max_prio
    → l < max_prio
    → cnt < max_prio - c
    → distance l c ≡ suc k + suc r
    → let (p, used) = step_of ((c + suc k) % max_prio) 0 in waits_at l p used < waits_at l c cnt
waits_later l c cnt k r hc hl hb e =
    let q = (c + suc k) % max_prio in
    let bound = span_behind (distance l c) k r c hc e in
    let there : span r ((q + 1) % max_prio) ≡ span r ((c + suc k + 1) % max_prio) =
      ap (span r) (omega arith) in
    elim (Bool-cases (leb (max_prio - q) (0 + 1))) [
      | inl spent ↦ rw spent (
          omega (
            arith,
            bound,
            there,
            waits_span l ((q + 1) % max_prio) (distance_next l c (suc k) r hc hl e),
            hb,
          ))
      | inr left ↦
          rw left
            (omega (arith, bound, there, waits_span l q (distance-level l c (suc k) r hc hl e), hb))
    ]
