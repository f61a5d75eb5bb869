-- ===== src/Kmem/Slots.antt =====
-- src/libmem.c: the slots that __kmem_cache_alloc carves out of a pool.
use Prim.Native.Nat.{bit_and}
use os.Prelude.{
  ℕ, zero, suc, ◌+◌, ◌-◌, ◌*◌, ◌/◌, ◌%◌, ◌^◌, ◌≤◌, ◌<◌, ◌≡◌, ap, ◌∙◌, sym, arith, true, ltb, ◌&&◌,
}
use mathlib.Core.Path.{subst}
use native.Mathlib.Nat.{
  pow-suc, div-add-mod, mul-one, add-zero, mul_assoc, suc-mul, mul-mod_left, mod-lt,
  pow-le-pow_right, div-lt_iff_lt-mul, mod-eq_of_lt,
}
use os.Prelude.Bits.{bit_and-split, bit_and_mask, bit_and-zero, pow-pos}
use os.Prelude.Words.{u64_mod}
use os.Mm.{KcachePool}
use os.Kmem.{slot_of}

-- Clearing the low bits of a number with at most `j + k` bits rounds it down to a multiple of `2 ^ k`.
round_down :
    (j k x mask : ℕ) → mask ≡ (2 ^ j - 1) * 2 ^ k + 0 → bit_and x mask ≡ x / 2 ^ k % 2 ^ j * 2 ^ k
round_down j k x mask e =
    ap (bit_and x) e
    ∙ bit_and-split k x (2 ^ j - 1) 0 (pow-pos k)
    ∙ omega
        (arith, bit_and-zero (x % 2 ^ k), ap (λ (t : ℕ). t * 2 ^ k) (bit_and_mask j (x / 2 ^ k)))

pow_add : (j k : ℕ) → 2 ^ (j + k) ≡ 2 ^ j * 2 ^ k
pow_add j zero = ap (λ (t : ℕ). 2 ^ t) (add-zero j) ∙ sym (mul-one (2 ^ j))
pow_add j (suc k) =
    ap (λ (t : ℕ). 2 ^ t) (the_suc j k)
    ∙ pow-suc 2 (j + k)
    ∙ ap (λ (t : ℕ). t * 2) (pow_add j k)
    ∙ mul_assoc (2 ^ j) (2 ^ k) 2
    ∙ ap (λ (t : ℕ). 2 ^ j * t) (sym (pow-suc 2 k))
  where
    the_suc : (j k : ℕ) → j + suc k ≡ suc (j + k)
    the_suc j k = omega arith

-- the complement of a mask of low bits
high_mask : (h m n : ℕ) → 0 < h → h * m ≡ n → 0 < m → n - 1 - (m - 1) ≡ (h - 1) * m + 0
high_mask zero m n q e p = absurd (omega arith)
high_mask (suc h) m n q e p = behind ∙ ap (λ (t : ℕ). t * m + 0) before
  where
    behind : n - 1 - (m - 1) ≡ h * m + 0
    behind = omega (arith, e, suc-mul h m)

    before : h ≡ suc h - 1
    before = omega arith

-- Rounding up gives the next multiple of `m`.
round_up :
    (s m : ℕ)
    → 0 < m
    → let slot = (s + (m - 1)) / m * m in (slot % m ≡ 0) × (s ≤ slot) × (slot < s + m)
round_up s m p = (
  mul-mod_left ((s + (m - 1)) / m) m,
  omega (arith, div-add-mod (s + (m - 1)) m, mod-lt (s + (m - 1)) p),
  omega (arith, div-add-mod (s + (m - 1)) m, mod-lt (s + (m - 1)) p),
)

-- An alignment `2 ^ k` of more than one byte is a positive `int`.
align_tests : (k : ℕ) → 0 < k → k < 31 → (ltb 1 (2 ^ k) && ltb (2 ^ k) (2 ^ 31)) ≡ true
align_tests zero p q = absurd (omega arith)
align_tests (suc k) p q = both (2 ^ suc k) (omega (arith, pow-suc 2 k, pow-pos k)) (
    omega (
      arith,
      pow-suc 2 (suc k),
      pow-le-pow_right {n = 2} (omega arith) {i = suc (suc k)} {j = 31} (omega arith),
      pow-pos (suc k),
    ))
  where
    both : (m : ℕ) → 1 < m → m < 2 ^ 31 → (ltb 1 m && ltb m (2 ^ 31)) ≡ true
    both m p q = ground arith

slot_of_round :
    (pool : KcachePool) (k : ℕ)
    → 0 < k
    → k < 31
    → pool.align ≡ 2 ^ k
    → pool.storage + 2 ^ k < u64_mod
    → slot_of pool ≡ (pool.storage + (2 ^ k - 1)) / 2 ^ k * 2 ^ k
unfolding slot_of
slot_of_round pool k p q e b =
    rw (e, align_tests k p q)
      (ap (λ (x : ℕ). bit_and x (u64_mod - 1 - (2 ^ k - 1))) (mod-eq_of_lt below)
        ∙ round_down (64 - k) k (pool.storage + (2 ^ k - 1)) (u64_mod - 1 - (2 ^ k - 1))
            (high_mask (2 ^ (64 - k)) (2 ^ k) u64_mod (pow-pos (64 - k)) whole (pow-pos k))
        ∙ ap (λ (t : ℕ). t * 2 ^ k)
            (mod-eq_of_lt ((div-lt_iff_lt-mul (pow-pos k)).1 (omega (arith, whole, below)))))
  where
    below : pool.storage + (2 ^ k - 1) < u64_mod
    below = omega (arith, pow-pos k)

    whole : 2 ^ (64 - k) * 2 ^ k ≡ u64_mod
    whole = sym (pow_add (64 - k) k) ∙ ap (λ (t : ℕ). 2 ^ t) {y = 64} (omega arith)

-- A slot of a pool whose alignment is a power of two starts at the first multiple of the alignment
-- at or above the pool's free storage.
pub aligned_slot :
    (pool : KcachePool) (k : ℕ)
    → 0 < k
    → k < 31
    → pool.align ≡ 2 ^ k
    → pool.storage + 2 ^ k < u64_mod
    → (slot_of pool % 2 ^ k ≡ 0)
      × (pool.storage ≤ slot_of pool)
      × (slot_of pool < pool.storage + 2 ^ k)
aligned_slot pool k p q e b =
    subst (λ slot. (slot % 2 ^ k ≡ 0) × (pool.storage ≤ slot) × (slot < pool.storage + 2 ^ k))
      (sym (slot_of_round pool k p q e b)) (round_up pool.storage (2 ^ k) (pow-pos k))
