-- ===== src/Prelude/Bits.antt =====
-- Laws of the bit operations on the native numbers: a word splits into a high and a low part at
-- any bit, and an operation works on the parts.
use Prim.Native.Nat.{
  ℕ, zero, suc, ◌+◌, ◌-◌, ◌*◌, ◌/◌, ◌%◌, ◌^◌, ◌≤◌, ◌<◌, min, max, bit_and, bit_or, digits,
  bit_and-bitwise, bit_or-bitwise,
}
use mathlib.Core.Path.{◌≡◌, refl, sym, ap, ◌∙◌}
use native.Mathlib.Nat.{
  div-div-eq-div-mul, div-add-mod, pow-suc, mul_comm, div-one, add-zero, mul-one, mod-one, zero-add,
  zero-mul, mul-div_left, mul-mod_left,
}
use native.Mathlib.Omega.{arith}

-- Induction over the halves of a number.
module _ {ℓ} {P : ℕ → Type ℓ} (base : P 0) (double : (x : ℕ) → P (x / 2) → P x) where
  up_to : (bound : ℕ) {x : ℕ} → x ≤ bound → P x
  up_to bound {x = zero} l = base
  up_to zero {x = suc x} l = absurd (omega arith)
  up_to (suc bound) {x = suc x} l = double (suc x) (up_to bound (omega arith))

  halving : (x : ℕ) → P x
  halving x = up_to x (omega arith)

-- The loop over binary digits gives one result for every fuel that reaches its first number.
module _ (rest : ℕ → ℕ) (digit : ℕ → ℕ → ℕ) where
  same_digits :
      (y i j : ℕ) {x : ℕ} → x ≤ i → x ≤ j → digits rest digit i x y ≡ digits rest digit j x y
  same_digits y zero zero {x = zero} l k = refl
  same_digits y zero (suc j) {x = zero} l k = refl
  same_digits y (suc i) zero {x = zero} l k = refl
  same_digits y (suc i) (suc j) {x = zero} l k = refl
  same_digits y zero j {x = suc x} l k = absurd (omega arith)
  same_digits y (suc i) zero {x = suc x} l k = absurd (omega arith)
  same_digits y (suc i) (suc j) {x = suc x} l k =
      ap (λ high. high * 2 + digit (suc x % 2) (y % 2))
        (same_digits (y / 2) i j {x = suc x / 2} (omega arith) (omega arith))

  low_digit :
      (x y : ℕ)
      → digits rest digit (suc x) (suc x) y
        ≡ digits rest digit (suc x / 2) (suc x / 2) (y / 2) * 2 + digit (suc x % 2) (y % 2)
  low_digit x y =
      ap (λ high. high * 2 + digit (suc x % 2) (y % 2))
        (same_digits (y / 2) x (suc x / 2) {x = suc x / 2} (omega arith) (omega arith))

pub zero-bit_and : (y : ℕ) → bit_and 0 y ≡ 0
zero-bit_and y = bit_and-bitwise 0 y

pub zero-bit_or : (y : ℕ) → bit_or 0 y ≡ y
zero-bit_or y = bit_or-bitwise 0 y

-- The lowest digit of a result comes from the lowest digits.
pub bit_and_step : (x y : ℕ) → bit_and x y ≡ bit_and (x / 2) (y / 2) * 2 + min (x % 2) (y % 2)
bit_and_step zero y = zero-bit_and y ∙ omega (arith, zero-bit_and (y / 2))
bit_and_step (suc x) y =
    bit_and-bitwise (suc x) y
    ∙ low_digit (λ _. zero) min x y
    ∙ ap (λ high. high * 2 + min (suc x % 2) (y % 2)) (sym (bit_and-bitwise (suc x / 2) (y / 2)))

pub bit_or_step : (x y : ℕ) → bit_or x y ≡ bit_or (x / 2) (y / 2) * 2 + max (x % 2) (y % 2)
bit_or_step zero y = zero-bit_or y ∙ omega (arith, zero-bit_or (y / 2))
bit_or_step (suc x) y =
    bit_or-bitwise (suc x) y
    ∙ low_digit (λ low. low) max x y
    ∙ ap (λ high. high * 2 + max (suc x % 2) (y % 2)) (sym (bit_or-bitwise (suc x / 2) (y / 2)))

pub bit_and-zero : (x : ℕ) → bit_and x 0 ≡ 0
bit_and-zero = halving (zero-bit_and 0) (λ x half. omega (arith, bit_and_step x 0, half))

pub bit_or-zero : (x : ℕ) → bit_or x 0 ≡ x
bit_or-zero = halving (zero-bit_or 0) (λ x half. omega (arith, bit_or_step x 0, half))

pub pow-pos : (k : ℕ) → 0 < 2 ^ k
pow-pos zero = omega arith
pow-pos (suc k) = omega (arith, pow-suc 2 k, pow-pos k)

-- Halving a number halves its parts at bit `k + 1`.
div-half : (a m : ℕ) → a / (m * 2) ≡ a / 2 / m
div-half a m = rw (mul_comm m 2) (sym (div-div-eq-div-mul a 2 m))

split-half : (a m : ℕ) → m * 2 * (a / 2 / m) + a % (m * 2) ≡ a
split-half a m = rw (div-half a m) at (div-add-mod a (m * 2))

mod-half : (a m : ℕ) → a % (m * 2) / 2 ≡ a / 2 % m
mod-half a m = omega (arith, split-half a m, div-add-mod (a / 2) m)

mod-parity : (a m : ℕ) → a % (m * 2) % 2 ≡ a % 2
mod-parity a m = omega (arith, split-half a m)

-- the masks of `n` ones, `k` bits up
half-field : (m hi lo : ℕ) → (hi * (m * 2) + lo) / 2 ≡ hi * m + lo / 2
half-field m hi lo = omega arith

parity-field : (m hi lo : ℕ) → (hi * (m * 2) + lo) % 2 ≡ lo % 2
parity-field m hi lo = omega arith

module _ (m a hi lo : ℕ) where
  and_split_step :
      bit_and (a / 2) (hi * m + lo / 2) ≡ bit_and (a / 2 / m) hi * m + bit_and (a / 2 % m) (lo / 2)
      → bit_and a (hi * (m * 2) + lo)
        ≡ bit_and (a / (m * 2)) hi * (m * 2) + bit_and (a % (m * 2)) lo
  and_split_step ih =
      rw
        (
          bit_and_step a (hi * (m * 2) + lo),
          bit_and_step (a % (m * 2)) lo,
          half-field m hi lo,
          parity-field m hi lo,
          mod-half a m,
          mod-parity a m,
          div-half a m,
          ih,
        )
        (omega arith)

  or_split_step :
      bit_or (a / 2) (hi * m + lo / 2) ≡ bit_or (a / 2 / m) hi * m + bit_or (a / 2 % m) (lo / 2)
      → bit_or a (hi * (m * 2) + lo) ≡ bit_or (a / (m * 2)) hi * (m * 2) + bit_or (a % (m * 2)) lo
  or_split_step ih =
      rw
        (
          bit_or_step a (hi * (m * 2) + lo),
          bit_or_step (a % (m * 2)) lo,
          half-field m hi lo,
          parity-field m hi lo,
          mod-half a m,
          mod-parity a m,
          div-half a m,
          ih,
        )
        (omega arith)

-- `&` works on the parts above and below bit `k`.
pub bit_and-split :
    (k a hi lo : ℕ)
    → lo < 2 ^ k
    → bit_and a (hi * 2 ^ k + lo) ≡ bit_and (a / 2 ^ k) hi * 2 ^ k + bit_and (a % 2 ^ k) lo
bit_and-split zero a hi zero h =
    rw (div-one, add-zero, mul-one, mul-one, bit_and-zero (a % 2 ^ 0)) (sym (add-zero _))
bit_and-split zero a hi (suc lo) h = absurd (omega arith)
bit_and-split (suc k) a hi lo h = rw (pow-suc 2 k) (
    and_split_step (2 ^ k) a hi lo
      (bit_and-split k (a / 2) hi (lo / 2) (omega (arith, pow-suc 2 k))))

-- `|` works on the parts above and below bit `k`.
pub bit_or-split :
    (k a hi lo : ℕ)
    → lo < 2 ^ k
    → bit_or a (hi * 2 ^ k + lo) ≡ bit_or (a / 2 ^ k) hi * 2 ^ k + bit_or (a % 2 ^ k) lo
bit_or-split zero a hi zero h =
    rw (div-one, add-zero, mul-one, mul-one, mod-one, bit_or-zero 0) (sym (add-zero _))
bit_or-split zero a hi (suc lo) h = absurd (omega arith)
bit_or-split (suc k) a hi lo h = rw (pow-suc 2 k) (
    or_split_step (2 ^ k) a hi lo (bit_or-split k (a / 2) hi (lo / 2) (omega (arith, pow-suc 2 k))))

-- A mask of `k` low bits is the remainder by `2 ^ k`.
pub bit_and_mask : (k a : ℕ) → bit_and a (2 ^ k - 1) ≡ a % 2 ^ k
bit_and_mask zero a = rw (bit_and-zero a) (omega arith)
bit_and_mask (suc k) a = omega (
  arith,
  bit_and_step a (2 ^ suc k - 1),
  bit_and_mask k (a / 2),
  pow-suc 2 k,
  pow-pos k,
  ap (bit_and (a / 2)) (half-ones k),
  mod-half a (2 ^ k),
  mod-parity a (2 ^ k),
  ap (λ (t : ℕ). a % t) (pow-suc 2 k),
)
  where
    half-ones : (k : ℕ) → (2 ^ suc k - 1) / 2 ≡ 2 ^ k - 1
    half-ones k = omega (arith, pow-suc 2 k, pow-pos k)

-- `|` of two parts that share no bit is their sum.
pub bit_or_join : (k x lo : ℕ) → lo < 2 ^ k → bit_or (x * 2 ^ k) lo ≡ x * 2 ^ k + lo
bit_or_join k x lo h = ap (bit_or (x * 2 ^ k)) (sym (zero-add lo)) ∙ joined
  where
    joined : bit_or (x * 2 ^ k) (0 + lo) ≡ x * 2 ^ k + lo
    joined = rw (← zero-mul (2 ^ k)) (
        bit_or-split k (x * 2 ^ k) 0 lo h
        ∙ rw (mul-div_left x (pow-pos k), mul-mod_left x (2 ^ k), bit_or-zero x, zero-bit_or lo)
            refl)
