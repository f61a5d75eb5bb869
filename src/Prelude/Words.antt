-- ===== src/Prelude/Words.antt =====
-- Machine words as native numbers below a power of two.
use Prim.Native.Nat.{ℕ, ◌+◌, ◌-◌, ◌%◌, ◌^◌}
use os.Prelude.Tests.{ltb, if◌then◌else◌}

abbrev pub u32_mod : ℕ
u32_mod = 2 ^ 32

abbrev pub u64_mod : ℕ
u64_mod = 2 ^ 64

-- `uint64_t` addition
abbrev pub add64 : ℕ → ℕ → ℕ
add64 a b = (a + b) % u64_mod

-- an `int` (its bit pattern) converted to `uint64_t`
abbrev pub sext32 : ℕ → ℕ
sext32 x = if ltb x (2 ^ 31) then x else x + (u64_mod - u32_mod)

-- a `char` (its byte) converted to 64 bits
abbrev pub sext8 : ℕ → ℕ
sext8 x = if ltb x 128 then x else x + (u64_mod - 256)
