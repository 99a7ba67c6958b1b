-- ===== src/Prelude/Word.antt =====
-- The Rust integers as bit patterns. A value of `i32` or `u32` is a number below 2 ^ 32, one of
-- `i64` or `u64` a number below 2 ^ 64; a signed test reads the top bit. `x & (2 ^ k - 1)` is the
-- remainder by 2 ^ k.
use Prim.Native.Nat.{ℕ, ◌+◌, ◌-◌, ◌%◌, ◌^◌}
use mathlib.Core.Bool.{Bool}
use aeron_rs.Prelude.Tests.{ltb, if◌then◌else◌}

-- `wrapping_add` and `wrapping_sub` of the 32-bit and 64-bit types. The subtrahend is a pattern of
-- the type's width, so the sum under the minus is never the smaller.
abbrev pub add32 : ℕ → ℕ → ℕ
add32 a b = (a + b) % 2 ^ 32

abbrev pub sub32 : ℕ → ℕ → ℕ
sub32 a b = (a + 2 ^ 32 - b) % 2 ^ 32

abbrev pub add64 : ℕ → ℕ → ℕ
add64 a b = (a + b) % 2 ^ 64

abbrev pub sub64 : ℕ → ℕ → ℕ
sub64 a b = (a + 2 ^ 64 - b) % 2 ^ 64

-- `x as i64` for an `x : i32`: the sign is copied.
abbrev pub sign_extend : ℕ → ℕ
sign_extend x = if ltb x (2 ^ 31) then x else x + (2 ^ 64 - 2 ^ 32)

-- `x <= 0` and `x >= 0` of a signed pattern.
abbrev pub nonneg32 : ℕ → Bool
nonneg32 x = ltb x (2 ^ 31)

abbrev pub nonneg64 : ℕ → Bool
nonneg64 x = ltb x (2 ^ 63)

-- `a < b` of two `i32` and of two `i64`: the patterns are compared after a shift of the origin.
abbrev pub lt_i32 : ℕ → ℕ → Bool
lt_i32 a b = ltb ((a + 2 ^ 31) % 2 ^ 32) ((b + 2 ^ 31) % 2 ^ 32)

abbrev pub lt_i64 : ℕ → ℕ → Bool
lt_i64 a b = ltb ((a + 2 ^ 63) % 2 ^ 64) ((b + 2 ^ 63) % 2 ^ 64)
