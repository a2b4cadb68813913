-- ===== src/Base/Words.antt =====
-- Machine words as native numbers: conversions between `int32_t`, `size_t` and `int64_t`.
use mathlib.Core.Bool.{Bool}
use Prim.Native.Nat.{ℕ, ◌+◌, ◌-◌, ◌%◌, ◌^◌}
use mlnsdk.Base.Tests.{ltb, leb, if◌then◌else◌}

-- The bit pattern of a number converted to a type of 16, 32 or 64 bits.
abbrev pub to_uint16 : ℕ → ℕ
to_uint16 n = n % 2 ^ 16

abbrev pub to_int32 : ℕ → ℕ
to_int32 n = n % 2 ^ 32

abbrev pub to_uint64 : ℕ → ℕ
to_uint64 n = n % 2 ^ 64

-- An `int32_t` pattern converted to `size_t`: the sign is extended.
abbrev pub int32_to_size : ℕ → ℕ
int32_to_size n = if ltb n (2 ^ 31) then n else n + (2 ^ 64 - 2 ^ 32)

-- `a - b` on `int32_t` and on `uint64_t` patterns.
abbrev pub sub_int32 : ℕ → ℕ → ℕ
sub_int32 a b = (a + 2 ^ 32 - b) % 2 ^ 32

abbrev pub sub_uint64 : ℕ → ℕ → ℕ
sub_uint64 a b = (a + 2 ^ 64 - b) % 2 ^ 64

-- The sign of an `int32_t` and of an `int64_t` pattern.
abbrev pub negative_int32 : ℕ → Bool
negative_int32 n = leb (2 ^ 31) n

abbrev pub negative_int64 : ℕ → Bool
negative_int64 n = leb (2 ^ 63) n
