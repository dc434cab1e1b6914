-- ===== src/Prelude/Int.antt =====
-- C++ `int` values over the native numbers, under the library's names, with the two
-- comparisons between a counter and an `int` that the sources make.
use Prim.Native.Nat.{ℕ, ◌-◌, ◌^◌, ◌%◌}
use mathlib.Core.Bool.{Bool, true, false}
use xrdcl_pelican.Prelude.Tests.{ltb, leb, if◌then◌else◌}

-- `negsuc n` is -(n + 1).
pub data ℤ : Type 0 where
  pos : ℕ → ℤ
  negsuc : ℕ → ℤ

-- `static_cast<int>` of an unsigned 32-bit value: two's complement.
abbrev pub to_int32 : ℕ → ℤ
to_int32 n = let w = n % 2 ^ 32 in if ltb w (2 ^ 31) then pos w else negsuc (2 ^ 32 - 1 - w)

-- `n >= z` for a counter n.
abbrev pub ge_int : ℕ → ℤ → Bool
ge_int n (pos z) = leb z n
ge_int n (negsuc z) = true

-- `z > 0`.
abbrev pub is_positive : ℤ → Bool
is_positive (pos z) = ltb 0 z
is_positive (negsuc z) = false
