-- ===== src/Prelude/Decimal.antt =====
-- Decimal numerals, as `std::to_string` and `<<` write an unsigned number.
use Prim.Native.Nat.{ℕ, zero, suc, ◌+◌, ◌/◌, ◌%◌}
use mathlib.Core.List.{[], ◌∷◌}
use xrdcl_pelican.Prelude.Tests.{ltb, if◌then◌else◌}
use xrdcl_pelican.Prelude.Bytes.{Bytes}

-- The digits of a number in front of those already written.
unfoldable pub decimal_loop : ℕ → ℕ → Bytes → Bytes
decimal_loop zero n acc = acc
decimal_loop (suc fuel) n acc =
    let acc' = (n % 10 + b'0') ∷ acc in
    let more = decimal_loop fuel (n / 10) acc' in if ltb n 10 then acc' else more

-- Twenty digits are enough for 64 bits.
unfoldable pub decimal : ℕ → Bytes
decimal n = decimal_loop 20 n []
