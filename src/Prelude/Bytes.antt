-- ===== src/Prelude/Bytes.antt =====
-- Text as a list of byte values, and the searches of std::string and std::string_view on it.
-- `none` is `npos`.
use Prim.Native.Nat.{ℕ, suc, ◌+◌, ◌-◌}
use Prim.Native.Char.{code}
use Prim.Native.String.{String}
use mathlib.Core.Path.{◌≡◌, refl}
use mathlib.Core.Logic.{◌↔◌}
use mathlib.Core.Bool.{Bool, true, false, ◌&&◌}
use mathlib.Core.List.{List, [], ◌∷◌}
use mathlib.Core.Option
use mathlib.Core.Option.{Option, none, some}
use native.Mathlib.Omega.{arith}
use xrdcl_pelican.Prelude.Tests.{◌==◌, if◌then◌else◌}
use xrdcl_pelican.Prelude.Lists.{take, drop}

abbrev pub Bytes : Type 0
Bytes = List ℕ

-- The bytes of an ASCII literal.
abbrev pub codes : String → Bytes
codes String.[] = []
codes (String.◌∷◌ c s) = code c ∷ codes s

abbrev pub beq : Bytes → Bytes → Bool
beq [] [] = true
beq [] (y ∷ ys) = false
beq (x ∷ xs) [] = false
beq (x ∷ xs) (y ∷ ys) = x == y && beq xs ys

pub beq_iff : (a b : Bytes) → (beq a b ≡ true) ↔ (a ≡ b)
beq_iff [] [] = ground arith
beq_iff [] (y ∷ ys) = ground arith
beq_iff (x ∷ xs) [] = ground arith
beq_iff (x ∷ xs) (y ∷ ys) = ground (arith, beq_iff xs ys)

pub beq_refl : (a : Bytes) → beq a a ≡ true
beq_refl a = (beq_iff a a).1 refl

abbrev pub is_empty : Bytes → Bool
is_empty [] = true
is_empty (c ∷ cs) = false

-- `find(c)`, from the front.
unfoldable pub find : ℕ → Bytes → Option ℕ
find c [] = none
find c (x ∷ xs) = if x == c then some 0 else Option.map suc (find c xs)

-- The first position whose byte passes the test: `find_first_of`, `find_first_not_of`.
unfoldable pub find_if : (ℕ → Bool) → Bytes → Option ℕ
find_if p [] = none
find_if p (x ∷ xs) = if p x then some 0 else Option.map suc (find_if p xs)

abbrev pub is_prefix : Bytes → Bytes → Bool
is_prefix [] ys = true
is_prefix (x ∷ xs) [] = false
is_prefix (x ∷ xs) (y ∷ ys) = x == y && is_prefix xs ys

-- `find(needle)`, from the front.
unfoldable pub find_text : Bytes → Bytes → Option ℕ
find_text n [] = if is_prefix n [] then some 0 else none
find_text n (x ∷ xs) = if is_prefix n (x ∷ xs) then some 0 else Option.map suc (find_text n xs)

-- `find(c, from)`: a position in the whole text. A start behind the end finds nothing.
unfoldable pub find_from : ℕ → ℕ → Bytes → Option ℕ
find_from c start xs = Option.map (λ i. start + i) (find c (drop start xs))

-- `substr(from, to - from)`.
abbrev pub slice : ℕ → ℕ → Bytes → Bytes
slice start stop xs = take (stop - start) (drop start xs)

-- `substr(0, pos)` and `substr(from, npos)` at a position that may be `npos`.
abbrev pub take_until : Option ℕ → Bytes → Bytes
take_until none xs = xs
take_until (some i) xs = take i xs
