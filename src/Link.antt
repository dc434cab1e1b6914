-- ===== src/Link.antt =====
-- src/XrdClPelican/PelicanHeaders.{hh,cc}: the parser of the Link header of a director. This file has
-- the values of a parameter; Entries the entries of the header.
pub mod Entries
pub mod Quoted
pub mod Sorting
mod Tests
use xrdcl_pelican.Prelude.{
  ℕ, zero, suc, ◌+◌, ◌-◌, ◌^◌, Bool, true, false, not, ◌&&◌, Option, none, some, List, [], ◌∷◌,
}
use mathlib.Core.Option
use xrdcl_pelican.Prelude.Tests.{ltb, ◌==◌, if◌then◌else◌}
use xrdcl_pelican.Prelude.Bytes.{Bytes, is_empty}
use xrdcl_pelican.Prelude.Int.{ℤ, pos, negsuc}
use xrdcl_pelican.Headers.Text.{is_space, skip_white, magnitude, digits_value, between}

unfoldable pub ltrim_view : Bytes → Bytes
ltrim_view xs = skip_white xs

-- The blanks at the end.
unfoldable pub rtrim_view : Bytes → Bytes
rtrim_view [] = []
rtrim_view (c ∷ cs) =
    let rest = rtrim_view cs in if is_space c && is_empty rest then [] else c ∷ rest

-- TrimView of a text that is empty or holds a byte that is no blank, as its caller gives it: on
-- blanks alone the code reads in front of an empty view.
unfoldable pub trim_view : Bytes → Bytes
trim_view xs = rtrim_view (ltrim_view xs)

unfoldable pub skip_number : Bytes → Bytes
skip_number [] = []
skip_number (c ∷ cs) = if between b'0' b'9' c then skip_number cs else c ∷ cs

-- An int, or out of range.
unfoldable pub as_int : Bool → ℕ → Option ℤ
as_int false n = if ltb n (2 ^ 31) then some (pos n) else none
as_int true zero = some (pos 0)
as_int true (suc n) = if ltb n (2 ^ 31) then some (negsuc n) else none

-- The digits behind the sign: the remainder and the value.
unfoldable pub unsigned_int : Bool → Bytes → Option (Bytes × ℤ)
unsigned_int negative digits = elim (magnitude digits) [
  | none ↦ none
  | some n ↦ Option.map (λ z. (skip_number digits, z)) (as_int negative n)
]

-- ParseInt by `std::from_chars`, which takes no blanks and no "+".
unfoldable pub parse_int : Bytes → Option (Bytes × ℤ)
parse_int [] = none
parse_int (c ∷ cs) = if c == b'-' then unsigned_int true cs else unsigned_int false (c ∷ cs)

-- The character that an escape stands for.
unfoldable pub unescape : ℕ → Option ℕ
unescape c =
    if c == b'\\'
    then some b'\\'
    else if c == b'r'
    then some b'\r'
    else if c == b'n'
    then some b'\n'
    else if c == b'"'
    then some b'"'
    else none

-- `push_back` in front of the characters that follow.
abbrev pub push : ℕ → Option (Bytes × Bytes) → Option (Bytes × Bytes)
push c none = none
push c (some (rest, result)) = some (rest, c ∷ result)

abbrev pub push_escaped : Option ℕ → Option (Bytes × Bytes) → Option (Bytes × Bytes)
push_escaped none r = none
push_escaped (some c) r = push c r

-- The loop of ParseString behind the opening quote: the remainder and the contents.
unfoldable pub string_loop : Bytes → Option (Bytes × Bytes)
string_loop [] = none
string_loop (c ∷ []) = if c == b'"' then some ([], []) else none
string_loop (c ∷ d ∷ cs) =
    let escaped = string_loop cs in
    let plain = string_loop (d ∷ cs) in
    if c == b'\\'
    then push_escaped (unescape d) escaped
    else if c == b'"'
    then some (d ∷ cs, [])
    else push c plain

unfoldable pub parse_string : Bytes → Option (Bytes × Bytes)
parse_string [] = none
parse_string (c ∷ cs) = if c == b'"' then string_loop cs else none
