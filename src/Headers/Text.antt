-- ===== src/Headers/Text.antt =====
-- src/XrdClCurl/XrdClCurlUtil.cc: validHeaderByte and Canonicalize, and what HeaderParser::Parse
-- uses of the standard library: std::getline on a stream, std::stol, and the trimming.
use xrdcl_pelican.Prelude.{
  ℕ, zero, suc, ◌+◌, ◌-◌, ◌*◌, ◌^◌, Bool, true, false, not, ◌&&◌, ◌||◌, Option, none, some, [], ◌∷◌,
}
use mathlib.Core.Option
use xrdcl_pelican.Prelude.Tests.{ltb, leb, ◌==◌, if◌then◌else◌}
use xrdcl_pelican.Prelude.Bytes.{Bytes, find, is_empty}
use xrdcl_pelican.Prelude.Lists.{take, drop}
use xrdcl_pelican.Prelude.Int.{ℤ, pos, negsuc}

-- `low <= c && c <= high`.
abbrev pub between : ℕ → ℕ → ℕ → Bool
between low high c = leb low c && leb c high

-- A bit is set in the mask of its half: digits and punctuation below 64, letters and the rest above.
abbrev pub valid_header_byte : ℕ → Bool
valid_header_byte c =
    between b'0' b'9' c
    || c == b'!'
    || between b'#' b'&' c
    || c == b'\''
    || between b'*' b'+' c
    || between b'-' b'.' c
    || between b'a' b'z' c
    || between b'A' b'Z' c
    || between b'^' b'`' c
    || c == b'|'
    || c == b'~'

abbrev pub shift_case : Bool → ℕ → ℕ
shift_case upper c =
    if upper && between b'a' b'z' c
    then c - 32
    else if not upper && between b'A' b'Z' c
    then c + 32
    else c

-- The loop of Canonicalize; `none` is false. The flag is `upper`.
unfoldable pub canonical_loop : Bool → Bytes → Option Bytes
canonical_loop upper [] = some []
canonical_loop upper (c ∷ cs) =
    let rest = canonical_loop (shift_case upper c == b'-') cs in
    if not (valid_header_byte c) then none else Option.map (◌∷◌ (shift_case upper c)) rest

unfoldable pub canonicalize : Bytes → Option Bytes
canonicalize name = canonical_loop true name

-- `std::getline(ss, item, delim)`: the item and what the stream still holds. It fails where
-- nothing is left.
unfoldable pub getline : ℕ → Bytes → Option (Bytes × Bytes)
getline delim [] = none
getline delim (c ∷ cs) = elim (find delim (c ∷ cs)) [
  | none ↦ some (c ∷ cs, [])
  | some i ↦ some (take i (c ∷ cs), drop (suc i) (c ∷ cs))
]

-- `isspace` in the C locale.
abbrev pub is_space : ℕ → Bool
is_space c = c == b' ' || between 9 13 c

unfoldable pub skip_white : Bytes → Bytes
skip_white [] = []
skip_white (c ∷ cs) = if is_space c then skip_white cs else c ∷ cs

-- The value of the leading digits behind `acc`.
unfoldable pub digits_value : ℕ → Bytes → ℕ
digits_value acc [] = acc
digits_value acc (c ∷ cs) =
    if between b'0' b'9' c then digits_value (acc * 10 + (c - b'0')) cs else acc

-- At least one digit, or nothing is converted.
unfoldable pub magnitude : Bytes → Option ℕ
magnitude [] = none
magnitude (c ∷ cs) = if between b'0' b'9' c then some (digits_value 0 (c ∷ cs)) else none

in_range : Bool → ℕ → Option ℤ
in_range false n = if ltb n (2 ^ 63) then some (pos n) else none
in_range true zero = some (pos 0)
in_range true (suc n) = if ltb n (2 ^ 63) then some (negsuc n) else none

signed : Bool → Bytes → Option ℤ
unfolding in_range
signed negative xs = elim (magnitude xs) [ none ↦ none | some n ↦ in_range negative n ]

-- The optional sign.
unfoldable pub sign_and_value : Bytes → Option ℤ
unfolding signed
sign_and_value [] = none
sign_and_value (c ∷ cs) =
    if c == b'-'
    then signed true cs
    else if c == b'+'
    then signed false cs
    else signed false (c ∷ cs)

-- `std::stol` and `std::stoll`, of 64 bits; `none` is an exception.
unfoldable pub stoll : Bytes → Option ℤ
unfolding sign_and_value
stoll xs = sign_and_value (skip_white xs)

-- A signed 64-bit value assigned to an unsigned one.
abbrev pub to_uint64 : ℤ → ℕ
to_uint64 (pos n) = n
to_uint64 (negsuc n) = 2 ^ 64 - 1 - n

-- The blanks in front of a value.
unfoldable pub skip_spaces : Bytes → Bytes
skip_spaces [] = []
skip_spaces (c ∷ cs) = if c == b' ' then skip_spaces cs else c ∷ cs

-- One of " \r\n\t".
abbrev pub is_trailing : ℕ → Bool
is_trailing c = c == b' ' || c == b'\r' || c == b'\n' || c == b'\t'

-- `erase(find_last_not_of(" \r\n\t") + 1)`.
unfoldable pub trim_end : Bytes → Bytes
trim_end [] = []
trim_end (c ∷ cs) =
    let rest = trim_end cs in if is_trailing c && is_empty rest then [] else c ∷ rest

-- `erase(remove(..., c))`.
unfoldable pub without : ℕ → Bytes → Bytes
without c [] = []
without c (x ∷ xs) = let rest = without c xs in if x == c then rest else x ∷ rest
