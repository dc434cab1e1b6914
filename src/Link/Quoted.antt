-- ===== src/Link/Quoted.antt =====
-- src/XrdClPelican/PelicanHeaders.cc: ParseString and the quoted strings of a header.
use xrdcl_pelican.Prelude.{ℕ, true, false, some, [], ◌∷◌, ◌++◌, ◌≡◌, refl, arith, inl, inr}
use mathlib.Core.List.{append_assoc}
use xrdcl_pelican.Prelude.Tests.{◌==◌, if◌then◌else◌, Bool-cases}
use xrdcl_pelican.Prelude.Bytes.{Bytes, codes}
use xrdcl_pelican.Link.{string_loop, parse_string, unescape}

-- A character as it is written between quotes.
abbrev pub escape : ℕ → Bytes
escape c =
    if c == b'\\'
    then codes "\\\\"
    else if c == b'\r'
    then codes "\\r"
    else if c == b'\n'
    then codes "\\n"
    else if c == b'"'
    then codes "\\\""
    else c ∷ []

abbrev pub escape_all : Bytes → Bytes
escape_all [] = []
escape_all (c ∷ cs) = escape c ++ escape_all cs

-- A quoted string.
abbrev pub quoted : Bytes → Bytes
quoted xs = b'"' ∷ (escape_all xs ++ (b'"' ∷ []))

string_loop-plain :
    (c : ℕ) (ys rest xs : Bytes)
    → (c == b'\\') ≡ false
    → (c == b'"') ≡ false
    → string_loop ys ≡ some (rest, xs)
    → string_loop (c ∷ ys) ≡ some (rest, c ∷ xs)
unfolding string_loop
string_loop-plain c [] rest xs h k e = let bad : ⊥ = ground arith in elim bad [ ]
string_loop-plain c (y ∷ ys) rest xs h k e = rw (h, k) (rw (e, string_loop))

string_loop-escaped :
    (c d : ℕ) (ys rest xs : Bytes)
    → unescape d ≡ some c
    → string_loop ys ≡ some (rest, xs)
    → string_loop (b'\\' ∷ d ∷ ys) ≡ some (rest, c ∷ xs)
unfolding string_loop
string_loop-escaped c d ys rest xs u e = rw (u, e)

same : (a b : ℕ) → (a == b) ≡ true → a ≡ b
same a b h = ground arith

escape-string_loop :
    (c : ℕ) (ys rest xs : Bytes)
    → string_loop ys ≡ some (rest, xs)
    → string_loop (escape c ++ ys) ≡ some (rest, c ∷ xs)
unfolding unescape
escape-string_loop c ys rest xs e = elim (Bool-cases (c == b'\\')) [
  | inl p ↦ rw (same c b'\\' p) (string_loop-escaped b'\\' b'\\' ys rest xs refl e)
  | inr p ↦ elim (Bool-cases (c == b'\r')) [
    | inl q ↦ rw (same c b'\r' q) (string_loop-escaped b'\r' b'r' ys rest xs refl e)
    | inr q ↦ elim (Bool-cases (c == b'\n')) [
      | inl r ↦ rw (same c b'\n' r) (string_loop-escaped b'\n' b'n' ys rest xs refl e)
      | inr r ↦ elim (Bool-cases (c == b'"')) [
        | inl t ↦ rw (same c b'"' t) (string_loop-escaped b'"' b'"' ys rest xs refl e)
        | inr t ↦ rw (p, q, r, t) (string_loop-plain c ys rest xs p t e)
      ]
    ]
  ]
]

string_loop-quoted :
    (xs rest : Bytes) → string_loop (escape_all xs ++ (b'"' ∷ rest)) ≡ some (rest, xs)
unfolding string_loop
string_loop-quoted [] [] = refl
string_loop-quoted [] (r ∷ rs) = refl
string_loop-quoted (c ∷ cs) rest =
    rw (append_assoc (escape c) (escape_all cs) (b'"' ∷ rest))
      (escape-string_loop c (escape_all cs ++ (b'"' ∷ rest)) rest cs (string_loop-quoted cs rest))

-- A text written between quotes, with its backslashes, quotes, carriage returns and line feeds
-- escaped, is read back as it was, and the remainder is what stands behind the closing quote.
pub parse_string-quoted : (xs rest : Bytes) → parse_string (quoted xs ++ rest) ≡ some (rest, xs)
unfolding parse_string
parse_string-quoted xs rest =
    rw (append_assoc (escape_all xs) (b'"' ∷ []) rest) (string_loop-quoted xs rest)
