-- ===== src/VectorRead/Stream.antt =====
-- src/XrdClCurl/XrdClCurlOpReadV.cc: the lines of get_next_line and the stream of bytes that libcurl
-- delivers in pieces.
use xrdcl_pelican.Prelude.{ℕ, ◌+◌, false, Option, none, [], ◌∷◌, ◌++◌, ◌≡◌, arith, ap, ◌∙◌, sym}
use mathlib.Core.Option
use xrdcl_pelican.Prelude.Bytes.{Bytes, codes, find_text, is_prefix}
use xrdcl_pelican.Prelude.Lists.{take, drop}
use xrdcl_pelican.VectorRead.Lines.{Line, next_line, ends_in_return, pop_back}

abbrev pub crlf : Bytes
crlf = codes "\r\n"

-- The text in front of the first CR LF of a stream, and what stands behind it.
abbrev pub first_line : Bytes → Option (Bytes × Bytes)
first_line xs = Option.map (λ p. (take p xs, drop (p + 2) xs)) (find_text crlf xs)

abbrev pub text_and_rest : Option Line → Option (Bytes × Bytes)
text_and_rest line = Option.map (λ l. (l.text, l.rest)) line

abbrev with_byte : ℕ → Option (Bytes × Bytes) → Option (Bytes × Bytes)
with_byte c o = Option.map (λ r. (c ∷ r.0, r.1)) o

first_line-cons :
    (c : ℕ) (xs : Bytes)
    → is_prefix crlf (c ∷ xs) ≡ false
    → first_line (c ∷ xs) ≡ with_byte c (first_line xs)
unfolding find_text
first_line-cons c xs h = ground (arith)

next_line-cons :
    (c d : ℕ) (ds buffer : Bytes)
    → text_and_rest (next_line (c ∷ d ∷ ds) buffer)
      ≡ with_byte c (text_and_rest (next_line (d ∷ ds) buffer))
unfolding next_line ends_in_return pop_back
next_line-cons c d ds buffer = ground (arith)

not_found_cons :
    (c : ℕ) (xs : Bytes)
    → find_text crlf (c ∷ xs) ≡ none
    → (is_prefix crlf (c ∷ xs) ≡ false) × (find_text crlf xs ≡ none)
unfolding find_text
not_found_cons c xs h = ground arith

-- Where the pending text holds no CR LF, the line of
-- a new buffer is the text in front of the first CR LF of the pending text and the buffer joined,
-- with the rest behind it, also where the CR LF itself is cut by the two; and the buffer ends before
-- the line does just where the joined text has no CR LF.
pub next_line-first_line :
    (pending buffer : Bytes)
    → find_text crlf pending ≡ none
    → text_and_rest (next_line pending buffer) ≡ first_line (pending ++ buffer)
unfolding next_line find_text ends_in_return pop_back
next_line-first_line [] buffer h = ground arith
next_line-first_line (c ∷ []) buffer h = ground (arith)
next_line-first_line (c ∷ d ∷ ds) buffer h =
    let (p, l) = not_found_cons c (d ∷ ds) h in
    next_line-cons c d ds buffer
    ∙ ap (with_byte c) (next_line-first_line (d ∷ ds) buffer l)
    ∙ sym (first_line-cons c (d ∷ ds ++ buffer) p)
