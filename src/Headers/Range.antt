-- ===== src/Headers/Range.antt =====
-- src/XrdClCurl/XrdClCurlUtil.cc: the Content-Range header.
use xrdcl_pelican.Prelude.{
  ℕ, suc, ◌+◌, ◌-◌, ◌^◌, ◌≤◌, ◌<◌, true, some, ◌∷◌, ◌++◌, ◌≡◌, refl, ◌∙◌, arith,
}
use xrdcl_pelican.Prelude.Bytes.{Bytes, codes, find}
use xrdcl_pelican.Prelude.Int.{pos}
use xrdcl_pelican.Prelude.Lists.{length, take, drop}
use xrdcl_pelican.Prelude.Search.{
  Lacks, Lacks-append, Lacks-cons_ne, drop_behind, find-append, take-append,
}
use xrdcl_pelican.Headers.Text.{stoll}
use xrdcl_pelican.Headers
use xrdcl_pelican.Headers.{HeaderParser}

abbrev pub content_range : Bytes → Bytes → Bytes → Bytes
content_range first last size = codes "bytes " ++ ((first ++ (b'-' ∷ last)) ++ (b'/' ∷ size))

parse_positions_eq :
    (p : HeaderParser) (first last : Bytes) (m n : ℕ)
    → stoll first ≡ some (pos m)
    → stoll last ≡ some (pos n)
    → m ≤ n
    → n + 1 < 2 ^ 63
    → Headers.parse_positions p first last
      ≡ (record p { response_offset = m; content_length = pos (n - m + 1) }, true)
unfolding Headers.parse_positions
parse_positions_eq p first last m n f l o h =
    let e : Headers.range_length m n ≡ pos (n - m + 1) = ground arith in
    rw (f, Headers.parse_positions) (rw (l, Headers.parse_positions) (rw e))

split_range :
    (p : HeaderParser) (range_resp incl : Bytes) (slash dash : ℕ)
    → find b'/' range_resp ≡ some slash
    → take slash range_resp ≡ incl
    → find b'-' incl ≡ some dash
    → Headers.parse_range p range_resp
      ≡ Headers.parse_positions p (take dash incl) (drop (suc dash) incl)
unfolding Headers.parse_range
split_range p range_resp incl slash dash f t d =
    rw (f, Headers.parse_range) (rw t (rw (d, Headers.parse_range) (rw t)))

parse_range_eq :
    (p : HeaderParser) (first last size : Bytes)
    → Lacks b'-' first
    → Lacks b'/' (first ++ (b'-' ∷ last))
    → Headers.parse_range p ((first ++ (b'-' ∷ last)) ++ (b'/' ∷ size))
      ≡ Headers.parse_positions p first last
parse_range_eq p first last size d s =
    let incl = first ++ (b'-' ∷ last) in
    split_range p (incl ++ (b'/' ∷ size)) incl (length incl) (length first)
      (find-append b'/' incl size s) (take-append incl (b'/' ∷ size))
      (find-append b'-' first last d)
    ∙ rw (take-append first (b'-' ∷ last)) (rw (drop_behind first b'-' last))

-- A value "bytes first-last/size" whose two positions are the numbers m ≤ n, below 2^63 - 1, is
-- accepted: the parser then holds the offset m and the length n - m + 1 of the range, both ends
-- included, and nothing else of it changes.
pub parse_content_range_lem :
    (p : HeaderParser) (first last size : Bytes) (m n : ℕ)
    → Lacks b'-' first
    → Lacks b'/' first
    → Lacks b'/' last
    → stoll first ≡ some (pos m)
    → stoll last ≡ some (pos n)
    → m ≤ n
    → n + 1 < 2 ^ 63
    → Headers.parse_content_range p (content_range first last size)
      ≡ (record p { response_offset = m; content_length = pos (n - m + 1) }, true)
unfolding Headers.parse_content_range find
parse_content_range_lem p first last size m n d s t f l o h =
    parse_range_eq p first last size d
      (Lacks-append b'/' first (b'-' ∷ last) s (Lacks-cons_ne b'/' b'-' last refl t))
    ∙ parse_positions_eq p first last m n f l o h
