-- ===== src/Headers/Lines.antt =====
-- src/XrdClCurl/XrdClCurlUtil.cc: what HeaderParser::Parse records of a line.
use xrdcl_pelican.Prelude.{
  ℕ, suc, Bool, true, false, Option, none, some, List, [], ◌∷◌, ◌++◌, ◌≡◌, refl, ◌∙◌, ap, ◌||◌,
  arith,
}
use xrdcl_pelican.Prelude.Tests.{◌==◌, if_all, if◌then◌else◌}
use xrdcl_pelican.Prelude.Bytes.{Bytes, beq, find}
use xrdcl_pelican.Prelude.Lists.{take, drop, length, All}
use xrdcl_pelican.Prelude.Search.{drop_behind, Lacks, find-append, take-append}
use xrdcl_pelican.Prelude.Assoc.{lookup, insert, lookup-insert}
use xrdcl_pelican.Headers.Text.{canonicalize, trim_end, skip_spaces}
use xrdcl_pelican.Headers
use xrdcl_pelican.Headers.{HeaderParser}

abbrev pub values_of : Option (List Bytes) → List Bytes
values_of none = []
values_of (some values) = values

abbrev pub values_under : Bytes → HeaderParser → List Bytes
values_under name p = values_of (lookup name p.headers)

record_header_eq :
    (name value : Bytes) (hs : List (Bytes × List Bytes))
    → Headers.record_header name value hs
      ≡ insert name (values_of (lookup name hs) ++ (value ∷ [])) hs
unfolding Headers.record_header
record_header_eq name value hs = ground arith

values-if :
    (b : Bool) (vs : List Bytes) (o : Option (List Bytes))
    → values_of (if b then some vs else o) ≡ (if b then vs else values_of o)
values-if true vs o = refl
values-if false vs o = refl

lookup-record_header :
    (name j value : Bytes) (hs : List (Bytes × List Bytes))
    → values_of (lookup j (Headers.record_header name value hs))
      ≡ (if beq name j then values_of (lookup name hs) ++ (value ∷ []) else values_of (lookup j hs))
lookup-record_header name j value hs =
    let vs = values_of (lookup name hs) ++ (value ∷ []) in
    ap (λ m. values_of (lookup j m)) (record_header_eq name value hs)
    ∙ ap values_of (lookup-insert name j vs hs)
    ∙ values-if (beq name j) vs (lookup j hs)

module _ (bio_read : Bytes → Option Bytes) where
  parse_content_type_headers :
      (p : HeaderParser) (v : Bytes) → (Headers.parse_content_type p v).headers ≡ p.headers
  unfolding Headers.parse_content_type
  parse_content_type_headers p v = ground arith

  parse_content_range_headers :
      (p : HeaderParser) (v : Bytes) → (Headers.parse_content_range p v).0.headers ≡ p.headers
  unfolding Headers.parse_content_range Headers.parse_range Headers.parse_positions
  parse_content_range_headers p v = ground arith

  parse_content_length_headers :
      (p : HeaderParser) (v : Bytes) → (Headers.parse_content_length p v).0.headers ≡ p.headers
  unfolding Headers.parse_content_length
  parse_content_length_headers p v = ground arith

  parse_value_headers :
      (p : HeaderParser) (name value : Bytes)
      → (Headers.parse_value bio_read p name value).0.headers ≡ p.headers
  unfolding Headers.parse_value Headers.parse_allow
  parse_value_headers p name value = ground (
    arith,
    parse_content_type_headers p value,
    parse_content_range_headers p value,
    parse_content_length_headers p value,
  )

-- The text starts with no space, and ends with none of the bytes that are cut off behind a value.
abbrev pub StartsSolid : Bytes → Type 0
StartsSolid [] = Unit
StartsSolid (c ∷ cs) = (c == b' ') ≡ false

abbrev pub is_white : ℕ → Bool
is_white c = c == 9 || c == 10 || c == 13 || c == 32

abbrev pub EndsSolid : Bytes → Type 0
EndsSolid [] = Unit
EndsSolid (c ∷ []) = is_white c ≡ false
EndsSolid (c ∷ d ∷ ds) = EndsSolid (d ∷ ds)

trim_white : (trail : Bytes) → All (λ c. is_white c ≡ true) trail → trim_end trail ≡ []
unfolding trim_end
trim_white [] a = refl
trim_white (c ∷ cs) a = ground (arith, a.0, trim_white cs a.1)

trim_solid :
    (value trail : Bytes)
    → EndsSolid value
    → All (λ c. is_white c ≡ true) trail
    → trim_end (value ++ trail) ≡ value
unfolding trim_end
trim_solid [] trail h a = trim_white trail a
trim_solid (c ∷ []) trail h a = rw (trim_white trail a, trim_end) (ground arith)
trim_solid (c ∷ d ∷ ds) trail h a = rw (trim_solid (d ∷ ds) trail h a, trim_end) (ground arith)

skip_white :
    (trail : Bytes)
    → All (λ c. is_white c ≡ true) trail
    → All (λ c. is_white c ≡ true) (skip_spaces trail)
unfolding skip_spaces
skip_white [] a = tt
skip_white (c ∷ cs) a = if_all (All (λ c. is_white c ≡ true)) (c == b' ') (skip_white cs a.1) a

-- The value is what is left of it between spaces in front and white bytes behind.
trimmed :
    (spaces value trail : Bytes)
    → All (λ c. c ≡ b' ') spaces
    → StartsSolid value
    → EndsSolid value
    → All (λ c. is_white c ≡ true) trail
    → trim_end (skip_spaces (spaces ++ (value ++ trail))) ≡ value
unfolding skip_spaces
trimmed [] [] trail a s e t = trim_white (skip_spaces trail) (skip_white trail t)
trimmed [] (c ∷ cs) trail a s e t = rw (s, skip_spaces) (trim_solid (c ∷ cs) trail e t)
trimmed (b ∷ bs) value trail a s e t =
    let k : (b == b' ') ≡ true = ground (arith, a.0) in
    rw (k, skip_spaces) (trimmed bs value trail a.1 s e t)

line_goes_on : (raw rest : Bytes) → Headers.is_end (raw ++ (b':' ∷ rest)) ≡ false
line_goes_on [] rest = refl
line_goes_on (x ∷ []) rest = ground arith
line_goes_on (x ∷ y ∷ []) rest = ground arith
line_goes_on (x ∷ y ∷ z ∷ zs) rest = ground arith

module _ (bio_read : Bytes → Option Bytes) where
  parse_header_eq :
      (p : HeaderParser) (line name : Bytes) (found : ℕ)
      → find b':' line ≡ some found
      → canonicalize (take found line) ≡ some name
      → Headers.parse_header bio_read p line ≡ (
          let value = trim_end (skip_spaces (drop (suc found) line)) in
          Headers.parse_value bio_read
            (record p { headers = Headers.record_header name value p.headers })
            name
            value)
  unfolding Headers.parse_header
  parse_header_eq p line name found f c = rw (f, Headers.parse_header) (rw c)

  parse_header_values :
      (p : HeaderParser) (raw rest name j : Bytes)
      → Lacks b':' raw
      → canonicalize raw ≡ some name
      → values_under j (Headers.parse_header bio_read p (raw ++ (b':' ∷ rest))).0 ≡ (
          if beq name j
          then values_under name p ++ (trim_end (skip_spaces rest) ∷ [])
          else values_under j p)
  parse_header_values p raw rest name j l c =
      let value = trim_end (skip_spaces rest) in
      let hs = Headers.record_header name value p.headers in
      let e =
        parse_header_eq p (raw ++ (b':' ∷ rest)) name (length raw) (find-append b':' raw rest l)
          (rw (take-append raw (b':' ∷ rest)) c) in
      let e' : Headers.parse_header bio_read p (raw ++ (b':' ∷ rest))
          ≡ Headers.parse_value bio_read (record p { headers = hs }) name value =
        rw (drop_behind raw b':' rest) at e in
      ap (values_under j) (ap (λ r. r.0) e')
      ∙ ap (λ m. values_of (lookup j m))
          (parse_value_headers bio_read (record p { headers = hs }) name value)
      ∙ lookup-record_header name j value p.headers

  parse_line :
      (p : HeaderParser) (raw rest name j : Bytes)
      → p.recv_all_headers ≡ false
      → p.recv_status_line ≡ true
      → Lacks b':' raw
      → canonicalize raw ≡ some name
      → values_under j (Headers.parse bio_read p (raw ++ (b':' ∷ rest))).0 ≡ (
          if beq name j
          then values_under name p ++ (trim_end (skip_spaces rest) ∷ [])
          else values_under j p)
  unfolding Headers.parse
  parse_line p raw rest name j a s l c =
      rw (a, s, line_goes_on raw rest)
        (parse_header_values (record p { recv_all_headers = false; recv_status_line = true }) raw
          rest name j l c)

  -- Inside a block of headers, a line of a name that is valid, a ":", spaces, a value, and then
  -- spaces, tabs, carriage returns and newlines adds the value behind the values that the parser
  -- holds under the canonical name, and leaves the values under every other name alone. The value
  -- starts with no space, and ends with none of the four.
  pub parse_values :
      (p : HeaderParser) (raw spaces value trail name j : Bytes)
      → p.recv_all_headers ≡ false
      → p.recv_status_line ≡ true
      → Lacks b':' raw
      → canonicalize raw ≡ some name
      → All (λ c. c ≡ b' ') spaces
      → StartsSolid value
      → EndsSolid value
      → All (λ c. is_white c ≡ true) trail
      → values_under j (Headers.parse bio_read p (raw ++ (b':' ∷ (spaces ++ (value ++ trail))))).0
        ≡ (if beq name j then values_under name p ++ (value ∷ []) else values_under j p)
  parse_values p raw spaces value trail name j a s l c b k e t =
      parse_line p raw (spaces ++ (value ++ trail)) name j a s l c
      ∙ ap (λ v. if beq name j then values_under name p ++ (v ∷ []) else values_under j p)
          (trimmed spaces value trail b k e t)
