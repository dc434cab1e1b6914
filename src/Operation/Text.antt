-- ===== src/Operation/Text.antt =====
-- src/XrdClCurl/XrdClCurlOps.cc: SanitizeServerError, AppendServerError, ParseHostPort, DavToHttp and
-- GetVerbString.
use xrdcl_pelican.Prelude.{
  ℕ, suc, ◌+◌, ◌^◌, Bool, not, ◌&&◌, ◌||◌, Option, none, some, [], ◌∷◌, ◌++◌,
}
use xrdcl_pelican.Prelude.Tests.{ltb, leb, ◌==◌, if◌then◌else◌}
use xrdcl_pelican.Prelude.Bytes.{
  Bytes, codes, beq, find, find_text, is_empty, is_prefix, take_until,
}
use xrdcl_pelican.Prelude.Decimal.{decimal}
use xrdcl_pelican.Prelude.Lists.{length, take, drop}
use xrdcl_pelican.Prelude.Int.{ℤ, pos, negsuc}
use xrdcl_pelican.Headers.Text.{stoll, skip_spaces}

abbrev pub is_gap : ℕ → Bool
is_gap c = c == b'\r' || c == b'\n' || c == b'\t' || c == b' '

-- `out.back()`, and the blank in front of an empty `out`.
unfoldable pub back : Bytes → ℕ
back [] = b' '
back (c ∷ cs) = if is_empty cs then c else back cs

-- What one byte makes of `out`; `none` drops a control character and skips the test of the size.
abbrev pub take_byte : Bytes → ℕ → Option Bytes
take_byte out c =
    if is_gap c
    then some (if not (is_empty out) && not (back out == b' ') then out ++ (b' ' ∷ []) else out)
    else if ltb c 32
    then none
    else some (out ++ (c ∷ []))

-- The loop of SanitizeServerError.
unfoldable pub sanitize_loop : Bytes → Bytes → Bytes
sanitize_loop out [] = out
sanitize_loop out (c ∷ cs) = elim (take_byte out c) [
  | none ↦ sanitize_loop out cs
  | some out' ↦ let more = sanitize_loop out' cs in if leb 1024 (length out') then out' else more
]

-- The blanks at the end.
unfoldable pub drop_blanks : Bytes → Bytes
drop_blanks [] = []
drop_blanks (c ∷ cs) =
    let rest = drop_blanks cs in if c == b' ' && is_empty rest then [] else c ∷ rest

unfoldable pub sanitize_server_error : Bytes → Bytes
sanitize_server_error body = skip_spaces (drop_blanks (sanitize_loop [] body))

unfoldable pub append_server_error : Bytes → Bytes → Bytes
append_server_error msg raw_body =
    let server_msg = sanitize_server_error raw_body in
    if is_empty server_msg
    then msg
    else if is_empty msg
    then server_msg
    else msg ++ (codes "; origin response: " ++ server_msg)

-- The text behind "://", and the scheme in front of it.
abbrev pub without_scheme : Option ℕ → Bytes → Bytes
without_scheme none location = location
without_scheme (some p) location = drop (p + 3) location

abbrev pub scheme_of : Option ℕ → Bytes → Bytes
scheme_of none location = []
scheme_of (some p) location = take p location

abbrev pub without_user : Option ℕ → Bytes → Bytes
without_user none authority = authority
without_user (some p) authority = drop (suc p) authority

-- `std::stoi`: an int, or an exception.
unfoldable pub stoi : Bytes → Option ℤ
stoi xs = elim (stoll xs) [
  | none ↦ none
  | some z ↦ elim z [
    | pos n ↦ if ltb n (2 ^ 31) then some (pos n) else none
    | negsuc n ↦ if ltb n (2 ^ 31) then some (negsuc n) else none
  ]
]

abbrev pub port_or : ℤ → Option ℤ → ℤ
port_or standard none = standard
port_or standard (some port) = port

unfoldable pub split_port : ℤ → Bytes → Bytes × ℤ
split_port standard hostport = elim (find b':' hostport) [
  | none ↦ (hostport, standard)
  | some p ↦ (take p hostport, port_or standard (stoi (drop (suc p) hostport)))
]

unfoldable pub parse_host_port : Bytes → Bytes × ℤ
parse_host_port location =
    let p = find_text (codes "://") location in
    let authority = without_scheme p location in
    let scheme = scheme_of p location in
    let standard =
      if beq scheme (codes "https") || beq scheme (codes "davs") then pos 443 else pos 80 in
    let hostport = without_user (find b'@' authority) authority in
    split_port standard (take_until (find b'/' hostport) hostport)

unfoldable pub dav_to_http : Bytes → Bytes
dav_to_http url =
    if is_prefix (codes "dav://") url
    then codes "http://" ++ drop 6 url
    else if is_prefix (codes "davs://") url
    then codes "https://" ++ drop 7 url
    else url

-- CurlOperation::HttpVerb; `verb_count` is Count.
pub data Verb : Type 0 where
  copy delete get head mkcol options propfind put verb_count : Verb

unfoldable pub get_verb_string : Verb → Bytes
get_verb_string copy = codes "COPY"
get_verb_string delete = codes "DELETE"
get_verb_string get = codes "GET"
get_verb_string head = codes "HEAD"
get_verb_string mkcol = codes "MKCOL"
get_verb_string options = codes "OPTIONS"
get_verb_string propfind = codes "PROPFIND"
get_verb_string put = codes "PUT"
get_verb_string verb_count = codes "UNKNOWN"

-- `std::to_string` of an int.
abbrev pub to_string : ℤ → Bytes
to_string (pos n) = decimal n
to_string (negsuc n) = b'-' ∷ decimal (suc n)
