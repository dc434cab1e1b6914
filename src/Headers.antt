-- ===== src/Headers.antt =====
-- src/XrdClCurl/XrdClCurlUtil.{hh,cc}: HeaderParser, the parser of the lines of a HTTP response.
-- A parser and a verdict go in and out of each function, since a line that fails may have changed
-- the parser. The base64 filter of OpenSSL's BIO is a parameter, as in Digest.
pub mod Text
pub mod Names
pub mod Lines
pub mod StatusLine
pub mod Range
mod Tests
use xrdcl_pelican.Prelude.{
  ℕ, zero, suc, ◌+◌, ◌-◌, ◌*◌, ◌/◌, ◌%◌, ◌^◌, Bool, true, false, not, ◌&&◌, ◌||◌, Option, none,
  some, List, [], ◌∷◌, ◌++◌,
}
use xrdcl_pelican.Prelude.Tests.{ltb, leb, ◌==◌, if◌then◌else◌}
use xrdcl_pelican.Prelude.Bytes.{Bytes, codes, beq, find, find_text, take_until, is_empty}
use xrdcl_pelican.Prelude.Lists.{length, take, drop}
use xrdcl_pelican.Prelude.Int.{ℤ, pos, negsuc, to_int32}
use xrdcl_pelican.Prelude.Assoc.{lookup, insert}
use xrdcl_pelican.Checksum.{
  ChecksumType, crc32c, md5, sha1, sha256, adler32, crc32, ChecksumInfo, no_checksums,
}
use xrdcl_pelican.Digest.{parse_digest_header}
use Text.{canonicalize, getline, skip_spaces, trim_end, stoll, to_uint64, without}

-- `content_length` is an int64_t, `response_offset` an uint64_t, `status_code` an int and
-- `allow_verbs` the mask of HttpVerb.
pub record HeaderParser : Type 0 where
  pub content_length : ℤ
  pub response_offset : ℕ
  pub checksums : ChecksumInfo
  pub recv_all_headers : Bool
  pub recv_status_line : Bool
  pub multipart_byteranges : Bool
  pub status_code : ℤ
  pub resp_protocol : Bytes
  pub resp_message : Bytes
  pub location : Bytes
  pub multipart_sep : Bytes
  pub etag : Bytes
  pub cache_control : Bytes
  pub headers : List (Bytes × List Bytes)
  pub allow_verbs : ℕ

abbrev pub new_parser : HeaderParser
new_parser = record {
  content_length = negsuc 0;
  response_offset = 0;
  checksums = no_checksums;
  recv_all_headers = false;
  recv_status_line = false;
  multipart_byteranges = false;
  status_code = negsuc 0;
  resp_protocol = [];
  resp_message = [];
  location = [];
  multipart_sep = [];
  etag = [];
  cache_control = [];
  headers = [];
  allow_verbs = 1;
}

abbrev pub set_multipart_separator : HeaderParser → Bytes → HeaderParser
set_multipart_separator p sep = record p {
  multipart_sep = codes "--" ++ sep;
  multipart_byteranges = true;
}

unfoldable pub checksum_type_to_digest_name : ChecksumType → Bytes
checksum_type_to_digest_name md5 = codes "MD5"
checksum_type_to_digest_name crc32c = codes "CRC32c"
checksum_type_to_digest_name sha1 = codes "SHA"
checksum_type_to_digest_name sha256 = codes "SHA-256"
checksum_type_to_digest_name adler32 = codes "adler32"
checksum_type_to_digest_name crc32 = codes "crc32"
checksum_type_to_digest_name _ = []

-- `m_status_code < 100 || m_status_code >= 600`.
abbrev pub is_bad_status : ℤ → Bool
is_bad_status (pos n) = ltb n 100 || leb 600 n
is_bad_status (negsuc n) = true

-- The assignment of a long to an int.
abbrev pub to_int : ℤ → ℤ
to_int z = to_int32 (to_uint64 z)

-- What is left of the status line behind the number.
status_message : HeaderParser → Bytes → HeaderParser × Bool
status_message p rest = elim (getline b'\n' rest) [
  | none ↦ (p, false)
  | some (item, rest') ↦ (record p { resp_message = take_until (find b'\r' item) item }, true)
]

status_number : HeaderParser → Bytes → HeaderParser × Bool
unfolding status_message
status_number p rest = elim (getline b' ' rest) [
  | none ↦ (p, false)
  | some (item, rest') ↦ elim (stoll item) [
    | none ↦ (p, false)
    | some z ↦
        let q = record p { status_code = to_int z } in
        if is_bad_status (to_int z) then (q, false) else status_message q rest'
  ]
]

unfoldable pub parse_status_line : HeaderParser → Bytes → HeaderParser × Bool
unfolding status_number
parse_status_line p line = elim (getline b' ' line) [
  | none ↦ (p, false)
  | some (item, rest) ↦ status_number (record p { resp_protocol = item }) rest
]

-- `verbs | kPROPFIND` and `verbs & ~kUnknown`.
abbrev pub with_propfind : ℕ → ℕ
with_propfind verbs = if verbs / 2 % 2 == 1 then verbs else verbs + 2

abbrev pub without_unknown : ℕ → ℕ
without_unknown verbs = verbs - verbs % 2

-- The loop over the methods of an Allow header; each pass takes at least one character or ends.
unfoldable pub allow_loop : ℕ → Bytes → ℕ → ℕ
allow_loop zero val verbs = verbs
allow_loop (suc fuel) [] verbs = verbs
allow_loop (suc fuel) (c ∷ cs) verbs =
    let verbs' =
      if beq (take_until (find b',' (c ∷ cs)) (c ∷ cs)) (codes "PROPFIND")
      then with_propfind verbs
      else verbs in
    elim (find b',' (c ∷ cs)) [
      | none ↦ verbs'
      | some found ↦ allow_loop fuel (drop (suc found) (c ∷ cs)) verbs'
    ]

unfoldable pub parse_allow : HeaderParser → Bytes → HeaderParser
parse_allow p value =
    let verbs = allow_loop (length value) value p.allow_verbs in
    record p { allow_verbs = if without_unknown verbs == 0 then verbs else without_unknown verbs }

unfoldable pub parse_content_length : HeaderParser → Bytes → HeaderParser × Bool
parse_content_length p value = elim (stoll value) [
  | none ↦ (p, false)
  | some z ↦ (record p { content_length = z }, true)
]

-- `substr(found + 1)`, the whole where nothing was found: npos + 1 is 0.
abbrev pub behind : Option ℕ → Bytes → Bytes
behind none xs = xs
behind (some found) xs = drop (suc found) xs

unfoldable pub parse_content_type : HeaderParser → Bytes → HeaderParser
parse_content_type p val =
    let multipart = beq (take_until (find b';' val) val) (codes "multipart/byteranges") in
    let q : HeaderParser = record p { multipart_byteranges = multipart } in
    let remainder = behind (find b';' val) val in
    if multipart
    then elim (find_text (codes "boundary=") remainder) [
      | none ↦ q
      | some found ↦ set_multipart_separator q (drop (found + 9) remainder)
    ]
    else q

-- An uint64_t read as an int64_t.
abbrev pub to_int64 : ℕ → ℤ
to_int64 n = let w = n % 2 ^ 64 in if ltb w (2 ^ 63) then pos w else negsuc (2 ^ 64 - 1 - w)

-- `last_byte - m_response_offset + 1`, in 64 bits.
abbrev pub range_length : ℕ → ℕ → ℤ
range_length first last = to_int64 (last + 2 ^ 64 - first + 1)

-- The two positions of a range.
parse_positions : HeaderParser → Bytes → Bytes → HeaderParser × Bool
parse_positions p first_pos last_pos = elim (stoll first_pos) [
  | none ↦ (p, false)
  | some first ↦
      let q : HeaderParser = record p { response_offset = to_uint64 first } in
      elim (stoll last_pos) [
        | none ↦ (q, false)
        | some last ↦
            (record q { content_length = range_length (to_uint64 first) (to_uint64 last) }, true)
      ]
]

-- The text behind the unit.
parse_range : HeaderParser → Bytes → HeaderParser × Bool
unfolding parse_positions
parse_range p range_resp = elim (find b'/' range_resp) [
  | none ↦ (p, false)
  | some slash ↦
      let incl_range = take slash range_resp in
      elim (find b'-' incl_range) [
        | none ↦ (p, false)
        | some dash ↦ parse_positions p (take dash incl_range) (drop (suc dash) incl_range)
      ]
]

unfoldable pub parse_content_range : HeaderParser → Bytes → HeaderParser × Bool
unfolding parse_range
parse_content_range p value = elim (find b' ' value) [
  | none ↦ (p, false)
  | some found ↦
      if beq (take found value) (codes "bytes")
      then parse_range p (drop (suc found) value)
      else (p, false)
]

-- The values under a name: a new name, or one more value.
unfoldable pub record_header : Bytes → Bytes → List (Bytes × List Bytes) → List (Bytes × List Bytes)
record_header name value headers = elim (lookup name headers) [
  | none ↦ insert name (value ∷ []) headers
  | some values ↦ insert name (values ++ (value ∷ [])) headers
]

-- An empty line, or one that only ends.
abbrev pub is_end : Bytes → Bool
is_end line = is_empty line || beq line (codes "\n") || beq line (codes "\r\n")

-- The reset at the first line behind a block of headers.
abbrev pub restarted : HeaderParser → HeaderParser
restarted p =
    if p.recv_all_headers
    then record p { recv_all_headers = false; recv_status_line = false }
    else p

module _ (bio_read : Bytes → Option Bytes) where
  -- The chain of comparisons with the canonical name.
  unfoldable pub parse_value : HeaderParser → Bytes → Bytes → HeaderParser × Bool
  parse_value p name value =
      if beq name (codes "Allow")
      then (parse_allow p value, true)
      else if beq name (codes "Content-Length")
      then parse_content_length p value
      else if beq name (codes "Content-Type")
      then (parse_content_type p value, true)
      else if beq name (codes "Content-Range")
      then parse_content_range p value
      else if beq name (codes "Location")
      then (record p { location = value }, true)
      else if beq name (codes "Digest")
      then (record p { checksums = parse_digest_header bio_read value p.checksums }, true)
      else if beq name (codes "Etag")
      then (record p { etag = without b'"' value }, true)
      else if beq name (codes "Cache-Control")
      then (record p { cache_control = value }, true)
      else (p, true)

  unfoldable pub parse_header : HeaderParser → Bytes → HeaderParser × Bool
  unfolding parse_value
  parse_header p line = elim (find b':' line) [
    | none ↦ (p, false)
    | some found ↦ elim (canonicalize (take found line)) [
      | none ↦ (p, false)
      | some name ↦
          let value = trim_end (skip_spaces (drop (suc found) line)) in
          parse_value (record p { headers = record_header name value p.headers }) name value
    ]
  ]

  unfoldable pub parse : HeaderParser → Bytes → HeaderParser × Bool
  parse p line =
      let q = restarted p in
      if not q.recv_status_line
      then parse_status_line (record q { recv_status_line = true }) line
      else if is_end line
      then (record q { recv_all_headers = true }, true)
      else parse_header q line
