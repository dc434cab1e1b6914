-- ===== src/Headers/Tests.antt =====
-- The theorems on HeaderParser at concrete lines.
use xrdcl_pelican.Prelude.{◌+◌, ◌-◌, ◌≡◌, refl, true, Option, none, some, [], ◌∷◌, ◌++◌, arith}
use xrdcl_pelican.Prelude.Tests.{if◌then◌else◌}
use xrdcl_pelican.Prelude.Bytes.{Bytes, codes, beq, find}
use xrdcl_pelican.Prelude.Int.{pos}
use xrdcl_pelican.Digest.{lower}
use xrdcl_pelican.Headers.Text.{
  canonicalize, canonical_loop, stoll, sign_and_value, skip_white, magnitude, digits_value,
}
use xrdcl_pelican.Headers
use xrdcl_pelican.Headers.{HeaderParser, new_parser}
use xrdcl_pelican.Headers.Names.{canonicalize_normal}
use xrdcl_pelican.Headers.Lines.{values_under, parse_values}
use xrdcl_pelican.Headers.StatusLine.{status_line, HasStatus, parse_status}
use xrdcl_pelican.Headers.Range.{content_range, parse_content_range_lem}

canonicalize_normal_example :
    ((name : Bytes) → canonicalize (codes "eTag") ≡ some name → canonicalize name ≡ some name)
    × (lower (codes "eTag") ≡ lower (codes "ETAG")
        → canonicalize (codes "eTag") ≡ canonicalize (codes "ETAG"))
canonicalize_normal_example = canonicalize_normal (codes "eTag") (codes "ETAG")

-- A filter that decodes nothing.
abbrev refuse : Bytes → Option Bytes
refuse input = none

-- Behind the status line.
abbrev in_headers : HeaderParser
in_headers = record new_parser { recv_status_line = true; status_code = pos 200 }

parse_values_example :
    values_under
      (codes "Etag")
      (Headers.parse refuse in_headers
        (codes "eTag" ++ (b':' ∷ (codes " " ++ (codes "\"abc\"" ++ codes " \r\n"))))).0
    ≡ (if beq (codes "Etag") (codes "Etag")
        then values_under (codes "Etag") in_headers ++ (codes "\"abc\"" ∷ [])
        else values_under (codes "Etag") in_headers)
unfolding find canonicalize canonical_loop
parse_values_example =
    parse_values refuse in_headers (codes "eTag") (codes " ") (codes "\"abc\"") (codes " \r\n")
      (codes "Etag") (codes "Etag") refl refl refl refl (refl, tt) refl refl
      (refl, (refl, (refl, tt)))

parse_status_example :
    ((Headers.parse refuse new_parser
        (status_line (codes "HTTP/1.1") (codes "206") (codes "Partial Content"))).1
      ≡ true)
    × HasStatus
        (Headers.parse refuse new_parser
          (status_line (codes "HTTP/1.1") (codes "206") (codes "Partial Content"))).0
        (codes "HTTP/1.1")
        206
        (codes "Partial Content")
unfolding find stoll sign_and_value skip_white magnitude digits_value
parse_status_example =
    parse_status refuse new_parser (codes "HTTP/1.1") (codes "206") (codes "Partial Content") 206
      refl refl refl refl refl refl (omega arith) (omega arith)

parse_content_range_lem_example :
    Headers.parse_content_range in_headers (content_range (codes "10") (codes "19") (codes "*"))
    ≡ (record in_headers { response_offset = 10; content_length = pos (19 - 10 + 1) }, true)
unfolding find stoll sign_and_value skip_white magnitude digits_value
parse_content_range_lem_example =
    parse_content_range_lem in_headers (codes "10") (codes "19") (codes "*") 10 19 refl refl refl
      refl refl (omega arith) (omega arith)
