-- ===== src/Link/Tests.antt =====
-- The theorems on the Link header at concrete values.
use xrdcl_pelican.Prelude.{◌≡◌, refl, true, some, [], ◌∷◌, ◌++◌}
use xrdcl_pelican.Prelude.Bytes.{Bytes, codes, find, find_from}
use xrdcl_pelican.Headers.Text.{skip_white, magnitude, digits_value}
use xrdcl_pelican.Link.{
  parse_string, parse_int, unsigned_int, as_int, skip_number, string_loop, unescape, trim_view,
  ltrim_view, rtrim_view,
}
use xrdcl_pelican.Link.Entries.{
  from_header_value, entries_loop, iter_from_header_value, iter_loop, link_piece, parameter_piece,
  sort_links, insert_link,
}
use xrdcl_pelican.Link.Quoted.{quoted, parse_string-quoted}

parse_string-quoted_example :
    parse_string (quoted (codes "a\"b\\c\r") ++ codes ", x") ≡ some (codes ", x", codes "a\"b\\c\r")
parse_string-quoted_example = parse_string-quoted (codes "a\"b\\c\r") (codes ", x")

abbrev two_links : Bytes
two_links =
    codes "<https://b>; rel=\"duplicate\"; pri=2; depth=3, <https://a>; rel=\"duplicate\"; pri=1"

two_entries : from_header_value two_links ≡ (
  record { prio = 1; depth = 0; link = codes "https://a" }
      ∷ record { prio = 2; depth = 3; link = codes "https://b" }
      ∷ [],
  true,
)
unfolding from_header_value entries_loop iter_from_header_value iter_loop link_piece parameter_piece
    sort_links insert_link find find_from parse_string string_loop unescape trim_view ltrim_view
    rtrim_view skip_white parse_int unsigned_int as_int skip_number magnitude digits_value
two_entries = refl
