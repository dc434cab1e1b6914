-- ===== src/VectorRead/PartHeader.antt =====
-- src/XrdClCurl/XrdClCurlOpReadV.cc: the loop of Write over the headers of a part, with the value
-- of Content-Range.
use xrdcl_pelican.Prelude.{
  ℕ, zero, suc, ◌-◌, Bool, true, false, not, ◌||◌, Option, none, some, [], ◌∷◌, ◌++◌,
}
use xrdcl_pelican.Prelude.Tests.{◌==◌, if◌then◌else◌}
use xrdcl_pelican.Prelude.Bytes.{Bytes, codes, beq, find, is_empty}
use xrdcl_pelican.Prelude.Lists.{length, take, drop, get_elem?}
use xrdcl_pelican.Prelude.Int.{ℤ, pos, negsuc}
use xrdcl_pelican.Digest.{lower}
use xrdcl_pelican.Headers.Text.{between, stoll, magnitude, skip_spaces, skip_white, to_uint64}
use xrdcl_pelican.VectorRead.State.{
  VectorRead, Complaint, invalid_header_line, no_bytes_unit, no_integer_in_start,
  out_of_range_start, no_dash, no_integer_in_end, out_of_range_end, no_trailing_slash,
  negative_length, calculate_next_buffer, sub_off, add_off,
}
use xrdcl_pelican.VectorRead.Lines.{next_line, Outcome, onward, returned, exhausted, fail_callback}

-- `std::stoll(data, &count)`: one of its two exceptions, or the value and the count.
pub data Converted : Type 0 where
  invalid_argument out_of_range : Converted
  converted : ℤ → ℕ → Converted

abbrev pub skip_sign : Bytes → Bytes
skip_sign [] = []
skip_sign (c ∷ cs) = if c == b'-' || c == b'+' then cs else c ∷ cs

unfoldable pub skip_digits : Bytes → Bytes
skip_digits [] = []
skip_digits (c ∷ cs) = if between b'0' b'9' c then skip_digits cs else c ∷ cs

unfoldable pub stoll_count : Bytes → Converted
stoll_count xs =
    let number = skip_sign (skip_white xs) in
    elim (magnitude number) [
      | none ↦ invalid_argument
      | some _ ↦ elim (stoll xs) [
        | none ↦ out_of_range
        | some z ↦ converted z (length xs - length (skip_digits number))
      ]
    ]

-- `value.size() <= count || value[count] != c`, negated.
abbrev pub stops_at : ℕ → Bytes → ℕ → Bool
stops_at c value count = elim (get_elem? value count) [ none ↦ false | some x ↦ x == c ]

-- The length of the range, and the buffer it goes to; `line` is the whole header.
abbrev pub with_length : VectorRead → Bytes → ℤ → VectorRead × Option Complaint
with_length op line (negsuc _) = (op, some (negative_length line))
with_length op line (pos n) = (calculate_next_buffer (record op { current_length = pos n }), none)

-- The end of the range.
abbrev pub range_end : VectorRead → Bytes → Bytes → Converted → VectorRead × Option Complaint
range_end op line value invalid_argument = (op, some (no_integer_in_end value))
range_end op line value out_of_range = (op, some (out_of_range_end value))
range_end op line value (converted bytes_val count) =
    if not (stops_at b'/' value count)
    then (op, some (no_trailing_slash value))
    else with_length op line (sub_off (add_off bytes_val 1) (to_uint64 op.current_offset))

-- The start of the range; `behind` is what can be read behind the value.
abbrev pub range_start :
    VectorRead → Bytes → Bytes → Bytes → Converted → VectorRead × Option Complaint
range_start op line value behind invalid_argument = (op, some (no_integer_in_start value))
range_start op line value behind out_of_range = (op, some (out_of_range_start value))
range_start op line value behind (converted bytes_val count) =
    if not (stops_at b'-' value count)
    then (op, some (no_dash value))
    else range_end (record op { current_offset = bytes_val }) line (drop (suc count) value)
        (stoll_count (drop (suc count) value ++ behind))

-- The value of Content-Range.
abbrev pub part_range : VectorRead → Bytes → Bytes → Bytes → VectorRead × Option Complaint
part_range op line value behind =
    if not (beq (take 5 value) (codes "bytes"))
    then (op, some (no_bytes_unit value))
    else (let range = skip_spaces (drop 5 value) in
        range_start op line range behind (stoll_count (range ++ behind)))

abbrev pub named_header : VectorRead → Bytes → Bytes → Option ℕ → VectorRead × Option Complaint
named_header op line behind none = (op, some (invalid_header_line line))
named_header op line behind (some header_name_end) =
    if not (beq (lower (take header_name_end line)) (codes "content-range"))
    then (op, none)
    else part_range op line (skip_spaces (drop (suc header_name_end) line)) behind

-- One header line: the operation behind it, and an error.
unfoldable pub part_header : VectorRead → Bytes → Bytes → VectorRead × Option Complaint
part_header op line behind = named_header op line behind (find b':' line)

-- The loop over the header lines; each pass takes at least one byte or ends.
unfoldable pub header_loop : ℕ → ℕ → VectorRead → Bytes → Outcome
header_loop zero len op buffer = exhausted
header_loop (suc fuel) len op buffer = elim (next_line op.response_headers buffer) [
  | none ↦
      returned
        (record op { response_headers = op.response_headers ++ buffer; multipart_boundary = false })
        len
  | some line ↦
      let op' : VectorRead = record op { response_headers = [] } in
      elim (is_empty line.text) [
        | true ↦ onward op' line.rest
        | false ↦
            let (op'', complaint) = part_header op' line.text line.behind in
            elim complaint [
              | none ↦ header_loop fuel len op'' line.rest
              | some c ↦ fail_callback op'' c
            ]
      ]
]

unfoldable pub part_headers : ℕ → VectorRead → Bytes → Outcome
part_headers len op buffer = header_loop (suc (length buffer)) len op buffer
