-- ===== src/VectorRead/Tests.antt =====
-- The theorems on vector reads at concrete responses.
use xrdcl_pelican.Prelude.{List, [], ◌∷◌, ◌++◌, ◌≡◌, ◌≢◌, refl, arith, ◌⊎◌, inr}
use xrdcl_pelican.Prelude.Bytes.{Bytes, codes, find, find_text}
use xrdcl_pelican.Prelude.Int.{pos}
use xrdcl_pelican.Prelude.Lists.{length}
use xrdcl_pelican.Digest.{lower}
use xrdcl_pelican.Status.{http_status_is_error}
use xrdcl_pelican.Headers.{HeaderParser, new_parser, set_multipart_separator}
use xrdcl_pelican.Headers.Text.{
  stoll, sign_and_value, skip_white, magnitude, digits_value, skip_spaces,
}
use xrdcl_pelican.VectorRead.State.{
  Chunk, VectorRead, new_vector_read, calculate_next_buffer, nearest, range_header, range_loop,
}
use xrdcl_pelican.VectorRead.Lines.{
  Outcome, returned, exhausted, next_line, ends_in_return, pop_back, boundary_loop, boundary,
}
use xrdcl_pelican.VectorRead.PartHeader.{
  part_header, header_loop, part_headers, stoll_count, skip_digits,
}
use xrdcl_pelican.VectorRead.Write.{write, write_loop, pass, between_parts}
use xrdcl_pelican.Prelude.Decimal.{decimal, decimal_loop}
use xrdcl_pelican.VectorRead.Memory.{Tidy, at_start}
use xrdcl_pelican.VectorRead.Stream.{text_and_rest, first_line, next_line-first_line}
use xrdcl_pelican.VectorRead.Ending.{Stuck, write_loop-Stuck, write_hangs}
use xrdcl_pelican.VectorRead.Safety.{no_more, and_then, Writes-memory}

-- A response in parts.
abbrev parts : HeaderParser
parts = set_multipart_separator (record new_parser { status_code = pos 206 }) (codes "123")

abbrev one_chunk : List Chunk
one_chunk = record { offset = 10; size = 4; buffer = 1000 } ∷ []

abbrev fresh : VectorRead
fresh = new_vector_read parts one_chunk (λ a. 0)

abbrev state_of : VectorRead → Outcome → VectorRead
state_of op (returned op' n) = op'
state_of op _ = op

abbrev cut_short : Bytes
cut_short = codes "--123\r\nContent-Range: bytes 0-99/200\r\n"

-- Cut behind the Content-Range header.
abbrev cut : VectorRead
cut = state_of fresh (write 100 fresh cut_short)

write_hangs_example : write 7 cut (codes "\r\nabc") ≡ exhausted
unfolding write write_loop pass between_parts boundary boundary_loop next_line ends_in_return
    pop_back find_text part_headers header_loop part_header find lower skip_spaces stoll_count
    skip_digits stoll sign_and_value skip_white magnitude digits_value calculate_next_buffer nearest
    http_status_is_error
write_hangs_example = write_hangs 7 cut b'\r' (codes "\nabc") refl refl refl refl (ground arith)

-- A part with the four bytes of the chunk.
abbrev body : Bytes
body = codes "--123\r\nContent-Range: bytes 10-13/200\r\n\r\nabcd\r\n--123--\r\n"

fresh-Tidy : Tidy fresh
fresh-Tidy = at_start fresh refl (ground arith, tt)

write_loop-Stuck_example :
    (write_loop (length body) (length body) fresh body ≢ exhausted)
    ⊎ (Stuck (length body) fresh body × (write_loop 1000 (length body) fresh body ≡ exhausted))
write_loop-Stuck_example =
    write_loop-Stuck (length body) 1000 (length body) fresh body fresh-Tidy (omega arith)

abbrev answered : VectorRead
answered = state_of fresh (write 100 fresh body)

answered_memory : (answered.memory 1000 ≡ b'a') × (answered.memory 1003 ≡ b'd')
unfolding write write_loop pass between_parts boundary boundary_loop next_line ends_in_return
    pop_back find_text part_headers header_loop part_header find lower skip_spaces stoll_count
    skip_digits stoll sign_and_value skip_white magnitude digits_value calculate_next_buffer nearest
    http_status_is_error
answered_memory = (refl, refl)

Writes-memory_example : answered.memory 1004 ≡ fresh.memory 1004
unfolding write write_loop pass between_parts boundary boundary_loop next_line ends_in_return
    pop_back find_text part_headers header_loop part_header find lower skip_spaces stoll_count
    skip_digits stoll sign_and_value skip_white magnitude digits_value calculate_next_buffer nearest
    http_status_is_error
Writes-memory_example =
    Writes-memory 1004 fresh answered (inr (ground arith), tt)
      (and_then 100 (length body) fresh answered answered body refl (no_more answered))

next_line-first_line_example :
    text_and_rest (next_line (codes "--123\r") (codes "\nContent-Type: a\r\n"))
    ≡ first_line (codes "--123\r" ++ codes "\nContent-Type: a\r\n")
unfolding find_text
next_line-first_line_example =
    next_line-first_line (codes "--123\r") (codes "\nContent-Type: a\r\n") refl

-- A chunk of five bytes of which the server has four: the copy runs on into the boundary line, and
-- the loop does not end.
abbrev longer : VectorRead
longer =
    new_vector_read parts
      (record { offset = 10; size = 5; buffer = 1000 }
        ∷ record { offset = 90; size = 5; buffer = 2000 }
        ∷ [])
      (λ a. 0)

short_part_hangs : write 100 longer body ≡ exhausted
unfolding write write_loop pass between_parts boundary boundary_loop next_line ends_in_return
    pop_back find_text part_headers header_loop part_header find lower skip_spaces stoll_count
    skip_digits stoll sign_and_value skip_white magnitude digits_value calculate_next_buffer nearest
    http_status_is_error
short_part_hangs = refl

-- With a status of 200 the first bytes of the body go to the first chunk, whatever its offset.
abbrev whole : VectorRead
whole =
    new_vector_read (record new_parser { status_code = pos 200 })
      (record { offset = 2; size = 4; buffer = 1000 } ∷ []) (λ a. 0)

whole_memory : (state_of whole (write 100 whole (codes "abcdefgh"))).memory 1000 ≡ b'a'
unfolding write write_loop pass calculate_next_buffer nearest
whole_memory = refl

two_ranges :
    range_header (
      record { offset = 10; size = 4; buffer = 0 }
      ∷ record { offset = 90; size = 10; buffer = 0 }
      ∷ [])
    ≡ (codes "Range", codes "bytes=10-13,90-99") ∷ []
unfolding range_header range_loop decimal decimal_loop
two_ranges = refl
