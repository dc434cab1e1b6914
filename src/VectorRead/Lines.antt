-- ===== src/VectorRead/Lines.antt =====
-- src/XrdClCurl/XrdClCurlOpReadV.cc: get_next_line and the loop over boundary lines of Write.
use xrdcl_pelican.Prelude.{ℕ, zero, suc, ◌+◌, Bool, false, ◌&&◌, Option, none, some, [], ◌∷◌, ◌++◌}
use xrdcl_pelican.Prelude.Tests.{◌==◌, if◌then◌else◌}
use xrdcl_pelican.Prelude.Bytes.{Bytes, codes, beq, find_text, is_empty}
use xrdcl_pelican.Prelude.Lists.{length, take, drop}
use xrdcl_pelican.VectorRead.State.{VectorRead, Complaint, invalid_boundary_line}

-- A complete line, what std::stoll can read behind it (the rest of the buffer from libcurl, or the
-- terminator of m_header_line), and the buffer behind the line.
pub record Line : Type 0 where
  pub text : Bytes
  pub behind : Bytes
  pub rest : Bytes

-- `back() == '\r'` of a text that may be empty.
unfoldable pub ends_in_return : Bytes → Bool
ends_in_return [] = false
ends_in_return (c ∷ cs) = if is_empty cs then c == b'\r' else ends_in_return cs

-- `pop_back`.
unfoldable pub pop_back : Bytes → Bytes
pop_back [] = []
pop_back (c ∷ cs) = let rest = pop_back cs in if is_empty cs then [] else c ∷ rest

abbrev pub starts_with_newline : Bytes → Bool
starts_with_newline [] = false
starts_with_newline (c ∷ cs) = c == b'\n'

-- The line of a pending text, m_response_headers, and a buffer; `none` means that the buffer ends
-- before the line does.
unfoldable pub next_line : Bytes → Bytes → Option Line
next_line pending buffer =
    if ends_in_return pending && starts_with_newline buffer
    then some (record { text = pop_back pending; behind = 0 ∷ []; rest = drop 1 buffer })
    else elim (find_text (codes "\r\n") buffer) [
      | none ↦ none
      | some p ↦ some (record {
        text = pending ++ take p buffer;
        behind = if is_empty pending then drop p buffer else 0 ∷ [];
        rest = drop (p + 2) buffer;
      })
    ]

-- How a phase of Write ends: it goes on with a buffer, Write returns a value, the last boundary
-- was read, or an element beyond the end of m_chunk_list is used. `exhausted` is the end of the
-- model's fuel.
pub data Outcome : Type 0 where
  onward : VectorRead → Bytes → Outcome
  returned : VectorRead → ℕ → Outcome
  last_segment : VectorRead → Outcome
  undefined : VectorRead → Outcome
  exhausted : Outcome

abbrev pub fail_callback : VectorRead → Complaint → Outcome
fail_callback op c = returned (record op { complaint = some c }) 0

-- The loop that consumes the boundary line, where m_multipart_boundary is set; `len` is the
-- length of the whole write. Each pass takes at least one byte or ends.
unfoldable pub boundary_loop : ℕ → ℕ → VectorRead → Bytes → Outcome
boundary_loop zero len op buffer = exhausted
boundary_loop (suc fuel) len op buffer = elim (next_line op.response_headers buffer) [
  | none ↦ returned (record op { response_headers = op.response_headers ++ buffer }) len
  | some line ↦
      let op' : VectorRead = record op { response_headers = [] } in
      let again = boundary_loop fuel len op' line.rest in
      if is_empty line.text
      then again
      else if beq line.text op.headers.multipart_sep
      then onward op' line.rest
      else if beq line.text (op.headers.multipart_sep ++ codes "--")
      then last_segment op'
      else fail_callback op' (invalid_boundary_line line.text)
]

unfoldable pub boundary : ℕ → VectorRead → Bytes → Outcome
boundary len op buffer =
    if op.multipart_boundary
    then boundary_loop (suc (length buffer)) len op buffer
    else onward op buffer
