-- ===== src/VectorRead/Write.antt =====
-- src/XrdClCurl/XrdClCurlOpReadV.cc: Write, the callback for the body of the response, and the
-- results that Success and Fail give.
use xrdcl_pelican.Prelude.{
  ℕ, zero, suc, ◌+◌, ◌-◌, ◌%◌, ◌^◌, Bool, true, false, not, ◌&&◌, ◌||◌, Option, none, some, [], ◌∷◌,
  ◌++◌, min,
}
use xrdcl_pelican.Prelude.Tests.{ltb, ◌==◌, if◌then◌else◌}
use xrdcl_pelican.Prelude.Bytes.{Bytes}
use xrdcl_pelican.Prelude.Lists.{length, take, drop, get_elem?}
use xrdcl_pelican.Prelude.Int.{ℤ, pos, negsuc}
use xrdcl_pelican.Headers.{to_int64}
use xrdcl_pelican.Status.{http_status_is_error}
use xrdcl_pelican.VectorRead.State.{
  Chunk, VectorRead, invalid_chunk_framing, missing_content_range, off_max, add_off, sub_off,
  calculate_next_buffer, store,
}
use xrdcl_pelican.VectorRead.Lines.{
  Outcome, onward, returned, last_segment, undefined, exhausted, boundary, fail_callback,
}
use xrdcl_pelican.VectorRead.PartHeader.{part_headers}

-- `z == -1` and `z == n`.
abbrev pub is_unset : ℤ → Bool
is_unset (pos n) = false
is_unset (negsuc n) = n == 0

abbrev pub equals : ℤ → ℕ → Bool
equals (pos m) n = m == n
equals (negsuc m) n = false

-- The current chunk as a result, with the buffer position at its end.
abbrev pub delivered : VectorRead → Chunk → VectorRead
delivered op c = record op {
  results =
      op.results
      ++ (record { offset = c.offset; size = op.chunk_buffer_idx; buffer = c.buffer } ∷ []);
  bytes_consumed = op.bytes_consumed + op.chunk_buffer_idx;
  chunk_buffer_idx = 0;
  response_idx = suc op.response_idx;
}

abbrev pub unset : VectorRead → VectorRead
unset op = record op { current_offset = negsuc 0; current_length = negsuc 0 }

-- The requested chunk is complete: the flag is the `continue`.
abbrev pub chunk_complete : VectorRead → Chunk → VectorRead × Bool
chunk_complete op c = if equals op.current_length c.size then (unset (delivered op c), false) else (
  calculate_next_buffer (record (delivered op c) {
    current_offset = add_off op.current_offset c.size;
    current_length = sub_off op.current_length c.size;
  }),
  true,
)

-- The response is complete and the chunk is not: its remainder is a new chunk. The source reads the
-- chunk once more behind the emplace_back, which may have moved it; here it is as it was.
abbrev pub response_complete : VectorRead → Chunk → VectorRead
response_complete op c = unset (record (delivered op c) {
  chunk_list =
      op.chunk_list
      ++ (record {
        offset = c.offset + op.chunk_buffer_idx;
        size = c.size - op.chunk_buffer_idx;
        buffer = c.buffer + op.chunk_buffer_idx;
      }
          ∷ []);
})

abbrev pub after_copy : VectorRead → Chunk → VectorRead × Bool
after_copy op c =
    if c.size == op.chunk_buffer_idx
    then chunk_complete op c
    else if equals op.current_length op.chunk_buffer_idx
    then (response_complete op c, false)
    else (op, false)

-- The memcpy of `count` bytes.
abbrev pub copied : VectorRead → Chunk → ℕ → Bytes → VectorRead
copied op c count buffer = record op {
  memory = store (c.buffer + op.chunk_buffer_idx) (take count buffer) op.memory;
  chunk_buffer_idx = op.chunk_buffer_idx + count;
}

-- The bytes that one pass copies.
abbrev pub to_copy : VectorRead → Chunk → Bytes → ℕ
to_copy op c buffer =
    let remaining = c.size - op.chunk_buffer_idx in
    if ltb remaining (length buffer) then remaining else length buffer

-- The test at the top of the loop: the payload of a part is next.
abbrev pub in_payload : VectorRead → Bool
in_payload op =
    op.multipart_boundary && not (is_unset op.current_offset) && not (is_unset op.current_length)

abbrev pub has_range : VectorRead → Bool
has_range op = not (is_unset op.current_offset || is_unset op.current_length)

-- Behind the headers of a part.
abbrev pub behind_headers : ℕ → Outcome → Outcome
behind_headers len (onward op rest) =
    let op' : VectorRead = record op { multipart_boundary = true } in
    if has_range op' then onward op' rest else fail_callback op' missing_content_range
behind_headers len (returned op n) = returned op n
behind_headers len (last_segment op) = last_segment op
behind_headers len (undefined op) = undefined op
behind_headers len exhausted = exhausted

-- The headers of a part, behind its boundary line.
abbrev pub behind_boundary : ℕ → Outcome → Outcome
behind_boundary len (onward op buffer) = behind_headers len (part_headers len op buffer)
behind_boundary len (returned op n) = returned op n
behind_boundary len (last_segment op) = returned op len
behind_boundary len (undefined op) = undefined op
behind_boundary len exhausted = exhausted

unfoldable pub between_parts : ℕ → VectorRead → Bytes → Outcome
between_parts len op buffer = behind_boundary len (boundary len op buffer)

abbrev pub skipped : VectorRead → Bytes → Outcome
skipped op buffer =
    let to_skip = min op.skip_bytes (length buffer) in
    onward (record op { skip_bytes = op.skip_bytes - to_skip }) (drop to_skip buffer)

-- Behind the copy: the `continue`, or the next boundary line.
abbrev pub go_on : ℕ → VectorRead → Bool → Bytes → Outcome
go_on len op again rest =
    if again || ltb 0 op.skip_bytes then onward op rest else between_parts len op rest

abbrev pub copy_into : ℕ → VectorRead → Chunk → Bytes → Outcome
copy_into len op c buffer =
    let count = to_copy op c buffer in
    let (op', again) = after_copy (copied op c count buffer) c in
    if ltb c.size op.chunk_buffer_idx
    then fail_callback op invalid_chunk_framing
    else go_on len op' again (drop count buffer)

-- The copy into the chunk at m_response_idx, if it is one.
abbrev pub copy_at : ℕ → VectorRead → Bytes → Option Chunk → Outcome
copy_at len op buffer none = undefined op
copy_at len op buffer (some c) = copy_into len op c buffer

-- One pass of the loop, on a buffer that is not empty.
unfoldable pub pass : ℕ → VectorRead → Bytes → Outcome
pass len op buffer =
    if in_payload op
    then (if ltb 0 op.skip_bytes
        then skipped op buffer
        else copy_at len op buffer (get_elem? op.chunk_list op.response_idx))
    else go_on len op false buffer

-- The loop, on fuel: an outcome of `pass` that goes on is the next pass.
unfoldable pub write_loop : ℕ → ℕ → VectorRead → Bytes → Outcome
write_loop fuel len op [] = returned op len
write_loop zero len op (c ∷ cs) = exhausted
write_loop (suc fuel) len op (c ∷ cs) = elim (pass len op (c ∷ cs)) [
  | onward op' rest ↦ write_loop fuel len op' rest
  | returned op' n ↦ returned op' n
  | last_segment op' ↦ returned op' len
  | undefined op' ↦ undefined op'
  | exhausted ↦ exhausted
]

-- A response that is not in parts starts at 0 or at the offset of its header, in every write.
abbrev pub single_response : VectorRead → ℤ → VectorRead
single_response op first = record op { current_offset = first; current_length = pos off_max }

abbrev pub is_error : ℤ → Bool
is_error (pos n) = http_status_is_error n
is_error (negsuc n) = true

abbrev pub is_ok : ℤ → Bool
is_ok (pos n) = n == 200
is_ok (negsuc n) = false

module _ (fuel : ℕ) where
  unfoldable pub write : VectorRead → Bytes → Outcome
  write op buffer =
      let op' : VectorRead = record op { bytes = (op.bytes + length buffer) % 2 ^ 64 } in
      if is_ok op.headers.status_code
      then write_loop fuel (length buffer) (single_response op' (pos 0)) buffer
      else if is_error op.headers.status_code
      then returned op' (length buffer)
      else if not op.headers.multipart_byteranges
      then write_loop fuel (length buffer)
          (single_response op' (to_int64 op.headers.response_offset)) buffer
      else write_loop fuel (length buffer) op' buffer
