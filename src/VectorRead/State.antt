-- ===== src/VectorRead/State.antt =====
-- src/XrdClCurl/XrdClCurlOpReadV.cc: the data of CurlVectorReadOp, the range request, and
-- CalculateNextBuffer. Memory is a function from addresses to bytes, and a buffer is an address.
use xrdcl_pelican.Prelude.{
  ℕ, zero, suc, ◌+◌, ◌-◌, ◌%◌, ◌^◌, Bool, true, false, ◌&&◌, Option, none, some, List, [], ◌∷◌,
  ◌++◌,
}
use xrdcl_pelican.Prelude.Tests.{ltb, leb, ◌==◌, if◌then◌else◌}
use xrdcl_pelican.Prelude.Bytes.{Bytes, codes, is_empty}
use xrdcl_pelican.Prelude.Decimal.{decimal}
use xrdcl_pelican.Prelude.Lists.{length, get_elem?, get_or}
use xrdcl_pelican.Prelude.Int.{ℤ, pos, negsuc}
use xrdcl_pelican.Headers.Text.{to_uint64}
use xrdcl_pelican.Headers.{HeaderParser, to_int64}

-- XrdCl::ChunkInfo: an uint64_t, an uint32_t and a pointer.
pub record Chunk : Type 0 where
  pub offset : ℕ
  pub size : ℕ
  pub buffer : ℕ

-- The calls of FailCallback, each with kXR_ServerError, by the text of its message and the piece of
-- input that it shows.
pub data Complaint : Type 0 where
  invalid_chunk_framing missing_content_range : Complaint
  invalid_boundary_line invalid_header_line negative_length : Bytes → Complaint
  no_bytes_unit no_integer_in_start out_of_range_start no_dash : Bytes → Complaint
  no_integer_in_end out_of_range_end no_trailing_slash : Bytes → Complaint

-- `current_offset` and `current_length` are m_current_op, `results` are the chunks of m_vr, and
-- `complaint` the error that FailCallback stores. m_header_line only holds the storage of a line.
pub record VectorRead : Type 0 where
  pub headers : HeaderParser
  pub bytes : ℕ
  pub response_idx : ℕ
  pub chunk_buffer_idx : ℕ
  pub bytes_consumed : ℕ
  pub skip_bytes : ℕ
  pub response_headers : Bytes
  pub multipart_boundary : Bool
  pub current_offset : ℤ
  pub current_length : ℤ
  pub results : List Chunk
  pub chunk_list : List Chunk
  pub complaint : Option Complaint
  pub memory : ℕ → ℕ

abbrev pub new_vector_read : HeaderParser → List Chunk → (ℕ → ℕ) → VectorRead
new_vector_read headers chunks memory = record {
  headers = headers;
  bytes = 0;
  response_idx = 0;
  chunk_buffer_idx = 0;
  bytes_consumed = 0;
  skip_bytes = 0;
  response_headers = [];
  multipart_boundary = true;
  current_offset = negsuc 0;
  current_length = negsuc 0;
  results = [];
  chunk_list = chunks;
  complaint = none;
  memory = memory;
}

-- The loop of Setup over the chunks; the flag is `multiple`.
unfoldable pub range_loop : Bool → List Chunk → Bytes
range_loop multiple [] = []
range_loop multiple (c ∷ cs) =
    let bounds = decimal c.offset ++ (codes "-" ++ decimal ((c.offset + c.size - 1) % 2 ^ 64)) in
    let skipped = range_loop multiple cs in
    let others = range_loop true cs in
    if c.size == 0 then skipped else (if multiple then codes "," else []) ++ (bounds ++ others)

-- The Range header that Setup adds, if any.
unfoldable pub range_header : List Chunk → List (Bytes × Bytes)
range_header chunks =
    let byte_range_val = range_loop false chunks in
    if is_empty byte_range_val then [] else (codes "Range", codes "bytes=" ++ byte_range_val) ∷ []

-- The largest off_t.
abbrev pub off_max : ℕ
off_max = 2 ^ 63 - 1

-- The sum and the difference of off_t values, in 64 bits.
abbrev pub add_off : ℤ → ℕ → ℤ
add_off z n = to_int64 (to_uint64 z + n)

abbrev pub sub_off : ℤ → ℕ → ℤ
sub_off z n = to_int64 (to_uint64 z + (2 ^ 64 - n))

-- `0 < z && z < distance`, and then z as a distance.
abbrev pub closer : ℤ → ℕ → Option ℕ
closer (pos n) distance = if ltb 0 n && ltb n distance then some n else none
closer (negsuc n) distance = none

-- The loop of CalculateNextBuffer: the distance and the index chosen, over the `left` indices from
-- `ctr` on.
unfoldable pub nearest : List Chunk → ℤ → ℕ → ℕ → ℕ → ℕ → ℕ → ℕ × ℕ
nearest chunks first start zero ctr distance idx = (distance, idx)
nearest chunks first start (suc left) ctr distance idx =
    let at = (start + ctr) % length chunks in
    elim (get_elem? chunks at) [
      | none ↦ (distance, idx)
      | some c ↦ elim (to_uint64 first == c.offset) [
        | true ↦ (0, at)
        | false ↦ elim (closer (sub_off (to_int64 c.offset) (to_uint64 first)) distance) [
          | none ↦ nearest chunks first start left (suc ctr) distance idx
          | some gap ↦ nearest chunks first start left (suc ctr) gap at
        ]
      ]
    ]

unfoldable pub calculate_next_buffer : VectorRead → VectorRead
calculate_next_buffer op =
    let (distance, idx) =
      nearest op.chunk_list op.current_offset op.response_idx (length op.chunk_list) 0 off_max
        op.response_idx in
    record op { response_idx = idx; chunk_buffer_idx = 0; skip_bytes = distance }

-- Bytes written from an address on.
abbrev pub store : ℕ → Bytes → (ℕ → ℕ) → ℕ → ℕ
store start xs memory a =
    if leb start a && ltb a (start + length xs) then get_or xs (a - start) 0 else memory a
