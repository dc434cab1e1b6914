-- ===== src/VectorRead/Results.antt =====
-- src/XrdClCurl/XrdClCurlOpReadV.cc: the results that Success and Fail of a vector read give.
use xrdcl_pelican.Prelude.{ℕ, Option, none, some, List, [], ◌∷◌, ◌++◌}
use xrdcl_pelican.Prelude.Tests.{◌==◌, if◌then◌else◌}
use xrdcl_pelican.Prelude.Bytes.{Bytes, codes, is_empty}
use xrdcl_pelican.Prelude.Decimal.{decimal}
use xrdcl_pelican.Prelude.Lists.{get_elem?}
use xrdcl_pelican.VectorRead.State.{Chunk, VectorRead}
use xrdcl_pelican.VectorRead.Write.{delivered}

-- Success: the chunks and their size that the handler gets; none where an element beyond the end
-- of m_chunk_list is used.
unfoldable pub success : VectorRead → Option (List Chunk × ℕ)
success op =
    if op.chunk_buffer_idx == 0
    then some (op.results, op.bytes_consumed)
    else elim (get_elem? op.chunk_list op.response_idx) [
      | none ↦ none
      | some c ↦ let op' = delivered op c in some (op'.results, op'.bytes_consumed)
    ]

abbrev pub first_chunk : List Chunk → Bytes × Bytes
first_chunk [] = (codes "(unknown)", codes "(unknown)")
first_chunk (c ∷ cs) = (decimal c.offset, decimal c.size)

-- The message that Fail gives to the handler.
unfoldable pub failure_message : VectorRead → Bytes → Bytes
failure_message op msg =
    if is_empty msg
    then msg
    else let (offset, size) = first_chunk op.chunk_list in
      msg
      ++ (codes " (vector read operation starting at offset "
          ++ (offset ++ (codes " / length " ++ (size ++ codes ")"))))
