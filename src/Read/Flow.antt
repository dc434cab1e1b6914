-- ===== src/Read/Flow.antt =====
-- src/XrdClCurl/XrdClCurlOpRead.cc: Write, Pause, Continue, DeliverResponse and Success of CurlReadOp,
-- and ContinueHandle as far as it is not libcurl.
use xrdcl_pelican.Prelude.{
  ℕ, ◌+◌, ◌-◌, ◌%◌, ◌*◌, ◌^◌, Bool, true, false, not, ◌&&◌, ◌||◌, some, [], ◌∷◌, ◌++◌,
}
use xrdcl_pelican.Prelude.Tests.{ltb, leb, ◌==◌, if◌then◌else◌}
use xrdcl_pelican.Prelude.Bytes.{Bytes, is_empty}
use xrdcl_pelican.Prelude.Lists.{length, take, drop}
use xrdcl_pelican.Prelude.Int.{ℤ, pos, negsuc}
use xrdcl_pelican.Read.State.{ReadOp, Complaint, multipart_byterange, wrong_offset, too_much_data}

-- The chunk that a handler gets.
abbrev pub handed : ReadOp → ReadOp
handed op = record op {
  delivered = op.delivered ++ ((op.offset + op.prefetch_object_offset, op.content) ∷ []);
  prefetch_object_offset = op.prefetch_object_offset + op.written;
  handler = false;
}

unfoldable pub deliver_response : ReadOp → ReadOp
deliver_response op =
    if op.handler
    then record (handed op) { has_buffer = false; buffer_size = 0; content = [] }
    else op

unfoldable pub pause : ReadOp → ReadOp
pause op = deliver_response (record op { paused = true })

-- SetDone and then the answer.
unfoldable pub success : ReadOp → ReadOp
success op =
    let op' : ReadOp = record op { done = true; failed = false } in
    if op.handler then handed op' else op'

-- What Write returns: the length, CURL_WRITEFUNC_PAUSE, or 0.
pub data Reply : Type 0 where
  took pauses refuses : Reply

abbrev pub complain : ReadOp → Complaint → ReadOp × Reply
complain op c = (record op { complaint = some c }, refuses)

-- The copy, the overflow, and a single-shot read that gets too much.
abbrev pub taken : ReadOp → Bytes → ReadOp × Reply
taken op data' =
    let room = op.buffer_size - op.written in
    let op' : ReadOp = record op {
      bytes = (op.bytes + length data') % 2 ^ 64;
      content = op.content ++ take room data';
      written = op.written + length (take room data');
    } in
    if ltb room (length data')
    then (if leb op.size op.buffer_size then complain op' too_much_data else (
      record op' {
        prefetch_buffer = op.prefetch_buffer ++ drop room data';
        prefetch_buffer_offset = 0;
      },
      took,
    ))
    else (op', took)

abbrev pub is_failure : ℤ → Bool
is_failure (pos n) = ltb 299 n
is_failure (negsuc n) = false

-- The body of an error, of which the beginning is kept.
abbrev pub error_body : ReadOp → Bytes → ReadOp × Reply
error_body op data' = (
  record op {
    err_msg = if ltb (length op.err_msg) (4 * 1024) then op.err_msg ++ data' else op.err_msg;
    bytes = (op.bytes + length data') % 2 ^ 64;
  },
  took,
)

unfoldable pub write : ReadOp → Bytes → ReadOp × Reply
write op data' =
    if op.cancelled
    then (op, refuses)
    else if op.headers.multipart_byteranges
    then complain op multipart_byterange
    else if op.written == 0 && not (op.headers.response_offset == op.offset)
    then complain op wrong_offset
    else if is_failure op.headers.status_code
    then error_body op data'
    else if not op.has_buffer || op.buffer_size == op.written
    then (pause op, pauses)
    else taken op data'

-- The bytes that a Continue takes from the overflow.
abbrev pub from_prefetch : ReadOp → Bytes
from_prefetch op = take op.buffer_size (drop op.prefetch_buffer_offset op.prefetch_buffer)

abbrev pub refilled : ReadOp → ReadOp
refilled op =
    if is_empty op.prefetch_buffer
    then op
    else let stop = op.prefetch_buffer_offset + length (from_prefetch op) in
      let op' : ReadOp = record op {
        content = from_prefetch op;
        written = length (from_prefetch op);
        prefetch_buffer_offset = stop;
      } in
      if stop == length op.prefetch_buffer
      then record op' { prefetch_buffer = []; prefetch_buffer_offset = 0 }
      else op'

-- A new buffer and handler.
abbrev pub installed : ReadOp → ℕ → ReadOp
installed op size = record op {
  handler = true;
  has_buffer = true;
  buffer_size = size;
  content = [];
  written = 0;
}

-- Continue on the operation itself, where the queue of continuations takes it: the operation is
-- queued, answers at once where it is done, or fails the new handler.
unfoldable pub continue : ReadOp → ℕ → ReadOp
continue op size =
    let op' = refilled (installed op size) in
    if op.done
    then (if op.failed then record op' { handler = false } else deliver_response op')
    else op'

-- ContinueHandle: false where libcurl is not asked, or refuses.
unfoldable pub continue_handle : Bool → ReadOp → ReadOp × Bool
continue_handle curl_ok op =
    if op.done || not curl_ok then (op, false) else (record op { paused = false }, true)
