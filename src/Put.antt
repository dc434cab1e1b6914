-- ===== src/Put.antt =====
-- src/XrdClCurl/XrdClCurlOpPut.cc: CurlPutOp, an upload by one HTTP request whose body the client
-- gives in pieces. m_owned_buffer only holds storage; the options of libcurl are left out.
pub mod Upload
mod Tests
use xrdcl_pelican.Prelude.{
  ℕ, suc, ◌+◌, ◌%◌, ◌^◌, Bool, true, false, not, ◌&&◌, ◌||◌, Option, none, some, List, [], ◌∷◌,
}
use xrdcl_pelican.Prelude.Tests.{◌==◌, if◌then◌else◌}
use xrdcl_pelican.Prelude.Bytes.{Bytes, is_empty}
use xrdcl_pelican.Prelude.Lists.{length, take, drop}

-- `payload` is m_data; `handler` and `default_handler` are whether they are set. `answers` are the
-- responses that handlers got: true is a success.
pub record PutOp : Type 0 where
  pub payload : Bytes
  pub final : Bool
  pub paused : Bool
  pub done : Bool
  pub failed : Bool
  pub bytes : ℕ
  pub handler : Bool
  pub default_handler : Bool
  pub answers : List Bool

abbrev pub new_put : Bool → Bool → Bytes → PutOp
new_put handler default_handler buffer = record {
  payload = buffer;
  final = false;
  paused = false;
  done = false;
  failed = false;
  bytes = 0;
  handler = handler;
  default_handler = default_handler;
  answers = [];
}

-- A response to the handler that is claimed, or else to the default handler.
abbrev pub answered : PutOp → Bool → PutOp
answered op ok =
    if op.handler || op.default_handler
    then record op { answers = ok ∷ op.answers; handler = false }
    else op

unfoldable pub fail : PutOp → PutOp
fail op = answered (record op { done = true; failed = true }) false

unfoldable pub success : PutOp → PutOp
success op =
    let op' : PutOp = record op { done = true; failed = false } in
    if op.handler then record op' { answers = true ∷ op.answers; handler = false } else op'

unfoldable pub pause : PutOp → PutOp
pause op = answered (record op { paused = true }) true

-- What ReadCallback gives to libcurl: CURL_READFUNC_PAUSE, 0, or bytes.
pub data Reply : Type 0 where
  pauses ends : Reply
  sends : Bytes → Reply

unfoldable pub read_callback : PutOp → ℕ → PutOp × Reply
read_callback op request =
    if is_empty op.payload then (if op.final then (op, ends) else (pause op, pauses)) else (
      record op { bytes = (op.bytes + request) % 2 ^ 64; payload = drop request op.payload },
      sends (take request op.payload),
    )

-- Continue on the operation itself; the flag is whether the queue of continuations takes it.
unfoldable pub continue : Bool → PutOp → Bool → Bytes → PutOp × Bool
continue queued op handler buffer =
    let op' : PutOp = record op {
      handler = handler;
      payload = buffer;
      final = if is_empty buffer then true else op.final;
    } in
    if queued then (op', true) else (fail op', false)

-- ContinueHandle, where libcurl has a handle and takes the call.
unfoldable pub continue_handle : Bool → PutOp → PutOp × Bool
continue_handle curl_ok op = if curl_ok then (record op { paused = false }, true) else (op, false)
