-- ===== src/Read/State.antt =====
-- src/XrdClCurl/XrdClCurlOps.hh and XrdClCurlOpRead.cc: the data of CurlReadOp, the range request,
-- and the text of a failure. What stands in the client's buffer is a list of bytes.
use xrdcl_pelican.Prelude.{
  ℕ, ◌+◌, ◌-◌, ◌%◌, ◌*◌, ◌^◌, Bool, true, false, Option, none, some, List, [], ◌∷◌, ◌++◌,
}
use xrdcl_pelican.Prelude.Tests.{leb, ◌==◌, if◌then◌else◌}
use xrdcl_pelican.Prelude.Bytes.{Bytes, codes, is_empty, take_until, find}
use xrdcl_pelican.Prelude.Decimal.{decimal}
use xrdcl_pelican.Headers.{HeaderParser}
use xrdcl_pelican.Operation.Text.{append_server_error}

-- The calls of FailCallback.
pub data Complaint : Type 0 where
  multipart_byterange wrong_offset too_much_data : Complaint

-- `offset` and `size` are m_op; `content` are the bytes in m_buffer, `has_buffer` is whether it is
-- set, and `handler` whether m_handler is. `delivered` are the chunks that handlers got, with their
-- offset in the object.
pub record ReadOp : Type 0 where
  pub headers : HeaderParser
  pub offset : ℕ
  pub size : ℕ
  pub written : ℕ
  pub has_buffer : Bool
  pub buffer_size : ℕ
  pub content : Bytes
  pub prefetch_buffer : Bytes
  pub prefetch_buffer_offset : ℕ
  pub prefetch_object_offset : ℕ
  pub handler : Bool
  pub done : Bool
  pub failed : Bool
  pub cancelled : Bool
  pub paused : Bool
  pub bytes : ℕ
  pub err_msg : Bytes
  pub complaint : Option Complaint
  pub delivered : List (ℕ × Bytes)

abbrev pub new_read : HeaderParser → ℕ → ℕ → ℕ → ReadOp
new_read headers offset size buffer_size = record {
  headers = headers;
  offset = offset;
  size = size;
  written = 0;
  has_buffer = true;
  buffer_size = buffer_size;
  content = [];
  prefetch_buffer = [];
  prefetch_buffer_offset = 0;
  prefetch_object_offset = 0;
  handler = true;
  done = false;
  failed = false;
  cancelled = false;
  paused = false;
  bytes = 0;
  err_msg = [];
  complaint = none;
  delivered = [];
}

-- kWholeObject.
abbrev pub whole_object : ℕ
whole_object = 2 ^ 63 - 1

-- The Range header of Setup, if any, for a size that is not 0.
unfoldable pub range_header : ReadOp → List (Bytes × Bytes)
range_header op =
    if op.size == whole_object
    then []
    else (
      codes "Range",
      codes "bytes="
          ++ (decimal op.offset
              ++ (codes "-" ++ decimal ((op.offset + op.size + (2 ^ 64 - 1)) % 2 ^ 64))),
    )
      ∷ []

-- The size of libcurl's buffer that Setup asks for; `none` leaves the default.
unfoldable pub curl_buffer_size : ReadOp → Option ℕ
curl_buffer_size op =
    if leb (1024 * 1024) op.size
    then some (128 * 1024)
    else if leb (256 * 1024) op.size
    then some (64 * 1024)
    else if leb (128 * 1024) op.size
    then some (32 * 1024)
    else none

-- The message of Fail, with the target as ReadTargetForLog shows it.
unfoldable pub failure_message : ReadOp → Bytes → Bytes → Bytes
failure_message op target msg =
    let custom_msg =
      if is_empty msg
      then msg
      else msg
        ++ (codes " (read operation for "
            ++ (target ++ (codes " at offset " ++ (decimal op.offset ++ codes ")")))) in
    append_server_error custom_msg op.err_msg

-- ReadTargetForLog: the host and path of an URL that XrdCl::URL parses, as a parameter, or the URL
-- without its query.
unfoldable pub read_target_for_log : (Bytes → Option (Bytes × Bytes)) → Bytes → Bytes
read_target_for_log from_string url = elim (from_string url) [
  | none ↦ take_until (find b'?' url) url
  | some parsed ↦
      let (host, path) = parsed in
      if is_empty path then take_until (find b'?' url) url else host ++ path
]
