-- ===== src/Read.antt =====
-- src/XrdClCurl/XrdClCurlOpRead.cc: CurlReadOp, a read by one HTTP request whose body the client takes
-- in several buffers. State has the data and the request, Flow the callbacks and continuations,
-- Stream what the client gets.
pub mod State
pub mod Flow
pub mod Stream
pub mod Lossless
pub mod Refill
pub mod Whole
mod Tests
