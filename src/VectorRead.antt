-- ===== src/VectorRead.antt =====
-- src/XrdClCurl/XrdClCurlOpReadV.cc: CurlVectorReadOp, a read of several chunks of a file by one
-- HTTP request with a list of ranges. State has the data and the request, Lines the lines of a
-- multipart body, PartHeader the headers of a part, Write the body's callback and the results.
pub mod State
pub mod Lines
pub mod PartHeader
pub mod Write
pub mod Results
pub mod Stream
pub mod Framing
pub mod Phases
pub mod Memory
pub mod Passes
pub mod Ending
pub mod Safety
mod Tests
