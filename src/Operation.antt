-- ===== src/Operation.antt =====
-- src/XrdClCurl/XrdClCurlOps.{hh,cc}: CurlOperation. Text has its functions on texts, FakeDns the fake
-- addresses of connection callouts, Clock the time-outs and statistics of a transfer, Redirect the
-- handling of redirects. The hooks and the end of an operation are in Scheduler.
pub mod Text
pub mod FakeDns
pub mod Clock
pub mod Redirect
pub mod Endpoints
pub mod Totals
pub mod Hops
mod Tests
