-- ===== src/Scheduler.antt =====
-- src/XrdClCurl/XrdClCurlTagScheduler.{hh,cc}: per-tag admission and dispatch of operations.
-- State holds the data and the constructor, Pick the weighted draw, Queue the operations; the other
-- children hold the theorems.
pub mod State
pub mod Pick
pub mod Queue
pub mod Cases
pub mod Draw
pub mod Counters
pub mod Sweep
pub mod Invariant
pub mod Dispatch
pub mod World
pub mod Waiting
pub mod Accounting
pub mod Caps
pub mod Runs
pub mod Expiry
pub mod Unnamed
pub mod Limits
mod Tests
