-- ===== src/Lib.antt =====
-- A model of the logic at the core of xrdcl-pelican, an XRootD client plug-in for HTTP origins and
-- Pelican federations, with the theorems that make it correct.
--
-- How the parts work together. A file or file system of the plug-in makes operations and hands them
-- to a HandlerQueue, from which the workers around libcurl take them. Where a TagScheduler is
-- installed, the queue asks it to admit and to dispatch operations by the host of their URL, so that
-- one slow origin cannot hold every worker. A worker gives each line of a response to a HeaderParser,
-- which fills a set of checksums from the Digest header; results become statuses of XrdCl. Three
-- caches remember what was learnt: the HTTP verbs of an origin, the checksums of an object, and the
-- endpoint that a director chose for a directory.
--
-- Files, and the sources that they model:
--   Scheduler      src/XrdClCurl/XrdClCurlTagScheduler.{hh,cc}, with the hooks that
--                  src/XrdClCurl/XrdClCurlOps.{hh,cc} run. Scheduler/State has the data, Pick the draw
--                  (PickTag_locked, OnMonitorTick), Queue the operations (Admit, TryConsume, Consume,
--                  Expire, OnFirstByte, OnDone, Shutdown, SetDone); World is the step relation of
--                  producers and workers, and Runs the invariants of its runs.
--   Handlers       HandlerQueue and SchedulerTagFor of src/XrdClCurl/XrdClCurlUtil.{hh,cc}; it uses
--                  the scheduler's operations, and its proofs the scheduler's invariant.
--   Operation      CurlOperation of src/XrdClCurl/XrdClCurlOps.{hh,cc}. Operation/Text has its functions
--                  on URLs and error texts, FakeDns the fake addresses of connection callouts, Clock
--                  the time-outs and statistics, Redirect the redirects.
--   Headers        HeaderParser of the same files: Parse, Canonicalize, validHeaderByte.
--   Status         HTTPStatusIsError, HTTPStatusConvert and CurlCodeConvert of the same files.
--   Redact         ObfuscateAuth and StartsWithCI of the same files.
--   Checksum       src/common/XrdClCurlChecksum.hh.
--   Digest         src/common/XrdClCurlDigest.cc.
--   Verbs          src/XrdClCurl/XrdClCurlOptionsCache.{hh,cc}.
--   ChecksumCache  src/XrdClPelican/ChecksumCache.{hh,cc}.
--   Director       src/XrdClPelican/DirectorCache.{hh,cc}. Director/Paths has the URLs and the
--                  caches of all directors.
--   VectorRead     src/XrdClCurl/XrdClCurlOpReadV.cc: CurlVectorReadOp, which reads several chunks by
--                  one request. VectorRead/State has the data, the request and CalculateNextBuffer,
--                  Lines, PartHeader and Write the callback for the body, Results what is handed on.
--   Read           CurlReadOp of src/XrdClCurl/XrdClCurlOpRead.cc: the way of a body through the buffers
--                  of a client.
--   Put            CurlPutOp of src/XrdClCurl/XrdClCurlOpPut.cc: a body that a client gives in pieces.
--   Retry          src/XrdClPelican/RetryThread.{hh,cc}: deferred operations.
--   S3             the functions on URLs of src/XrdClS3/XrdClS3Factory.cc.
--   Link           src/XrdClPelican/PelicanHeaders.{hh,cc}: the Link header of a director.
--   Broker         src/XrdClPelican/BrokerCache.{hh,cc}.
--   Prelude        lists, byte strings, searches and association lists over the native numbers.
-- A class is a record with the fields of the class, a method a function from the record to the new
-- record and the result, and a name in CamelCase stands here in snake_case. A critical section under
-- a mutex is one function, and concurrency is any sequence of them; a call of HandlerQueue with
-- more than one gives back the steps that are left, and others may come between them.
--
-- Bounds. Counters of 64 bits and conversions to int and unsigned wrap where the code's do. Times
-- are ticks of a clock and do not wrap. The loops over texts run on fuel: the length of a Digest
-- or an Allow header, of a log line, of a Link header or of a query, since each pass takes at least
-- one character; the number of bytes to read from a pipe, since each pass reads at least one; more
-- than the length of a path for the tree of a director, since each level takes at least one
-- character. That the fuel is enough is proved for the Digest header, the log line, the pipe, the
-- tree, the query of S3 and a quoted string of a Link header. The loop of a vector read runs on the
-- length of the buffer, and the source's need not end: VectorRead/Ending says when it does.
--
-- Parameters. The doubles that weigh the tags and that average the rate of a transfer, with no law
-- assumed, and each random draw; what a connection callout answers; the base64 filter of OpenSSL;
-- the capacity of a pipe; whether XRootD has a timer error. The constants of XRootD, libcurl and
-- POSIX are names.
--
-- Not modelled: libcurl, SQLite, XML, JSON and socket I/O; threads, locks and condition variables
-- beyond the critical sections; the workers around libcurl; the classes of files and file systems
-- of the three plug-ins; the operations for metadata; the federation's metadata, the signatures of
-- S3; the look of HandlerQueue::Expire at paused transfers; and the text of the monitoring
-- summaries.
pub mod Prelude
pub mod Redact
pub mod Status
pub mod Headers
pub mod Scheduler
pub mod Handlers
pub mod Checksum
pub mod Digest
pub mod Verbs
pub mod ChecksumCache
pub mod Director
pub mod VectorRead
pub mod Link
pub mod Broker
pub mod Operation
pub mod Read
pub mod Put
pub mod Retry
pub mod S3
