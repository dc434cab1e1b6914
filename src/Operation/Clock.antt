-- ===== src/Operation/Clock.antt =====
-- src/XrdClCurl/XrdClCurlOps.{hh,cc}: the times of a transfer. Times are ticks of the steady clock,
-- which does not run backwards, and 0 is the time_point{} of the code. The doubles of the average
-- rate are a type with the operations that TransferStalled uses.
use xrdcl_pelican.Prelude.{ℕ, ◌+◌, ◌-◌, ◌*◌, ◌%◌, ◌^◌, Bool, true, false, not, ◌&&◌, ◌||◌, max}
use xrdcl_pelican.Prelude.Tests.{ltb, ◌==◌, if◌then◌else◌}

-- CurlOperation::OpError.
pub data OpError : Type 0 where
  err_none err_header_timeout err_callback err_operation_timeout : OpError
  err_transfer_client_stall err_transfer_stall err_transfer_slow : OpError

pub record Transfer (F : Type 0) : Type 0 where
  pub header_expiry : ℕ
  pub operation_expiry : ℕ
  pub received_header : Bool
  pub paused : Bool
  pub error : OpError
  pub bytes : ℕ
  pub last_reset : ℕ
  pub last_header_reset : ℕ
  pub start_op : ℕ
  pub header_start : ℕ
  pub header_lastop : ℕ
  pub pause_start : ℕ
  pub pause_duration : ℕ
  pub last_xfer : ℕ
  pub last_xfer_count : ℕ
  pub ema_rate : F

-- What StatisticsReset returns.
pub record Statistics : Type 0 where
  pub transferred : ℕ
  pub pre_header : ℕ
  pub post_header : ℕ
  pub pause : ℕ

-- The error that stands, or the one that is new.
abbrev pub first_error : OpError → OpError → OpError
first_error err_none e = e
first_error e _ = e

-- CalculateExpiry of a timespec.
unfoldable pub calculate_expiry : ℕ → ℕ → ℕ → ℕ
calculate_expiry now tv_sec tv_nsec =
    if tv_sec == 0 && tv_nsec == 0 then now + 30 * 10 ^ 9 else now + tv_sec * 10 ^ 9 + tv_nsec

module _ {F : Type 0} where
  -- The exchange happens only where the deadline becomes later.
  unfoldable pub extend_deadline : Transfer F → ℕ → ℕ → ℕ → Transfer F
  extend_deadline t now tv_sec tv_nsec =
      let expiry = calculate_expiry now tv_sec tv_nsec in
      if ltb t.header_expiry expiry then record t { header_expiry = expiry } else t

  -- The clocks that Setup and Redirect start.
  abbrev pub started : Transfer F → ℕ → Transfer F
  started t now = record t {
    last_header_reset = now;
    last_reset = now;
    start_op = now;
    header_start = now;
    header_lastop = now;
  }

  unfoldable pub setup : Transfer F → ℕ → Transfer F
  setup t now = started (record t { pause_start = 0 }) now

  -- The clocks of HeaderCallback.
  unfoldable pub header_callback : Transfer F → ℕ → Transfer F
  header_callback t now =
      let t' : Transfer F =
        if t.received_header then t else record t { received_header = true; header_start = now } in
      record t' { header_lastop = now }

  unfoldable pub update_bytes : Transfer F → ℕ → Transfer F
  update_bytes t n = record t { bytes = (t.bytes + n) % 2 ^ 64 }

  unfoldable pub set_paused : Transfer F → Bool → ℕ → Transfer F
  set_paused t true now = record t { paused = true; pause_start = now }
  set_paused t false now = if t.pause_start == 0 then record t { paused = false } else record t {
    paused = false;
    pause_duration = t.pause_duration + (now - t.pause_start);
    pause_start = 0;
  }

  -- The two header times, and the resets behind them.
  abbrev pub pre_header_of : Transfer F → ℕ → ℕ
  pre_header_of t now =
      if t.received_header then t.header_start - t.last_header_reset else now - t.last_header_reset

  abbrev pub post_header_of : Transfer F → ℕ → ℕ
  post_header_of t now =
      if t.received_header
      then now - (if ltb t.last_reset t.header_start then t.header_start else t.last_reset)
      else 0

  abbrev pub reset_headers : Transfer F → ℕ → Transfer F
  reset_headers t now =
      if t.received_header
      then record t {
        last_header_reset =
            if ltb t.last_header_reset t.header_start then t.header_start else t.last_header_reset;
        last_reset = now;
      }
      else record t { last_header_reset = now }

  abbrev pub pause_of : Transfer F → ℕ → ℕ
  pause_of t now = if t.paused then t.pause_duration + (now - t.pause_start) else t.pause_duration

  abbrev pub reset_pause : Transfer F → ℕ → Transfer F
  reset_pause t now = record t {
    pause_start = if t.paused then now else t.pause_start;
    pause_duration = 0;
    bytes = 0;
  }

  unfoldable pub statistics_reset : Transfer F → ℕ → Transfer F × Statistics
  statistics_reset t now = (
    reset_pause (reset_headers t now) now,
    record {
      transferred = t.bytes;
      pre_header = pre_header_of t now;
      post_header = post_header_of t now;
      pause = pause_of t now;
    },
  )

  unfoldable pub header_timeout_expired : Transfer F → ℕ → Transfer F × Bool
  header_timeout_expired t now =
      if not t.received_header && ltb t.header_expiry now
      then (record t { error = first_error t.error err_header_timeout }, true)
      else (t, false)

  unfoldable pub operation_timeout_expired : Transfer F → ℕ → Transfer F × Bool
  operation_timeout_expired t now =
      if t.operation_expiry == 0 || not t.received_header
      then (t, false)
      else if ltb t.operation_expiry now
      then (record t { error = first_error t.error err_operation_timeout }, true)
      else (t, false)

-- The doubles: a rate below zero, a rate below the minimum, the first rate of a count in a time, and
-- the average after a count in a time.
module _ {F : Type 0} (is_negative is_slow : F → Bool) (first_rate : ℕ → ℕ → F)
    (next_rate : F → ℕ → ℕ → F) (stall_interval : ℕ) where
  abbrev slow_check : Transfer F → F → Transfer F × Bool
  slow_check t rate =
      let t' : Transfer F = record t { ema_rate = rate } in
      if is_slow rate
      then (record t' { error = first_error t.error err_transfer_slow }, true)
      else (t', false)

  -- The average behind `diff` new bytes in `elapsed`.
  abbrev rate_check : Transfer F → ℕ → ℕ → ℕ → ℕ → Transfer F × Bool
  rate_check t xfer diff elapsed now =
      let since = now - t.header_lastop in
      if ltb since stall_interval
      then (t, false)
      else slow_check t (
          next_rate (if is_negative t.ema_rate then first_rate xfer since else t.ema_rate) diff
            elapsed)

  unfoldable pub transfer_stalled : Transfer F → ℕ → ℕ → Transfer F × Bool
  transfer_stalled t xfer now =
      let last = if t.last_xfer == 0 then t.header_lastop else t.last_xfer in
      let moved : Transfer F = record t { last_xfer_count = xfer; last_xfer = now } in
      let still : Transfer F = record t { last_xfer = last } in
      if ltb t.last_xfer_count xfer
      then rate_check moved xfer (xfer - t.last_xfer_count) (now - last) now
      else if ltb stall_interval (now - last)
      then (
        record still {
          error =
              first_error t.error
                (if t.paused then err_transfer_client_stall else err_transfer_stall);
        },
        true,
      )
      else (still, false)

  -- XferInfoCallback: true aborts the transfer.
  unfoldable pub xfer_info_callback : Transfer F → ℕ → ℕ → ℕ → Transfer F × Bool
  xfer_info_callback t dlnow ulnow now =
      let (t1, header_expired) = header_timeout_expired t now in
      let (t2, operation_expired) = operation_timeout_expired t1 now in
      let (t3, stalled) = transfer_stalled t2 (max dlnow ulnow) now in
      if header_expired then (t1, true) else if operation_expired then (t2, true) else (t3, stalled)
