-- ===== src/Operation/Totals.antt =====
-- src/XrdClCurl/XrdClCurlOps.cc: what the statistics of a transfer add up to.
use xrdcl_pelican.Prelude.{ℕ, ◌+◌, ◌^◌, ◌%◌, ◌≤◌, Bool, true, false, ◌≡◌, arith, ◌⊎◌, inl}
use xrdcl_pelican.Operation.Clock
use xrdcl_pelican.Operation.Clock.{
  Transfer, Statistics, statistics_reset, header_callback, update_bytes, set_paused, started,
  pre_header_of, post_header_of,
}

-- The clock, the bytes that came in, and the totals of the statistics so far.
pub record Ledger : Type 0 where
  pub now : ℕ
  pub seen : ℕ
  pub bytes_reported : ℕ
  pub time_reported : ℕ

-- What happens to a transfer, with what has been reported.
pub data Life {F : Type 0} (begin : ℕ) : Transfer F → Ledger → Type 0 where
  starts :
      (t : Transfer F)
      → t.bytes ≡ 0
      → t.received_header ≡ false
      → Life begin
          (started t begin)
          (record { now = begin; seen = 0; bytes_reported = 0; time_reported = 0 })
  hears :
      (t : Transfer F) (l : Ledger) (later : ℕ)
      → Life begin t l
      → l.now ≤ later
      → Life begin (header_callback t later) (record l { now = later })
  moves :
      (t : Transfer F) (l : Ledger) (n : ℕ)
      → Life begin t l
      → Life begin (update_bytes t n) (record l { seen = l.seen + n })
  pauses :
      (t : Transfer F) (l : Ledger) (on : Bool) (later : ℕ)
      → Life begin t l
      → l.now ≤ later
      → Life begin (set_paused t on later) (record l { now = later })
  reports :
      (t : Transfer F) (l : Ledger) (later : ℕ)
      → Life begin t l
      → l.now ≤ later
      → Life begin (statistics_reset t later).0 (record l {
        now = later;
        bytes_reported = l.bytes_reported + (statistics_reset t later).1.transferred;
        time_reported =
            l.time_reported
            + (statistics_reset t later).1.pre_header
            + (statistics_reset t later).1.post_header;
      })

module _ {F : Type 0} (begin : ℕ) where
  -- No header yet; a header since the last report; and a report since the header.
  abbrev Waits : Transfer F → Ledger → Type 0
  Waits t l =
      (t.received_header ≡ false)
      × (t.last_reset ≤ t.last_header_reset)
      × (t.last_header_reset ≤ l.now)
      × (begin + l.time_reported ≡ t.last_header_reset)

  abbrev Answered : Transfer F → Ledger → Type 0
  Answered t l =
      (t.received_header ≡ true)
      × (t.last_reset ≤ t.last_header_reset)
      × (t.last_header_reset ≤ t.header_start)
      × (t.header_start ≤ l.now)
      × (begin + l.time_reported ≡ t.last_header_reset)

  abbrev Reported : Transfer F → Ledger → Type 0
  Reported t l =
      (t.received_header ≡ true)
      × (t.last_header_reset ≡ t.header_start)
      × (t.header_start ≤ t.last_reset)
      × (t.last_reset ≤ l.now)
      × (begin + l.time_reported ≡ t.last_reset)

  abbrev Timed : Transfer F → Ledger → Type 0
  Timed t l = Waits t l ⊎ (Answered t l ⊎ Reported t l)

  header_callback-Timed :
      (t : Transfer F) (l : Ledger) (later : ℕ)
      → Timed t l
      → l.now ≤ later
      → Timed (header_callback t later) (record l { now = later })
  unfolding header_callback
  header_callback-Timed t l later h o = ground arith

  set_paused-Timed :
      (t : Transfer F) (l : Ledger) (on : Bool) (later : ℕ)
      → Timed t l
      → l.now ≤ later
      → Timed (set_paused t on later) (record l { now = later })
  unfolding set_paused
  set_paused-Timed t l true later h o = ground arith
  set_paused-Timed t l false later h o = ground arith

  report_total :
      (t : Transfer F) (l : Ledger) (later : ℕ)
      → Timed t l
      → l.now ≤ later
      → begin + (l.time_reported + pre_header_of t later + post_header_of t later) ≡ later
  report_total t l later h o = ground arith

  reset-Timed :
      (t : Transfer F) (l : Ledger) (later total : ℕ)
      → Timed t l
      → l.now ≤ later
      → begin + total ≡ later
      → Timed (Clock.reset_headers t later) (record l { now = later; time_reported = total })
  reset-Timed t l later total h o e = ground arith

  -- The bytes of the reports and those that wait for the next one are all that came in.
  abbrev Counted : Transfer F → Ledger → Type 0
  Counted t l = (l.bytes_reported + t.bytes) % 2 ^ 64 ≡ l.seen % 2 ^ 64

  same_bytes :
      (t : Transfer F) (on : Bool) (later : ℕ)
      → ((set_paused t on later).bytes ≡ t.bytes) × ((header_callback t later).bytes ≡ t.bytes)
  unfolding set_paused header_callback
  same_bytes t true later = ground arith
  same_bytes t false later = ground arith

  Life-Counted : (t : Transfer F) (l : Ledger) → Life begin t l → Counted t l
  unfolding update_bytes statistics_reset
  Life-Counted _ _ (starts t b r) = ground arith
  Life-Counted _ _ (hears t l later h o) =
      ground (arith, Life-Counted t l h, same_bytes t true later)
  Life-Counted _ _ (moves t l n h) = let e = Life-Counted t l h in omega arith
  Life-Counted _ _ (pauses t l on later h o) =
      ground (arith, Life-Counted t l h, same_bytes t on later)
  Life-Counted _ _ (reports t l later h o) = let e = Life-Counted t l h in omega arith

  Life-Timed : (t : Transfer F) (l : Ledger) → Life begin t l → Timed t l
  unfolding update_bytes statistics_reset
  Life-Timed _ _ (starts t b r) = inl (r, omega arith, omega arith, omega arith)
  Life-Timed _ _ (hears t l later h o) = header_callback-Timed t l later (Life-Timed t l h) o
  Life-Timed _ _ (moves t l n h) = Life-Timed t l h
  Life-Timed _ _ (pauses t l on later h o) = set_paused-Timed t l on later (Life-Timed t l h) o
  Life-Timed _ _ (reports t l later h o) =
      reset-Timed t l later (l.time_reported + pre_header_of t later + post_header_of t later)
        (Life-Timed t l h) o (report_total t l later (Life-Timed t l h) o)

  -- The statistics lose nothing and count nothing twice: in a transfer that began at a time, with its
  -- headers, bytes, pauses and reports in any order, the times before and after the header of all
  -- reports, with those of a further report now, add up to the time since the beginning, and the
  -- bytes of all reports to the bytes that came in, modulo 2^64.
  pub Life-statistics_reset :
      (t : Transfer F) (l : Ledger) (later : ℕ)
      → Life begin t l
      → l.now ≤ later
      → (begin
            + (l.time_reported
                + (statistics_reset t later).1.pre_header
                + (statistics_reset t later).1.post_header)
          ≡ later)
        × ((l.bytes_reported + (statistics_reset t later).1.transferred) % 2 ^ 64 ≡ l.seen % 2 ^ 64)
  unfolding statistics_reset
  Life-statistics_reset t l later h o =
      (report_total t l later (Life-Timed t l h) o, Life-Counted t l h)
