-- ===== src/Retry.antt =====
-- src/XrdClPelican/RetryThread.{hh,cc}: the thread that fires deferred operations. Times and durations
-- are nanoseconds, an operation is a number, and none is the empty function. The heap of
-- std::priority_queue is an ordered list; entries with one deadline, whose order the library leaves
-- open, keep the order in which they came. The base delay is taken to be so small that its product
-- fits in 64 bits.
pub mod Drained
mod Tests
use xrdcl_pelican.Prelude.{
  ℕ, ◌+◌, ◌*◌, ◌^◌, Bool, true, false, not, ◌&&◌, ◌||◌, Option, none, some, List, [], ◌∷◌, min,
}
use xrdcl_pelican.Prelude.Tests.{leb, ltb, if◌then◌else◌}

pub record Entry : Type 0 where
  pub deadline : ℕ
  pub operation : Option ℕ

pub record RetryState : Type 0 where
  pub started : Bool
  pub shutdown : Bool
  pub queue : List Entry
  pub base_delay : ℕ

abbrev pub new_state : RetryState
new_state = record { started = false; shutdown = false; queue = []; base_delay = 100 * 10 ^ 6 }

-- state(): the state at the pointer, or a fresh one.
abbrev pub state : Option RetryState → RetryState
state none = new_state
state (some s) = s

unfoldable pub start : Option RetryState → RetryState
start p = record (state p) { started = true }

-- Shutdown up to the join of the thread; the second part runs once the thread has returned.
abbrev pub asked : RetryState → Option RetryState
asked s = if s.started then some (record s { shutdown = true }) else none

unfoldable pub shut_down : Option RetryState → Option RetryState
shut_down none = none
shut_down (some s) = asked s

-- The push of a priority queue whose top has the earliest deadline.
unfoldable pub push : Entry → List Entry → List Entry
push e [] = e ∷ []
push e (x ∷ xs) = let rest = push e xs in if ltb e.deadline x.deadline then e ∷ x ∷ xs else x ∷ rest

unfoldable pub submit : Option RetryState → ℕ → ℕ → Option ℕ → RetryState
submit p now delay operation =
    let s : RetryState = state p in
    record s { queue = push (record { deadline = now + delay; operation = operation }) s.queue }

unfoldable pub set_base_delay : Option RetryState → ℕ → RetryState
set_base_delay p base = record (state p) { base_delay = base }

unfoldable pub get_base_delay : Option RetryState → ℕ
get_base_delay p = (state p).base_delay

abbrev pub max_delay : ℕ
max_delay = 30 * 10 ^ 9

unfoldable pub compute_delay : Option RetryState → ℕ → ℕ
compute_delay p attempt = min (get_base_delay p * 2 ^ min attempt 15) max_delay

abbrev pub is_due : List Entry → ℕ → Bool
is_due [] now = false
is_due (e ∷ queue) now = leb e.deadline now

-- Run returns.
abbrev pub is_drained : List Entry → Bool
is_drained [] = true
is_drained (e ∷ queue) = false

unfoldable pub returns : RetryState → Bool
returns s = s.shutdown && is_drained s.queue

-- The predicate of the wait for a deadline; the wait ends at the deadline too.
unfoldable pub wakes : RetryState → ℕ → Bool
wakes s now = s.shutdown || is_due s.queue now

-- The entry that a pass of Run takes, where one is due.
abbrev pub popped : RetryState → List Entry → RetryState × Option Entry
popped s [] = (s, none)
popped s (e ∷ queue) = (record s { queue = queue }, some e)

unfoldable pub take_due : RetryState → ℕ → RetryState × Option Entry
take_due s now = if is_due s.queue now then popped s s.queue else (s, none)
