-- ===== src/Handlers.antt =====
-- src/XrdClCurl/XrdClCurlUtil.{hh,cc}: HandlerQueue, the queue of operations that a worker polls
-- through a pipe, with or without a TagScheduler, and SchedulerTagFor. An operation here is the first
-- critical section of a call; what is left to do comes back as a list of steps. Tag has the tag of an URL,
-- Balance the theorems on runs of the queue. The handles of libcurl and the condition variables are
-- left out, and so is the look of Expire at paused transfers, which leaves the queue alone.
pub mod Tag
pub mod Steps
pub mod Begun
pub mod Finished
pub mod Balance
mod Tests
use xrdcl_pelican.Prelude.{
  ℕ, zero, suc, ◌+◌, ◌-◌, ◌%◌, ◌^◌, min, Bool, true, false, not, ◌&&◌, ◌||◌, Option, none, some,
  List, [], ◌∷◌, ◌++◌,
}
use xrdcl_pelican.Prelude.Tests.{ltb, leb, ◌==◌, if◌then◌else◌}
use xrdcl_pelican.Prelude.Lists.{length}
use xrdcl_pelican.Prelude.Bytes.{Bytes}
use xrdcl_pelican.Scheduler.State.{Doubles, Operation, TagScheduler, increment64}
use xrdcl_pelican.Scheduler.Queue.{returned, waits}
use xrdcl_pelican.Scheduler.Queue
use Tag.{scheduler_tag_for}

-- The three counters are static; they are kept here, for the one queue. `pipe` is the number of
-- bytes in the pipe.
pub record HandlerQueue (F : Type 0) : Type 0 where
  pub is_shutdown : Bool
  pub ops : List Operation
  pub ops_consumed : ℕ
  pub ops_produced : ℕ
  pub ops_rejected : ℕ
  pub max_pending_ops : ℕ
  pub pipe : ℕ
  pub scheduler : Option (TagScheduler F)

-- Read of one byte; an empty pipe gives EAGAIN. A read that is interrupted is made again.
abbrev pub drain : ℕ → ℕ
drain pipe = pipe - 1

-- The loop of drains behind the scheduler's Expire.
unfoldable pub drain_each {ℓ} : {A : Type ℓ} → List A → ℕ → ℕ
drain_each [] pipe = pipe
drain_each (x ∷ xs) pipe = drain_each xs (drain pipe)

-- The reads of up to 64 bytes, until so many are read or the pipe is empty; each pass that goes on
-- reads at least one.
unfoldable pub throw_away : ℕ → ℕ → ℕ → ℕ
throw_away zero bytes_to_read pipe = pipe
throw_away (suc fuel) bytes_to_read pipe =
    let n = min (min 64 bytes_to_read) pipe in
    let rest = throw_away fuel (bytes_to_read - n) (pipe - n) in
    if bytes_to_read == 0 || n == 0 then pipe else rest

-- `std::remove_if`: the operations that stay, and those whose expiry is past.
unfoldable pub split_expired : ℕ → List Operation → List Operation × List Operation
split_expired now [] = ([], [])
split_expired now (op ∷ ops) =
    let (kept, expired) = split_expired now ops in
    if ltb op.expiry now then (kept, op ∷ expired) else (op ∷ kept, expired)

-- Write of one byte into a pipe of `capacity` bytes; a full pipe gives EAGAIN.
abbrev pub notify : ℕ → ℕ → ℕ
notify capacity pipe = if ltb pipe capacity then pipe + 1 else pipe

-- What a call has still to do when it leaves its first critical section, step by step: a section
-- under m_mutex that notifies or drains, or an atomic counter. Other calls may come between two.
pub data Step : Type 0 where
  notifies counts_produced counts_rejected drains_consumed counts_consumed : Step
  drains_expired : List Operation → Step

-- What the last pass of the scheduler gives; a pass that would wait on ends by its deadline.
abbrev pub pass_result : Queue.Pass → Option Operation
pass_result waits = none
pass_result (returned op) = op

module _ {F : Type 0} where
  unfoldable pub make : ℕ → Option (TagScheduler F) → HandlerQueue F
  make max_pending scheduler = record {
    is_shutdown = false;
    ops = [];
    ops_consumed = 0;
    ops_produced = 0;
    ops_rejected = 0;
    max_pending_ops = max_pending;
    pipe = 0;
    scheduler = scheduler;
  }

  unfoldable pub finish : ℕ → Step → HandlerQueue F → HandlerQueue F
  finish capacity notifies q = record q { pipe = notify capacity q.pipe }
  finish capacity counts_produced q = record q { ops_produced = increment64 q.ops_produced }
  finish capacity counts_rejected q = record q { ops_rejected = increment64 q.ops_rejected }
  finish capacity drains_consumed q = record q {
    pipe = drain q.pipe;
    ops_consumed = increment64 q.ops_consumed;
  }
  finish capacity counts_consumed q = record q { ops_consumed = increment64 q.ops_consumed }
  finish capacity (drains_expired expired) q = record q { pipe = drain_each expired q.pipe }

  -- The scheduler's answer to Admit.
  unfoldable pub admitted :
      HandlerQueue F → TagScheduler F × Bool → HandlerQueue F × Bool × List Step
  admitted q (s, accepted) = (
    record q { scheduler = some s },
    accepted,
    if accepted then notifies ∷ counts_produced ∷ [] else counts_rejected ∷ [],
  )

  -- The end of the wait for room, at the time `now`: `none` is a wait that goes on.
  unfoldable pub produce_fifo :
      ℕ → HandlerQueue F → Operation → ℕ → Option (HandlerQueue F × Bool × List Step)
  produce_fifo capacity q op now =
      if not (ltb (length q.ops) q.max_pending_ops || leb op.expiry now)
      then none
      else if ltb op.expiry now
      then some (q, false, counts_rejected ∷ [])
      else some (
        record q { ops = q.ops ++ (op ∷ []); pipe = notify capacity q.pipe },
        true,
        counts_produced ∷ [],
      )

  -- `url` is the operation's.
  unfoldable pub try_produce :
      ℕ → HandlerQueue F → Bytes → Operation → ℕ → Option (HandlerQueue F × Bool × List Step)
  unfolding admitted produce_fifo
  try_produce capacity q url op now = elim q.scheduler [
    | none ↦ produce_fifo capacity q op now
    | some s ↦ some (admitted q (Queue.admit s (scheduler_tag_for url) (some op)))
  ]

  -- The operation, where Produce has to fail it with errRetry.
  unfoldable pub produce :
      ℕ
      → HandlerQueue F
      → Bytes
      → Operation
      → ℕ
      → Option (HandlerQueue F × Option Operation × List Step)
  produce capacity q url op now = elim (try_produce capacity q url op now) [
    | none ↦ none
    | some (q', accepted, steps) ↦ some (q', if accepted then none else some op, steps)
  ]

  -- What TryConsume or Consume of the scheduler has given.
  unfoldable pub given :
      HandlerQueue F
      → TagScheduler F × Option Operation
      → HandlerQueue F × Option Operation × List Step
  given q (s, none) = (record q { scheduler = some s }, none, [])
  given q (s, some op) = (record q { scheduler = some s }, some op, drains_consumed ∷ [])

  unfoldable pub take_fifo :
      HandlerQueue F → List Operation → HandlerQueue F × Option Operation × List Step
  take_fifo q [] = (q, none, [])
  take_fifo q (op ∷ rest) =
      (record q { ops = rest; pipe = drain q.pipe }, some op, counts_consumed ∷ [])

  -- The operations that Expire fails with errOperationExpired.
  unfoldable pub expire : HandlerQueue F → ℕ → HandlerQueue F × List Operation × List Step
  expire q now = elim q.scheduler [
    | none ↦
        let (kept, expired) = split_expired now q.ops in
        (
          record q { ops = kept; pipe = throw_away (length expired) (length expired) q.pipe },
          expired,
          [],
        )
    | some s ↦
        let (s', expired) = Queue.expire s now in
        (record q { scheduler = some s' }, expired, drains_expired expired ∷ [])
  ]

  unfoldable pub shutdown : HandlerQueue F → HandlerQueue F
  shutdown q = record q { is_shutdown = true }

  -- The "pending" of GetMonitoringJson, a difference of two std::uint64_t.
  unfoldable pub reported_pending : HandlerQueue F → ℕ
  reported_pending q = (q.ops_produced + 2 ^ 64 - q.ops_consumed) % 2 ^ 64

module _ {F : Type 0} ⦃d : Doubles F⦄ where
  unfoldable pub try_consume :
      HandlerQueue F → (F → F) → HandlerQueue F × Option Operation × List Step
  unfolding given take_fifo
  try_consume q draw = elim q.scheduler [
    | none ↦ take_fifo q q.ops
    | some s ↦ given q (Queue.try_consume s draw)
  ]

  -- The end of the wait of Consume.
  unfoldable pub consume : HandlerQueue F → (F → F) → HandlerQueue F × Option Operation × List Step
  unfolding given take_fifo
  consume q draw = elim q.scheduler [
    | none ↦ if q.is_shutdown then (q, none, []) else take_fifo q q.ops
    | some s ↦ let (s', p) = Queue.consume_pass s draw in given q (s', pass_result p)
  ]
