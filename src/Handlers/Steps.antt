-- ===== src/Handlers/Steps.antt =====
-- src/XrdClCurl/XrdClCurlUtil.cc: what each operation of HandlerQueue does to the number of waiting
-- operations, to the pipe and to the counters.
use xrdcl_pelican.Prelude.{
  ℕ, zero, suc, ◌+◌, ◌-◌, ◌%◌, ◌^◌, ◌≤◌, min, ◌≡◌, ap, Bool, true, false, Option, none, some, List,
  [], ◌∷◌, ◌++◌, arith,
}
use xrdcl_pelican.Prelude.Lists.{length}
use xrdcl_pelican.Prelude.Bytes.{Bytes}
use xrdcl_pelican.Scheduler.State.{Doubles, Operation, TagScheduler, tag_state}
use xrdcl_pelican.Scheduler.Queue.{Pass, returned, waits}
use xrdcl_pelican.Scheduler.Queue
use xrdcl_pelican.Scheduler.Pick.{pick_tag}
use xrdcl_pelican.Scheduler.Cases.{front, take_front_cases, try_consume_cases, consume_pass_cases}
use xrdcl_pelican.Scheduler.Sweep.{total-sweep_tags}
use xrdcl_pelican.Scheduler.Invariant.{IsValid, queued-le-total}
use xrdcl_pelican.Handlers
use xrdcl_pelican.Handlers.{
  HandlerQueue, Step, notifies, counts_produced, drains_consumed, counts_consumed, drains_expired,
}

-- 1 for a thing that is there.
abbrev pub one_of {ℓ} : {A : Type ℓ} → Option A → ℕ
one_of none = 0
one_of (some a) = 1

abbrev pub one_if : Bool → ℕ
one_if true = 1
one_if false = 0

-- The number of operations that wait: the scheduler's, or the length of the deque.
abbrev pub waiting_in : {F : Type 0} → List Operation → Option (TagScheduler F) → ℕ
waiting_in ops none = length ops
waiting_in ops (some s) = s.total_pending

abbrev pub waiting : {F : Type 0} → HandlerQueue F → ℕ
waiting q = waiting_in q.ops q.scheduler

abbrev pub SchedulerIsValid : {F : Type 0} → Option (TagScheduler F) → Type 0
SchedulerIsValid none = Unit
SchedulerIsValid (some s) = IsValid s

-- What the steps of a call, and of all calls, weigh.
abbrev pub total : (Step → ℕ) → List Step → ℕ
total w [] = 0
total w (s ∷ steps) = w s + total w steps

abbrev pub sums : (Step → ℕ) → List (List Step) → ℕ
sums w [] = 0
sums w (call ∷ calls) = total w call + sums w calls

pub sums-append :
    (w : Step → ℕ) (xs ys : List (List Step)) → sums w (xs ++ ys) ≡ sums w xs + sums w ys
sums-append w [] ys = omega arith
sums-append w (x ∷ xs) ys = omega (arith, sums-append w xs ys)

-- The bytes still to be written, those still to be read, and what the counters still lack.
abbrev pub writes : Step → ℕ
writes notifies = 1
writes _ = 0

abbrev pub reads : Step → ℕ
reads drains_consumed = 1
reads (drains_expired expired) = length expired
reads _ = 0

abbrev pub producing : Step → ℕ
producing counts_produced = 1
producing _ = 0

abbrev pub consuming : Step → ℕ
consuming drains_consumed = 1
consuming counts_consumed = 1
consuming _ = 0

-- Without a scheduler: a byte in the pipe for each operation of the deque, and no call with bytes
-- still to write or to read.
abbrev pub Exact : {F : Type 0} → Option (TagScheduler F) → ℕ → ℕ → ℕ → ℕ → Type 0
Exact none pipe ops r w = (pipe ≡ ops) × (r ≡ 0) × (w ≡ 0)
Exact (some s) pipe ops r w = Unit

pub Exact-step :
    {F : Type 0} (o : Option (TagScheduler F)) (p n r w p' n' r' w' : ℕ)
    → ((p ≡ n) × (r ≡ 0) × (w ≡ 0) → (p' ≡ n') × (r' ≡ 0) × (w' ≡ 0))
    → Exact o p n r w
    → Exact o p' n' r' w'
Exact-step none p n r w p' n' r' w' f x = f x
Exact-step (some s) p n r w p' n' r' w' f x = tt

-- The bytes in the pipe and those that calls in progress are still to write are no fewer than the
-- waiting operations and the bytes that calls in progress are still to read; without a
-- scheduler the pipe has just a byte for each waiting operation; and every operation
-- that was produced, or is still to be counted so, was consumed, is still to be counted so, has gone
-- by Expire, or waits. The counters have 64 bits.
pub record Balanced {F : Type 0} (q : HandlerQueue F) (calls : List (List Step)) (gone : ℕ)
    : Type 0 where
  pub valid : SchedulerIsValid q.scheduler
  pub woken : waiting q + sums reads calls ≤ q.pipe + sums writes calls
  pub exact : Exact q.scheduler q.pipe (length q.ops) (sums reads calls) (sums writes calls)
  pub counted :
      (q.ops_produced + sums producing calls) % 2 ^ 64
      ≡ (q.ops_consumed + sums consuming calls + gone + waiting q) % 2 ^ 64

module _ {F : Type 0} where
  pub admit_total :
      (s : TagScheduler F) (tag : Bytes) (op : Operation)
      → (Queue.admit s tag (some op)).0.total_pending
        ≡ s.total_pending + one_if (Queue.admit s tag (some op)).1
  unfolding Queue.admit Queue.reject_global Queue.reject_per_tag Queue.enqueue
  admit_total s tag op = ground arith

  take_front_total :
      (s : TagScheduler F) (tag : Bytes)
      → IsValid s
      → (Queue.take_front s tag (tag_state tag s.tags)).0.total_pending
          + one_of (Queue.take_front s tag (tag_state tag s.tags)).1
        ≡ s.total_pending
  take_front_total s tag v =
      take_front_cases (λ r. r.0.total_pending + one_of r.1 ≡ s.total_pending) s tag
        (tag_state tag s.tags) (λ _. omega arith)
        (λ op rest e. omega (arith, ap length e, v.counted, queued-le-total tag s.tags))

  drop_idle_total :
      (s : TagScheduler F) (tag : Bytes) → (Queue.drop_idle s tag).total_pending ≡ s.total_pending
  unfolding Queue.drop_idle
  drop_idle_total s tag = ground arith

  pub expire_total :
      (s : TagScheduler F) (now : ℕ)
      → IsValid s
      → (Queue.expire s now).0.total_pending + length (Queue.expire s now).1 ≡ s.total_pending
  unfolding Queue.expire
  expire_total s now v = omega (arith, v.counted, total-sweep_tags now s.tags)

module _ {F : Type 0} ⦃d : Doubles F⦄ where
  pub try_total :
      (s : TagScheduler F) (draw : F → F)
      → IsValid s
      → (Queue.try_consume s draw).0.total_pending + one_of (Queue.try_consume s draw).1
        ≡ s.total_pending
  try_total s draw v =
      try_consume_cases (λ r. r.0.total_pending + one_of r.1 ≡ s.total_pending) s draw (omega arith)
        (λ _ _. take_front_total s (pick_tag s draw) v)

  pub pass_total :
      (s : TagScheduler F) (draw : F → F)
      → IsValid s
      → (Queue.consume_pass s draw).0.total_pending
          + one_of (Handlers.pass_result (Queue.consume_pass s draw).1)
        ≡ s.total_pending
  pass_total s draw v =
      consume_pass_cases
        (λ r. r.0.total_pending + one_of (Handlers.pass_result r.1) ≡ s.total_pending) s draw
        (λ _. omega arith) (λ _ _. omega arith)
        (λ _ _. omega (
          arith,
          drop_idle_total (front s draw).0 (pick_tag s draw),
          take_front_total s (pick_tag s draw) v,
        ))

pub drain_each_lem {ℓ} :
    {A : Type ℓ} (xs : List A) (pipe : ℕ) → Handlers.drain_each xs pipe ≡ pipe - length xs
unfolding Handlers.drain_each
drain_each_lem [] pipe = omega arith
drain_each_lem (x ∷ xs) pipe = omega (arith, drain_each_lem xs (pipe - 1))

-- As many passes as bytes are enough.
pub throw_away_lem : (fuel n pipe : ℕ) → n ≤ fuel → Handlers.throw_away fuel n pipe ≡ pipe - n
unfolding Handlers.throw_away
throw_away_lem zero n pipe h = omega arith
throw_away_lem (suc fuel) n pipe h =
    ground (arith, throw_away_lem fuel (n - min (min 64 n) pipe) (pipe - min (min 64 n) pipe))

pub split_expired_total :
    (now : ℕ) (ops : List Operation)
    → length (Handlers.split_expired now ops).0 + length (Handlers.split_expired now ops).1
      ≡ length ops
unfolding Handlers.split_expired
split_expired_total now [] = omega arith
split_expired_total now (op ∷ ops) = ground (arith, split_expired_total now ops)
