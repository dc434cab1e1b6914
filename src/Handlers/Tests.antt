-- ===== src/Handlers/Tests.antt =====
-- A run of a queue without a scheduler, and one with it, with numbers in the place of doubles.
use xrdcl_pelican.Prelude.{ℕ, ◌+◌, ◌*◌, ◌-◌, ◌/◌, ◌≡◌, refl, false, none, some, List, [], ◌∷◌}
use xrdcl_pelican.Prelude.Tests.{ltb, leb}
use xrdcl_pelican.Prelude.Lists.{length}
use xrdcl_pelican.Prelude.Bytes.{codes}
use xrdcl_pelican.Prelude.Int.{pos}
use xrdcl_pelican.Prelude.Assoc.{lookup, insert}
use xrdcl_pelican.Scheduler.State
use xrdcl_pelican.Scheduler.State.{Doubles, Operation, TagScheduler, percent_to_cap}
use xrdcl_pelican.Scheduler.Pick.{pick_tag, scan, eligible, walk}
use xrdcl_pelican.Scheduler.Queue
use xrdcl_pelican.Handlers
use xrdcl_pelican.Handlers.{
  HandlerQueue, Step, notifies, drains_consumed, try_consume, expire, finish, make,
}
use xrdcl_pelican.Handlers.Steps.{waiting}

instance abbrev natural_doubles : Doubles ℕ
natural_doubles = record {
  zero_f = 0;
  one_f = 1;
  noise = 1;
  add = λ a b. a + b;
  sub = λ a b. a - b;
  mul = λ a b. a * b;
  quot = λ a b. a / b;
  negate = λ a. a;
  exp = λ a. a;
  of_int = λ n. n;
  seconds = λ n. n;
  le_f = leb;
  lt_f = ltb;
}

abbrev operation : ℕ → ℕ → Operation
operation n t = record {
  id = n;
  expiry = t;
  on_first_byte_hook = none;
  on_done_hook = none;
  first_byte = false;
  done_hook_fired = false;
}

abbrev empty_queue : HandlerQueue ℕ
empty_queue = record {
  is_shutdown = false;
  ops = [];
  ops_consumed = 0;
  ops_produced = 0;
  ops_rejected = 0;
  max_pending_ops = 50;
  pipe = 0;
  scheduler = none;
}

-- The first operation is in the queue and counted; the second, which expires at the time 20, is in
-- the queue and not yet counted when a worker takes the first.
abbrev one_queued : HandlerQueue ℕ
one_queued = record empty_queue { ops = operation 1 100 ∷ []; pipe = 1 }

abbrev one_counted : HandlerQueue ℕ
one_counted = record one_queued { ops_produced = 1 }

abbrev two_queued : HandlerQueue ℕ
two_queued = record one_counted { ops = operation 1 100 ∷ operation 2 20 ∷ []; pipe = 2 }

abbrev one_taken : HandlerQueue ℕ
one_taken = record two_queued { ops = operation 2 20 ∷ []; pipe = 1 }

abbrev taken_counted : HandlerQueue ℕ
taken_counted = record one_taken { ops_consumed = 1 }

abbrev all_counted : HandlerQueue ℕ
all_counted = record taken_counted { ops_produced = 2 }

-- The second expires.
abbrev emptied : HandlerQueue ℕ
emptied = (expire all_counted 30).0

abbrev calls : List (List Step)
calls = (expire all_counted 30).2 ∷ [] ∷ [] ∷ [] ∷ []

abbrev gone : ℕ
gone = 0 + length (expire all_counted 30).1

-- With a scheduler, an operation can be taken, and its byte be looked for, before that is written: the
-- byte then stays, and nothing waits.
abbrev workers : TagScheduler ℕ
workers =
    State.make 4
      (record {
        per_tag_starving_percent = pos 25;
        per_tag_active_percent = pos 90;
        pending_buffer_size = pos 3;
        per_tag_pending_size = pos 2;
        ema_window = pos 30;
      })
      0

abbrev admitted_one : HandlerQueue ℕ
admitted_one = record empty_queue {
  scheduler = some (Queue.admit workers (codes "a") (some (operation 1 9))).0;
}

abbrev overtaken : HandlerQueue ℕ
overtaken = finish 4096 notifies (finish 4096 drains_consumed (try_consume admitted_one (λ t. 0)).0)

byte_left : (overtaken.pipe ≡ 1) × (waiting overtaken ≡ 0)
unfolding finish try_consume Queue.try_consume Queue.admit State.make percent_to_cap pick_tag scan
    eligible walk lookup insert State.tag_state
byte_left = (refl, refl)
