-- ===== src/Scheduler/Tests.antt =====
-- Runs of the scheduler at concrete inputs, with numbers in the place of doubles.
use xrdcl_pelican.Prelude.{ℕ, ◌+◌, ◌-◌, ◌*◌, ◌/◌, ◌≡◌, refl, ◌⊎◌, false, none, some, List, []}
use xrdcl_pelican.Prelude.Tests.{ltb, leb}
use xrdcl_pelican.Prelude.Int.{pos}
use xrdcl_pelican.Prelude.Lists.{length, All}
use xrdcl_pelican.Prelude.Bytes.{Bytes, codes}
use xrdcl_pelican.Prelude.Assoc.{lookup, insert}
use xrdcl_pelican.Scheduler.State.{
  Doubles, Config, Operation, TagScheduler, tag_state, make, percent_to_cap,
}
use xrdcl_pelican.Scheduler.Pick.{eligible, scan, walk, pick_tag}
use xrdcl_pelican.Scheduler.Queue.{admit, try_consume, consume_pass, expire}
use xrdcl_pelican.Scheduler.Counters.{active_of, starving_of}
use xrdcl_pelican.Scheduler.Sweep.{IsCurrent, IsExpired}
use xrdcl_pelican.Scheduler.Invariant.{IsValid, make-IsValid, admit-IsValid}
use xrdcl_pelican.Scheduler.Dispatch.{
  Ready, Blocked, pick_tag-Ready, Outcome, try_consume-Outcome, try_consume_progress,
}
use xrdcl_pelican.Scheduler.World.{
  World, Reach, here, next, admits, tries, start, handed, in_flight, in_starvation,
}
use xrdcl_pelican.Scheduler.Caps.{AtMost}
use xrdcl_pelican.Scheduler.Runs.{Reach-counters, Reach-caps}
use xrdcl_pelican.Scheduler.Expiry.{current, expire_lem}
use xrdcl_pelican.Scheduler.Unnamed.{consume_unnamed}

instance abbrev nat_doubles : Doubles ℕ
nat_doubles = record {
  zero_f = 0;
  one_f = 1;
  noise = 1;
  add = λ a b. a + b;
  sub = λ a b. a - b;
  mul = λ a b. a * b;
  quot = λ a b. a / b;
  negate = λ a. a;
  exp = λ a. a;
  of_int = λ n. n;
  seconds = λ n. n;
  le_f = leb;
  lt_f = ltb;
}

abbrev two_workers : Config
two_workers = record {
  per_tag_starving_percent = pos 25;
  per_tag_active_percent = pos 90;
  pending_buffer_size = pos 3;
  per_tag_pending_size = pos 2;
  ema_window = pos 30;
}

abbrev origin : Bytes
origin = codes "origin"

abbrev operation : ℕ → ℕ → Operation
operation n t = record {
  id = n;
  expiry = t;
  on_first_byte_hook = none;
  on_done_hook = none;
  first_byte = false;
  done_hook_fired = false;
}

abbrev empty_pool : World ℕ
empty_pool = start 4 two_workers 0

abbrev queued_one : World ℕ
queued_one = record empty_pool {
  sched = (admit empty_pool.sched origin (some (operation 7 100))).0;
}

abbrev queued_two : World ℕ
queued_two = record queued_one { sched = (admit queued_one.sched origin (some (operation 8 50))).0 }

abbrev taken_one : World ℕ
taken_one = record {
  sched = (try_consume queued_two.sched (λ t. 0)).0;
  flight = handed (try_consume queued_two.sched (λ t. 0)).1 queued_two.flight;
}

queued_two-Reach : Reach empty_pool queued_two
queued_two-Reach =
    next (next here (admits origin (some (operation 7 100)) refl))
      (admits origin (some (operation 8 50)) refl)

queued_two-IsValid : IsValid queued_two.sched
queued_two-IsValid =
    admit-IsValid queued_one.sched origin (some (operation 8 50)) (
      admit-IsValid empty_pool.sched origin (some (operation 7 100)) (make-IsValid 4 two_workers 0))

-- The second request waits: with one starving slot the front of the queue goes alone.
takes_front :
    (try_consume queued_two.sched (λ t. 0)).1
    ≡ some
        (record (operation 7 100) { on_first_byte_hook = some origin; on_done_hook = some origin })
unfolding try_consume admit pick_tag scan eligible make percent_to_cap lookup tag_state insert walk
takes_front = refl

taken_one-Reach : Reach empty_pool taken_one
taken_one-Reach = next queued_two-Reach (tries (λ t. 0))

Reach-counters_example :
    (active_of taken_one.sched origin ≡ in_flight taken_one origin)
    × (starving_of taken_one.sched origin ≡ in_starvation taken_one origin)
Reach-counters_example = Reach-counters 4 two_workers 0 taken_one-Reach origin

Reach-caps_example :
    AtMost (in_flight taken_one origin) taken_one.sched.active_cap
    × AtMost (in_starvation taken_one origin) taken_one.sched.starving_cap
Reach-caps_example = Reach-caps 4 two_workers 0 taken_one-Reach origin

pick_tag-Ready_example :
    ((op : Operation) × (rest : List Operation) × Ready queued_two.sched
        (pick_tag queued_two.sched (λ t. 0))
        op
        rest)
    ⊎ ((pick_tag queued_two.sched (λ t. 0) ≡ [])
        × All (λ e. Blocked queued_two.sched e.1) queued_two.sched.tags)
pick_tag-Ready_example = pick_tag-Ready queued_two.sched (λ t. 0) queued_two-IsValid.distinct

try_consume-Outcome_example : Outcome queued_two.sched (try_consume queued_two.sched (λ t. 0))
try_consume-Outcome_example =
    try_consume-Outcome queued_two.sched (λ t. 0) queued_two-IsValid.distinct

try_consume_progress_example :
    (op : Operation) × ((try_consume queued_two.sched (λ t. 5)).1 ≡ some op)
unfolding admit make lookup tag_state eligible percent_to_cap insert
try_consume_progress_example =
    try_consume_progress queued_two.sched (λ t. 5) origin (tag_state origin queued_two.sched.tags)
      queued_two-IsValid.distinct refl refl refl refl

admit-IsValid_example : IsValid (admit queued_two.sched origin (some (operation 9 10))).0
admit-IsValid_example =
    admit-IsValid queued_two.sched origin (some (operation 9 10)) queued_two-IsValid

expire_lem_example :
    All (IsExpired 60) (expire queued_two.sched 60).1
    × ((t : Bytes)
        → All (IsCurrent 60) (tag_state t (expire queued_two.sched 60).0.tags).pending
          × ((tag_state t (expire queued_two.sched 60).0.tags).pending
              ≡ current 60 (tag_state t queued_two.sched.tags).pending))
    × ((expire queued_two.sched 60).0.total_pending + length (expire queued_two.sched 60).1
        ≡ queued_two.sched.total_pending)
expire_lem_example = expire_lem queued_two.sched 60 queued_two-IsValid

abbrev unnamed_one : TagScheduler ℕ
unnamed_one = (admit empty_pool.sched [] (some (operation 7 100))).0

consume_unnamed_example :
    (lookup [] (try_consume unnamed_one (λ t. 0)).0.tags ≡ lookup [] unnamed_one.tags)
    × (lookup [] (consume_pass unnamed_one (λ t. 0)).0.tags ≡ lookup [] unnamed_one.tags)
consume_unnamed_example =
    consume_unnamed unnamed_one (λ t. 0)
      (admit-IsValid empty_pool.sched [] (some (operation 7 100))
        (make-IsValid 4 two_workers 0)).distinct
