-- ===== src/Scheduler/World.antt =====
-- The scheduler among its producers and workers: any sequence of critical sections. A worker holds
-- the operations that it took until they are done; a hook runs whole, and not after SetDone.
use xrdcl_pelican.Prelude.{ℕ, ◌≡◌, Bool, false, not, ◌&&◌, Option, none, some, List, [], ◌∷◌, ◌++◌}
use xrdcl_pelican.Prelude.Lists.{count}
use xrdcl_pelican.Prelude.Bytes.{Bytes, beq}
use xrdcl_pelican.Scheduler.State.{Doubles, Config, Operation, TagScheduler, make}
use xrdcl_pelican.Scheduler.Pick.{on_monitor_tick}
use xrdcl_pelican.Scheduler.Queue.{
  admit, try_consume, consume_pass, expire, shutdown, fire_first_byte, set_done, returned, waits,
  Pass,
}

-- `flight` holds the operations that workers took and that are not done.
pub record World (F : Type 0) : Type 0 where
  pub sched : TagScheduler F
  pub flight : List Operation

abbrev pub handed : Option Operation → List Operation → List Operation
handed none ops = ops
handed (some op) ops = op ∷ ops

abbrev pub handed_pass : Pass → List Operation → List Operation
handed_pass waits ops = ops
handed_pass (returned op) ops = handed op ops

-- An operation is submitted before it reaches its terminal state.
abbrev pub IsUnfinished : Option Operation → Type 0
IsUnfinished none = Unit
IsUnfinished (some op) = op.done_hook_fired ≡ false

-- One critical section. Consume is its passes; the wait between two of them changes nothing.
pub data Step {F : Type 0} ⦃d : Doubles F⦄ (w : World F) : World F → Type 0 where
  admits :
      (tag : Bytes) (op : Option Operation)
      → IsUnfinished op
      → Step w (record w { sched = (admit w.sched tag op).0 })
  tries :
      (draw : F → F)
      → Step w (record {
        sched = (try_consume w.sched draw).0;
        flight = handed (try_consume w.sched draw).1 w.flight;
      })
  passes :
      (draw : F → F)
      → Step w (record {
        sched = (consume_pass w.sched draw).0;
        flight = handed_pass (consume_pass w.sched draw).1 w.flight;
      })
  receives :
      (before after : List Operation) (op : Operation)
      → w.flight ≡ before ++ (op ∷ after)
      → Step w (record {
        sched = (fire_first_byte w.sched op).0;
        flight = before ++ ((fire_first_byte w.sched op).1 ∷ after);
      })
  completes :
      (before after : List Operation) (op : Operation)
      → w.flight ≡ before ++ (op ∷ after)
      → Step w (record { sched = (set_done w.sched op).0; flight = before ++ after })
  expires : (now : ℕ) → Step w (record w { sched = (expire w.sched now).0 })
  ticks : (now : ℕ) → Step w (record w { sched = on_monitor_tick w.sched now })
  shuts : Step w (record w { sched = shutdown w.sched })

pub data Reach {F : Type 0} ⦃d : Doubles F⦄ (v : World F) : World F → Type 0 where
  here : Reach v v
  next : {w u : World F} → Reach v w → Step w u → Reach v u

abbrev pub start : {F : Type 0} → ℕ → Config → ℕ → World F
start workers cfg now = record { sched = make workers cfg now; flight = [] }

-- The operation reports to this tag.
abbrev pub reports_to : Bytes → Operation → Bool
reports_to t op = elim op.on_done_hook [ none ↦ false | some tag ↦ beq tag t ]

abbrev pub starves_at : Bytes → Operation → Bool
starves_at t op = reports_to t op && not op.first_byte

-- The operations of a tag that workers hold, and those of them with no response yet.
abbrev pub in_flight : {F : Type 0} → World F → Bytes → ℕ
in_flight w t = count (reports_to t) w.flight

abbrev pub in_starvation : {F : Type 0} → World F → Bytes → ℕ
in_starvation w t = count (starves_at t) w.flight
