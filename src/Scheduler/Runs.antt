-- ===== src/Scheduler/Runs.antt =====
-- Every run of the scheduler among its producers and workers.
use xrdcl_pelican.Prelude.{ℕ, ◌≡◌, refl, sym, true, false, Option, List, [], ◌∷◌, ◌++◌, arith}
use mathlib.Core.Path.{subst}
use xrdcl_pelican.Prelude.Tests.{if_all}
use xrdcl_pelican.Prelude.Int.{ℤ, pos, negsuc}
use xrdcl_pelican.Prelude.Lists.{All, All-at, All-replace, All-remove}
use xrdcl_pelican.Prelude.Bytes.{Bytes, is_empty}
use xrdcl_pelican.Prelude.Assoc.{lookup}
use xrdcl_pelican.Scheduler.State.{Doubles, Config, Operation, TagScheduler, tag_state, make}
use xrdcl_pelican.Scheduler.Pick.{pick_tag, on_monitor_tick}
use xrdcl_pelican.Scheduler.Queue.{
  admit, drop_idle, try_consume, consume_pass, expire, shutdown, fire_first_byte, set_done,
}
use xrdcl_pelican.Scheduler.Cases.{taken, front, try_consume_cases, consume_pass_cases}
use xrdcl_pelican.Scheduler.Counters.{active_of, starving_of, admit_counters, drop_idle_counters}
use xrdcl_pelican.Scheduler.Sweep.{expire_counters}
use xrdcl_pelican.Scheduler.Invariant.{
  IsValid, make-IsValid, admit-IsValid, expire-IsValid, on_monitor_tick-IsValid, drop_idle-IsValid,
  taken-IsValid, fire_first_byte-IsValid, set_done-IsValid,
}
use xrdcl_pelican.Scheduler.Dispatch.{Ready, front-Ready}
use xrdcl_pelican.Scheduler.World.{
  World, Step, admits, tries, passes, receives, completes, expires, ticks, shuts, Reach, here, next,
  start, handed, handed_pass, in_flight, in_starvation, IsUnfinished,
}
use xrdcl_pelican.Scheduler.Waiting.{
  AllWaiting, admit-AllWaiting, taken-AllWaiting, drop_idle-AllWaiting, expire-AllWaiting,
  fire_first_byte-AllWaiting, set_done-AllWaiting,
}
use xrdcl_pelican.Scheduler.Accounting.{
  Held, Waiting-Held, Exact, Exact-same, take_front-Exact, fire_first_byte-Exact, set_done-Exact,
}
use xrdcl_pelican.Scheduler.Caps.{
  Capped, AtMost, Capped-same, admit-SameCaps, drop_idle-SameCaps, fire_first_byte-Capped,
  set_done-Capped, taken-Capped,
}

-- What holds between any two critical sections.
pub record Inv {F : Type 0} (s : TagScheduler F) (flight : List Operation) : Type 0 where
  pub valid : IsValid s
  pub waiting : AllWaiting s.tags
  pub held : All Held flight
  pub exact : Exact s flight
  pub capped : Capped s

abbrev WorldInv : {F : Type 0} → World F → Type 0
WorldInv w = Inv w.sched w.flight

module _ {F : Type 0} where
  admit-Inv :
      (s : TagScheduler F) (flight : List Operation) (tag : Bytes) (op : Option Operation)
      → IsUnfinished op
      → Inv s flight
      → Inv (admit s tag op).0 flight
  admit-Inv s flight tag op u i = record {
    valid = admit-IsValid s tag op i.valid;
    waiting = admit-AllWaiting s tag op u i.waiting;
    held = i.held;
    exact = Exact-same (admit s tag op).0 s flight (admit_counters s tag op) i.exact;
    capped =
        Capped-same (admit s tag op).0 s (admit-SameCaps s tag op) (admit_counters s tag op)
          i.capped;
  }

  drop_idle-Inv :
      (s : TagScheduler F) (flight : List Operation) (tag : Bytes)
      → Inv s flight
      → Inv (drop_idle s tag) flight
  drop_idle-Inv s flight tag i = record {
    valid = drop_idle-IsValid s tag i.valid;
    waiting = drop_idle-AllWaiting s tag i.valid.distinct i.waiting;
    held = i.held;
    exact =
        Exact-same (drop_idle s tag) s flight (λ t. drop_idle_counters s tag t i.valid.distinct)
          i.exact;
    capped =
        Capped-same (drop_idle s tag) s (drop_idle-SameCaps s tag)
          (λ t. drop_idle_counters s tag t i.valid.distinct) i.capped;
  }

  expire-Inv :
      (s : TagScheduler F) (flight : List Operation) (now : ℕ)
      → Inv s flight
      → Inv (expire s now).0 flight
  unfolding expire
  expire-Inv s flight now i = record {
    valid = expire-IsValid s now i.valid;
    waiting = expire-AllWaiting s now i.valid.distinct i.waiting;
    held = i.held;
    exact =
        Exact-same (expire s now).0 s flight (λ t. expire_counters s now t i.valid.distinct)
          i.exact;
    capped =
        Capped-same (expire s now).0 s (refl, refl) (λ t. expire_counters s now t i.valid.distinct)
          i.capped;
  }

  shutdown-Inv :
      (s : TagScheduler F) (flight : List Operation) → Inv s flight → Inv (shutdown s) flight
  unfolding shutdown
  shutdown-Inv s flight i =
      if_all (λ r. Inv r flight) s.is_shutdown {x = s} {y = record s { is_shutdown = true }} i
        (record {
          valid = record {
            distinct = i.valid.distinct;
            counted = i.valid.counted;
            bounded = i.valid.bounded;
            rejected = i.valid.rejected;
          };
          waiting = i.waiting;
          held = i.held;
          exact = i.exact;
          capped = i.capped;
        })

  taken-Inv :
      (s : TagScheduler F) (flight : List Operation) (tag : Bytes) (op : Operation)
      (rest : List Operation)
      → Ready s tag op rest
      → Inv s flight
      → Inv (taken s tag (tag_state tag s.tags) rest) (op ∷ flight)
  taken-Inv s flight tag op rest r i = record {
    valid = taken-IsValid s tag op rest r.queue i.valid;
    waiting = taken-AllWaiting s tag op rest r.queue i.waiting;
    held = (Waiting-Held tag op (rw r.queue at (i.waiting tag)).0, i.held);
    exact = take_front-Exact s tag flight i.waiting i.exact _ refl op rest r.queue;
    capped = taken-Capped s tag op rest r i.capped;
  }

  fire_first_byte-Held :
      (s : TagScheduler F) (op : Operation) → Held op → Held (fire_first_byte s op).1
  unfolding fire_first_byte
  fire_first_byte-Held s op h = record {
    tag = h.tag;
    first_hook = ground (arith, h.first_hook);
    done_hook = ground (arith, h.first_hook, h.done_hook);
    unfinished = ground (arith, h.first_hook, h.unfinished);
  }

  fire_first_byte-Inv :
      (s : TagScheduler F) (before after : List Operation) (op : Operation)
      → Inv s (before ++ (op ∷ after))
      → Inv (fire_first_byte s op).0 (before ++ ((fire_first_byte s op).1 ∷ after))
  fire_first_byte-Inv s before after op i =
      let h = All-at Held before op after i.held in
      record {
        valid = fire_first_byte-IsValid s op i.valid;
        waiting = fire_first_byte-AllWaiting s op i.waiting;
        held = All-replace Held before op _ after i.held (fire_first_byte-Held s op h);
        exact = fire_first_byte-Exact s before after op h i.exact;
        capped = fire_first_byte-Capped s op i.capped;
      }

  set_done-Inv :
      (s : TagScheduler F) (before after : List Operation) (op : Operation)
      → Inv s (before ++ (op ∷ after))
      → Inv (set_done s op).0 (before ++ after)
  set_done-Inv s before after op i = record {
    valid = set_done-IsValid s op i.valid;
    waiting = set_done-AllWaiting s op i.valid.distinct i.waiting;
    held = All-remove Held before op after i.held;
    exact =
        set_done-Exact s before after op i.valid.distinct (All-at Held before op after i.held)
          i.exact;
    capped = set_done-Capped s op i.valid.distinct i.capped;
  }

  make-Inv : (workers : ℕ) (cfg : Config) (now : ℕ) → Inv (make {F = F} workers cfg now) []
  unfolding make tag_state lookup
  make-Inv workers cfg now = record {
    valid = make-IsValid workers cfg now;
    waiting = λ t. tt;
    held = tt;
    exact = λ t. (refl, refl);
    capped = λ t. (
      none_held (make {F = F} workers cfg now).active_cap,
      none_held (make {F = F} workers cfg now).starving_cap,
    );
  }
    where
      none_held : (z : ℤ) → AtMost 0 z
      none_held (pos z) = omega arith
      none_held (negsuc z) = refl

module _ {F : Type 0} ⦃d : Doubles F⦄ where
  front-Inv :
      (s : TagScheduler F) (flight : List Operation) (draw : F → F)
      → Inv s flight
      → is_empty (pick_tag s draw) ≡ false
      → Inv (front s draw).0 (handed (front s draw).1 flight)
  front-Inv s flight draw i drawn =
      let (op, rest, r, e) = front-Ready s draw i.valid.distinct drawn in
      subst (λ q. Inv q.0 (handed q.1 flight)) (sym e)
        (taken-Inv s flight (pick_tag s draw) op rest r i)

  try_consume-Inv :
      (s : TagScheduler F) (flight : List Operation) (draw : F → F)
      → Inv s flight
      → Inv (try_consume s draw).0 (handed (try_consume s draw).1 flight)
  try_consume-Inv s flight draw i =
      try_consume_cases (λ q. Inv q.0 (handed q.1 flight)) s draw i
        (λ _ drawn. front-Inv s flight draw i drawn)

  consume_pass-Inv :
      (s : TagScheduler F) (flight : List Operation) (draw : F → F)
      → Inv s flight
      → Inv (consume_pass s draw).0 (handed_pass (consume_pass s draw).1 flight)
  consume_pass-Inv s flight draw i =
      consume_pass_cases (λ q. Inv q.0 (handed_pass q.1 flight)) s draw (λ _. i) (λ _ _. i)
        (λ _ drawn.
          drop_idle-Inv (front s draw).0 _ (pick_tag s draw) (front-Inv s flight draw i drawn))

  on_monitor_tick-Inv :
      (s : TagScheduler F) (flight : List Operation) (now : ℕ)
      → Inv s flight
      → Inv (on_monitor_tick s now) flight
  unfolding on_monitor_tick
  on_monitor_tick-Inv s flight now i = record {
    valid = on_monitor_tick-IsValid s now i.valid;
    waiting = i.waiting;
    held = i.held;
    exact = i.exact;
    capped = i.capped;
  }

  Step-Inv : {w u : World F} → Step w u → WorldInv w → WorldInv u
  Step-Inv {w} (admits tag op unfinished) i = admit-Inv w.sched w.flight tag op unfinished i
  Step-Inv {w} (tries draw) i = try_consume-Inv w.sched w.flight draw i
  Step-Inv {w} (passes draw) i = consume_pass-Inv w.sched w.flight draw i
  Step-Inv {w} (receives before after op e) i =
      fire_first_byte-Inv w.sched before after op (subst (Inv w.sched) e i)
  Step-Inv {w} (completes before after op e) i =
      set_done-Inv w.sched before after op (subst (Inv w.sched) e i)
  Step-Inv {w} (expires now) i = expire-Inv w.sched w.flight now i
  Step-Inv {w} (ticks now) i = on_monitor_tick-Inv w.sched w.flight now i
  Step-Inv {w} shuts i = shutdown-Inv w.sched w.flight i

  pub Reach-Inv :
      (workers : ℕ) (cfg : Config) (now : ℕ) {w : World F}
      → Reach (start workers cfg now) w
      → Inv w.sched w.flight
  Reach-Inv workers cfg now here = make-Inv workers cfg now
  Reach-Inv workers cfg now (next r st) = Step-Inv st (Reach-Inv workers cfg now r)

  -- Whatever producers, workers, the monitor and the shutdown do, in any order: each tag's two
  -- counters are the numbers of its operations that workers hold, all and with no response yet.
  pub Reach-counters :
      (workers : ℕ) (cfg : Config) (now : ℕ) {w : World F}
      → Reach (start workers cfg now) w
      → (t : Bytes)
      → (active_of w.sched t ≡ in_flight w t) × (starving_of w.sched t ≡ in_starvation w t)
  Reach-counters workers cfg now r = (Reach-Inv workers cfg now r).exact

  -- At every moment of any run of producers, workers, monitor and shutdown the operations of one tag
  -- that workers hold number at most the active cap, and those with no response yet at most the starving cap (none, under a negative cap).
  pub Reach-caps :
      (workers : ℕ) (cfg : Config) (now : ℕ) {w : World F}
      → Reach (start workers cfg now) w
      → (t : Bytes)
      → AtMost (in_flight w t) w.sched.active_cap × AtMost (in_starvation w t) w.sched.starving_cap
  Reach-caps workers cfg now {w} r t =
      let i = Reach-Inv workers cfg now r in
      let (a, b) = i.exact t in
      let (c, e) = i.capped t in
      (subst (λ n. AtMost n w.sched.active_cap) a c, subst (λ n. AtMost n w.sched.starving_cap) b e)
