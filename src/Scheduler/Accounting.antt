-- ===== src/Scheduler/Accounting.antt =====
-- The counters are exact: at every moment of every run, each tag's `active` and `starving` count
-- the operations that workers hold for it, and stay within their caps.
use xrdcl_pelican.Prelude.{
  ℕ, ◌+◌, ◌-◌, ◌≡◌, ◌∙◌, Bool, true, false, not, some, List, [], ◌∷◌, ◌++◌, arith,
}
use xrdcl_pelican.Prelude.Lists.{All, count}
use xrdcl_pelican.Prelude.Bytes.{Bytes, beq, beq_iff}
use xrdcl_pelican.Prelude.Assoc.{insert, IsDistinct}
use xrdcl_pelican.Scheduler.State.{Operation, TagState, TagScheduler, tag_state}
use xrdcl_pelican.Scheduler.Queue.{dispatched, fire_first_byte, set_done}
use xrdcl_pelican.Scheduler.Counters.{
  active_of, starving_of, SameCounters, tag_state-insert, on_first_byte_counters, on_done_counters,
}
use xrdcl_pelican.Scheduler.World.{reports_to, starves_at}
use xrdcl_pelican.Scheduler.Waiting.{Waiting, AllWaiting}

-- A worker holds it: both hooks report to one tag, and the completion hook has not run.
pub record Held (op : Operation) : Type 0 where
  pub tag : Bytes
  pub first_hook : op.on_first_byte_hook ≡ some tag
  pub done_hook : op.on_done_hook ≡ some tag
  pub unfinished : op.done_hook_fired ≡ false

pub Waiting-Held : (t : Bytes) (op : Operation) → Waiting t op → Held op
Waiting-Held t op w = record { tag = t; first_hook = w.0; done_hook = w.1; unfinished = w.3 }

-- The counters of `s` are the numbers of operations of `ops`.
abbrev pub Exact : {F : Type 0} → TagScheduler F → List Operation → Type 0
Exact s ops =
    (t : Bytes)
    → (active_of s t ≡ count (reports_to t) ops) × (starving_of s t ≡ count (starves_at t) ops)

-- 1 for true.
abbrev pub bit : Bool → ℕ
bit true = 1
bit false = 0

pub count-remove :
    {A : Type 0} (p : A → Bool) (xs : List A) (a : A) (ys : List A)
    → count p (xs ++ (a ∷ ys)) ≡ count p (xs ++ ys) + bit (p a)
count-remove p [] a ys = ground arith
count-remove p (x ∷ xs) a ys = ground (arith, count-remove p xs a ys)

Waiting-reports :
    (k t : Bytes) (op : Operation)
    → Waiting k op
    → (reports_to t op ≡ beq k t) × (starves_at t op ≡ beq k t)
Waiting-reports k t op w = ground arith

module _ {F : Type 0} where
  -- A change that keeps every counter keeps them exact.
  pub Exact-same :
      (s' s : TagScheduler F) (ops : List Operation)
      → ((t : Bytes) → SameCounters s' s t)
      → Exact s ops
      → Exact s' ops
  Exact-same s' s ops same x t = ((same t).0 ∙ (x t).0, (same t).1 ∙ (x t).1)

  -- Taking the front of a queue counts the operation at its tag, and nowhere else.
  pub take_front-Exact :
      (s : TagScheduler F) (tag : Bytes) (ops : List Operation)
      → AllWaiting s.tags
      → Exact s ops
      → (st : TagState) → tag_state tag s.tags ≡ st
      → (op : Operation) (rest : List Operation) → st.pending ≡ op ∷ rest
      → Exact
          (record s {
            tags = insert tag (dispatched st rest) s.tags;
            total_pending = s.total_pending - 1;
          })
          (op ∷ ops)
  take_front-Exact s tag ops a x st e op rest p t =
      let w : All (Waiting tag) (op ∷ rest) = rw (e, p) at (a tag) in
      ground (
        arith,
        tag_state-insert tag t (dispatched st rest) s.tags,
        x t,
        Waiting-reports tag t op w.0,
        beq_iff tag t,
      )

  pub fire_first_byte-Exact :
      (s : TagScheduler F) (before after : List Operation) (op : Operation)
      → Held op
      → Exact s (before ++ (op ∷ after))
      → Exact (fire_first_byte s op).0 (before ++ ((fire_first_byte s op).1 ∷ after))
  unfolding fire_first_byte
  fire_first_byte-Exact s before after op h x t = ground (
    arith,
    h.first_hook,
    h.done_hook,
    x t,
    count-remove (reports_to t) before op after,
    count-remove (starves_at t) before op after,
    count-remove (reports_to t) before (record op { first_byte = true }) after,
    count-remove (starves_at t) before (record op { first_byte = true }) after,
    on_first_byte_counters s h.tag t,
  )

  pub set_done-Exact :
      (s : TagScheduler F) (before after : List Operation) (op : Operation)
      → IsDistinct s.tags
      → Held op
      → Exact s (before ++ (op ∷ after))
      → Exact (set_done s op).0 (before ++ after)
  unfolding set_done
  set_done-Exact s before after op d h x t = ground (
    arith,
    h.done_hook,
    h.unfinished,
    x t,
    count-remove (reports_to t) before op after,
    count-remove (starves_at t) before op after,
    on_done_counters s h.tag (not op.first_byte) t d,
  )
