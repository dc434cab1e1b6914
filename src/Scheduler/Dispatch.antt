-- ===== src/Scheduler/Dispatch.antt =====
-- TryConsume and Consume: which operation a worker gets.
use xrdcl_pelican.Prelude.{
  ℕ, ◌<◌, ◌≤◌, ◌⊎◌, ◌≡◌, refl, sym, ◌∙◌, ap, inl, inr, true, false, Option, none, some, List, [],
  ◌∷◌, arith,
}
use mathlib.Core.Bool.{false≢true}
use xrdcl_pelican.Prelude.Int.{ℤ, pos, negsuc, ge_int}
use xrdcl_pelican.Prelude.Tests.{Bool-cases}
use xrdcl_pelican.Prelude.Lists.{All, All-map}
use xrdcl_pelican.Prelude.Bytes.{Bytes, is_empty}
use xrdcl_pelican.Prelude.Assoc.{lookup, IsDistinct, All-lookup}
use xrdcl_pelican.Scheduler.State.{Doubles, Operation, TagState, TagScheduler, tag_state}
use xrdcl_pelican.Scheduler.Pick.{no_ops, eligible, pick_tag}
use xrdcl_pelican.Scheduler.Queue.{take_front, try_consume}
use xrdcl_pelican.Scheduler.Cases.{taken, front, try_consume_cases, try_consume-front}
use xrdcl_pelican.Scheduler.Draw.{Offered, pick_tag-Offered}
use xrdcl_pelican.Scheduler.Counters.{tag_state-found, active_of, starving_of}

-- `n < cap`, for a cap that may be negative.
abbrev pub Below : ℕ → ℤ → Type 0
Below n (pos z) = n < z
Below n (negsuc z) = ⊥

Below-ge_int : (n : ℕ) (z : ℤ) → ge_int n z ≡ false → Below n z
Below-ge_int n (pos z) h = ground arith
Below-ge_int n (negsuc z) h = cc

-- The tag has `op` at the front of its queue, `rest` behind it, and room under both caps.
pub record Ready {F : Type 0} (s : TagScheduler F) (tag : Bytes) (op : Operation)
    (rest : List Operation) : Type 0 where
  pub queue : (tag_state tag s.tags).pending ≡ op ∷ rest
  pub below_active : Below (active_of s tag) s.active_cap
  pub below_starving : Below (starving_of s tag) s.starving_cap

-- `cap ≤ n`, the same for a cap that is reached.
abbrev pub Full : ℕ → ℤ → Type 0
Full n (pos z) = z ≤ n
Full n (negsuc z) = Unit

Full-ge_int : (n : ℕ) (z : ℤ) → ge_int n z ≡ true → Full n z
Full-ge_int n (pos z) h = ground arith
Full-ge_int n (negsuc z) h = tt

-- The entry has nothing queued, or has reached one of the caps.
pub data Blocked {F : Type 0} (s : TagScheduler F) (st : TagState) : Type 0 where
  nothing_queued : st.pending ≡ [] → Blocked s st
  at_starving_cap : Full st.starving s.starving_cap → Blocked s st
  at_active_cap : Full st.active s.active_cap → Blocked s st

no_ops-nil : (ops : List Operation) → no_ops ops ≡ true → ops ≡ []
no_ops-nil [] h = refl
no_ops-nil (op ∷ ops) h = cc

nonempty :
    (ops : List Operation)
    → no_ops ops ≡ false
    → (op : Operation) × (rest : List Operation) × (ops ≡ op ∷ rest)
nonempty [] h = cc
nonempty (op ∷ rest) h = (op, rest, refl)

module _ {F : Type 0} where
  -- The three tests of the loop, taken apart.
  eligible-parts :
      (s : TagScheduler F) (st : TagState)
      → eligible s st ≡ true
      → (no_ops st.pending ≡ false)
        × (ge_int st.starving s.starving_cap ≡ false)
        × (ge_int st.active s.active_cap ≡ false)
  unfolding eligible
  eligible-parts s st h = ground arith

  eligible-Blocked : (s : TagScheduler F) (st : TagState) → eligible s st ≡ false → Blocked s st
  unfolding eligible
  eligible-Blocked s st h = elim (Bool-cases (no_ops st.pending)) [
    | inl e ↦ nothing_queued (no_ops-nil st.pending e)
    | inr e ↦ elim (Bool-cases (ge_int st.starving s.starving_cap)) [
      | inl k ↦ at_starving_cap (Full-ge_int st.starving s.starving_cap k)
      | inr k ↦ at_active_cap (Full-ge_int st.active s.active_cap (ground arith))
    ]
  ]

  Offered-Ready :
      (s : TagScheduler F) (tag : Bytes)
      → Offered s tag
      → (op : Operation) × (rest : List Operation) × Ready s tag op rest
  Offered-Ready s tag o =
      let e = tag_state-found tag s.tags o.state o.found in
      let (some_op, starve, act) = eligible-parts s o.state o.is_eligible in
      let (op, rest, q) = nonempty o.state.pending some_op in
      (
        op,
        rest,
        record {
          queue = rw e q;
          below_active = rw (e, active_of) (Below-ge_int o.state.active s.active_cap act);
          below_starving =
              rw (e, starving_of) (Below-ge_int o.state.starving s.starving_cap starve);
        },
      )

  take_front-Ready :
      (s : TagScheduler F) (tag : Bytes) (op : Operation) (rest : List Operation)
      → Ready s tag op rest
      → take_front s tag (tag_state tag s.tags) ≡ (taken s tag (tag_state tag s.tags) rest, some op)
  unfolding take_front
  take_front-Ready s tag op rest r = rw (r.queue, take_front)

is_empty_absurd : {t : Bytes} → t ≡ [] → is_empty t ≡ false → ⊥
is_empty_absurd {t} e h = let h' : is_empty [] ≡ false = rw e at h in cc

named_of :
    (t : Bytes) (st : TagState) (m : List (Bytes × TagState))
    → lookup [] m ≡ none
    → lookup t m ≡ some st
    → is_empty t ≡ false
named_of [] st m h e = cc
named_of (c ∷ t) st m h e = refl

module _ {F : Type 0} ⦃d : Doubles F⦄ where
  -- On a scheduler with distinct tags, whatever is drawn, a tag is named that has an operation queued
  -- and whose counters are below both caps; or every entry has nothing queued or has reached a cap, and the empty name is returned.
  pub pick_tag-Ready :
      (s : TagScheduler F) (draw : F → F)
      → IsDistinct s.tags
      → ((op : Operation) × (rest : List Operation) × Ready s (pick_tag s draw) op rest)
        ⊎ ((pick_tag s draw ≡ []) × All (λ e. Blocked s e.1) s.tags)
  pick_tag-Ready s draw h = elim (pick_tag-Offered s draw h) [
    | inl o ↦ inl (Offered-Ready s (pick_tag s draw) o)
    | inr (e, idle) ↦ inr (e, All-map _ _ s.tags (λ a i. eligible-Blocked s a.1 i) idle)
  ]

  -- A named tag is ready, and its front operation is what the critical section takes.
  pub front-Ready :
      (s : TagScheduler F) (draw : F → F)
      → IsDistinct s.tags
      → is_empty (pick_tag s draw) ≡ false
      → (op : Operation) × (rest : List Operation) × Ready s (pick_tag s draw) op rest
        × (front s draw
            ≡ (taken s (pick_tag s draw) (tag_state (pick_tag s draw) s.tags) rest, some op))
  front-Ready s draw h e = elim (pick_tag-Offered s draw h) [
    | inl o ↦
        let (op, rest, r) = Offered-Ready s (pick_tag s draw) o in
        (op, rest, r, take_front-Ready s (pick_tag s draw) op rest r)
    | inr (none_drawn, idle) ↦ absurd (is_empty_absurd none_drawn e)
  ]

  -- How TryConsume ends: an operation is the front of the queue of the tag drawn, which had room
  -- under both caps, and then the tag's two counters have gone up by one; or nothing has changed.
  pub data Outcome (s : TagScheduler F) (r : TagScheduler F × Option Operation) : Type 0 where
    dispatches :
        (tag : Bytes) (op : Operation) (rest : List Operation)
        → Ready s tag op rest
        → r ≡ (taken s tag (tag_state tag s.tags) rest, some op)
        → Outcome s r
    refuses : r ≡ (s, none) → Outcome s r

  -- Every call of TryConsume on a scheduler with distinct tags either takes the front operation of a
  -- tag that had room under both caps and counts it in the tag's two counters and the total, or
  -- changes nothing and returns nothing.
  pub try_consume-Outcome :
      (s : TagScheduler F) (draw : F → F) → IsDistinct s.tags → Outcome s (try_consume s draw)
  try_consume-Outcome s draw h = try_consume_cases (Outcome s) s draw (refuses refl) (λ _ drawn.
      let (op, rest, r, e) = front-Ready s draw h drawn in dispatches (pick_tag s draw) op rest r e)

  -- While the scheduler runs, the tags are distinct and there is no entry under the empty tag, an
  -- eligible entry makes TryConsume return an operation, whatever is drawn.
  pub try_consume_progress :
      (s : TagScheduler F) (draw : F → F) (tag : Bytes) (st : TagState)
      → IsDistinct s.tags
      → s.is_shutdown ≡ false
      → lookup [] s.tags ≡ none
      → lookup tag s.tags ≡ some st
      → eligible s st ≡ true
      → (op : Operation) × ((try_consume s draw).1 ≡ some op)
  try_consume_progress s draw tag st h up unnamed found e = elim (pick_tag-Offered s draw h) [
    | inl o ↦
        let (op, rest, r, taken_is) = front-Ready s draw h (named o) in
        (op, ap (λ r. r.1) (try_consume-front s draw up (named o) ∙ taken_is))
    | inr (none_drawn, idle) ↦
        absurd
          (false≢true (sym (All-lookup (λ v. eligible s v ≡ false) tag st s.tags idle found) ∙ e))
  ]
    where
      named : Offered s (pick_tag s draw) → is_empty (pick_tag s draw) ≡ false
      named o = named_of (pick_tag s draw) o.state s.tags unnamed o.found
