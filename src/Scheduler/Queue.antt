-- ===== src/Scheduler/Queue.antt =====
-- src/XrdClCurl/XrdClCurlTagScheduler.cc: Admit, Consume, TryConsume, Expire, OnFirstByte, OnDone,
-- Shutdown and Pending, each as one critical section; and the two places of
-- src/XrdClCurl/XrdClCurlOps.{hh,cc} that run the hooks.
use xrdcl_pelican.Prelude.{
  ℕ, ◌+◌, ◌-◌, Bool, true, false, not, ◌&&◌, Option, none, some, List, [], ◌∷◌, ◌++◌,
}
use xrdcl_pelican.Prelude.Tests.{ltb, ◌==◌, if◌then◌else◌}
use xrdcl_pelican.Prelude.Lists.{length}
use xrdcl_pelican.Prelude.Bytes.{Bytes, is_empty}
use xrdcl_pelican.Prelude.Int.{ge_int, is_positive}
use xrdcl_pelican.Prelude.Assoc.{lookup, insert, erase}
use xrdcl_pelican.Scheduler.State.{
  Doubles, Operation, TagState, TagScheduler, tag_state, increment64,
}
use xrdcl_pelican.Scheduler.Pick.{no_ops, pick_tag}

-- `pending.empty() && active == 0 && starving == 0`.
unfoldable pub is_idle : TagState → Bool
is_idle st = no_ops st.pending && st.active == 0 && st.starving == 0

-- The operation with both hooks installed and a fresh flag.
abbrev pub hooked : Bytes → Operation → Operation
hooked tag op = record op {
  on_first_byte_hook = some tag;
  on_done_hook = some tag;
  first_byte = false;
}

-- The state of a tag whose front operation went to a worker.
abbrev pub dispatched : TagState → List Operation → TagState
dispatched st rest = record st {
  pending = rest;
  active = st.active + 1;
  starving = st.starving + 1;
}

-- `if (active > 0) active--; if (still_starving && starving > 0) starving--;`
abbrev pub released : TagState → Bool → TagState
released st still = record st {
  active = if ltb 0 st.active then st.active - 1 else st.active;
  starving = if still && ltb 0 st.starving then st.starving - 1 else st.starving;
}

abbrev unhooked : Operation → Operation
unhooked op = record op { on_first_byte_hook = none; on_done_hook = none }

-- The operations of one queue that stay, and those past their deadline, hooks cleared.
unfoldable pub sweep : ℕ → List Operation → List Operation × List Operation
sweep now [] = ([], [])
sweep now (op ∷ ops) =
    let (kept, expired) = sweep now ops in
    if ltb op.expiry now then (kept, unhooked op ∷ expired) else (op ∷ kept, expired)

unfoldable pub sweep_tags : ℕ → List (Bytes × TagState) → List (Bytes × TagState) × List Operation
unfolding sweep
sweep_tags now [] = ([], [])
sweep_tags now ((tag, st) ∷ m) =
    let (kept, expired) = sweep now st.pending in
    let (m', later) = sweep_tags now m in
    let st' = record st { pending = kept } in
    (if is_idle st' then m' else (tag, st') ∷ m', expired ++ later)

module _ {F : Type 0} where
  unfoldable pub reject_global : TagScheduler F → Bytes → TagScheduler F
  reject_global s tag = record s {
    rejects = increment64 s.rejects;
    rejects_global = increment64 s.rejects_global;
    tags = insert tag (record st { rejects = increment64 st.rejects }) s.tags;
  }
    where
      st : TagState
      st = tag_state tag s.tags

  unfoldable pub reject_per_tag : TagScheduler F → Bytes → TagState → TagScheduler F
  reject_per_tag s tag st = record s {
    rejects = increment64 s.rejects;
    rejects_per_tag = increment64 s.rejects_per_tag;
    tags = insert tag (record st { rejects = increment64 st.rejects }) s.tags;
  }

  unfoldable pub enqueue : TagScheduler F → Bytes → TagState → Operation → TagScheduler F
  enqueue s tag st op = record s {
    tags =
        insert tag
          (record st {
            pending = st.pending ++ (hooked tag op ∷ []);
            admits = increment64 st.admits;
          })
          s.tags;
    total_pending = s.total_pending + 1;
    admits = increment64 s.admits;
  }

  -- `none` is a null pointer.
  unfoldable pub admit : TagScheduler F → Bytes → Option Operation → TagScheduler F × Bool
  unfolding reject_global reject_per_tag enqueue
  admit s tag none = (s, false)
  admit s tag (some op) =
      if s.is_shutdown
      then (s, false)
      else if is_positive s.cfg.pending_buffer_size
          && ge_int s.total_pending s.cfg.pending_buffer_size
      then (reject_global s tag, false)
      else if is_positive s.cfg.per_tag_pending_size
          && ge_int (length st.pending) s.cfg.per_tag_pending_size
      then (reject_per_tag s tag st, false)
      else (enqueue s tag st op, true)
    where
      st : TagState
      st = tag_state tag s.tags

  -- Taking the front of a tag's queue. `front()` of an empty deque is undefined; `pick_tag` never
  -- names such a tag, and the model then changes nothing.
  unfoldable pub take_front : TagScheduler F → Bytes → TagState → TagScheduler F × Option Operation
  take_front s tag st = elim st.pending [
    | [] ↦ (s, none)
    | op ∷ rest ↦ (
      record s {
        tags = insert tag (dispatched st rest) s.tags;
        total_pending = s.total_pending - 1;
      },
      some op,
    )
  ]

  -- The `m_tags.erase(tag)` of Consume, OnDone and Expire.
  unfoldable pub drop_idle : TagScheduler F → Bytes → TagScheduler F
  drop_idle s tag =
      if is_idle (tag_state tag s.tags) then record s { tags = erase tag s.tags } else s

  unfoldable pub on_first_byte : TagScheduler F → Bytes → TagScheduler F
  on_first_byte s tag = elim (lookup tag s.tags) [
    | none ↦ s
    | some st ↦
        if ltb 0 st.starving
        then record s { tags = insert tag (record st { starving = st.starving - 1 }) s.tags }
        else s
  ]

  unfoldable pub on_done : TagScheduler F → Bytes → Bool → TagScheduler F
  on_done s tag still = elim (lookup tag s.tags) [
    | none ↦ s
    | some st ↦ drop_idle (record s { tags = insert tag (released st still) s.tags }) tag
  ]

  unfoldable pub shutdown : TagScheduler F → TagScheduler F
  shutdown s = if s.is_shutdown then s else record s { is_shutdown = true }

  unfoldable pub expire : TagScheduler F → ℕ → TagScheduler F × List Operation
  expire s now =
      let (tags, expired) = sweep_tags now s.tags in
      (record s { tags = tags; total_pending = s.total_pending - length expired }, expired)

  abbrev pub pending : TagScheduler F → ℕ
  pending s = s.total_pending

  -- `m_on_first_byte()` where it is set: HeaderCallback, and the body of the closure.
  unfoldable pub fire_first_byte : TagScheduler F → Operation → TagScheduler F × Operation
  fire_first_byte s op = elim op.on_first_byte_hook [
    | none ↦ (s, op)
    | some tag ↦
        if op.first_byte then (s, op) else (on_first_byte s tag, record op { first_byte = true })
  ]

  -- SetDone, and the body of the closure.
  unfoldable pub set_done : TagScheduler F → Operation → TagScheduler F × Operation
  set_done s op = elim op.on_done_hook [
    | none ↦ (s, op)
    | some tag ↦ if op.done_hook_fired then (s, op) else (
      on_done s tag (not op.first_byte),
      record op { on_done_hook = none; done_hook_fired = true },
    )
  ]

-- How one pass of the loop in Consume ends.
pub data Pass : Type 0 where
  returned : Option Operation → Pass
  waits : Pass

module _ {F : Type 0} ⦃d : Doubles F⦄ where
  unfoldable pub try_consume : TagScheduler F → (F → F) → TagScheduler F × Option Operation
  unfolding take_front
  try_consume s draw =
      if s.is_shutdown
      then (s, none)
      else if is_empty (pick_tag s draw)
      then (s, none)
      else take_front s (pick_tag s draw) (tag_state (pick_tag s draw) s.tags)

  -- One pass, from the top of the loop to the return or to the wait.
  unfoldable pub consume_pass : TagScheduler F → (F → F) → TagScheduler F × Pass
  unfolding take_front
  consume_pass s draw =
      if s.is_shutdown
      then (s, returned none)
      else if is_empty (pick_tag s draw)
      then (s, waits)
      else let (s', op) = take_front s (pick_tag s draw) (tag_state (pick_tag s draw) s.tags) in
        (drop_idle s' (pick_tag s draw), returned op)
