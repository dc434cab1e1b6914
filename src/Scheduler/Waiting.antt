-- ===== src/Scheduler/Waiting.antt =====
-- What the queues hold: operations hooked to their own tag, with no response yet.
use xrdcl_pelican.Prelude.{
  ℕ, ◌-◌, ◌≡◌, refl, inl, inr, Bool, false, not, Option, none, some, List, [], ◌∷◌,
}
use xrdcl_pelican.Prelude.Tests.{ltb, Bool-cases, Option-cases, if_all}
use xrdcl_pelican.Prelude.Lists.{All, All-append}
use xrdcl_pelican.Prelude.Bytes.{Bytes, beq, beq_iff}
use xrdcl_pelican.Prelude.Assoc.{lookup, insert, erase, IsDistinct, insert-IsDistinct}
use xrdcl_pelican.Scheduler.State.{Operation, TagState, TagScheduler, tag_state}
use xrdcl_pelican.Scheduler.Queue.{
  reject_global, reject_per_tag, enqueue, admit, dispatched, drop_idle, on_first_byte, released,
  on_done, sweep, sweep_tags, expire, is_idle, hooked, fire_first_byte, set_done,
}
use xrdcl_pelican.Scheduler.Cases.{admit_cases, taken}
use xrdcl_pelican.Scheduler.Counters.{tag_state-insert, tag_state-erase, tag_state-found}
use xrdcl_pelican.Scheduler.Sweep.{lookup-sweep_tags, lookup-sweep_tags-none, swept}
use xrdcl_pelican.Scheduler.World.{IsUnfinished}

-- Queued under `t`: both hooks report to `t`, and neither has run.
abbrev pub Waiting : Bytes → Operation → Type 0
Waiting t op =
    (op.on_first_byte_hook ≡ some t)
    × (op.on_done_hook ≡ some t)
    × (op.first_byte ≡ false)
    × (op.done_hook_fired ≡ false)

abbrev pub AllWaiting : List (Bytes × TagState) → Type 0
AllWaiting m = (t : Bytes) → All (Waiting t) (tag_state t m).pending

insert-AllWaiting :
    (k : Bytes) (v : TagState) (m : List (Bytes × TagState))
    → AllWaiting m
    → All (Waiting k) v.pending
    → AllWaiting (insert k v m)
insert-AllWaiting k v m a h t =
    rw tag_state-insert (elim (Bool-cases (beq k t)) [
      | inl e ↦ rw e (rw (← (beq_iff k t).0 e) h)
      | inr e ↦ rw e (a t)
    ])

erase-AllWaiting :
    (k : Bytes) (m : List (Bytes × TagState)) → IsDistinct m → AllWaiting m → AllWaiting (erase k m)
erase-AllWaiting k m d a t =
    rw (tag_state-erase k t m d)
      (elim (Bool-cases (beq k t)) [ inl e ↦ rw e tt | inr e ↦ rw e (a t) ])

sweep-kept :
    (P : Operation → Type 0) (now : ℕ) (ops : List Operation) → All P ops → All P (sweep now ops).0
unfolding sweep
sweep-kept P now [] h = tt
sweep-kept P now (op ∷ ops) h = elim (Bool-cases (ltb op.expiry now)) [
  | inl e ↦ rw (e, sweep) (sweep-kept P now ops h.1)
  | inr e ↦ rw (e, sweep) (h.0, sweep-kept P now ops h.1)
]

sweep_tags-AllWaiting :
    (now : ℕ) (m : List (Bytes × TagState))
    → IsDistinct m
    → AllWaiting m
    → AllWaiting (sweep_tags now m).0
unfolding tag_state
sweep_tags-AllWaiting now m d a t = elim (Option-cases (lookup t m)) [
  | inl e ↦ rw (lookup-sweep_tags-none now t m e, tag_state) tt
  | inr (st, e) ↦
      let w : All (Waiting t) st.pending = rw (e, tag_state) at (a t) in
      rw (lookup-sweep_tags now t m st d e, tag_state)
        (elim (Bool-cases (is_idle (swept now st))) [
          | inl i ↦ rw (i, tag_state) tt
          | inr i ↦ rw (i, tag_state) (sweep-kept (Waiting t) now st.pending w)
        ])
]

module _ {F : Type 0} where
  pub admit-AllWaiting :
      (s : TagScheduler F) (tag : Bytes) (op : Option Operation)
      → IsUnfinished op
      → AllWaiting s.tags
      → AllWaiting (admit s tag op).0.tags
  unfolding admit reject_global reject_per_tag enqueue
  admit-AllWaiting s tag none u a = a
  admit-AllWaiting s tag (some op) u a =
      admit_cases (λ r. AllWaiting r.0.tags) s tag op a
        (λ _. insert-AllWaiting tag _ s.tags a (a tag))
        (λ _. insert-AllWaiting tag _ s.tags a (a tag))
        (λ _.
          insert-AllWaiting tag _ s.tags a
            (All-append (Waiting tag) _ (hooked tag op ∷ []) (a tag) ((refl, refl, refl, u), tt)))

  pub taken-AllWaiting :
      (s : TagScheduler F) (tag : Bytes) (op : Operation) (rest : List Operation)
      → (tag_state tag s.tags).pending ≡ op ∷ rest
      → AllWaiting s.tags
      → AllWaiting (taken s tag (tag_state tag s.tags) rest).tags
  taken-AllWaiting s tag op rest e a =
      let w : All (Waiting tag) (op ∷ rest) = rw e at (a tag) in
      insert-AllWaiting tag (dispatched (tag_state tag s.tags) rest) s.tags a w.1

  pub drop_idle-AllWaiting :
      (s : TagScheduler F) (tag : Bytes)
      → IsDistinct s.tags
      → AllWaiting s.tags
      → AllWaiting (drop_idle s tag).tags
  unfolding drop_idle
  drop_idle-AllWaiting s tag d a =
      if_all (λ r. AllWaiting r.tags) (is_idle (tag_state tag s.tags))
        {x = record s { tags = erase tag s.tags }} {y = s} (erase-AllWaiting tag s.tags d a) a

  -- A write that keeps the queue of its tag.
  kept-AllWaiting :
      (s : TagScheduler F) (tag : Bytes) (st v : TagState)
      → lookup tag s.tags ≡ some st
      → v.pending ≡ st.pending
      → AllWaiting s.tags
      → AllWaiting (insert tag v s.tags)
  kept-AllWaiting s tag st v e h a =
      insert-AllWaiting tag v s.tags a (rw h (rw (tag_state-found tag s.tags st e) at (a tag)))

  pub on_first_byte-AllWaiting :
      (s : TagScheduler F) (tag : Bytes) → AllWaiting s.tags → AllWaiting (on_first_byte s tag).tags
  unfolding on_first_byte
  on_first_byte-AllWaiting s tag a = elim (Option-cases (lookup tag s.tags)) [
    | inl e ↦ rw (e, on_first_byte) a
    | inr (st, e) ↦
        rw (e, on_first_byte)
          (if_all (λ r. AllWaiting r.tags) (ltb 0 st.starving)
            {x = record s { tags = insert tag (record st { starving = st.starving - 1 }) s.tags }}
            {y = s} (kept-AllWaiting s tag st _ e refl a) a)
  ]

  pub on_done-AllWaiting :
      (s : TagScheduler F) (tag : Bytes) (still : Bool)
      → IsDistinct s.tags
      → AllWaiting s.tags
      → AllWaiting (on_done s tag still).tags
  unfolding on_done
  on_done-AllWaiting s tag still d a = elim (Option-cases (lookup tag s.tags)) [
    | inl e ↦ rw (e, on_done) a
    | inr (st, e) ↦
        rw (e, on_done)
          (drop_idle-AllWaiting _ tag (insert-IsDistinct tag (released st still) s.tags d)
            (kept-AllWaiting s tag st (released st still) e refl a))
  ]

  pub expire-AllWaiting :
      (s : TagScheduler F) (now : ℕ)
      → IsDistinct s.tags
      → AllWaiting s.tags
      → AllWaiting (expire s now).0.tags
  unfolding expire
  expire-AllWaiting s now d a = sweep_tags-AllWaiting now s.tags d a

  pub fire_first_byte-AllWaiting :
      (s : TagScheduler F) (op : Operation)
      → AllWaiting s.tags
      → AllWaiting (fire_first_byte s op).0.tags
  unfolding fire_first_byte
  fire_first_byte-AllWaiting s op a = elim (Option-cases op.on_first_byte_hook) [
    | inl e ↦ rw (e, fire_first_byte) a
    | inr (tag, e) ↦ elim (Bool-cases op.first_byte) [
      | inl b ↦ rw (e, b, fire_first_byte) a
      | inr b ↦ rw (e, b, fire_first_byte) (on_first_byte-AllWaiting s tag a)
    ]
  ]

  pub set_done-AllWaiting :
      (s : TagScheduler F) (op : Operation)
      → IsDistinct s.tags
      → AllWaiting s.tags
      → AllWaiting (set_done s op).0.tags
  unfolding set_done
  set_done-AllWaiting s op d a = elim (Option-cases op.on_done_hook) [
    | inl e ↦ rw (e, set_done) a
    | inr (tag, e) ↦ elim (Bool-cases op.done_hook_fired) [
      | inl b ↦ rw (e, b, set_done) a
      | inr b ↦ rw (e, b, set_done) (on_done-AllWaiting s tag (not op.first_byte) d a)
    ]
  ]
