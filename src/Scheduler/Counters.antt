-- ===== src/Scheduler/Counters.antt =====
-- What each operation of the scheduler does to the counters of every tag.
use xrdcl_pelican.Prelude.{ℕ, ◌-◌, ◌≡◌, refl, inl, inr, Bool, ◌&&◌, Option, none, some, List, arith}
use xrdcl_pelican.Prelude.Tests.{if◌then◌else◌, Bool-cases, Option-cases}
use xrdcl_pelican.Prelude.Bytes.{Bytes, beq, beq_iff}
use xrdcl_pelican.Prelude.Assoc.{
  lookup, insert, erase, IsDistinct, lookup-insert, lookup-erase, insert-IsDistinct,
}
use xrdcl_pelican.Scheduler.State.{Operation, TagState, TagScheduler, fresh_state, tag_state}
use xrdcl_pelican.Scheduler.Cases.{admit_cases}
use xrdcl_pelican.Scheduler.Queue.{
  reject_global, reject_per_tag, enqueue, is_idle, admit, drop_idle, on_first_byte, released,
  on_done,
}

pub tag_state-insert :
    (k t : Bytes) (v : TagState) (m : List (Bytes × TagState))
    → tag_state t (insert k v m) ≡ (if beq k t then v else tag_state t m)
unfolding tag_state
tag_state-insert k t v m = ground (arith, lookup-insert k t v m)

pub tag_state-erase :
    (k t : Bytes) (m : List (Bytes × TagState))
    → IsDistinct m
    → tag_state t (erase k m) ≡ (if beq k t then fresh_state else tag_state t m)
unfolding tag_state
tag_state-erase k t m d = ground (arith, lookup-erase k t m d)

-- A write that keeps a reading of the tag keeps that reading of every tag.
pub tag_state-insert_same {ℓ} :
    {A : Type ℓ} (f : TagState → A) (k t : Bytes) (v : TagState) (m : List (Bytes × TagState))
    → f v ≡ f (tag_state k m)
    → f (tag_state t (insert k v m)) ≡ f (tag_state t m)
tag_state-insert_same f k t v m h =
    rw tag_state-insert (elim (Bool-cases (beq k t)) [
      | inl e ↦ rw e (rw (← (beq_iff k t).0 e) h)
      | inr e ↦ rw e refl
    ])

pub tag_state-found :
    (k : Bytes) (m : List (Bytes × TagState)) (st : TagState)
    → lookup k m ≡ some st
    → tag_state k m ≡ st
unfolding tag_state
tag_state-found k m st h = rw (h, tag_state)

pub tag_state-missing :
    (k : Bytes) (m : List (Bytes × TagState)) → lookup k m ≡ none → tag_state k m ≡ fresh_state
unfolding tag_state
tag_state-missing k m h = rw (h, tag_state)

module _ {F : Type 0} where
  -- The counters of a tag, 0 where the tag has no entry.
  abbrev pub active_of : TagScheduler F → Bytes → ℕ
  active_of s t = (tag_state t s.tags).active

  abbrev pub starving_of : TagScheduler F → Bytes → ℕ
  starving_of s t = (tag_state t s.tags).starving

  -- The in-flight counters of `t` read the same in both.
  abbrev pub SameCounters : TagScheduler F → TagScheduler F → Bytes → Type 0
  SameCounters s' s t = (active_of s' t ≡ active_of s t) × (starving_of s' t ≡ starving_of s t)

  -- Admission changes no in-flight counter, whatever its verdict.
  pub admit_counters :
      (s : TagScheduler F) (tag : Bytes) (op : Option Operation) (t : Bytes)
      → SameCounters (admit s tag op).0 s t
  unfolding admit reject_global reject_per_tag enqueue
  admit_counters s tag none t = (refl, refl)
  admit_counters s tag (some op) t =
      admit_cases (λ r. SameCounters r.0 s t) s tag op (refl, refl) (λ _. written _ refl refl)
        (λ _. written _ refl refl) (λ _. written _ refl refl)
    where
      written :
          (v : TagState)
          → v.active ≡ active_of s tag
          → v.starving ≡ starving_of s tag
          → SameCounters (record s { tags = insert tag v s.tags }) s t
      written v a b = (
        tag_state-insert_same (λ st. st.active) tag t v s.tags a,
        tag_state-insert_same (λ st. st.starving) tag t v s.tags b,
      )

  -- Erasing an idle entry changes no counter.
  pub drop_idle_counters :
      (s : TagScheduler F) (tag t : Bytes) → IsDistinct s.tags → SameCounters (drop_idle s tag) s t
  unfolding drop_idle is_idle
  drop_idle_counters s tag t h = ground (arith, tag_state-erase tag t s.tags h, beq_iff tag t)

  -- The first byte takes one starving operation off its own tag, and nothing else.
  pub on_first_byte_counters :
      (s : TagScheduler F) (tag t : Bytes)
      → (active_of (on_first_byte s tag) t ≡ active_of s t)
        × (starving_of (on_first_byte s tag) t
            ≡ (if beq tag t then starving_of s t - 1 else starving_of s t))
  unfolding on_first_byte
  on_first_byte_counters s tag t = elim (Option-cases (lookup tag s.tags)) [
    | inl e ↦ rw (e, on_first_byte) (ground (arith, tag_state-missing tag s.tags e, beq_iff tag t))
    | inr (st, e) ↦
        rw (e, on_first_byte)
          (ground (
            arith,
            tag_state-found tag s.tags st e,
            beq_iff tag t,
            tag_state-insert tag t (record st { starving = st.starving - 1 }) s.tags,
          ))
  ]

  -- Completion takes the operation off its own tag's counters, and nothing else.
  pub on_done_counters :
      (s : TagScheduler F) (tag : Bytes) (still : Bool) (t : Bytes)
      → IsDistinct s.tags
      → (active_of (on_done s tag still) t
          ≡ (if beq tag t then active_of s t - 1 else active_of s t))
        × (starving_of (on_done s tag still) t
            ≡ (if beq tag t && still then starving_of s t - 1 else starving_of s t))
  unfolding on_done
  on_done_counters s tag still t h = elim (Option-cases (lookup tag s.tags)) [
    | inl e ↦ rw (e, on_done) (ground (arith, tag_state-missing tag s.tags e, beq_iff tag t))
    | inr (st, e) ↦
        rw (e, on_done)
          (ground (
            arith,
            tag_state-found tag s.tags st e,
            beq_iff tag t,
            tag_state-insert tag t (released st still) s.tags,
            drop_idle_counters (record s { tags = insert tag (released st still) s.tags }) tag t
                (insert-IsDistinct tag (released st still) s.tags h),
          ))
  ]
