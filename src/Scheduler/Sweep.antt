-- ===== src/Scheduler/Sweep.antt =====
-- Expire: what the sweep over the tags keeps, takes out and counts.
use xrdcl_pelican.Prelude.{ℕ, ◌+◌, ◌≤◌, ◌<◌, ◌≡◌, refl, inl, inr, none, some, List, [], ◌∷◌, arith}
use xrdcl_pelican.Prelude.Tests.{if◌then◌else◌, Option-cases}
use xrdcl_pelican.Prelude.Lists.{length, length-append, All}
use xrdcl_pelican.Prelude.Bytes.{Bytes, beq_iff}
use xrdcl_pelican.Prelude.Assoc.{lookup, IsDistinct, total}
use xrdcl_pelican.Scheduler.State.{Operation, TagState, TagScheduler, tag_state}
use xrdcl_pelican.Scheduler.Queue.{is_idle, sweep, sweep_tags, expire}
use xrdcl_pelican.Scheduler.Counters.{SameCounters}

length-sweep :
    (now : ℕ) (ops : List Operation)
    → length (sweep now ops).0 + length (sweep now ops).1 ≡ length ops
unfolding sweep
length-sweep now [] = omega arith
length-sweep now (op ∷ ops) = ground (arith, length-sweep now ops)

-- The operations that stay have not passed their deadline.
abbrev pub IsCurrent : ℕ → Operation → Type 0
IsCurrent now op = now ≤ op.expiry

-- Those taken out have, and hold no hook any more.
abbrev pub IsExpired : ℕ → Operation → Type 0
IsExpired now op = (op.expiry < now) × (op.on_first_byte_hook ≡ none) × (op.on_done_hook ≡ none)

pub sweep-All :
    (now : ℕ) (ops : List Operation)
    → All (IsCurrent now) (sweep now ops).0 × All (IsExpired now) (sweep now ops).1
unfolding sweep
sweep-All now [] = (tt, tt)
sweep-All now (op ∷ ops) = ground (arith, sweep-All now ops)

pub lookup-sweep_tags-none :
    (now : ℕ) (k : Bytes) (m : List (Bytes × TagState))
    → lookup k m ≡ none
    → lookup k (sweep_tags now m).0 ≡ none
unfolding lookup sweep_tags
lookup-sweep_tags-none now k [] h = refl
lookup-sweep_tags-none now k ((j, st) ∷ m) h = ground (arith, lookup-sweep_tags-none now k m)

pub sweep_tags-IsDistinct :
    (now : ℕ) (m : List (Bytes × TagState)) → IsDistinct m → IsDistinct (sweep_tags now m).0
unfolding sweep_tags
sweep_tags-IsDistinct now [] h = tt
sweep_tags-IsDistinct now ((j, st) ∷ m) h =
    ground (arith, sweep_tags-IsDistinct now m h.1, lookup-sweep_tags-none now j m h.0)

-- No queued operation is lost or made up by the sweep.
pub total-sweep_tags :
    (now : ℕ) (m : List (Bytes × TagState))
    → total (λ st. length st.pending) (sweep_tags now m).0 + length (sweep_tags now m).1
      ≡ total (λ st. length st.pending) m
unfolding total sweep_tags is_idle
total-sweep_tags now [] = omega arith
total-sweep_tags now ((j, st) ∷ m) = ground (
  arith,
  total-sweep_tags now m,
  length-sweep now st.pending,
  length-append (sweep now st.pending).1 (sweep_tags now m).1,
)

-- What is left of a tag's state after the sweep.
abbrev pub swept : ℕ → TagState → TagState
swept now st = record st { pending = (sweep now st.pending).0 }

-- A tag's entry is swept, or is dropped because it is then idle.
pub lookup-sweep_tags :
    (now : ℕ) (k : Bytes) (m : List (Bytes × TagState)) (st : TagState)
    → IsDistinct m
    → lookup k m ≡ some st
    → lookup k (sweep_tags now m).0 ≡ (if is_idle (swept now st) then none else some (swept now st))
unfolding lookup sweep_tags
lookup-sweep_tags now k [] st h e = cc
lookup-sweep_tags now k ((j, v) ∷ m) st h e =
    ground (arith, beq_iff j k, lookup-sweep_tags now k m st h.1, lookup-sweep_tags-none now k m)

sweep_tags_counters :
    (now : ℕ) (k : Bytes) (m : List (Bytes × TagState))
    → IsDistinct m
    → ((tag_state k (sweep_tags now m).0).active ≡ (tag_state k m).active)
      × ((tag_state k (sweep_tags now m).0).starving ≡ (tag_state k m).starving)
unfolding tag_state is_idle
sweep_tags_counters now k m h = elim (Option-cases (lookup k m)) [
  | inl e ↦ ground (arith, lookup-sweep_tags-none now k m e)
  | inr (st, e) ↦ ground (arith, lookup-sweep_tags now k m st h e)
]

module _ {F : Type 0} where
  -- Expiring changes no in-flight counter: an expired operation never held a slot.
  pub expire_counters :
      (s : TagScheduler F) (now : ℕ) (t : Bytes)
      → IsDistinct s.tags
      → SameCounters (expire s now).0 s t
  unfolding expire
  expire_counters s now t h = sweep_tags_counters now t s.tags h
