-- ===== src/Scheduler/Caps.antt =====
-- The two caps: no tag ever holds more of the workers than they allow.
use xrdcl_pelican.Prelude.{
  ℕ, ◌+◌, ◌≤◌, ◌≡◌, refl, inl, inr, Bool, not, Option, none, some, List, arith,
}
use xrdcl_pelican.Prelude.Tests.{Option-cases, Bool-cases}
use xrdcl_pelican.Prelude.Int.{ℤ, pos, negsuc}
use xrdcl_pelican.Prelude.Bytes.{Bytes, beq}
use xrdcl_pelican.Prelude.Assoc.{IsDistinct}
use xrdcl_pelican.Scheduler.State.{Operation, TagScheduler, tag_state}
use xrdcl_pelican.Scheduler.Queue.{
  reject_global, reject_per_tag, enqueue, admit, drop_idle, on_first_byte, on_done, fire_first_byte,
  set_done,
}
use xrdcl_pelican.Scheduler.Cases.{admit_cases, taken}
use xrdcl_pelican.Scheduler.Counters.{
  active_of, starving_of, SameCounters, tag_state-insert, on_first_byte_counters, on_done_counters,
}
use xrdcl_pelican.Scheduler.Dispatch.{Below, Ready}

abbrev pub AtMost : ℕ → ℤ → Type 0
AtMost n (pos z) = n ≤ z
AtMost n (negsuc z) = n ≡ 0

abbrev pub Capped : {F : Type 0} → TagScheduler F → Type 0
Capped s =
    (t : Bytes) → AtMost (active_of s t) s.active_cap × AtMost (starving_of s t) s.starving_cap

-- Neither cap has changed.
abbrev pub SameCaps : {F : Type 0} → TagScheduler F → TagScheduler F → Type 0
SameCaps s' s = (s'.active_cap ≡ s.active_cap) × (s'.starving_cap ≡ s.starving_cap)

AtMost-le : (m n : ℕ) (z : ℤ) → n ≤ m → AtMost m z → AtMost n z
AtMost-le m n (pos z) h a = omega arith
AtMost-le m n (negsuc z) h a = omega arith

AtMost-suc : (n : ℕ) (z : ℤ) → Below n z → AtMost (n + 1) z
AtMost-suc n (pos z) h = omega arith
AtMost-suc n (negsuc z) h = absurd h

module _ {F : Type 0} where
  -- A change that lowers counters or leaves them keeps them under the caps.
  pub Capped-le :
      (s' s : TagScheduler F)
      → SameCaps s' s
      → ((t : Bytes) → (active_of s' t ≤ active_of s t) × (starving_of s' t ≤ starving_of s t))
      → Capped s
      → Capped s'
  Capped-le s' s (a, b) le c t = (
    rw a (AtMost-le (active_of s t) _ s.active_cap (le t).0 (c t).0),
    rw b (AtMost-le (starving_of s t) _ s.starving_cap (le t).1 (c t).1),
  )

  pub Capped-same :
      (s' s : TagScheduler F)
      → SameCaps s' s
      → ((t : Bytes) → SameCounters s' s t)
      → Capped s
      → Capped s'
  Capped-same s' s k same = Capped-le s' s k (λ t. (omega (arith, same t), omega (arith, same t)))

  pub admit-SameCaps :
      (s : TagScheduler F) (tag : Bytes) (op : Option Operation) → SameCaps (admit s tag op).0 s
  unfolding admit reject_global reject_per_tag enqueue
  admit-SameCaps s tag none = (refl, refl)
  admit-SameCaps s tag (some op) =
      admit_cases (λ r. SameCaps r.0 s) s tag op (refl, refl) (λ _. (refl, refl))
        (λ _. (refl, refl)) (λ _. (refl, refl))

  pub drop_idle-SameCaps : (s : TagScheduler F) (tag : Bytes) → SameCaps (drop_idle s tag) s
  unfolding drop_idle
  drop_idle-SameCaps s tag = ground arith

  on_first_byte-SameCaps : (s : TagScheduler F) (tag : Bytes) → SameCaps (on_first_byte s tag) s
  unfolding on_first_byte
  on_first_byte-SameCaps s tag = ground arith

  on_done-SameCaps :
      (s : TagScheduler F) (tag : Bytes) (still : Bool) → SameCaps (on_done s tag still) s
  unfolding on_done drop_idle
  on_done-SameCaps s tag still = ground arith

  pub fire_first_byte-Capped :
      (s : TagScheduler F) (op : Operation) → Capped s → Capped (fire_first_byte s op).0
  unfolding fire_first_byte
  fire_first_byte-Capped s op c = elim (Option-cases op.on_first_byte_hook) [
    | inl e ↦ rw (e, fire_first_byte) c
    | inr (tag, e) ↦ elim (Bool-cases op.first_byte) [
      | inl b ↦ rw (e, b, fire_first_byte) c
      | inr b ↦
          rw (e, b, fire_first_byte)
            (Capped-le (on_first_byte s tag) s (on_first_byte-SameCaps s tag)
              (λ t. ground (arith, on_first_byte_counters s tag t)) c)
    ]
  ]

  pub set_done-Capped :
      (s : TagScheduler F) (op : Operation)
      → IsDistinct s.tags
      → Capped s
      → Capped (set_done s op).0
  unfolding set_done
  set_done-Capped s op d c = elim (Option-cases op.on_done_hook) [
    | inl e ↦ rw (e, set_done) c
    | inr (tag, e) ↦ elim (Bool-cases op.done_hook_fired) [
      | inl b ↦ rw (e, b, set_done) c
      | inr b ↦
          rw (e, b, set_done)
            (Capped-le (on_done s tag (not op.first_byte)) s
              (on_done-SameCaps s tag (not op.first_byte))
              (λ t. ground (arith, on_done_counters s tag (not op.first_byte) t d)) c)
    ]
  ]

  -- Dispatching from a ready tag stays under the caps.
  pub taken-Capped :
      (s : TagScheduler F) (tag : Bytes) (op : Operation) (rest : List Operation)
      → Ready s tag op rest
      → Capped s
      → Capped (taken s tag (tag_state tag s.tags) rest)
  taken-Capped s tag op rest r c t =
      rw (tag_state-insert, active_of, starving_of, taken)
        (elim (Bool-cases (beq tag t)) [
          | inl e ↦ rw e (
            AtMost-suc _ s.active_cap r.below_active,
            AtMost-suc _ s.starving_cap r.below_starving,
          )
          | inr e ↦ rw e (c t)
        ])
