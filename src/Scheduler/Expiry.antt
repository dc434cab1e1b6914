-- ===== src/Scheduler/Expiry.antt =====
-- Expire as a whole: what comes out, what stays, and that nothing is lost.
use xrdcl_pelican.Prelude.{ℕ, ◌+◌, ◌≡◌, refl, ◌∙◌, inl, inr, true, List, [], ◌∷◌, arith}
use xrdcl_pelican.Prelude.Tests.{ltb, if◌then◌else◌, Option-cases}
use xrdcl_pelican.Prelude.Lists.{length, All, All-append}
use xrdcl_pelican.Prelude.Bytes.{Bytes}
use xrdcl_pelican.Prelude.Assoc.{lookup, IsDistinct}
use xrdcl_pelican.Scheduler.State.{Operation, TagState, TagScheduler, tag_state}
use xrdcl_pelican.Scheduler.Queue.{is_idle, sweep, sweep_tags, expire}
use xrdcl_pelican.Scheduler.Sweep.{
  IsCurrent, IsExpired, sweep-All, total-sweep_tags, lookup-sweep_tags, lookup-sweep_tags-none,
  swept,
}
use xrdcl_pelican.Scheduler.Invariant.{IsValid}

-- The operations that are not past their deadline, in their order.
abbrev pub current : ℕ → List Operation → List Operation
current now [] = []
current now (op ∷ ops) = if ltb op.expiry now then current now ops else op ∷ current now ops

sweep-current : (now : ℕ) (ops : List Operation) → (sweep now ops).0 ≡ current now ops
unfolding sweep
sweep-current now [] = refl
sweep-current now (op ∷ ops) = ground (arith, sweep-current now ops)

idle-pending : (st : TagState) → is_idle st ≡ true → st.pending ≡ []
unfolding is_idle
idle-pending st h = ground arith

pending-sweep_tags :
    (now : ℕ) (t : Bytes) (m : List (Bytes × TagState))
    → IsDistinct m
    → (tag_state t (sweep_tags now m).0).pending ≡ (sweep now (tag_state t m).pending).0
unfolding tag_state sweep
pending-sweep_tags now t m d = elim (Option-cases (lookup t m)) [
  | inl e ↦ ground (arith, e, lookup-sweep_tags-none now t m e)
  | inr (st, e) ↦ ground (arith, e, lookup-sweep_tags now t m st d e, idle-pending (swept now st))
]

IsExpired-All : (now : ℕ) (m : List (Bytes × TagState)) → All (IsExpired now) (sweep_tags now m).1
unfolding sweep_tags
IsExpired-All now [] = tt
IsExpired-All now ((tag, st) ∷ m) =
    All-append (IsExpired now) _ _ (sweep-All now st.pending).1 (IsExpired-All now m)

module _ {F : Type 0} where
  -- On a valid scheduler, Expire returns operations that are past their deadline, their hooks cleared; what stays queued
  -- for any tag is, in order, what the tag's queue held that is not past its deadline; and the total
  -- falls by just the number returned.
  pub expire_lem :
      (s : TagScheduler F) (now : ℕ)
      → IsValid s
      → All (IsExpired now) (expire s now).1
        × ((t : Bytes)
            → All (IsCurrent now) (tag_state t (expire s now).0.tags).pending
              × ((tag_state t (expire s now).0.tags).pending
                  ≡ current now (tag_state t s.tags).pending))
        × ((expire s now).0.total_pending + length (expire s now).1 ≡ s.total_pending)
  unfolding expire
  expire_lem s now v = (
    IsExpired-All now s.tags,
    λ t.
        let e = pending-sweep_tags now t s.tags v.distinct in
        (
          rw e (sweep-All now (tag_state t s.tags).pending).0,
          e ∙ sweep-current now (tag_state t s.tags).pending,
        ),
    omega (arith, v.counted, total-sweep_tags now s.tags),
  )
