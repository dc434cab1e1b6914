-- ===== src/Scheduler/Unnamed.antt =====
-- The empty tag: PickTag_locked returns "" for "nothing to dispatch", so an operation admitted
-- under the tag "" is never taken.
use xrdcl_pelican.Prelude.{◌≡◌, refl, ◌∙◌, false, [], ◌∷◌, arith}
use xrdcl_pelican.Prelude.Bytes.{Bytes, beq, is_empty}
use xrdcl_pelican.Prelude.Assoc.{lookup, IsDistinct, lookup-insert, lookup-erase, insert-IsDistinct}
use xrdcl_pelican.Scheduler.State.{Doubles, TagState, TagScheduler}
use xrdcl_pelican.Scheduler.Pick.{pick_tag}
use xrdcl_pelican.Scheduler.Queue.{take_front, drop_idle, dispatched, try_consume, consume_pass}
use xrdcl_pelican.Scheduler.Cases.{front, take_front_cases, try_consume_cases, consume_pass_cases}

beq-empty : (t : Bytes) → is_empty t ≡ false → beq t [] ≡ false
beq-empty [] h = cc
beq-empty (c ∷ t) h = refl

module _ {F : Type 0} where
  -- Nothing about the empty tag has changed.
  abbrev SameUnnamed : TagScheduler F → TagScheduler F → Type 0
  SameUnnamed s' s = lookup [] s'.tags ≡ lookup [] s.tags

  take_front-SameUnnamed :
      (s : TagScheduler F) (tag : Bytes) (st : TagState)
      → is_empty tag ≡ false
      → SameUnnamed (take_front s tag st).0 s
  take_front-SameUnnamed s tag st h =
      take_front_cases (λ r. SameUnnamed r.0 s) s tag st (λ _. refl)
        (λ op rest _.
          ground (arith, lookup-insert tag [] (dispatched st rest) s.tags, beq-empty tag h))

  take_front-IsDistinct :
      (s : TagScheduler F) (tag : Bytes) (st : TagState)
      → IsDistinct s.tags
      → IsDistinct (take_front s tag st).0.tags
  take_front-IsDistinct s tag st d =
      take_front_cases (λ r. IsDistinct r.0.tags) s tag st (λ _. d)
        (λ op rest _. insert-IsDistinct tag (dispatched st rest) s.tags d)

  drop_idle-SameUnnamed :
      (s : TagScheduler F) (tag : Bytes)
      → IsDistinct s.tags
      → is_empty tag ≡ false
      → SameUnnamed (drop_idle s tag) s
  unfolding drop_idle
  drop_idle-SameUnnamed s tag d h = ground (arith, lookup-erase tag [] s.tags d, beq-empty tag h)

module _ {F : Type 0} ⦃d : Doubles F⦄ where
  -- Whatever is drawn, neither TryConsume nor a pass of Consume touches what is queued under the
  -- empty tag.
  pub consume_unnamed :
      (s : TagScheduler F) (draw : F → F)
      → IsDistinct s.tags
      → (lookup [] (try_consume s draw).0.tags ≡ lookup [] s.tags)
        × (lookup [] (consume_pass s draw).0.tags ≡ lookup [] s.tags)
  consume_unnamed s draw h = (
    try_consume_cases (λ r. SameUnnamed r.0 s) s draw refl
        (λ _ drawn. take_front-SameUnnamed s (pick_tag s draw) _ drawn),
    consume_pass_cases (λ r. SameUnnamed r.0 s) s draw (λ _. refl) (λ _ _. refl)
        (λ _ drawn.
          drop_idle-SameUnnamed (front s draw).0 (pick_tag s draw)
            (take_front-IsDistinct s (pick_tag s draw) _ h) drawn
          ∙ take_front-SameUnnamed s (pick_tag s draw) _ drawn),
  )
