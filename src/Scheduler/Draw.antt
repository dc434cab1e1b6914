-- ===== src/Scheduler/Draw.antt =====
-- The weighted draw of PickTag_locked, whatever the weights and the random number are.
use xrdcl_pelican.Prelude.{
  ◌≤◌, ◌≡◌, refl, ◌⊎◌, inl, inr, ◌≢◌, Bool, true, false, ◌&&◌, some, List, [], ◌∷◌, ◌++◌, arith,
}
use xrdcl_pelican.Prelude.Tests.{ltb, if◌then◌else◌, Bool-cases}
use xrdcl_pelican.Prelude.Lists.{length, length-append, All, All-append}
use xrdcl_pelican.Prelude.Bytes.{Bytes}
use xrdcl_pelican.Prelude.Assoc.{lookup, IsDistinct, IsDistinct-Listed}
use xrdcl_pelican.Scheduler.State.{Doubles, TagState, TagScheduler}
use xrdcl_pelican.Scheduler.Pick.{eligible, max_candidates, scan, walk, pick_tag}

-- The tag has an entry that passes the three tests of the loop.
pub record Offered {F : Type 0} (s : TagScheduler F) (tag : Bytes) : Type 0 where
  pub state : TagState
  pub found : lookup tag s.tags ≡ some state
  pub is_eligible : eligible s state ≡ true

module _ {F : Type 0} ⦃d : Doubles F⦄ where
  scan-Offered :
      (s : TagScheduler F) (m : List (Bytes × TagState)) (cands : List (Bytes × F)) (total : F)
      → All (λ e. lookup e.0 s.tags ≡ some e.1) m
      → All (λ c. Offered s c.0) cands
      → All (λ c. Offered s c.0) (scan s m cands total).0
  unfolding scan
  scan-Offered s [] cands total h a = a
  scan-Offered s ((tag, st) ∷ m) cands total h a = scan-Offered s m _ _ h.1 (
      extended (eligible s st) (ltb (length cands) max_candidates) _
        (λ e. record { state = st; found = h.0; is_eligible = e }))
    where
      extended :
          (e room : Bool) (w : F)
          → (e ≡ true → Offered s tag)
          → All (λ c. Offered s c.0) (if e && room then cands ++ ((tag, w) ∷ []) else cands)
      extended true true w o = All-append (λ c. Offered s c.0) cands _ a (o refl, tt)
      extended true false w o = a
      extended false room w o = a

  walk-All :
      (P : Bytes → Type 0) (r : F) (last : Bytes) (cs : List (Bytes × F))
      → P last
      → All (λ c. P c.0) cs
      → P (walk r last cs)
  unfolding walk
  walk-All P r last [] p a = p
  walk-All P r last ((tag, w) ∷ cs) p a = elim (Bool-cases (d.le_f (d.sub r w) d.zero_f)) [
    | inl e ↦ rw (e, walk) a.0
    | inr e ↦ rw (e, walk) (walk-All P (d.sub r w) tag cs a.0 a.1)
  ]

  walk-nonempty :
      (P : Bytes → Type 0) (r : F) (last : Bytes) (cs : List (Bytes × F))
      → cs ≢ []
      → All (λ c. P c.0) cs
      → P (walk r last cs)
  unfolding walk
  walk-nonempty P r last [] h a = absurd (h refl)
  walk-nonempty P r last ((tag, w) ∷ cs) h a = elim (Bool-cases (d.le_f (d.sub r w) d.zero_f)) [
    | inl e ↦ rw (e, walk) a.0
    | inr e ↦ rw (e, walk) (walk-All P (d.sub r w) tag cs a.0 a.1)
  ]

  -- No entry of the list passes the tests.
  abbrev pub Idle : TagScheduler F → List (Bytes × TagState) → Type 0
  Idle s m = All (λ e. eligible s e.1 ≡ false) m

  offer-ne-nil :
      (cands : List (Bytes × F)) (e room : Bool) (tag : Bytes) (w : F)
      → cands ≢ []
      → (if e && room then cands ++ ((tag, w) ∷ []) else cands) ≢ []
  offer-ne-nil [] e room tag w h = absurd (h refl)
  offer-ne-nil (c ∷ cands) true true tag w h = λ e. cc
  offer-ne-nil (c ∷ cands) true false tag w h = h
  offer-ne-nil (c ∷ cands) false room tag w h = h

  scan-ne-nil :
      (s : TagScheduler F) (m : List (Bytes × TagState)) (cands : List (Bytes × F)) (total : F)
      → cands ≢ []
      → (scan s m cands total).0 ≢ []
  unfolding scan
  scan-ne-nil s [] cands total h = h
  scan-ne-nil s ((tag, st) ∷ m) cands total h =
      scan-ne-nil s m _ _ (offer-ne-nil cands (eligible s st) _ tag _ h)

  scan-Idle :
      (s : TagScheduler F) (m : List (Bytes × TagState)) (total : F)
      → ((scan s m [] total).0 ≢ []) ⊎ (((scan s m [] total).0 ≡ []) × Idle s m)
  unfolding scan
  scan-Idle s [] total = inr (refl, tt)
  scan-Idle s ((tag, st) ∷ m) total = elim (Bool-cases (eligible s st)) [
    | inl e ↦ inl (rw (e, scan) (scan-ne-nil s m _ _ (λ e. cc)))
    | inr e ↦ elim (scan-Idle s m total) [
      | inl h ↦ inl (rw (e, scan) h)
      | inr (h, idle) ↦ inr (rw (e, scan) h, (e, idle))
    ]
  ]

  -- Whatever is drawn, an eligible tag is named; or no entry is eligible, and the empty name is
  -- returned.
  pub pick_tag-Offered :
      (s : TagScheduler F) (draw : F → F)
      → IsDistinct s.tags
      → Offered s (pick_tag s draw) ⊎ ((pick_tag s draw ≡ []) × Idle s s.tags)
  unfolding pick_tag
  pick_tag-Offered s draw h = elim (scan-Idle s s.tags d.zero_f) [
    | inl some_cand ↦ inl (
        walk-nonempty (Offered s) _ [] _ some_cand
          (scan-Offered s s.tags [] _ (IsDistinct-Listed s.tags h) tt))
    | inr (none_cand, idle) ↦ inr (rw none_cand (unfold walk in refl), idle)
  ]

  length-offer :
      (cands : List (Bytes × F)) (e : Bool) (tag : Bytes) (w : F)
      → length cands ≤ max_candidates
      → length (if e && ltb (length cands) max_candidates then cands ++ ((tag, w) ∷ []) else cands)
        ≤ max_candidates
  length-offer cands e tag w h = ground (arith, length-append cands ((tag, w) ∷ []))

  -- The array of candidates is never written past its end.
  pub length-scan :
      (s : TagScheduler F) (m : List (Bytes × TagState)) (cands : List (Bytes × F)) (total : F)
      → length cands ≤ max_candidates
      → length (scan s m cands total).0 ≤ max_candidates
  unfolding scan
  length-scan s [] cands total h = h
  length-scan s ((tag, st) ∷ m) cands total h =
      length-scan s m _ _ (length-offer cands (eligible s st) tag _ h)
