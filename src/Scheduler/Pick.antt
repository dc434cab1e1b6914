-- ===== src/Scheduler/Pick.antt =====
-- src/XrdClCurl/XrdClCurlTagScheduler.cc: PickTag_locked and OnMonitorTick, the code that reads and
-- maintains the weights.
use xrdcl_pelican.Prelude.{
  ℕ, ◌-◌, Bool, true, false, not, ◌&&◌, ◌||◌, none, some, List, [], ◌∷◌, ◌++◌,
}
use xrdcl_pelican.Prelude.Tests.{ltb, leb, if◌then◌else◌}
use xrdcl_pelican.Prelude.Lists.{length}
use xrdcl_pelican.Prelude.Bytes.{Bytes}
use xrdcl_pelican.Prelude.Int.{ℤ, pos, negsuc, ge_int, is_positive}
use xrdcl_pelican.Prelude.Assoc.{lookup, insert}
use xrdcl_pelican.Scheduler.State.{Doubles, Operation, TagState, TagScheduler}

abbrev pub no_ops : List Operation → Bool
no_ops [] = true
no_ops (op ∷ ops) = false

-- `sizeof(cands) / sizeof(cands[0])`.
abbrev pub max_candidates : ℕ
max_candidates = 32

-- The count of a positive number of seconds.
seconds_of : ℤ → ℕ
seconds_of (pos n) = n
seconds_of (negsuc n) = 0

module _ {F : Type 0} where
  -- The three `continue` tests of the loop.
  unfoldable pub eligible : TagScheduler F → TagState → Bool
  eligible s st =
      not (no_ops st.pending)
      && not (ge_int st.starving s.starving_cap)
      && not (ge_int st.active s.active_cap)

module _ {F : Type 0} ⦃d : Doubles F⦄ where
  weight : TagScheduler F → Bytes → F
  weight s tag = d.quot d.one_f (d.add d.one_f ema)
    where
      ema : F
      ema = elim (lookup tag s.ema_snapshot) [ none ↦ d.zero_f | some e ↦ e ]

  -- The loop over `m_tags`: the candidates so far, and the weight of every eligible tag so far.
  unfoldable pub scan :
      TagScheduler F → List (Bytes × TagState) → List (Bytes × F) → F → List (Bytes × F) × F
  unfolding weight
  scan s [] cands total = (cands, total)
  scan s ((tag, st) ∷ m) cands total =
      scan s m
        (if eligible s st && ltb (length cands) max_candidates
          then cands ++ ((tag, weight s tag) ∷ [])
          else cands)
        (if eligible s st then d.add total (weight s tag) else total)

  -- The walk along the candidates; `last` is the fallback for floating-point drift.
  unfoldable pub walk : F → Bytes → List (Bytes × F) → Bytes
  walk r last [] = last
  walk r last ((tag, w) ∷ cs) = if d.le_f (d.sub r w) d.zero_f then tag else walk (d.sub r w) tag cs

  -- `draw total` is what the uniform distribution over [0, total) gives.
  unfoldable pub pick_tag : TagScheduler F → (F → F) → Bytes
  pick_tag s draw = let (cands, total) = scan s s.tags [] d.zero_f in walk (draw total) [] cands

  decay : F → List (Bytes × F) → List (Bytes × F)
  decay alpha [] = []
  decay alpha ((tag, e) ∷ m) = (tag, d.mul e (d.sub d.one_f alpha)) ∷ decay alpha m

  fold_in : F → List (Bytes × TagState) → List (Bytes × F) → List (Bytes × F)
  fold_in alpha [] emas = emas
  fold_in alpha ((tag, st) ∷ m) emas = fold_in alpha m (insert tag folded emas)
    where
      e : F
      e = elim (lookup tag emas) [ none ↦ d.zero_f | some found ↦ found ]

      folded : F
      folded = d.add e (d.mul alpha (d.of_int st.active))

  drop_noise : List (Bytes × F) → List (Bytes × F)
  drop_noise [] = []
  drop_noise ((tag, e) ∷ m) =
      let rest = drop_noise m in if d.lt_f e d.noise then rest else (tag, e) ∷ rest

  unfoldable pub on_monitor_tick : TagScheduler F → ℕ → TagScheduler F
  unfolding decay fold_in drop_noise seconds_of
  on_monitor_tick s now = record s {
    last_tick = now;
    ema_snapshot =
        if leb now s.last_tick || not (is_positive s.cfg.ema_window)
        then s.ema_snapshot
        else drop_noise (fold_in alpha s.tags (decay alpha s.ema_snapshot));
  }
    where
      alpha : F
      alpha = d.sub d.one_f (
          d.exp (
            d.quot (d.negate (d.seconds (now - s.last_tick)))
              (d.of_int (seconds_of s.cfg.ema_window))))
