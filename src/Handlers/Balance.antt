-- ===== src/Handlers/Balance.antt =====
-- src/XrdClCurl/XrdClCurlUtil.cc: the pipe and the counters of a HandlerQueue over its runs.
use xrdcl_pelican.Prelude.{ℕ, ◌+◌, ◌<◌, ◌++◌, ◌≡◌, Bool, some, List, [], ◌∷◌}
use xrdcl_pelican.Prelude.Lists.{All, length}
use xrdcl_pelican.Prelude.Bytes.{Bytes}
use xrdcl_pelican.Scheduler.State.{Doubles, Operation}
use xrdcl_pelican.Handlers
use xrdcl_pelican.Handlers.{HandlerQueue, Step}
use xrdcl_pelican.Handlers.Finished.{HasRoom}

-- The calls of producers, workers and the maintenance loop, their steps interleaved in any way, on a
-- queue whose pipe has room for `capacity` bytes. `calls` are the calls in progress, and `gone` counts
-- the operations that Expire removed.
pub data Run {F : Type 0} ⦃d : Doubles F⦄ (capacity : ℕ) (q₀ : HandlerQueue F)
    : HandlerQueue F → List (List Step) → ℕ → Type 0 where
  begins : Run capacity q₀ q₀ [] 0
  produces :
      (q : HandlerQueue F) (calls : List (List Step)) (gone : ℕ) (url : Bytes) (op : Operation)
      (now : ℕ) (r : HandlerQueue F × Bool × List Step)
      → Run capacity q₀ q calls gone
      → q.pipe < capacity
      → Handlers.try_produce capacity q url op now ≡ some r
      → Run capacity q₀ r.0 (r.2 ∷ calls) gone
  tries :
      (q : HandlerQueue F) (calls : List (List Step)) (gone : ℕ) (draw : F → F)
      → Run capacity q₀ q calls gone
      → Run capacity q₀
          (Handlers.try_consume q draw).0
          ((Handlers.try_consume q draw).2 ∷ calls)
          gone
  consumes :
      (q : HandlerQueue F) (calls : List (List Step)) (gone : ℕ) (draw : F → F)
      → Run capacity q₀ q calls gone
      → Run capacity q₀ (Handlers.consume q draw).0 ((Handlers.consume q draw).2 ∷ calls) gone
  expires :
      (q : HandlerQueue F) (calls : List (List Step)) (gone now : ℕ)
      → Run capacity q₀ q calls gone
      → Run capacity q₀
          (Handlers.expire q now).0
          ((Handlers.expire q now).2 ∷ calls)
          (gone + length (Handlers.expire q now).1)
  finishes :
      (q : HandlerQueue F) (s : Step) (rest : List Step) (xs ys : List (List Step)) (gone : ℕ)
      → Run capacity q₀ q (xs ++ ((s ∷ rest) ∷ ys)) gone
      → HasRoom capacity s q
      → Run capacity q₀ (Handlers.finish capacity s q) (xs ++ (rest ∷ ys)) gone
  shuts :
      (q : HandlerQueue F) (calls : List (List Step)) (gone : ℕ)
      → Run capacity q₀ q calls gone
      → Run capacity q₀ (Handlers.shutdown q) calls gone

-- No call is in progress.
abbrev pub Quiet : List (List Step) → Type 0
Quiet calls = All (λ call. call ≡ []) calls
