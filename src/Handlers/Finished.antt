-- ===== src/Handlers/Finished.antt =====
-- src/XrdClCurl/XrdClCurlUtil.cc: what the later steps of the calls of HandlerQueue keep.
use xrdcl_pelican.Prelude.{ℕ, ◌<◌, ◌++◌, List, ◌∷◌, arith}
use xrdcl_pelican.Handlers
use xrdcl_pelican.Handlers.{
  HandlerQueue, Step, notifies, counts_produced, counts_rejected, drains_consumed, counts_consumed,
  drains_expired,
}
use xrdcl_pelican.Handlers.Steps.{
  Balanced, Exact-step, sums-append, writes, reads, producing, consuming, drain_each_lem,
}

module _ {F : Type 0} where
  -- A notification finds room in the pipe.
  abbrev pub HasRoom : ℕ → Step → HandlerQueue F → Type 0
  HasRoom capacity notifies q = q.pipe < capacity
  HasRoom capacity _ q = Unit

  -- A step of the first call.
  pub finish-Balanced :
      (capacity : ℕ) (s : Step) (rest : List Step) (calls : List (List Step)) (gone : ℕ)
      (q : HandlerQueue F)
      → HasRoom capacity s q
      → Balanced q ((s ∷ rest) ∷ calls) gone
      → Balanced (Handlers.finish capacity s q) (rest ∷ calls) gone
  unfolding Handlers.finish
  finish-Balanced capacity notifies rest calls gone q room b = record {
    valid = b.valid;
    woken = ground (arith, b.woken, room);
    exact =
        Exact-step q.scheduler _ _ _ _ _ _ _ _
          (λ x. (omega (arith, x.2), omega (arith, x.1), omega (arith, x.2))) b.exact;
    counted = omega (arith, b.counted);
  }
  finish-Balanced capacity counts_produced rest calls gone q room b = record {
    valid = b.valid;
    woken = omega (arith, b.woken);
    exact =
        Exact-step q.scheduler _ _ _ _ _ _ _ _
          (λ x. (omega (arith, x.0, x.1), omega (arith, x.1), omega (arith, x.2))) b.exact;
    counted = omega (arith, b.counted);
  }
  finish-Balanced capacity counts_rejected rest calls gone q room b = record {
    valid = b.valid;
    woken = omega (arith, b.woken);
    exact =
        Exact-step q.scheduler _ _ _ _ _ _ _ _
          (λ x. (omega (arith, x.0, x.1), omega (arith, x.1), omega (arith, x.2))) b.exact;
    counted = omega (arith, b.counted);
  }
  finish-Balanced capacity drains_consumed rest calls gone q room b = record {
    valid = b.valid;
    woken = omega (arith, b.woken);
    exact =
        Exact-step q.scheduler _ _ _ _ _ _ _ _
          (λ x. (omega (arith, x.0, x.1), omega (arith, x.1), omega (arith, x.2))) b.exact;
    counted = omega (arith, b.counted);
  }
  finish-Balanced capacity counts_consumed rest calls gone q room b = record {
    valid = b.valid;
    woken = omega (arith, b.woken);
    exact =
        Exact-step q.scheduler _ _ _ _ _ _ _ _
          (λ x. (omega (arith, x.0, x.1), omega (arith, x.1), omega (arith, x.2))) b.exact;
    counted = omega (arith, b.counted);
  }
  finish-Balanced capacity (drains_expired expired) rest calls gone q room b = record {
    valid = b.valid;
    woken = omega (arith, b.woken, drain_each_lem expired q.pipe);
    exact =
        Exact-step q.scheduler _ _ _ _ _ _ _ _
          (λ x. (
            omega (arith, x.0, x.1, drain_each_lem expired q.pipe),
            omega (arith, x.1),
            omega (arith, x.2),
          ))
          b.exact;
    counted = omega (arith, b.counted);
  }

  -- The order of the calls does not matter.
  pub moved-Balanced :
      (q : HandlerQueue F) (call : List Step) (xs ys : List (List Step)) (gone : ℕ)
      → Balanced q (xs ++ (call ∷ ys)) gone
      → Balanced q (call ∷ (xs ++ ys)) gone
  moved-Balanced q call xs ys gone b =
      let e = λ (w : Step → ℕ). sums-append w xs (call ∷ ys) in
      let k = λ (w : Step → ℕ). sums-append w xs ys in
      record {
        valid = b.valid;
        woken = omega (arith, b.woken, e reads, k reads, e writes, k writes);
        exact =
            Exact-step q.scheduler _ _ _ _ _ _ _ _
              (λ x.
                (x.0, omega (arith, x.1, e reads, k reads), omega (arith, x.2, e writes, k writes)))
              b.exact;
        counted = omega (arith, b.counted, e producing, k producing, e consuming, k consuming);
      }

  pub back-Balanced :
      (q : HandlerQueue F) (call : List Step) (xs ys : List (List Step)) (gone : ℕ)
      → Balanced q (call ∷ (xs ++ ys)) gone
      → Balanced q (xs ++ (call ∷ ys)) gone
  back-Balanced q call xs ys gone b =
      let e = λ (w : Step → ℕ). sums-append w xs (call ∷ ys) in
      let k = λ (w : Step → ℕ). sums-append w xs ys in
      record {
        valid = b.valid;
        woken = omega (arith, b.woken, e reads, k reads, e writes, k writes);
        exact =
            Exact-step q.scheduler _ _ _ _ _ _ _ _
              (λ x.
                (x.0, omega (arith, x.1, e reads, k reads), omega (arith, x.2, e writes, k writes)))
              b.exact;
        counted = omega (arith, b.counted, e producing, k producing, e consuming, k consuming);
      }
