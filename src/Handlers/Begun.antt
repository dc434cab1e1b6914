-- ===== src/Handlers/Begun.antt =====
-- src/XrdClCurl/XrdClCurlUtil.cc: what the first critical sections of the calls of HandlerQueue keep.
use xrdcl_pelican.Prelude.{
  ℕ, ◌+◌, ◌<◌, ◌≡◌, refl, ap, inl, inr, Bool, true, false, ◌||◌, Option, none, some, List, [], ◌∷◌,
  arith,
}
use mathlib.Core.Path.{subst}
use mathlib.Core.Option.{some-injective}
use xrdcl_pelican.Prelude.Tests.{ltb, leb, if_all, Bool-cases, Option-cases}
use xrdcl_pelican.Prelude.Lists.{length, length-append}
use xrdcl_pelican.Prelude.Bytes.{Bytes}
use xrdcl_pelican.Scheduler.State.{Doubles, Operation, TagScheduler}
use xrdcl_pelican.Scheduler.Queue
use xrdcl_pelican.Scheduler.Invariant.{
  IsValid, admit-IsValid, try_consume-IsValid, consume_pass-IsValid, expire-IsValid,
}
use xrdcl_pelican.Handlers
use xrdcl_pelican.Handlers.{HandlerQueue, Step, drains_expired}
use xrdcl_pelican.Handlers.Tag.{scheduler_tag_for}
use xrdcl_pelican.Handlers.Steps.{
  Balanced, Exact-step, waiting, one_of, one_if, admit_total, try_total, pass_total, expire_total,
  throw_away_lem, split_expired_total,
}

module _ {F : Type 0} where
  -- A new call joins the calls in progress.
  admitted-Balanced :
      (calls : List (List Step)) (gone : ℕ) (q : HandlerQueue F) (s s' : TagScheduler F)
      (accepted : Bool)
      → q.scheduler ≡ some s
      → IsValid s'
      → s'.total_pending ≡ s.total_pending + one_if accepted
      → Balanced q calls gone
      → Balanced
          (Handlers.admitted q (s', accepted)).0
          ((Handlers.admitted q (s', accepted)).2 ∷ calls)
          gone
  unfolding Handlers.admitted
  admitted-Balanced calls gone q s s' true e v t b =
      let w : waiting q ≡ s.total_pending = rw e refl in
      record {
        valid = v;
        woken = omega (arith, b.woken, w, t);
        exact = tt;
        counted = omega (arith, b.counted, w, t);
      }
  admitted-Balanced calls gone q s s' false e v t b =
      let w : waiting q ≡ s.total_pending = rw e refl in
      record {
        valid = v;
        woken = omega (arith, b.woken, w, t);
        exact = tt;
        counted = omega (arith, b.counted, w, t);
      }

  given-Balanced :
      (calls : List (List Step)) (gone : ℕ) (q : HandlerQueue F) (s s' : TagScheduler F)
      (op : Option Operation)
      → q.scheduler ≡ some s
      → IsValid s'
      → s'.total_pending + one_of op ≡ s.total_pending
      → Balanced q calls gone
      → Balanced (Handlers.given q (s', op)).0 ((Handlers.given q (s', op)).2 ∷ calls) gone
  unfolding Handlers.given
  given-Balanced calls gone q s s' none e v t b =
      let w : waiting q ≡ s.total_pending = rw e refl in
      record {
        valid = v;
        woken = omega (arith, b.woken, w, t);
        exact = tt;
        counted = omega (arith, b.counted, w, t);
      }
  given-Balanced calls gone q s s' (some op) e v t b =
      let w : waiting q ≡ s.total_pending = rw e refl in
      record {
        valid = v;
        woken = omega (arith, b.woken, w, t);
        exact = tt;
        counted = omega (arith, b.counted, w, t);
      }

  fifo_waiting : (q : HandlerQueue F) → q.scheduler ≡ none → waiting q ≡ length q.ops
  fifo_waiting q e = rw e refl

  idle_call :
      (calls : List (List Step)) (gone : ℕ) (q : HandlerQueue F)
      → Balanced q calls gone
      → Balanced q ([] ∷ calls) gone
  idle_call calls gone q b = record {
    valid = b.valid;
    woken = omega (arith, b.woken);
    exact =
        Exact-step q.scheduler _ _ _ _ _ _ _ _
          (λ x. (omega (arith, x.0, x.1), omega (arith, x.1), omega (arith, x.2))) b.exact;
    counted = omega (arith, b.counted);
  }

  take_fifo-Balanced :
      (calls : List (List Step)) (gone : ℕ) (q : HandlerQueue F) (ops : List Operation)
      → q.scheduler ≡ none
      → q.ops ≡ ops
      → Balanced q calls gone
      → Balanced (Handlers.take_fifo q ops).0 ((Handlers.take_fifo q ops).2 ∷ calls) gone
  unfolding Handlers.take_fifo
  take_fifo-Balanced calls gone q [] e o b = idle_call calls gone q b
  take_fifo-Balanced calls gone q (op ∷ rest) e o b =
      let w = fifo_waiting q e in
      let n = ap length o in
      record {
        valid = rw e tt;
        woken = rw e (omega (arith, b.woken, w, n));
        exact =
            Exact-step q.scheduler _ _ _ _ _ _ _ _
              (λ x. (omega (arith, x.0, n), omega (arith, x.1), omega (arith, x.2))) b.exact;
        counted = rw e (omega (arith, b.counted, w, n));
      }

  produce_fifo-Balanced :
      (capacity : ℕ) (calls : List (List Step)) (gone : ℕ) (q : HandlerQueue F) (op : Operation)
      (now : ℕ) (r : HandlerQueue F × Bool × List Step)
      → q.scheduler ≡ none
      → q.pipe < capacity
      → Handlers.produce_fifo capacity q op now ≡ some r
      → Balanced q calls gone
      → Balanced r.0 (r.2 ∷ calls) gone
  unfolding Handlers.produce_fifo
  produce_fifo-Balanced capacity calls gone q op now r e room h b =
      let w = fifo_waiting q e in
      let n = length-append q.ops (op ∷ []) in
      elim (Bool-cases (ltb (length q.ops) q.max_pending_ops || leb op.expiry now)) [
        | inr n ↦ absurd (cc (rw n at h))
        | inl y ↦ elim (Bool-cases (ltb op.expiry now)) [
          | inl late ↦
              subst (λ x. Balanced x.0 (x.2 ∷ calls) gone) (some-injective _ _ (rw (y, late) at h))
                (record {
                  valid = b.valid;
                  woken = omega (arith, b.woken);
                  exact =
                      Exact-step q.scheduler _ _ _ _ _ _ _ _
                        (λ x. (omega (arith, x.0), omega (arith, x.1), omega (arith, x.2))) b.exact;
                  counted = omega (arith, b.counted);
                })
          | inr early ↦
              subst (λ x. Balanced x.0 (x.2 ∷ calls) gone) (some-injective _ _ (rw (y, early) at h))
                (record {
                  valid = b.valid;
                  woken = rw e (ground (arith, b.woken, w, room, n));
                  exact =
                      Exact-step q.scheduler _ _ _ _ _ _ _ _
                        (λ x.
                          (ground (arith, x.0, room, n), omega (arith, x.1), omega (arith, x.2)))
                        b.exact;
                  counted = rw e (omega (arith, b.counted, w, n));
                })
        ]
      ]

  pub try_produce-Balanced :
      (capacity : ℕ) (calls : List (List Step)) (gone : ℕ) (q : HandlerQueue F) (url : Bytes)
      (op : Operation) (now : ℕ) (r : HandlerQueue F × Bool × List Step)
      → q.pipe < capacity
      → Handlers.try_produce capacity q url op now ≡ some r
      → Balanced q calls gone
      → Balanced r.0 (r.2 ∷ calls) gone
  unfolding Handlers.try_produce
  try_produce-Balanced capacity calls gone q url op now r room h b =
      elim (Option-cases q.scheduler) [
        | inl e ↦
            produce_fifo-Balanced capacity calls gone q op now r e room
              (rw (e, Handlers.try_produce) at h) b
        | inr (s, e) ↦
            let tag = scheduler_tag_for url in
            let a = Queue.admit s tag (some op) in
            let v : IsValid s = rw e at b.valid in
            subst (λ x. Balanced x.0 (x.2 ∷ calls) gone)
              (some-injective _ _ (rw (e, Handlers.try_produce) at h))
              (admitted-Balanced calls gone q s a.0 a.1 e (admit-IsValid s tag (some op) v)
                (admit_total s tag op) b)
      ]

  pub expire-Balanced :
      (calls : List (List Step)) (gone : ℕ) (q : HandlerQueue F) (now : ℕ)
      → Balanced q calls gone
      → Balanced
          (Handlers.expire q now).0
          ((Handlers.expire q now).2 ∷ calls)
          (gone + length (Handlers.expire q now).1)
  unfolding Handlers.expire
  expire-Balanced calls gone q now b = elim (Option-cases q.scheduler) [
    | inl e ↦
        let w = fifo_waiting q e in
        let t = split_expired_total now q.ops in
        let gone_now = length (Handlers.split_expired now q.ops).1 in
        let r : Balanced
            (record q {
              ops = (Handlers.split_expired now q.ops).0;
              pipe = Handlers.throw_away gone_now gone_now q.pipe;
            })
            ([] ∷ calls) (gone + gone_now) =
          record {
            valid = b.valid;
            woken = rw e (
                omega
                  (arith, b.woken, w, t, throw_away_lem gone_now gone_now q.pipe (omega arith)));
            exact =
                Exact-step q.scheduler _ _ _ _ _ _ _ _
                  (λ x. (
                    omega (arith, x.0, t, throw_away_lem gone_now gone_now q.pipe (omega arith)),
                    omega (arith, x.1),
                    omega (arith, x.2),
                  ))
                  b.exact;
            counted = rw e (omega (arith, b.counted, w, t));
          } in
        rw (e, Handlers.expire) r
    | inr (s, e) ↦
        let w : waiting q ≡ s.total_pending = rw e refl in
        let v : IsValid s = rw e at b.valid in
        let t = expire_total s now v in
        let x = (Queue.expire s now).1 in
        let r : Balanced (record q { scheduler = some (Queue.expire s now).0 })
            ((drains_expired x ∷ []) ∷ calls) (gone + length x) =
          record {
            valid = expire-IsValid s now v;
            woken = omega (arith, b.woken, w, t);
            exact = tt;
            counted = omega (arith, b.counted, w, t);
          } in
        rw (e, Handlers.expire) r
  ]

module _ {F : Type 0} ⦃d : Doubles F⦄ where
  pub try_consume-Balanced :
      (calls : List (List Step)) (gone : ℕ) (q : HandlerQueue F) (draw : F → F)
      → Balanced q calls gone
      → Balanced (Handlers.try_consume q draw).0 ((Handlers.try_consume q draw).2 ∷ calls) gone
  unfolding Handlers.try_consume
  try_consume-Balanced calls gone q draw b = elim (Option-cases q.scheduler) [
    | inl e ↦ rw (e, Handlers.try_consume) (take_fifo-Balanced calls gone q q.ops e refl b)
    | inr (s, e) ↦
        let v : IsValid s = rw e at b.valid in
        let r = Queue.try_consume s draw in
        rw (e, Handlers.try_consume)
          (given-Balanced calls gone q s r.0 r.1 e (try_consume-IsValid s draw v)
            (try_total s draw v) b)
  ]

  pub consume-Balanced :
      (calls : List (List Step)) (gone : ℕ) (q : HandlerQueue F) (draw : F → F)
      → Balanced q calls gone
      → Balanced (Handlers.consume q draw).0 ((Handlers.consume q draw).2 ∷ calls) gone
  unfolding Handlers.consume
  consume-Balanced calls gone q draw b = elim (Option-cases q.scheduler) [
    | inl e ↦
        rw (e, Handlers.consume)
          (if_all (λ r. Balanced r.0 (r.2 ∷ calls) gone) q.is_shutdown {x = (q, none, [])}
            {y = Handlers.take_fifo q q.ops} (idle_call calls gone q b)
            (take_fifo-Balanced calls gone q q.ops e refl b))
    | inr (s, e) ↦
        let v : IsValid s = rw e at b.valid in
        let r = Queue.consume_pass s draw in
        rw (e, Handlers.consume)
          (given-Balanced calls gone q s r.0 (Handlers.pass_result r.1) e
            (consume_pass-IsValid s draw v) (pass_total s draw v) b)
  ]
