-- ===== src/Scheduler/Invariant.antt =====
-- The bookkeeping of the scheduler, and that every operation keeps it.
use xrdcl_pelican.Prelude.{
  ℕ, ◌+◌, ◌-◌, ◌%◌, ◌^◌, ◌≤◌, ◌≡◌, refl, ap, ◌⊎◌, inl, inr, Bool, true, false, not, ◌&&◌, Option,
  none, some, List, [], ◌∷◌, ◌++◌, arith,
}
use xrdcl_pelican.Prelude.Tests.{ltb, Bool-cases, Option-cases, if_all, if_cases}
use xrdcl_pelican.Prelude.Int.{ℤ, pos, negsuc, ge_int, is_positive}
use xrdcl_pelican.Prelude.Lists.{length, length-append}
use xrdcl_pelican.Prelude.Bytes.{Bytes}
use xrdcl_pelican.Prelude.Assoc.{
  lookup, insert, erase, IsDistinct, total, measure_of, insert-IsDistinct, erase-IsDistinct,
  total-insert, total-erase,
}
use xrdcl_pelican.Scheduler.State.{
  Doubles, Config, Operation, TagState, TagScheduler, tag_state, make, increment64,
}
use xrdcl_pelican.Scheduler.Pick.{pick_tag, on_monitor_tick}
use xrdcl_pelican.Scheduler.Queue.{
  is_idle, reject_global, reject_per_tag, enqueue, take_front, admit, drop_idle, on_first_byte,
  released, on_done, shutdown, expire, dispatched, try_consume, consume_pass, hooked,
  fire_first_byte, set_done,
}
use xrdcl_pelican.Scheduler.Cases.{
  taken, admit_cases, take_front_cases, try_consume_cases, consume_pass_cases,
}
use xrdcl_pelican.Scheduler.Counters.{tag_state-found}
use xrdcl_pelican.Scheduler.Sweep.{sweep_tags-IsDistinct, total-sweep_tags}

abbrev pub queued : TagState → ℕ
queued st = length st.pending

-- `limit` is obeyed by `n`, where it is set.
abbrev pub Within : ℕ → ℤ → Type 0
Within n (pos z) = (z ≡ 0) ⊎ (n ≤ z)
Within n (negsuc z) = Unit

pub record IsValid {F : Type 0} (s : TagScheduler F) : Type 0 where
  pub distinct : IsDistinct s.tags
  pub counted : s.total_pending ≡ total queued s.tags
  pub bounded : Within s.total_pending s.cfg.pending_buffer_size
  pub rejected : s.rejects ≡ (s.rejects_global + s.rejects_per_tag) % 2 ^ 64

queued-tag_state :
    (k : Bytes) (m : List (Bytes × TagState))
    → measure_of queued (lookup k m) ≡ queued (tag_state k m)
unfolding tag_state
queued-tag_state k m = ground arith

total-insert_tag :
    (k : Bytes) (v : TagState) (m : List (Bytes × TagState))
    → total queued (insert k v m) + queued (tag_state k m) ≡ total queued m + queued v
total-insert_tag k v m = omega (arith, total-insert queued k v m, queued-tag_state k m)

pub queued-le-total :
    (k : Bytes) (m : List (Bytes × TagState)) → queued (tag_state k m) ≤ total queued m
queued-le-total k m = omega (arith, total-erase queued k m, queued-tag_state k m)

is_idle-queued : (st : TagState) → is_idle st ≡ true → queued st ≡ 0
unfolding is_idle
is_idle-queued st h = ground arith

total-erase_idle :
    (k : Bytes) (m : List (Bytes × TagState))
    → is_idle (tag_state k m) ≡ true
    → total queued (erase k m) ≡ total queued m
total-erase_idle k m h =
    omega (arith, total-erase queued k m, queued-tag_state k m, is_idle-queued (tag_state k m) h)

Within-le : (m n : ℕ) (z : ℤ) → n ≤ m → Within m z → Within n z
Within-le m n (pos z) h w = omega arith
Within-le m n (negsuc z) h w = tt

-- A queue that the guard lets grow stays within its limit.
Within-suc : (n : ℕ) (z : ℤ) → (is_positive z && ge_int n z) ≡ false → Within (n + 1) z
Within-suc n (pos z) h = ground arith
Within-suc n (negsuc z) h = tt

module _ {F : Type 0} where
  -- The scheduler as constructed is valid.
  pub make-IsValid : (workers : ℕ) (cfg : Config) (now : ℕ) → IsValid (make {F = F} workers cfg now)
  unfolding make total
  make-IsValid workers cfg now = record {
    distinct = tt;
    counted = refl;
    bounded = none_queued cfg.pending_buffer_size;
    rejected = refl;
  }
    where
      none_queued : (z : ℤ) → Within 0 z
      none_queued (pos z) = omega arith
      none_queued (negsuc z) = tt

  -- A write under one key that changes the length of its queue as it changes the total.
  insert-IsValid :
      (s : TagScheduler F) (tag : Bytes) (w : TagState) (n : ℕ)
      → IsValid s
      → Within n s.cfg.pending_buffer_size
      → n + queued (tag_state tag s.tags) ≡ s.total_pending + queued w
      → IsValid (record s { tags = insert tag w s.tags; total_pending = n })
  insert-IsValid s tag w n v b e = record {
    distinct = insert-IsDistinct tag w s.tags v.distinct;
    counted = omega (arith, v.counted, total-insert_tag tag w s.tags);
    bounded = b;
    rejected = v.rejected;
  }

  -- A write that leaves the queue alone.
  update-IsValid :
      (s : TagScheduler F) (tag : Bytes) (w : TagState)
      → IsValid s
      → queued w ≡ queued (tag_state tag s.tags)
      → IsValid (record s { tags = insert tag w s.tags })
  update-IsValid s tag w v e = insert-IsValid s tag w s.total_pending v v.bounded (omega (arith, e))

  -- Admit keeps a valid scheduler valid, on every verdict: the keys stay distinct, the total is the sum
  -- of the queues, it stays within the pending buffer, and the rejections add up.
  pub admit-IsValid :
      (s : TagScheduler F) (tag : Bytes) (op : Option Operation)
      → IsValid s
      → IsValid (admit s tag op).0
  unfolding admit reject_global reject_per_tag enqueue
  admit-IsValid s tag none v = v
  admit-IsValid s tag (some op) v =
      admit_cases (λ r. IsValid r.0) s tag op v
        (λ _.
          let u = update-IsValid s tag (record st { rejects = increment64 st.rejects }) v refl in
          record {
            distinct = u.distinct;
            counted = u.counted;
            bounded = u.bounded;
            rejected = omega (arith, v.rejected);
          })
        (λ _.
          let u = update-IsValid s tag (record st { rejects = increment64 st.rejects }) v refl in
          record {
            distinct = u.distinct;
            counted = u.counted;
            bounded = u.bounded;
            rejected = omega (arith, v.rejected);
          })
        (λ r.
          let u =
            insert-IsValid s tag (longer) (s.total_pending + 1) v
              (Within-suc _ s.cfg.pending_buffer_size r.1)
              (omega (arith, length-append st.pending (hooked tag op ∷ []))) in
          record {
            distinct = u.distinct;
            counted = u.counted;
            bounded = u.bounded;
            rejected = v.rejected;
          })
    where
      st : TagState
      st = tag_state tag s.tags

      longer : TagState
      longer = record st {
        pending = st.pending ++ (hooked tag op ∷ []);
        admits = increment64 st.admits;
      }

  pub drop_idle-IsValid : (s : TagScheduler F) (tag : Bytes) → IsValid s → IsValid (drop_idle s tag)
  unfolding drop_idle
  drop_idle-IsValid s tag v =
      if_cases IsValid (is_idle (tag_state tag s.tags))
        (λ e. record {
          distinct = erase-IsDistinct tag s.tags v.distinct;
          counted = omega (arith, v.counted, total-erase_idle tag s.tags e);
          bounded = v.bounded;
          rejected = v.rejected;
        })
        (λ _. v)

  pub taken-IsValid :
      (s : TagScheduler F) (tag : Bytes) (op : Operation) (rest : List Operation)
      → (tag_state tag s.tags).pending ≡ op ∷ rest
      → IsValid s
      → IsValid (taken s tag (tag_state tag s.tags) rest)
  taken-IsValid s tag op rest e v =
      insert-IsValid s tag (dispatched (tag_state tag s.tags) rest) (s.total_pending - 1) v
        (Within-le s.total_pending _ s.cfg.pending_buffer_size (omega arith) v.bounded)
        (omega (arith, ap length e, v.counted, queued-le-total tag s.tags))

  take_front-IsValid :
      (s : TagScheduler F) (tag : Bytes)
      → IsValid s
      → IsValid (take_front s tag (tag_state tag s.tags)).0
  take_front-IsValid s tag v =
      take_front_cases (λ r. IsValid r.0) s tag (tag_state tag s.tags) (λ _. v)
        (λ op rest e. taken-IsValid s tag op rest e v)

  pub on_first_byte-IsValid :
      (s : TagScheduler F) (tag : Bytes) → IsValid s → IsValid (on_first_byte s tag)
  unfolding on_first_byte
  on_first_byte-IsValid s tag v = elim (Option-cases (lookup tag s.tags)) [
    | inl e ↦ rw (e, on_first_byte) v
    | inr (st, e) ↦
        rw (e, on_first_byte)
          (if_all IsValid (ltb 0 st.starving)
            (update-IsValid s tag (record st { starving = st.starving - 1 }) v
              (rw (tag_state-found tag s.tags st e) refl))
            v)
  ]

  pub on_done-IsValid :
      (s : TagScheduler F) (tag : Bytes) (still : Bool) → IsValid s → IsValid (on_done s tag still)
  unfolding on_done
  on_done-IsValid s tag still v = elim (Option-cases (lookup tag s.tags)) [
    | inl e ↦ rw (e, on_done) v
    | inr (st, e) ↦
        rw (e, on_done)
          (drop_idle-IsValid _ tag (
            update-IsValid s tag (released st still) v (rw (tag_state-found tag s.tags st e) refl)))
  ]

  pub expire-IsValid : (s : TagScheduler F) (now : ℕ) → IsValid s → IsValid (expire s now).0
  unfolding expire
  expire-IsValid s now v = record {
    distinct = sweep_tags-IsDistinct now s.tags v.distinct;
    counted = omega (arith, v.counted, total-sweep_tags now s.tags);
    bounded = Within-le s.total_pending _ s.cfg.pending_buffer_size (omega arith) v.bounded;
    rejected = v.rejected;
  }

  pub shutdown-IsValid : (s : TagScheduler F) → IsValid s → IsValid (shutdown s)
  unfolding shutdown
  shutdown-IsValid s v = if_all IsValid s.is_shutdown v (record {
    distinct = v.distinct;
    counted = v.counted;
    bounded = v.bounded;
    rejected = v.rejected;
  })

  pub fire_first_byte-IsValid :
      (s : TagScheduler F) (op : Operation) → IsValid s → IsValid (fire_first_byte s op).0
  unfolding fire_first_byte
  fire_first_byte-IsValid s op v = elim (Option-cases op.on_first_byte_hook) [
    | inl e ↦ rw (e, fire_first_byte) v
    | inr (tag, e) ↦ elim (Bool-cases op.first_byte) [
      | inl b ↦ rw (e, b, fire_first_byte) v
      | inr b ↦ rw (e, b, fire_first_byte) (on_first_byte-IsValid s tag v)
    ]
  ]

  pub set_done-IsValid :
      (s : TagScheduler F) (op : Operation) → IsValid s → IsValid (set_done s op).0
  unfolding set_done
  set_done-IsValid s op v = elim (Option-cases op.on_done_hook) [
    | inl e ↦ rw (e, set_done) v
    | inr (tag, e) ↦ elim (Bool-cases op.done_hook_fired) [
      | inl b ↦ rw (e, b, set_done) v
      | inr b ↦ rw (e, b, set_done) (on_done-IsValid s tag (not op.first_byte) v)
    ]
  ]

module _ {F : Type 0} ⦃d : Doubles F⦄ where
  pub try_consume-IsValid :
      (s : TagScheduler F) (draw : F → F) → IsValid s → IsValid (try_consume s draw).0
  try_consume-IsValid s draw v =
      try_consume_cases (λ r. IsValid r.0) s draw v
        (λ _ _. take_front-IsValid s (pick_tag s draw) v)

  pub consume_pass-IsValid :
      (s : TagScheduler F) (draw : F → F) → IsValid s → IsValid (consume_pass s draw).0
  consume_pass-IsValid s draw v =
      consume_pass_cases (λ r. IsValid r.0) s draw (λ _. v) (λ _ _. v)
        (λ _ _. drop_idle-IsValid _ _ (take_front-IsValid s (pick_tag s draw) v))

  pub on_monitor_tick-IsValid :
      (s : TagScheduler F) (now : ℕ) → IsValid s → IsValid (on_monitor_tick s now)
  unfolding on_monitor_tick
  on_monitor_tick-IsValid s now v = record {
    distinct = v.distinct;
    counted = v.counted;
    bounded = v.bounded;
    rejected = v.rejected;
  }
