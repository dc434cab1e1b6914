-- ===== src/Scheduler/Cases.antt =====
-- How each operation of the scheduler can end, for proofs by cases.
use xrdcl_pelican.Prelude.{
  ◌-◌, ◌≡◌, refl, ◌⊎◌, inl, inr, Bool, true, false, ◌&&◌, Option, none, some, List, [], ◌∷◌,
}
use xrdcl_pelican.Prelude.Tests.{if_cases}
use xrdcl_pelican.Prelude.Int.{ge_int, is_positive}
use xrdcl_pelican.Prelude.Lists.{length}
use xrdcl_pelican.Prelude.Bytes.{Bytes, is_empty}
use xrdcl_pelican.Prelude.Assoc.{insert}
use xrdcl_pelican.Scheduler.State.{Doubles, Operation, TagState, TagScheduler, tag_state}
use xrdcl_pelican.Scheduler.Pick.{pick_tag}
use xrdcl_pelican.Scheduler.Queue.{
  reject_global, reject_per_tag, enqueue, admit, take_front, dispatched, drop_idle, try_consume,
  consume_pass, Pass, returned, waits,
}

module _ {F : Type 0} where
  -- The total of queued operations has reached its limit.
  abbrev pub is_full : TagScheduler F → Bool
  is_full s =
      is_positive s.cfg.pending_buffer_size && ge_int s.total_pending s.cfg.pending_buffer_size

  -- The tag's own queue has.
  abbrev pub is_tag_full : TagScheduler F → Bytes → Bool
  is_tag_full s tag =
      is_positive s.cfg.per_tag_pending_size
      && ge_int (length (tag_state tag s.tags).pending) s.cfg.per_tag_pending_size

  pub admit_cases {κ} :
      (P : TagScheduler F × Bool → Type κ) (s : TagScheduler F) (tag : Bytes) (op : Operation)
      → P (s, false)
      → (is_full s ≡ true → P (reject_global s tag, false))
      → (is_tag_full s tag ≡ true → P (reject_per_tag s tag (tag_state tag s.tags), false))
      → ((s.is_shutdown ≡ false) × (is_full s ≡ false) × (is_tag_full s tag ≡ false)
          → P (enqueue s tag (tag_state tag s.tags) op, true))
      → P (admit s tag (some op))
  unfolding admit
  admit_cases P s tag op down full tag_full room =
      if_cases P s.is_shutdown (λ _. down)
        (λ up.
          if_cases P (is_full s) full
            (λ open_. if_cases P (is_tag_full s tag) tag_full (λ free. room (up, open_, free))))

List-cases {ℓ} : {A : Type ℓ} (xs : List A) → (xs ≡ []) ⊎ ((a : A) × (r : List A) × (xs ≡ a ∷ r))
List-cases [] = inl refl
List-cases (a ∷ r) = inr (a, r, refl)

module _ {F : Type 0} where
  -- The scheduler after the front operation of a tag went to a worker.
  abbrev pub taken : TagScheduler F → Bytes → TagState → List Operation → TagScheduler F
  taken s tag st rest = record s {
    tags = insert tag (dispatched st rest) s.tags;
    total_pending = s.total_pending - 1;
  }

  pub take_front_cases {κ} :
      (P : TagScheduler F × Option Operation → Type κ) (s : TagScheduler F) (tag : Bytes)
      (st : TagState)
      → (st.pending ≡ [] → P (s, none))
      → ((op : Operation) (rest : List Operation)
          → st.pending ≡ op ∷ rest
          → P (taken s tag st rest, some op))
      → P (take_front s tag st)
  unfolding take_front
  take_front_cases P s tag st nothing more = elim (List-cases st.pending) [
    | inl e ↦ rw (e, take_front) (nothing e)
    | inr (op, rest, e) ↦ rw (e, take_front) (more op rest e)
  ]

module _ {F : Type 0} ⦃d : Doubles F⦄ where
  -- What the drawn tag's queue gives.
  abbrev pub front : TagScheduler F → (F → F) → TagScheduler F × Option Operation
  front s draw = take_front s (pick_tag s draw) (tag_state (pick_tag s draw) s.tags)

  pub try_consume_cases {κ} :
      (P : TagScheduler F × Option Operation → Type κ) (s : TagScheduler F) (draw : F → F)
      → P (s, none)
      → (s.is_shutdown ≡ false → is_empty (pick_tag s draw) ≡ false → P (front s draw))
      → P (try_consume s draw)
  unfolding try_consume
  try_consume_cases P s draw nothing drawn =
      if_cases P s.is_shutdown (λ _. nothing)
        (λ up. if_cases P (is_empty (pick_tag s draw)) (λ _. nothing) (drawn up))

  pub try_consume-front :
      (s : TagScheduler F) (draw : F → F)
      → s.is_shutdown ≡ false
      → is_empty (pick_tag s draw) ≡ false
      → try_consume s draw ≡ front s draw
  unfolding try_consume
  try_consume-front s draw up drawn = simp (up, drawn)

  pub consume_pass_cases {κ} :
      (P : TagScheduler F × Pass → Type κ) (s : TagScheduler F) (draw : F → F)
      → (s.is_shutdown ≡ true → P (s, returned none))
      → (s.is_shutdown ≡ false → is_empty (pick_tag s draw) ≡ true → P (s, waits))
      → (s.is_shutdown ≡ false
          → is_empty (pick_tag s draw) ≡ false
          → P (drop_idle (front s draw).0 (pick_tag s draw), returned (front s draw).1))
      → P (consume_pass s draw)
  unfolding consume_pass
  consume_pass_cases P s draw down idle drawn =
      if_cases P s.is_shutdown down
        (λ up. if_cases P (is_empty (pick_tag s draw)) (idle up) (drawn up))
