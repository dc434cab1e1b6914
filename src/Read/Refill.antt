-- ===== src/Read/Refill.antt =====
-- src/XrdClCurl/XrdClCurlOpRead.cc: the overflow that a continuation takes.
use xrdcl_pelican.Prelude.{
  ℕ, zero, suc, ◌+◌, ◌-◌, ◌≤◌, true, false, [], ◌∷◌, ◌++◌, ◌≡◌, refl, sym, ap, ◌∙◌, inl, inr, arith,
  min,
}
use native.Mathlib.Nat.{zero-add}
use xrdcl_pelican.Prelude.Tests.{◌==◌, if_cases}
use xrdcl_pelican.Prelude.Bytes.{Bytes, is_empty}
use xrdcl_pelican.Prelude.Lists.{length, take, drop, length-take, length-drop}
use xrdcl_pelican.Read.State.{ReadOp}
use xrdcl_pelican.Read.Flow
use xrdcl_pelican.Read.Flow.{
  Reply, took, pauses, refuses, write, continue, continue_handle, success, deliver_response, pause,
}
use xrdcl_pelican.Read.Stream.{joined, held, overflow, Streams, split_take}
use xrdcl_pelican.Read.Lossless.{drop-nil}

drop-drop : (m n : ℕ) (xs : Bytes) → drop (m + n) xs ≡ drop n (drop m xs)
drop-drop zero n xs = rw zero-add
drop-drop (suc m) n [] = drop-nil (suc m + n) ∙ sym (drop-nil n)
drop-drop (suc m) n (x ∷ xs) =
    let e : suc m + n ≡ suc (m + n) = omega arith in rw e (drop-drop m n xs)

drop-end : (n : ℕ) (xs : Bytes) → length xs ≤ n → drop n xs ≡ []
drop-end n [] h = drop-nil n
drop-end zero (x ∷ xs) h = let bad : ⊥ = omega arith in elim bad [ ]
drop-end (suc n) (x ∷ xs) h = drop-end n xs (omega arith)

is_empty-nil : (xs : Bytes) → is_empty xs ≡ true → xs ≡ []
is_empty-nil [] h = refl
is_empty-nil (x ∷ xs) h = let bad : ⊥ = ground arith in elim bad [ ]

module _ (op : ReadOp) (accepted : Bytes) (size : ℕ) (s : Streams op accepted)
    (h : op.handler ≡ false) where
  abbrev fresh : ReadOp
  fresh = Flow.installed op size

  abbrev from : Bytes
  from = take size (overflow op)

  -- The answered handlers and the overflow.
  answered : joined op.delivered ++ overflow op ≡ accepted
  answered =
      let e : held op ≡ [] = rw h in
      ap (λ x. joined op.delivered ++ (x ++ overflow op)) (sym e) ∙ s.whole

  length-from : length from ≡ min size (length op.prefetch_buffer - op.prefetch_buffer_offset)
  length-from = omega (
    arith,
    length-take size (overflow op),
    length-drop op.prefetch_buffer_offset op.prefetch_buffer,
  )

  unspilled-Streams : is_empty op.prefetch_buffer ≡ true → Streams fresh accepted
  unspilled-Streams e = record {
    whole = answered;
    places = s.places;
    counted = λ t. refl;
    full = λ t. inr (is_empty-nil op.prefetch_buffer e);
    inside = s.inside;
    fits = λ t. omega arith;
    owned = λ t. refl;
    healthy = s.healthy;
  }

  abbrev stop : ℕ
  stop = op.prefetch_buffer_offset + length from

  emptied-Streams :
      stop ≡ length op.prefetch_buffer
      → Streams
          (record fresh {
            content = from;
            written = length from;
            prefetch_buffer = [];
            prefetch_buffer_offset = 0;
          })
          accepted
  emptied-Streams e =
      let all : drop (length from) (overflow op) ≡ [] =
        drop-end (length from) (overflow op)
          (omega (arith, e, length-drop op.prefetch_buffer_offset op.prefetch_buffer)) in
      record {
        whole =
            ap (λ x. joined op.delivered ++ x)
              (ap (λ x. from ++ x) (sym all) ∙ split_take size (overflow op))
            ∙ answered;
        places = s.places;
        counted = λ t. refl;
        full = λ t. inr refl;
        inside = omega arith;
        fits = λ t. omega (arith, length-from);
        owned = λ t. refl;
        healthy = s.healthy;
      }

  partial-Streams :
      (stop == length op.prefetch_buffer) ≡ false
      → Streams
          (record fresh { content = from; written = length from; prefetch_buffer_offset = stop })
          accepted
  partial-Streams e = record {
    whole =
        ap (λ x. joined op.delivered ++ x)
          (ap (λ x. from ++ x)
              (drop-drop op.prefetch_buffer_offset (length from) op.prefetch_buffer)
            ∙ split_take size (overflow op))
        ∙ answered;
    places = s.places;
    counted = λ t. refl;
    full = λ t. inl (ground (arith, length-from, s.inside));
    inside = omega (arith, length-from, s.inside);
    fits = λ t. omega (arith, length-from);
    owned = λ t. refl;
    healthy = s.healthy;
  }

  -- A continuation, before it answers.
  pub refilled-Streams : Streams (Flow.refilled fresh) accepted
  refilled-Streams =
      if_cases (λ r. Streams r accepted) (is_empty op.prefetch_buffer) unspilled-Streams
        (λ n.
          if_cases (λ r. Streams r accepted) (stop == length op.prefetch_buffer)
            (λ e. emptied-Streams (ground arith)) partial-Streams)
