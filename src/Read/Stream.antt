-- ===== src/Read/Stream.antt =====
-- src/XrdClCurl/XrdClCurlOpRead.cc: the bytes that a client gets of a read.
use xrdcl_pelican.Prelude.{
  ℕ, zero, suc, ◌+◌, ◌≤◌, Bool, true, false, List, [], ◌∷◌, ◌++◌, ◌≡◌, refl, sym, ap, ◌∙◌, ◌⊎◌,
  arith,
}
use mathlib.Core.List.{append_assoc, append-nil}
use xrdcl_pelican.Prelude.Tests.{if◌then◌else◌, if_cases}
use xrdcl_pelican.Prelude.Bytes.{Bytes}
use xrdcl_pelican.Prelude.Lists.{length, take, drop, length-append}
use xrdcl_pelican.Read.State.{ReadOp}
use xrdcl_pelican.Read.Flow
use xrdcl_pelican.Read.Flow.{
  Reply, took, pauses, refuses, write, continue, continue_handle, success, deliver_response, pause,
}

-- The bytes of the chunks that handlers got.
abbrev pub joined : List (ℕ × Bytes) → Bytes
joined [] = []
joined ((o, d) ∷ cs) = d ++ joined cs

-- Each chunk begins where the one before it ends.
abbrev pub Contiguous : ℕ → List (ℕ × Bytes) → Type 0
Contiguous start [] = Unit
Contiguous start ((o, d) ∷ cs) = (o ≡ start) × Contiguous (start + length d) cs

joined-append :
    (xs : List (ℕ × Bytes)) (o : ℕ) (d : Bytes) → joined (xs ++ ((o, d) ∷ [])) ≡ joined xs ++ d
joined-append [] o d = append-nil d
joined-append ((p, e) ∷ xs) o d = rw (joined-append xs o d) (sym (append_assoc e (joined xs) d))

Contiguous-append :
    (start : ℕ) (xs : List (ℕ × Bytes)) (o : ℕ) (d : Bytes)
    → Contiguous start xs
    → o ≡ start + length (joined xs)
    → Contiguous start (xs ++ ((o, d) ∷ []))
Contiguous-append start [] o d h e = (omega (arith, e), tt)
Contiguous-append start ((p, c) ∷ xs) o d h e = (
  h.0,
  Contiguous-append (start + length c) xs o d h.1 (omega (arith, e, length-append c (joined xs))),
)

-- The bytes in the buffer that no handler has got, and those of the overflow.
abbrev pub held : ReadOp → Bytes
held op = if op.handler then op.content else []

abbrev pub overflow : ReadOp → Bytes
overflow op = drop op.prefetch_buffer_offset op.prefetch_buffer

pub record Streams (op : ReadOp) (accepted : Bytes) : Type 0 where
  pub whole : joined op.delivered ++ (held op ++ overflow op) ≡ accepted
  pub places :
      Contiguous op.offset op.delivered × (op.prefetch_object_offset ≡ length (joined op.delivered))
  pub counted : op.handler ≡ true → length op.content ≡ op.written
  pub full : op.has_buffer ≡ true → (op.buffer_size ≡ op.written) ⊎ (op.prefetch_buffer ≡ [])
  pub inside : op.prefetch_buffer_offset ≤ length op.prefetch_buffer
  pub fits : op.has_buffer ≡ true → op.written ≤ op.buffer_size
  pub owned : op.done ≡ false → op.has_buffer ≡ op.handler
  pub healthy : (op.failed ≡ false) × (Flow.is_failure op.headers.status_code ≡ false)

pub split_take : (n : ℕ) (xs : Bytes) → take n xs ++ drop (length (take n xs)) xs ≡ xs
split_take zero xs = refl
split_take (suc n) [] = refl
split_take (suc n) (x ∷ xs) = ap (◌∷◌ x) (split_take n xs)

-- A chunk goes to the handler.
handed-places :
    (op : ReadOp) (accepted : Bytes)
    → Streams op accepted
    → op.handler ≡ true
    → Contiguous op.offset (Flow.handed op).delivered
      × ((Flow.handed op).prefetch_object_offset ≡ length (joined (Flow.handed op).delivered))
handed-places op accepted s e =
    let at = op.offset + op.prefetch_object_offset in
    let joint = joined-append op.delivered at op.content in
    (
      Contiguous-append op.offset op.delivered at op.content s.places.0 (omega (arith, s.places.1)),
      rw joint
          (omega (arith, s.places.1, s.counted e, length-append (joined op.delivered) op.content)),
    )

handed-whole :
    (op : ReadOp) (accepted : Bytes)
    → Streams op accepted
    → op.handler ≡ true
    → joined (Flow.handed op).delivered ++ overflow op ≡ accepted
handed-whole op accepted s e =
    let h : held op ≡ op.content = rw e in
    rw (joined-append op.delivered (op.offset + op.prefetch_object_offset) op.content) (
      append_assoc (joined op.delivered) op.content (overflow op)
      ∙ ap (λ x. joined op.delivered ++ (x ++ overflow op)) (sym h)
      ∙ s.whole)

pub deliver-Streams :
    (op : ReadOp) (accepted : Bytes) → Streams op accepted → Streams (deliver_response op) accepted
unfolding deliver_response
deliver-Streams op accepted s =
    if_cases (λ r. Streams r accepted) op.handler
      (λ e. record {
        whole = handed-whole op accepted s e;
        places = handed-places op accepted s e;
        counted = λ t. (let bad : ⊥ = ground arith in elim bad [ ]);
        full = λ t. (let bad : ⊥ = ground arith in elim bad [ ]);
        inside = s.inside;
        fits = λ t. (let bad : ⊥ = ground arith in elim bad [ ]);
        owned = λ t. refl;
        healthy = s.healthy;
      })
      (λ e. s)

pub success-Streams :
    (op : ReadOp) (accepted : Bytes) → Streams op accepted → Streams (success op) accepted
unfolding success
success-Streams op accepted s =
    let op' : ReadOp = record op { done = true; failed = false } in
    let t : Streams op' accepted = record {
      whole = s.whole;
      places = s.places;
      counted = s.counted;
      full = s.full;
      inside = s.inside;
      fits = s.fits;
      owned = λ t. (let bad : ⊥ = ground arith in elim bad [ ]);
      healthy = (refl, s.healthy.1);
    } in
    if_cases (λ r. Streams r accepted) op.handler
      (λ e. record {
        whole = handed-whole op' accepted t e;
        places = handed-places op' accepted t e;
        counted = λ t. (let bad : ⊥ = ground arith in elim bad [ ]);
        full = s.full;
        inside = s.inside;
        fits = s.fits;
        owned = λ t. (let bad : ⊥ = ground arith in elim bad [ ]);
        healthy = (refl, s.healthy.1);
      })
      (λ e. t)

pub paused-Streams :
    (op : ReadOp) (accepted : Bytes) (b : Bool)
    → Streams op accepted
    → Streams (record op { paused = b }) accepted
paused-Streams op accepted b s = record {
  whole = s.whole;
  places = s.places;
  counted = s.counted;
  full = s.full;
  inside = s.inside;
  fits = s.fits;
  owned = s.owned;
  healthy = s.healthy;
}
