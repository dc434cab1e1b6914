-- ===== src/Read/Lossless.antt =====
-- src/XrdClCurl/XrdClCurlOpRead.cc: no byte of a body is lost, repeated or moved on its way through
-- the buffers of a client.
use xrdcl_pelican.Prelude.{
  ℕ, zero, suc, ◌+◌, ◌-◌, ◌≤◌, ◌%◌, ◌^◌, true, false, [], ◌∷◌, ◌++◌, ◌≡◌, refl, sym, ap, ◌∙◌, inl,
  inr, arith,
}
use mathlib.Core.List.{append_assoc, append-nil}
use xrdcl_pelican.Prelude.Tests.{◌==◌}
use xrdcl_pelican.Prelude.Bytes.{Bytes}
use xrdcl_pelican.Prelude.Lists.{length, take, drop, length-append, length-take, take-append-drop}
use xrdcl_pelican.Read.State.{ReadOp}
use xrdcl_pelican.Read.Flow.{Reply, took, pauses, refuses}
use xrdcl_pelican.Read.Stream.{joined, held, overflow, Streams}

-- What a write makes of the bytes accepted so far.
abbrev pub Took : Bytes → Bytes → ReadOp × Reply → Type 0
Took accepted d (op, took) = Streams op (accepted ++ d)
Took accepted d (op, pauses) = Streams op accepted
Took accepted d (op, refuses) = Unit

add_text :
    (j c t r d accepted : Bytes)
    → j ++ (c ++ []) ≡ accepted
    → t ++ r ≡ d
    → j ++ ((c ++ t) ++ r) ≡ accepted ++ d
add_text j c t r d accepted w e =
    ap (◌++◌ j) (append_assoc c t r ∙ ap (◌++◌ c) e)
    ∙ sym (append_assoc j c d)
    ∙ ap (λ x. x ++ d) (ap (◌++◌ j) (sym (append-nil c)) ∙ w)

pub drop-nil : (n : ℕ) → drop {A = ℕ} n [] ≡ []
drop-nil zero = refl
drop-nil (suc n) = refl

take-all : (n : ℕ) (xs : Bytes) → length xs ≤ n → take n xs ≡ xs
take-all zero [] h = refl
take-all (suc n) [] h = refl
take-all zero (x ∷ xs) h = let bad : ⊥ = omega arith in elim bad [ ]
take-all (suc n) (x ∷ xs) h = ap (◌∷◌ x) (take-all n xs (omega arith))

-- With room in the buffer there is no overflow.
module _ (op : ReadOp) (accepted : Bytes) (s : Streams op accepted) (e : op.handler ≡ true)
    (hb : op.has_buffer ≡ true) (ne : (op.buffer_size == op.written) ≡ false) where
  no_overflow : op.prefetch_buffer ≡ []
  no_overflow = elim (s.full hb) [
    | inl k ↦ (let bad : ⊥ = ground (arith, k) in elim bad [ ])
    | inr k ↦ k
  ]

  so_far : joined op.delivered ++ (op.content ++ []) ≡ accepted
  so_far =
      let o : overflow op ≡ [] = rw no_overflow (drop-nil op.prefetch_buffer_offset) in
      let h : held op ≡ op.content = rw e in
      ap (λ x. joined op.delivered ++ x)
        (ap (λ x. op.content ++ x) (sym o) ∙ ap (λ x. x ++ overflow op) (sym h))
      ∙ s.whole

  abbrev filled : Bytes → ReadOp
  filled d = record op {
    bytes = (op.bytes + length d) % 2 ^ 64;
    content = op.content ++ take (op.buffer_size - op.written) d;
    written = op.written + length (take (op.buffer_size - op.written) d);
  }

  abbrev spilled : Bytes → ReadOp
  spilled d = record (filled d) {
    prefetch_buffer = op.prefetch_buffer ++ drop (op.buffer_size - op.written) d;
    prefetch_buffer_offset = 0;
  }

  filled_counted :
      (d : Bytes)
      → length (op.content ++ take (op.buffer_size - op.written) d)
        ≡ op.written + length (take (op.buffer_size - op.written) d)
  filled_counted d =
      omega (arith, s.counted e, length-append op.content (take (op.buffer_size - op.written) d))

  filled_fits :
      (d : Bytes) → op.written + length (take (op.buffer_size - op.written) d) ≤ op.buffer_size
  filled_fits d = omega (arith, s.fits hb, length-take (op.buffer_size - op.written) d)

  pub spilled-Streams :
      (d : Bytes) → op.buffer_size - op.written ≤ length d → Streams (spilled d) (accepted ++ d)
  spilled-Streams d l =
      let room = op.buffer_size - op.written in
      record {
        whole = rw e (
            rw no_overflow (
              add_text (joined op.delivered) op.content (take room d) (drop room d) d accepted
                so_far (take-append-drop room d)));
        places = s.places;
        counted = λ t. filled_counted d;
        inside = omega arith;
        full = λ t. inl (omega (arith, length-take room d, s.fits hb, l));
        fits = λ t. filled_fits d;
        owned = s.owned;
        healthy = s.healthy;
      }

  pub filled-Streams :
      (d : Bytes) → length d ≤ op.buffer_size - op.written → Streams (filled d) (accepted ++ d)
  filled-Streams d l =
      let room = op.buffer_size - op.written in
      record {
        whole = rw e (
            rw no_overflow (
              rw (drop-nil op.prefetch_buffer_offset) (
                add_text (joined op.delivered) op.content (take room d) [] d accepted so_far
                  (append-nil (take room d) ∙ take-all room d l))));
        places = s.places;
        counted = λ t. filled_counted d;
        inside = s.inside;
        full = λ t. inr no_overflow;
        fits = λ t. filled_fits d;
        owned = s.owned;
        healthy = s.healthy;
      }
