-- ===== src/Read/Whole.antt =====
-- src/XrdClCurl/XrdClCurlOpRead.cc: what the client gets of a read, over its whole life.
use xrdcl_pelican.Prelude.{
  ℕ, ◌-◌, Bool, true, false, not, ◌&&◌, ◌||◌, [], ◌++◌, ◌≡◌, refl, sym, ◌∙◌, inr, arith,
}
use mathlib.Core.Path.{subst}
use xrdcl_pelican.Prelude.Tests.{ltb, leb, ◌==◌, if_cases, if_all}
use xrdcl_pelican.Prelude.Bytes.{Bytes}
use xrdcl_pelican.Prelude.Lists.{length}
use xrdcl_pelican.Headers.{HeaderParser}
use xrdcl_pelican.Read.State.{ReadOp, new_read}
use xrdcl_pelican.Read.Flow
use xrdcl_pelican.Read.Flow.{
  Reply, took, pauses, refuses, write, continue, continue_handle, success, deliver_response, pause,
}
use xrdcl_pelican.Read.Stream.{
  joined, Contiguous, held, overflow, Streams, deliver-Streams, success-Streams, paused-Streams,
}
use xrdcl_pelican.Read.Refill.{refilled-Streams}
use xrdcl_pelican.Read.Lossless.{Took, filled-Streams, spilled-Streams}

taken-Took :
    (op : ReadOp) (accepted d : Bytes)
    → Streams op accepted
    → op.handler ≡ true
    → op.has_buffer ≡ true
    → (op.buffer_size == op.written) ≡ false
    → Took accepted d (Flow.taken op d)
taken-Took op accepted d s e hb ne =
    if_cases (Took accepted d) (ltb (op.buffer_size - op.written) (length d))
      (λ l.
        if_all (Took accepted d) (leb op.size op.buffer_size) tt
          (spilled-Streams op accepted s e hb ne d (ground arith)))
      (λ l. filled-Streams op accepted s e hb ne d (ground arith))

write-Took :
    (op : ReadOp) (accepted d : Bytes)
    → Streams op accepted
    → op.done ≡ false
    → Took accepted d (write op d)
unfolding write pause
write-Took op accepted d s nd =
    let T = Took accepted d in
    if_all T op.cancelled tt (
      if_all T op.headers.multipart_byteranges tt (
        if_all T (op.written == 0 && not (op.headers.response_offset == op.offset)) tt (
          if_cases T (Flow.is_failure op.headers.status_code)
            (λ f. (let bad : ⊥ = ground (arith, s.healthy.1) in elim bad [ ]))
            (λ f.
              if_cases T (not op.has_buffer || op.buffer_size == op.written)
                (λ p. deliver-Streams _ accepted (paused-Streams op accepted true s))
                (λ p.
                  (let hb : op.has_buffer ≡ true = ground arith in
                    taken-Took op accepted d s (sym (s.owned nd) ∙ hb) hb (ground arith)))))))

continue-Streams :
    (op : ReadOp) (accepted : Bytes) (size : ℕ)
    → Streams op accepted
    → op.handler ≡ false
    → Streams (continue op size) accepted
unfolding continue
continue-Streams op accepted size s h =
    let r = refilled-Streams op accepted size s h in
    if_all (λ x. Streams x accepted) op.done
      (if_cases (λ x. Streams x accepted) op.failed
        (λ f. (let bad : ⊥ = ground (arith, s.healthy.0) in elim bad [ ]))
        (λ f. deliver-Streams _ accepted r))
      r

-- The life of a read whose response is no error: what libcurl calls before it is done, and the client
-- when its handler has been answered. The bytes are those that Write accepted.
pub data Reads : ReadOp → Bytes → Type 0 where
  begins :
      (headers : HeaderParser) (offset size buffer_size : ℕ)
      → Flow.is_failure headers.status_code ≡ false
      → Reads (new_read headers offset size buffer_size) []
  takes :
      (op op' : ReadOp) (accepted d : Bytes)
      → Reads op accepted
      → op.done ≡ false
      → write op d ≡ (op', took)
      → Reads op' (accepted ++ d)
  waits :
      (op op' : ReadOp) (accepted d : Bytes)
      → Reads op accepted
      → op.done ≡ false
      → write op d ≡ (op', pauses)
      → Reads op' accepted
  continues :
      (op : ReadOp) (accepted : Bytes) (size : ℕ)
      → Reads op accepted
      → op.handler ≡ false
      → Reads (continue op size) accepted
  resumes :
      (op : ReadOp) (accepted : Bytes) (curl_ok : Bool)
      → Reads op accepted
      → Reads (continue_handle curl_ok op).0 accepted
  succeeds : (op : ReadOp) (accepted : Bytes) → Reads op accepted → Reads (success op) accepted

Reads-Streams : (op : ReadOp) (accepted : Bytes) → Reads op accepted → Streams op accepted
unfolding continue_handle
Reads-Streams _ _ (begins headers offset size buffer_size h) = record {
  whole = refl;
  places = (tt, refl);
  counted = λ t. refl;
  inside = omega arith;
  full = λ t. inr refl;
  fits = λ t. omega arith;
  owned = λ t. refl;
  healthy = (refl, h);
}
Reads-Streams _ _ (takes op op' accepted d r n e) =
    subst (Took accepted d) e (write-Took op accepted d (Reads-Streams op accepted r) n)
Reads-Streams _ _ (waits op op' accepted d r n e) =
    subst (Took accepted d) e (write-Took op accepted d (Reads-Streams op accepted r) n)
Reads-Streams _ _ (continues op accepted size r h) =
    continue-Streams op accepted size (Reads-Streams op accepted r) h
Reads-Streams _ _ (resumes op accepted ok r) =
    let s = Reads-Streams op accepted r in
    if_all {A = ReadOp × Bool} (λ x. Streams x.0 accepted) (op.done || not ok) s
      (paused-Streams op accepted false s)
Reads-Streams _ _ (succeeds op accepted r) =
    success-Streams op accepted (Reads-Streams op accepted r)

-- In a read whose status is no failure, as long as it has not failed and is not cancelled, no byte
-- of the body is lost, repeated or moved: what the handlers have got, what stands in the buffer
-- of a handler that waits, and what is left of the overflow are together just the bytes that
-- Write accepted, in their order, however libcurl cuts the body and whatever the sizes of the
-- client's buffers are; and each chunk has the offset in the object where the one before it ends.
pub Reads-delivered :
    (op : ReadOp) (accepted : Bytes)
    → Reads op accepted
    → (joined op.delivered ++ (held op ++ overflow op) ≡ accepted)
      × Contiguous op.offset op.delivered
Reads-delivered op accepted r = let s = Reads-Streams op accepted r in (s.whole, s.places.0)
