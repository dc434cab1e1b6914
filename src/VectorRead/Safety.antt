-- ===== src/VectorRead/Safety.antt =====
-- src/XrdClCurl/XrdClCurlOpReadV.cc: the memory behind any number of writes.
use xrdcl_pelican.Prelude.{ℕ, zero, suc, ◌+◌, ◌^◌, ◌%◌, not, [], ◌∷◌, ◌≡◌, refl, inl, inr}
use mathlib.Core.Path.{subst}
use xrdcl_pelican.Prelude.Tests.{if_all}
use xrdcl_pelican.Prelude.Bytes.{Bytes}
use xrdcl_pelican.Prelude.Lists.{length}
use xrdcl_pelican.Prelude.Int.{ℤ, pos}
use xrdcl_pelican.Headers.{to_int64}
use xrdcl_pelican.VectorRead.State.{VectorRead}
use xrdcl_pelican.VectorRead.Lines.{Outcome, exhausted, onward, returned, last_segment, undefined}
use xrdcl_pelican.VectorRead.Write.{pass, write_loop, write, is_ok, is_error, single_response}
use xrdcl_pelican.VectorRead.Framing.{Kept-refl}
use xrdcl_pelican.VectorRead.Memory.{Outside, Step, Step-trans, Kept-Step}
use xrdcl_pelican.VectorRead.Passes.{Passed, pass-Passed}
use xrdcl_pelican.VectorRead.Ending.{stuck-cases, stuck_pass}

-- What holds of the operation that an outcome has.
abbrev StepTo : ℕ → VectorRead → Outcome → Type 0
StepTo a op (onward op' rest) = Step a op op'
StepTo a op (returned op' n) = Step a op op'
StepTo a op (last_segment op') = Step a op op'
StepTo a op (undefined op') = Step a op op'
StepTo a op exhausted = Unit

Passed-StepTo : (a : ℕ) (op : VectorRead) (n : ℕ) (o : Outcome) → Passed a op n o → StepTo a op o
Passed-StepTo a op n (onward op' rest) p = p.0
Passed-StepTo a op n (returned op' k) p = p
Passed-StepTo a op n (last_segment op') p = p
Passed-StepTo a op n (undefined op') p = p
Passed-StepTo a op n exhausted p = tt

-- One pass from any state.
pass-StepTo :
    (a len : ℕ) (op : VectorRead) (b : ℕ) (bs : Bytes) → StepTo a op (pass len op (b ∷ bs))
pass-StepTo a len op b bs = elim (stuck-cases op) [
  | inl (p, s) ↦ rw (stuck_pass len op (b ∷ bs) p s) (Kept-Step a op op (Kept-refl op))
  | inr g ↦ Passed-StepTo a op (length (b ∷ bs)) _ (pass-Passed a len op b bs g)
]

StepTo-trans : (a : ℕ) (x y : VectorRead) (o : Outcome) → Step a x y → StepTo a y o → StepTo a x o
StepTo-trans a x y (onward z rest) s t = Step-trans a x y z s t
StepTo-trans a x y (returned z n) s t = Step-trans a x y z s t
StepTo-trans a x y (last_segment z) s t = Step-trans a x y z s t
StepTo-trans a x y (undefined z) s t = Step-trans a x y z s t
StepTo-trans a x y exhausted s t = tt

loop_step-StepTo :
    (a fuel len : ℕ) (op : VectorRead) (b : ℕ) (bs : Bytes) (o : Outcome)
    → ((op' : VectorRead) (rest : Bytes) → StepTo a op' (write_loop fuel len op' rest))
    → pass len op (b ∷ bs) ≡ o
    → StepTo a op o
    → StepTo a op (write_loop (suc fuel) len op (b ∷ bs))
unfolding write_loop
loop_step-StepTo a fuel len op b bs (onward op' rest) loop e s =
    rw (e, write_loop) (StepTo-trans a op op' _ s (loop op' rest))
loop_step-StepTo a fuel len op b bs (returned op' n) loop e s = rw (e, write_loop) s
loop_step-StepTo a fuel len op b bs (last_segment op') loop e s = rw (e, write_loop) s
loop_step-StepTo a fuel len op b bs (undefined op') loop e s = rw (e, write_loop) s
loop_step-StepTo a fuel len op b bs exhausted loop e s = rw (e, write_loop) tt

loop-StepTo :
    (a fuel len : ℕ) (op : VectorRead) (buffer : Bytes)
    → StepTo a op (write_loop fuel len op buffer)
unfolding write_loop
loop-StepTo a fuel len op [] = Kept-Step a op op (Kept-refl op)
loop-StepTo a zero len op (b ∷ bs) = tt
loop-StepTo a (suc fuel) len op (b ∷ bs) =
    loop_step-StepTo a fuel len op b bs (pass len op (b ∷ bs)) (loop-StepTo a fuel len) refl
      (pass-StepTo a len op b bs)

write-StepTo : (a fuel : ℕ) (op : VectorRead) (buffer : Bytes) → StepTo a op (write fuel op buffer)
unfolding write
write-StepTo a fuel op buffer =
    let op' : VectorRead = record op { bytes = (op.bytes + length buffer) % 2 ^ 64 } in
    let P = StepTo a op in
    let len = length buffer in
    if_all P (is_ok op.headers.status_code)
      (loop-StepTo a fuel len (single_response op' (pos 0)) buffer)
      (if_all P (is_error op.headers.status_code) (Kept-Step a op op (Kept-refl op)) (
        if_all P (not op.headers.multipart_byteranges)
          (loop-StepTo a fuel len (single_response op' (to_int64 op.headers.response_offset))
            buffer)
          (loop-StepTo a fuel len op' buffer)))

-- The writes of one response, as steps: whole writes that returned, and writes in part, whose passes
-- may go on for ever. A step to `undefined` is the end: an element of m_chunk_list beyond its end is
-- about to be used.
pub data Writes : VectorRead → VectorRead → Type 0 where
  no_more : (op : VectorRead) → Writes op op
  and_then :
      (fuel n : ℕ) (op op' op'' : VectorRead) (buffer : Bytes)
      → write fuel op buffer ≡ returned op' n
      → Writes op' op''
      → Writes op op''
  begins_write :
      (op op'' : VectorRead) (buffer : Bytes)
      → Writes (record op { bytes = (op.bytes + length buffer) % 2 ^ 64 }) op''
      → Writes op op''
  begins_single :
      (op op'' : VectorRead) (offset : ℤ) → Writes (single_response op offset) op'' → Writes op op''
  passes :
      (len b : ℕ) (op op' op'' : VectorRead) (bs rest : Bytes)
      → pass len op (b ∷ bs) ≡ onward op' rest
      → Writes op' op''
      → Writes op op''
  goes_astray :
      (len b : ℕ) (op op' : VectorRead) (bs : Bytes)
      → pass len op (b ∷ bs) ≡ undefined op'
      → Writes op op'

write_returned :
    (a fuel n : ℕ) (op op' : VectorRead) (buffer : Bytes)
    → write fuel op buffer ≡ returned op' n
    → Step a op op'
write_returned a fuel n op op' buffer e = subst (StepTo a op) e (write-StepTo a fuel op buffer)

Writes-Step : (a : ℕ) (op op' : VectorRead) → Writes op op' → Step a op op'
Writes-Step a op _ (no_more _) = Kept-Step a op op (Kept-refl op)
Writes-Step a op _ (and_then fuel n _ op' op'' buffer e w) =
    Step-trans a op op' op'' (write_returned a fuel n op op' buffer e) (Writes-Step a op' op'' w)
Writes-Step a op _ (begins_write _ op'' buffer w) =
    let op' : VectorRead = record op { bytes = (op.bytes + length buffer) % 2 ^ 64 } in
    Step-trans a op op' op'' (Kept-Step a op op (Kept-refl op)) (Writes-Step a op' op'' w)
Writes-Step a op _ (begins_single _ op'' offset w) =
    let op' = single_response op offset in
    Step-trans a op op' op'' (Kept-Step a op op (Kept-refl op)) (Writes-Step a op' op'' w)
Writes-Step a op _ (passes len b _ op' op'' bs rest e w) =
    Step-trans a op op' op'' (subst (StepTo a op) e (pass-StepTo a len op b bs))
      (Writes-Step a op' op'' w)
Writes-Step a op _ (goes_astray len b _ op' bs e) =
    subst (StepTo a op) e (pass-StepTo a len op b bs)

-- At no point of any number of writes of a response, whatever the server sends, and also in a write
-- that never ends, is a byte of memory changed that is outside the buffers of the requested chunks,
-- up to the point, if it comes, where the code uses an element of m_chunk_list beyond its end.
pub Writes-memory :
    (a : ℕ) (op op' : VectorRead)
    → Outside a op.chunk_list
    → Writes op op'
    → op'.memory a ≡ op.memory a
Writes-memory a op op' o w = ((Writes-Step a op op' w).0 o).1
