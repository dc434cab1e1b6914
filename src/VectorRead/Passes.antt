-- ===== src/VectorRead/Passes.antt =====
-- src/XrdClCurl/XrdClCurlOpReadV.cc: the passes of the loop of Write; what is written, and when the
-- loop ends.
use xrdcl_pelican.Prelude.{
  ℕ, suc, ◌-◌, ◌<◌, ◌≤◌, Bool, true, false, ◌||◌, Option, none, some, ◌∷◌, ◌≡◌, refl, arith, ◌⊎◌,
  min,
}
use xrdcl_pelican.Prelude.Tests.{ltb, if_all, if_cases}
use xrdcl_pelican.Prelude.Bytes.{Bytes}
use xrdcl_pelican.Prelude.Lists.{length, drop, get_elem?, length-drop}
use xrdcl_pelican.VectorRead.State.{Chunk, VectorRead}
use xrdcl_pelican.VectorRead.Lines.{
  Outcome, onward, returned, exhausted, last_segment, undefined, boundary,
}
use xrdcl_pelican.VectorRead.PartHeader.{part_headers}
use xrdcl_pelican.VectorRead.Write.{
  copied, to_copy, after_copy, between_parts, behind_boundary, behind_headers, has_range, pass,
  copy_into, copy_at, go_on, in_payload, skipped,
}
use xrdcl_pelican.VectorRead.Framing.{Kept-refl}
use xrdcl_pelican.VectorRead.Phases.{Ends, Ends-weaken, boundary-Ends, part_headers-Ends}
use xrdcl_pelican.VectorRead.Memory.{
  Tidy, Step, Step-trans, Kept-Step, after_copy-Step, copy_shorter,
}

behind_headers-Ends :
    (op : VectorRead) (len n : ℕ) (o : Outcome) → Ends op n o → Ends op n (behind_headers len o)
behind_headers-Ends op len n (onward op' rest) e = if_all (Ends op n) (has_range op') (e) e.0
behind_headers-Ends op len n (returned op' k) e = e
behind_headers-Ends op len n (last_segment op') e = e
behind_headers-Ends op len n (undefined op') e = e
behind_headers-Ends op len n exhausted e = e

behind_boundary-Ends :
    (op : VectorRead) (len n : ℕ) (o : Outcome)
    → Ends op (suc n) o
    → Ends op n (behind_boundary len o)
behind_boundary-Ends op len n (onward op' buffer) e =
    Ends-weaken op op' (length buffer) n (behind_headers len (part_headers len op' buffer)) e.0
      (omega arith)
      (behind_headers-Ends op' len (length buffer) (part_headers len op' buffer)
        (part_headers-Ends len op' buffer))
behind_boundary-Ends op len n (returned op' k) e = e
behind_boundary-Ends op len n (last_segment op') e = e
behind_boundary-Ends op len n (undefined op') e = e
behind_boundary-Ends op len n exhausted e = e

between_parts-Ends :
    (len : ℕ) (op : VectorRead) (buffer : Bytes)
    → Ends op (length buffer) (between_parts len op buffer)
unfolding between_parts
between_parts-Ends len op buffer =
    behind_boundary-Ends op len (length buffer) (boundary len op buffer)
      (boundary-Ends len op buffer)

-- A pass that goes on leaves fewer than `n` bytes, from a tidy state.
abbrev pub Passed : ℕ → VectorRead → ℕ → Outcome → Type 0
Passed a op n (onward op' rest) = Step a op op' × (Tidy op → length rest < n)
Passed a op n (returned op' k) = Step a op op'
Passed a op n (last_segment op') = Step a op op'
Passed a op n (undefined op') = Step a op op'
Passed a op n exhausted = ⊥

Ends-Passed :
    (a : ℕ) (x y : VectorRead) (m n : ℕ) (o : Outcome)
    → Step a x y
    → m ≤ n
    → Ends y m o
    → Passed a x n o
Ends-Passed a x y m n (onward z rest) s l e =
    (Step-trans a x y z s (Kept-Step a y z e.0), λ t. omega (arith, e.1))
Ends-Passed a x y m n (returned z k) s l e = Step-trans a x y z s (Kept-Step a y z e)
Ends-Passed a x y m n (last_segment z) s l e = Step-trans a x y z s (Kept-Step a y z e)
Ends-Passed a x y m n (undefined z) s l e = Step-trans a x y z s (Kept-Step a y z e)
Ends-Passed a x y m n exhausted s l e = e

-- Behind a step that took some of the buffer.
go_on-Passed :
    (a len : ℕ) (x y : VectorRead) (again : Bool) (n : ℕ) (rest : Bytes)
    → Step a x y
    → length rest ≤ n
    → (Tidy x → length rest < n)
    → Passed a x n (go_on len y again rest)
go_on-Passed a len x y again n rest s l h =
    if_all (Passed a x n) (again || ltb 0 y.skip_bytes) (s, h)
      (Ends-Passed a x y (length rest) n (between_parts len y rest) s l
        (between_parts-Ends len y rest))

copy_into-Passed :
    (a len : ℕ) (op : VectorRead) (c : Chunk) (b : ℕ) (bs : Bytes)
    → get_elem? op.chunk_list op.response_idx ≡ some c
    → Passed a op (length (b ∷ bs)) (copy_into len op c (b ∷ bs))
copy_into-Passed a len op c b bs at =
    let count = to_copy op c (b ∷ bs) in
    let rest = drop count (b ∷ bs) in
    let short = length-drop count (b ∷ bs) in
    let stay : Step a op op = Kept-Step a op op (Kept-refl op) in
    if_cases (Passed a op (length (b ∷ bs))) (ltb c.size op.chunk_buffer_idx) (λ e. stay)
      (λ e.
        (let r = after_copy (copied op c count (b ∷ bs)) c in
          go_on-Passed a len op r.0 r.1 (length (b ∷ bs)) rest
            (after_copy-Step a op c (b ∷ bs) at (ground arith)) (omega arith)
            (λ t. copy_shorter op c b bs (t.1 c at))))

copy_at-Passed :
    (a len : ℕ) (op : VectorRead) (b : ℕ) (bs : Bytes) (o : Option Chunk)
    → get_elem? op.chunk_list op.response_idx ≡ o
    → Passed a op (length (b ∷ bs)) (copy_at len op (b ∷ bs) o)
copy_at-Passed a len op b bs none e = Kept-Step a op op (Kept-refl op)
copy_at-Passed a len op b bs (some c) e = copy_into-Passed a len op c b bs e

skipped-Passed :
    (a : ℕ) (op : VectorRead) (b : ℕ) (bs : Bytes)
    → 0 < op.skip_bytes
    → Passed a op (length (b ∷ bs)) (skipped op (b ∷ bs))
skipped-Passed a op b bs h =
    let to_skip = min op.skip_bytes (length (b ∷ bs)) in
    let short = length-drop to_skip (b ∷ bs) in
    (
      Kept-Step a op (record op { skip_bytes = op.skip_bytes - to_skip }) (Kept-refl op),
      λ t. omega arith,
    )

pub pass-Passed :
    (a len : ℕ) (op : VectorRead) (b : ℕ) (bs : Bytes)
    → (in_payload op ≡ true) ⊎ (op.skip_bytes ≡ 0)
    → Passed a op (length (b ∷ bs)) (pass len op (b ∷ bs))
unfolding pass
pass-Passed a len op b bs h =
    let P = Passed a op (length (b ∷ bs)) in
    let stay : Step a op op = Kept-Step a op op (Kept-refl op) in
    if_cases P (in_payload op)
      (λ i.
        if_cases P (ltb 0 op.skip_bytes) (λ e. skipped-Passed a op b bs (ground arith))
          (λ e. copy_at-Passed a len op b bs _ refl))
      (λ i.
        if_cases P (false || ltb 0 op.skip_bytes)
          (λ e. (let bad : ⊥ = ground arith in elim bad [ ]))
          (λ e.
            Ends-Passed a op op (length (b ∷ bs)) (length (b ∷ bs)) _ stay (omega arith)
              (between_parts-Ends len op (b ∷ bs))))
