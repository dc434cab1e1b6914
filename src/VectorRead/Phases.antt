-- ===== src/VectorRead/Phases.antt =====
-- src/XrdClCurl/XrdClCurlOpReadV.cc: the two loops of Write between the parts end, and leave the
-- chunks, the memory and the place of the copy.
use xrdcl_pelican.Prelude.{ℕ, zero, suc, ◌<◌, ◌≤◌, [], ◌++◌, arith, inl, inr}
use xrdcl_pelican.Prelude.Tests.{if_all, Option-cases, Bool-cases}
use xrdcl_pelican.Prelude.Bytes.{Bytes, codes, is_empty, beq}
use xrdcl_pelican.Prelude.Lists.{length}
use xrdcl_pelican.VectorRead.State.{VectorRead}
use xrdcl_pelican.VectorRead.Lines.{
  next_line, Outcome, onward, returned, exhausted, boundary_loop, boundary, last_segment, undefined,
}
use xrdcl_pelican.VectorRead.PartHeader.{part_header, header_loop, part_headers}
use xrdcl_pelican.VectorRead.Framing.{
  Kept, Kept-refl, Kept-trans, part_header-Kept, next_line_shorter,
}

-- The phase ends with fewer than `n` bytes left.
abbrev pub Ends : VectorRead → ℕ → Outcome → Type 0
Ends op n (onward op' rest) = Kept op op' × (length rest < n)
Ends op n (returned op' k) = Kept op op'
Ends op n (last_segment op') = Kept op op'
Ends op n (undefined op') = Kept op op'
Ends op n exhausted = ⊥

pub Ends-weaken :
    (a b : VectorRead) (m n : ℕ) (o : Outcome) → Kept a b → m ≤ n → Ends b m o → Ends a n o
Ends-weaken a b m n (onward op rest) k l e = (Kept-trans a b op k e.0, omega (arith, e.1))
Ends-weaken a b m n (returned op r) k l e = Kept-trans a b op k e
Ends-weaken a b m n (last_segment op) k l e = Kept-trans a b op k e
Ends-weaken a b m n (undefined op) k l e = Kept-trans a b op k e
Ends-weaken a b m n exhausted k l e = e

abbrev cleared : VectorRead → VectorRead
cleared op = record op { response_headers = [] }

boundary_loop-Ends :
    (fuel len : ℕ) (op : VectorRead) (buffer : Bytes)
    → length buffer < fuel
    → Ends op (length buffer) (boundary_loop fuel len op buffer)
unfolding boundary_loop
boundary_loop-Ends zero len op buffer h = elim h [ ]
boundary_loop-Ends (suc fuel) len op buffer h =
    elim (Option-cases (next_line op.response_headers buffer)) [
      | inl e ↦ rw (e, boundary_loop) (Kept-refl op)
      | inr (line, e) ↦
          let s = next_line_shorter op.response_headers buffer line e in
          let again =
            Ends-weaken op (cleared op) (length line.rest) (length buffer) _ (Kept-refl op)
              (omega arith) (boundary_loop-Ends fuel len (cleared op) line.rest (omega arith)) in
          rw (e, boundary_loop)
            (if_all (Ends op (length buffer)) (is_empty line.text) again (
              if_all (Ends op (length buffer)) (beq line.text op.headers.multipart_sep)
                (Kept-refl op, s)
                (if_all (Ends op (length buffer))
                  (beq line.text (op.headers.multipart_sep ++ codes "--")) (Kept-refl op)
                  (Kept-refl op))))
    ]

header_loop-Ends :
    (fuel len : ℕ) (op : VectorRead) (buffer : Bytes)
    → length buffer < fuel
    → Ends op (length buffer) (header_loop fuel len op buffer)
unfolding header_loop
header_loop-Ends zero len op buffer h = elim h [ ]
header_loop-Ends (suc fuel) len op buffer h =
    elim (Option-cases (next_line op.response_headers buffer)) [
      | inl e ↦ rw (e, header_loop) (Kept-refl op)
      | inr (line, e) ↦
          let s = next_line_shorter op.response_headers buffer line e in
          let next = (part_header (cleared op) line.text line.behind).0 in
          let k = part_header-Kept (cleared op) line.text line.behind in
          elim (Bool-cases (is_empty line.text)) [
            | inl t ↦ rw (e, header_loop) (rw (t, header_loop) (Kept-refl op, s))
            | inr t ↦ elim (Option-cases (part_header (cleared op) line.text line.behind).1) [
              | inl d ↦
                  rw (e, header_loop)
                    (rw (t, header_loop)
                      (rw (d, header_loop)
                        (Ends-weaken op next (length line.rest) (length buffer) _ k (omega arith)
                          (header_loop-Ends fuel len next line.rest (omega arith)))))
              | inr (c, d) ↦ rw (e, header_loop) (rw (t, header_loop) (rw (d, header_loop) k))
            ]
          ]
    ]

pub boundary-Ends :
    (len : ℕ) (op : VectorRead) (buffer : Bytes)
    → Ends op (suc (length buffer)) (boundary len op buffer)
unfolding boundary
boundary-Ends len op buffer =
    if_all (Ends op (suc (length buffer))) op.multipart_boundary
      (Ends-weaken op op (length buffer) (suc (length buffer)) _ (Kept-refl op) (omega arith)
        (boundary_loop-Ends (suc (length buffer)) len op buffer (omega arith)))
      (Kept-refl op, omega arith)

pub part_headers-Ends :
    (len : ℕ) (op : VectorRead) (buffer : Bytes)
    → Ends op (length buffer) (part_headers len op buffer)
unfolding part_headers
part_headers-Ends len op buffer = header_loop-Ends (suc (length buffer)) len op buffer (omega arith)
