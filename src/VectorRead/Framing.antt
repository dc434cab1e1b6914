-- ===== src/VectorRead/Framing.antt =====
-- src/XrdClCurl/XrdClCurlOpReadV.cc: what the headers of a part leave of a vector read, and how much
-- of the buffer they take.
use xrdcl_pelican.Prelude.{
  ℕ, zero, suc, ◌+◌, ◌<◌, ◌≤◌, not, Option, none, some, [], ◌∷◌, ◌++◌, ◌≡◌, refl, arith, ◌∙◌, ◌⊎◌,
  inl, inr,
}
use xrdcl_pelican.Prelude.Tests.{if_all}
use xrdcl_pelican.Prelude.Bytes.{Bytes, find, beq, find_text, codes}
use xrdcl_pelican.Prelude.Lists.{length, take, drop, length-drop}
use xrdcl_pelican.Prelude.Int.{ℤ, pos, negsuc}
use xrdcl_pelican.VectorRead.State.{VectorRead, Complaint, calculate_next_buffer}
use xrdcl_pelican.VectorRead.Lines.{Line, next_line}
use xrdcl_pelican.VectorRead.PartHeader.{
  part_header, Converted, invalid_argument, out_of_range, converted, range_start, range_end,
  named_header, with_length, stops_at, stoll_count,
}
use xrdcl_pelican.Digest.{lower}
use xrdcl_pelican.Headers.Text.{skip_spaces}

-- The chunks and the memory are the same, and so is the place of the copy, or it is the start of a
-- chunk.
abbrev pub Kept : VectorRead → VectorRead → Type 0
Kept op op' =
    (op'.chunk_list ≡ op.chunk_list)
    × (op'.memory ≡ op.memory)
    × ((op'.chunk_buffer_idx ≡ 0)
        ⊎ ((op'.response_idx ≡ op.response_idx) × (op'.chunk_buffer_idx ≡ op.chunk_buffer_idx)))

pub Kept-trans : (a b c : VectorRead) → Kept a b → Kept b c → Kept a c
Kept-trans a b c h k = (
  k.0 ∙ h.0,
  k.1 ∙ h.1,
  elim k.2 [
    | inl z ↦ inl z
    | inr e ↦ elim h.2 [ inl z ↦ inl (e.1 ∙ z) | inr d ↦ inr (e.0 ∙ d.0, e.1 ∙ d.1) ]
  ],
)

calculate_next_buffer-Kept : (op : VectorRead) → Kept op (calculate_next_buffer op)
unfolding calculate_next_buffer
calculate_next_buffer-Kept op = (refl, refl, inl refl)

pub Kept-refl : (op : VectorRead) → Kept op op
Kept-refl op = (refl, refl, inr (refl, refl))

-- The operation of a result.
abbrev KeptBy : VectorRead → VectorRead × Option Complaint → Type 0
KeptBy op r = Kept op r.0

with_length-Kept : (op : VectorRead) (line : Bytes) (z : ℤ) → KeptBy op (with_length op line z)
with_length-Kept op line (pos n) = calculate_next_buffer-Kept (record op { current_length = pos n })
with_length-Kept op line (negsuc n) = Kept-refl op

range_end-Kept :
    (op : VectorRead) (line value : Bytes) (c : Converted) → KeptBy op (range_end op line value c)
range_end-Kept op line value invalid_argument = Kept-refl op
range_end-Kept op line value out_of_range = Kept-refl op
range_end-Kept op line value (converted z n) =
    if_all (KeptBy op) (not (stops_at b'/' value n)) (Kept-refl op) (with_length-Kept op line _)

range_start-Kept :
    (op : VectorRead) (line value behind : Bytes) (c : Converted)
    → KeptBy op (range_start op line value behind c)
range_start-Kept op line value behind invalid_argument = Kept-refl op
range_start-Kept op line value behind out_of_range = Kept-refl op
range_start-Kept op line value behind (converted z n) =
    if_all (KeptBy op) (not (stops_at b'-' value n)) (Kept-refl op) (
      range_end-Kept (record op { current_offset = z }) line (drop (suc n) value)
        (stoll_count (drop (suc n) value ++ behind)))

named_header-Kept :
    (op : VectorRead) (line behind : Bytes) (found : Option ℕ)
    → KeptBy op (named_header op line behind found)
named_header-Kept op line behind none = Kept-refl op
named_header-Kept op line behind (some n) =
    if_all (KeptBy op) (not (beq (lower (take n line)) (codes "content-range"))) (Kept-refl op) (
      if_all (KeptBy op) (not (beq (take 5 (skip_spaces (drop (suc n) line))) (codes "bytes")))
        (Kept-refl op)
        (let range = skip_spaces (drop 5 (skip_spaces (drop (suc n) line))) in
          range_start-Kept op line range behind (stoll_count (range ++ behind))))

pub part_header-Kept :
    (op : VectorRead) (line behind : Bytes) → KeptBy op (part_header op line behind)
unfolding part_header
part_header-Kept op line behind = named_header-Kept op line behind (find b':' line)

find_text_bound : (xs : Bytes) (p : ℕ) → find_text (codes "\r\n") xs ≡ some p → p + 2 ≤ length xs
unfolding find_text
find_text_bound [] p h = ground arith
find_text_bound (x ∷ []) p h = ground arith
find_text_bound (x ∷ y ∷ ys) zero h = ground arith
find_text_bound (x ∷ y ∷ ys) (suc p) h =
    let k : find_text (codes "\r\n") (y ∷ ys) ≡ some p = ground arith in
    omega (arith, find_text_bound (y ∷ ys) p k)

rest_shorter :
    (pending buffer : Bytes) (line : Line) (o : Option ℕ)
    → find_text (codes "\r\n") buffer ≡ o
    → next_line pending buffer ≡ some line
    → length line.rest < length buffer
unfolding next_line
rest_shorter pending [] line none e h = ground arith
rest_shorter pending [] line (some p) e h = omega (arith, find_text_bound [] p e)
rest_shorter pending (c ∷ cs) line none e h = ground (arith, length-drop 1 (c ∷ cs))
rest_shorter pending (c ∷ cs) line (some p) e h =
    ground
      (arith, length-drop (p + 2) (c ∷ cs), length-drop 1 (c ∷ cs), find_text_bound (c ∷ cs) p e)

pub next_line_shorter :
    (pending buffer : Bytes) (line : Line)
    → next_line pending buffer ≡ some line
    → length line.rest < length buffer
next_line_shorter pending buffer line h = rest_shorter pending buffer line _ refl h
