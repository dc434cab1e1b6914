-- ===== src/VectorRead/Memory.antt =====
-- src/XrdClCurl/XrdClCurlOpReadV.cc: what one pass of the loop of Write does to the memory, to the
-- chunks and to the place of the copy.
use xrdcl_pelican.Prelude.{
  ℕ, zero, suc, ◌+◌, ◌-◌, ◌<◌, ◌≤◌, Bool, none, some, List, [], ◌∷◌, ◌≡◌, refl, sym, arith, ◌∙◌,
  ◌⊎◌, inl, inr,
}
use mathlib.Core.Path.{subst, ap}
use xrdcl_pelican.Prelude.Tests.{◌==◌, if_all, if_cases}
use xrdcl_pelican.Prelude.Bytes.{Bytes}
use xrdcl_pelican.Prelude.Lists.{
  length, take, drop, get_elem?, All, All-append, length-take, length-drop,
}
use xrdcl_pelican.VectorRead.State.{
  Chunk, VectorRead, add_off, sub_off, calculate_next_buffer, store,
}
use xrdcl_pelican.VectorRead.Write.{
  copied, delivered, unset, to_copy, after_copy, response_complete, equals, chunk_complete,
}
use xrdcl_pelican.VectorRead.Framing.{Kept}

-- The address is in the buffer of no chunk.
abbrev pub Misses : ℕ → Chunk → Type 0
Misses a c = (a < c.buffer) ⊎ (c.buffer + c.size ≤ a)

abbrev pub Outside : ℕ → List Chunk → Type 0
Outside a chunks = All (Misses a) chunks

abbrev pub NonEmpty : Chunk → Type 0
NonEmpty c = 0 < c.size

-- The copy goes on inside its chunk.
abbrev pub InChunk : VectorRead → Type 0
InChunk op =
    (c : Chunk) → get_elem? op.chunk_list op.response_idx ≡ some c → op.chunk_buffer_idx < c.size

abbrev pub Tidy : VectorRead → Type 0
Tidy op = All NonEmpty op.chunk_list × InChunk op

-- A byte outside the buffers stays as it is, and so does a tidy state.
abbrev pub Step : ℕ → VectorRead → VectorRead → Type 0
Step a op op' =
    (Outside a op.chunk_list → Outside a op'.chunk_list × (op'.memory a ≡ op.memory a))
    × (Tidy op → Tidy op')

pub Step-trans : (a : ℕ) (x y z : VectorRead) → Step a x y → Step a y z → Step a x z
Step-trans a x y z h k =
    (λ o. (let p = h.0 o in let q = k.0 p.0 in (q.0, q.1 ∙ p.1)), λ t. k.1 (h.1 t))

All-get_elem? {κ} :
    (P : Chunk → Type κ) (xs : List Chunk) (i : ℕ) (c : Chunk)
    → All P xs
    → get_elem? xs i ≡ some c
    → P c
All-get_elem? P [] i c h e = let bad : ⊥ = ground arith in elim bad [ ]
All-get_elem? P (x ∷ xs) zero c h e = subst P (ap (λ o. elim o [ none ↦ x | some y ↦ y ]) e) h.0
All-get_elem? P (x ∷ xs) (suc i) c h e = All-get_elem? P xs i c h.1 e

-- At the start of a chunk.
pub at_start : (op : VectorRead) → op.chunk_buffer_idx ≡ 0 → All NonEmpty op.chunk_list → Tidy op
at_start op z h = (h, λ c e. rw z (All-get_elem? NonEmpty op.chunk_list op.response_idx c h e))

pub Kept-Step : (a : ℕ) (x y : VectorRead) → Kept x y → Step a x y
Kept-Step a x y k = (
  λ o. (subst (Outside a) (sym k.0) o, ap (λ m. m a) k.1),
  λ t. elim k.2 [
    | inl z ↦ at_start y z (subst (All NonEmpty) (sym k.0) t.0)
    | inr e ↦ (
      subst (All NonEmpty) (sym k.0) t.0,
      λ c g.
          (let g' : get_elem? x.chunk_list x.response_idx ≡ some c = cc (k.0, e.0, g) in
            omega (arith, e.1, t.1 c g')),
    )
  ],
)

store_elsewhere :
    (start a : ℕ) (xs : Bytes) (memory : ℕ → ℕ)
    → (a < start) ⊎ (start + length xs ≤ a)
    → store start xs memory a ≡ memory a
store_elsewhere start a xs memory (inl h) = ground arith
store_elsewhere start a xs memory (inr h) = ground arith

-- The copy fits in what the chunk has left, and takes something of a chunk that has something left.
copy_fits :
    (op : VectorRead) (c : Chunk) (buffer : Bytes)
    → (to_copy op c buffer ≤ c.size - op.chunk_buffer_idx)
      × (length (take (to_copy op c buffer) buffer) ≤ c.size - op.chunk_buffer_idx)
copy_fits op c buffer =
    let k = length-take (to_copy op c buffer) buffer in
    let l : to_copy op c buffer ≤ c.size - op.chunk_buffer_idx = ground arith in (l, omega arith)

pub copy_shorter :
    (op : VectorRead) (c : Chunk) (b : ℕ) (bs : Bytes)
    → op.chunk_buffer_idx < c.size
    → length (drop (to_copy op c (b ∷ bs)) (b ∷ bs)) < length (b ∷ bs)
copy_shorter op c b bs h =
    let k = length-drop (to_copy op c (b ∷ bs)) (b ∷ bs) in
    let l : 0 < to_copy op c (b ∷ bs) = ground arith in omega arith

-- The bytes outside the buffers, behind the copy.
copied_elsewhere :
    (a : ℕ) (op : VectorRead) (c : Chunk) (buffer : Bytes)
    → op.chunk_buffer_idx ≤ c.size
    → Misses a c
    → (copied op c (to_copy op c buffer) buffer).memory a ≡ op.memory a
copied_elsewhere a op c buffer h m =
    let (k, l) = copy_fits op c buffer in
    store_elsewhere (c.buffer + op.chunk_buffer_idx) a (take (to_copy op c buffer) buffer) op.memory
      (elim m [ inl p ↦ inl (omega arith) | inr p ↦ inr (omega arith) ])

abbrev StepBy : ℕ → VectorRead → VectorRead × Bool → Type 0
StepBy a op r = Step a op r.0

some_injective : (x y : Chunk) → some x ≡ some y → x ≡ y
some_injective x y e = ap (λ o. elim o [ none ↦ x | some z ↦ z ]) e

abbrev remainder : Chunk → ℕ → Chunk
remainder c n = record { offset = c.offset + n; size = c.size - n; buffer = c.buffer + n }

-- The chunk that is left over is inside the chunk.
remainder-Misses : (a : ℕ) (c : Chunk) (n : ℕ) → n ≤ c.size → Misses a c → Misses a (remainder c n)
remainder-Misses a c n h (inl p) = inl (omega arith)
remainder-Misses a c n h (inr p) = inr (omega arith)

module _ (a : ℕ) (op : VectorRead) (c : Chunk) (buffer : Bytes)
    (at : get_elem? op.chunk_list op.response_idx ≡ some c)
    (fits : op.chunk_buffer_idx ≤ c.size) where
  abbrev behind_copy : VectorRead
  behind_copy = copied op c (to_copy op c buffer) buffer

  missed : Outside a op.chunk_list → Misses a c
  missed o = All-get_elem? (Misses a) op.chunk_list op.response_idx c o at

  same_byte : Outside a op.chunk_list → behind_copy.memory a ≡ op.memory a
  same_byte o = copied_elsewhere a op c buffer fits (missed o)

  abbrev chunk_done : VectorRead
  chunk_done = record (delivered behind_copy c) {
    current_offset = add_off op.current_offset c.size;
    current_length = sub_off op.current_length c.size;
  }

  chunk_complete-Step : StepBy a op (chunk_complete behind_copy c)
  unfolding calculate_next_buffer
  chunk_complete-Step =
      if_all (StepBy a op) (equals op.current_length c.size)
        (λ o. (o, same_byte o), λ t. at_start (unset (delivered behind_copy c)) refl t.0)
        (λ o. (o, same_byte o), λ t. at_start (calculate_next_buffer chunk_done) refl t.0)

  response_complete-Step :
      behind_copy.chunk_buffer_idx < c.size → Step a op (response_complete behind_copy c)
  response_complete-Step l =
      let m : Outside a op.chunk_list → Misses a (remainder c behind_copy.chunk_buffer_idx) =
        λ o. remainder-Misses a c behind_copy.chunk_buffer_idx (omega arith) (missed o) in
      let r : NonEmpty (remainder c behind_copy.chunk_buffer_idx) = omega arith in
      (
        λ o. (All-append (Misses a) op.chunk_list _ o (m o, tt), same_byte o),
        λ t.
            at_start (response_complete behind_copy c) refl
              (All-append NonEmpty op.chunk_list _ t.0 (r, tt)),
      )

  -- The copy has not reached the end of the chunk.
  copying-Step : behind_copy.chunk_buffer_idx < c.size → Step a op behind_copy
  copying-Step l = (
    λ o. (o, same_byte o),
    λ t. (
      t.0,
      λ d e. subst (λ x. behind_copy.chunk_buffer_idx < x.size) (some_injective c d (sym at ∙ e)) l,
    ),
  )

  pub after_copy-Step : StepBy a op (after_copy behind_copy c)
  after_copy-Step =
      let (k, l) = copy_fits op c buffer in
      if_cases (StepBy a op) (c.size == behind_copy.chunk_buffer_idx) (λ e. chunk_complete-Step)
        (λ e.
          (let l : behind_copy.chunk_buffer_idx < c.size = ground arith in
            if_all (StepBy a op) (equals op.current_length behind_copy.chunk_buffer_idx)
              (response_complete-Step l) (copying-Step l)))
