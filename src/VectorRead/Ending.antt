-- ===== src/VectorRead/Ending.antt =====
-- src/XrdClCurl/XrdClCurlOpReadV.cc: when the loop of Write ends, and the memory behind any number of
-- writes.
use xrdcl_pelican.Prelude.{
  ℕ, zero, suc, ◌+◌, ◌^◌, ◌<◌, ◌≤◌, ◌%◌, true, false, not, [], ◌∷◌, ◌≡◌, ◌≢◌, refl, arith, ◌⊎◌, inl,
  inr,
}
use xrdcl_pelican.Prelude.Tests.{ltb, if_cases, Bool-cases}
use xrdcl_pelican.Prelude.Bytes.{Bytes}
use xrdcl_pelican.Prelude.Lists.{length}
use xrdcl_pelican.VectorRead.State.{VectorRead}
use xrdcl_pelican.VectorRead.Lines.{Outcome, exhausted, onward, returned, last_segment, undefined}
use xrdcl_pelican.VectorRead.Write.{pass, write_loop, write, is_ok, is_error, in_payload}
use xrdcl_pelican.VectorRead.Memory.{Tidy}
use xrdcl_pelican.VectorRead.Passes.{Passed, pass-Passed}

pub stuck_pass :
    (len : ℕ) (op : VectorRead) (buffer : Bytes)
    → in_payload op ≡ false
    → 0 < op.skip_bytes
    → pass len op buffer ≡ onward op buffer
unfolding pass
stuck_pass len op buffer p s =
    let e : ltb 0 op.skip_bytes ≡ true = ground arith in rw (p, pass) (rw e)

-- The passes of the loop reach a state where there are bytes to skip and no payload to skip them in.
pub data Stuck (len : ℕ) : VectorRead → Bytes → Type 0 where
  here :
      (op : VectorRead) (b : ℕ) (bs : Bytes)
      → in_payload op ≡ false
      → 0 < op.skip_bytes
      → Stuck len op (b ∷ bs)
  after :
      (op op' : VectorRead) (b : ℕ) (bs rest : Bytes)
      → pass len op (b ∷ bs) ≡ onward op' rest
      → Stuck len op' rest
      → Stuck len op (b ∷ bs)

Stuck-exhausted :
    (fuel len : ℕ) (op : VectorRead) (buffer : Bytes)
    → Stuck len op buffer
    → write_loop fuel len op buffer ≡ exhausted
unfolding write_loop
Stuck-exhausted zero len _ _ (here op b bs p s) = refl
Stuck-exhausted (suc fuel) len _ _ (here op b bs p s) =
    rw (stuck_pass len op (b ∷ bs) p s, write_loop)
      (Stuck-exhausted fuel len op (b ∷ bs) (here op b bs p s))
Stuck-exhausted zero len _ _ (after op op' b bs rest e s) = refl
Stuck-exhausted (suc fuel) len _ _ (after op op' b bs rest e s) =
    rw (e, write_loop) (Stuck-exhausted fuel len op' rest s)

-- A pass is stuck, or it finds a payload or nothing to skip.
pub stuck-cases :
    (op : VectorRead)
    → ((in_payload op ≡ false) × (0 < op.skip_bytes))
      ⊎ ((in_payload op ≡ true) ⊎ (op.skip_bytes ≡ 0))
stuck-cases op = elim (Bool-cases (in_payload op)) [
  | inl e ↦ inr (inl e)
  | inr e ↦ elim (Bool-cases (ltb 0 op.skip_bytes)) [
    | inl l ↦ inl (e, ground arith)
    | inr l ↦ inr (inr (ground arith))
  ]
]

abbrev EndsOrStuck : ℕ → ℕ → VectorRead → Bytes → Type 0
EndsOrStuck fuel len op buffer = (write_loop fuel len op buffer ≢ exhausted) ⊎ Stuck len op buffer

returned-exhausted : (op : VectorRead) (n : ℕ) → returned op n ≢ exhausted
returned-exhausted op n = λ e. ground arith

undefined-exhausted : (op : VectorRead) → undefined op ≢ exhausted
undefined-exhausted op = λ e. ground arith

loop_step :
    (fuel len : ℕ) (op : VectorRead) (b : ℕ) (bs : Bytes) (o : Outcome)
    → ((op' : VectorRead) (rest : Bytes)
        → Tidy op'
        → length rest ≤ fuel
        → EndsOrStuck fuel len op' rest)
    → Tidy op
    → length (b ∷ bs) ≤ suc fuel
    → pass len op (b ∷ bs) ≡ o
    → Passed 0 op (length (b ∷ bs)) o
    → EndsOrStuck (suc fuel) len op (b ∷ bs)
unfolding write_loop
loop_step fuel len op b bs (onward op' rest) ends t h e p =
    elim (ends op' rest (p.0.1 t) (let l = p.1 t in omega arith)) [
      | inl n ↦ inl (rw (e, write_loop) n)
      | inr s ↦ inr (after op op' b bs rest e s)
    ]
loop_step fuel len op b bs (returned op' n) ends t h e p =
    inl (rw (e, write_loop) (returned-exhausted op' n))
loop_step fuel len op b bs (last_segment op') ends t h e p =
    inl (rw (e, write_loop) (returned-exhausted op' len))
loop_step fuel len op b bs (undefined op') ends t h e p =
    inl (rw (e, write_loop) (undefined-exhausted op'))
loop_step fuel len op b bs exhausted ends t h e p = elim p [ ]

loop_ends :
    (fuel len : ℕ) (op : VectorRead) (buffer : Bytes)
    → Tidy op
    → length buffer ≤ fuel
    → EndsOrStuck fuel len op buffer
unfolding write_loop
loop_ends fuel len op [] t h = inl (returned-exhausted op len)
loop_ends zero len op (b ∷ bs) t h = let bad : ⊥ = omega arith in elim bad [ ]
loop_ends (suc fuel) len op (b ∷ bs) t h = elim (stuck-cases op) [
  | inl (p, s) ↦ inr (here op b bs p s)
  | inr g ↦
      loop_step fuel len op b bs (pass len op (b ∷ bs)) (loop_ends fuel len) t h refl
        (pass-Passed 0 len op b bs g)
]

-- Where no chunk is empty and the copy is inside its chunk, as many passes of the loop of Write as
-- the buffer has bytes are enough for it to end; or else the passes reach a state with bytes to
-- skip and no payload to skip them in, and then no number of passes is enough.
pub write_loop-Stuck :
    (fuel more len : ℕ) (op : VectorRead) (buffer : Bytes)
    → Tidy op
    → length buffer ≤ fuel
    → (write_loop fuel len op buffer ≢ exhausted)
      ⊎ (Stuck len op buffer × (write_loop more len op buffer ≡ exhausted))
write_loop-Stuck fuel more len op buffer t h = elim (loop_ends fuel len op buffer t h) [
  | inl n ↦ inl n
  | inr s ↦ inr (s, Stuck-exhausted more len op buffer s)
]

-- Where a multipart response with a status that is no error and not 200 has left the operation
-- inside the headers of a part (m_multipart_boundary is false) with bytes to skip, Write does not
-- return on a further buffer that is not empty: no number of passes of its loop is enough.
pub write_hangs :
    (fuel : ℕ) (op : VectorRead) (c : ℕ) (cs : Bytes)
    → is_ok op.headers.status_code ≡ false
    → is_error op.headers.status_code ≡ false
    → op.headers.multipart_byteranges ≡ true
    → op.multipart_boundary ≡ false
    → 0 < op.skip_bytes
    → write fuel op (c ∷ cs) ≡ exhausted
unfolding write
write_hangs fuel op c cs o e m b s =
    let op' : VectorRead = record op { bytes = (op.bytes + length (c ∷ cs)) % 2 ^ 64 } in
    let stuck = here op' c cs (rw b) s in
    rw (o, write)
      (rw (e, write)
        (if_cases (λ r. r ≡ exhausted) (not op.headers.multipart_byteranges)
          (λ t. (let bad : ⊥ = ground arith in elim bad [ ]))
          (λ t. Stuck-exhausted fuel (length (c ∷ cs)) op' (c ∷ cs) stuck)))
