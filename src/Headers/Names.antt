-- ===== src/Headers/Names.antt =====
-- src/XrdClCurl/XrdClCurlUtil.cc: Canonicalize as a normal form of header names.
use xrdcl_pelican.Prelude.{
  ℕ, Bool, true, false, some, [], ◌∷◌, ◌≡◌, refl, sym, ◌∙◌, ap, inl, inr, arith,
}
use xrdcl_pelican.Prelude.Tests.{◌==◌, Bool-cases, Option-cases}
use xrdcl_pelican.Prelude.Bytes.{Bytes}
use xrdcl_pelican.Digest.{lower, to_lower}
use mathlib.Core.Option.{some-injective}
use xrdcl_pelican.Headers.Text.{valid_header_byte, shift_case, canonical_loop, canonicalize}

shift_case_idem :
    (upper : Bool) (c : ℕ) → shift_case upper (shift_case upper c) ≡ shift_case upper c
shift_case_idem true c = ground arith
shift_case_idem false c = ground arith

valid-shift_case :
    (upper : Bool) (c : ℕ)
    → valid_header_byte c ≡ true
    → valid_header_byte (shift_case upper c) ≡ true
valid-shift_case true c h = ground arith
valid-shift_case false c h = ground arith

canonical_loop_step :
    (upper : Bool) (c : ℕ) (cs name : Bytes)
    → canonical_loop upper (c ∷ cs) ≡ some name
    → (valid_header_byte c ≡ true)
      × (rest : Bytes) × (canonical_loop (shift_case upper c == b'-') cs ≡ some rest)
      × (name ≡ shift_case upper c ∷ rest)
unfolding canonical_loop
canonical_loop_step upper c cs name h = elim (Bool-cases (valid_header_byte c)) [
  | inr e ↦ absurd (cc (rw e at h))
  | inl e ↦ elim (Option-cases (canonical_loop (shift_case upper c == b'-') cs)) [
    | inl n ↦ absurd (cc (rw (e, n) at h))
    | inr (rest, n) ↦ (e, rest, n, sym (some-injective _ _ (rw (e, n) at h)))
  ]
]

canonical_loop_idem :
    (upper : Bool) (cs name : Bytes)
    → canonical_loop upper cs ≡ some name
    → canonical_loop upper name ≡ some name
unfolding canonical_loop
canonical_loop_idem upper [] name h = rw (sym (some-injective _ _ h)) refl
canonical_loop_idem upper (c ∷ cs) name h =
    let (v, rest, n, e) = canonical_loop_step upper c cs name h in
    rw (e, canonical_loop, valid-shift_case upper c v, shift_case_idem upper c)
      (rw (canonical_loop_idem (shift_case upper c == b'-') cs rest n))

shift_case-to_lower : (upper : Bool) (c : ℕ) → shift_case upper (to_lower c) ≡ shift_case upper c
shift_case-to_lower true c = ground arith
shift_case-to_lower false c = ground arith

valid-to_lower : (c : ℕ) → valid_header_byte (to_lower c) ≡ valid_header_byte c
valid-to_lower c = ground arith

canonical_loop-lower :
    (upper : Bool) (cs : Bytes) → canonical_loop upper (lower cs) ≡ canonical_loop upper cs
unfolding canonical_loop lower
canonical_loop-lower upper [] = refl
canonical_loop-lower upper (c ∷ cs) =
    rw (valid-to_lower c, shift_case-to_lower upper c)
      (rw (canonical_loop-lower (shift_case upper c == b'-') cs))

-- Canonicalize gives a normal form: a name that comes out of it comes out of it again unchanged,
-- and two names that differ only in the case of their letters come out the same, or both fail.
pub canonicalize_normal :
    (a b : Bytes)
    → ((name : Bytes) → canonicalize a ≡ some name → canonicalize name ≡ some name)
      × (lower a ≡ lower b → canonicalize a ≡ canonicalize b)
unfolding canonicalize
canonicalize_normal a b = (
  canonical_loop_idem true a,
  λ e. sym (canonical_loop-lower true a) ∙ ap (canonical_loop true) e ∙ canonical_loop-lower true b,
)
