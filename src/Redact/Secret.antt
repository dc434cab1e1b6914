-- ===== src/Redact/Secret.antt =====
-- src/XrdClCurl/XrdClCurlUtil.cc: what ObfuscateAuth leaves of a token.
use xrdcl_pelican.Prelude.{
  ℕ, zero, suc, ◌≤◌, ◌<◌, ◌≡◌, refl, sym, ap, ◌∙◌, ◌⊎◌, inl, inr, Bool, ◌+◌, ◌||◌, ◌&&◌, true,
  false, none, some, [], ◌∷◌, ◌++◌, arith,
}
use mathlib.Core.Option.{some-injective}
use xrdcl_pelican.Prelude.Tests.{◌==◌, leb, Bool-cases, Option-cases}
use xrdcl_pelican.Prelude.Lists.{length, length-append, drop}
use xrdcl_pelican.Prelude.Bytes.{Bytes, codes}
use xrdcl_pelican.Status.{mem}
use xrdcl_pelican.Digest.{to_lower}
use xrdcl_pelican.Redact

length-drop : (n : ℕ) (xs : Bytes) → length (drop n xs) ≤ length xs
length-drop zero xs = omega arith
length-drop (suc n) [] = omega arith
length-drop (suc n) (x ∷ xs) = omega (arith, length-drop n xs)

length-skip_until : (p : ℕ → Bool) (xs : Bytes) → length (Redact.skip_until p xs) ≤ length xs
unfolding Redact.skip_until
length-skip_until p [] = omega arith
length-skip_until p (x ∷ xs) = ground (arith, length-skip_until p xs)

length-split_blanks : (xs : Bytes) → length (Redact.split_blanks xs).1 ≤ length xs
unfolding Redact.split_blanks
length-split_blanks [] = omega arith
length-split_blanks (x ∷ xs) = ground (arith, length-split_blanks xs)

List-cases : (xs : Bytes) → (xs ≡ []) ⊎ ((c : ℕ) × (cs : Bytes) × (xs ≡ c ∷ cs))
List-cases [] = inl refl
List-cases (c ∷ cs) = inr (c, cs, refl)

-- What is left behind a mark is shorter than the input.
length-behind_mark :
    (mark : ℕ) (xs out rest : Bytes)
    → Redact.behind_mark mark xs ≡ some (out, rest)
    → length rest < length xs
unfolding Redact.behind_mark
length-behind_mark mark xs out rest h = elim (List-cases (Redact.split_blanks xs).1) [
  | inl e ↦ absurd (cc (rw (e, Redact.behind_mark) at h))
  | inr (c, cs, e) ↦ elim (Bool-cases (c == mark)) [
    | inr n ↦ absurd (cc (rw n at (rw (e, Redact.behind_mark) at h)))
    | inl y ↦
        let s = some-injective _ _ (rw y at (rw (e, Redact.behind_mark) at h)) in
        omega (arith, ap (λ r. length r.1) s, length-split_blanks xs, ap length e)
  ]
]

length-cgi_form :
    (xs out rest : Bytes) → Redact.cgi_form xs ≡ some (out, rest) → length rest < length xs
unfolding Redact.cgi_form
length-cgi_form xs out rest h = elim (Bool-cases (Redact.starts_with_ci xs (codes "authz"))) [
  | inr n ↦ absurd (cc (rw n at h))
  | inl y ↦ elim (Option-cases (Redact.behind_mark b'=' (drop 5 xs))) [
    | inl n ↦ absurd (cc (rw (y, n) at h))
    | inr (r, n) ↦
        let s = some-injective _ _ (rw (y, n) at h) in
        omega (
          arith,
          ap (λ q. length q.1) s,
          length-behind_mark b'=' (drop 5 xs) r.0 r.1 n,
          length-skip_until Redact.ends_value r.1,
          length-drop 5 xs,
        )
  ]
]

length-header_form :
    (xs out rest : Bytes) → Redact.header_form xs ≡ some (out, rest) → length rest < length xs
unfolding Redact.header_form
length-header_form xs out rest h =
    elim (Bool-cases (Redact.starts_with_ci xs (codes "authorization"))) [
      | inr n ↦ absurd (cc (rw n at h))
      | inl y ↦ elim (Option-cases (Redact.behind_mark b':' (drop 13 xs))) [
        | inl n ↦ absurd (cc (rw (y, n) at h))
        | inr (r, n) ↦
            let s = some-injective _ _ (rw (y, n) at h) in
            omega (
              arith,
              ap (λ q. length q.1) s,
              length-behind_mark b':' (drop 13 xs) r.0 r.1 n,
              length-skip_until Redact.ends_header (Redact.split_blanks r.1).1,
              length-split_blanks r.1,
              length-drop 13 xs,
            )
      ]
    ]

length-form : (xs out rest : Bytes) → Redact.form xs ≡ some (out, rest) → length rest < length xs
unfolding Redact.form
length-form xs out rest h = elim (Option-cases (Redact.cgi_form xs)) [
  | inl n ↦ length-header_form xs out rest (rw (n, Redact.form) at h)
  | inr (r, n) ↦ length-cgi_form xs out rest (n ∙ (rw (n, Redact.form) at h))
]

scan_step :
    (f x : ℕ) (xs : Bytes) (r : Bytes × Bytes)
    → Redact.form (x ∷ xs) ≡ some r
    → Redact.scan_loop (suc f) (x ∷ xs) ≡ r.0 ++ Redact.scan_loop f r.1
unfolding Redact.scan_loop
scan_step f x xs r n = rw (n, Redact.scan_loop) refl

scan_byte :
    (f x : ℕ) (xs : Bytes)
    → Redact.form (x ∷ xs) ≡ none
    → Redact.scan_loop (suc f) (x ∷ xs) ≡ x ∷ Redact.scan_loop f xs
unfolding Redact.scan_loop
scan_byte f x xs n = rw (n, Redact.scan_loop) refl

-- More fuel than bytes changes nothing.
scan_loop-enough :
    (f g : ℕ) (xs : Bytes)
    → length xs ≤ f
    → length xs ≤ g
    → Redact.scan_loop f xs ≡ Redact.scan_loop g xs
unfolding Redact.scan_loop
scan_loop-enough zero zero xs h k = refl
scan_loop-enough zero (suc g) [] h k = refl
scan_loop-enough zero (suc g) (x ∷ xs) h k = absurd (omega arith)
scan_loop-enough (suc f) zero [] h k = refl
scan_loop-enough (suc f) zero (x ∷ xs) h k = absurd (omega arith)
scan_loop-enough (suc f) (suc g) [] h k = refl
scan_loop-enough (suc f) (suc g) (x ∷ xs) h k = elim (Option-cases (Redact.form (x ∷ xs))) [
  | inl n ↦
      scan_byte f x xs n
      ∙ ap (◌∷◌ x) (scan_loop-enough f g xs (omega arith) (omega arith))
      ∙ sym (scan_byte g x xs n)
  | inr (r, n) ↦
      let short : length r.1 < length (x ∷ xs) = length-form (x ∷ xs) r.0 r.1 n in
      scan_step f x xs r n
      ∙ ap (λ t. r.0 ++ t) (scan_loop-enough f g r.1 (omega arith) (omega arith))
      ∙ sym (scan_step g x xs r n)
]

-- No byte of the text passes the test.
abbrev pub Free : (ℕ → Bool) → Bytes → Type 0
Free p [] = Unit
Free p (c ∷ cs) = (p c ≡ false) × Free p cs

skip_until-Free :
    (p : ℕ → Bool) (s : Bytes) (e : ℕ) (rest : Bytes)
    → Free p s
    → p e ≡ true
    → Redact.skip_until p (s ++ (e ∷ rest)) ≡ e ∷ rest
unfolding Redact.skip_until
skip_until-Free p [] e rest h k = rw k refl
skip_until-Free p (c ∷ cs) e rest h k = rw h.0 (skip_until-Free p cs e rest h.1 k)

-- One of the six bytes that end the value of a parameter.
abbrev pub is_stop : ℕ → Bool
is_stop c = mem c (38 ∷ 63 ∷ 32 ∷ 9 ∷ 13 ∷ 10 ∷ [])

ends_value-is_stop : (c : ℕ) → Redact.ends_value c ≡ is_stop c
ends_value-is_stop c = ground arith

-- A letter in either case: `low` is the small one.
abbrev pub is_letter : ℕ → ℕ → Bool
is_letter low c = c == low || c + 32 == low

-- The text spells the letters.
abbrev pub Spells : Bytes → Bytes → Type 0
Spells [] [] = Unit
Spells [] (c ∷ cs) = ⊥
Spells (l ∷ ls) [] = ⊥
Spells (l ∷ ls) (c ∷ cs) = (is_letter l c ≡ true) × Spells ls cs

-- Nowhere in the text, nor at its end before an "a", do an "a" and a "u" follow one another, in
-- either case; so neither "authz" nor "authorization" begins in it.
abbrev pub LacksAu : Bytes → Type 0
LacksAu [] = Unit
LacksAu (c ∷ []) = Unit
LacksAu (c ∷ d ∷ cs) = ((is_letter b'a' c && is_letter b'u' d) ≡ false) × LacksAu (d ∷ cs)

to_lower-letter :
    (l c : ℕ) → leb b'a' l && leb l b'z' ≡ true → is_letter l c ≡ true → (to_lower c == l) ≡ true
to_lower-letter l c h k = ground arith

starts_with_ci-Spells :
    (a u t h z : ℕ)
    → Spells (codes "authz") (a ∷ u ∷ t ∷ h ∷ z ∷ [])
    → Redact.starts_with_ci (a ∷ u ∷ t ∷ h ∷ z ∷ []) (codes "authz") ≡ true
unfolding Redact.starts_with_ci
starts_with_ci-Spells a u t h z (ka, (ku, (kt, (kh, (kz, _))))) =
    let ea = to_lower-letter b'a' a refl ka in
    let eu = to_lower-letter b'u' u refl ku in
    let et = to_lower-letter b't' t refl kt in
    let eh = to_lower-letter b'h' h refl kh in
    let ez = to_lower-letter b'z' z refl kz in ground (arith, ea, eu, et, eh, ez)

begins_no_auth :
    (c d : ℕ) (cs ns : Bytes)
    → (is_letter b'a' c && is_letter b'u' d) ≡ false
    → Redact.starts_with_ci (c ∷ d ∷ cs) (b'a' ∷ b'u' ∷ ns) ≡ false
unfolding Redact.starts_with_ci
begins_no_auth c d cs ns h = elim (Bool-cases (to_lower c == b'a')) [
  | inr e ↦ rw (e, Redact.starts_with_ci) refl
  | inl e ↦
      let k : (to_lower d == b'u') ≡ false = ground arith in rw (e, k, Redact.starts_with_ci) refl
]

-- No form begins at two bytes that are not "au".
no_form :
    (c d : ℕ) (cs : Bytes)
    → (is_letter b'a' c && is_letter b'u' d) ≡ false
    → Redact.form (c ∷ d ∷ cs) ≡ none
unfolding Redact.form
no_form c d cs h =
    let g : Redact.cgi_form (c ∷ d ∷ cs) ≡ none =
      (unfold Redact.cgi_form in rw (begins_no_auth c d cs (codes "thz") h) refl) in
    let k : Redact.header_form (c ∷ d ∷ cs) ≡ none =
      (unfold Redact.header_form in rw (begins_no_auth c d cs (codes "thorization") h) refl) in
    rw (g, Redact.form) k

starts_with_ci-longer :
    (a u t h z : ℕ) (more : Bytes)
    → Redact.starts_with_ci (a ∷ u ∷ t ∷ h ∷ z ∷ []) (codes "authz") ≡ true
    → Redact.starts_with_ci (a ∷ u ∷ t ∷ h ∷ z ∷ more) (codes "authz") ≡ true
unfolding Redact.starts_with_ci
starts_with_ci-longer a u t h z more s = s

form_value :
    (a u t h z e : ℕ) (token rest : Bytes)
    → Redact.starts_with_ci (a ∷ u ∷ t ∷ h ∷ z ∷ []) (codes "authz") ≡ true
    → Free Redact.ends_value token
    → Redact.ends_value e ≡ true
    → Redact.form (a ∷ u ∷ t ∷ h ∷ z ∷ b'=' ∷ (token ++ (e ∷ rest)))
      ≡ some (a ∷ u ∷ t ∷ h ∷ z ∷ b'=' ∷ Redact.redacted, e ∷ rest)
unfolding Redact.form Redact.cgi_form Redact.behind_mark Redact.split_blanks
form_value a u t h z e token rest s f k =
    let same : Redact.starts_with_ci (a ∷ u ∷ t ∷ h ∷ z ∷ b'=' ∷ (token ++ (e ∷ rest)))
          (codes "authz")
        ≡ true =
      starts_with_ci-longer a u t h z (b'=' ∷ (token ++ (e ∷ rest))) s in
    rw (same, Redact.cgi_form, Redact.form)
      (rw (skip_until-Free Redact.ends_value token e rest f k) refl)

Free-ends_value : (token : Bytes) → Free is_stop token → Free Redact.ends_value token
Free-ends_value [] f = tt
Free-ends_value (c ∷ cs) f = (ends_value-is_stop c ∙ f.0, Free-ends_value cs f.1)

-- Where no form begins in front of a text, that is copied.
obfuscate_front :
    (before : Bytes) (a : ℕ) (cs : Bytes)
    → is_letter b'a' a ≡ true
    → LacksAu before
    → Redact.obfuscate_auth (before ++ (a ∷ cs)) ≡ before ++ Redact.obfuscate_auth (a ∷ cs)
unfolding Redact.obfuscate_auth
obfuscate_front [] a cs k l = refl
obfuscate_front (c ∷ []) a cs k l =
    let n : (is_letter b'a' c && is_letter b'u' a) ≡ false = ground arith in
    scan_byte (length (a ∷ cs)) c (a ∷ cs) (no_form c a cs n)
obfuscate_front (c ∷ d ∷ ds) a cs k l =
    scan_byte (length (d ∷ (ds ++ (a ∷ cs)))) c (d ∷ (ds ++ (a ∷ cs)))
      (no_form c d (ds ++ (a ∷ cs)) l.0)
    ∙ ap (◌∷◌ c) (obfuscate_front (d ∷ ds) a cs k l.1)

first_value :
    (a u t h z e : ℕ) (token rest : Bytes)
    → Redact.starts_with_ci (a ∷ u ∷ t ∷ h ∷ z ∷ []) (codes "authz") ≡ true
    → Free Redact.ends_value token
    → Redact.ends_value e ≡ true
    → Redact.obfuscate_auth (a ∷ u ∷ t ∷ h ∷ z ∷ b'=' ∷ (token ++ (e ∷ rest)))
      ≡ (a ∷ u ∷ t ∷ h ∷ z ∷ b'=' ∷ Redact.redacted) ++ Redact.obfuscate_auth (e ∷ rest)
unfolding Redact.obfuscate_auth
first_value a u t h z e token rest s f k =
    let tail = u ∷ t ∷ h ∷ z ∷ b'=' ∷ (token ++ (e ∷ rest)) in
    let r : Bytes × Bytes = (a ∷ u ∷ t ∷ h ∷ z ∷ b'=' ∷ Redact.redacted, e ∷ rest) in
    scan_step (length tail) a tail r (form_value a u t h z e token rest s f k)
    ∙ ap (λ x. r.0 ++ x)
        (scan_loop-enough (length tail) (length (e ∷ rest)) (e ∷ rest)
          (omega (arith, length-append token (e ∷ rest))) (omega arith))

-- Wherever a text has an "authz=", in any case, with no "au" in front of it, the value up to the byte
-- e that ends it is replaced by "REDACTED", what stands in front is copied, and the rest is redacted
-- by itself: nothing of the token is in the output, whatever it is. The bytes that end a value are
-- "&", "?", space, tab, carriage return and newline; the token has none of them, and e is one.
pub obfuscate_auth_value :
    (before : Bytes) (a u t h z e : ℕ) (token rest : Bytes)
    → LacksAu before
    → Spells (codes "authz") (a ∷ u ∷ t ∷ h ∷ z ∷ [])
    → Free is_stop token
    → is_stop e ≡ true
    → Redact.obfuscate_auth (before ++ (a ∷ u ∷ t ∷ h ∷ z ∷ b'=' ∷ (token ++ (e ∷ rest))))
      ≡ before
        ++ (a ∷ u ∷ t ∷ h ∷ z ∷ b'=' ∷ (codes "REDACTED" ++ Redact.obfuscate_auth (e ∷ rest)))
obfuscate_auth_value before a u t h z e token rest l s f k =
    obfuscate_front before a (u ∷ t ∷ h ∷ z ∷ b'=' ∷ (token ++ (e ∷ rest))) s.0 l
    ∙ ap (◌++◌ before) (
        first_value a u t h z e token rest (starts_with_ci-Spells a u t h z s)
          (Free-ends_value token f) (ends_value-is_stop e ∙ k))
