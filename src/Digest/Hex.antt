-- ===== src/Digest/Hex.antt =====
-- ParseHex32 against the numeral that the digits write.
use mathlib.Core.Option
use xrdcl_pelican.Prelude.{
  ℕ, ◌+◌, ◌*◌, ◌%◌, ◌^◌, ◌/◌, ◌≤◌, ◌<◌, ◌≡◌, sym, ap, ◌∙◌, refl, inl, inr, Option, none, some, [],
  ◌∷◌, arith,
}
use xrdcl_pelican.Prelude.Tests.{Option-cases}
use xrdcl_pelican.Prelude.Lists.{length, drop, get_or}
use xrdcl_pelican.Prelude.Bytes.{Bytes, codes, find}
use xrdcl_pelican.Digest.{hex_value, hex_loop, write32, parse_hex32}

-- The value of a hexadecimal digit: its place among the digits, in either case.
abbrev pub place : Option ℕ → Option ℕ → Option ℕ
place (some i) capital = some i
place none (some i) = some (10 + i)
place none none = none

unfoldable pub digit : ℕ → Option ℕ
digit c = place (find c (codes "0123456789abcdef")) (find c (codes "ABCDEF"))

hex_value-digit : (c : ℕ) → hex_value c ≡ digit c
unfolding hex_value digit find
hex_value-digit c = ground arith

-- The number written by hexadecimal digits behind `acc`, in exact arithmetic.
unfoldable pub numeral_from : ℕ → Bytes → Option ℕ
numeral_from acc [] = some acc
numeral_from acc (c ∷ cs) = elim (digit c) [
  | none ↦ none
  | some digit ↦ numeral_from (acc * 16 + digit) cs
]

abbrev pub numeral : Bytes → Option ℕ
numeral = numeral_from 0

-- The first four bytes as a big-endian number.
abbrev pub big_endian32 : Bytes → ℕ
big_endian32 bs =
    get_or bs 0 0 * 2 ^ 24 + get_or bs 1 0 * 2 ^ 16 + get_or bs 2 0 * 2 ^ 8 + get_or bs 3 0

pub hex_value-lt : (c d : ℕ) → hex_value c ≡ some d → d < 16
unfolding hex_value
hex_value-lt c d h = ground arith

-- The bound of a numeral whose digits so far are below `bound`.
scaled : ℕ → Bytes → ℕ
scaled bound [] = bound
scaled bound (c ∷ cs) = scaled (bound * 16) cs

scaled-le : (bound : ℕ) (cs : Bytes) → bound ≤ scaled bound cs
unfolding scaled
scaled-le bound [] = omega arith
scaled-le bound (c ∷ cs) = omega (arith, scaled-le (bound * 16) cs)

scaled-small : (v : Bytes) → length v ≤ 8 → scaled 1 v ≤ 2 ^ 32
unfolding scaled
scaled-small [] h = omega arith
scaled-small (a ∷ []) h = omega arith
scaled-small (a ∷ b ∷ []) h = omega arith
scaled-small (a ∷ b ∷ c ∷ []) h = omega arith
scaled-small (a ∷ b ∷ c ∷ d ∷ []) h = omega arith
scaled-small (a ∷ b ∷ c ∷ d ∷ e ∷ []) h = omega arith
scaled-small (a ∷ b ∷ c ∷ d ∷ e ∷ f ∷ []) h = omega arith
scaled-small (a ∷ b ∷ c ∷ d ∷ e ∷ f ∷ g ∷ []) h = omega arith
scaled-small (a ∷ b ∷ c ∷ d ∷ e ∷ f ∷ g ∷ i ∷ []) h = omega arith
scaled-small (a ∷ b ∷ c ∷ d ∷ e ∷ f ∷ g ∷ i ∷ j ∷ v) h = absurd (omega arith)

-- No shift of the loop drops a bit, and the result is below 2^32.
hex_loop-numeral :
    (v : Bytes) (acc bound : ℕ)
    → acc < bound
    → scaled bound v ≤ 2 ^ 32
    → hex_loop acc v ≡ numeral_from acc v
unfolding scaled hex_loop numeral_from
hex_loop-numeral [] acc bound h k = refl
hex_loop-numeral (c ∷ cs) acc bound h k = elim (Option-cases (hex_value c)) [
  | inl e ↦
      let e' : digit c ≡ none = sym (hex_value-digit c) ∙ e in rw (e, e', hex_loop, numeral_from)
  | inr (d, e) ↦
      let lt = hex_value-lt c d e in
      let wraps : (acc * 16) % 2 ^ 32 ≡ acc * 16 = omega (arith, scaled-le (bound * 16) cs) in
      let e' : digit c ≡ some d = sym (hex_value-digit c) ∙ e in
      rw (e, e', hex_loop, numeral_from)
        (rw wraps (hex_loop-numeral cs (acc * 16 + d) (bound * 16) (omega arith) k))
]

numeral-lt :
    (v : Bytes) (acc bound n : ℕ) → acc < bound → numeral_from acc v ≡ some n → n < scaled bound v
unfolding scaled numeral_from
numeral-lt [] acc bound n h e = ground arith
numeral-lt (c ∷ cs) acc bound n h e = elim (Option-cases (digit c)) [
  | inl bad ↦ ground (arith, bad)
  | inr (d, good) ↦
      numeral-lt cs (acc * 16 + d) (bound * 16) n
        (omega (arith, hex_value-lt c d (hex_value-digit c ∙ good))) (rw (good, numeral_from) at e)
]

big_endian32-write32 : (n : ℕ) (out : Bytes) → n < 2 ^ 32 → big_endian32 (write32 n out) ≡ n
big_endian32-write32 n out h = omega arith

parse_hex32_accepts :
    (v out : Bytes)
    → 1 ≤ length v
    → length v ≤ 8
    → parse_hex32 v out ≡ Option.map (λ n. write32 n out) (numeral v)
unfolding parse_hex32
parse_hex32_accepts [] out lo hi = absurd (omega arith)
parse_hex32_accepts (c ∷ cs) out lo hi =
    ground (arith, hex_loop-numeral (c ∷ cs) 0 1 (omega arith) (scaled-small (c ∷ cs) hi))

parse_hex32-length :
    (v out out' : Bytes) → parse_hex32 v out ≡ some out' → (1 ≤ length v) × (length v ≤ 8)
unfolding parse_hex32
parse_hex32-length [] out out' h = cc
parse_hex32-length (c ∷ cs) out out' h = ground arith

-- What is accepted has one to eight digits, is a hexadecimal numeral, and the first four bytes of
-- the output are then its value in big-endian order; the other bytes of the output stay.
pub parse_hex32_sound :
    (v out out' : Bytes)
    → parse_hex32 v out ≡ some out'
    → (1 ≤ length v)
      × (length v ≤ 8)
      × (numeral v ≡ some (big_endian32 out'))
      × (drop 4 out' ≡ drop 4 out)
parse_hex32_sound v out out' h =
    let (lo, hi) = parse_hex32-length v out out' h in
    elim (Option-cases (numeral v)) [
      | inl e ↦ absurd (cc (parse_hex32_accepts v out lo hi, e, h))
      | inr (n, e) ↦
          let lt : n < 2 ^ 32 =
            omega (arith, numeral-lt v 0 1 n (omega arith) e, scaled-small v hi) in
          let w : out' ≡ write32 n out = ground (arith, parse_hex32_accepts v out lo hi) in
          (lo, hi, rw w (rw (big_endian32-write32 n out lt) e), rw w)
    ]

-- Every hexadecimal numeral of one to eight digits is accepted; where its value has the bytes
-- b3, b2, b1 and b0, the highest first, they stand in this order over the first four bytes of the
-- output, and the other bytes of the output stay.
pub parse_hex32_complete :
    (v out : Bytes) (b3 b2 b1 b0 : ℕ)
    → 1 ≤ length v
    → length v ≤ 8
    → b3 < 256
    → b2 < 256
    → b1 < 256
    → b0 < 256
    → numeral v ≡ some (b3 * 2 ^ 24 + b2 * 2 ^ 16 + b1 * 2 ^ 8 + b0)
    → parse_hex32 v out ≡ some (b3 ∷ b2 ∷ b1 ∷ b0 ∷ drop 4 out)
parse_hex32_complete v out b3 b2 b1 b0 lo hi h3 h2 h1 h0 h =
    let n = b3 * 2 ^ 24 + b2 * 2 ^ 16 + b1 * 2 ^ 8 + b0 in
    let e3 : n / 2 ^ 24 % 256 ≡ b3 = omega arith in
    let e2 : n / 2 ^ 16 % 256 ≡ b2 = omega arith in
    let e1 : n / 2 ^ 8 % 256 ≡ b1 = omega arith in
    let e0 : n % 256 ≡ b0 = omega arith in
    let w : write32 n out ≡ b3 ∷ b2 ∷ b1 ∷ b0 ∷ drop 4 out = cc (e3, e2, e1, e0) in
    parse_hex32_accepts v out lo hi ∙ ap (Option.map (λ m. write32 m out)) h ∙ ap some w
