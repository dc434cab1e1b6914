-- ===== src/Checksum/Laws.antt =====
-- The set of checksums behaves as a map from the six kinds to their values.
use xrdcl_pelican.Prelude.{
  ℕ, zero, suc, ◌+◌, ◌≤◌, ◌<◌, ◌≡◌, refl, ◌⊎◌, inl, inr, Bool, true, false, List, [], ◌∷◌, arith,
}
use native.Mathlib.Nat.{add-zero, zero-add}
use xrdcl_pelican.Prelude.Tests.{if◌then◌else◌, ◌==◌, Bool-cases}
use xrdcl_pelican.Prelude.Lists.{length, get_or, get_or-set, length-set}
use xrdcl_pelican.Prelude.Bytes.{Bytes}
use xrdcl_pelican.Checksum.{
  ChecksumType, crc32c, md5, sha1, sha256, adler32, crc32, all, unknown, to_index, of_index,
  is_special, is_unknown, get_type_string, get_type_from_string, ChecksumEntry, unset, ChecksumInfo,
  is_set, get, put, get_first, get_first_from,
}

to_index-lt : (c : ChecksumType) → is_special c ≡ false → to_index c < 6
to_index-lt crc32c h = omega arith
to_index-lt _ h = ground arith

special-index : (c : ChecksumType) → is_special c ≡ true → 6 ≤ to_index c
special-index crc32c h = cc
special-index _ h = ground arith

not_special-known : (c : ChecksumType) → is_special c ≡ false → is_unknown c ≡ false
not_special-known crc32c h = refl
not_special-known _ h = ground arith

-- Setting a valid kind is reported as done, makes that kind set, with that value, and changes
-- neither whether another kind is set nor its value.
put_lem :
    (info : ChecksumInfo) (c k : ChecksumType) (v : Bytes)
    → length info ≡ 6
    → is_special c ≡ false
    → is_special k ≡ false
    → ((put info c v).1 ≡ true)
      × (is_set (put info c v).0 k ≡ (if to_index c == to_index k then true else is_set info k))
      × (get (put info c v).0 k ≡ (if to_index c == to_index k then v else get info k))
unfolding put is_set get
put_lem info c k v n hc hk =
    let lt : to_index c < length info = omega (arith, to_index-lt c hc) in
    (
      ground arith,
      ground (
        arith,
        get_or-set info (to_index c) (to_index k) (record { kind = c; value = v }) unset lt,
        not_special-known c hc,
      ),
      ground (
        arith,
        get_or-set info (to_index c) (to_index k) (record { kind = c; value = v }) unset lt,
      ),
    )

pub length-put :
    (info : ChecksumInfo) (c : ChecksumType) (v : Bytes) → length (put info c v).0 ≡ length info
unfolding put
length-put info c v = ground (arith, length-set info (to_index c) (record { kind = c; value = v }))

of_index-to_index : (c : ChecksumType) → of_index (to_index c) ≡ c
of_index-to_index crc32c = refl
of_index-to_index _ = refl

to_index-of_index : (n : ℕ) → n < 6 → to_index (of_index n) ≡ n
to_index-of_index zero h = refl
to_index-of_index (suc zero) h = refl
to_index-of_index (suc (suc zero)) h = refl
to_index-of_index (suc (suc (suc zero))) h = refl
to_index-of_index (suc (suc (suc (suc zero)))) h = refl
to_index-of_index (suc (suc (suc (suc (suc zero))))) h = refl
to_index-of_index (suc (suc (suc (suc (suc (suc n)))))) h = absurd (omega arith)

-- Every name that the code prints for a known kind is read back as that kind.
pub get_type_from_string_lem :
    (c : ChecksumType) → is_special c ≡ false → get_type_from_string (get_type_string c) ≡ c
unfolding get_type_from_string get_type_string
get_type_from_string_lem crc32c h = refl
get_type_from_string_lem md5 h = refl
get_type_from_string_lem sha1 h = refl
get_type_from_string_lem sha256 h = refl
get_type_from_string_lem adler32 h = refl
get_type_from_string_lem crc32 h = refl
get_type_from_string_lem all h = cc
get_type_from_string_lem unknown h = cc

-- The entries before place `n` are unset, and the entry there is set.
abbrev FirstAt : ℕ → List ChecksumEntry → Type 0
FirstAt n es =
    (is_unknown (get_or es n unset).kind ≡ false)
    × ((j : ℕ) → j < n → is_unknown (get_or es j unset).kind ≡ true)

abbrev NoneSet : List ChecksumEntry → Type 0
NoneSet es = (j : ℕ) → is_unknown (get_or es j unset).kind ≡ true

NoneSet-cons :
    (e : ChecksumEntry) (es : List ChecksumEntry)
    → is_unknown e.kind ≡ true
    → NoneSet es
    → NoneSet (e ∷ es)
NoneSet-cons e es h k zero = h
NoneSet-cons e es h k (suc j) = k j

before-cons :
    (e : ChecksumEntry) (es : List ChecksumEntry) (n : ℕ)
    → is_unknown e.kind ≡ true
    → ((j : ℕ) → j < n → is_unknown (get_or es j unset).kind ≡ true)
    → (j : ℕ) → j < suc n
    → is_unknown (get_or (e ∷ es) j unset).kind ≡ true
before-cons e es n h k zero lt = h
before-cons e es n h k (suc j) lt = k j (omega arith)

get_first_from-cases :
    (idx : ℕ) (es : List ChecksumEntry)
    → ((get_first_from idx es ≡ (unknown, [], false)) × NoneSet es)
      ⊎ ((n : ℕ) × (get_first_from idx es ≡ (of_index (idx + n), (get_or es n unset).value, true))
          × FirstAt n es
          × (n < length es))
unfolding get_first_from
get_first_from-cases idx [] = inl (refl, λ j. refl)
get_first_from-cases idx (e ∷ es) = elim (Bool-cases (is_unknown e.kind)) [
  | inr known ↦
      inr (
        0,
        rw (known, get_first_from, add-zero),
        (known, λ j lt. absurd (omega arith)),
        omega arith,
      )
  | inl unknown_kind ↦ elim (get_first_from-cases (idx + 1) es) [
    | inl (r, h) ↦ inl (rw (unknown_kind, get_first_from) r, NoneSet-cons e es unknown_kind h)
    | inr (n, r, (at_n, before), lt) ↦
        let shift : idx + 1 + n ≡ idx + suc n = omega arith in
        inr (
          suc n,
          rw (unknown_kind, get_first_from) (rw shift at r),
          (at_n, before-cons e es n unknown_kind before),
          omega arith,
        )
  ]
]

special-of_index : (n : ℕ) → n < 6 → is_special (of_index n) ≡ false
special-of_index zero h = refl
special-of_index (suc zero) h = refl
special-of_index (suc (suc zero)) h = refl
special-of_index (suc (suc (suc zero))) h = refl
special-of_index (suc (suc (suc (suc zero)))) h = refl
special-of_index (suc (suc (suc (suc (suc zero))))) h = refl
special-of_index (suc (suc (suc (suc (suc (suc n)))))) h = absurd (omega arith)

-- What `GetFirst` promises of its result: the first kind, in the order of preference, that is set,
-- with its value; or the mark that no kind is.
pub data First (info : ChecksumInfo) : ChecksumType × Bytes × Bool → Type 0 where
  found :
      (k : ChecksumType) (r : ChecksumType × Bytes × Bool)
      → r ≡ (k, get info k, true)
      → is_set info k ≡ true
      → ((j : ChecksumType) → to_index j < to_index k → is_set info j ≡ false)
      → First info r
  missing :
      (r : ChecksumType × Bytes × Bool)
      → r ≡ (unknown, [], false)
      → ((j : ChecksumType) → is_set info j ≡ false)
      → First info r

-- On an array of six entries `GetFirst` gives the first kind that is set, in the order of preference,
-- with its value, or the mark that no kind is set.
pub get_first-First : (info : ChecksumInfo) → length info ≡ 6 → First info (get_first info)
unfolding get_first is_set get
get_first-First info six = elim (get_first_from-cases 0 info) [
  | inl (r, h) ↦ missing _ r (λ j. ground (arith, h (to_index j)))
  | inr (n, r, (at_n, before), lt) ↦
      let small : n < 6 = omega arith in
      let i = to_index-of_index n small in
      let sp = special-of_index n small in
      let r' = rw (zero-add n) at r in
      found (of_index n) _ (ground (arith, r', i, sp)) (ground (arith, i, sp))
        (λ j less. ground (arith, i, before (to_index j)))
]
