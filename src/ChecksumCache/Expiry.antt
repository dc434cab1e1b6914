-- ===== src/ChecksumCache/Expiry.antt =====
-- src/XrdClPelican/ChecksumCache.cc: Expire, seen through Get.
use xrdcl_pelican.Prelude.{
  ℕ, zero, suc, ◌≤◌, ◌≡◌, refl, sym, ap, ◌∙◌, true, false, Option, none, some, List, [], ◌∷◌, inl,
  inr, arith,
}
use xrdcl_pelican.Prelude.Tests.{ltb, ◌==◌, if◌then◌else◌, if_all, Bool-cases}
use xrdcl_pelican.Prelude.Bytes.{Bytes, beq, beq_iff}
use xrdcl_pelican.Prelude.Lists.{get_or, set}
use xrdcl_pelican.Prelude.Assoc.{lookup, erase, lookup-erase_ne, IsDistinct}
use xrdcl_pelican.Checksum.{ChecksumType, ChecksumInfo, no_checksums, to_index}
use xrdcl_pelican.ChecksumCache.Mask.{count_bits, get_first, test_bit}
use xrdcl_pelican.ChecksumCache
use xrdcl_pelican.ChecksumCache.{ChecksumCache, CEntry, get_url_key}

-- The value that the map of the index holds for the key.
abbrev value_at : Bytes → ℕ → List (List (Bytes × Bytes)) → Option Bytes
value_at key i maps = lookup key (get_or maps i [])

value_at-erase :
    (other key : Bytes) (i j : ℕ) (maps : List (List (Bytes × Bytes)))
    → beq other key ≡ false
    → value_at key j (set maps i (erase other (get_or maps i []))) ≡ value_at key j maps
value_at-erase other key i j [] h = refl
value_at-erase other key zero zero (m ∷ ms) h = lookup-erase_ne other key m h
value_at-erase other key zero (suc j) (m ∷ ms) h = refl
value_at-erase other key (suc i) zero (m ∷ ms) h = refl
value_at-erase other key (suc i) (suc j) (m ∷ ms) h = value_at-erase other key i j ms h

value_at-erase_kinds :
    (ks : List ChecksumType) (other key : Bytes) (e : CEntry) (j : ℕ)
    (maps : List (List (Bytes × Bytes)))
    → beq other key ≡ false
    → value_at key j (ChecksumCache.erase_kinds ks other e maps) ≡ value_at key j maps
unfolding ChecksumCache.erase_kinds
value_at-erase_kinds [] other key e j maps h = refl
value_at-erase_kinds (k ∷ ks) other key e j maps h =
    value_at-erase_kinds ks other key e j _ h
    ∙ if_all (λ x. value_at key j x ≡ value_at key j maps) (test_bit e.available_checksums k)
        {x = set maps (to_index k) (erase other (get_or maps (to_index k) []))} {y = maps}
        (value_at-erase other key (to_index k) j maps h) refl

-- No entry, or one that is not expired.
abbrev Survives : ℕ → Option CEntry → Type 0
Survives now none = Unit
Survives now (some e) = ltb e.expiry now ≡ false

abbrev after : ℕ → Bytes → CEntry → List (List (Bytes × Bytes)) → List (List (Bytes × Bytes))
after now key e maps =
    if ltb e.expiry now then ChecksumCache.erase_kinds ChecksumCache.indexes key e maps else maps

value_at-after :
    (now : ℕ) (key other : Bytes) (e : CEntry) (j : ℕ) (maps : List (List (Bytes × Bytes)))
    (m : List (Bytes × CEntry))
    → Survives now (lookup key ((other, e) ∷ m))
    → value_at key j (after now other e maps) ≡ value_at key j maps
unfolding lookup
value_at-after now key other e j maps m s = elim (Bool-cases (beq other key)) [
  | inl b ↦ rw (rw b at s) refl
  | inr b ↦
      if_all (λ x. value_at key j x ≡ value_at key j maps) (ltb e.expiry now)
        {x = ChecksumCache.erase_kinds ChecksumCache.indexes other e maps} {y = maps}
        (value_at-erase_kinds ChecksumCache.indexes other key e j maps b) refl
]

Survives-tail :
    (now : ℕ) (key other : Bytes) (e : CEntry) (m : List (Bytes × CEntry))
    → lookup other m ≡ none
    → Survives now (lookup key ((other, e) ∷ m))
    → Survives now (lookup key m)
unfolding lookup
Survives-tail now key other e m n s = elim (Bool-cases (beq other key)) [
  | inl b ↦ rw (← (beq_iff other key).0 b, n) tt
  | inr b ↦ rw b at s
]

-- The maps keep their values under a key whose entry stays.
expire_loop-value_at :
    (now : ℕ) (key : Bytes) (j : ℕ) (m : List (Bytes × CEntry)) (maps : List (List (Bytes × Bytes)))
    → IsDistinct m
    → Survives now (lookup key m)
    → value_at key j (ChecksumCache.expire_loop now m maps).1 ≡ value_at key j maps
unfolding ChecksumCache.expire_loop
expire_loop-value_at now key j [] maps d s = refl
expire_loop-value_at now key j ((other, e) ∷ m) maps d s =
    expire_loop-value_at now key j m (after now other e maps) d.1
      (Survives-tail now key other e m d.0 s)
    ∙ value_at-after now key other e j maps m s

-- The entry, where it is not expired.
abbrev current : ℕ → Option CEntry → Option CEntry
current now none = none
current now (some e) = if ltb e.expiry now then none else some e

lookup-expire_loop :
    (now : ℕ) (key : Bytes) (m : List (Bytes × CEntry)) (maps : List (List (Bytes × Bytes)))
    → IsDistinct m
    → lookup key (ChecksumCache.expire_loop now m maps).0 ≡ current now (lookup key m)
unfolding ChecksumCache.expire_loop lookup
lookup-expire_loop now key [] maps d = refl
lookup-expire_loop now key ((other, e) ∷ m) maps d =
    let ih = lookup-expire_loop now key m (after now other e maps) d.1 in
    elim (Bool-cases (ltb e.expiry now)) [
      | inl x ↦ elim (Bool-cases (beq other key)) [
        | inl b ↦ rw (x, b) (rw x at ih ∙ rw (← (beq_iff other key).0 b, d.0, x) refl)
        | inr b ↦ rw (x, b) (rw x at ih)
      ]
      | inr x ↦ elim (Bool-cases (beq other key)) [
        | inl b ↦ rw (x, b) (rw x refl)
        | inr b ↦ rw (x, b) (rw x at ih)
      ]
    ]

-- Two caches that hold the same values under a key.
abbrev SameValues : Bytes → ChecksumCache → ChecksumCache → Type 0
SameValues key a b = (i : ℕ) → value_at key i a.checksum_map ≡ value_at key i b.checksum_map

get_kind-SameValues :
    (key : Bytes) (e : CEntry) (k : ChecksumType) (a b : ChecksumCache) (info : ChecksumInfo)
    → SameValues key a b
    → ((ChecksumCache.get_kind key e k a info).1 ≡ (ChecksumCache.get_kind key e k b info).1)
      × SameValues key
          (ChecksumCache.get_kind key e k a info).0
          (ChecksumCache.get_kind key e k b info).0
unfolding ChecksumCache.get_kind
get_kind-SameValues key e k a b info h = (ground (arith, h (to_index k)), λ i. kept_map i)
  where
    kept_map :
        (i : ℕ)
        → value_at key i (ChecksumCache.get_kind key e k a info).0.checksum_map
          ≡ value_at key i (ChecksumCache.get_kind key e k b info).0.checksum_map
    kept_map i = same_map a ∙ h i ∙ sym (same_map b)
      where
        same_map :
            (c : ChecksumCache)
            → value_at key i (ChecksumCache.get_kind key e k c info).0.checksum_map
              ≡ value_at key i c.checksum_map
        same_map c = ground arith

get_many-SameValues :
    (ks : List ChecksumType) (key : Bytes) (e : CEntry) (a b : ChecksumCache) (info : ChecksumInfo)
    → SameValues key a b
    → (ChecksumCache.get_many ks key e a info).1 ≡ (ChecksumCache.get_many ks key e b info).1
unfolding ChecksumCache.get_many
get_many-SameValues [] key e a b info h = refl
get_many-SameValues (k ∷ ks) key e a b info h =
    let (same, values) = get_kind-SameValues key e k a b info h in
    let q = ChecksumCache.get_kind key e k b info in
    ap (λ i. (ChecksumCache.get_many ks key e (ChecksumCache.get_kind key e k a info).0 i).1) same
    ∙ get_many-SameValues ks key e (ChecksumCache.get_kind key e k a info).0 q.0 q.1 values

get_single-SameValues :
    (key : Bytes) (e : CEntry) (k : ChecksumType) (a b : ChecksumCache)
    → SameValues key a b
    → (ChecksumCache.get_single a key e k).1 ≡ (ChecksumCache.get_single b key e k).1
unfolding ChecksumCache.get_single
get_single-SameValues key e k a b h = ground (arith, h (to_index k))

-- Where an entry stays, the answers are the same; an expired one gives the answer of none.
answer-SameValues :
    (key : Bytes) (mask now t : ℕ) (o : Option CEntry) (a b : ChecksumCache)
    → now ≤ t
    → (Survives now o → SameValues key a b)
    → (ChecksumCache.answer a key mask t (current now o)).1
      ≡ (ChecksumCache.answer b key mask t o).1
unfolding ChecksumCache.answer
answer-SameValues key mask now t none a b o h = refl
answer-SameValues key mask now t (some e) a b o h = elim (Bool-cases (ltb e.expiry now)) [
  | inl x ↦ let late : ltb e.expiry t ≡ true = ground arith in rw (x, late) refl
  | inr x ↦ elim (Bool-cases (ltb e.expiry t)) [
    | inl late ↦ rw (x, late) refl
    | inr early ↦ elim (Bool-cases (count_bits mask == 1)) [
      | inl one ↦ rw (x, early, one) (get_single-SameValues key e (get_first mask) a b (h x))
      | inr more ↦
          rw (x, early, more)
            (get_many-SameValues ChecksumCache.indexes key e a b no_checksums (h x))
    ]
  ]
]

-- Expire at a time that is not later than a Get does not change the answer of the Get, for any URL
-- and any mask: only entries that Get takes for absent, and their values, are gone. The keys of the
-- map of entries are distinct.
pub get-expire_lem :
    (c : ChecksumCache) (url : Bytes) (mask now t : ℕ)
    → IsDistinct c.checksums
    → now ≤ t
    → (ChecksumCache.get (ChecksumCache.expire c now) url mask t).1
      ≡ (ChecksumCache.get c url mask t).1
unfolding ChecksumCache.get ChecksumCache.expire
get-expire_lem c url mask now t d o =
    let key = get_url_key url in
    let c' = ChecksumCache.expire c now in
    ap (λ x. (ChecksumCache.answer c' key mask t x).1)
      (lookup-expire_loop now key c.checksums c.checksum_map d)
    ∙ answer-SameValues key mask now t (lookup key c.checksums) c' c o
        (λ s i. expire_loop-value_at now key i c.checksums c.checksum_map d s)
