-- ===== src/ChecksumCache/Laws.antt =====
-- src/XrdClPelican/ChecksumCache.hh: Put on a key that is there, and the counters of Get.
use xrdcl_pelican.Prelude.{ℕ, ◌+◌, ◌^◌, ◌<◌, ◌≡◌, refl, true, not, some, ◌⊎◌, ◌||◌, inl, inr, arith}
use xrdcl_pelican.Prelude.Tests.{ltb, ◌==◌, if◌then◌else◌, if_all, Option-cases}
use xrdcl_pelican.Prelude.Bytes.{Bytes}
use xrdcl_pelican.Prelude.Assoc.{lookup}
use xrdcl_pelican.Checksum.{ChecksumType, ChecksumInfo, no_checksums, to_index}
use xrdcl_pelican.Checksum
use xrdcl_pelican.ChecksumCache.Mask.{count_bits, get_first, test_bit}
use xrdcl_pelican.ChecksumCache
use xrdcl_pelican.ChecksumCache.{ChecksumCache, CEntry, get_url_key}

-- The answer of Get for one kind, where the entry is there.
get_remembered :
    (c : ChecksumCache) (url : Bytes) (mask t : ℕ) (e : CEntry)
    → lookup (get_url_key url) c.checksums ≡ some e
    → (count_bits mask == 1) ≡ true
    → (e.last_checksum == to_index (get_first mask)) ≡ true
    → (ChecksumCache.get c url mask t).1 ≡ (
        if ltb e.expiry t || not (test_bit e.available_checksums (get_first mask))
        then no_checksums
        else (Checksum.put no_checksums (get_first mask) e.checksum_entry).0)
unfolding ChecksumCache.get ChecksumCache.answer ChecksumCache.get_single
get_remembered c url mask t e l n s = rw (l, ChecksumCache.get) (ground (arith, n, s))

-- Where an entry is there, expired or not, and remembers the kind that the mask asks for, a Put
-- under its URL has no effect on a Get of that kind: whatever was put, Get gives at any time what it
-- would have given without the Put.
pub get-put_stale :
    (c : ChecksumCache) (url : Bytes) (info : ChecksumInfo) (mask now t : ℕ) (e : CEntry)
    → lookup (get_url_key url) c.checksums ≡ some e
    → (count_bits mask == 1) ≡ true
    → (e.last_checksum == to_index (get_first mask)) ≡ true
    → (ChecksumCache.get (ChecksumCache.put c url info now) url mask t).1
      ≡ (ChecksumCache.get c url mask t).1
unfolding ChecksumCache.put ChecksumCache.emplace
get-put_stale c url info mask now t e l n s = rw (get_remembered c url mask t e l n s) (
    get_remembered (ChecksumCache.put c url info now) url mask t e (rw (l, ChecksumCache.emplace) l)
      n s)

unfoldable pub Counted : ChecksumCache → ChecksumCache × ChecksumInfo → Type 0
Counted c (c', info) =
    ((c'.cache_miss ≡ c.cache_miss + 1) × (c'.cache_hit ≡ c.cache_hit) × (info ≡ no_checksums))
    ⊎ ((c'.cache_hit ≡ c.cache_hit + 1) × (c'.cache_miss ≡ c.cache_miss))

single_counts :
    (c : ChecksumCache) (key : Bytes) (e : CEntry) (k : ChecksumType)
    → c.cache_hit + 1 < 2 ^ 64
    → c.cache_miss + 1 < 2 ^ 64
    → Counted c (ChecksumCache.get_single c key e k)
unfolding ChecksumCache.get_single Counted
single_counts c key e k h m =
    let missed : Counted c (ChecksumCache.miss c no_checksums) = inl (omega arith, refl, refl) in
    if_all (Counted c) (not (test_bit e.available_checksums k)) missed
      (if_all (Counted c) (e.last_checksum == to_index k) (inr (omega arith, refl)) (ground arith))

-- A Get of one kind counts once: it is a miss, and then it gives no checksum, or it is a hit. Here
-- the counters are below 2^64 - 1.
pub get_counts :
    (c : ChecksumCache) (url : Bytes) (mask t : ℕ)
    → (count_bits mask == 1) ≡ true
    → c.cache_hit + 1 < 2 ^ 64
    → c.cache_miss + 1 < 2 ^ 64
    → Counted c (ChecksumCache.get c url mask t)
unfolding ChecksumCache.get ChecksumCache.answer Counted
get_counts c url mask t n h m =
    let missed : Counted c (ChecksumCache.miss c no_checksums) = inl (omega arith, refl, refl) in
    elim (Option-cases (lookup (get_url_key url) c.checksums)) [
      | inl e ↦ rw (e, ChecksumCache.get) missed
      | inr (entry, e) ↦
          rw (e, ChecksumCache.get)
            (if_all (Counted c) (ltb entry.expiry t) missed
              (rw n (single_counts c (get_url_key url) entry (get_first mask) h m)))
    ]
