-- ===== src/ChecksumCache.antt =====
-- src/XrdClPelican/ChecksumCache.{hh,cc}: the cache of checksums of the objects of a federation.
-- Times are steady-clock ticks of a nanosecond. The lock, the background thread and the static
-- instance are left out: each operation is one critical section.
pub mod Mask
pub mod Laws
pub mod Key
pub mod Expiry
mod Tests
use xrdcl_pelican.Prelude.{
  ℕ, zero, suc, ◌+◌, ◌-◌, ◌*◌, ◌/◌, ◌%◌, ◌^◌, Bool, true, false, not, ◌&&◌, ◌||◌, Option, none,
  some, List, [], ◌∷◌, ◌++◌,
}
use xrdcl_pelican.Prelude.Tests.{ltb, ◌==◌, if◌then◌else◌}
use xrdcl_pelican.Prelude.Lists.{length, take, drop, get_or, set, replicate}
use xrdcl_pelican.Prelude.Bytes.{Bytes, codes, find, find_text, find_from, slice}
use xrdcl_pelican.Prelude.Assoc.{lookup, insert, erase}
use xrdcl_pelican.Checksum.{
  ChecksumType, crc32c, md5, sha1, sha256, adler32, crc32, all, to_index, ChecksumInfo,
  no_checksums,
}
use xrdcl_pelican.Checksum
use Mask.{set_bit, test_bit, count_bits, get_first}

pub record CEntry : Type 0 where
  pub available_checksums : ℕ
  pub last_checksum : ℕ
  pub expiry : ℕ
  pub checksum_entry : Bytes

-- One map from keys to values for each index below `kUnknown`.
pub record ChecksumCache : Type 0 where
  pub checksums : List (Bytes × CEntry)
  pub checksum_map : List (List (Bytes × Bytes))
  pub cache_hit : ℕ
  pub cache_miss : ℕ

abbrev pub empty_cache : ChecksumCache
empty_cache = record {
  checksums = [];
  checksum_map = replicate 7 [];
  cache_hit = 0;
  cache_miss = 0;
}

abbrev pub nanoseconds : ℕ
nanoseconds = 10 ^ 9

-- `g_expiry_duration`: five minutes.
abbrev pub expiry_duration : ℕ
expiry_duration = 5 * 60 * nanoseconds

-- `g_negative_expiry_duration`: one minute.
abbrev pub negative_expiry_duration : ℕ
negative_expiry_duration = 60 * nanoseconds

-- `substr(from, query - from)`, where there is a query.
unfoldable pub until_query : Bytes → ℕ → Option ℕ → Bytes
until_query url start none = drop start url
until_query url start (some query) = slice start query url

-- The search for the "@" of an URL with its "://" at `scheme` and its path at `path`; the search
-- for the "?" starts three characters behind the begin of the path.
unfoldable pub key_of : Bytes → ℕ → ℕ → Bytes
key_of url scheme path = elim (find b'@' (slice (scheme + 3) path url)) [
  | none ↦ until_query url (scheme + 3) (find_from b'?' (path + 3) url)
  | some at ↦ until_query url (scheme + 3 + at + 1) (find_from b'?' (path + 3) url)
]

unfoldable pub get_url_key : Bytes → Bytes
unfolding key_of until_query
get_url_key url = elim (find_text (codes "://") url) [
  | none ↦ []
  | some scheme ↦ elim (find_from b'/' (scheme + 3) url) [
    | none ↦ []
    | some path ↦ key_of url scheme path
  ]
]

-- The indexes of the loops of Put, Get and Expire, which run up to `kUnknown`.
abbrev pub indexes : List ChecksumType
indexes = crc32c ∷ md5 ∷ sha1 ∷ sha256 ∷ adler32 ∷ crc32 ∷ all ∷ []

-- A set kind is recorded in the entry; the first one also with its value.
absorb : CEntry → ChecksumInfo → ChecksumType → Bool → CEntry
absorb e info k has = record e {
  available_checksums = set_bit e.available_checksums k;
  last_checksum = if has then e.last_checksum else to_index k;
  checksum_entry = if has then e.checksum_entry else Checksum.get info k;
}

-- The first loop of Put; the flag is `has_checksum`.
unfoldable pub collect : List ChecksumType → ChecksumInfo → CEntry → Bool → CEntry × Bool
unfolding absorb
collect [] info e has = (e, has)
collect (k ∷ ks) info e has =
    collect ks info (if Checksum.is_set info k then absorb e info k has else e)
      (has || Checksum.is_set info k)

-- The second loop of Put.
unfoldable pub store :
    List ChecksumType
    → Bytes
    → ChecksumInfo
    → ℕ
    → List (List (Bytes × Bytes))
    → List (List (Bytes × Bytes))
store [] key info mask maps = maps
store (k ∷ ks) key info mask maps = store ks key info mask (
    if test_bit mask k
    then set maps (to_index k) (insert key (Checksum.get info k) (get_or maps (to_index k) []))
    else maps)

abbrev pub fresh_entry : CEntry
fresh_entry = record { available_checksums = 0; last_checksum = 0; expiry = 0; checksum_entry = [] }

-- The entry that Put builds.
unfoldable pub built : ChecksumInfo → ℕ → CEntry
built info now =
    let (e, has) = collect indexes info fresh_entry false in
    record e { expiry = now + (if has then expiry_duration else negative_expiry_duration) }

-- `m_checksums.emplace`, which leaves an entry that is there.
unfoldable pub emplace {ℓ} : {V : Type ℓ} → Bytes → V → List (Bytes × V) → List (Bytes × V)
emplace k v m = elim (lookup k m) [ none ↦ insert k v m | some w ↦ m ]

unfoldable pub put : ChecksumCache → Bytes → ChecksumInfo → ℕ → ChecksumCache
put c url info now = record c {
  checksums = emplace (get_url_key url) (built info now) c.checksums;
  checksum_map =
      store indexes (get_url_key url) info (built info now).available_checksums c.checksum_map;
}

abbrev pub miss : ChecksumCache → ChecksumInfo → ChecksumCache × ChecksumInfo
miss c info = (record c { cache_miss = (c.cache_miss + 1) % 2 ^ 64 }, info)

abbrev pub hit : ChecksumCache → ChecksumInfo → ChecksumCache × ChecksumInfo
hit c info = (record c { cache_hit = (c.cache_hit + 1) % 2 ^ 64 }, info)

-- One kind: from the entry itself, or from the map of the kind, which is then remembered.
unfoldable pub get_single :
    ChecksumCache → Bytes → CEntry → ChecksumType → ChecksumCache × ChecksumInfo
get_single c key e k =
    if not (test_bit e.available_checksums k)
    then miss c no_checksums
    else if e.last_checksum == to_index k
    then hit c (Checksum.put no_checksums k e.checksum_entry).0
    else elim (lookup key (get_or c.checksum_map (to_index k) [])) [
      | none ↦ miss c no_checksums
      | some value ↦
          hit
            (record c {
              checksums =
                  insert key (record e { last_checksum = to_index k; checksum_entry = value })
                    c.checksums;
            })
            (Checksum.put no_checksums k value).0
    ]

-- One pass of the loop over all kinds.
unfoldable pub get_kind :
    Bytes → CEntry → ChecksumType → ChecksumCache → ChecksumInfo → ChecksumCache × ChecksumInfo
get_kind key e k c info =
    if not (test_bit e.available_checksums k)
    then (c, info)
    else elim (lookup key (get_or c.checksum_map (to_index k) [])) [
      | none ↦ miss c info
      | some value ↦ hit c (Checksum.put info k value).0
    ]

unfoldable pub get_many :
    List ChecksumType → Bytes → CEntry → ChecksumCache → ChecksumInfo → ChecksumCache × ChecksumInfo
unfolding get_kind
get_many [] key e c info = (c, info)
get_many (k ∷ ks) key e c info = let r = get_kind key e k c info in get_many ks key e r.0 r.1

-- What Get makes of the entry that it finds.
unfoldable pub answer : ChecksumCache → Bytes → ℕ → ℕ → Option CEntry → ChecksumCache × ChecksumInfo
unfolding get_single get_many
answer c key mask now none = miss c no_checksums
answer c key mask now (some e) =
    if ltb e.expiry now
    then miss c no_checksums
    else if count_bits mask == 1
    then get_single c key e (get_first mask)
    else get_many indexes key e c no_checksums

unfoldable pub get : ChecksumCache → Bytes → ℕ → ℕ → ChecksumCache × ChecksumInfo
unfolding answer
get c url mask now = let key = get_url_key url in answer c key mask now (lookup key c.checksums)

-- The values of an expired entry leave the maps of its kinds.
unfoldable pub erase_kinds :
    List ChecksumType → Bytes → CEntry → List (List (Bytes × Bytes)) → List (List (Bytes × Bytes))
erase_kinds [] key e maps = maps
erase_kinds (k ∷ ks) key e maps = erase_kinds ks key e (
    if test_bit e.available_checksums k
    then set maps (to_index k) (erase key (get_or maps (to_index k) []))
    else maps)

unfoldable pub expire_loop :
    ℕ
    → List (Bytes × CEntry)
    → List (List (Bytes × Bytes))
    → List (Bytes × CEntry) × List (List (Bytes × Bytes))
unfolding erase_kinds
expire_loop now [] maps = ([], maps)
expire_loop now ((key, e) ∷ m) maps =
    let (m', maps') =
      expire_loop now m (if ltb e.expiry now then erase_kinds indexes key e maps else maps) in
    (if ltb e.expiry now then m' else (key, e) ∷ m', maps')

unfoldable pub expire : ChecksumCache → ℕ → ChecksumCache
expire c now =
    let (m, maps) = expire_loop now c.checksums c.checksum_map in
    record c { checksums = m; checksum_map = maps }
