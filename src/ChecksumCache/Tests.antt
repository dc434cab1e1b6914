-- ===== src/ChecksumCache/Tests.antt =====
-- The theorems on the cache of checksums at a concrete cache.
use xrdcl_pelican.Prelude.{◌≡◌, refl, [], ◌∷◌, ◌++◌, arith}
use xrdcl_pelican.Prelude.Bytes.{Bytes, codes, find, find_text, find_from}
use xrdcl_pelican.Prelude.Assoc.{lookup}
use xrdcl_pelican.Checksum.{no_checksums}
use xrdcl_pelican.ChecksumCache.Mask.{count_bits, count_kinds, get_first, first_kind}
use xrdcl_pelican.ChecksumCache.{ChecksumCache, CEntry, get_url_key, key_of, until_query}
use xrdcl_pelican.ChecksumCache
use xrdcl_pelican.Verbs.Key.{url_of}
use xrdcl_pelican.ChecksumCache.Laws.{get-put_stale}
use xrdcl_pelican.ChecksumCache.Expiry.{get-expire_lem}
use xrdcl_pelican.ChecksumCache.Key.{get_url_key_query}

abbrev url : Bytes
url = codes "https://a/xyz"

-- An MD5 that expired at the time 10.
abbrev old_entry : CEntry
old_entry = record {
  available_checksums = 2;
  last_checksum = 1;
  expiry = 10;
  checksum_entry = codes "old";
}

abbrev filled : ChecksumCache
filled = record {
  checksums = (codes "a/xyz", old_entry) ∷ [];
  checksum_map = [] ∷ ((codes "a/xyz", codes "old") ∷ []) ∷ [] ∷ [] ∷ [] ∷ [] ∷ [] ∷ [];
  cache_hit = 0;
  cache_miss = 0;
}

get-put_stale_example :
    (ChecksumCache.get (ChecksumCache.put filled url no_checksums 20) url 2 21).1
    ≡ (ChecksumCache.get filled url 2 21).1
unfolding get_url_key key_of until_query find find_text find_from lookup count_bits count_kinds
    get_first first_kind
get-put_stale_example = get-put_stale filled url no_checksums 2 20 21 old_entry refl refl refl

get-expire_lem_example :
    (ChecksumCache.get (ChecksumCache.expire filled 20) url 3 21).1
    ≡ (ChecksumCache.get filled url 3 21).1
unfolding lookup
get-expire_lem_example = get-expire_lem filled url 3 20 21 (refl, tt) (omega arith)

get_url_key_query_example :
    get_url_key
      (url_of (codes "https") (codes "a") (b'?' ∷ b'x' ∷ (codes "y" ++ (b'?' ∷ codes "z"))))
    ≡ codes "a" ++ (b'/' ∷ b'?' ∷ b'x' ∷ codes "y")
unfolding find
get_url_key_query_example =
    get_url_key_query (codes "https") (codes "a") (codes "y") (codes "z") b'?' b'x' refl refl refl
      refl
