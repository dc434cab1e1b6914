-- ===== src/ChecksumCache/Key.antt =====
-- src/XrdClPelican/ChecksumCache.hh: GetUrlKey.
use mathlib.Core.List.{append_assoc}
use xrdcl_pelican.Prelude.{ℕ, ◌+◌, ◌≡◌, some, [], ◌∷◌, ◌++◌, arith}
use xrdcl_pelican.Prelude.Lists.{length, length-append}
use xrdcl_pelican.Prelude.Bytes.{Bytes, find_from, slice}
use xrdcl_pelican.Prelude.Search.{
  Lacks, colon_slashes, find_text-scheme, find_from-append, slice-append,
}
use xrdcl_pelican.Verbs.Key.{url_of, length-scheme, path-found, slice-authority}
use xrdcl_pelican.ChecksumCache.{until_query, key_of, get_url_key}

-- The URL up to the place where the search for the "?" starts.
abbrev before_search : Bytes → Bytes → ℕ → ℕ → Bytes
before_search scheme host x y = (scheme ++ colon_slashes) ++ (host ++ (b'/' ∷ x ∷ y ∷ []))

length-before_search :
    (scheme host : Bytes) (x y : ℕ)
    → length (before_search scheme host x y) ≡ length scheme + 3 + length host + 3
length-before_search scheme host x y = omega (
  arith,
  length-scheme scheme,
  length-append (scheme ++ colon_slashes) (host ++ (b'/' ∷ x ∷ y ∷ [])),
  length-append host (b'/' ∷ x ∷ y ∷ []),
)

query-found :
    (scheme host path query : Bytes) (x y : ℕ)
    → Lacks b'?' path
    → find_from b'?'
        (length scheme + 3 + length host + 3)
        (url_of scheme host (x ∷ y ∷ (path ++ (b'?' ∷ query))))
      ≡ some (length scheme + 3 + length host + 3 + length path)
query-found scheme host path query x y l =
    let whole : url_of scheme host (x ∷ y ∷ (path ++ (b'?' ∷ query)))
        ≡ before_search scheme host x y ++ (path ++ (b'?' ∷ query)) =
      simp append_assoc in
    rw (whole, ← length-before_search scheme host x y)
      (find_from-append b'?' (before_search scheme host x y) path query l)

slice-key :
    (scheme host path query : Bytes) (x y : ℕ)
    → slice
        (length scheme + 3)
        (length scheme + 3 + length host + 3 + length path)
        (url_of scheme host (x ∷ y ∷ (path ++ (b'?' ∷ query))))
      ≡ host ++ (b'/' ∷ x ∷ y ∷ path)
slice-key scheme host path query x y =
    let key = host ++ (b'/' ∷ x ∷ y ∷ path) in
    let whole : url_of scheme host (x ∷ y ∷ (path ++ (b'?' ∷ query)))
        ≡ (scheme ++ colon_slashes) ++ (key ++ (b'?' ∷ query)) =
      simp append_assoc in
    let stop : length scheme + 3 + length host + 3 + length path
        ≡ length (scheme ++ colon_slashes) + length key =
      omega (arith, length-scheme scheme, length-append host (b'/' ∷ x ∷ y ∷ path)) in
    rw (whole, stop, ← length-scheme scheme)
      (slice-append (scheme ++ colon_slashes) key (b'?' ∷ query))

-- The key of `scheme://host/path?query` is the host and the path, where the path has two bytes x and
-- y and more that has no "?". The two bytes are not looked at: a "?" among them stays in the key,
-- with what follows it up to the next "?". The scheme has no colon, the host no slash and no "@".
pub get_url_key_query :
    (scheme host path query : Bytes) (x y : ℕ)
    → Lacks b':' scheme
    → Lacks b'/' host
    → Lacks b'@' host
    → Lacks b'?' path
    → get_url_key (url_of scheme host (x ∷ y ∷ (path ++ (b'?' ∷ query))))
      ≡ host ++ (b'/' ∷ x ∷ y ∷ path)
unfolding get_url_key key_of until_query
get_url_key_query scheme host path query x y c s a q =
    let rest = x ∷ y ∷ (path ++ (b'?' ∷ query)) in
    ground (
      arith,
      find_text-scheme scheme (host ++ (b'/' ∷ rest)) c,
      path-found scheme host rest s,
      slice-authority scheme host rest,
      query-found scheme host path query x y q,
      slice-key scheme host path query x y,
    )
