-- ===== src/Director/Paths.antt =====
-- src/XrdClPelican/DirectorCache.{hh,cc}: ComputePathAndUrl and Put of DirectorCache, and the caches of
-- all directors with GetCache, ResetAll and a pass of the background thread.
use xrdcl_pelican.Prelude.{
  ℕ, zero, suc, ◌+◌, Bool, false, not, ◌&&◌, Option, none, some, List, [], ◌∷◌,
}
use xrdcl_pelican.Prelude.Tests.{ltb, ◌==◌, if◌then◌else◌}
use xrdcl_pelican.Prelude.Lists.{length, take, drop}
use xrdcl_pelican.Prelude.Bytes.{Bytes, codes, find_from, find_text, slice}
use xrdcl_pelican.Prelude.Assoc.{lookup, insert}
use xrdcl_pelican.Director
use xrdcl_pelican.Director.{CacheEntry, new_entry, expire}

-- The last position whose byte passes the test.
unfoldable pub last_if : (ℕ → Bool) → Bytes → Option ℕ
last_if p [] = none
last_if p (x ∷ xs) = elim (last_if p xs) [
  | some i ↦ some (suc i)
  | none ↦ if p x then some 0 else none
]

abbrev pub is_slash : ℕ → Bool
is_slash c = c == b'/'

-- `find_last_not_of('/', stop - 1)` with what follows: `left` is what is left of the depth.
abbrev pub component_end : ℕ → Option ℕ → Option ℕ
component_end left none = if left == 0 then some 0 else none
component_end left (some zero) = if left == 0 then some 1 else none
component_end left (some (suc i)) = some (suc i)

-- The end of the path without its last component, from the last "/" on.
abbrev pub without_last : Bytes → ℕ → ℕ → Option ℕ → Option ℕ
without_last path left consumed none = none
without_last path left consumed (some zero) =
    if left == 0 && not (consumed == 0)
    then component_end left (last_if (λ c. not (is_slash c)) (take 1 path))
    else none
without_last path left consumed (some (suc i)) =
    component_end left (last_if (λ c. not (is_slash c)) (take (suc i) path))

-- The loop of ComputePathAndUrl over the depth.
unfoldable pub depth_loop : ℕ → Bytes → ℕ → ℕ → Option ℕ
depth_loop zero path url_end consumed = some url_end
depth_loop (suc left) path url_end consumed =
    elim (without_last path left consumed (last_if is_slash (take (suc url_end) path))) [
      | none ↦ none
      | some url_end' ↦ depth_loop left path url_end' (suc consumed)
    ]

abbrev pub until : Option ℕ → ℕ → Bytes → Bytes
until none start url = drop start url
until (some stop) start url = slice start stop url

-- The query begins in front of the path.
abbrev pub is_before : Option ℕ → ℕ → Bool
is_before none loc = false
is_before (some query_loc) loc = ltb query_loc loc

-- The path and the URL for a path that begins at `loc`.
abbrev pub path_and_url : Bytes → ℕ → ℕ → Bytes → Option (Bytes × Bytes)
path_and_url url depth loc path = elim (depth_loop depth path (length path) 0) [
  | none ↦ none
  | some url_end ↦ some (take (url_end + 1) path, take (loc + url_end + 1) url)
]

unfoldable pub compute_path_and_url : Bytes → ℕ → Option (Bytes × Bytes)
compute_path_and_url url depth = elim (find_text (codes "://") url) [
  | none ↦ none
  | some scheme ↦
      let query_loc = find_from b'?' (scheme + 3) url in
      elim (find_from b'/' (scheme + 3) url) [
        | none ↦ none
        | some loc ↦
            if is_before query_loc loc
            then none
            else path_and_url url depth loc (until query_loc loc url)
      ]
]

-- DirectorCache::Put.
unfoldable pub put_url : CacheEntry → Bytes → ℕ → ℕ → CacheEntry
put_url root url depth now = elim (compute_path_and_url url depth) [
  | none ↦ root
  | some found ↦
      let (path, url_base) = found in Director.put (suc (length path)) path url_base now root
]

-- m_caches: the root of the cache of each director.
abbrev pub Caches : Type 0
Caches = List (Bytes × CacheEntry)

abbrev pub cache_or_new : Caches → Bytes → ℕ → Option CacheEntry → Caches × CacheEntry
cache_or_new caches director now none = (insert director (new_entry now) caches, new_entry now)
cache_or_new caches director now (some root) = (caches, root)

unfoldable pub get_cache : Caches → Bytes → ℕ → Caches × CacheEntry
get_cache caches director now = cache_or_new caches director now (lookup director caches)

unfoldable pub reset_all : Caches → ℕ → Caches
reset_all [] now = []
reset_all ((director, root) ∷ caches) now = (director, new_entry now) ∷ reset_all caches now

-- What ExpireThread does every five seconds.
unfoldable pub expire_all : Caches → ℕ → Caches
expire_all [] now = []
expire_all ((director, root) ∷ caches) now = (director, expire now root) ∷ expire_all caches now
