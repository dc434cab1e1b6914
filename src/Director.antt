-- ===== src/Director.antt =====
-- src/XrdClPelican/DirectorCache.hh: CacheEntry, the tree of the endpoints that a director gave for
-- the directories of a federation, and Get of DirectorCache. Times are steady-clock ticks of a
-- nanosecond; the locks and the background thread are left out. `put` starts at the results of
-- ComputePathAndUrl, which is in Paths with the caches of all directors.
pub mod RoundTrip
pub mod Paths
mod Tests
use xrdcl_pelican.Prelude.{
  ℕ, zero, suc, ◌+◌, ◌*◌, ◌^◌, Bool, true, false, not, Option, none, some, List, [], ◌∷◌, ◌++◌,
}
use xrdcl_pelican.Prelude.Tests.{ltb, ◌==◌, if◌then◌else◌}
use xrdcl_pelican.Prelude.Lists.{length, take, drop}
use xrdcl_pelican.Prelude.Bytes.{
  Bytes, codes, beq, find, find_text, find_from, take_until, is_empty,
}

-- A map of entries, in iteration order, and an entry with its value and its expiry.
mutual
  pub data CacheEntry : Type 0 where
    entry : SubDirs → Bytes → ℕ → CacheEntry

  pub data SubDirs : Type 0 where
    no_dirs : SubDirs
    dir : Bytes → CacheEntry → SubDirs → SubDirs

-- One minute.
abbrev pub lifetime : ℕ
lifetime = 60 * 10 ^ 9

abbrev pub new_entry : ℕ → CacheEntry
new_entry now = entry no_dirs [] (now + lifetime)

unfoldable pub find_dir : Bytes → SubDirs → Option CacheEntry
find_dir k no_dirs = none
find_dir k (dir j e ds) = if beq j k then some e else find_dir k ds

-- The entry of a name written back, or a new one at the end.
unfoldable pub set_dir : Bytes → CacheEntry → SubDirs → SubDirs
set_dir k e no_dirs = dir k e no_dirs
set_dir k e (dir j e' ds) = if beq j k then dir j e ds else dir j e' (set_dir k e ds)

unfoldable pub is_expired : CacheEntry → ℕ → Bool
is_expired (entry ds value expiry) now = ltb expiry now

-- `path.substr(path.find_first_not_of('/'))`, empty where it is npos.
unfoldable pub skip_slashes : Bytes → Bytes
skip_slashes [] = []
skip_slashes (c ∷ cs) = if c == b'/' then skip_slashes cs else c ∷ cs

-- The text in front of the next "/", and the text from it on.
unfoldable pub first_entry : Bytes → Bytes
first_entry p = take_until (find b'/' p) p

abbrev pub from_position : Option ℕ → Bytes → Bytes
from_position none p = []
from_position (some i) p = drop i p

unfoldable pub next_path : Bytes → Bytes
next_path p = from_position (find b'/' p) p

-- `emplace`: the entry that is there, or a new one.
abbrev pub entry_or_new : Option CacheEntry → ℕ → CacheEntry
entry_or_new none now = new_entry now
entry_or_new (some e) now = e

-- Each level takes at least one character of the path.
unfoldable pub put : ℕ → Bytes → Bytes → ℕ → CacheEntry → CacheEntry
put zero path url now e = e
put (suc fuel) path url now (entry ds value expiry) =
    let p = skip_slashes path in
    let sub = put fuel (next_path p) url now (entry_or_new (find_dir (first_entry p) ds) now) in
    if is_empty p
    then entry ds url (now + lifetime)
    else entry (set_dir (first_entry p) sub ds) value (now + lifetime)

-- `m_value.empty() ? m_value : m_value + path`.
abbrev pub own_answer : Bytes → Bytes → Bytes
own_answer value path = if is_empty value then value else value ++ path

-- A deeper answer, unless it is empty.
abbrev pub prefer : Bytes → Bytes → Bytes
prefer result otherwise = if is_empty result then otherwise else result

unfoldable pub get : ℕ → Bytes → ℕ → CacheEntry → Bytes
get zero path now e = []
get (suc fuel) path now (entry ds value expiry) =
    let p = skip_slashes path in
    let own = own_answer value path in
    if is_empty p then own else elim (find_dir (first_entry p) ds) [
      | none ↦ own
      | some sub ↦
          let result = get fuel (next_path p) now sub in
          if is_expired sub now then own else prefer result own
    ]

-- `std::erase_if`.
unfoldable pub drop_expired : SubDirs → ℕ → SubDirs
drop_expired no_dirs now = no_dirs
drop_expired (dir k e ds) now =
    let rest = drop_expired ds now in if is_expired e now then rest else dir k e rest

unfoldable pub expire : ℕ → CacheEntry → CacheEntry
expire now (entry ds value expiry) =
    entry (drop_expired ds now) (if ltb expiry now then [] else value) expiry

-- DirectorCache::Get on the root: the path of the URL with everything behind it.
unfoldable pub get_url : Bytes → ℕ → CacheEntry → Bytes
get_url url now root = elim (find_text (codes "://") url) [
  | none ↦ []
  | some scheme ↦ elim (find_from b'/' (scheme + 3) url) [
    | none ↦ []
    | some loc ↦ let path = drop loc url in get (suc (length path)) path now root
  ]
]
