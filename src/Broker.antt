-- ===== src/Broker.antt =====
-- src/XrdClPelican/BrokerCache.{hh,cc}: the cache of the connection broker of an endpoint. Times are
-- steady-clock ticks of a nanosecond. The lock, the background thread and the static instance are
-- left out: each operation is one critical section.
pub mod Laws
mod Tests
use xrdcl_pelican.Prelude.{
  ℕ, ◌+◌, ◌-◌, ◌*◌, ◌^◌, Bool, not, Option, none, some, List, [], ◌∷◌, ◌++◌,
}
use xrdcl_pelican.Prelude.Tests.{ltb, if◌then◌else◌}
use xrdcl_pelican.Prelude.Lists.{length, take, drop}
use xrdcl_pelican.Prelude.Bytes.{Bytes, codes, find, find_text, find_from, slice}
use xrdcl_pelican.Prelude.Assoc.{lookup, insert, retain}

pub record CacheEntry : Type 0 where
  pub broker_url : Bytes
  pub expiry : ℕ

-- m_url_broker.
abbrev pub BrokerCache : Type 0
BrokerCache = List (Bytes × CacheEntry)

-- `m_entry_lifetime`: a minute and ten seconds.
abbrev pub entry_lifetime : ℕ
entry_lifetime = (60 + 10) * 10 ^ 9

-- The key where "://" stands at `authority_loc` and the path begins at `path_loc`.
unfoldable pub key_of : Bytes → ℕ → ℕ → Bytes
key_of url authority_loc path_loc = elim (find b'@' (slice (authority_loc + 3) path_loc url)) [
  | none ↦ take path_loc url
  | some at ↦
      let host_loc = at + (authority_loc + 3) in
      take (authority_loc + 3) url ++ slice (host_loc + 1) path_loc url
]

unfoldable pub get_url_key : Bytes → Bytes
unfolding key_of
get_url_key url = elim (find_text (codes "://") url) [
  | none ↦ []
  | some authority_loc ↦ elim (find_from b'/' (authority_loc + 3) url) [
    | none ↦ key_of url authority_loc (length url)
    | some path_loc ↦ key_of url authority_loc path_loc
  ]
]

unfoldable pub put : BrokerCache → Bytes → Bytes → ℕ → BrokerCache
put c url broker now = elim (lookup (get_url_key url) c) [
  | none ↦
      insert (get_url_key url) (record { broker_url = broker; expiry = now + entry_lifetime }) c
  | some entry ↦
      insert (get_url_key url) (record { broker_url = url; expiry = now + entry_lifetime }) c
]

unfoldable pub get : BrokerCache → Bytes → ℕ → Bytes
get c url now = elim (lookup (get_url_key url) c) [
  | none ↦ []
  | some entry ↦ if ltb entry.expiry now then [] else entry.broker_url
]

unfoldable pub expire : BrokerCache → ℕ → BrokerCache
expire c now = retain (λ entry. not (ltb entry.expiry now)) c
