-- ===== src/Verbs.antt =====
-- src/XrdClCurl/XrdClCurlOptionsCache.{hh,cc}: the cache of the HTTP verbs that an endpoint knows.
-- Times are steady-clock ticks of a nanosecond. The lock, the background thread and the static
-- instance are left out: each operation is one critical section.
pub mod Laws
pub mod Key
mod Tests
use xrdcl_pelican.Prelude.{
  ℕ, zero, suc, ◌+◌, ◌-◌, ◌*◌, ◌/◌, ◌%◌, ◌^◌, Bool, true, false, not, ◌||◌, Option, none, some,
  List, [], ◌∷◌, ◌++◌,
}
use xrdcl_pelican.Prelude.Tests.{ltb, ◌==◌, if◌then◌else◌}
use xrdcl_pelican.Prelude.Lists.{length, take, drop}
use xrdcl_pelican.Prelude.Bytes.{Bytes, codes, find, find_text, find_from, slice}
use xrdcl_pelican.Prelude.Assoc.{lookup, insert, retain}

-- The bits of HttpVerb.
pub data HttpVerb : Type 0 where
  unset unknown propfind : HttpVerb

-- `HttpVerbs::IsSet`, on the value of the mask.
unfoldable pub is_set : ℕ → HttpVerb → Bool
is_set verbs unset = verbs == 0
is_set verbs unknown = verbs % 2 == 1
is_set verbs propfind = verbs / 2 % 2 == 1

unfoldable pub get_verb_string : HttpVerb → Bytes
get_verb_string unset = codes "(unset)"
get_verb_string unknown = codes "(unknown)"
get_verb_string propfind = codes "PROPFIND"

pub record VerbEntry : Type 0 where
  pub expiry : ℕ
  pub verbs : ℕ

pub record VerbsCache : Type 0 where
  pub verbs_map : List (Bytes × VerbEntry)
  pub cache_hit : ℕ
  pub cache_miss : ℕ

abbrev pub nanoseconds : ℕ
nanoseconds = 10 ^ 9

-- `g_expiry_duration`: six hours.
abbrev pub expiry_duration : ℕ
expiry_duration = 6 * 3600 * nanoseconds

-- `g_negative_expiry_duration`: fifteen minutes.
abbrev pub negative_expiry_duration : ℕ
negative_expiry_duration = 15 * 60 * nanoseconds

abbrev pub or_else {ℓ} : {A : Type ℓ} → Option A → A → A
or_else none a = a
or_else (some b) a = b

-- The key of an URL whose "://" stands at `scheme` and whose path begins at `path`.
unfoldable pub key_of : Bytes → ℕ → ℕ → Bytes
key_of url scheme path = elim (find b'@' (slice (scheme + 3) path url)) [
  | none ↦ take path url
  | some at ↦ take (scheme + 3) url ++ slice (scheme + 3 + at + 1) path url
]

-- Schema, host and port.
unfoldable pub get_url_key : Bytes → Bytes
unfolding key_of
get_url_key url = elim (find_text (codes "://") url) [
  | none ↦ []
  | some scheme ↦ key_of url scheme (or_else (find_from b'/' (scheme + 3) url) (length url))
]

-- What Put makes of the entry that stands under the key.
unfoldable pub merged : Option VerbEntry → ℕ → ℕ → VerbEntry
merged old verbs now =
    let fresh : VerbEntry = record {
      expiry =
          now + (if not (is_set verbs unknown) then expiry_duration else negative_expiry_duration);
      verbs = verbs;
    } in
    elim old [
      | none ↦ fresh
      | some entry ↦
          if not (is_set verbs unknown) || is_set entry.verbs unknown then fresh else entry
    ]

unfoldable pub put : VerbsCache → Bytes → ℕ → ℕ → VerbsCache
put c url verbs now = record c {
  verbs_map =
      insert (get_url_key url) (merged (lookup (get_url_key url) c.verbs_map) verbs now)
        c.verbs_map;
}

-- `m_cache_miss++` and `m_cache_hit++` on 64-bit counters.
abbrev miss : VerbsCache → VerbsCache × ℕ
miss c = (record c { cache_miss = (c.cache_miss + 1) % 2 ^ 64 }, 0)

abbrev hit : VerbsCache → ℕ → VerbsCache × ℕ
hit c verbs = (record c { cache_hit = (c.cache_hit + 1) % 2 ^ 64 }, verbs)

unfoldable pub get : VerbsCache → Bytes → ℕ → VerbsCache × ℕ
get c url now = elim (lookup (get_url_key url) c.verbs_map) [
  | none ↦ miss c
  | some entry ↦ if ltb entry.expiry now then miss c else hit c entry.verbs
]

unfoldable pub expire : VerbsCache → ℕ → VerbsCache
expire c now = record c { verbs_map = retain (λ entry. not (ltb entry.expiry now)) c.verbs_map }
