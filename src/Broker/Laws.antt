-- ===== src/Broker/Laws.antt =====
-- src/XrdClPelican/BrokerCache.cc: what the cache of brokers remembers.
use xrdcl_pelican.Prelude.{ℕ, ◌+◌, ◌≤◌, ◌≡◌, ◌∙◌, not, Option, none, some, [], arith}
use xrdcl_pelican.Prelude.Tests.{ltb, if◌then◌else◌}
use xrdcl_pelican.Prelude.Bytes.{Bytes, beq}
use xrdcl_pelican.Prelude.Assoc.{lookup, IsDistinct, lookup-insert, lookup-retain}
use xrdcl_pelican.Broker.{CacheEntry, BrokerCache, entry_lifetime, get_url_key, put, get, expire}

-- What the second argument of Put becomes: an entry that stands already gets the URL itself.
abbrev pub remembered : Option CacheEntry → Bytes → Bytes → Bytes
remembered none url broker = broker
remembered (some entry) url broker = url

-- What a look-up answers at a time, as a function of the entry.
abbrev pub answer : Option CacheEntry → ℕ → Bytes
answer none now = []
answer (some entry) now = if ltb entry.expiry now then [] else entry.broker_url

get-answer :
    (c : BrokerCache) (url : Bytes) (now : ℕ)
    → get c url now ≡ answer (lookup (get_url_key url) c) now
unfolding get
get-answer c url now = ground arith

abbrev new_entry : Option CacheEntry → Bytes → Bytes → ℕ → CacheEntry
new_entry old url broker now = record {
  broker_url = remembered old url broker;
  expiry = now + entry_lifetime;
}

lookup-put :
    (c : BrokerCache) (url other broker : Bytes) (now : ℕ)
    → lookup (get_url_key other) (put c url broker now) ≡ (
        if beq (get_url_key url) (get_url_key other)
        then some (new_entry (lookup (get_url_key url) c) url broker now)
        else lookup (get_url_key other) c)
unfolding put
lookup-put c url other broker now = ground (
  arith,
  lookup-insert (get_url_key url) (get_url_key other) (new_entry none url broker now) c,
  lookup-insert (get_url_key url) (get_url_key other)
      (new_entry (some (new_entry none url broker now)) url broker now) c,
)

-- After a Put, an URL with the same key gets until the lifetime of 70 seconds is over: the broker that
-- was put, if the key is new to the cache; but the URL of the Put itself, if the key stood there
-- already. Any other URL gets what it got before.
pub get-put_broker :
    (c : BrokerCache) (url other broker : Bytes) (now later : ℕ)
    → get (put c url broker now) other later ≡ (
        if beq (get_url_key url) (get_url_key other)
        then (if ltb (now + entry_lifetime) later
            then []
            else remembered (lookup (get_url_key url) c) url broker)
        else get c other later)
get-put_broker c url other broker now later =
    get-answer (put c url broker now) other later
    ∙ ground (arith, get-answer c other later, lookup-put c url other broker now)

-- Expire is not seen by a look-up: at its time or later every URL gets the answer that it would
-- have got without it.
pub get-expire_broker :
    (c : BrokerCache) (url : Bytes) (now later : ℕ)
    → IsDistinct c
    → now ≤ later
    → get (expire c now) url later ≡ get c url later
unfolding expire
get-expire_broker c url now later v h =
    get-answer _ url later
    ∙ ground (
      arith,
      get-answer c url later,
      lookup-retain (λ entry. not (ltb entry.expiry now)) (get_url_key url) c v,
    )
