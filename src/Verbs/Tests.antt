-- ===== src/Verbs/Tests.antt =====
-- The theorems on the cache of verbs at a concrete cache.
use xrdcl_pelican.Prelude.{not, ◌≡◌, [], ◌∷◌}
use xrdcl_pelican.Prelude.Tests.{if◌then◌else◌}
use xrdcl_pelican.Prelude.Bytes.{Bytes, codes, beq}
use xrdcl_pelican.Prelude.Assoc.{lookup}
use xrdcl_pelican.Verbs.{VerbsCache, VerbEntry, get_url_key, put, get, expiry_duration}
use xrdcl_pelican.Verbs.Laws.{known, holds_known, until, get-put_timed}

abbrev empty_cache : VerbsCache
empty_cache = record { verbs_map = []; cache_hit = 0; cache_miss = 0 }

abbrev url : Bytes
url = codes "https://a/x"

-- The origin supports PROPFIND.
abbrev entry : VerbEntry
entry = record { expiry = expiry_duration; verbs = 2 }

abbrev filled : VerbsCache
filled = record { verbs_map = (codes "https://a", entry) ∷ []; cache_hit = 0; cache_miss = 0 }

get-put_timed_example : (get (put filled url 2 5) (codes "https://a/y") 9).1 ≡ (
    if not (beq (get_url_key url) (get_url_key (codes "https://a/y")))
    then (get filled (codes "https://a/y") 9).1
    else if known 2
    then until 2 21600 5 9
    else if holds_known (lookup (get_url_key url) filled.verbs_map)
    then (get filled (codes "https://a/y") 9).1
    else until 2 900 5 9)
get-put_timed_example = get-put_timed filled url (codes "https://a/y") 2 5 9
