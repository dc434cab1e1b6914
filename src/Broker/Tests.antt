-- ===== src/Broker/Tests.antt =====
-- The theorems on the cache of brokers at a concrete cache.
use xrdcl_pelican.Prelude.{◌+◌, ◌≡◌, [], ◌∷◌}
use xrdcl_pelican.Prelude.Tests.{ltb, if◌then◌else◌}
use xrdcl_pelican.Prelude.Bytes.{Bytes, beq, codes}
use xrdcl_pelican.Prelude.Assoc.{lookup}
use xrdcl_pelican.Broker.{BrokerCache, entry_lifetime, get_url_key, put, get}
use xrdcl_pelican.Broker.Laws.{remembered, get-put_broker}

abbrev url : Bytes
url = codes "https://a/x"

abbrev filled : BrokerCache
filled = (codes "https://a", record { broker_url = codes "b"; expiry = 7 }) ∷ []

get-put_broker_example : get (put filled url (codes "c") 5) (codes "https://u@a/y") 9 ≡ (
    if beq (get_url_key url) (get_url_key (codes "https://u@a/y"))
    then (if ltb (5 + entry_lifetime) 9
        then []
        else remembered (lookup (get_url_key url) filled) url (codes "c"))
    else get filled (codes "https://u@a/y") 9)
get-put_broker_example = get-put_broker filled url (codes "https://u@a/y") (codes "c") 5 9
