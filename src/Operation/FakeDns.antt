-- ===== src/Operation/FakeDns.antt =====
-- src/XrdClCurl/XrdClCurlOps.cc: the fake addresses that stand for the hosts of connection callouts,
-- with the counts of the sockets that use them. A pointer to an address stands here as the address:
-- GetFakeEndpointForHost makes no second string for an address in the reverse map. Times are ticks
-- of a nanosecond; the three maps belong to one thread.
use xrdcl_pelican.Prelude.{
  ℕ, zero, suc, ◌+◌, ◌-◌, ◌*◌, ◌/◌, ◌%◌, ◌^◌, Bool, true, false, not, ◌&&◌, Option, none, some,
  List, [], ◌∷◌, ◌++◌,
}
use xrdcl_pelican.Prelude.Tests.{ltb, ◌==◌, if◌then◌else◌}
use xrdcl_pelican.Prelude.Bytes.{Bytes, codes}
use xrdcl_pelican.Prelude.Decimal.{decimal}
use xrdcl_pelican.Prelude.Assoc.{lookup, insert, erase}
use xrdcl_pelican.Prelude.Int.{ℤ, pos, negsuc, is_positive}
use xrdcl_pelican.Operation.Text.{to_string}

-- refcount_entry.
pub record RefCount : Type 0 where
  pub count : ℤ
  pub last_used : ℕ

-- `counter` is the bit pattern of fake_dns_counter.
pub record FakeDns : Type 0 where
  pub counter : ℕ
  pub dns_map : List (Bytes × Bytes)
  pub reverse_map : List (Bytes × Bytes)
  pub refcounts : List (Bytes × RefCount)

unfoldable pub is_expired : RefCount → ℕ → Bool
is_expired entry now = ltb (entry.last_used + 60 * 10 ^ 9) now

-- The address of a counter.
unfoldable pub endpoint : ℕ → Bytes
endpoint addr =
    codes "169.254."
    ++ (decimal (addr / 2 ^ 8 % 2 ^ 8)
        ++ (codes "."
            ++ (decimal (addr % 2 ^ 8)
                ++ (codes ":" ++ decimal (1024 + addr / 2 ^ 16 % (65535 - 1024))))))

-- The counter behind the draw of a random one where it is -1.
abbrev pub drawn : ℕ → ℕ → ℕ
drawn random counter = if counter == 2 ^ 64 - 1 then random else counter

abbrev pub no_endpoint : FakeDns → FakeDns × Option Bytes
no_endpoint d = (d, none)

abbrev pub with_endpoint : FakeDns → Bytes → Bytes → ℕ → FakeDns × Option Bytes
with_endpoint d key addr now = (
  record d {
    dns_map = insert key addr d.dns_map;
    reverse_map = insert addr key d.reverse_map;
    refcounts = insert addr (record { count = pos 0; last_used = now }) d.refcounts;
  },
  some addr,
)

-- A new address for a key.
abbrev pub new_endpoint : FakeDns → Bytes → Bytes → ℕ → Option Bytes → FakeDns × Option Bytes
new_endpoint d key addr now none = with_endpoint d key addr now
new_endpoint d key addr now (some other) = no_endpoint d

abbrev pub endpoint_for_key : ℕ → ℕ → FakeDns → Bytes → Option Bytes → FakeDns × Option Bytes
endpoint_for_key random now d key (some addr) = (d, some addr)
endpoint_for_key random now d key none =
    let counter = drawn random d.counter in
    new_endpoint (record d { counter = (counter + 1) % 2 ^ 64 }) key (endpoint counter) now
      (lookup (endpoint counter) d.reverse_map)

-- GetFakeEndpointForHost, with the random draw that GenerateFakeEndpoint may need.
unfoldable pub get_fake_endpoint_for_host : ℕ → ℕ → FakeDns → Bytes → ℤ → FakeDns × Option Bytes
get_fake_endpoint_for_host random now d host port =
    let key = host ++ (codes ":" ++ to_string port) in
    endpoint_for_key random now d key (lookup key d.dns_map)

abbrev pub increment : ℤ → ℤ
increment (pos n) = pos (suc n)
increment (negsuc zero) = pos 0
increment (negsuc (suc n)) = negsuc n

abbrev pub decrement : ℤ → ℤ
decrement (pos zero) = negsuc 0
decrement (pos (suc n)) = pos n
decrement (negsuc n) = negsuc (suc n)

abbrev pub counted : FakeDns → Bytes → ℕ → Option RefCount → FakeDns × Bool
counted d addr now none = (d, false)
counted d addr now (some entry) = (
  record d {
    refcounts = insert addr (record { count = increment entry.count; last_used = now }) d.refcounts;
  },
  true,
)

abbrev pub recorded : FakeDns → Bytes → ℕ → Option Bytes → FakeDns × Bool
recorded d addr now none = (d, false)
recorded d addr now (some key) = counted d addr now (lookup addr d.refcounts)

-- OpenSocketCallback with a socket at hand, at the address that libcurl gives: false is
-- CURL_SOCKET_BAD.
unfoldable pub open_socket : FakeDns → Bytes → ℕ → FakeDns × Bool
open_socket d addr now = recorded d addr now (lookup addr d.reverse_map)

-- The three maps without an address.
abbrev pub forget_key : FakeDns → Bytes → Option Bytes → FakeDns
forget_key d addr none = record d { refcounts = erase addr d.refcounts }
forget_key d addr (some key) = record d {
  dns_map = erase key d.dns_map;
  reverse_map = erase addr d.reverse_map;
  refcounts = erase addr d.refcounts;
}

unfoldable pub forget : FakeDns → Bytes → FakeDns
forget d addr = forget_key d addr (lookup addr d.reverse_map)

-- No socket uses the address, and none has for a minute.
abbrev pub is_unused : RefCount → ℕ → Bool
is_unused entry now = not (is_positive entry.count) && is_expired entry now

abbrev pub closed : FakeDns → Bytes → ℕ → Option RefCount → FakeDns
closed d addr now none = d
closed d addr now (some entry) =
    let entry' : RefCount = record entry { count = decrement entry.count } in
    let d' : FakeDns = record d { refcounts = insert addr entry' d.refcounts } in
    if is_unused entry' now then forget d' addr else d'

-- CloseSocketCallback.
unfoldable pub close_socket : FakeDns → Bytes → ℕ → FakeDns
close_socket d addr now = closed d addr now (lookup addr d.refcounts)

-- The loop of CleanupDnsCache over the entries.
unfoldable pub cleanup_loop : List (Bytes × RefCount) → FakeDns → ℕ → FakeDns
cleanup_loop [] d now = d
cleanup_loop ((addr, entry) ∷ entries) d now =
    cleanup_loop entries (if is_unused entry now then forget d addr else d) now

unfoldable pub cleanup_dns_cache : FakeDns → ℕ → FakeDns
cleanup_dns_cache d now = cleanup_loop d.refcounts d now
