-- ===== src/Operation/Endpoints.antt =====
-- src/XrdClCurl/XrdClCurlOps.cc: the fake addresses and the hosts that they stand for.
use xrdcl_pelican.Prelude.{
  ℕ, Option, none, some, List, [], ◌∷◌, ◌++◌, ◌≡◌, ◌↔◌, refl, arith, ◌^◌, ◌%◌, ◌+◌,
}
use xrdcl_pelican.Prelude.Tests.{if_all}
use xrdcl_pelican.Prelude.Bytes.{Bytes, beq_iff, codes}
use xrdcl_pelican.Prelude.Int.{ℤ, pos}
use xrdcl_pelican.Prelude.Assoc.{
  lookup, insert, erase, IsDistinct, lookup-insert, lookup-erase, insert-IsDistinct,
  erase-IsDistinct,
}
use xrdcl_pelican.Operation.Text.{to_string}
use xrdcl_pelican.Operation.FakeDns
use xrdcl_pelican.Operation.FakeDns.{FakeDns, RefCount}

-- The keys of each map are distinct, the two maps of addresses are each other's inverse, and just
-- the addresses in use have a count.
pub record IsValid (d : FakeDns) : Type 0 where
  pub distinct : IsDistinct d.dns_map × IsDistinct d.reverse_map × IsDistinct d.refcounts
  pub forward : (k a : Bytes) → lookup k d.dns_map ≡ some a → lookup a d.reverse_map ≡ some k
  pub backward : (k a : Bytes) → lookup a d.reverse_map ≡ some k → lookup k d.dns_map ≡ some a
  pub in_use : (a : Bytes) → (lookup a d.refcounts ≡ none) ↔ (lookup a d.reverse_map ≡ none)

-- A new address for a new key.
insert-IsValid :
    (d : FakeDns) (key addr : Bytes) (r : RefCount)
    → IsValid d
    → lookup key d.dns_map ≡ none
    → lookup addr d.reverse_map ≡ none
    → IsValid (record d {
      dns_map = insert key addr d.dns_map;
      reverse_map = insert addr key d.reverse_map;
      refcounts = insert addr r d.refcounts;
    })
insert-IsValid d key addr r v h k = record {
  distinct = (
    insert-IsDistinct key addr d.dns_map v.distinct.0,
    insert-IsDistinct addr key d.reverse_map v.distinct.1,
    insert-IsDistinct addr r d.refcounts v.distinct.2,
  );
  forward = λ j a e. ground (
    arith,
    h,
    k,
    e,
    v.forward j a,
    lookup-insert key j addr d.dns_map,
    lookup-insert addr a key d.reverse_map,
    beq_iff key j,
    beq_iff addr a,
  );
  backward = λ j a e. ground (
    arith,
    h,
    k,
    e,
    v.backward j a,
    lookup-insert key j addr d.dns_map,
    lookup-insert addr a key d.reverse_map,
    beq_iff key j,
    beq_iff addr a,
  );
  in_use = λ a. ground (
    arith,
    v.in_use a,
    lookup-insert addr a key d.reverse_map,
    lookup-insert addr a r d.refcounts,
  );
}

-- A new count for an address in use.
recount-IsValid :
    (d : FakeDns) (addr : Bytes) (r old : RefCount)
    → IsValid d
    → lookup addr d.refcounts ≡ some old
    → IsValid (record d { refcounts = insert addr r d.refcounts })
recount-IsValid d addr r old v h = record {
  distinct = (v.distinct.0, v.distinct.1, insert-IsDistinct addr r d.refcounts v.distinct.2);
  forward = v.forward;
  backward = v.backward;
  in_use = λ a. ground (arith, h, v.in_use a, lookup-insert addr a r d.refcounts, beq_iff addr a);
}

erase-IsValid :
    (d : FakeDns) (key addr : Bytes)
    → IsValid d
    → lookup addr d.reverse_map ≡ some key
    → IsValid (record d {
      dns_map = erase key d.dns_map;
      reverse_map = erase addr d.reverse_map;
      refcounts = erase addr d.refcounts;
    })
erase-IsValid d key addr v h = record {
  distinct = (
    erase-IsDistinct key d.dns_map v.distinct.0,
    erase-IsDistinct addr d.reverse_map v.distinct.1,
    erase-IsDistinct addr d.refcounts v.distinct.2,
  );
  forward = λ j a e. ground (
    arith,
    h,
    e,
    v.forward j a,
    lookup-erase key j d.dns_map v.distinct.0,
    lookup-erase addr a d.reverse_map v.distinct.1,
    beq_iff key j,
    beq_iff addr a,
  );
  backward = λ j a e. ground (
    arith,
    h,
    e,
    v.backward j a,
    v.backward key addr,
    lookup-erase key j d.dns_map v.distinct.0,
    lookup-erase addr a d.reverse_map v.distinct.1,
    beq_iff key j,
    beq_iff addr a,
  );
  in_use = λ a. ground (
    arith,
    v.in_use a,
    lookup-erase addr a d.reverse_map v.distinct.1,
    lookup-erase addr a d.refcounts v.distinct.2,
  );
}

forget_key-IsValid :
    (d : FakeDns) (addr : Bytes) (o : Option Bytes)
    → IsValid d
    → lookup addr d.reverse_map ≡ o
    → IsValid (FakeDns.forget_key d addr o)
forget_key-IsValid d addr (some key) v h = erase-IsValid d key addr v h
forget_key-IsValid d addr none v h = record {
  distinct = (v.distinct.0, v.distinct.1, erase-IsDistinct addr d.refcounts v.distinct.2);
  forward = v.forward;
  backward = v.backward;
  in_use = λ a.
      ground (arith, h, v.in_use a, lookup-erase addr a d.refcounts v.distinct.2, beq_iff addr a);
}

forget-IsValid : (d : FakeDns) (addr : Bytes) → IsValid d → IsValid (FakeDns.forget d addr)
unfolding FakeDns.forget
forget-IsValid d addr v = forget_key-IsValid d addr (lookup addr d.reverse_map) v refl

closed-IsValid :
    (d : FakeDns) (addr : Bytes) (now : ℕ) (o : Option RefCount)
    → IsValid d
    → lookup addr d.refcounts ≡ o
    → IsValid (FakeDns.closed d addr now o)
closed-IsValid d addr now none v h = v
closed-IsValid d addr now (some entry) v h =
    let entry' : RefCount = record entry { count = FakeDns.decrement entry.count } in
    let w = recount-IsValid d addr entry' entry v h in
    if_all IsValid (FakeDns.is_unused entry' now) (forget-IsValid _ addr w) w

counted-IsValid :
    (d : FakeDns) (addr : Bytes) (now : ℕ) (o : Option RefCount)
    → IsValid d
    → lookup addr d.refcounts ≡ o
    → IsValid (FakeDns.counted d addr now o).0
counted-IsValid d addr now none v h = v
counted-IsValid d addr now (some entry) v h =
    recount-IsValid d addr (record { count = FakeDns.increment entry.count; last_used = now }) entry
      v h

recorded-IsValid :
    (d : FakeDns) (addr : Bytes) (now : ℕ) (o : Option Bytes)
    → IsValid d
    → IsValid (FakeDns.recorded d addr now o).0
recorded-IsValid d addr now none v = v
recorded-IsValid d addr now (some key) v =
    counted-IsValid d addr now (lookup addr d.refcounts) v refl

cleanup_loop-IsValid :
    (entries : List (Bytes × RefCount)) (d : FakeDns) (now : ℕ)
    → IsValid d
    → IsValid (FakeDns.cleanup_loop entries d now)
unfolding FakeDns.cleanup_loop
cleanup_loop-IsValid [] d now v = v
cleanup_loop-IsValid ((addr, entry) ∷ entries) d now v =
    cleanup_loop-IsValid entries _ now
      (if_all IsValid (FakeDns.is_unused entry now) (forget-IsValid d addr v) v)

new_endpoint-IsValid :
    (d : FakeDns) (key addr : Bytes) (now : ℕ) (o : Option Bytes)
    → IsValid d
    → lookup key d.dns_map ≡ none
    → lookup addr d.reverse_map ≡ o
    → IsValid (FakeDns.new_endpoint d key addr now o).0
new_endpoint-IsValid d key addr now none v h k =
    insert-IsValid d key addr (record { count = pos 0; last_used = now }) v h k
new_endpoint-IsValid d key addr now (some other) v h k = v

counter-IsValid : (d : FakeDns) (n : ℕ) → IsValid d → IsValid (record d { counter = n })
counter-IsValid d n v = record {
  distinct = v.distinct;
  forward = v.forward;
  backward = v.backward;
  in_use = v.in_use;
}

endpoint_for_key-IsValid :
    (random now : ℕ) (d : FakeDns) (key : Bytes) (o : Option Bytes)
    → IsValid d
    → lookup key d.dns_map ≡ o
    → IsValid (FakeDns.endpoint_for_key random now d key o).0
endpoint_for_key-IsValid random now d key (some addr) v h = v
endpoint_for_key-IsValid random now d key none v h =
    let counter = FakeDns.drawn random d.counter in
    let d' : FakeDns = record d { counter = (counter + 1) % 2 ^ 64 } in
    new_endpoint-IsValid d' key (FakeDns.endpoint counter) now
      (lookup (FakeDns.endpoint counter) d.reverse_map)
      (counter-IsValid d ((counter + 1) % 2 ^ 64) v) h refl

-- What a thread does with its fake addresses: an operation asks for one, libcurl opens or closes a
-- socket, or the worker cleans up.
pub data Uses : FakeDns → FakeDns → Type 0 where
  unused : (d : FakeDns) → Uses d d
  asks :
      (random now : ℕ) (d d' : FakeDns) (host : Bytes) (port : ℤ)
      → Uses (FakeDns.get_fake_endpoint_for_host random now d host port).0 d'
      → Uses d d'
  opens :
      (d d' : FakeDns) (addr : Bytes) (now : ℕ)
      → Uses (FakeDns.open_socket d addr now).0 d'
      → Uses d d'
  closes :
      (d d' : FakeDns) (addr : Bytes) (now : ℕ)
      → Uses (FakeDns.close_socket d addr now) d'
      → Uses d d'
  cleans : (d d' : FakeDns) (now : ℕ) → Uses (FakeDns.cleanup_dns_cache d now) d' → Uses d d'

-- Whatever operations and sockets do with the fake addresses, in any order, keeps the state valid: no
-- address stands for two hosts, no host has two addresses, each address leads back to its host,
-- and just the addresses in the maps have a count of sockets.
pub Uses-IsValid : (d d' : FakeDns) → Uses d d' → IsValid d → IsValid d'
unfolding FakeDns.get_fake_endpoint_for_host FakeDns.open_socket FakeDns.close_socket
    FakeDns.cleanup_dns_cache
Uses-IsValid d _ (unused _) v = v
Uses-IsValid _ _ (asks random now d d' host port u) v =
    let key = host ++ (codes ":" ++ to_string port) in
    Uses-IsValid _ d' u (endpoint_for_key-IsValid random now d key (lookup key d.dns_map) v refl)
Uses-IsValid _ _ (opens d d' addr now u) v =
    Uses-IsValid _ d' u (recorded-IsValid d addr now (lookup addr d.reverse_map) v)
Uses-IsValid _ _ (closes d d' addr now u) v =
    Uses-IsValid _ d' u (closed-IsValid d addr now (lookup addr d.refcounts) v refl)
Uses-IsValid _ _ (cleans d d' now u) v =
    Uses-IsValid _ d' u (cleanup_loop-IsValid d.refcounts d now v)
