-- ===== src/Operation/Hops.antt =====
-- src/XrdClCurl/XrdClCurlOps.cc: how far redirects lead an operation.
use xrdcl_pelican.Prelude.{
  ℕ, suc, ◌+◌, ◌%◌, ◌^◌, ◌≤◌, Bool, true, ◌||◌, Option, none, some, ◌∷◌, ◌++◌, ◌≡◌, refl, arith,
  sym, ◌∙◌,
}
use mathlib.Core.Path.{subst, ap}
use mathlib.Core.List.{append_assoc}
use mathlib.Core.Option.{some-injective}
use xrdcl_pelican.Prelude.Tests.{ltb, ◌==◌, if_all, if_cases}
use xrdcl_pelican.Prelude.Bytes.{Bytes, is_empty}
use xrdcl_pelican.Prelude.Int.{ℤ, pos, negsuc}
use xrdcl_pelican.Prelude.Search.{Lacks, colon_slashes, find_text-scheme}
use xrdcl_pelican.Headers.{new_parser}
use xrdcl_pelican.Verbs.Key.{url_of, path-found, take-authority}
use xrdcl_pelican.Operation.Text.{parse_host_port}
use xrdcl_pelican.Operation.FakeDns.{get_fake_endpoint_for_host}
use xrdcl_pelican.Operation.Redirect
use xrdcl_pelican.Operation.Redirect.{Operation, Action, fail, reinvoke, redirect, resolve}

module _ {F : Type 0} where
  -- A redirect that is followed leaves a count, and a location as target and effective URL.
  abbrev Lands : ℕ → Bytes → Operation F × Action → Type 0
  Lands n location (op, fail) = Unit
  Lands n location (op, reinvoke target) =
      (op.redirect_count ≡ n) × (op.effective_url ≡ location) × (target ≡ location)

  module _ (callout_for : Bytes → Bool) (begin_callout : Bytes → ℤ × Bytes) (random now : ℕ) where
    called_out-Lands :
        (op : Operation F) (r : ℤ × Bytes)
        → Lands op.redirect_count op.effective_url
            (Redirect.called_out callout_for begin_callout random now op op.effective_url r)
    called_out-Lands op (pos n, err) = (refl, refl, refl)
    called_out-Lands op (negsuc n, err) =
        if_all (Lands op.redirect_count op.effective_url) (n == 0) tt (refl, refl, refl)

    with_address-Lands :
        (op : Operation F) (host : Bytes) (addr : Option Bytes)
        → Lands op.redirect_count op.effective_url (
            Redirect.with_address callout_for begin_callout random now op op.effective_url host
              addr)
    with_address-Lands op host none = tt
    with_address-Lands op host (some addr) =
        if_all (Lands op.redirect_count op.effective_url) (is_empty addr) tt (
          called_out-Lands (record op { callout = true; tried_broker = true })
            (begin_callout op.effective_url))

    connect-Lands :
        (op : Operation F) (h : Bytes × ℤ)
        → Lands op.redirect_count op.effective_url
            (Redirect.connect callout_for begin_callout random now op op.effective_url h)
    connect-Lands op (host, port) =
        let (dns', addr) = get_fake_endpoint_for_host random now op.dns host port in
        if_all (Lands op.redirect_count op.effective_url)
          (is_empty host || Redirect.is_minus_one port) tt
          (with_address-Lands (record op { dns = dns' }) host addr)

    moved-Lands :
        (op : Operation F) (location : Bytes)
        → Lands op.redirect_count location
            (Redirect.moved callout_for begin_callout random now op location)
    moved-Lands op location =
        let op' : Operation F = record op { effective_url = location; headers = new_parser } in
        if_all (Lands op.redirect_count location) (callout_for location)
          (connect-Lands op' (parse_host_port location)) (refl, refl, refl)

  -- A redirect that is followed goes to the resolved location and counts one more, to 32 at most.
  abbrev Follows : Operation F → Option Bytes → Operation F × Action → Type 0
  Follows op o (op', fail) = Unit
  Follows op o (op', reinvoke target) =
      (o ≡ some target)
      × (op'.effective_url ≡ target)
      × (op'.redirect_count ≡ suc op.redirect_count)
      × (op'.redirect_count ≤ 32)

  Lands-Follows :
      (op : Operation F) (n : ℕ) (location : Bytes) (r : Operation F × Action)
      → n ≡ suc op.redirect_count
      → n ≤ 32
      → Lands n location r
      → Follows op (some location) r
  Lands-Follows op n location (op', fail) e h l = tt
  Lands-Follows op n location (op', reinvoke target) e h l =
      (ap some (sym l.2), l.1 ∙ sym l.2, l.0 ∙ e, omega (arith, l.0))

  module _ (callout_for : Bytes → Bool) (begin_callout : Bytes → ℤ × Bytes) (random now : ℕ) where
    counted-Follows :
        (op : Operation F) (o : Option Bytes)
        → op.redirect_count ≤ 32
        → Follows op o (Redirect.counted callout_for begin_callout random now op o)
    counted-Follows op none h = tt
    counted-Follows op (some location) h =
        let count = (op.redirect_count + 1) % 2 ^ 32 in
        let e : count ≡ suc op.redirect_count = omega arith in
        if_cases (Follows op (some location)) (ltb Redirect.max_redirects count) (λ t. tt)
          (λ t.
            (let op' : Operation F = record op { redirect_count = count } in
              Lands-Follows op count location
                (Redirect.moved callout_for begin_callout random now op' location) e (ground arith)
                (moved-Lands callout_for begin_callout random now op' location)))

    redirect-Follows :
        (op : Operation F)
        → op.redirect_count ≤ 32
        → Follows op
            (resolve op.effective_url op.headers.location)
            (redirect callout_for begin_callout random now op)
    unfolding redirect
    redirect-Follows op h =
        if_all (Follows op (resolve op.effective_url op.headers.location))
          (is_empty op.headers.location) tt
          (counted-Follows (Redirect.without_callout op)
            (resolve op.effective_url op.headers.location) h)

-- A chain of redirects that are followed; between them a response sets the headers, and anything but
-- the count and the effective URL may change.
pub data Hops {F : Type 0} : ℕ → Operation F → Operation F → Type 0 where
  no_hop : (op : Operation F) → Hops 0 op op
  hop :
      (callout_for : Bytes → Bool) (begin_callout : Bytes → ℤ × Bytes) (random now n : ℕ)
      (op op' op'' last : Operation F) (target : Bytes)
      → redirect callout_for begin_callout random now op ≡ (op', reinvoke target)
      → op''.redirect_count ≡ op'.redirect_count
      → op''.effective_url ≡ op'.effective_url
      → Hops n op'' last
      → Hops (suc n) op last

module _ {F : Type 0} where
  redirect_reinvoke :
      (callout_for : Bytes → Bool) (begin_callout : Bytes → ℤ × Bytes) (random now : ℕ)
      (op op' : Operation F) (target : Bytes)
      → op.redirect_count ≤ 32
      → redirect callout_for begin_callout random now op ≡ (op', reinvoke target)
      → Follows op (resolve op.effective_url op.headers.location) (op', reinvoke target)
  redirect_reinvoke callout_for begin_callout random now op op' target h e =
      subst (Follows op (resolve op.effective_url op.headers.location)) e
        (redirect-Follows callout_for begin_callout random now op h)

  Hops-count :
      (n : ℕ) (op last : Operation F)
      → op.redirect_count ≤ 32
      → Hops n op last
      → op.redirect_count + n ≤ 32
  Hops-count _ op _ h (no_hop _) = omega arith
  Hops-count _ op last h
        (hop callout_for begin_callout random now n _ op' op'' _ target e c u rest) =
      let f = redirect_reinvoke callout_for begin_callout random now op op' target h e in
      let k = Hops-count n op'' last (omega (arith, c, f.3)) rest in omega (arith, c, f.2, k)

  -- An operation follows at most 32 redirects, whatever locations the servers send and whether or not
  -- connection callouts are made for them.
  pub Hops-bounded :
      (n : ℕ) (op last : Operation F) → op.redirect_count ≡ 0 → Hops n op last → n ≤ 32
  Hops-bounded n op last z h =
      let k = Hops-count n op last (omega (arith, z)) h in omega (arith, z, k)

resolve-path :
    (scheme authority path location : Bytes)
    → Lacks b':' scheme
    → Lacks b'/' authority
    → resolve (url_of scheme authority path) (b'/' ∷ location)
      ≡ some (scheme ++ (colon_slashes ++ (authority ++ (b'/' ∷ location))))
unfolding resolve
resolve-path scheme authority path location h k =
    rw (find_text-scheme scheme (authority ++ (b'/' ∷ path)) h) (
      rw (path-found scheme authority path k) (
        rw (take-authority scheme authority path)
          (ap some (append_assoc scheme (colon_slashes ++ authority) (b'/' ∷ location)))))

module _ {F : Type 0} where
  -- A redirect to a path on the host itself, where it is followed, goes to that path under the scheme
  -- and authority of the URL that the request went to last, scheme://authority/path with no colon in
  -- the scheme and no slash in the authority.
  pub redirect-resolve :
      (callout_for : Bytes → Bool) (begin_callout : Bytes → ℤ × Bytes) (random now : ℕ)
      (op op' : Operation F) (scheme authority path location target : Bytes)
      → op.redirect_count ≤ 32
      → op.effective_url ≡ url_of scheme authority path
      → op.headers.location ≡ b'/' ∷ location
      → Lacks b':' scheme
      → Lacks b'/' authority
      → redirect callout_for begin_callout random now op ≡ (op', reinvoke target)
      → target ≡ scheme ++ (colon_slashes ++ (authority ++ (b'/' ∷ location)))
  redirect-resolve callout_for begin_callout random now op op' scheme authority path location target
        n u l h k e =
      let f = redirect_reinvoke callout_for begin_callout random now op op' target n e in
      some-injective _ _ (sym f.0 ∙ rw (u, l) (resolve-path scheme authority path location h k))
