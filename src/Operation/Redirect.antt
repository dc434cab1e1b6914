-- ===== src/Operation/Redirect.antt =====
-- src/XrdClCurl/XrdClCurlOps.{hh,cc}: CurlOperation::Redirect. The options of the libcurl handle are
-- left out. The connection callout is a parameter: whether it gives a connection for a location, and
-- the socket or the error of BeginCallout.
use xrdcl_pelican.Prelude.{
  ℕ, ◌+◌, ◌%◌, ◌^◌, Bool, true, false, ◌||◌, Option, none, some, [], ◌∷◌, ◌++◌,
}
use xrdcl_pelican.Prelude.Tests.{ltb, ◌==◌, if◌then◌else◌}
use xrdcl_pelican.Prelude.Bytes.{Bytes, codes, find_text, find_from, is_empty}
use xrdcl_pelican.Prelude.Lists.{take}
use xrdcl_pelican.Prelude.Int.{ℤ, pos, negsuc}
use xrdcl_pelican.Headers.{HeaderParser, new_parser}
use xrdcl_pelican.Operation.Text.{parse_host_port}
use xrdcl_pelican.Operation.FakeDns.{FakeDns, get_fake_endpoint_for_host}
use xrdcl_pelican.Operation.Clock.{Transfer, started}

-- The calls of Fail, by the text of their message and what it shows.
pub data Refusal : Type 0 where
  no_location unknown_hostname too_many_redirects : Refusal
  no_host no_fake_address no_callout : Bytes → Refusal

-- `callout` is whether m_callout is set; `refusal` the failure that the handler gets.
pub record Operation (F : Type 0) : Type 0 where
  pub effective_url : Bytes
  pub redirect_count : ℕ
  pub headers : HeaderParser
  pub callout : Bool
  pub conn_callout_result : ℤ
  pub conn_callout_listener : ℤ
  pub tried_broker : Bool
  pub clock : Transfer F
  pub dns : FakeDns
  pub refusal : Option Refusal

abbrev pub is_minus_one : ℤ → Bool
is_minus_one (pos n) = false
is_minus_one (negsuc n) = n == 0

-- RedirectAction, with the target.
pub data Action : Type 0 where
  fail : Action
  reinvoke : Bytes → Action

abbrev pub max_redirects : ℕ
max_redirects = 32

-- The scheme and authority of the base URL in front of a location.
abbrev pub at_host : Bytes → Bytes → Option ℕ → Bytes
at_host base location none = base ++ location
at_host base location (some path_loc) = take path_loc base ++ location

abbrev pub on_base : Bytes → Bytes → Option ℕ → Option Bytes
on_base base location none = none
on_base base location (some scheme_loc) =
    some (at_host base location (find_from b'/' (scheme_loc + 3) base))

-- A location without a host is one of the effective URL; `none` is an URL without a scheme.
unfoldable pub resolve : Bytes → Bytes → Option Bytes
resolve base [] = some []
resolve base (c ∷ cs) =
    if c == b'/' then on_base base (c ∷ cs) (find_text (codes "://") base) else some (c ∷ cs)

module _ {F : Type 0} where
  abbrev pub refuse : Operation F → Refusal → Operation F × Action
  refuse op r = (record op { refusal = some r }, fail)

  -- The clocks at the end.
  abbrev pub invoked : Operation F → Bytes → ℕ → Operation F × Action
  invoked op location now = (
    record op { clock = started (record op.clock { received_header = false }) now },
    reinvoke location,
  )

  abbrev pub without_callout : Operation F → Operation F
  without_callout op = record op {
    callout = false;
    conn_callout_result = negsuc 0;
    conn_callout_listener = negsuc 0;
    tried_broker = false;
  }

  module _ (callout_for : Bytes → Bool) (begin_callout : Bytes → ℤ × Bytes) (random now : ℕ) where
    -- `BeginCallout`: -1 is an error.
    abbrev pub called_out : Operation F → Bytes → ℤ × Bytes → Operation F × Action
    called_out op location (pos fd, err) =
        invoked (record op { conn_callout_listener = pos fd }) location now
    called_out op location (negsuc n, err) =
        if n == 0
        then refuse (record op { conn_callout_listener = negsuc n }) (no_callout err)
        else invoked (record op { conn_callout_listener = negsuc n }) location now

    abbrev pub with_address : Operation F → Bytes → Bytes → Option Bytes → Operation F × Action
    with_address op location host none = refuse op (no_fake_address host)
    with_address op location host (some addr) =
        if is_empty addr
        then refuse op (no_fake_address host)
        else called_out (record op { callout = true; tried_broker = true }) location
            (begin_callout location)

    -- The connection callout to a location.
    abbrev pub connect : Operation F → Bytes → Bytes × ℤ → Operation F × Action
    connect op location (host, port) =
        let (dns', addr) = get_fake_endpoint_for_host random now op.dns host port in
        if is_empty host || is_minus_one port
        then refuse op (no_host location)
        else with_address (record op { dns = dns' }) location host addr

    -- The new URL of the operation.
    abbrev pub moved : Operation F → Bytes → Operation F × Action
    moved op location =
        let op' : Operation F = record op { effective_url = location; headers = new_parser } in
        if callout_for location
        then connect op' location (parse_host_port location)
        else invoked op' location now

    abbrev pub counted : Operation F → Option Bytes → Operation F × Action
    counted op none = refuse op unknown_hostname
    counted op (some location) =
        let count = (op.redirect_count + 1) % 2 ^ 32 in
        let op' : Operation F = record op { redirect_count = count } in
        if ltb max_redirects count then refuse op' too_many_redirects else moved op' location

    unfoldable pub redirect : Operation F → Operation F × Action
    redirect op =
        let op' = without_callout op in
        if is_empty op.headers.location
        then refuse op' no_location
        else counted op' (resolve op.effective_url op.headers.location)
