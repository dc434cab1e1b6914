-- ===== src/Operation/Tests.antt =====
-- The theorems on operations at concrete states.
use xrdcl_pelican.Prelude.{
  ℕ, ◌+◌, ◌%◌, ◌^◌, ◌≤◌, ◌*◌, Bool, true, false, none, some, [], ◌∷◌, ◌++◌, ◌≡◌, refl, arith,
}
use xrdcl_pelican.Prelude.Bytes.{Bytes, codes, find, find_text, find_from}
use xrdcl_pelican.Prelude.Decimal.{decimal, decimal_loop}
use xrdcl_pelican.Prelude.Int.{ℤ, pos, negsuc}
use xrdcl_pelican.Prelude.Assoc.{lookup, insert}
use xrdcl_pelican.Prelude.Search.{colon_slashes}
use xrdcl_pelican.Headers.{new_parser}
use xrdcl_pelican.Headers.Text.{skip_spaces}
use xrdcl_pelican.Operation.Text.{
  parse_host_port, split_port, sanitize_server_error, sanitize_loop, drop_blanks, back,
}
use xrdcl_pelican.Operation.FakeDns.{
  FakeDns, get_fake_endpoint_for_host, open_socket, close_socket, endpoint,
}
use xrdcl_pelican.Operation.Endpoints.{IsValid, unused, asks, opens, closes, Uses-IsValid}
use xrdcl_pelican.Operation.Clock.{
  Transfer, err_none, started, header_callback, update_bytes, statistics_reset,
}
use xrdcl_pelican.Operation.Totals.{Ledger, starts, hears, moves, Life-statistics_reset}
use xrdcl_pelican.Operation.Redirect.{Operation, redirect, resolve, Action, reinvoke}
use xrdcl_pelican.Operation.Hops.{no_hop, hop, Hops-bounded, redirect-resolve}

abbrev no_addresses : FakeDns
no_addresses = record { counter = 65536 * 3 + 258; dns_map = []; reverse_map = []; refcounts = [] }

no_addresses-IsValid : IsValid no_addresses
unfolding lookup
no_addresses-IsValid = record {
  distinct = (tt, tt, tt);
  forward = λ k a e. (let bad : ⊥ = ground arith in elim bad [ ]);
  backward = λ k a e. (let bad : ⊥ = ground arith in elim bad [ ]);
  in_use = λ a. ground arith;
}

abbrev one_address : FakeDns
one_address = (get_fake_endpoint_for_host 0 5 no_addresses (codes "h") (pos 443)).0

first_address :
    (get_fake_endpoint_for_host 0 5 no_addresses (codes "h") (pos 443)).1
    ≡ some (codes "169.254.1.2:1027")
unfolding get_fake_endpoint_for_host endpoint decimal decimal_loop lookup insert
first_address = refl

Uses-IsValid_example : IsValid (
    close_socket
      (open_socket one_address (codes "169.254.1.2:1027") 6).0
      (codes "169.254.1.2:1027")
      7)
Uses-IsValid_example =
    Uses-IsValid no_addresses
      (close_socket (open_socket one_address (codes "169.254.1.2:1027") 6).0
        (codes "169.254.1.2:1027") 7)
      (asks 0 5 no_addresses _ (codes "h") (pos 443) (
        opens one_address _ (codes "169.254.1.2:1027") 6
          (closes _ _ (codes "169.254.1.2:1027") 7 (unused _))))
      no_addresses-IsValid

-- The rates are not looked at.
abbrev idle : Transfer ℕ
idle = record {
  header_expiry = 100;
  operation_expiry = 0;
  received_header = false;
  paused = false;
  error = err_none;
  bytes = 0;
  last_reset = 0;
  last_header_reset = 0;
  start_op = 0;
  header_start = 0;
  header_lastop = 0;
  pause_start = 0;
  pause_duration = 0;
  last_xfer = 0;
  last_xfer_count = 0;
  ema_rate = 0;
}

abbrev moving : Transfer ℕ
moving = update_bytes (header_callback (started idle 10) 14) 300

abbrev ledger : Ledger
ledger = record { now = 14; seen = 300; bytes_reported = 0; time_reported = 0 }

Life-statistics_reset_example :
    (10
        + (0
            + (statistics_reset moving 20).1.pre_header
            + (statistics_reset moving 20).1.post_header)
      ≡ 20)
    × ((0 + (statistics_reset moving 20).1.transferred) % 2 ^ 64 ≡ 300 % 2 ^ 64)
unfolding update_bytes header_callback
Life-statistics_reset_example =
    Life-statistics_reset 10 moving ledger 20
      (moves _ _ 300 (hears _ _ 14 (starts idle refl refl) (omega arith))) (omega arith)

-- Behind a redirect from another host.
abbrev redirected : Operation ℕ
redirected = record {
  effective_url = codes "https://b/x";
  redirect_count = 0;
  headers = record new_parser { location = codes "/y" };
  callout = false;
  conn_callout_result = negsuc 0;
  conn_callout_listener = negsuc 0;
  tried_broker = false;
  clock = idle;
  dns = no_addresses;
  refusal = none;
}

-- A callout for every location, with the socket 3.
abbrev callout_for : Bytes → Bool
callout_for location = true

abbrev begin_callout : Bytes → ℤ × Bytes
begin_callout location = (pos 3, [])

abbrev followed : Operation ℕ × Action
followed = redirect callout_for begin_callout 0 5 redirected

followed_target : followed.1 ≡ reinvoke (codes "https://b/y")
unfolding redirect resolve find_text find_from find parse_host_port split_port
    get_fake_endpoint_for_host endpoint decimal decimal_loop lookup insert
followed_target = refl

Hops-bounded_example : 1 ≤ 32
unfolding redirect resolve find_text find_from find parse_host_port split_port
    get_fake_endpoint_for_host endpoint decimal decimal_loop lookup insert
Hops-bounded_example = Hops-bounded 1 redirected followed.0 refl (
    hop callout_for begin_callout 0 5 0 redirected followed.0 followed.0 followed.0
      (codes "https://b/y") refl refl refl (no_hop followed.0))

redirect-resolve_example :
    codes "https://b/y" ≡ codes "https" ++ (colon_slashes ++ (codes "b" ++ (b'/' ∷ codes "y")))
unfolding redirect resolve find_text find_from find parse_host_port split_port
    get_fake_endpoint_for_host endpoint decimal decimal_loop lookup insert
redirect-resolve_example =
    redirect-resolve callout_for begin_callout 0 5 redirected followed.0 (codes "https") (codes "b")
      (codes "x") (codes "y") (codes "https://b/y") (omega arith) refl refl refl refl refl

one_line : sanitize_server_error (codes " no\r\n such \t file ") ≡ codes "no such file"
unfolding sanitize_server_error sanitize_loop drop_blanks back skip_spaces
one_line = refl
