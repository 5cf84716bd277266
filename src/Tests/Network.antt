-- ===== src/Tests/Network.antt =====
-- net.go, conntrack/ and host.go at concrete calls.
use forwarder.Base.{
  ok, arith, refl, ℕ, zero, suc, ◌≡◌, ◌%◌, true, false, none, some, List, [], ◌∷◌, Bytes, codes,
  beq, if◌then◌else◌,
}
use forwarder.Base.Int.{pos}
use forwarder.Base.Decimal.{unsigned, digits}
use forwarder.Net.Conntrack.Counts.{bytes_in, bytes_out, has_close, ios_counted}
use forwarder.Net.Conntrack.{Io, read, write, close, new_tracked, ios}
use forwarder.Net.Dialer.Attempts.{Allowed, DialResult, dial_with_retry-DialResult}
use forwarder.Net.Dialer.{Dialed, Retry, dial_with_retry}
use forwarder.Net.Redirect.{HostPort}
use forwarder.Net.DialVia
use forwarder.Net.DialVia.{HttpProxyDialer, context_done}
use forwarder.Net.DialVia.Closed.{Settled, dial_context-Settled}
use forwarder.Proxy.Config.HostPortUser.{parse_host_port_user-show}
use forwarder.Proxy.Config.{
  Names, Userinfo, parse_host_port_user, show_host_port_user, validate_host_port_user,
  validate_host_port,
}

-- The second attempt succeeds.
abbrev flaky : ℕ → Dialed Bytes
flaky n = elim n [
  | zero ↦ record { conn = false; error = some (codes "refused") }
  | suc k ↦ record { conn = true; error = none }
]

abbrev thrice : Retry
thrice = record { attempts = pos 3; backoff = pos 1000 }

dial_with_retry-DialResult_example :
    (n : ℕ) × Allowed thrice.attempts n
    × DialResult flaky 0 n none (dial_with_retry flaky thrice (codes "d.example:80"))
dial_with_retry-DialResult_example = dial_with_retry-DialResult flaky thrice (codes "d.example:80")

abbrev calls : List Io
calls = read 5 ∷ write 7 ∷ close ∷ read 1 ∷ close ∷ []

ios_counted_example :
    ((ios calls new_tracked).rx ≡ bytes_in calls % 18446744073709551616)
    × ((ios calls new_tracked).tx ≡ bytes_out calls % 18446744073709551616)
    × ((ios calls new_tracked).on_close_calls ≡ (if has_close calls then 1 else 0))
ios_counted_example = ios_counted calls

-- Checks that accept every name, and a parser that reads one host and port.
abbrev lax : Names
lax = record {
  is_domain_name = λ s. true;
  is_ip = λ s. false;
  url_parse = λ s.
      if beq s (codes "http://@a.example:0")
      then some (record { host = codes "a.example"; port = codes "0" })
      else none;
  same_url = λ s h. some true;
}

abbrev any_port : HostPort
any_port = record { host = codes "a.example"; port = codes "0" }

abbrev someone : Userinfo
someone = record { username = codes "user"; password = some (codes "p@ss:word") }

parse_host_port_user-show_example :
    parse_host_port_user lax (show_host_port_user lax (any_port, some someone))
    ≡ ok (any_port, some someone)
unfolding validate_host_port_user validate_host_port unsigned digits
parse_host_port_user-show_example =
    parse_host_port_user-show lax any_port someone (omega arith, refl, refl, refl, refl, refl) refl
      refl

abbrev via : HttpProxyDialer
via = record {
  via_scheme = codes "https";
  via_host = codes "p.example:3128";
  via_user = some someone;
  proxy_connect_header = [];
}

-- The proxy does not answer in time.
dial_context-Settled_example : Settled (
    DialVia.dial_context
      (λ s. s)
      via
      (codes "tcp")
      (codes "d.example:443")
      none
      none
      none
      (context_done (codes "late")))
dial_context-Settled_example =
    dial_context-Settled (λ s. s) via (codes "tcp") (codes "d.example:443") none none none
      (context_done (codes "late"))
