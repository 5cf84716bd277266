-- ===== src/Tests/Forwarding.antt =====
-- The root package, middleware, ruleset, pac and the frame reader at concrete inputs.
use forwarder.Base.{
  occurs-append-false, ℕ, ◌+◌, ◌≡◌, ◌↔◌, refl, Bool, true, false, ◌&&◌, ◌||◌, not, Option, none,
  some, List, [], ◌∷◌, ◌++◌, Bytes, codes, cut, occurs, ok, if◌then◌else◌, ◌==◌, length, arith,
}
use forwarder.Base.Int.{pos}
use forwarder.H2.Process.{Fields, Reader}
use forwarder.Http.Headers.{Headers, values, get}
use forwarder.Http.Message.{Request}
use forwarder.Http.Text.{split_by, trim_left, trim_right}
use forwarder.Martian.Fifo.{modify}
use forwarder.Proxy.BasicAuth.Access.{Names, authenticated_request_iff}
use forwarder.Proxy.BasicAuth.{authenticated_request, new_proxy_basic_auth}
use forwarder.Proxy.Credentials.Priority.{best, match_hostport-best}
use forwarder.Proxy.Credentials.{
  HostPortUser, CredentialsMatcher, no_credentials, add_entries, match_hostport,
}
use forwarder.Proxy.ErrorPages.Status.{error_response_lem}
use forwarder.Proxy.ErrorPages.{ProxyFailure, authentication, error_response}
use forwarder.Proxy.Guards.Order.{first_refusal, modify-middleware_stack}
use forwarder.Proxy.Guards.{StackConfig, middleware_stack, new_stack}
use forwarder.Proxy.Pac.First.{first_proxy-all_proxies}
use forwarder.Proxy.Pac.{Proxy, no_proxy, http, first_proxy, all_proxies, parse_proxy, parse_mode}
use forwarder.Proxy.Route.Choice.{
  ask, is_local, first_of, ways, in_direct_domains, local_is_direct, ask-configure_proxy_func,
}
use forwarder.Proxy.Route.{
  RouteConfig, deny_proxy_localhost, direct_proxy_localhost, configure_proxy_func,
}
use forwarder.Proxy.Rules.Choice.{Alternates, any_matches, match-any_matches}
use forwarder.Proxy.Rules.{RegexpMatcher, RegexpListItem, inverse_of, match}

abbrev request : Request
request = record {
  method = codes "GET";
  proto_major = 1;
  proto_minor = 1;
  header = [];
  host = codes "b.example";
  remote_addr = codes "10.0.0.1";
  scheme = codes "http";
  hostname = codes "b.example";
  url = codes "/";
  url_host = [];
  content_length = pos 0;
  tls = false;
  close = false;
}

-- Addresses are split at the first colon, and nothing is encoded.
abbrev split : Bytes → Option (Bytes × Bytes)
split = cut b':'

abbrev join : Bytes → Bytes → Bytes
join h p = h ++ (b':' ∷ p)

abbrev verbatim : Bytes → Option Bytes
verbatim s = some s

abbrev never : Bytes → Bool
never s = false

abbrev stack_config : StackConfig
stack_config = record {
  via_tag = codes "p-1";
  basic_auth = some (codes "u", codes "p");
  proxy_localhost = deny_proxy_localhost;
  localhost = codes "localhost" ∷ codes "alias" ∷ [];
  deny_domains = none;
  request_modifiers = [];
  match_url = λ req. none;
  decode_string = verbatim;
  encode_to_string = λ s. s;
  split_host_port = split;
  is_loopback_ip = never;
}

modify-middleware_stack_example :
    modify false (middleware_stack stack_config) request
    ≡ (elim (first_refusal stack_config request) [
      | some e ↦ (request, e ∷ [])
      | none ↦ modify false (new_stack stack_config) request
    ])
modify-middleware_stack_example = modify-middleware_stack stack_config request

abbrev route_config : RouteConfig
route_config = record {
  upstream_proxy_func = none;
  upstream_proxy =
      some (record { scheme = codes "http"; host = codes "up"; port = codes "80"; user = none });
  pac = none;
  direct_domains = some (occurs b'b');
  proxy_localhost = direct_proxy_localhost;
  localhost = codes "localhost" ∷ codes "alias" ∷ [];
  match_url = λ u. none;
}

ask-configure_proxy_func_example : ask (configure_proxy_func split never route_config) request ≡ (
    if local_is_direct route_config.proxy_localhost
        && is_local route_config.localhost never request.hostname
      || in_direct_domains route_config.direct_domains request.hostname
    then ok none
    else ask (first_of (ways split route_config)) request)
ask-configure_proxy_func_example = ask-configure_proxy_func split never route_config request

-- Entries with a colon in the host are refused.
abbrev check : HostPortUser ℕ → Option Bytes
check c = if occurs b':' c.host then some (codes "invalid host") else none

cut-at_colon : (h p : Bytes) → occurs b':' h ≡ false → split (join h p) ≡ some (h, p)
cut-at_colon [] p e = refl
cut-at_colon (c ∷ h) p e = ground (arith, cut-at_colon h p)

check-valid :
    (c : HostPortUser ℕ) → check c ≡ none → split (join c.host c.port) ≡ some (c.host, c.port)
check-valid c e = ground (arith, cut-at_colon c.host c.port)

abbrev entries : List (HostPortUser ℕ)
entries =
    record { host = codes "*"; port = codes "0"; user = 1 }
    ∷ record { host = codes "a"; port = codes "0"; user = 2 }
    ∷ record { host = codes "a"; port = codes "80"; user = 3 }
    ∷ []

abbrev matcher : CredentialsMatcher ℕ
matcher = record {
  hostport = (codes "a:80", 3) ∷ [];
  host = (codes "a", 2) ∷ [];
  port = [];
  global = some 1;
}

entries-added : add_entries join check entries no_credentials ≡ ok matcher
unfolding add_entries
entries-added = refl

match_hostport-best_example :
    match_hostport split (some matcher) (join (codes "a") (codes "80"))
    ≡ best entries (codes "a") (codes "80")
match_hostport-best_example =
    match_hostport-best join split check (codes "a") (codes "80") refl refl refl check-valid entries
      matcher entries-added

abbrev login : Headers
login = (codes "Proxy-Authorization", codes "basic u:p" ∷ []) ∷ []

authenticated_request_iff_example :
    (authenticated_request verbatim new_proxy_basic_auth login (codes "u") (codes "p") ≡ true)
    ↔ Names verbatim (get login new_proxy_basic_auth) (codes "u") (codes "p")
authenticated_request_iff_example =
    authenticated_request_iff verbatim new_proxy_basic_auth login (codes "u") (codes "p") refl

-- A rule matches a text when one of its bytes, bars left out, stands in the text; behind an `i` it matches every text.
abbrev some_byte : Bytes → Bytes → Bool
some_byte [] s = false
some_byte (c ∷ r) s = c == b'i' || (not (c == b'|') && occurs c s) || some_byte r s

abbrev IsFlagless : Bytes → Type 0
IsFlagless r = occurs b'i' r ≡ false

some_byte-bar : (a b s : Bytes) → some_byte (a ++ (b'|' ∷ b)) s ≡ (some_byte a s || some_byte b s)
some_byte-bar [] b s = refl
some_byte-bar (c ∷ a) b s = ground (arith, some_byte-bar a b s)

some_byte-Alternates : Alternates some_byte IsFlagless
some_byte-Alternates a b p q =
    (occurs-append-false b'i' a (b'|' ∷ b) p (ground (arith, q)), some_byte-bar a b)

abbrev rules : List RegexpListItem
rules =
    record { regexp = codes "ab"; exclude = false }
    ∷ record { regexp = codes "x"; exclude = true }
    ∷ record { regexp = codes "c"; exclude = false }
    ∷ []

abbrev rule_matcher : RegexpMatcher
rule_matcher = record { include = some (codes "ab|c"); exclude = some (codes "x"); inverse = false }

match-any_matches_example :
    (match some_byte rule_matcher (codes "cd") ≡ (
      any_matches some_byte false rules (codes "cd")
      && not (any_matches some_byte true rules (codes "cd"))))
    × (match some_byte (inverse_of rule_matcher) (codes "cd")
        ≡ not (
            any_matches some_byte false rules (codes "cd")
            && not (any_matches some_byte true rules (codes "cd"))))
match-any_matches_example =
    match-any_matches some_byte IsFlagless some_byte-Alternates rules rule_matcher (codes "cd")
      (λ h. cc, (λ h. cc, (λ h. cc, tt))) (refl, (refl, (refl, tt))) refl

abbrev two_proxies : List Proxy
two_proxies = record { mode = http; host = codes "a"; port = codes "1" } ∷ no_proxy ∷ []

both_read : all_proxies split (codes "HTTP a:1; DIRECT") ≡ ok two_proxies
unfolding all_proxies parse_proxy parse_mode split_by trim_left trim_right
both_read = refl

first_proxy-all_proxies_example :
    first_proxy split (codes "HTTP a:1; DIRECT")
    ≡ ok (record { mode = http; host = codes "a"; port = codes "1" })
first_proxy-all_proxies_example =
    first_proxy-all_proxies split (codes "HTTP a:1; DIRECT") two_proxies both_read

-- The decoder of one field with an empty name, whose state counts.
abbrev one_field : ℕ → Bytes → Option (Fields × ℕ)
one_field n block = some (([], block) ∷ [], n + 1)

abbrev reader : Reader ℕ
reader = record { header_buffer = codes "old"; continuation_state = none; decoder = 0 }

abbrev failure : ProxyFailure
failure = record { text = codes "no"; layers = authentication ∷ [] }

abbrev quoted : Bytes → Bytes
quoted s = b'"' ∷ (s ++ (b'"' ∷ []))

abbrev no_text_of : Bytes → Bytes
no_text_of s = []

abbrev no_text : ℕ → Bytes
no_text i = []

error_response_lem_example :
    (((error_response quoted no_text_of no_text false (codes "fw") request failure).status == 0)
      ≡ false)
    × ((error_response quoted no_text_of no_text false (codes "fw") request failure).content_length
        ≡ length (error_response quoted no_text_of no_text false (codes "fw") request failure).body)
    × (values
          (error_response quoted no_text_of no_text false (codes "fw") request failure).header
          (codes "Proxy-Authenticate")
        ≡ (if (error_response quoted no_text_of no_text false (codes "fw") request failure).status
              == 407
            then some ((codes "Basic realm=" ++ quoted (codes "fw")) ∷ [])
            else none))
error_response_lem_example =
    error_response_lem quoted no_text_of no_text false (codes "fw") request failure
