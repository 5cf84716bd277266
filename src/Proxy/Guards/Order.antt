-- ===== src/Proxy/Guards/Order.antt =====
-- The checks come first, in their order, and a request that they refuse is not modified.
use forwarder.Base.{
  ◌≡◌, refl, ap, ◌∙◌, Bool, false, not, ◌||◌, map, Option, none, some, List, [], ◌∷◌, Bytes,
  if◌then◌else◌, arith,
}
use forwarder.Http.Headers.{is_in}
use forwarder.Http.Message.{Request}
use forwarder.Http.Text.{lower}
use forwarder.Martian.Fifo.Immutable.{run_group-to_immutable, run_group-append_mods}
use forwarder.Martian.Fifo.{no_more, grouped, modify, go_on, run_group, append_mods}
use forwarder.Proxy.BasicAuth.{authenticated_request, new_proxy_basic_auth}
use forwarder.Proxy.Guards.{
  ProxyError, StackConfig, proxy_authentication, proxy_localhost_denied, proxy_denied, new_stack,
  add_basic_auth, add_deny_localhost, add_deny_domains, security_checks, middleware_stack,
}
use forwarder.Proxy.Route.{
  ProxyLocalhostMode, deny_proxy_localhost, allow_proxy_localhost, direct_proxy_localhost,
  is_localhost,
}

-- What the three checks look for.
abbrev pub lacks_credentials : StackConfig → Option (Bytes × Bytes) → Request → Bool
lacks_credentials cfg none req = false
lacks_credentials cfg (some (user, pass)) req =
    not (authenticated_request cfg.decode_string new_proxy_basic_auth req.header user pass)

abbrev pub denied_localhost : StackConfig → ProxyLocalhostMode → Request → Bool
denied_localhost cfg deny_proxy_localhost req =
    is_in (map lower req.hostname) cfg.localhost || cfg.is_loopback_ip (map lower req.hostname)
denied_localhost cfg allow_proxy_localhost req = false
denied_localhost cfg direct_proxy_localhost req = false

abbrev pub denied_domain : Option (Bytes → Bool) → Request → Bool
denied_domain none req = false
denied_domain (some matches) req = matches req.hostname

abbrev pub refusal_of :
    StackConfig
    → Option (Bytes × Bytes)
    → ProxyLocalhostMode
    → Option (Bytes → Bool)
    → Request
    → Option ProxyError
refusal_of cfg user mode domains req =
    if lacks_credentials cfg user req
    then some proxy_authentication
    else if denied_localhost cfg mode req
    then some proxy_localhost_denied
    else if denied_domain domains req
    then some proxy_denied
    else none

-- The first check that refuses a request.
pub first_refusal : StackConfig → Request → Option ProxyError
first_refusal cfg = refusal_of cfg cfg.basic_auth cfg.proxy_localhost cfg.deny_domains

abbrev errors_of : Option ProxyError → List ProxyError
errors_of none = []
errors_of (some e) = e ∷ []

run-checks :
    (cfg : StackConfig) (user : Option (Bytes × Bytes)) (mode : ProxyLocalhostMode)
    (domains : Option (Bytes → Bool)) (req : Request)
    → run_group false
        (add_deny_domains domains (add_deny_localhost cfg mode (add_basic_auth cfg user no_more)))
        req
        []
      ≡ (req, errors_of (refusal_of cfg user mode domains req))
unfolding run_group append_mods is_localhost
run-checks cfg none mode none req = elim mode [
  | deny_proxy_localhost ↦ ground arith
  | allow_proxy_localhost ↦ ground arith
  | direct_proxy_localhost ↦ ground arith
]
run-checks cfg none mode (some d) req = elim mode [
  | deny_proxy_localhost ↦ ground arith
  | allow_proxy_localhost ↦ ground arith
  | direct_proxy_localhost ↦ ground arith
]
run-checks cfg (some u) mode none req = elim mode [
  | deny_proxy_localhost ↦ ground arith
  | allow_proxy_localhost ↦ ground arith
  | direct_proxy_localhost ↦ ground arith
]
run-checks cfg (some u) mode (some d) req = elim mode [
  | deny_proxy_localhost ↦ ground arith
  | allow_proxy_localhost ↦ ground arith
  | direct_proxy_localhost ↦ ground arith
]

run_group-nil : (r : Request × List ProxyError) → go_on false [] (run_group false no_more) r ≡ r
unfolding run_group
run_group-nil (m, []) = refl
run_group-nil (m, e ∷ es) = refl

behind :
    (cfg : StackConfig) (req : Request) (o : Option ProxyError)
    → go_on false [] (run_group false (grouped false (new_stack cfg) no_more)) (req, errors_of o)
      ≡ (elim o [ some e ↦ (req, e ∷ []) | none ↦ modify false (new_stack cfg) req ])
unfolding run_group
behind cfg req (some e) = refl
behind cfg req none = run_group-nil (modify false (new_stack cfg) req)

-- A request that a check refuses comes out as it went in, with the error of the first check that refuses it, credentials before
-- local hosts before domains, and nothing behind the checks is run; every other request is modified by the stack alone.
pub modify-middleware_stack :
    (cfg : StackConfig) (req : Request)
    → modify false (middleware_stack cfg) req ≡ (elim (first_refusal cfg req) [
      | some e ↦ (req, e ∷ [])
      | none ↦ modify false (new_stack cfg) req
    ])
unfolding middleware_stack first_refusal
modify-middleware_stack cfg req =
    run_group-to_immutable false
      (append_mods (security_checks cfg) (grouped false (new_stack cfg) no_more)) req []
    ∙ run_group-append_mods false (security_checks cfg) (grouped false (new_stack cfg) no_more) req
        []
    ∙ ap (go_on false [] (run_group false (grouped false (new_stack cfg) no_more)))
        (run-checks cfg cfg.basic_auth cfg.proxy_localhost cfg.deny_domains req)
    ∙ behind cfg req (first_refusal cfg req)
