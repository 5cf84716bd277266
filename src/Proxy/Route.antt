-- ===== src/Proxy/Route.antt =====
-- http_proxy.go, the choice of the next hop; `net.ParseIP` with `IsLoopback`, the PAC script, the transport's
-- use of the result and the matchers are parameters.
pub mod Choice
use forwarder.Base.{
  Bool, true, false, Option, none, some, List, [], ◌∷◌, Bytes, codes, beq, map, Result, ok, err,
  ◌>>=◌, if◌then◌else◌,
}
use forwarder.Http.Headers.{is_in}
use forwarder.Http.Message.{Request}
use forwarder.Http.Text.{lower}
use forwarder.Proxy.Pac.{PacError, first_proxy, url_of}

-- The part of a proxy's `url.URL` that is set here; a user or none.
pub record ProxyUrl : Type 0 where
  pub scheme : Bytes
  pub host : Bytes
  pub port : Bytes
  pub user : Option (Bytes × Bytes)

pub data RouteError : Type 0 where
  script_failed : Bytes → RouteError
  bad_proxies : PacError → RouteError

-- `ProxyFunc`: no URL is the direct way.
abbrev pub ProxyFunc : Type 0
ProxyFunc = Request → Result RouteError (Option ProxyUrl)

pub data ProxyLocalhostMode : Type 0 where
  deny_proxy_localhost : ProxyLocalhostMode
  allow_proxy_localhost : ProxyLocalhostMode
  direct_proxy_localhost : ProxyLocalhostMode

-- The fields of the configuration and of the proxy that the route depends on; `localhost` also has the names of the hosts file.
pub record RouteConfig : Type 0 where
  pub upstream_proxy_func : Option ProxyFunc
  pub upstream_proxy : Option ProxyUrl
  pub pac : Option (Bytes → Result Bytes Bytes)
  pub direct_domains : Option (Bytes → Bool)
  pub proxy_localhost : ProxyLocalhostMode
  pub localhost : List Bytes
  pub match_url : ProxyUrl → Option (Bytes × Bytes)

-- `isLocalhost`, with the names of `hp.localhost`
unfoldable pub is_localhost : List Bytes → (Bytes → Bool) → Bytes → Bool
is_localhost localhost is_loopback_ip host =
    let host = map lower host in
    if is_in host localhost then true else if is_loopback_ip host then true else false

-- `if u := hp.creds.MatchURL(proxyURL); u != nil { proxyURL.User = u }`
abbrev pub set_user : Option (Bytes × Bytes) → ProxyUrl → ProxyUrl
set_user none u = u
set_user (some user) u = record u { user = some user }

-- `upstreamProxyURL`
pub upstream_proxy_url : (ProxyUrl → Option (Bytes × Bytes)) → ProxyUrl → ProxyUrl
upstream_proxy_url match_url u = elim u.user [ some user ↦ u | none ↦ set_user (match_url u) u ]

-- The rest of `pacProxy`, from `p.URL()` on; without a URL no user is looked up.
abbrev pub with_user :
    (ProxyUrl → Option (Bytes × Bytes)) → Option (Bytes × Bytes × Bytes) → Option ProxyUrl
with_user match_url none = none
with_user match_url (some (scheme, host, port)) =
    let u : ProxyUrl = record { scheme = scheme; host = host; port = port; user = none } in
    some (set_user (match_url u) u)

module _ (split_host_port : Bytes → Option (Bytes × Bytes)) where
  -- `pacProxy`
  pub pac_proxy : (ProxyUrl → Option (Bytes × Bytes)) → (Bytes → Result Bytes Bytes) → ProxyFunc
  pac_proxy match_url script req = elim (script req.url) [
    | err message ↦ err (script_failed message)
    | ok s ↦ elim (first_proxy split_host_port s) [
      | err e ↦ err (bad_proxies e)
      | ok p ↦ ok (with_user match_url (url_of p))
    ]
  ]

  -- The `switch` of `configureProxy`.
  abbrev pub upstream : RouteConfig → Option ProxyFunc
  upstream cfg = elim cfg.upstream_proxy_func [
    | some fn ↦ some fn
    | none ↦ elim cfg.upstream_proxy [
      | some u ↦ some (λ req. ok (some (upstream_proxy_url cfg.match_url u)))
      | none ↦ elim cfg.pac [ some script ↦ some (pac_proxy cfg.match_url script) | none ↦ none ]
    ]
  ]

-- `directDomains`
pub direct_domains : (Bytes → Bool) → Option ProxyFunc → Option ProxyFunc
direct_domains matches none = none
direct_domains matches (some fn) = some (λ req. if matches req.hostname then ok none else fn req)

-- `directLocalhost`
pub direct_localhost : List Bytes → (Bytes → Bool) → Option ProxyFunc → Option ProxyFunc
direct_localhost localhost is_loopback_ip none = none
direct_localhost localhost is_loopback_ip (some fn) =
    some (λ req. if is_localhost localhost is_loopback_ip req.hostname then ok none else fn req)

-- The part of `configureProxy` that sets `ProxyURL`.
pub configure_proxy_func :
    (Bytes → Option (Bytes × Bytes)) → (Bytes → Bool) → RouteConfig → Option ProxyFunc
configure_proxy_func split_host_port is_loopback_ip cfg =
    let fn = upstream split_host_port cfg in
    let fn : Option ProxyFunc = elim cfg.direct_domains [
      | none ↦ fn
      | some matches ↦ direct_domains matches fn
    ] in
    elim cfg.proxy_localhost [
      | deny_proxy_localhost ↦ fn
      | allow_proxy_localhost ↦ fn
      | direct_proxy_localhost ↦ direct_localhost cfg.localhost is_loopback_ip fn
    ]
