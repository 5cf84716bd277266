-- ===== src/Proxy/Route/Choice.antt =====
-- Where a request goes.
use forwarder.Base.{
  ◌≡◌, refl, ap, Bool, true, false, ◌&&◌, ◌||◌, Option, none, some, List, [], ◌∷◌, map, Bytes,
  Result, ok, if◌then◌else◌, arith,
}
use forwarder.Http.Headers.{is_in}
use forwarder.Http.Message.{Request}
use forwarder.Http.Text.{lower}
use forwarder.Proxy.Route.{
  ProxyUrl, RouteError, ProxyFunc, RouteConfig, ProxyLocalhostMode, deny_proxy_localhost,
  allow_proxy_localhost, direct_proxy_localhost, is_localhost, upstream, direct_domains,
  direct_localhost, configure_proxy_func, upstream_proxy_url, set_user, pac_proxy,
}

-- What is asked of a proxy function that may be missing; with none, requests go directly.
abbrev pub ask : Option ProxyFunc → Request → Result RouteError (Option ProxyUrl)
ask none req = ok none
ask (some fn) req = fn req

abbrev pub in_direct_domains : Option (Bytes → Bool) → Bytes → Bool
in_direct_domains none host = false
in_direct_domains (some matches) host = matches host

abbrev pub local_is_direct : ProxyLocalhostMode → Bool
local_is_direct deny_proxy_localhost = false
local_is_direct allow_proxy_localhost = false
local_is_direct direct_proxy_localhost = true

ask-direct_domains :
    (d : Option (Bytes → Bool)) (fn : Option ProxyFunc) (req : Request)
    → ask (elim d [ none ↦ fn | some matches ↦ direct_domains matches fn ]) req
      ≡ (if in_direct_domains d req.hostname then ok none else ask fn req)
unfolding direct_domains
ask-direct_domains none fn req = refl
ask-direct_domains (some matches) none req = ground arith
ask-direct_domains (some matches) (some fn) req = refl

-- A host is local by its name in lower case.
abbrev pub is_local : List Bytes → (Bytes → Bool) → Bytes → Bool
is_local localhost is_loopback_ip host =
    is_in (map lower host) localhost || is_loopback_ip (map lower host)

ask-direct_localhost :
    (localhost : List Bytes) (is_loopback_ip : Bytes → Bool) (fn : Option ProxyFunc) (req : Request)
    → ask (direct_localhost localhost is_loopback_ip fn) req
      ≡ (if is_local localhost is_loopback_ip req.hostname then ok none else ask fn req)
unfolding direct_localhost is_localhost
ask-direct_localhost localhost is_loopback_ip none req = ground arith
ask-direct_localhost localhost is_loopback_ip (some fn) req = ground arith

-- The first way that there is.
abbrev pub first_of : List (Option ProxyFunc) → Option ProxyFunc
first_of [] = none
first_of (some fn ∷ ways) = some fn
first_of (none ∷ ways) = first_of ways

-- The user of an upstream proxy: its own one, or else the one that the credentials have for it.
abbrev pub user_for :
    (ProxyUrl → Option (Bytes × Bytes)) → ProxyUrl → Option (Bytes × Bytes) → Option (Bytes × Bytes)
user_for match_url u (some user) = some user
user_for match_url u none = match_url u

abbrev pub fixed_way : (ProxyUrl → Option (Bytes × Bytes)) → Option ProxyUrl → Option ProxyFunc
fixed_way match_url none = none
fixed_way match_url (some u) =
    some (λ req. ok (some (record u { user = user_for match_url u u.user })))

abbrev pub script_way :
    (Bytes → Option (Bytes × Bytes))
    → (ProxyUrl → Option (Bytes × Bytes))
    → Option (Bytes → Result Bytes Bytes)
    → Option ProxyFunc
script_way split_host_port match_url none = none
script_way split_host_port match_url (some script) =
    some (pac_proxy split_host_port match_url script)

-- The function, the fixed proxy and the script of a configuration, in the order of their rank.
abbrev pub ways : (Bytes → Option (Bytes × Bytes)) → RouteConfig → List (Option ProxyFunc)
ways split_host_port cfg =
    cfg.upstream_proxy_func
    ∷ fixed_way cfg.match_url cfg.upstream_proxy
    ∷ script_way split_host_port cfg.match_url cfg.pac
    ∷ []

set_user-none :
    (found : Option (Bytes × Bytes)) (u : ProxyUrl)
    → set_user found (record u { user = none }) ≡ record u { user = found }
set_user-none none u = refl
set_user-none (some user) u = refl

with_credentials :
    (match_url : ProxyUrl → Option (Bytes × Bytes)) (u : ProxyUrl) (own : Option (Bytes × Bytes))
    → upstream_proxy_url match_url (record u { user = own })
      ≡ record u { user = user_for match_url (record u { user = own }) own }
unfolding upstream_proxy_url
with_credentials match_url u (some user) = refl
with_credentials match_url u none = set_user-none (match_url (record u { user = none })) u

ask-upstream :
    (split_host_port : Bytes → Option (Bytes × Bytes)) (cfg : RouteConfig) (req : Request)
    → ask (upstream split_host_port cfg) req ≡ ask (first_of (ways split_host_port cfg)) req
ask-upstream split_host_port cfg req = go cfg.upstream_proxy_func cfg.upstream_proxy cfg.pac
  where
    go :
        (f : Option ProxyFunc) (u : Option ProxyUrl) (s : Option (Bytes → Result Bytes Bytes))
        → ask
            (elim f [
              | some fn ↦ some fn
              | none ↦ elim u [
                | some u ↦ some (λ req. ok (some (upstream_proxy_url cfg.match_url u)))
                | none ↦ elim s [
                  | some script ↦ some (pac_proxy split_host_port cfg.match_url script)
                  | none ↦ none
                ]
              ]
            ])
            req
          ≡ ask
              (first_of
                (f ∷ fixed_way cfg.match_url u ∷ script_way split_host_port cfg.match_url s ∷ []))
              req
    go (some f) u s = refl
    go none (some u) s = ap (λ v. ok (some v)) (with_credentials cfg.match_url u u.user)
    go none none (some s) = refl
    go none none none = refl

-- A request goes directly if its host is local and local hosts are to be reached directly, or if its
-- host is in the direct domains; every other request goes where the upstream proxy function, the
-- upstream proxy or the script says, the first of them that there is, and directly if there is none.
pub ask-configure_proxy_func :
    (split_host_port : Bytes → Option (Bytes × Bytes)) (is_loopback_ip : Bytes → Bool)
    (cfg : RouteConfig) (req : Request)
    → ask (configure_proxy_func split_host_port is_loopback_ip cfg) req ≡ (
        if local_is_direct cfg.proxy_localhost && is_local cfg.localhost is_loopback_ip req.hostname
          || in_direct_domains cfg.direct_domains req.hostname
        then ok none
        else ask (first_of (ways split_host_port cfg)) req)
unfolding configure_proxy_func
ask-configure_proxy_func split_host_port is_loopback_ip cfg req = ground (
  arith,
  ask-direct_domains cfg.direct_domains (upstream split_host_port cfg) req,
  ask-upstream split_host_port cfg req,
  ask-direct_localhost cfg.localhost is_loopback_ip
      (elim cfg.direct_domains [
        | none ↦ upstream split_host_port cfg
        | some matches ↦ direct_domains matches (upstream split_host_port cfg)
      ])
      req,
)
