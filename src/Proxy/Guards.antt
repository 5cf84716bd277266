-- ===== src/Proxy/Guards.antt =====
-- http_proxy.go, the request side of `middlewareStack`, with internal/martian/httpspec/httpspec.go. The codecs of
-- base64, the split of an address and the matchers are parameters.
pub mod Order
use forwarder.Base.{
  Bool, true, false, not, Option, none, some, List, [], ◌∷◌, ◌++◌, Bytes, codes, beq, Result, ok,
  err, if◌then◌else◌,
}
use forwarder.Http.Headers.{Headers, values, get, set_header}
use forwarder.Http.Message.{Request}
use forwarder.Martian.Fifo.{
  Modifiers, no_more, single, grouped, add_modifier, add_group, to_immutable,
}
use forwarder.Martian.Forwarded as Forwarded
use forwarder.Martian.Framing as Framing
use forwarder.Martian.Framing.{FramingError}
use forwarder.Martian.HopByHop.{remove_hop_by_hop_headers}
use forwarder.Martian.Via as Via
use forwarder.Martian.Via.{LoopError}
use forwarder.Proxy.BasicAuth.{authenticated_request, new_proxy_basic_auth}
use forwarder.Proxy.Route.{
  ProxyLocalhostMode, deny_proxy_localhost, allow_proxy_localhost, direct_proxy_localhost,
  is_localhost,
}

pub data ProxyError : Type 0 where
  proxy_authentication : ProxyError
  proxy_localhost_denied : ProxyError
  proxy_denied : ProxyError
  bad_framing : FramingError → ProxyError
  loop : LoopError → ProxyError
  failed : Bytes → ProxyError

abbrev pub Modifier : Type 0
Modifier = Request → Request × List ProxyError

-- What the stack takes from the configuration and from the libraries.
pub record StackConfig : Type 0 where
  pub via_tag : Bytes
  pub basic_auth : Option (Bytes × Bytes)
  pub proxy_localhost : ProxyLocalhostMode
  pub localhost : List Bytes
  pub deny_domains : Option (Bytes → Bool)
  pub request_modifiers : List Modifier
  pub match_url : Request → Option (Bytes × Bytes)
  pub decode_string : Bytes → Option Bytes
  pub encode_to_string : Bytes → Bytes
  pub split_host_port : Bytes → Option (Bytes × Bytes)
  pub is_loopback_ip : Bytes → Bool

-- A modifier that only checks.
abbrev pub refuse_if : (Request → Bool) → ProxyError → Modifier
refuse_if test e req = if test req then (req, e ∷ []) else (req, [])

-- `basicAuth`
abbrev pub basic_auth_guard : StackConfig → Bytes × Bytes → Modifier
basic_auth_guard cfg (user, pass) =
    refuse_if
      (λ req.
        not (authenticated_request cfg.decode_string new_proxy_basic_auth req.header user pass))
      proxy_authentication

-- `denyLocalhost`
abbrev pub deny_localhost : StackConfig → Modifier
deny_localhost cfg =
    refuse_if (λ req. is_localhost cfg.localhost cfg.is_loopback_ip req.hostname)
      proxy_localhost_denied

-- `denyDomains`
abbrev pub deny_domains_guard : (Bytes → Bool) → Modifier
deny_domains_guard matches = refuse_if (λ req. matches req.hostname) proxy_denied

-- `setBasicAuth`
pub set_basic_auth : StackConfig → Modifier
set_basic_auth cfg req =
    if beq (get req.header (codes "Authorization")) []
    then elim (cfg.match_url req) [
      | none ↦ (req, [])
      | some (user, pass) ↦
          let text = codes "Basic " ++ cfg.encode_to_string (user ++ (b':' ∷ pass)) in
          (record req { header = set_header (codes "Authorization") text req.header }, [])
    ]
    else (req, [])

-- `setEmptyUserAgent`
pub set_empty_user_agent : Modifier
set_empty_user_agent req = elim (values req.header (codes "User-Agent")) [
  | some vs ↦ (req, [])
  | none ↦ (record req { header = set_header (codes "User-Agent") [] req.header }, [])
]

-- The modifiers of internal/martian/header; a request that fails is kept as it came, since only its error is used.
abbrev pub hop_by_hop : Modifier
hop_by_hop req = (record req { header = remove_hop_by_hop_headers req.header }, [])

abbrev pub forwarded : StackConfig → Modifier
forwarded cfg req = (Forwarded.modify_request cfg.split_host_port req, [])

abbrev pub framing : Modifier
framing req = elim (Framing.modify_request req.header) [
  | ok h ↦ (record req { header = h }, [])
  | err e ↦ (req, bad_framing e ∷ [])
]

abbrev pub via : StackConfig → Modifier
via cfg req = elim (Via.modify_request cfg.via_tag req) [
  | ok req' ↦ (req', [])
  | err e ↦ (e.closed, loop e ∷ [])
]

-- The inner group `fg`, when all its request modifiers were added.
abbrev pub add_all : List Modifier → Modifiers Request ProxyError → Modifiers Request ProxyError
add_all [] mods = mods
add_all (f ∷ fs) mods = add_all fs (add_modifier f mods)

abbrev pub inner_group : StackConfig → Modifiers Request ProxyError
inner_group cfg =
    add_modifier set_empty_user_agent
      (add_modifier (set_basic_auth cfg) (add_all cfg.request_modifiers no_more))

-- The outer group of `NewStack`.
abbrev pub new_stack : StackConfig → Modifiers Request ProxyError
new_stack cfg = add_group false (inner_group cfg) (
    add_modifier (via cfg)
      (add_modifier framing (add_modifier (forwarded cfg) (add_modifier hop_by_hop no_more))))

-- The security checks at the head of the top group.
abbrev pub add_basic_auth :
    StackConfig
    → Option (Bytes × Bytes)
    → Modifiers Request ProxyError
    → Modifiers Request ProxyError
add_basic_auth cfg none mods = mods
add_basic_auth cfg (some user) mods = add_modifier (basic_auth_guard cfg user) mods

abbrev pub add_deny_localhost :
    StackConfig → ProxyLocalhostMode → Modifiers Request ProxyError → Modifiers Request ProxyError
add_deny_localhost cfg deny_proxy_localhost mods = add_modifier (deny_localhost cfg) mods
add_deny_localhost cfg allow_proxy_localhost mods = mods
add_deny_localhost cfg direct_proxy_localhost mods = mods

abbrev pub add_deny_domains :
    Option (Bytes → Bool) → Modifiers Request ProxyError → Modifiers Request ProxyError
add_deny_domains none mods = mods
add_deny_domains (some matches) mods = add_modifier (deny_domains_guard matches) mods

abbrev pub security_checks : StackConfig → Modifiers Request ProxyError
security_checks cfg =
    add_deny_domains cfg.deny_domains
      (add_deny_localhost cfg cfg.proxy_localhost (add_basic_auth cfg cfg.basic_auth no_more))

-- The request modifiers of `middlewareStack`.
pub middleware_stack : StackConfig → Modifiers Request ProxyError
middleware_stack cfg = to_immutable false (add_group false (new_stack cfg) (security_checks cfg))
