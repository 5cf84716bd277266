-- ===== src/Proxy/Life.antt =====
-- http_proxy.go: how a proxy is built from its configuration. What reading the hosts file, loading certificates and opening
-- listeners gives are parameters.
pub mod Construction
pub mod Run
use forwarder.Base.{
  ℕ, Bool, true, false, not, ◌&&◌, ◌||◌, Option, none, some, List, [], ◌∷◌, ◌++◌, Bytes, codes, beq,
  map, Result, ok, err, if◌then◌else◌,
}
use forwarder.Base.Int.{ℤ}
use forwarder.Http.Message.{Request, Response}
use forwarder.Http.Text.{lower}
use forwarder.Martian.Events.{World, ProxyUrl}
use forwarder.Martian.Failure.{Failure}
use forwarder.Martian.Proxy.{Connected}
use forwarder.Martian.Proxy as Martian
use forwarder.Net.Listen.{ListenerConfig, Layer, listen, listen_all, ListenEvent, opened}
use forwarder.Proxy.Config.{Names, Userinfo, ConfigError, ProxyOption, validate_proxy_url}
use forwarder.Proxy.Route.{
  ProxyLocalhostMode, deny_proxy_localhost, allow_proxy_localhost, direct_proxy_localhost,
}

-- The texts of the modes.
pub localhost_mode_text : ProxyLocalhostMode → Bytes
localhost_mode_text deny_proxy_localhost = codes "deny"
localhost_mode_text allow_proxy_localhost = codes "allow"
localhost_mode_text direct_proxy_localhost = codes "direct"

-- `UnmarshalText`
pub unmarshal_text : Bytes → Option ProxyLocalhostMode
unfolding localhost_mode_text
unmarshal_text text =
    if beq text (localhost_mode_text deny_proxy_localhost)
    then some deny_proxy_localhost
    else if beq text (localhost_mode_text allow_proxy_localhost)
    then some allow_proxy_localhost
    else if beq text (localhost_mode_text direct_proxy_localhost)
    then some direct_proxy_localhost
    else none

-- `isValid`
abbrev pub is_valid : Bytes → Bool
is_valid text = elim (unmarshal_text text) [ none ↦ false | some m ↦ true ]

pub data LifeError : Type 0 where
  basic_auth_error : ConfigError → LifeError
  extra_listener_unnamed : LifeError
  unsupported_protocol : LifeError
  unsupported_localhost_mode : LifeError
  upstream_error : ConfigError → LifeError
  upstream_and_pac : LifeError
  mitm_error certificate_error aliases_error listen_error : LifeError

-- The parts of `HTTPProxyConfig` that the construction reads; a MITM configuration has its filter on domains.
pub record ProxyConfig : Type 0 where
  pub basic_auth : Option Userinfo
  pub listener : ListenerConfig
  pub extra_listeners : List ListenerConfig
  pub protocol : Bytes
  pub localhost_mode : Bytes
  pub upstream_proxy : Option ProxyOption
  pub mitm : Bool
  pub mitm_domains : Option (Bytes → Bool)
  pub idle_timeout : ℤ
  pub read_timeout : ℤ
  pub read_header_timeout : ℤ
  pub write_timeout : ℤ

abbrev has_nameless : List ListenerConfig → Bool
has_nameless [] = false
has_nameless (l ∷ ls) = beq l.name [] || has_nameless ls

-- `if err := first; err != nil { return err }`, and then the rest.
abbrev pub or_then : Option LifeError → Option LifeError → Option LifeError
or_then (some e) rest = some e
or_then none rest = rest

abbrev pub with_error : Option ConfigError → (ConfigError → LifeError) → Option LifeError
with_error none wrap = none
with_error (some e) wrap = some (wrap e)

abbrev user_checked : Option Userinfo → Option ConfigError
user_checked none = none
user_checked (some u) = if beq u.username [] then some ConfigError.empty_username else none

abbrev upstream_checked : Names → Option ProxyOption → Option ConfigError
upstream_checked names none = none
upstream_checked names (some u) =
    validate_proxy_url names u.option_scheme u.option_host u.option_user

-- `HTTPProxyConfig.Validate`
pub validate : Names → ProxyConfig → Option LifeError
validate names c = or_then (with_error (user_checked c.basic_auth) basic_auth_error) (
    or_then (if has_nameless c.extra_listeners then some extra_listener_unnamed else none) (
      or_then
        (if not (beq c.protocol (codes "http")) && not (beq c.protocol (codes "https"))
          then some unsupported_protocol
          else none)
        (or_then (if not (is_valid c.localhost_mode) then some unsupported_localhost_mode else none)
          (with_error (upstream_checked names c.upstream_proxy) upstream_error))))

-- `listen`: one listener, or the configured one, which has no name, in front of the further ones.
module _ {E : Type 0} (tcp : ListenerConfig → Option E) where
  abbrev pub listen_one :
      Result (Option E) (List Layer) → Bytes → Result (Option E) (List Bytes) × List ListenEvent
  listen_one (err e) name = (err e, [])
  listen_one (ok layers) name = (ok (name ∷ []), opened name ∷ [])

  abbrev pub listen_proxy :
      ListenerConfig → List ListenerConfig → Result (Option E) (List Bytes) × List ListenEvent
  listen_proxy c [] = listen_one (listen false (tcp c) c) c.name
  listen_proxy c (l ∷ ls) = listen_all tcp (record c { name = [] } ∷ (l ∷ ls))

-- What the construction meets outside.
pub record Surroundings (E : Type 0) : Type 0 where
  pub names : Names
  pub tcp : ListenerConfig → Option E
  pub mitm_loads : Bool
  pub certificate_loads : Bool
  pub aliases : Option (List Bytes)

-- The fields of `HTTPProxy` that the construction sets: what counts as localhost, and the listeners.
pub record Built : Type 0 where
  pub localhost : List Bytes
  pub listeners : List Bytes

abbrev pub first_localhost : List Bytes
first_localhost = codes "localhost" ∷ codes "0.0.0.0" ∷ codes "::" ∷ []

module _ {E : Type 0} (out : Surroundings E) where
  -- `newHTTPProxy`, by whether there is a PAC script; of `configureProxy`, its error.
  pub new_checked : ProxyConfig → Bool → Option LifeError
  unfolding validate
  new_checked c has_pac = or_then (validate out.names c) (
      or_then
        (elim c.upstream_proxy [
          | none ↦ none
          | some u ↦ if has_pac then some upstream_and_pac else none
        ])
        (if c.mitm && not out.mitm_loads then some mitm_error else none))

  abbrev pub listening :
      List Bytes
      → Result (Option E) (List Bytes) × List ListenEvent
      → Result LifeError Built × List ListenEvent
  listening lh (err e, es) = (err listen_error, es)
  listening lh (ok ls, es) =
      (ok (record { localhost = first_localhost ++ map (map lower) lh; listeners = ls }), es)

  abbrev pub with_aliases :
      ProxyConfig → Option (List Bytes) → Result LifeError Built × List ListenEvent
  with_aliases c none = (err aliases_error, [])
  with_aliases c (some lh) = listening lh (listen_proxy out.tcp c.listener c.extra_listeners)

  abbrev pub after_checks :
      ProxyConfig → Option LifeError → Result LifeError Built × List ListenEvent
  after_checks c (some e) = (err e, [])
  after_checks c none =
      if beq c.protocol (codes "https") && not out.certificate_loads
      then (err certificate_error, [])
      else with_aliases c out.aliases

  -- `NewHTTPProxy`
  pub new_http_proxy : ProxyConfig → Bool → Result LifeError Built × List ListenEvent
  unfolding new_checked
  new_http_proxy c has_pac = after_checks c (new_checked c has_pac)

-- What `configureProxy` takes from the rest of the package: the stack of modifiers, the route, the page of an error and the
-- configured function for CONNECT.
pub record Parts : Type 0 where
  pub stack_request : World → Request → Request × Option Failure
  pub stack_response : World → Response → Response × Option Failure
  pub proxy_func : Option (World → Request → Result Failure (Option ProxyUrl))
  pub connect : Option (World → Request → Connected)
  pub error_response : World → Request → Failure → Response

abbrev pub domain_filter : Bool → Option (Bytes → Bool) → Option (Request → Bool)
domain_filter false domains = none
domain_filter true none = none
domain_filter true (some domains) = some (λ req. domains req.hostname)

-- `configureProxy`: the fields of the inner proxy.
pub configure_proxy : Parts → ProxyConfig → Martian.Proxy
configure_proxy parts c = record {
  request_modifier = some parts.stack_request;
  response_modifier = some parts.stack_response;
  proxy_url = parts.proxy_func;
  connect_func = parts.connect;
  error_page = some parts.error_response;
  mitm = c.mitm;
  mitm_filter = domain_filter c.mitm c.mitm_domains;
  allow_http = true;
  without_warning = true;
  testing_skip_round_trip = false;
  idle_time = c.idle_timeout;
  read_time = c.read_timeout;
  read_header_time = c.read_header_timeout;
  write_time = c.write_timeout;
}
