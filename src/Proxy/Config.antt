-- ===== src/Proxy/Config.antt =====
-- config.go and host.go: the values of options. `url.Parse`, `net.ParseIP`, `netip.ParseAddr`, `net.SplitHostPort` and the check
-- of domain names are parameters; `url.Parse` gives the host name and the port.
pub mod HostPortUser
use forwarder.Base.{
  ℕ, zero, suc, ◌<◌, Bool, true, false, not, ◌&&◌, ◌||◌, Option, none, some, List, [], ◌∷◌, ◌++◌,
  Bytes, codes, beq, ltb, cut, has_prefix, drop, occurs, ◌==◌, if◌then◌else◌, Result, ok, err,
  ◌>>=◌,
}
use forwarder.Base.Decimal.{unsigned}
use forwarder.Http.Text.{split_by}
use forwarder.Net.Redirect.{HostPort, HostPortPair}

-- `url.Userinfo`
pub record Userinfo : Type 0 where
  pub username : Bytes
  pub password : Option Bytes

pub data ConfigError : Type 0 where
  expected_username empty_username expected_host_port_user expected_pair : ConfigError
  invalid_host invalid_port bad_url missing_host missing_port missing_user : ConfigError
  two_ats unsupported_scheme unsupported_elements invalid_ip port_required port_zero : ConfigError

abbrev pub user_of : Option (Bytes × Bytes) → Bytes → Userinfo
user_of none val = record { username = val; password = none }
user_of (some (u, p)) val = record { username = u; password = some p }

-- `validatedUserInfo`
abbrev pub validated_user_info :
    Option Userinfo → Result ConfigError Userinfo → Result ConfigError Userinfo
validated_user_info none r = r
validated_user_info (some ui) r = if beq ui.username [] then err empty_username else r

-- `ParseUserinfo`
unfoldable pub parse_userinfo : Bytes → Result ConfigError Userinfo
parse_userinfo val =
    if beq val []
    then err expected_username
    else (let ui = user_of (cut b':' val) val in validated_user_info (some ui) (ok ui))

abbrev pub zero_for_star : List Bytes → List Bytes
zero_for_star [] = []
zero_for_star (s ∷ []) = (if beq s (codes "*") then codes "0" else s) ∷ []
zero_for_star (s ∷ t ∷ ss) = s ∷ zero_for_star (t ∷ ss)

abbrev pub joined : List Bytes → Bytes
joined [] = []
joined (s ∷ []) = s
joined (s ∷ t ∷ ss) = s ++ (b':' ∷ joined (t ∷ ss))

-- `wildcardPortTo0`
unfoldable pub wildcard_port_to_0 : Bytes → Bytes
wildcard_port_to_0 val = joined (zero_for_star (split_by b':' val))

-- `strconv.ParseUint` with 16 bits.
abbrev pub parse_uint16 : Bytes → Option ℕ
parse_uint16 s = elim (unsigned s) [ none ↦ none | some n ↦ if ltb n 65536 then some n else none ]

abbrev is_port : Bytes → Bool
is_port s = elim (parse_uint16 s) [ none ↦ false | some n ↦ true ]

-- What the checks of names and addresses say.
pub record Names : Type 0 where
  pub is_domain_name : Bytes → Bool
  pub is_ip : Bytes → Bool
  pub url_parse : Bytes → Option HostPort
  pub same_url : Bytes → Bytes → Option Bool

-- `url.URL` of `ParseProxyURL`
pub record ProxyOption : Type 0 where
  pub option_scheme : Bytes
  pub option_host : Bytes
  pub option_user : Option Userinfo

-- How often `@` stands in a text.
abbrev ats : Bytes → ℕ
ats [] = 0
ats (c ∷ s) = if c == b'@' then suc (ats s) else ats s

-- `strings.Cut` at `://`
abbrev cut_scheme : Bytes → Option (Bytes × Bytes)
cut_scheme [] = none
cut_scheme (c ∷ s) =
    if has_prefix (c ∷ s) (codes "://")
    then some ([], drop 2 s)
    else elim (cut_scheme s) [ none ↦ none | some (a, b) ↦ some (c ∷ a, b) ]

module _ (names : Names) where
  -- `HostPort.Validate`
  unfoldable pub validate_host_port : HostPort → Option ConfigError
  validate_host_port hp =
      if not (beq hp.host [])
        && not (beq hp.host (codes "*"))
        && not (names.is_domain_name hp.host)
        && not (names.is_ip hp.host)
      then some invalid_host
      else if not (beq hp.port []) && not (is_port hp.port)
      then some invalid_port
      else none

  -- `HostPortUser`
  abbrev pub HostPortUser : Type 0
  HostPortUser = HostPort × Option Userinfo

  abbrev user_checked : Option Userinfo → Option ConfigError
  user_checked none = some missing_user
  user_checked (some ui) = if beq ui.username [] then some empty_username else none

  -- `HostPortUser.Validate`
  unfoldable pub validate_host_port_user : HostPortUser → Option ConfigError
  validate_host_port_user (hp, ui) =
      if beq hp.host []
      then some missing_host
      else if beq hp.port []
      then some missing_port
      else elim (validate_host_port hp) [ some e ↦ some e | none ↦ user_checked ui ]

  -- `strings.LastIndex` of `@` and the cut there.
  abbrev pub cut_last : Bytes → Option (Bytes × Bytes)
  cut_last [] = none
  cut_last (c ∷ s) = elim (cut_last s) [
    | some (a, b) ↦ some (c ∷ a, b)
    | none ↦ if c == b'@' then some ([], s) else none
  ]

  abbrev pub checked_user : HostPortUser → Option ConfigError → Result ConfigError HostPortUser
  checked_user hpu (some e) = err e
  checked_user hpu none = ok hpu

  -- `ParseHostPortUser` after `url.Parse`.
  abbrev pub url_read : Userinfo → Option HostPort → Result ConfigError HostPortUser
  url_read ui none = err bad_url
  url_read ui (some u) = checked_user (u, some ui) (validate_host_port_user (u, some ui))

  abbrev pub url_asked : Bytes → Userinfo → Result ConfigError HostPortUser
  url_asked hp ui =
      url_read ui (names.url_parse (codes "http://" ++ wildcard_port_to_0 (b'@' ∷ hp)))

  -- `ParseHostPortUser` after the cut at the last `@`.
  abbrev pub parts_read : Option (Bytes × Bytes) → Result ConfigError HostPortUser
  parts_read none = err expected_host_port_user
  parts_read (some (up, hp)) = parse_userinfo up >>= (λ ui. url_asked hp ui)

  -- `ParseHostPortUser`
  unfoldable pub parse_host_port_user : Bytes → Result ConfigError HostPortUser
  parse_host_port_user val = parts_read (cut_last val)

  abbrev pub star_for_zero : Bytes → Bytes
  star_for_zero port = if beq port (codes "0") then codes "*" else port

  abbrev pub at_host : HostPort → Bytes
  at_host hp = b'@' ∷ (hp.host ++ (b':' ∷ star_for_zero hp.port))

  abbrev pub shown_user : Option Userinfo → Bytes
  shown_user none = []
  shown_user (some ui) = elim ui.password [
    | none ↦ ui.username
    | some p ↦ ui.username ++ (b':' ∷ p)
  ]

  abbrev redacted_user : Option Userinfo → Bytes
  redacted_user none = []
  redacted_user (some ui) = elim ui.password [
    | none ↦ ui.username
    | some p ↦ ui.username ++ codes ":xxxxx"
  ]

  -- `HostPortUser.String`
  unfoldable pub show_host_port_user : HostPortUser → Bytes
  show_host_port_user (hp, ui) = shown_user ui ++ at_host hp

  -- `RedactHostPortUser`
  unfoldable pub redact_host_port_user : HostPortUser → Bytes
  redact_host_port_user (hp, ui) = redacted_user ui ++ at_host hp

  -- `HostPortPair.Validate`
  abbrev pub validate_pair : HostPortPair → Option ConfigError
  validate_pair p = elim (validate_host_port p.src) [
    | some e ↦ some e
    | none ↦ validate_host_port p.dst
  ]

  -- `HostPortPair.String`
  abbrev pub show_pair : HostPortPair → Bytes
  show_pair p = p.src.host ++ (b':' ∷ (p.src.port ++ (b':' ∷ (p.dst.host ++ (b':' ∷ p.dst.port)))))

  -- The port of a proxy.
  abbrev port_checked : Bytes → Option ConfigError
  port_checked port = if beq port [] then some port_required else elim (parse_uint16 port) [
    | none ↦ some invalid_port
    | some n ↦ if n == 0 then some port_zero else none
  ]

  -- The name of a proxy's host, then its port.
  abbrev host_checked : HostPort → Option ConfigError
  host_checked u =
      if not (names.is_domain_name u.host) && not (names.is_ip u.host)
      then some invalid_ip
      else port_checked u.port

  abbrev elements_checked : Option Bool → Option HostPort → Option ConfigError
  elements_checked none u = some bad_url
  elements_checked (some false) u = some unsupported_elements
  elements_checked (some true) none = some bad_url
  elements_checked (some true) (some u) = host_checked u

  abbrev user_error : Option Userinfo → Option ConfigError
  user_error none = none
  user_error (some ui) = if beq ui.username [] then some empty_username else none

  -- `validateProxyURL`, for a scheme, a host and a user.
  unfoldable pub validate_proxy_url : Bytes → Bytes → Option Userinfo → Option ConfigError
  validate_proxy_url scheme host ui =
      if not
        (beq scheme (codes "http") || beq scheme (codes "https") || beq scheme (codes "socks5"))
      then some unsupported_scheme
      else elim (user_error ui) [
        | some e ↦ some e
        | none ↦
            elements_checked (names.same_url scheme host)
              (names.url_parse (codes "http://" ++ host))
      ]

  abbrev url_checked : Bytes → Bytes → Option Userinfo → Result ConfigError ProxyOption
  url_checked scheme host ui = elim (validate_proxy_url scheme host ui) [
    | some e ↦ err e
    | none ↦ ok (record { option_scheme = scheme; option_host = host; option_user = ui })
  ]

  abbrev with_user : Bytes → Bytes → Option (Bytes × Bytes) → Result ConfigError ProxyOption
  with_user scheme hpu none = url_checked scheme hpu none
  with_user scheme hpu (some (up, hp)) =
      parse_userinfo up >>= (λ ui. url_checked scheme hp (some ui))

  abbrev with_scheme : Bytes → Bytes → Result ConfigError ProxyOption
  with_scheme scheme hpu =
      if ltb 1 (ats hpu) then err two_ats else with_user scheme hpu (cut b'@' hpu)

  -- `ParseProxyURL`
  unfoldable pub parse_proxy_url : Bytes → Result ConfigError ProxyOption
  parse_proxy_url val = elim (cut_scheme val) [
    | none ↦ with_scheme (codes "http") val
    | some (scheme, hpu) ↦ with_scheme scheme hpu
  ]
