-- ===== src/Proxy/Pac.antt =====
-- pac/proxy.go; `net.SplitHostPort` is a parameter.
pub mod First
use forwarder.Base.{
  Bool, true, false, Option, none, some, List, [], ◌∷◌, Bytes, codes, beq, cut, map, Result, ok,
  err, ◌>>=◌, if◌then◌else◌,
}
use forwarder.Http.Text.{trim_space, split_by, lower}

pub data Mode : Type 0 where
  direct : Mode
  proxy : Mode
  http : Mode
  https : Mode
  socks : Mode
  socks4 : Mode
  socks5 : Mode

pub record Proxy : Type 0 where
  pub mode : Mode
  pub host : Bytes
  pub port : Bytes

pub data PacError : Type 0 where
  missing_host_port : Bytes → PacError
  bad_host_port : Bytes → PacError

abbrev pub no_proxy : Proxy
no_proxy = record { mode = direct; host = []; port = [] }

-- `parseMode`
unfoldable pub parse_mode : Bytes → Mode
parse_mode s =
    if beq s (codes "DIRECT")
    then direct
    else if beq s (codes "PROXY")
    then proxy
    else if beq s (codes "HTTP")
    then http
    else if beq s (codes "HTTPS")
    then https
    else if beq s (codes "SOCKS")
    then socks
    else if beq s (codes "SOCKS4")
    then socks4
    else if beq s (codes "SOCKS5")
    then socks5
    else direct

-- `strings.ToLower(m.String())`
abbrev pub scheme_of : Mode → Bytes
scheme_of direct = codes "direct"
scheme_of proxy = codes "proxy"
scheme_of http = codes "http"
scheme_of https = codes "https"
scheme_of socks = codes "socks"
scheme_of socks4 = codes "socks4"
scheme_of socks5 = codes "socks5"

-- `URL`: the scheme with the host and the port, and nothing for DIRECT.
abbrev pub url_of : Proxy → Option (Bytes × Bytes × Bytes)
url_of p = elim p.mode [
  | direct ↦ none
  | proxy ↦ some (scheme_of http, p.host, p.port)
  | http ↦ some (scheme_of http, p.host, p.port)
  | https ↦ some (scheme_of https, p.host, p.port)
  | socks ↦ some (scheme_of socks, p.host, p.port)
  | socks4 ↦ some (scheme_of socks4, p.host, p.port)
  | socks5 ↦ some (scheme_of socks5, p.host, p.port)
]

module _ (split_host_port : Bytes → Option (Bytes × Bytes)) where
  -- `parseProxy` behind the blanks.
  abbrev pub parse_trimmed : Bytes → Result PacError Proxy
  parse_trimmed s =
      if beq s []
      then ok no_proxy
      else if beq s (codes "DIRECT")
      then ok no_proxy
      else elim (cut b' ' s) [
        | none ↦ err (missing_host_port s)
        | some (mode, hostport) ↦ elim (split_host_port hostport) [
          | none ↦ err (bad_host_port hostport)
          | some (host, port) ↦ ok (record { mode = parse_mode mode; host = host; port = port })
        ]
      ]

  -- `parseProxy`
  unfoldable pub parse_proxy : Bytes → Result PacError Proxy
  parse_proxy s = parse_trimmed (trim_space s)

  -- What `strings.Cut` puts first.
  abbrev pub before_cut : Bytes → Bytes
  before_cut s = elim (cut b';' s) [ none ↦ s | some (a, b) ↦ a ]

  -- `First`
  unfoldable pub first_proxy : Bytes → Result PacError Proxy
  first_proxy [] = ok no_proxy
  first_proxy (c ∷ s) = parse_proxy (before_cut (c ∷ s))

  abbrev pub parse_each : List Bytes → Result PacError (List Proxy)
  parse_each [] = ok []
  parse_each (v ∷ vs) = parse_proxy v >>= λ p. parse_each vs >>= λ ps. ok (p ∷ ps)

  -- `All`
  unfoldable pub all_proxies : Bytes → Result PacError (List Proxy)
  all_proxies [] = ok []
  all_proxies (c ∷ s) = parse_each (split_by b';' (c ∷ s))
