-- ===== src/Martian/Proxy.antt =====
-- internal/martian/proxy.go: the configuration of the proxy and the methods that every connection uses. What the network,
-- the clock, the transport and the other packages answer is a function of what has happened on the connection so far.
use forwarder.Base.{
  ℕ, zero, suc, Bool, true, false, not, ◌&&◌, Option, none, some, List, [], ◌∷◌, Bytes, codes, beq,
  ◌==◌, if◌then◌else◌, Result, ok, err,
}
use forwarder.Base.Int.{ℤ, pos, negsuc}
use forwarder.Http.Headers.{Headers, get, or_nil, values, add_header}
use forwarder.Http.Message.{Request, Response}
use forwarder.Martian.Events.{request_modified, response_modified, round_tripped, World, ProxyUrl}
use forwarder.Martian.Failure.{Failure}
use forwarder.Martian.Flush.{is_header_only_spec}

-- A response, whether there is a connection, and an error, each of which may be nil.
pub record Connected : Type 0 where
  pub res : Option Response
  pub conn : Bool
  pub error : Option Failure

pub record Proxy : Type 0 where
  pub request_modifier : Option (World → Request → Request × Option Failure)
  pub response_modifier : Option (World → Response → Response × Option Failure)
  pub proxy_url : Option (World → Request → Result Failure (Option ProxyUrl))
  pub connect_func : Option (World → Request → Connected)
  pub error_page : Option (World → Request → Failure → Response)
  pub mitm : Bool
  pub mitm_filter : Option (Request → Bool)
  pub allow_http : Bool
  pub without_warning : Bool
  pub testing_skip_round_trip : Bool
  pub idle_time : ℤ
  pub read_time : ℤ
  pub read_header_time : ℤ
  pub write_time : ℤ

-- Code outside the repository and the packages that the proxy calls. `accepted_tls` is the handshake of a connection that
-- was accepted by a TLS listener.
pub record Outside : Type 0 where
  pub now : World → ℕ
  pub closing : World → Bool
  pub remote_addr : Bytes
  pub accepted_tls : Option (World → Option Failure)
  pub peek : World → Result Failure ℕ
  pub read_http : World → Result Failure Request
  pub transport : World → Request → Result Failure Response
  pub dial : World → Bytes → Option Failure
  pub dial_http : World → ProxyUrl → Headers → Bytes → Connected
  pub dial_socks : World → ProxyUrl → Bytes → Option Failure
  pub upstream_tls : World → Option Failure
  pub client_tls : World → Request → Result Failure Bytes
  pub h2_session : World → Request → Option Failure
  pub write_error : World → Option Failure
  pub flush_error : World → Option Failure
  pub drain_error : World → Option Failure
  pub can_flush : Bool
  pub copy_error : World → Option Failure
  pub hijack_error : World → Option Failure
  pub body_trailer : World → Response → Headers
  pub contains_token : List Bytes → Bytes → Bool
  pub parse_media_type : Bytes → Bytes
  pub status_text : ℕ → Bytes
  pub warning_text : World → Headers → Failure → Bytes

abbrev pub is_positive : ℤ → Bool
is_positive (pos zero) = false
is_positive (pos (suc n)) = true
is_positive (negsuc n) = false

-- `proxyutil.NewResponse` with http.NoBody
unfoldable pub new_response : (ℕ → Bytes) → ℕ → Request → Response
new_response status code req = record {
  status = status code;
  status_code = code;
  proto_major = req.proto_major;
  proto_minor = req.proto_minor;
  header = [];
  trailer = [];
  body = [];
  writable = false;
  content_length = pos 0;
  close = req.close;
  request = req;
}

-- `idleTimeout`
abbrev pub idle_timeout : Proxy → ℤ
idle_timeout p = if is_positive p.idle_time then p.idle_time else p.read_time

-- `readHeaderTimeout`
abbrev pub read_header_timeout : Proxy → ℤ
read_header_timeout p = if is_positive p.read_header_time then p.read_header_time else p.read_time

-- `shouldMITM`
abbrev pub should_mitm : Proxy → Request → Bool
should_mitm p req = if p.mitm then elim p.mitm_filter [ none ↦ true | some f ↦ f req ] else false

-- `fixRequestScheme`
abbrev scheme_of : Request → Bytes
scheme_of req =
    if beq req.scheme []
    then if beq (get req.header (codes "X-Forwarded-Proto")) []
      then (if req.tls then codes "https" else codes "http")
      else get req.header (codes "X-Forwarded-Proto")
    else req.scheme

abbrev pub fix_request_scheme : Proxy → Request → Request
fix_request_scheme p req = record req {
  scheme =
      if beq (scheme_of req) (codes "http") && req.tls && not p.allow_http
      then codes "https"
      else scheme_of req;
}

module _ (p : Proxy) (out : Outside) where
  -- `modifyRequest`
  unfoldable pub modify_request : World → Request → Option Failure × Request × World
  modify_request w req = elim p.request_modifier [
    | none ↦ (none, req, request_modified req none ∷ w)
    | some m ↦ let (req', e) = m w req in (e, req', request_modified req' e ∷ w)
  ]

  -- `modifyResponse`
  unfoldable pub modify_response : World → Response → Option Failure × Response × World
  modify_response w res = elim p.response_modifier [
    | none ↦ (none, res, response_modified res none ∷ w)
    | some m ↦ let (res', e) = m w res in (e, res', response_modified res' e ∷ w)
  ]

  -- The body of a response that cannot have one is closed, and is http.NoBody then.
  abbrev without_body : Response → Response
  without_body res =
      if is_header_only_spec res && not (res.status_code == 101)
      then record res { body = [] }
      else res

  -- `roundTrip`
  unfoldable pub round_trip : World → Request → Result Failure Response × World
  round_trip w req =
      if p.testing_skip_round_trip
      then (ok (new_response out.status_text 200 req), w)
      else elim (out.transport w req) [
        | err e ↦ (err e, round_tripped req ∷ w)
        | ok res ↦ (ok (without_body res), round_tripped req ∷ w)
      ]

  -- `proxyutil.Warning`, with its text as a parameter.
  abbrev pub warned : World → Failure → Response → Response
  warned w e res = record res {
    header = add_header (codes "Warning") (out.warning_text w res.header e) res.header;
  }

  -- `errorResponse`
  abbrev pub error_response : World → Request → Failure → Response
  error_response w req e =
      let res : Response = elim p.error_page [
        | none ↦ new_response out.status_text 502 req
        | some page ↦ page w req e
      ] in
      if p.without_warning then res else warned w e res

  -- `upgradeType`
  abbrev pub upgrade_type : Headers → Bytes
  upgrade_type h =
      if out.contains_token (or_nil (values h (codes "Connection"))) (codes "Upgrade")
      then get h (codes "Upgrade")
      else []
