-- ===== src/Martian/Connect.antt =====
-- internal/martian/proxy_connect.go: what a CONNECT request leads to. The dialers of dialvia and the handshakes are
-- parameters; what they did is not listed but that they were called.
use forwarder.Base.{
  ℕ, ◌/◌, Bool, true, false, ◌&&◌, ◌||◌, Option, none, some, [], ◌∷◌, ◌++◌, Bytes, codes, beq, ◌==◌,
  if◌then◌else◌, Result, ok, err, length,
}
use forwarder.Base.Int.{pos, negsuc}
use forwarder.Http.Headers.{get}
use forwarder.Http.Message.{Request, Response}
use forwarder.Martian.Events.{
  connect_called, dialed, proxy_dialed, upstream_handshake, World, ProxyUrl,
}
use forwarder.Martian.Failure.{Failure, other_cause, connect_error, any_cause, is_fallback}
use forwarder.Martian.Proxy.{Connected, Proxy, Outside, is_positive, new_response}

-- `fixConnectReqContentLength`
abbrev pub fix_connect_req_content_length : Request → Request
fix_connect_req_content_length req =
    if beq req.method (codes "CONNECT") then record req { content_length = negsuc 0 } else req

-- `terminateTLSHeader`
abbrev pub terminate_tls_header : Bytes
terminate_tls_header = codes "X-Martian-Terminate-Tls"

-- `strconv.ParseBool`, false for what it does not read.
abbrev parse_bool : Bytes → Bool
parse_bool s =
    beq s (codes "1")
    || beq s (codes "t")
    || beq s (codes "T")
    || beq s (codes "true")
    || beq s (codes "TRUE")
    || beq s (codes "True")

-- `shouldTerminateTLS`
abbrev pub should_terminate_tls : Request → Bool
should_terminate_tls req = parse_bool (get req.header terminate_tls_header)

-- `newConnectResponse`
unfoldable pub new_connect_response : Request → Response
new_connect_response req = record {
  status = codes "200 OK";
  status_code = 200;
  proto_major = req.proto_major;
  proto_minor = req.proto_minor;
  header = [];
  trailer = [];
  body = [];
  writable = false;
  content_length = negsuc 0;
  close = false;
  request = req;
}

-- `OnProxyConnectResponse`, where `body` is what was read of the body, none if the reading failed.
unfoldable pub on_proxy_connect_response :
    (ℕ → Bytes) → Request → Response → Option Bytes → Option Failure
on_proxy_connect_response status req connect_res body =
    if connect_res.status_code / 100 == 2
    then none
    else let read : Bytes =
        if is_positive connect_res.content_length
        then elim body [ none ↦ [] | some b ↦ b ]
        else [] in
      let res : Response = record (new_response status connect_res.status_code req) {
        header = connect_res.header;
        body = read;
        content_length = pos (length read);
      } in
      some (record {
        text = codes "proxy connect error: " ++ res.status;
        chain = connect_error res ∷ [];
      })

abbrev failed : Failure → Connected
failed e = record { res = none; conn = false; error = some e }

-- The end of `connectSOCKS5`, and of `connect` without a proxy.
abbrev pub dial_result : Request → Option Failure → Connected
dial_result req (some e) = failed e
dial_result req none = record { res = some (new_connect_response req); conn = true; error = none }

-- The end of `connectHTTP`.
abbrev pub proxy_answer : Request → Connected → Connected
proxy_answer req c = elim c.res [
  | none ↦ c
  | some res ↦
      if res.status_code / 100 == 2
      then record { res = some (new_connect_response req); conn = c.conn; error = none }
      else record c { res = some (record res { request = req }) }
]

module _ (p : Proxy) (out : Outside) where
  -- The `switch` of `connect`, with `connectHTTP` and `connectSOCKS5`.
  unfoldable pub connect_by_proxy : World → Request → ProxyUrl → Connected × World
  connect_by_proxy w req u =
      if beq u.proxy_scheme (codes "http") || beq u.proxy_scheme (codes "https")
      then (
        proxy_answer req (out.dial_http w u req.header req.url_host),
        proxy_dialed u req.url_host ∷ w,
      )
      else if beq u.proxy_scheme (codes "socks5")
      then (dial_result req (out.dial_socks w u req.url_host), proxy_dialed u req.url_host ∷ w)
      else (
        failed (record {
          text = codes "unsupported proxy scheme: " ++ u.proxy_scheme;
          chain = other_cause ∷ [];
        }),
        w,
      )

  abbrev pub asked_proxy : World → Request → Result Failure (Option ProxyUrl)
  asked_proxy w req = elim p.proxy_url [ none ↦ ok none | some f ↦ f w req ]

  -- `connect`
  unfoldable pub connect : World → Request → Connected × World
  connect w req = elim (asked_proxy w req) [
    | err e ↦ (failed e, w)
    | ok (some u) ↦ connect_by_proxy w req u
    | ok none ↦ (dial_result req (out.dial w req.url_host), dialed req.url_host ∷ w)
  ]

  -- The handshake that is asked for by the header.
  unfoldable pub terminated : Bool → Connected × World → Connected × World
  terminated terminate (c, w) =
      if c.conn && terminate
      then elim (out.upstream_tls w) [
        | none ↦ (c, upstream_handshake ∷ w)
        | some e ↦ (record c { error = some e }, upstream_handshake ∷ w)
      ]
      else (c, w)

  abbrev falls_back : Connected → Bool
  falls_back c = elim c.error [ none ↦ false | some e ↦ any_cause is_fallback e.chain ]

  -- The connection of `ConnectFunc` is kept when `connect` has none.
  abbrev with_conn : Bool → Connected × World → Connected × World
  with_conn kept (c, w) = (record c { conn = c.conn || kept }, w)

  -- `Connect`
  unfoldable pub connect_request : World → Request → Bool → Connected × World
  connect_request w req terminate = elim p.connect_func [
    | none ↦ terminated terminate (connect w req)
    | some f ↦
        let c = f w req in
        if falls_back c
        then with_conn c.conn (terminated terminate (connect (connect_called req ∷ w) req))
        else (c, connect_called req ∷ w)
  ]
