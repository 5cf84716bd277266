-- ===== src/Martian/Conn/Handle.antt =====
-- internal/martian/proxy_conn.go: the handling of a request. A handler that goes on with the next request on the
-- connection by a call of `handle` in its last line returns `again`.
use forwarder.Base.{
  Bool, true, false, ◌||◌, Option, none, some, [], ◌∷◌, Bytes, codes, beq, ◌==◌, if◌then◌else◌,
  Result, ok, err,
}
use forwarder.Http.Headers.{Headers, set_header, del}
use forwarder.Http.Message.{Request, Response}
use forwarder.Martian.Conn.Read.{Conn, read_request}
use forwarder.Martian.Conn.Write.{
  write_response, write_error_response, tunnel, handle_upgrade_response,
}
use forwarder.Martian.Connect.{
  should_terminate_tls, terminate_tls_header, new_connect_response, connect_request,
}
use forwarder.Martian.Events.{
  request_read, client_handshake, h2_proxied, body_closed, upstream_closed, World,
}
use forwarder.Martian.Failure.{Failure, err_close}
use forwarder.Martian.Proxy.{
  Proxy, Outside, Connected, modify_request, modify_response, error_response, round_trip,
  fix_request_scheme, should_mitm, upgrade_type,
}

-- How a handler ends: it returns, it goes on with the next request, or it panics at a nil response.
pub data Next : Type 0 where
  returned : Option Failure → Next
  again : Next
  crashed : Next

abbrev pub returns : Option Failure × World → Next × World
returns (e, w) = (returned e, w)

module _ (p : Proxy) (out : Outside) where
  -- The handshake of `handleMITM` and what follows.
  abbrev pub mitm_handshake : World → Request → Next × Bool × World
  mitm_handshake w req =
      let w' = client_handshake ∷ w in
      elim (out.client_tls w' req) [
        | err e ↦ (returned (some err_close), false, w')
        | ok protocol ↦
            if beq protocol (codes "h2")
            then (returned (out.h2_session w' req), false, h2_proxied req ∷ w')
            else (again, true, w')
      ]

  -- `handleMITM` after the response: 22 is the first byte of a TLS handshake. The flag tells whether the connection is secure from now
  -- on.
  abbrev pub mitm_peeked : World → Request → Next × Bool × World
  mitm_peeked w req = elim (out.peek w) [
    | err e ↦ (returned (some err_close), false, w)
    | ok b ↦ elim (out.drain_error w) [
      | some e ↦ (returned (some err_close), false, w)
      | none ↦ if b == 22 then mitm_handshake w req else (again, false, w)
    ]
  ]

  -- The response modifier accepted the response of `handleMITM`.
  abbrev pub mitm_answered : Request → Option Failure × World → Next × Bool × World
  mitm_answered req (some e, w) = (returned (some e), false, w)
  mitm_answered req (none, w) = mitm_peeked w req

  abbrev pub mitm_verdict : Request → Option Failure × Response × World → Next × Bool × World
  mitm_verdict req (some e, res, w) =
      let (e', w') = write_response p out w (error_response p out w req e) in
      (returned e', false, w')
  mitm_verdict req (none, res, w) = mitm_answered req (write_response p out w res)

  -- `handleMITM`
  unfoldable pub handle_mitm : World → Request → Next × Bool × World
  handle_mitm w req = mitm_verdict req (modify_response p out w (new_connect_response req))

  -- `handleConnectRequest` once the response modifier has seen the response.
  abbrev pub connect_verdict : Request → Option Failure × Response × World → Next × World
  connect_verdict req (some e, res, w) = returns (write_error_response p out w req e)
  connect_verdict req (none, res, w) =
      if res.status_code == 200
      then (returned (some err_close), (tunnel p out (codes "CONNECT") w res).1)
      else returns (write_response p out w res)

  -- `handleConnectRequest` after `Connect`, which returned an error and a response.
  abbrev pub after_connect : Request → Option Failure → Option Response → World → Next × World
  after_connect req (some e) res w = returns (write_error_response p out w req e)
  after_connect req none none w = (crashed, w)
  after_connect req none (some res) w = connect_verdict req (modify_response p out w res)

  -- The deferred calls of `Close`, the last one first.
  abbrev pub close_all : Connected → World → World
  close_all c w =
      let w' : World = if c.conn then upstream_closed ∷ w else w in
      elim c.res [ none ↦ w' | some res ↦ body_closed ∷ w' ]

  abbrev pub connect_tunnel : World → Request → Bool → Next × World
  connect_tunnel w req terminate =
      let (c, w') = connect_request p out w req terminate in
      let (next, w'') = after_connect req c.error c.res w' in (next, close_all c w'')

  abbrev pub insecure : Next × World → Next × Bool × World
  insecure (next, w) = (next, false, w)

  -- `handleConnectRequest` once the request modifier has seen the request.
  abbrev pub connect_modified : Bool → Option Failure × Request × World → Next × Bool × World
  connect_modified terminate (some e, req, w) =
      insecure (returns (write_error_response p out w req e))
  connect_modified terminate (none, req, w) =
      if should_mitm p req then handle_mitm w req else insecure (connect_tunnel w req terminate)

  -- `handleConnectRequest`
  unfoldable pub handle_connect_request : World → Request → Next × Bool × World
  handle_connect_request w req =
      connect_modified (should_terminate_tls req)
        (modify_request p out w (record req { header = del terminate_tls_header req.header }))

  -- The headers of an upgrade, which the modifiers strip.
  abbrev pub upgraded : Bytes → Headers → Headers
  upgraded kind h =
      if beq kind []
      then h
      else set_header (codes "Upgrade") kind (set_header (codes "Connection") (codes "Upgrade") h)

  -- `handle` once the response modifier has seen the response.
  abbrev pub response_verdict :
      Request → Bytes → Option Failure × Response × World → Option Failure × World
  response_verdict req kind (some e, res, w) = write_error_response p out w req e
  response_verdict req kind (none, res, w) =
      let res' : Response = record res { header = upgraded kind res.header } in
      if res.status_code == 101
      then handle_upgrade_response p out w res'
      else write_response p out w res'

  abbrev pub body_closes : Option Failure × World → Option Failure × World
  body_closes (e, w) = (e, body_closed ∷ w)

  -- `handle` after the round trip.
  abbrev pub after_round_trip : Request → Result Failure Response × World → Option Failure × World
  after_round_trip req (err e, w) = write_error_response p out w req e
  after_round_trip req (ok res, w) = body_closes (
      response_verdict req (upgrade_type p out res.header)
        (modify_response p out w (record res { request = req })))

  -- `handle` once the request modifier has seen the request.
  abbrev pub request_verdict : Bytes → Option Failure × Request × World → Option Failure × World
  request_verdict kind (some e, req, w) = write_error_response p out w req e
  request_verdict kind (none, req, w) =
      let req' : Request = record req { header = upgraded kind req.header } in
      after_round_trip req' (round_trip p out w req')

  -- A request that is not for a tunnel.
  unfoldable pub handle_plain_request : World → Request → Option Failure × World
  handle_plain_request w req =
      request_verdict (upgrade_type p out req.header)
        (modify_request p out w (fix_request_scheme p req))

  abbrev pub addressed : Request → Request
  addressed req = record req {
    remote_addr = out.remote_addr;
    url_host = if beq req.url_host [] then req.host else req.url_host;
  }

  -- The part of `handle` after a request has been read.
  unfoldable pub handle_request : World → Request → Next × Bool × World
  handle_request w req =
      if out.closing w
      then (returned (some err_close), false, w)
      else if beq req.method (codes "CONNECT")
      then handle_connect_request w (addressed req)
      else insecure (returns (handle_plain_request w (addressed req)))

  -- `handle` after `readRequest`.
  abbrev pub after_read : Conn → Result Failure Request × World → Next × Conn
  after_read c (err e, w) = (returned (some err_close), record c { world = w })
  after_read c (ok req, w) =
      let (next, secured, w') = handle_request (request_read req ∷ w) req in
      (next, record { secure = c.secure || secured; world = w' })

  -- `handle`
  unfoldable pub handle : Conn → Next × Conn
  handle c = after_read c (read_request p out c.secure c.world)
