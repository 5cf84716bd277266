-- ===== src/Martian/Handler.antt =====
-- internal/martian/proxy_handler.go: the proxy as an http.Handler. A response writer is the headers that were set on it, and
-- what has happened, as on a connection. Request bodies are not listed.
pub mod Conforms
use forwarder.Base.{
  ℕ, zero, suc, Bool, true, false, Option, none, some, List, [], ◌∷◌, ◌++◌, Bytes, codes, beq,
  length, map, ltb, ◌==◌, if◌then◌else◌, Result, ok, err,
}
use forwarder.Http.Headers.{Headers, add_header, set_header, del}
use forwarder.Http.Message.{Request, Response}
use forwarder.Martian.Conn.Handle.{upgraded, close_all}
use forwarder.Martian.Conn.Write.{write_response, chosen_response, with_warning, run_tunnel}
use forwarder.Martian.Connect.{
  should_terminate_tls, terminate_tls_header, fix_connect_req_content_length, connect_request,
}
use forwarder.Martian.Events.{
  Event, World, Way, event_stream, chunked, plain, head_written, body_copied, hijacked,
  client_closed, flushed, copied, body_closed, request_read,
}
use forwarder.Martian.Failure.{Failure, Cause, other_cause}
use forwarder.Martian.Flush.{is_text_event_stream, should_chunk}
use forwarder.Martian.Proxy.{
  Proxy, Outside, Connected, modify_request, modify_response, round_trip, fix_request_scheme,
  upgrade_type,
}

-- `http.ResponseWriter`
pub record Writer : Type 0 where
  pub fields : Headers
  pub world : World

-- How the handler ends: it returns, it panics with http.ErrAbortHandler, or it panics at a nil response.
pub data Served : Type 0 where
  done aborted nil_response : Served

-- The request as `ServeHTTP` passes it on.
abbrev pub arrived : Request → Request
arrived req = fix_connect_req_content_length (record req { close = false })

abbrev pub new_writer : Request → Writer
new_writer req = record { fields = []; world = request_read req ∷ [] }

abbrev pub add_values : Bytes → List Bytes → Headers → Headers
add_values k [] h = h
add_values k (v ∷ vs) h = add_values k vs (add_header k v h)

-- `copyHeader`
unfoldable pub copy_header : Headers → Headers → Headers
copy_header dst [] = dst
copy_header dst ((k, vs) ∷ src) = copy_header (add_values k vs dst) src

abbrev joined_keys : List Bytes → Bytes
joined_keys [] = []
joined_keys (k ∷ []) = k
joined_keys (k ∷ k' ∷ ks) = k ++ (codes ", " ++ joined_keys (k' ∷ ks))

-- `addTrailerHeader`, for the headers of the writer.
unfoldable pub add_trailer_header : Headers → Headers → Headers
add_trailer_header h [] = h
add_trailer_header h (t ∷ ts) =
    add_header (codes "Trailer") (joined_keys (map (λ f. f.0) (t ∷ ts))) h

-- Trailers that were not announced.
abbrev with_prefix : Headers → Headers → Headers
with_prefix h [] = h
with_prefix h ((k, vs) ∷ ts) = with_prefix (add_values (codes "Trailer:" ++ k) vs h) ts

abbrev pub body_way : (Bytes → Bytes) → Response → Way
body_way media res =
    if is_text_event_stream media res
    then event_stream
    else if should_chunk res
    then chunked
    else plain

module _ (p : Proxy) (out : Outside) where
  -- `copyBody`
  unfoldable pub copy_body : World → Response → Option Failure × World
  copy_body w res =
      if beq res.body []
      then (none, w)
      else (out.copy_error w, body_copied (body_way out.parse_media_type res) ∷ w)

  -- The headers after the body was copied: the trailers as announced, or with a prefix.
  abbrev with_trailers : Headers → ℕ → Headers → Headers
  with_trailers h announced trailer =
      if length trailer == announced then copy_header h trailer else with_prefix h trailer

  -- `writeResponse` after the body was copied or could not be.
  abbrev pub body_written : Response → Headers → Option Failure × World → Served × Writer
  body_written res h (some e, w) = (aborted, record { fields = h; world = w })
  body_written res h (none, w) = (
    done,
    record {
      fields = with_trailers h (length res.trailer) (out.body_trailer w res);
      world = body_closed ∷ w;
    },
  )

  -- `writeResponse`
  unfoldable pub answer : Writer → Response → Served × Writer
  answer writer res =
      let h = add_trailer_header (copy_header writer.fields res.header) res.trailer in
      let w : World = head_written res.status_code h ∷ writer.world in
      let w' : World = if out.can_flush then flushed ∷ w else w in
      body_written res h (copy_body w' res)

  -- `writeErrorResponse`
  unfoldable pub answer_error : Writer → Request → Failure → Served × Writer
  answer_error writer req e =
      let (e', res, w) =
        modify_response p out writer.world (chosen_response p out writer.world req e) in
      answer (record writer { world = w }) (with_warning p out w e' res)

  -- The case of `tunnel` for HTTP/1, after the connection was taken over, with its deferred `Close`.
  abbrev pub written_tunnel : Bytes → Option Failure × World → Option Failure × World
  written_tunnel name (some e, w) = (some e, w)
  written_tunnel name (none, w) = run_tunnel p out name w

  abbrev pub client_closes : Option Failure × World → Option Failure × World
  client_closes (e, w) = (e, client_closed ∷ w)

  unfoldable pub tunnel_1 : Bytes → World → Response → Option Failure → Option Failure × World
  tunnel_1 name w res (some e) = (some e, w)
  tunnel_1 name w res none =
      client_closes (written_tunnel name (write_response p out (hijacked ∷ w) res))

  -- The case of `tunnel` for HTTP/2, after the flush.
  unfoldable pub tunnel_2 : Bytes → World → Option Failure → Option Failure × World
  tunnel_2 name w (some e) = (some e, flushed ∷ w)
  tunnel_2 name w none = (none, copied name ∷ (flushed ∷ w))

  -- `tunnel`
  unfoldable pub handler_tunnel : Bytes → Writer → Request → Response → Option Failure × World
  handler_tunnel name writer req res =
      if req.proto_major == 1
      then tunnel_1 name writer.world res (out.hijack_error writer.world)
      else if req.proto_major == 2
      then (let w : World =
            head_written res.status_code (copy_header writer.fields res.header) ∷ writer.world in
          tunnel_2 name w (out.flush_error w))
      else (
        some (record { text = codes "unsupported protocol version"; chain = other_cause ∷ [] }),
        writer.world,
      )

  -- A tunnel that failed aborts the handler.
  abbrev pub tunnel_ends : Headers → Option Failure × World → Served × Writer
  tunnel_ends h (some e, w) = (aborted, record { fields = h; world = w })
  tunnel_ends h (none, w) = (done, record { fields = h; world = w })

  -- `handleUpgradeResponse`
  unfoldable pub upgrade : Writer → Request → Response → Served × Writer
  upgrade writer req res =
      if res.writable
      then tunnel_ends writer.fields
          (handler_tunnel (upgrade_type p out res.header) writer req (record res { body = [] }))
      else (aborted, writer)

  -- `handleConnectRequest` once the response modifier has seen the response.
  abbrev pub handler_connected :
      Writer → Request → Option Failure × Response × World → Served × Writer
  handler_connected writer req (some e, res, w) = answer_error (record writer { world = w }) req e
  handler_connected writer req (none, res, w) =
      let writer' : Writer = record writer { world = w } in
      if res.status_code == 200
      then tunnel_ends writer.fields (handler_tunnel (codes "CONNECT") writer' req res)
      else answer writer' res

  -- `handleConnectRequest` after `Connect`.
  abbrev pub handler_after_connect :
      Writer → Request → Option Failure → Option Response → World → Served × Writer
  handler_after_connect writer req (some e) res w = answer_error (record writer { world = w }) req e
  handler_after_connect writer req none none w = (nil_response, record writer { world = w })
  handler_after_connect writer req none (some res) w =
      handler_connected writer req (modify_response p out w res)

  -- The deferred calls of `Close`.
  abbrev pub closing_all : Connected → Served × Writer → Served × Writer
  closing_all c (served, writer) =
      (served, record writer { world = close_all p out c writer.world })

  abbrev pub handler_connect : Bool → Writer → Option Failure × Request × World → Served × Writer
  handler_connect terminate writer (some e, req, w) =
      answer_error (record writer { world = w }) req e
  handler_connect terminate writer (none, req, w) =
      let (c, w') = connect_request p out w req terminate in
      closing_all c (handler_after_connect writer req c.error c.res w')

  -- `handleConnectRequest`
  unfoldable pub serve_connect : Writer → Request → Served × Writer
  serve_connect writer req = handler_connect (should_terminate_tls req) writer (
      modify_request p out writer.world
        (record req { header = del terminate_tls_header req.header }))

  -- `handleRequest` once the response modifier has seen the response.
  abbrev pub handler_response :
      Writer → Request → Bytes → Option Failure × Response × World → Served × Writer
  handler_response writer req kind (some e, res, w) =
      answer_error (record writer { world = w }) req e
  handler_response writer req kind (none, res, w) =
      let res' : Response = record res { header = upgraded p out kind res.header } in
      let writer' : Writer = record writer { world = w } in
      if res.status_code == 101 then upgrade writer' req res' else answer writer' res'

  abbrev pub response_closed : Served × Writer → Served × Writer
  response_closed (served, writer) = (served, record writer { world = body_closed ∷ writer.world })

  -- `handleRequest` after the round trip.
  abbrev pub handler_round_trip :
      Writer → Request → Result Failure Response × World → Served × Writer
  handler_round_trip writer req (err e, w) = answer_error (record writer { world = w }) req e
  handler_round_trip writer req (ok res, w) = response_closed (
      handler_response writer req (upgrade_type p out res.header)
        (modify_response p out w (record res { request = req })))

  -- `handleRequest` once the request modifier has seen the request.
  abbrev pub handler_request : Bytes → Writer → Option Failure × Request × World → Served × Writer
  handler_request kind writer (some e, req, w) = answer_error (record writer { world = w }) req e
  handler_request kind writer (none, req, w) =
      let req' : Request = record req { header = upgraded p out kind req.header } in
      handler_round_trip writer req' (round_trip p out w req')

  -- `handleRequest` for a request that is not for a tunnel: it becomes one of HTTP/1.1.
  unfoldable pub serve_plain : Writer → Request → Served × Writer
  serve_plain writer req =
      let req' : Request = record req { proto_major = 1; proto_minor = 1 } in
      handler_request (upgrade_type p out req.header) writer
        (modify_request p out writer.world (fix_request_scheme p req'))

  -- `ServeHTTP`, with `handleRequest`.
  unfoldable pub serve_http : Request → Served × Writer
  serve_http req =
      if beq (arrived req).method (codes "CONNECT")
      then serve_connect (new_writer (arrived req)) (arrived req)
      else serve_plain (new_writer (arrived req)) (arrived req)
