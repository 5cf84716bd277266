-- ===== src/Martian/Events.antt =====
-- What a connection of internal/martian does to the world outside, in the order of the calls, and the protocol that
-- the calls are to keep.
use forwarder.Base.{ℕ, Option, none, some, List, [], ◌∷◌, Bytes}
use forwarder.Http.Headers.{Headers}
use forwarder.Http.Message.{Request, Response}
use forwarder.Martian.Failure.{Failure}

-- The branch of `writeResponse` that writes a response.
pub data Way : Type 0 where
  connect_ok header_only event_stream chunked plain : Way

pub record ProxyUrl : Type 0 where
  pub proxy_scheme : Bytes
  pub proxy_host : Bytes

-- The calls; `request_modified` and `response_modified` carry the error of the modifier.
pub data Event : Type 0 where
  read_deadline write_deadline : Option ℕ → Event
  request_read : Request → Event
  request_modified : Request → Option Failure → Event
  response_modified : Response → Option Failure → Event
  round_tripped connect_called : Request → Event
  dialed : Bytes → Event
  proxy_dialed : ProxyUrl → Bytes → Event
  upstream_handshake client_handshake : Event
  wrote : Way → Response → Event
  flushed drained body_closed upstream_closed : Event
  head_written : ℕ → Headers → Event
  body_copied : Way → Event
  hijacked client_closed : Event
  copied : Bytes → Event
  h2_proxied : Request → Event

-- What has happened on a connection, the last call first.
abbrev pub World : Type 0
World = List Event

pub data Phase : Type 0 where
  idle asked refused approved answered broken : Phase

-- A request is read, then the modifier accepts or refuses it, then it goes out, if it was accepted, then it is answered,
-- once, and only then is there a tunnel or another request.
abbrev pub on_request : Phase → Phase
on_request idle = asked
on_request answered = asked
on_request p = broken

abbrev pub on_verdict : Phase → Option Failure → Phase
on_verdict asked none = approved
on_verdict asked (some e) = refused
on_verdict p e = broken

abbrev pub on_upstream : Phase → Phase
on_upstream approved = approved
on_upstream p = broken

abbrev pub on_answer : Phase → Phase
on_answer approved = answered
on_answer refused = answered
on_answer p = broken

abbrev pub on_tunnel : Phase → Phase
on_tunnel answered = answered
on_tunnel p = broken

abbrev pub advance : Event → Phase → Phase
advance (request_read r) p = on_request p
advance (request_modified r e) p = on_verdict p e
advance (round_tripped r) p = on_upstream p
advance (connect_called r) p = on_upstream p
advance (dialed h) p = on_upstream p
advance (proxy_dialed u h) p = on_upstream p
advance (wrote way res) p = on_answer p
advance (head_written code h) p = on_answer p
advance (body_copied way) p = on_tunnel p
advance (copied name) p = on_tunnel p
advance (h2_proxied r) p = on_tunnel p
advance e p = p

abbrev pub phase : World → Phase
phase [] = idle
phase (e ∷ w) = advance e (phase w)
