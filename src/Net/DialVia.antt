-- ===== src/Net/DialVia.antt =====
-- dialvia/http.go: a connection through an HTTP proxy. The dialer, the writer, the reader of the response and base64 are
-- parameters; what the dialer does with its connection is listed in order.
pub mod Closed
use forwarder.Base.{
  ℕ, ◌/◌, Bool, true, false, not, ◌||◌, Option, none, some, List, [], ◌∷◌, ◌++◌, Bytes, codes, beq,
  ◌==◌, if◌then◌else◌,
}
use forwarder.Http.Headers.{Headers, add_header, put}
use forwarder.Http.Message.{Response}
use forwarder.Proxy.Config.{Userinfo}

-- `HTTPProxyDialer`
pub record HttpProxyDialer : Type 0 where
  pub via_scheme : Bytes
  pub via_host : Bytes
  pub via_user : Option Userinfo
  pub proxy_connect_header : Headers

pub data ViaEvent : Type 0 where
  connected : Bytes → ViaEvent
  tls_client : ViaEvent
  sent : Bytes → Headers → ViaEvent
  closed : ViaEvent
  body_closed : ViaEvent

-- What comes first: the end of the context, an error of the reader, or the response.
pub data Arrival (E : Type 0) : Type 0 where
  context_done : E → Arrival E
  unreadable : E → Arrival E
  arrived : Response → Arrival E

-- A response, whether there is a connection, and the error, none of an unsupported network or a refused tunnel for none.
pub data Via (E : Type 0) : Type 0 where
  through : Response → Via E
  failed : E → Via E
  unsupported_network : Via E

-- A connection, or an error.
pub data ViaConn (E : Type 0) : Type 0 where
  tunnel : ViaConn E
  no_tunnel : E → ViaConn E
  refused : Response → ViaConn E
  wrong_network : ViaConn E

abbrev proxy_authorization : (Bytes → Bytes) → Option Userinfo → Headers → Headers
proxy_authorization base64 none h = h
proxy_authorization base64 (some u) h =
    let password : Bytes = elim u.password [ none ↦ [] | some p ↦ p ] in
    add_header (codes "Proxy-Authorization")
      (codes "Basic " ++ base64 (u.username ++ (b':' ∷ password))) h

-- `maps.Copy`
abbrev copy_into : Headers → Headers → Headers
copy_into h [] = h
copy_into h ((k, vs) ∷ src) = copy_into (put k vs h) src

-- The headers of the CONNECT request.
unfoldable pub connect_header : (Bytes → Bytes) → HttpProxyDialer → Headers
connect_header base64 d =
    copy_into (proxy_authorization base64 d.via_user (add_header (codes "User-Agent") [] []))
      d.proxy_connect_header

abbrev pub connection : HttpProxyDialer → Bytes → Headers → List ViaEvent
connection d addr h =
    connected d.via_host
    ∷ ((if beq d.via_scheme (codes "https") then tls_client ∷ [] else []) ++ (sent addr h ∷ []))

module _ {E : Type 0} where
  -- The `select` at the end of `DialContextR`.
  abbrev pub selected : Arrival E → Via E × List ViaEvent
  selected (context_done e) = (failed e, closed ∷ [])
  selected (unreadable e) = (failed e, closed ∷ [])
  selected (arrived res) = (through res, [])

  -- After the request was written and flushed.
  abbrev pub after_send : Option E → Option E → Arrival E → Via E × List ViaEvent
  after_send (some e) flush arrival = (failed e, closed ∷ [])
  after_send none (some e) arrival = (failed e, closed ∷ [])
  after_send none none arrival = selected arrival

  abbrev pub put_before : List ViaEvent → Via E × List ViaEvent → Via E × List ViaEvent
  put_before es (v, fs) = (v, es ++ fs)

  -- After the dialing.
  abbrev pub after_dial :
      HttpProxyDialer
      → Bytes
      → Headers
      → Option E
      → Option E
      → Option E
      → Arrival E
      → Via E × List ViaEvent
  after_dial d addr h (some e) write flush arrival = (failed e, [])
  after_dial d addr h none write flush arrival =
      put_before (connection d addr h) (after_send write flush arrival)

  -- `DialContextR`: the errors of the dialing, the writing and the flushing, and what arrives.
  unfoldable pub dial_context_r :
      (Bytes → Bytes)
      → HttpProxyDialer
      → Bytes
      → Bytes
      → Option E
      → Option E
      → Option E
      → Arrival E
      → Via E × List ViaEvent
  dial_context_r base64 d network addr dial write flush arrival =
      if beq network (codes "tcp") || beq network (codes "tcp4") || beq network (codes "tcp6")
      then after_dial d addr (connect_header base64 d) dial write flush arrival
      else (unsupported_network, [])

  -- `DialContext` after `DialContextR`.
  abbrev pub via_conn : Via E × List ViaEvent → ViaConn E × List ViaEvent
  via_conn (failed e, es) = (no_tunnel e, es)
  via_conn (unsupported_network, es) = (wrong_network, es)
  via_conn (through res, es) =
      if res.status_code / 100 == 2
      then (tunnel, es ++ (body_closed ∷ []))
      else (refused res, es ++ (closed ∷ (body_closed ∷ [])))

  -- `DialContext`
  unfoldable pub dial_context :
      (Bytes → Bytes)
      → HttpProxyDialer
      → Bytes
      → Bytes
      → Option E
      → Option E
      → Option E
      → Arrival E
      → ViaConn E × List ViaEvent
  dial_context base64 d network addr dial write flush arrival =
      via_conn (dial_context_r base64 d network addr dial write flush arrival)
