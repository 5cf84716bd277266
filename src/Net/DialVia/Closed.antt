-- ===== src/Net/DialVia/Closed.antt =====
-- dialvia/http.go: no connection is left open without its owner.
use forwarder.Base.{
  ℕ, suc, ◌+◌, ◌≡◌, refl, Bool, true, false, Option, none, some, List, [], ◌∷◌, ◌++◌, Bytes, codes,
  beq, if◌then◌else◌, arith,
}
use forwarder.Http.Headers.{Headers}
use forwarder.Net.DialVia.{
  HttpProxyDialer, ViaEvent, connected, tls_client, sent, closed, body_closed, Arrival,
  context_done, unreadable, arrived, Via, through, failed, unsupported_network, ViaConn, tunnel,
  after_send, put_before, connection, after_dial, connect_header, dial_context_r, via_conn,
  dial_context,
}

abbrev pub opened : List ViaEvent → ℕ
opened [] = 0
opened (connected h ∷ es) = suc (opened es)
opened (e ∷ es) = opened es

abbrev pub closings : List ViaEvent → ℕ
closings [] = 0
closings (closed ∷ es) = suc (closings es)
closings (e ∷ es) = closings es

closings-append : (es fs : List ViaEvent) → closings (es ++ fs) ≡ closings es + closings fs
closings-append [] fs = omega arith
closings-append (closed ∷ es) fs = omega (arith, closings-append es fs)
closings-append (connected h ∷ es) fs = closings-append es fs
closings-append (tls_client ∷ es) fs = closings-append es fs
closings-append (sent a h ∷ es) fs = closings-append es fs
closings-append (body_closed ∷ es) fs = closings-append es fs

opened-append : (es fs : List ViaEvent) → opened (es ++ fs) ≡ opened es + opened fs
opened-append [] fs = omega arith
opened-append (connected h ∷ es) fs = omega (arith, opened-append es fs)
opened-append (closed ∷ es) fs = opened-append es fs
opened-append (tls_client ∷ es) fs = opened-append es fs
opened-append (sent a h ∷ es) fs = opened-append es fs
opened-append (body_closed ∷ es) fs = opened-append es fs

with_tls :
    (tls : Bool) (d : HttpProxyDialer) (addr : Bytes) (h : Headers)
    → let es =
        connected d.via_host ∷ ((if tls then tls_client ∷ [] else []) ++ (sent addr h ∷ [])) in
      (opened es ≡ 1) × (closings es ≡ 0)
with_tls true d addr h = (refl, refl)
with_tls false d addr h = (refl, refl)

opened-connection :
    (d : HttpProxyDialer) (addr : Bytes) (h : Headers)
    → (opened (connection d addr h) ≡ 1) × (closings (connection d addr h) ≡ 0)
opened-connection d addr h = with_tls (beq d.via_scheme (codes "https")) d addr h

module _ {E : Type 0} where
  abbrev pub held : Via E → ℕ
  held (through res) = 1
  held v = 0

  abbrev pub given : ViaConn E → ℕ
  given tunnel = 1
  given v = 0

  -- Between the dialing and the end.
  abbrev Waiting : Via E × List ViaEvent → Type 0
  Waiting (v, es) = (opened es ≡ 0) × (closings es + held v ≡ 1)

  -- What is open is held.
  abbrev Kept : Via E × List ViaEvent → Type 0
  Kept (v, es) = opened es ≡ closings es + held v

  after_send-Waiting :
      (write flush : Option E) (arrival : Arrival E) → Waiting (after_send write flush arrival)
  after_send-Waiting (some e) flush arrival = (refl, omega arith)
  after_send-Waiting none (some e) arrival = (refl, omega arith)
  after_send-Waiting none none (context_done e) = (refl, omega arith)
  after_send-Waiting none none (unreadable e) = (refl, omega arith)
  after_send-Waiting none none (arrived res) = (refl, omega arith)

  put_before-Kept :
      (es : List ViaEvent) (v : Via E) (fs : List ViaEvent)
      → opened es ≡ 1
      → closings es ≡ 0
      → Waiting (v, fs)
      → Kept (put_before es (v, fs))
  put_before-Kept es v fs a b (c, d) = omega (arith, opened-append es fs, closings-append es fs)

  after_dial-Kept :
      (d : HttpProxyDialer) (addr : Bytes) (h : Headers) (dial write flush : Option E)
      (arrival : Arrival E)
      → Kept (after_dial d addr h dial write flush arrival)
  after_dial-Kept d addr h (some e) write flush arrival = omega arith
  after_dial-Kept d addr h none write flush arrival =
      let (a, b) = opened-connection d addr h in
      let r = after_send write flush arrival in
      put_before-Kept (connection d addr h) r.0 r.1 a b (after_send-Waiting write flush arrival)

  Kept-if :
      (r : Via E × List ViaEvent) (t : Bool)
      → Kept r
      → Kept (if t then r else (unsupported_network, []))
  Kept-if r true h = h
  Kept-if r false h = omega arith

  dial_context_r-Kept :
      (base64 : Bytes → Bytes) (d : HttpProxyDialer) (network addr : Bytes)
      (dial write flush : Option E) (arrival : Arrival E)
      → Kept (dial_context_r base64 d network addr dial write flush arrival)
  unfolding dial_context_r
  dial_context_r-Kept base64 d network addr dial write flush arrival =
      Kept-if (after_dial d addr (connect_header base64 d) dial write flush arrival) _
        (after_dial-Kept d addr (connect_header base64 d) dial write flush arrival)

  abbrev pub Settled : ViaConn E × List ViaEvent → Type 0
  Settled (v, es) = opened es ≡ closings es + given v

  via_conn-Settled : (v : Via E) (es : List ViaEvent) → Kept (v, es) → Settled (via_conn (v, es))
  via_conn-Settled (failed e) es h = h
  via_conn-Settled unsupported_network es h = h
  via_conn-Settled (through res) es h = ground (
    arith,
    h,
    opened-append es (body_closed ∷ []),
    closings-append es (body_closed ∷ []),
    opened-append es (closed ∷ (body_closed ∷ [])),
    closings-append es (closed ∷ (body_closed ∷ [])),
  )

  -- A dialer through an HTTP proxy opens as many connections as it closes, and one more exactly when it returns a connection:
  -- whatever fails, of the writing, the reading and the time limit, or if the proxy refuses, nothing is left open.
  pub dial_context-Settled :
      (base64 : Bytes → Bytes) (d : HttpProxyDialer) (network addr : Bytes)
      (dial write flush : Option E) (arrival : Arrival E)
      → Settled (dial_context base64 d network addr dial write flush arrival)
  unfolding dial_context
  dial_context-Settled base64 d network addr dial write flush arrival =
      let r = dial_context_r base64 d network addr dial write flush arrival in
      via_conn-Settled r.0 r.1 (dial_context_r-Kept base64 d network addr dial write flush arrival)
