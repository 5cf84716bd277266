-- ===== src/Proxy/Server.antt =====
-- http_server.go, api.go, shutdown.go, bind/redact.go and ratelimit/: the servers beside the proxy.
-- What net/http, net and golang.org/x/time/rate do are parameters.
pub mod Answers
use forwarder.Base.{
  ℕ, ◌/◌, Bool, true, false, not, ◌&&◌, ◌||◌, Option, none, some, List, [], ◌∷◌, ◌++◌, Bytes, codes,
  beq, has_prefix, ltb, ◌==◌, if◌then◌else◌, Result, ok, err,
}
use forwarder.Http.Headers.{Headers, set_header}
use forwarder.Proxy.Config.{Userinfo}
use forwarder.Proxy.Log.{LogMode, no_log}

-- `http.ResponseWriter`: the headers of the handler's map, and, once `WriteHeader` was called, the status and the headers that were sent.
pub record Writer : Type 0 where
  pub map : Headers
  pub sent : Option (ℕ × Headers)
  pub written : Bytes

abbrev pub new_answer : Writer
new_answer = record { map = []; sent = none; written = [] }

-- `WriteHeader`: a second call does nothing.
abbrev pub sent_with : ℕ → Headers → Option (ℕ × Headers) → Option (ℕ × Headers)
sent_with status h none = some (status, h)
sent_with status h (some old) = some old

abbrev pub write_header : ℕ → Writer → Writer
write_header status w = record w { sent = sent_with status w.map w.sent }

abbrev pub set_field : Bytes → Bytes → Writer → Writer
set_field k v w = record w { map = set_header k v w.map }

-- `Write`, which sends status 200 if none was sent.
abbrev pub write_text : Bytes → Writer → Writer
write_text s w = record w { sent = sent_with 200 w.map w.sent; written = w.written ++ s }

-- `healthz`
pub healthz : Writer
healthz =
    write_text (codes "OK")
      (set_field (codes "Content-Type") (codes "text/plain") (write_header 200 new_answer))

abbrev pub ready_text : Bool → Bytes
ready_text true = codes "OK"
ready_text false = codes "Service Unavailable"

-- `readyz`, by what the check says; without one the server is ready.
abbrev pub is_ready : Option Bool → Bool
is_ready none = true
is_ready (some b) = b

pub readyz : Option Bool → Writer
readyz check = write_text (ready_text (is_ready check)) (
    set_field (codes "Content-Type") (codes "text/plain")
      (write_header (if is_ready check then 200 else 503) new_answer))

-- The layers that `withMiddleware` puts around a handler, the outermost first.
pub data Middleware : Type 0 where
  prometheus : Middleware
  logging : LogMode → Middleware
  authentication : Bytes → Bytes → Middleware

abbrev pub password_of : Userinfo → Bytes
password_of u = elim u.password [ none ↦ [] | some p ↦ p ]

abbrev pub auth_layer : Option Userinfo → List Middleware
auth_layer none = []
auth_layer (some u) = authentication u.username (password_of u) ∷ []

abbrev pub log_layer : LogMode → List Middleware
log_layer no_log = []
log_layer m = logging m ∷ []

-- `withMiddleware`
pub with_middleware : Option Userinfo → LogMode → List Middleware
with_middleware user mode = prometheus ∷ (log_layer mode ++ auth_layer user)

pub data ServerError : Type 0 where
  server_certificate server_listener server_protocol : ServerError
  serving_failed : Bytes → ServerError

abbrev pub is_protocol : Bytes → Bool
is_protocol p = beq p (codes "http") || beq p (codes "https") || beq p (codes "h2")

-- `NewHTTPServer`, for a valid configuration: whether the certificates load, and whether the listener opens.
pub new_http_server : Bytes → Bool → Bool → Option ServerError
new_http_server protocol loads opens =
    if (beq protocol (codes "https") || beq protocol (codes "h2")) && not loads
    then some server_certificate
    else if not (is_protocol protocol)
    then some server_protocol
    else if not opens
    then some server_listener
    else none

-- What `Serve` of an `http.Server` returns.
pub data Served : Type 0 where
  no_error : Served
  server_closed : Served
  failed_with : Bytes → Served

-- `HTTPServer.Run`: its result, and whether it waits for the goroutine that shuts the server down.
pub run_server : Bytes → Served → Option ServerError × Bool
run_server protocol served =
    if is_protocol protocol
    then elim served [
      | no_error ↦ (none, true)
      | server_closed ↦ (none, false)
      | failed_with e ↦ (some (serving_failed e), false)
    ]
    else (some server_protocol, false)

-- `shutdownContext`: the signals that end it, and its timeout in nanoseconds.
pub shutdown_context : List ℕ → ℕ → List ℕ × Option ℕ
shutdown_context signals timeout = (signals, if ltb 0 timeout then some timeout else none)

-- `RedactUserinfo` and `RedactBase64`
pub redact_userinfo : Option Userinfo → Bytes
redact_userinfo none = []
redact_userinfo (some u) = elim u.password [
  | none ↦ u.username
  | some p ↦ u.username ++ codes ":xxxxx"
]

pub redact_base64 : Bytes → Bytes
redact_base64 s = if has_prefix s (codes "data:") then codes "data:xxxxx" else s

-- `newRateLimiter`: the rate in bytes for a second, and the burst.
abbrev pub default_max_burst_size : ℕ
default_max_burst_size = 4194304

abbrev pub new_rate_limiter : ℕ → ℕ × ℕ
new_rate_limiter bandwidth = (
  bandwidth,
  if ltb (bandwidth / 64) default_max_burst_size then default_max_burst_size else bandwidth / 64,
)

abbrev pub limiter_for : ℕ → Option (ℕ × ℕ)
limiter_for bandwidth = if ltb 0 bandwidth then some (new_rate_limiter bandwidth) else none

-- `ratelimit.Listener`: what is received is limited for the writes of the peer, what is sent for its reads.
pub record RateLimits : Type 0 where
  pub rx_limiter : Option (ℕ × ℕ)
  pub tx_limiter : Option (ℕ × ℕ)

-- `NewListener`
pub new_rate_listener : ℕ → ℕ → RateLimits
new_rate_listener read_limit write_limit = record {
  rx_limiter = limiter_for write_limit;
  tx_limiter = limiter_for read_limit;
}

-- `Conn.Read` and `Conn.Write`: the result of the call below is returned as it is, and the limiter is asked for the bytes that it moved.
abbrev pub asked : Option (ℕ × ℕ) → ℕ → List ℕ
asked none n = []
asked (some l) n = if ltb 0 n then n ∷ [] else []

pub limited_call : {E : Type 0} → Option (ℕ × ℕ) → ℕ × Option E → (ℕ × Option E) × List ℕ
limited_call l (n, e) = ((n, e), asked l n)
